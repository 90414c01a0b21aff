-- ===== src/Tax/Rules/Resolve.antt =====
-- The rule found is in force and none in force comes before it.
use meet_millions_finance.Prelude.{
  if◌then◌else◌, nat_eq, All, ◌≡◌, Bool, true, false, Option, none, some, List, ◌∷◌, ◌++◌,
}
use meet_millions_finance.Tax.Rules.{TaxRule, sorts_before}

-- The rule is a row of the table.
abbrev pub IsRow : TaxRule → List TaxRule → Type 0
IsRow r rs = (before : List TaxRule) × (after : List TaxRule) × (rs ≡ before ++ r ∷ after)

-- What a resolution may return over the rules in force.
abbrev pub Resolved : (TaxRule → Bool) → List TaxRule → Option TaxRule → Type 0
Resolved p rs none = All (λ s. p s ≡ false) rs
Resolved p rs (some r) =
    IsRow r rs × (p r ≡ true) × All (λ s. p s ≡ true → sorts_before s r ≡ false) rs

-- The choice of `first_rule` at a row that is in force.
abbrev better : TaxRule → Option TaxRule → Option TaxRule
better r o = elim o [ none ↦ some r | some s ↦ if sorts_before s r then some s else some r ]
