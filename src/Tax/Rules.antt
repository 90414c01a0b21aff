-- ===== src/Tax/Rules.antt =====
-- Which tax rule is in force (`resolveRule` of src/services/tax-engine.js). The query's `WHERE` and
-- `ORDER BY … LIMIT 1` are read as a filter and a choice of the first row in that order.
use meet_millions_finance.Prelude.{
  ltb, leb, ◌==◌, if◌then◌else◌, ltb→lt, leb→le, ==_iff, ==_refl, Bool-cases, Option-cases, or_else,
  is_some, Eq, nat_eq, beq_of, beq_of_iff, length, filter, any, All, length-append, length-filter,
  contains, sum_by, sum_by-append, ℕ, zero, suc, ◌+◌, ◌-◌, ◌*◌, ◌/◌, ◌%◌, ◌^◌, ◌≤◌, ◌<◌, max, min,
  String, ◌≡◌, refl, sym, ap, ◌∙◌, ◌≢◌, ◌↔◌, ◌⊎◌, inl, inr, Bool, true, false, not, ◌&&◌, ◌||◌,
  Option, none, some, List, [], ◌∷◌, ◌++◌, map, foldl, arith,
}
use meet_millions_finance.Tax.Gst.{Code, code_eq}
pub mod Resolve

pub data Regime : Type 0 where
  gst tds cess : Regime

pub Regime-discrete : Discrete Regime
Regime-discrete = hlevel

-- The columns of `tax_rules` that the query reads; instants are milliseconds.
pub record TaxRule : Type 0 where
  pub tenant_id : Option ℕ
  pub regime : Regime
  pub code : Code
  pub rate_pct : ℕ
  pub threshold_paise : ℕ
  pub effective_from : ℕ
  pub effective_to : Option ℕ
  pub is_verified : Bool

-- `tenant_id = ? OR tenant_id IS NULL`.
abbrev pub for_tenant : ℕ → Option ℕ → Bool
for_tenant tenant none = true
for_tenant tenant (some t) = t == tenant

-- `effective_to IS NULL OR effective_to >= ?`.
abbrev pub not_ended : ℕ → Option ℕ → Bool
not_ended at none = true
not_ended at (some e) = leb at e

-- The `WHERE` clause.
abbrev pub applies : ℕ → Regime → Code → ℕ → Bool → TaxRule → Bool
applies tenant regime code at verified_only r =
    beq_of Regime-discrete r.regime regime
    && code_eq r.code code
    && for_tenant tenant r.tenant_id
    && leb r.effective_from at
    && not_ended at r.effective_to
    && (not verified_only || r.is_verified)

abbrev pub tenant_rank : TaxRule → ℕ
tenant_rank r = if is_some r.tenant_id then 0 else 1

-- `ORDER BY (tenant_id IS NULL) ASC, effective_from DESC`: `r` comes strictly before `s`.
abbrev pub sorts_before : TaxRule → TaxRule → Bool
sorts_before r s =
    ltb (tenant_rank r) (tenant_rank s)
    || (tenant_rank r == tenant_rank s && ltb s.effective_from r.effective_from)

-- The first row of the ordered result.
unfoldable pub first_rule : List TaxRule → Option TaxRule
first_rule [] = none
first_rule (r ∷ rs) = elim (first_rule rs) [
  | none ↦ some r
  | some s ↦ if sorts_before s r then some s else some r
]

unfoldable pub resolve_rule : List TaxRule → ℕ → Regime → Code → ℕ → Bool → Option TaxRule
unfolding first_rule
resolve_rule rules tenant regime code at verified_only =
    first_rule (filter (applies tenant regime code at verified_only) rules)
