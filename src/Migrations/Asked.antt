-- ===== src/Migrations/Asked.antt =====
-- What a plan that is safe asks for.
use meet_millions_finance.Prelude.{
  ltb, if◌then◌else◌, Bool-cases, nat_eq, ◌≡◌, refl, sym, inl, inr, Bool, true, false, not, Option,
  none, some, List, [], ◌∷◌,
}
use meet_millions_finance.Prelude.Text.{Text, text_eq}
use meet_millions_finance.Migrations.{
  State, Plan, Verification, plan_migration, plan_unrecorded, has_baseline, pending_of, is_refuse,
  is_empty, is_subset, unhandled,
}

-- What a plan asks for, if it is safe, given whether the baseline is recorded.
abbrev Asks : Bool → State → Plan → Type 0
Asks b s p =
    p.safe ≡ true
    → (is_refuse p.action ≡ false)
      × (p.pending ≡ pending_of s)
      × (p.recorded ≡ (if b then [] else s.baseline_name ∷ s.covered))

either_Asks :
    (b : Bool) (s : State) (test : Bool) (x y : Plan)
    → Asks b s x
    → Asks b s y
    → Asks b s (if test then x else y)
either_Asks b s true x y h k = h
either_Asks b s false x y h k = k

empty_list : (xs : List Text) → is_empty xs ≡ true → xs ≡ []
empty_list [] h = refl
empty_list (x ∷ xs) h = cc

unrecorded_Asks : (s : State) (v : Option Verification) → Asks false s (plan_unrecorded v s)
unrecorded_Asks s none = λ h. cc
unrecorded_Asks s (some v) =
    either_Asks false s v.is_match _ _ (λ h. (refl, refl, refl))
      (either_Asks false s (is_subset v) _ _ (λ h. (refl, refl, refl)) (λ h. cc))

recorded_Asks : (s : State) → has_baseline s ≡ true → Asks (has_baseline s) s (plan_migration s)
unfolding plan_migration
recorded_Asks s b = elim (Bool-cases (is_empty (pending_of s))) [
  | inl e ↦
      rw (b, e)
        (either_Asks true s (not (is_empty (unhandled s))) _ _ (λ h. cc)
          (λ h. (refl, sym (empty_list (pending_of s) e), refl)))
  | inr n ↦
      rw (b, n)
        (either_Asks true s (not (is_empty (unhandled s))) _ _ (λ h. cc) (λ h. (refl, refl, refl)))
]

pub safe_plan : (s : State) → Asks (has_baseline s) s (plan_migration s)
unfolding plan_migration
safe_plan s = elim (Bool-cases (has_baseline s)) [
  | inl b ↦ recorded_Asks s b
  | inr n ↦ rw n (
      either_Asks false s (ltb 0 s.table_count) _ _ (unrecorded_Asks s s.verification)
        (λ h. (refl, refl, refl)))
]
