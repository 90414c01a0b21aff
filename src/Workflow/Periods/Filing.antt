-- ===== src/Workflow/Periods/Filing.antt =====
-- What the table of period transitions rules out over whole histories.
use meet_millions_finance.Prelude.{
  Bool-cases, nat_eq, any, All, contains, ◌≡◌, inl, inr, Bool, true, false, List, [], ◌∷◌, arith,
}
use meet_millions_finance.Workflow.Periods.{
  PeriodStatus, client_review, signed_off, paid, filed, archived, period_eq, can_transition_period,
}

-- A history: every status is reached from the one before it by a listed transition.
abbrev pub IsLegal : PeriodStatus → List PeriodStatus → Type 0
IsLegal s [] = Unit
IsLegal s (t ∷ ts) = (can_transition_period s t ≡ true) × IsLegal t ts

-- The statuses that come only after sign-off.
abbrev pub is_signed : PeriodStatus → Bool
is_signed signed_off = true
is_signed paid = true
is_signed filed = true
is_signed archived = true
is_signed _ = false

signing_step :
    (s t : PeriodStatus)
    → can_transition_period s t ≡ true
    → is_signed s ≡ false
    → is_signed t ≡ true
    → (s ≡ client_review) × (t ≡ signed_off)
unfolding can_transition_period
signing_step s t h k l = ground arith

signed_stays :
    (s t : PeriodStatus)
    → can_transition_period s t ≡ true
    → is_signed s ≡ true
    → is_signed t ≡ true
unfolding can_transition_period
signed_stays s t h k = ground arith

-- A history of listed transitions that begins before sign-off and contains a status past it
-- contains client review (or begins there) and sign-off; one that begins past sign-off never leaves
-- those statuses.
pub filing_needs_sign_off :
    (s : PeriodStatus) (ts : List PeriodStatus)
    → IsLegal s ts
    → (is_signed s ≡ false
        → any is_signed ts ≡ true
        → (contains client_review (s ∷ ts) ≡ true) × (contains signed_off ts ≡ true))
      × (is_signed s ≡ true → All (λ t. is_signed t ≡ true) ts)
filing_needs_sign_off s [] h = ((λ p q. cc), (λ _. tt))
filing_needs_sign_off s (t ∷ ts) h =
    let (before, after) = filing_needs_sign_off t ts h.1 in
    (
      (λ p q. elim (Bool-cases (is_signed t)) [
        | inl now ↦
            let (at, is) = signing_step s t h.0 p now in (ground (arith, at), ground (arith, is))
        | inr later ↦
            let (reviewed, signed) = before later (ground (arith, q)) in
            (ground (arith, reviewed), ground (arith, signed))
      ]),
      λ p. let e = signed_stays s t h.0 p in (e, after e),
    )
