-- ===== src/Reports/Counted.antt =====
-- How many approvals of a report are pending.
use meet_millions_finance.Prelude.{
  if◌then◌else◌, ==_refl, Bool-cases, nat_eq, sum_by, ℕ, ◌≡◌, refl, sym, ◌∙◌, ◌≢◌, ◌⊎◌, inl, inr,
  Bool, true, Option, none, some, List, [], ◌∷◌, arith,
}
use mathlib.Core.Path.{subst}
use meet_millions_finance.Store.{find, DistinctIds}
use meet_millions_finance.Store.Rows.{sum_by-update}
use meet_millions_finance.Reports.{
  Approval, approval_row, is_pending_for, higher, pending_approval_of,
}
use meet_millions_finance.Reports.Routes.{Caller, decide_approval, close_approval}

abbrev pub pending_one : ℕ → Approval → ℕ
pending_one k a = if is_pending_for k a then 1 else 0

-- The number of pending approvals of the report `k`.
abbrev pub pending_count : ℕ → List Approval → ℕ
pending_count k approvals = sum_by (pending_one k) approvals

pub decided_not_pending :
    (j : ℕ) (c : Caller) (approves : Bool) (comment : Option ℕ) (a : Approval)
    → pending_one j (decide_approval c approves comment a) ≡ 0
decided_not_pending j c approves comment a = ground arith

-- What is true of the approval that the query selects.
abbrev IsSelected : ℕ → List Approval → Approval → Type 0
IsSelected k approvals a = (find a.id approvals ≡ some a) × (is_pending_for k a ≡ true)

higher_cases : (a b : Approval) → (higher a (some b) ≡ a) ⊎ (higher a (some b) ≡ b)
higher_cases a b = ground arith

behind :
    (k : ℕ) (x : Approval) (xs : List Approval) (a : Approval)
    → find x.id xs ≡ none
    → IsSelected k xs a
    → IsSelected k (x ∷ xs) a
unfolding find
behind k x xs a absent s = ground (arith)

in_front :
    (k : ℕ) (x : Approval) (xs : List Approval)
    → is_pending_for k x ≡ true
    → IsSelected k (x ∷ xs) x
unfolding find
in_front k x xs h = (rw (==_refl x.id) refl, h)

-- The choice between the first approval and the one chosen behind it.
chosen :
    (k : ℕ) (x : Approval) (xs : List Approval) (o : Option Approval) (a : Approval)
    → find x.id xs ≡ none
    → ((b : Approval) → o ≡ some b → IsSelected k xs b)
    → (if is_pending_for k x then some (higher x o) else o) ≡ some a
    → IsSelected k (x ∷ xs) a
chosen k x xs none a absent later e = elim (Bool-cases (is_pending_for k x)) [
  | inl p ↦
      let q : some x ≡ some a = rw p at e in
      let same : x ≡ a = cc in subst (IsSelected k (x ∷ xs)) same (in_front k x xs p)
  | inr p ↦ let q : none ≡ some a = rw p at e in cc
]
chosen k x xs (some b) a absent later e = elim (Bool-cases (is_pending_for k x)) [
  | inl p ↦
      let q : some (higher x (some b)) ≡ some a = rw p at e in
      let same : higher x (some b) ≡ a = cc in
      elim (higher_cases x b) [
        | inl h ↦ subst (IsSelected k (x ∷ xs)) (sym h ∙ same) (in_front k x xs p)
        | inr h ↦
            subst (IsSelected k (x ∷ xs)) (sym h ∙ same) (behind k x xs b absent (later b refl))
      ]
  | inr p ↦
      let q : some b ≡ some a = rw p at e in
      let same : b ≡ a = cc in
      subst (IsSelected k (x ∷ xs)) same (behind k x xs b absent (later b refl))
]

selected :
    (k : ℕ) (xs : List Approval) (a : Approval)
    → DistinctIds xs
    → pending_approval_of k xs ≡ some a
    → IsSelected k xs a
unfolding pending_approval_of
selected k [] a d e = cc
selected k (x ∷ xs) a d e =
    chosen k x xs (pending_approval_of k xs) a d.0 (λ b f. selected k xs b d.1 f) e

none_pending :
    (k : ℕ) (xs : List Approval) → pending_approval_of k xs ≡ none → pending_count k xs ≡ 0
unfolding pending_approval_of
none_pending k [] e = refl
none_pending k (x ∷ xs) e = ground (arith, none_pending k xs)

other_report : (j k : ℕ) (a : Approval) → j ≢ k → is_pending_for k a ≡ true → pending_one j a ≡ 0
other_report j k a n h = ground arith

-- Closing an approval leaves the others' counts, and closes one of the report's.
pub close_other :
    (c : Caller) (approves : Bool) (comment : Option ℕ) (j k : ℕ) (o : Option Approval)
    (xs : List Approval)
    → DistinctIds xs
    → pending_approval_of k xs ≡ o
    → j ≢ k
    → pending_count j (close_approval c approves comment o xs) ≡ pending_count j xs
close_other c approves comment j k none xs d e n = refl
close_other c approves comment j k (some a) xs d e n =
    let s = selected k xs a d e in
    let moved = sum_by-update (pending_one j) a.id (decide_approval c approves comment) xs d s.0 in
    let after = decided_not_pending j c approves comment a in
    let before : pending_one j a ≡ 0 = other_report j k a n s.1 in
    omega (arith, moved, after, before)

pub close_own :
    (c : Caller) (approves : Bool) (comment : Option ℕ) (k : ℕ) (o : Option Approval)
    (xs : List Approval)
    → DistinctIds xs
    → pending_approval_of k xs ≡ o
    → pending_count k xs ≡ 1
    → pending_count k (close_approval c approves comment o xs) ≡ 0
close_own c approves comment k none xs d e n =
    let bad = none_pending k xs e in omega (arith, bad, n)
close_own c approves comment k (some a) xs d e n =
    let s = selected k xs a d e in
    let moved = sum_by-update (pending_one k) a.id (decide_approval c approves comment) xs d s.0 in
    let after = decided_not_pending k c approves comment a in
    let before : pending_one k a ≡ 1 = rw (s.1) refl in omega (arith, moved, after, before, n)
