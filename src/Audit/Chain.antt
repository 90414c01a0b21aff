-- ===== src/Audit/Chain.antt =====
-- What the walk of the chain shows (src/services/audit.js, `verifyChain`, `audit`).
use meet_millions_finance.Audit.{
  verdict_of, valid, Verdict, verify_chain, take, first_sequence, check_rows, Break, hashed_fields,
  check_row, hashed_text, AuditRow, null_eq,
}
use meet_millions_finance.Prelude.{
  ◌==◌, ==_iff, Bool-cases, nat_eq, length, ℕ, zero, suc, ◌+◌, ◌≡◌, refl, sym, ap, inl, inr, true,
  Option, none, some, List, [], ◌∷◌, arith,
}
use mathlib.Core.Path.{subst}
use meet_millions_finance.Tax.Gst.{Code, code_eq}
use meet_millions_finance.Tax.Gst.Place.{code_eq_refl, code_eq_sound}
use meet_millions_finance.Audit.{AuditRow, Break, Verdict}

null_eq_refl : (x : Option Code) → null_eq x x ≡ true
null_eq_refl none = refl
null_eq_refl (some s) = code_eq_refl s

null_eq_sound : (x y : Option Code) → null_eq x y ≡ true → x ≡ y
null_eq_sound none none h = refl
null_eq_sound none (some t) h = cc
null_eq_sound (some s) none h = cc
null_eq_sound (some s) (some t) h = ap some (code_eq_sound s t h)

-- A row that follows `prev`: what the three tests of the walk say.
abbrev pub Follows : (Code → Code) → Option Code → ℕ → AuditRow → Type 0
Follows sha256 prev expected r =
    (r.sequence ≡ expected)
    × (r.prev_hash ≡ prev)
    × (r.hash ≡ sha256 (hashed_text prev (hashed_fields r)))

-- A run of rows that follow one another.
abbrev pub Linked : (Code → Code) → Option Code → ℕ → List AuditRow → Type 0
Linked sha256 prev expected [] = Unit
Linked sha256 prev expected (r ∷ rs) =
    Follows sha256 prev expected r × Linked sha256 (some r.hash) (expected + 1) rs

row_sound :
    (sha256 : Code → Code) (prev : Option Code) (expected : ℕ) (r : AuditRow)
    → check_row sha256 prev expected r ≡ none
    → Follows sha256 prev expected r
row_sound sha256 prev expected r h = elim (Bool-cases (r.sequence == expected)) [
  | inl e ↦ elim (Bool-cases (null_eq r.prev_hash prev)) [
    | inl f ↦ elim (Bool-cases (code_eq (sha256 (hashed_text prev (hashed_fields r))) r.hash)) [
      | inl g ↦ (
        (==_iff r.sequence expected).0 e,
        null_eq_sound r.prev_hash prev f,
        sym (code_eq_sound _ _ g),
      )
      | inr g ↦ ground arith
    ]
    | inr f ↦ ground arith
  ]
  | inr e ↦ ground arith
]

row_complete :
    (sha256 : Code → Code) (prev : Option Code) (expected : ℕ) (r : AuditRow)
    → Follows sha256 prev expected r
    → check_row sha256 prev expected r ≡ none
row_complete sha256 prev expected r h =
    let e : (r.sequence == expected) ≡ true = (==_iff r.sequence expected).1 h.0 in
    let f : null_eq r.prev_hash prev ≡ true =
      subst (λ x. null_eq x prev ≡ true) (sym h.1) (null_eq_refl prev) in
    let g : code_eq (sha256 (hashed_text prev (hashed_fields r))) r.hash ≡ true =
      subst (λ x. code_eq (sha256 (hashed_text prev (hashed_fields r))) x ≡ true) (sym h.2)
        (code_eq_refl (sha256 (hashed_text prev (hashed_fields r)))) in
    ground arith

verdict_sound :
    (id : ℕ) (b : Option Break) (rest : Verdict)
    → verdict_of id b rest ≡ valid
    → (b ≡ none) × (rest ≡ valid)
verdict_sound id none rest h = (refl, h)
verdict_sound id (some b) rest h = cc

-- The walk accepts exactly the runs of rows that follow one another.
pub check_rows_sound :
    (sha256 : Code → Code) (prev : Option Code) (expected : ℕ) (rs : List AuditRow)
    → check_rows sha256 prev expected rs ≡ valid
    → Linked sha256 prev expected rs
unfolding check_rows
check_rows_sound sha256 prev expected [] h = tt
check_rows_sound sha256 prev expected (r ∷ rs) h =
    let both = verdict_sound r.id _ _ h in
    (
      row_sound sha256 prev expected r both.0,
      check_rows_sound sha256 (some r.hash) (expected + 1) rs both.1,
    )

pub check_rows_complete :
    (sha256 : Code → Code) (prev : Option Code) (expected : ℕ) (rs : List AuditRow)
    → Linked sha256 prev expected rs
    → check_rows sha256 prev expected rs ≡ valid
unfolding check_rows
check_rows_complete sha256 prev expected [] h = refl
check_rows_complete sha256 prev expected (r ∷ rs) h =
    rw (row_complete sha256 prev expected r h.0)
      (check_rows_complete sha256 (some r.hash) (expected + 1) rs h.1)

pub Linked-take :
    (sha256 : Code → Code) (prev : Option Code) (expected n : ℕ) (rs : List AuditRow)
    → Linked sha256 prev expected rs
    → Linked sha256 prev expected (take n rs)
Linked-take sha256 prev expected zero rs h = tt
Linked-take sha256 prev expected (suc n) [] h = tt
Linked-take sha256 prev expected (suc n) (r ∷ rs) h =
    (h.0, Linked-take sha256 (some r.hash) (expected + 1) n rs h.1)

pub take_all : (rs : List AuditRow) → take (length rs) rs ≡ rs
take_all [] = refl
take_all (r ∷ rs) = ap (λ l. r ∷ l) (take_all rs)

-- The whole log is a run of rows that follow one another from its first sequence number on.
abbrev pub IsChain : (Code → Code) → List AuditRow → Type 0
IsChain sha256 log = Linked sha256 none (first_sequence log) log

pub verify_chain_sound :
    (sha256 : Code → Code) (log : List AuditRow)
    → verify_chain sha256 (length log) log ≡ valid
    → IsChain sha256 log
unfolding verify_chain
verify_chain_sound sha256 log h =
    check_rows_sound sha256 none (first_sequence log) log
      (subst (λ l. check_rows sha256 none (first_sequence l) l ≡ valid) (take_all log) h)

pub verify_chain_complete :
    (sha256 : Code → Code) (limit : ℕ) (log : List AuditRow)
    → IsChain sha256 log
    → verify_chain sha256 limit log ≡ valid
unfolding verify_chain check_rows
verify_chain_complete sha256 zero log h = refl
verify_chain_complete sha256 (suc n) [] h = refl
verify_chain_complete sha256 (suc n) (r ∷ rs) h =
    check_rows_complete sha256 none r.sequence (take (suc n) (r ∷ rs))
      (Linked-take sha256 none r.sequence (suc n) (r ∷ rs) h)
