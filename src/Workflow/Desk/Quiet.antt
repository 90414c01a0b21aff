-- ===== src/Workflow/Desk/Quiet.antt =====
-- Patches of a document that its period does not see.
use meet_millions_finance.Prelude.{
  ◌==◌, Bool-cases, nat_eq, length, ℕ, ◌≡◌, refl, inl, inr, List, [], ◌∷◌, arith,
}
use meet_millions_finance.Store.{update}
use meet_millions_finance.Workflow.Documents.{DocStatus, doc_eq, Document}
use meet_millions_finance.Workflow.Periods.{of_period, count_in}
use meet_millions_finance.Workflow.Desk.{Desk, document_row}
use meet_millions_finance.Workflow.Desk.Step.{SameBelow}

-- A patch that leaves period, status and deletion alone.
pub record IsQuiet (g : Document → Document) : Type 0 where
  pub period : (d : Document) → (g d).filing_period_id ≡ d.filing_period_id
  pub status : (d : Document) → (g d).status ≡ d.status
  pub deletion : (d : Document) → (g d).is_deleted ≡ d.is_deleted

quiet_total :
    (j k : ℕ) (g : Document → Document) (docs : List Document)
    → IsQuiet g
    → length (of_period j (update k g docs)) ≡ length (of_period j docs)
unfolding update
quiet_total j k g [] q = refl
quiet_total j k g (d ∷ docs) q = elim (Bool-cases (d.id == k)) [
  | inl here ↦ rw (here, q.period d, q.deletion d) (ground (arith, quiet_total j k g docs q))
  | inr there ↦ rw there (ground (arith, quiet_total j k g docs q))
]

quiet_count :
    (j k : ℕ) (g : Document → Document) (w : List DocStatus) (docs : List Document)
    → IsQuiet g
    → count_in w (of_period j (update k g docs)) ≡ count_in w (of_period j docs)
unfolding update
quiet_count j k g w [] q = refl
quiet_count j k g w (d ∷ docs) q = elim (Bool-cases (d.id == k)) [
  | inl here ↦
      rw (here, q.period d, q.deletion d) (ground (arith, quiet_count j k g w docs q, q.status d))
  | inr there ↦ rw there (ground (arith, quiet_count j k g w docs q))
]

pub quiet-SameBelow :
    (t : Desk) (k : ℕ) (g : Document → Document) (j : ℕ)
    → IsQuiet g
    → SameBelow t (record t { documents = update k g t.documents }) j
quiet-SameBelow t k g j q = record {
  total = quiet_total j k g t.documents q;
  counts = λ w. quiet_count j k g w t.documents q;
  required = refl;
  queries = refl;
}
