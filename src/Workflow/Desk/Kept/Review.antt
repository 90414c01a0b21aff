-- ===== src/Workflow/Desk/Kept/Review.antt =====
-- Opening, assigning and deciding keep the periods in step.
use meet_millions_finance.Prelude.{
  Bool-cases, nat_eq, beq_of, ℕ, ◌≡◌, refl, inl, inr, Bool, true, false, Option, none, some, [],
  ◌∷◌, arith,
}
use meet_millions_finance.Store.{find}
use meet_millions_finance.Workflow.Documents.{
  Document, Priority, DecisionInput, Decided, done, refused, decide, decision_patch, is_raise_query,
  DocStatus, DocStatus-discrete,
}
use meet_millions_finance.Workflow.Desk.{
  VerificationRecord, Desk, sync_checklist, document_row, query_row,
}
use meet_millions_finance.Workflow.Desk.Review.{
  Call, create_query, with_thread, decided_rows, open_row, open_at, assign_row, assign_at,
  decide_done, decide_at,
}
use meet_millions_finance.Workflow.Desk.Step.{noted}
use meet_millions_finance.Workflow.Desk.Kept.{
  IsSound, IsInStep, Keeps, with_record, refreshed-IsInStep, patch-IsSound, refresh_at-IsSound,
  checklist-IsSound, create_query-IsSound, noted_twice, quiet-IsSound,
}

pub open_at-Keeps :
    (user k : ℕ) (o : Option Document) (t : Desk)
    → find k t.documents ≡ o
    → IsInStep t
    → Keeps (open_at user o t)
open_at-Keeps user k none t f s = tt
open_at-Keeps user k (some d) t f s =
    elim (Bool-cases (beq_of DocStatus-discrete d.status DocStatus.submitted)) [
      | inl e ↦ rw e (refreshed-IsInStep t k (open_row user d) f (λ x. refl) refl s)
      | inr e ↦ rw e s
    ]

pub assign_at-Keeps :
    (known : Bool) (to : ℕ) (priority : Option Priority) (o : Option Document) (t : Desk)
    → IsInStep t
    → Keeps (assign_at known to priority o t)
assign_at-Keeps known to priority none t s = tt
assign_at-Keeps true to priority (some d) t s =
    quiet-IsSound [] t d.id (assign_row to priority) (λ x. refl)
      (record { period = λ x. refl; status = λ x. refl; deletion = λ x. refl }) s
assign_at-Keeps false to priority (some d) t s = tt

with_thread-IsSound :
    (c : Call) (i : DecisionInput) (d : Document) (t : Desk)
    → find c.new_id t.queries ≡ none
    → IsSound (noted d.filing_period_id []) t
    → IsSound (noted d.filing_period_id []) (with_thread c i d t)
with_thread-IsSound c i d t fresh s = elim (Bool-cases (is_raise_query i.decision)) [
  | inl e ↦ rw e (
      noted_twice d.filing_period_id [] (create_query c (some d.id) d.filing_period_id t) (
        create_query-IsSound c (some d.id) d.filing_period_id (noted d.filing_period_id []) t fresh
          s))
  | inr e ↦ rw e s
]

-- The document of a decision stays in its period.
done_period :
    (user now : ℕ) (may_lock : Bool) (i : DecisionInput) (d : Document) {d' : Document}
    {r : VerificationRecord}
    → decide user now may_lock i d ≡ done d' r
    → d'.filing_period_id ≡ d.filing_period_id
unfolding decide
done_period user now may_lock i d {d'} e = ground arith

decide_done-Keeps :
    (c : Call) (may_lock : Bool) (i : DecisionInput) (k : ℕ) (d : Document) (x : Decided) (t : Desk)
    → find k t.documents ≡ some d
    → decide c.user c.now may_lock i d ≡ x
    → find c.new_id t.queries ≡ none
    → IsInStep t
    → Keeps (decide_done c may_lock i d x t)
unfolding sync_checklist
decide_done-Keeps c may_lock i k d (refused e) t f q fresh s = tt
decide_done-Keeps c may_lock i k d (done d' r) t f q fresh s =
    let same = done_period c.user c.now may_lock i d q in
    let t' = record t { records = r ∷ t.records } in
    let patched : IsSound (noted d'.filing_period_id []) (decided_rows c may_lock i d t') =
      rw same (
        patch-IsSound [] t' k (decision_patch c.user c.now may_lock i) f (λ x. refl) refl
          (with_record r t s)) in
    let rows = decided_rows c may_lock i d t' in
    let synced = checklist-IsSound d' (noted d'.filing_period_id []) rows patched in
    refresh_at-IsSound d'.filing_period_id [] (with_thread c i d' (sync_checklist d' rows))
      (with_thread-IsSound c i d' (sync_checklist d' rows) fresh synced)

pub decide_at-Keeps :
    (c : Call) (may_lock : Bool) (i : DecisionInput) (k : ℕ) (o : Option Document) (t : Desk)
    → find k t.documents ≡ o
    → find c.new_id t.queries ≡ none
    → IsInStep t
    → Keeps (decide_at c may_lock i o t)
decide_at-Keeps c may_lock i k none t f fresh s = tt
decide_at-Keeps c may_lock i k (some d) t f fresh s =
    decide_done-Keeps c may_lock i k d (decide c.user c.now may_lock i d) t f refl fresh s
