-- ===== src/Workflow/Desk/Raised.antt =====
-- Raising a query on a document.
use meet_millions_finance.Prelude.{
  ◌==◌, ==_refl, nat_eq, ℕ, ◌≡◌, refl, sym, ◌≢◌, true, false, Option, none, some, arith,
}
use mathlib.Core.Path.{subst}
use meet_millions_finance.Store.{find, update}
use meet_millions_finance.Store.Rows.{find-update_self, find_id}
use meet_millions_finance.Workflow.Documents.{DocStatus, Document}
use meet_millions_finance.Workflow.Desk.{Answer, DeskError, Desk, ok, refresh_at, document_row}
use meet_millions_finance.Workflow.Desk.Review.{Call, create_query}
use meet_millions_finance.Workflow.Desk.Queries.{
  raise_query_on, raise_with, mark_queried, is_waiting, queue_document, set_due, first_of,
}

refresh_documents : (o : Option ℕ) (t : Desk) → (refresh_at o t).documents ≡ t.documents
refresh_documents none t = refl
refresh_documents (some k) t = refl

set_due_documents : (o : Option ℕ) (k : ℕ) (t : Desk) → (set_due o k t).documents ≡ t.documents
set_due_documents none k t = refl
set_due_documents (some due) k t = refl

queued_row :
    (k : ℕ) (d : Document) (t : Desk)
    → find k t.documents ≡ some d
    → is_waiting d.status ≡ false
    → find k (queue_document (some d) t).documents ≡ some (mark_queried d)
queued_row k d t f w =
    rw
      (
        w,
        refresh_documents d.filing_period_id
            (record t { documents = update d.id mark_queried t.documents }),
      )
      (subst (λ j. find k (update j mark_queried t.documents) ≡ some (mark_queried d))
        (sym (find_id k t.documents f)) (find-update_self k mark_queried t.documents (λ x. refl) f))

raised_row :
    (c : Call) (k : ℕ) (period due : Option ℕ) (t : Desk) {d : Document}
    → find k t.documents ≡ some d
    → is_waiting d.status ≡ false
    → find k (raise_with c period due (some d) t).documents ≡ some (mark_queried d)
raised_row c k period due t {d} f w =
    let made = create_query c (some d.id) (first_of period d.filing_period_id) t in
    queued_row k d (set_due due c.new_id made) (rw (set_due_documents due c.new_id made) f) w

-- A query raised on a document of the named client that is not waiting already is accepted whatever
-- the status and the lock of the document, and moves it to `query_raised`; the same call for any other
-- client is refused as not found.
pub raising_ignores_lock :
    (c : Call) (k : ℕ) (period due : Option ℕ) (t : Desk) {d : Document}
    → find k t.documents ≡ some d
    → is_waiting d.status ≡ false
    → ((t' : Desk) × (raise_query_on c d.client_id (some k) period due t ≡ ok t')
        × (find k t'.documents ≡ some (record d { status = DocStatus.query_raised })))
      × ((other : ℕ)
          → other ≢ d.client_id
          → raise_query_on c other (some k) period due t ≡ Answer.err DeskError.not_found)
unfolding raise_query_on
raising_ignores_lock c k period due t {d} f w =
    let own : (d.client_id == d.client_id) ≡ true = ==_refl d.client_id in
    (
      (raise_with c period due (some d) t, rw (f, own) refl, raised_row c k period due t f w),
      λ other n.
          let differs : (d.client_id == other) ≡ false = ground arith in rw (f, differs) refl,
    )
