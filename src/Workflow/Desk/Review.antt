-- ===== src/Workflow/Desk/Review.antt =====
-- Opening, assigning and deciding on a document (src/modules/verification.js).
use meet_millions_finance.Prelude.{
  ◌==◌, if◌then◌else◌, or_else, nat_eq, beq_of, sum_by, ℕ, ◌+◌, Bool, true, Option, none, some,
  List, [], ◌∷◌, ◌++◌,
}
use meet_millions_finance.Store.{find, update}
use meet_millions_finance.Workflow.Documents.{
  DocStatus, DocStatus-discrete, Document, Priority, DecisionInput, Decided, done, refused, decide,
  decision_patch, is_raise_query,
}
use meet_millions_finance.Workflow.Desk.{
  Desk, Answer, DeskError, Query, QueryStatus, refresh_at, sync_checklist, document_row,
}

-- A fresh id, the clock's year, and the user.
pub record Call : Type 0 where
  pub user : ℕ
  pub now : ℕ
  pub year : ℕ
  pub new_id : ℕ

abbrev pub has_year : ℕ → Query → ℕ
has_year year q = if q.reference_no.0 == year then 1 else 0

-- `createQueryForDocument`: the running number is one more than the number of the year's queries.
abbrev pub new_query : Call → Option ℕ → Option ℕ → List Query → Query
new_query c document period queries = record {
  id = c.new_id;
  document_id = document;
  filing_period_id = period;
  reference_no = (c.year, sum_by (has_year c.year) queries + 1);
  status = QueryStatus.awaiting_client;
  raised_by = c.user;
  assigned_to = c.user;
  due_at = none;
  resolved_by = none;
  resolved_at = none;
  resolution_note = none;
  first_response_at = none;
  reply_count = 0;
}

abbrev pub create_query : Call → Option ℕ → Option ℕ → Desk → Desk
create_query c document period t = record t {
  queries = t.queries ++ new_query c document period t.queries ∷ [];
  replies =
      t.replies ++ (record { query_id = c.new_id; author_id = c.user; is_shared = true }) ∷ [];
}

abbrev pub open_row : ℕ → Document → Document → Document
open_row user d row = record row {
  status = DocStatus.under_review;
  assigned_to = some (or_else d.assigned_to user);
}

abbrev pub open_at : ℕ → Option Document → Desk → Answer
open_at user none t = Answer.err DeskError.not_found
open_at user (some d) t = Answer.ok (
    if beq_of DocStatus-discrete d.status DocStatus.submitted
    then refresh_at d.filing_period_id
        (record t { documents = update d.id (open_row user d) t.documents })
    else t)

-- `POST /:id/open`: claims a submitted document.
unfoldable pub open_document : ℕ → ℕ → Desk → Answer
open_document user k t = open_at user (find k t.documents) t

abbrev pub assign_row : ℕ → Option Priority → Document → Document
assign_row to priority row = record row {
  assigned_to = some to;
  priority = or_else priority row.priority;
}

abbrev pub assign_at : Bool → ℕ → Option Priority → Option Document → Desk → Answer
assign_at known to priority none t = Answer.err DeskError.not_found
assign_at known to priority (some d) t =
    if known
    then Answer.ok (record t { documents = update d.id (assign_row to priority) t.documents })
    else Answer.err DeskError.not_found

-- `POST /:id/assign`; `known` says that the assignee is a user of the organisation.
unfoldable pub assign_document : Bool → ℕ → Option Priority → ℕ → Desk → Answer
assign_document known to priority k t = assign_at known to priority (find k t.documents) t

-- The document's new row and the record of the decision.
abbrev pub decided_rows : Call → Bool → DecisionInput → Document → Desk → Desk
decided_rows c may_lock i d t = record t {
  documents = update d.id (decision_patch c.user c.now may_lock i) t.documents;
}

abbrev pub with_thread : Call → DecisionInput → Document → Desk → Desk
with_thread c i d t =
    if is_raise_query i.decision then create_query c (some d.id) d.filing_period_id t else t

abbrev pub decide_done : Call → Bool → DecisionInput → Document → Decided → Desk → Answer
decide_done c may_lock i d (refused e) t = Answer.err (DeskError.undecided e)
decide_done c may_lock i d (done d' r) t =
    let rows = decided_rows c may_lock i d (record t { records = r ∷ t.records }) in
    Answer.ok (refresh_at d'.filing_period_id (with_thread c i d' (sync_checklist d' rows)))

abbrev pub decide_at : Call → Bool → DecisionInput → Option Document → Desk → Answer
decide_at c may_lock i none t = Answer.err DeskError.not_found
decide_at c may_lock i (some d) t = decide_done c may_lock i d (decide c.user c.now may_lock i d) t

-- `POST /:id/decision`.
unfoldable pub decide_document : Call → Bool → DecisionInput → ℕ → Desk → Answer
decide_document c may_lock i k t = decide_at c may_lock i (find k t.documents) t
