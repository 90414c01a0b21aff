-- ===== src/Workflow/Desk/Queries.antt =====
-- Raising, answering, resolving and reopening a query (src/modules/queries.js).
use meet_millions_finance.Prelude.{
  ◌==◌, if◌then◌else◌, or_else, nat_eq, ℕ, ◌+◌, Bool, true, false, not, ◌&&◌, Option, none, some,
  [], ◌∷◌, ◌++◌,
}
use meet_millions_finance.Store.{find, update}
use meet_millions_finance.Workflow.Documents.{DocStatus, Document}
use meet_millions_finance.Workflow.Desk.{
  Desk, Answer, DeskError, Query, QueryStatus, refresh_at, document_row, query_row,
}
use meet_millions_finance.Workflow.Desk.Review.{Call, create_query}

abbrev pub is_waiting : DocStatus → Bool
is_waiting DocStatus.query_raised = true
is_waiting DocStatus.awaiting_client = true
is_waiting _ = false

abbrev pub mark_queried : Document → Document
mark_queried row = record row { status = DocStatus.query_raised }

abbrev pub set_due : Option ℕ → ℕ → Desk → Desk
set_due none k t = t
set_due (some due) k t = record t {
  queries = update k (λ (q : Query). record q { due_at = some due }) t.queries;
}

abbrev pub period_of : Option Document → Option ℕ
period_of none = none
period_of (some d) = d.filing_period_id

abbrev pub first_of : Option ℕ → Option ℕ → Option ℕ
first_of none b = b
first_of (some a) b = some a

-- The document of the query moves to `query_raised` unless it is waiting already.
abbrev pub queue_document : Option Document → Desk → Desk
queue_document none t = t
queue_document (some d) t =
    if is_waiting d.status
    then t
    else refresh_at d.filing_period_id
        (record t { documents = update d.id mark_queried t.documents })

abbrev pub raise_with : Call → Option ℕ → Option ℕ → Option Document → Desk → Desk
raise_with c period due document t =
    let q = period_of document in
    queue_document document (
      set_due due c.new_id
        (create_query c (elim document [ none ↦ none | some d ↦ some d.id ]) (first_of period q) t))

-- `scope.first('documents', { id, client_id })`: a document of another client is not found.
abbrev pub raise_on : Call → ℕ → Option ℕ → Option ℕ → Option Document → Desk → Answer
raise_on c client period due none t = Answer.err DeskError.not_found
raise_on c client period due (some d) t =
    if d.client_id == client
    then Answer.ok (raise_with c period due (some d) t)
    else Answer.err DeskError.not_found

-- `POST /`, once the client is found: with or without a document.
unfoldable pub raise_query_on : Call → ℕ → Option ℕ → Option ℕ → Option ℕ → Desk → Answer
raise_query_on c client none period due t = Answer.ok (raise_with c period due none t)
raise_query_on c client (some k) period due t = raise_on c client period due (find k t.documents) t

-- A reply: whether the author is the client, whether it is shared, whether the author may write internal
-- notes, whether it asks to resolve and whether the author may; the text is a number.
pub record ReplyInput : Type 0 where
  pub is_client : Bool
  pub is_shared : Bool
  pub may_note : Bool
  pub resolve : Bool
  pub may_resolve : Bool
  pub body : ℕ

abbrev pub is_closed : QueryStatus → Bool
is_closed QueryStatus.resolved = true
is_closed QueryStatus.cancelled = true
is_closed _ = false

-- The status after a shared reply of the staff.
abbrev pub staff_status : QueryStatus → QueryStatus
staff_status QueryStatus.client_responded = QueryStatus.under_review
staff_status QueryStatus.open_query = QueryStatus.awaiting_client
staff_status s = s

-- The patch before the request to resolve.
abbrev pub reply_patch : ℕ → ReplyInput → Query → Query → Query
reply_patch now i q row = record row {
  reply_count = q.reply_count + 1;
  status =
      if i.is_shared
      then (if i.is_client then QueryStatus.client_responded else staff_status q.status)
      else row.status;
  first_response_at =
      if i.is_shared && i.is_client
      then some (or_else q.first_response_at now)
      else row.first_response_at;
}

abbrev pub resolve_patch : ℕ → ℕ → Option ℕ → Query → Query
resolve_patch user now notes row = record row {
  status = QueryStatus.resolved;
  resolved_by = some user;
  resolved_at = some now;
  resolution_note = notes;
}

abbrev pub reply_row : ℕ → ℕ → ReplyInput → Query → Query → Query
reply_row user now i q row =
    if i.resolve && i.may_resolve
    then resolve_patch user now (some i.body) (reply_patch now i q row)
    else reply_patch now i q row

abbrev pub reply_at : ℕ → ℕ → ReplyInput → Option Query → Desk → Answer
reply_at user now i none t = Answer.err DeskError.not_found
reply_at user now i (some q) t =
    if is_closed q.status
    then Answer.err DeskError.closed
    else if not i.is_shared && not i.may_note
    then Answer.err DeskError.forbidden
    else Answer.ok (record t {
      replies =
          t.replies ++ (record { query_id = q.id; author_id = user; is_shared = i.is_shared }) ∷ [];
      queries = update q.id (reply_row user now i q) t.queries;
    })

-- `POST /:id/replies`.
unfoldable pub reply : ℕ → ℕ → ReplyInput → ℕ → Desk → Answer
reply user now i k t = reply_at user now i (find k t.queries) t

abbrev pub release_row : Document → Document
release_row row = record row { status = DocStatus.under_review }

abbrev pub release_found : Option Document → Desk → Desk
release_found none t = t
release_found (some d) t =
    if is_waiting d.status
    then refresh_at d.filing_period_id
        (record t { documents = update d.id release_row t.documents })
    else t

-- `if (input.releaseDocument && query.document_id) { … }`.
abbrev pub release_document : Bool → Option ℕ → Desk → Desk
release_document release none t = t
release_document release (some k) t = if release then release_found (find k t.documents) t else t

abbrev pub is_resolved : QueryStatus → Bool
is_resolved QueryStatus.resolved = true
is_resolved _ = false

abbrev pub resolve_at : ℕ → ℕ → Option ℕ → Bool → Option Query → Desk → Answer
resolve_at user now notes release none t = Answer.err DeskError.not_found
resolve_at user now notes release (some q) t =
    if is_resolved q.status
    then Answer.ok t
    else Answer.ok (
        refresh_at q.filing_period_id (
          release_document release q.document_id
            (record t { queries = update q.id (resolve_patch user now notes) t.queries })))

-- `POST /:id/resolve`.
unfoldable pub resolve : ℕ → ℕ → Option ℕ → Bool → ℕ → Desk → Answer
resolve user now notes release k t = resolve_at user now notes release (find k t.queries) t

abbrev pub reopen_row : Query → Query
reopen_row row = record row {
  status = QueryStatus.under_review;
  resolved_by = none;
  resolved_at = none;
  resolution_note = none;
}

abbrev pub reopen_at : Option Query → Desk → Answer
reopen_at none t = Answer.err DeskError.not_found
reopen_at (some q) t =
    if is_resolved q.status
    then Answer.ok (record t { queries = update q.id reopen_row t.queries })
    else Answer.err DeskError.not_resolved

-- `POST /:id/reopen`.
unfoldable pub reopen : ℕ → Desk → Answer
reopen k t = reopen_at (find k t.queries) t
