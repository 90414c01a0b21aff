-- ===== src/Workflow/Desk/Served.antt =====
-- Histories of the desk's requests keep every period in step with the tables below it.
use meet_millions_finance.Prelude.{
  Bool-cases, is_some, nat_eq, ℕ, ◌≡◌, refl, inl, inr, Bool, false, not, ◌&&◌, Option, none, List,
  [],
}
use meet_millions_finance.Store.{find}
use meet_millions_finance.Workflow.Documents.{Priority, DecisionInput}
use meet_millions_finance.Workflow.Desk.{Desk, Answer, ok, err, document_row, query_row}
use meet_millions_finance.Workflow.Desk.Review.{
  Call, open_document, assign_document, decide_document,
}
use meet_millions_finance.Workflow.Desk.Bulk.{
  BulkAction, BulkAnswer, bulk_ok, bulk_err, bulk, needs_notes,
}
use meet_millions_finance.Workflow.Desk.Queries.{ReplyInput, reply, resolve}
use meet_millions_finance.Workflow.Desk.Kept.{IsInStep, Keeps}
use meet_millions_finance.Workflow.Desk.Kept.Review.{
  open_at-Keeps, assign_at-Keeps, decide_at-Keeps,
}
use meet_millions_finance.Workflow.Desk.Kept.Queries.{reply_at-Keeps, resolve_at-Keeps}
use meet_millions_finance.Workflow.Desk.Kept.Bulk.{bulk_loop-IsInStep}

-- The requests: opening, assigning and deciding on a document, a bulk action, a reply, and resolving a
-- query.
pub data DeskRequest : Type 0 where
  open_one : ℕ → ℕ → DeskRequest
  assign_one : Bool → ℕ → Option Priority → ℕ → DeskRequest
  decide_one : Call → Bool → DecisionInput → ℕ → DeskRequest
  act_on_many : Call → BulkAction → Option ℕ → List ℕ → DeskRequest
  reply_to : ℕ → ℕ → ReplyInput → ℕ → DeskRequest
  resolve_one : ℕ → ℕ → Option ℕ → Bool → ℕ → DeskRequest

abbrev pub bulk_answer : BulkAnswer → Answer
bulk_answer (bulk_ok b) = ok b.desk
bulk_answer (bulk_err e) = err e

abbrev pub serve : DeskRequest → Desk → Answer
serve (open_one user k) t = open_document user k t
serve (assign_one known to priority k) t = assign_document known to priority k t
serve (decide_one c may_lock i k) t = decide_document c may_lock i k t
serve (act_on_many c action notes ks) t = bulk_answer (bulk c action notes ks t)
serve (reply_to user now i k) t = reply user now i k t
serve (resolve_one user now notes release k) t = resolve user now notes release k t

-- The id of a query that a decision raises is fresh, and a reply does not resolve its query.
abbrev pub IsAllowed : DeskRequest → Desk → Type 0
IsAllowed (decide_one c may_lock i k) t = find c.new_id t.queries ≡ none
IsAllowed (reply_to user now i k) t = (i.resolve && i.may_resolve) ≡ false
IsAllowed _ t = Unit

bulk-Keeps :
    (c : Call) (action : BulkAction) (notes : Option ℕ) (ks : List ℕ) (t : Desk)
    → IsInStep t
    → Keeps (bulk_answer (bulk c action notes ks t))
unfolding bulk
bulk-Keeps c action notes ks t s = elim (Bool-cases (needs_notes action && not (is_some notes))) [
  | inl e ↦ rw e tt
  | inr e ↦
      rw e
        (bulk_loop-IsInStep c action notes ks (record { desk = t; updated = []; skipped = [] }) s)
]

serve-Keeps : (r : DeskRequest) (t : Desk) → IsAllowed r t → IsInStep t → Keeps (serve r t)
unfolding open_document assign_document decide_document reply resolve
serve-Keeps (open_one user k) t a s = open_at-Keeps user k (find k t.documents) t refl s
serve-Keeps (assign_one known to priority k) t a s =
    assign_at-Keeps known to priority (find k t.documents) t s
serve-Keeps (decide_one c may_lock i k) t a s =
    decide_at-Keeps c may_lock i k (find k t.documents) t refl a s
serve-Keeps (act_on_many c action notes ks) t a s = bulk-Keeps c action notes ks t s
serve-Keeps (reply_to user now i k) t a s =
    reply_at-Keeps user now i k (find k t.queries) t refl a s
serve-Keeps (resolve_one user now notes release k) t a s =
    resolve_at-Keeps user now notes release k (find k t.queries) t refl s

-- The tables after a request: an error leaves them as they were.
abbrev pub desk_after : Answer → Desk → Desk
desk_after (ok t') t = t'
desk_after (err e) t = t

-- Requests served one after the other.
pub data DeskHistory (t : Desk) : Desk → Type 0 where
  untouched : DeskHistory t t
  then_served :
      {u : Desk}
      → DeskHistory t u
      → (r : DeskRequest) → IsAllowed r u
      → DeskHistory t (desk_after (serve r u) u)

kept : (a : Answer) (t : Desk) → Keeps a → IsInStep t → IsInStep (desk_after a t)
kept (ok t') t k s = k
kept (err e) t k s = s

-- Whatever documents are opened, assigned, decided on, one or many, and whatever queries are answered
-- and resolved, in any order, each raised query with a fresh id and no query resolved by a reply: from
-- tables with distinct ids in which every filing period has the counts and the status that a refresh
-- would give it, every one has them afterwards.
pub desk-IsInStep : {t u : Desk} → IsInStep t → DeskHistory t u → IsInStep u
desk-IsInStep s untouched = s
desk-IsInStep s (then_served {u = u} h r a) =
    let before = desk-IsInStep s h in kept (serve r u) u (serve-Keeps r u a before) before
