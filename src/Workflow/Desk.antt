-- ===== src/Workflow/Desk.antt =====
-- The tables of the review desk: documents, their checklist and queries, the records of decisions and
-- the periods above them, with the refresh of a period and the checklist update
-- (src/services/workflow.js) that every route of the desk ends with.
use meet_millions_finance.Prelude.{
  ltb, leb, ◌==◌, if◌then◌else◌, ltb→lt, leb→le, ==_iff, ==_refl, Bool-cases, Option-cases, or_else,
  is_some, Eq, nat_eq, beq_of, beq_of_iff, length, filter, any, All, length-append, length-filter,
  contains, sum_by, sum_by-append, All-imp, All-and, All-append, ℕ, zero, suc, ◌+◌, ◌-◌, ◌*◌, ◌/◌,
  ◌%◌, ◌^◌, ◌≤◌, ◌<◌, max, min, String, ◌≡◌, refl, sym, ap, ap₂, ◌∙◌, ◌≢◌, ◌↔◌, ◌⊎◌, inl, inr, Bool,
  true, false, not, ◌&&◌, ◌||◌, Option, none, some, List, [], ◌∷◌, ◌++◌, map, foldl, arith,
}
use meet_millions_finance.Store.{Row, update}
use meet_millions_finance.Workflow.Documents.{
  DocStatus, Document, VerificationRecord, DecisionError,
}
use meet_millions_finance.Workflow.Periods.{Period, refresh_filing_period}
pub mod Review
pub mod Bulk
pub mod Queries
pub mod Step
pub mod Quiet
pub mod Kept
pub mod Served
pub mod Replies
pub mod Patched
pub mod Spared
pub mod Raised

pub data ItemStatus : Type 0 where
  pending submitted under_review query_raised verified rejected waived : ItemStatus

-- The columns of `checklist_items`.
pub record ChecklistItem : Type 0 where
  pub id : ℕ
  pub filing_period_id : ℕ
  pub document_type_id : ℕ
  pub document_id : Option ℕ
  pub is_required : Bool
  pub status : ItemStatus

pub data QueryStatus : Type 0 where
  open_query awaiting_client client_responded under_review resolved cancelled : QueryStatus

-- The columns of `queries`. A reference number is a year and a running number; a text is a number.
pub record Query : Type 0 where
  pub id : ℕ
  pub document_id : Option ℕ
  pub filing_period_id : Option ℕ
  pub reference_no : ℕ × ℕ
  pub status : QueryStatus
  pub raised_by : ℕ
  pub assigned_to : ℕ
  pub due_at : Option ℕ
  pub resolved_by : Option ℕ
  pub resolved_at : Option ℕ
  pub resolution_note : Option ℕ
  pub first_response_at : Option ℕ
  pub reply_count : ℕ

-- A row of `query_replies`.
pub record Reply : Type 0 where
  pub query_id : ℕ
  pub author_id : ℕ
  pub is_shared : Bool

instance abbrev pub document_row : Row Document
document_row = record { row_id = λ d. d.id }

instance abbrev pub item_row : Row ChecklistItem
item_row = record { row_id = λ i. i.id }

instance abbrev pub query_row : Row Query
query_row = record { row_id = λ q. q.id }

instance abbrev pub desk_period_row : Row Period
desk_period_row = record { row_id = λ p. p.id }

pub record Desk : Type 0 where
  pub documents : List Document
  pub checklist : List ChecklistItem
  pub queries : List Query
  pub replies : List Reply
  pub records : List VerificationRecord
  pub periods : List Period

pub data DeskError : Type 0 where
  not_found closed forbidden not_resolved : DeskError
  undecided : DecisionError → DeskError

pub data Answer : Type 0 where
  ok : Desk → Answer
  err : DeskError → Answer

abbrev pub is_of : ℕ → Option ℕ → Bool
is_of k none = false
is_of k (some p) = p == k

-- The statuses of a query that the refresh counts as open.
abbrev pub is_open : QueryStatus → Bool
is_open QueryStatus.resolved = false
is_open QueryStatus.cancelled = false
is_open _ = true

abbrev pub required_of : ℕ → ChecklistItem → ℕ
required_of k i = if i.filing_period_id == k && i.is_required then 1 else 0

abbrev pub open_of : ℕ → Query → ℕ
open_of k q = if is_of k q.filing_period_id && is_open q.status then 1 else 0

-- The period's new row, from the rows of the three tables below it.
abbrev pub refreshed : Desk → Period → Period
refreshed t p =
    refresh_filing_period (sum_by (required_of p.id) t.checklist) (sum_by (open_of p.id) t.queries)
      t.documents p

-- `refreshFilingPeriod`, on the tables.
abbrev pub refresh : ℕ → Desk → Desk
refresh k t = record t { periods = update k (refreshed t) t.periods }

-- `if (document.filing_period_id) await refreshFilingPeriod(…)`.
abbrev pub refresh_at : Option ℕ → Desk → Desk
refresh_at none t = t
refresh_at (some k) t = refresh k t

-- `statusMap`.
abbrev pub item_status : DocStatus → ItemStatus
item_status DocStatus.draft = ItemStatus.pending
item_status DocStatus.submitted = ItemStatus.submitted
item_status DocStatus.under_review = ItemStatus.under_review
item_status DocStatus.query_raised = ItemStatus.query_raised
item_status DocStatus.awaiting_client = ItemStatus.query_raised
item_status DocStatus.verified = ItemStatus.verified
item_status DocStatus.approved = ItemStatus.verified
item_status DocStatus.rejected = ItemStatus.rejected
item_status DocStatus.archived = ItemStatus.verified

-- `ORDER BY (document_id = ?) DESC`: the document's own row, then a row of another document, and a row
-- of none last, since its comparison is null.
abbrev pub rank_at : ℕ → Option ℕ → ℕ
rank_at doc none = 0
rank_at doc (some d) = if d == doc then 2 else 1

abbrev pub better : ℕ → ChecklistItem → Option ChecklistItem → ChecklistItem
better doc x none = x
better doc x (some y) = if leb (rank_at doc y.document_id) (rank_at doc x.document_id) then x else y

-- The first row of that order; ties go to the earlier row.
abbrev pub best_item : ℕ → List ChecklistItem → Option ChecklistItem
best_item doc [] = none
best_item doc (x ∷ xs) = some (better doc x (best_item doc xs))

-- The `WHERE` clause of the choice of an item.
abbrev pub items_for : ℕ → ℕ → List ChecklistItem → List ChecklistItem
items_for period type items =
    filter (λ (i : ChecklistItem). i.filing_period_id == period && i.document_type_id == type) items

abbrev pub link_item : Document → ChecklistItem → ChecklistItem
link_item d i = record i { document_id = some d.id; status = item_status d.status }

abbrev pub sync_item : Document → Option ChecklistItem → List ChecklistItem → List ChecklistItem
sync_item d none items = items
sync_item d (some i) items = update i.id (link_item d) items

abbrev pub sync_items : Document → Option ℕ → List ChecklistItem → List ChecklistItem
sync_items d none items = items
sync_items d (some k) items =
    sync_item d (best_item d.id (items_for k d.document_type_id items)) items

-- `syncChecklistForDocument`.
unfoldable pub sync_checklist : Document → Desk → Desk
sync_checklist d t = record t { checklist = sync_items d d.filing_period_id t.checklist }
