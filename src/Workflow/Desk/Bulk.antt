-- ===== src/Workflow/Desk/Bulk.antt =====
-- Decisions on many documents at once (`POST /bulk` of src/modules/verification.js).
use meet_millions_finance.Prelude.{
  if◌then◌else◌, or_else, is_some, nat_eq, ℕ, Bool, true, false, not, ◌&&◌, Option, none, some,
  List, [], ◌∷◌, ◌++◌,
}
use meet_millions_finance.Store.{find, update}
use meet_millions_finance.Workflow.Documents.{
  DocStatus, Document, Priority, Decision, VerificationRecord, DecisionError,
  can_transition_document, sla_met_at,
}
use meet_millions_finance.Workflow.Desk.{Desk, DeskError, refresh_at, sync_checklist, document_row}
use meet_millions_finance.Workflow.Desk.Review.{Call}

pub data BulkAction : Type 0 where
  approve_all reject_all : BulkAction
  assign_all : Option ℕ → BulkAction
  set_priority : Option Priority → BulkAction

pub data SkipReason : Type 0 where
  missing is_locked illegal : SkipReason

pub record Bulk : Type 0 where
  pub desk : Desk
  pub updated : List ℕ
  pub skipped : List (ℕ × SkipReason)

abbrev pub skip : ℕ → SkipReason → Bulk → Bulk
skip k why b = record b { skipped = b.skipped ++ (k, why) ∷ [] }

abbrev pub patch_rows : (Document → Document) → ℕ → Bulk → Bulk
patch_rows g k b = record b {
  desk = record b.desk { documents = update k g b.desk.documents };
  updated = b.updated ++ k ∷ [];
}

abbrev pub verdict_patch : Call → Bool → Option ℕ → Document → Document
verdict_patch c approves notes row = record row {
  status = if approves then DocStatus.verified else DocStatus.rejected;
  verified_by = if approves then some c.user else none;
  verified_at = if approves then some c.now else none;
  rejected_reason = if approves then none else notes;
}

abbrev pub verdict_record : Call → Bool → Option ℕ → Document → VerificationRecord
verdict_record c approves notes d = record {
  document_id = d.id;
  verifier_id = c.user;
  decision = if approves then Decision.approve else Decision.reject;
  notes = notes;
  sla_met = sla_met_at c.now d.sla_due_at;
}

-- The tables after one approval or rejection.
abbrev pub verdict_desk : Call → Bool → Option ℕ → Document → Desk → Desk
verdict_desk c approves notes d t =
    let d' = verdict_patch c approves notes d in
    refresh_at d'.filing_period_id (
      sync_checklist d' (record t {
        documents = update d.id (verdict_patch c approves notes) t.documents;
        records = verdict_record c approves notes d ∷ t.records;
      }))

abbrev pub verdict_one : Call → Bool → Option ℕ → Document → Bulk → Bulk
verdict_one c approves notes d b =
    if can_transition_document d.status
      (if approves then DocStatus.verified else DocStatus.rejected)
    then record b {
      desk = verdict_desk c approves notes d b.desk;
      updated = b.updated ++ d.id ∷ [];
    }
    else skip d.id SkipReason.illegal b

abbrev pub assign_to : Option ℕ → Document → Document
assign_to who row = record row { assigned_to = who }

abbrev pub prioritise : Option Priority → Document → Document
prioritise p row = record row { priority = or_else p Priority.normal }

abbrev pub act : Call → BulkAction → Option ℕ → Document → Bulk → Bulk
act c (assign_all who) notes d b = patch_rows (assign_to who) d.id b
act c (set_priority p) notes d b = patch_rows (prioritise p) d.id b
act c approve_all notes d b = verdict_one c true notes d b
act c reject_all notes d b = verdict_one c false notes d b

abbrev pub bulk_at : Call → BulkAction → Option ℕ → ℕ → Option Document → Bulk → Bulk
bulk_at c action notes k none b = skip k SkipReason.missing b
bulk_at c action notes k (some d) b =
    if d.is_deleted
    then skip k SkipReason.missing b
    else if d.is_locked
    then skip k SkipReason.is_locked b
    else act c action notes d b

-- The body of the loop.
unfoldable pub bulk_one : Call → BulkAction → Option ℕ → ℕ → Bulk → Bulk
bulk_one c action notes k b = bulk_at c action notes k (find k b.desk.documents) b

unfoldable pub bulk_loop : Call → BulkAction → Option ℕ → List ℕ → Bulk → Bulk
bulk_loop c action notes [] b = b
bulk_loop c action notes (k ∷ ks) b = bulk_loop c action notes ks (bulk_one c action notes k b)

abbrev pub needs_notes : BulkAction → Bool
needs_notes reject_all = true
needs_notes _ = false

pub data BulkAnswer : Type 0 where
  bulk_ok : Bulk → BulkAnswer
  bulk_err : DeskError → BulkAnswer

-- `POST /bulk`.
unfoldable pub bulk : Call → BulkAction → Option ℕ → List ℕ → Desk → BulkAnswer
bulk c action notes ks t =
    if needs_notes action && not (is_some notes)
    then bulk_err (DeskError.undecided DecisionError.reason_required)
    else bulk_ok (bulk_loop c action notes ks (record { desk = t; updated = []; skipped = [] }))
