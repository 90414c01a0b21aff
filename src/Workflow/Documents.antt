-- ===== src/Workflow/Documents.antt =====
-- Document statuses and their legal transitions (src/services/workflow.js), and the recording of a
-- verification decision (src/modules/verification.js).
use meet_millions_finance.Prelude.{
  ltb, leb, ◌==◌, if◌then◌else◌, ltb→lt, leb→le, ==_iff, ==_refl, Bool-cases, Option-cases, or_else,
  is_some, Eq, nat_eq, beq_of, beq_of_iff, length, filter, any, All, length-append, length-filter,
  contains, contains-append, contains-filter, filter-contains, sum_by, sum_by-append, All-imp,
  All-and, All-append, ℕ, zero, suc, ◌+◌, ◌-◌, ◌*◌, ◌/◌, ◌%◌, ◌^◌, ◌≤◌, ◌<◌, max, min, String, ◌≡◌,
  refl, sym, ap, ap₂, ◌∙◌, ◌≢◌, ◌↔◌, ◌⊎◌, inl, inr, Bool, true, false, not, ◌&&◌, ◌||◌, Option,
  none, some, List, [], ◌∷◌, ◌++◌, map, foldl, arith,
}
pub mod Paths
pub mod Decisions

pub data DocStatus : Type 0 where
  draft submitted under_review query_raised awaiting_client verified approved rejected archived :
      DocStatus

pub DocStatus-discrete : Discrete DocStatus
DocStatus-discrete = hlevel

instance abbrev pub doc_eq : Eq DocStatus
doc_eq = record { beq = beq_of DocStatus-discrete; beq_iff = beq_of_iff DocStatus-discrete }

-- `DOCUMENT_TRANSITIONS`.
abbrev pub document_transitions : DocStatus → List DocStatus
document_transitions draft = submitted ∷ archived ∷ []
document_transitions submitted = under_review ∷ query_raised ∷ verified ∷ rejected ∷ archived ∷ []
document_transitions under_review = verified ∷ rejected ∷ query_raised ∷ submitted ∷ []
document_transitions query_raised = awaiting_client ∷ under_review ∷ verified ∷ rejected ∷ []
document_transitions awaiting_client = submitted ∷ under_review ∷ query_raised ∷ rejected ∷ []
document_transitions verified = approved ∷ under_review ∷ archived ∷ []
document_transitions approved = archived ∷ under_review ∷ []
document_transitions rejected = submitted ∷ under_review ∷ archived ∷ []
document_transitions archived = []

-- `canTransitionDocument`.
unfoldable pub can_transition_document : DocStatus → DocStatus → Bool
can_transition_document from to =
    if beq_of DocStatus-discrete from to then true else contains to (document_transitions from)

-- A document's place in the queue.
pub data Priority : Type 0 where
  low normal high urgent : Priority

-- The columns of `documents` that the review reads or writes. A user, a reason and an instant are
-- numbers; an instant is in milliseconds.
pub record Document : Type 0 where
  pub id : ℕ
  pub client_id : ℕ
  pub filing_period_id : Option ℕ
  pub document_type_id : ℕ
  pub status : DocStatus
  pub assigned_to : Option ℕ
  pub priority : Priority
  pub is_locked : Bool
  pub locked_by : Option ℕ
  pub locked_at : Option ℕ
  pub verified_by : Option ℕ
  pub verified_at : Option ℕ
  pub rejected_reason : Option ℕ
  pub sla_due_at : Option ℕ
  pub is_deleted : Bool

pub data Decision : Type 0 where
  approve reject request_changes raise_query : Decision

abbrev pub target_status : Decision → DocStatus
target_status approve = verified
target_status reject = rejected
target_status request_changes = awaiting_client
target_status raise_query = query_raised

-- The validated body of the request; an empty text is null.
pub record DecisionInput : Type 0 where
  pub decision : Decision
  pub notes : Option ℕ
  pub lock_on_approve : Bool
  pub query_body : Option ℕ

-- The row written to `verification_records`.
pub record VerificationRecord : Type 0 where
  pub document_id : ℕ
  pub verifier_id : ℕ
  pub decision : Decision
  pub notes : Option ℕ
  pub sla_met : Option Bool

pub data DecisionError : Type 0 where
  locked illegal_transition reason_required query_body_required : DecisionError

pub data Decided : Type 0 where
  done : Document → VerificationRecord → Decided
  refused : DecisionError → Decided

abbrev pub is_approve : Decision → Bool
is_approve approve = true
is_approve _ = false

abbrev pub is_reject : Decision → Bool
is_reject reject = true
is_reject _ = false

abbrev pub is_raise_query : Decision → Bool
is_raise_query raise_query = true
is_raise_query _ = false

-- `document.sla_due_at ? (nowIso() <= document.sla_due_at ? 1 : 0) : null`.
abbrev pub sla_met_at : ℕ → Option ℕ → Option Bool
sla_met_at now none = none
sla_met_at now (some due) = some (leb now due)

-- The update of the document's row.
abbrev pub decision_patch : ℕ → ℕ → Bool → DecisionInput → Document → Document
decision_patch user now may_lock i d =
    let locks = is_approve i.decision && i.lock_on_approve && may_lock in
    record d {
      status = target_status i.decision;
      verified_by = if is_approve i.decision then some user else none;
      verified_at = if is_approve i.decision then some now else none;
      rejected_reason = if is_reject i.decision then i.notes else none;
      is_locked = if locks then true else d.is_locked;
      locked_by = if locks then some user else d.locked_by;
      locked_at = if locks then some now else d.locked_at;
    }

-- The decision route, up to the update of the document.
unfoldable pub decide : ℕ → ℕ → Bool → DecisionInput → Document → Decided
unfolding can_transition_document
decide user now may_lock i d =
    if d.is_locked
    then refused locked
    else if not (can_transition_document d.status (target_status i.decision))
    then refused illegal_transition
    else if is_reject i.decision && not (is_some i.notes)
    then refused reason_required
    else if is_raise_query i.decision && not (is_some i.query_body)
    then refused query_body_required
    else done (decision_patch user now may_lock i d) (record {
      document_id = d.id;
      verifier_id = user;
      decision = i.decision;
      notes = i.notes;
      sla_met = sla_met_at now d.sla_due_at;
    })
