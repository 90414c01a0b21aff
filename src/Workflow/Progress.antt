-- ===== src/Workflow/Progress.antt =====
-- The stepper of ten stages that the screens render (`buildStageProgress` of
-- src/services/workflow.js).
use meet_millions_finance.Prelude.{
  ltb, leb, ◌==◌, if◌then◌else◌, ltb→lt, leb→le, ==_iff, ==_refl, Bool-cases, Option-cases, or_else,
  is_some, Eq, nat_eq, beq_of, beq_of_iff, length, filter, any, All, length-append, length-filter,
  contains, sum_by, sum_by-append, ℕ, zero, suc, ◌+◌, ◌-◌, ◌*◌, ◌/◌, ◌%◌, ◌^◌, ◌≤◌, ◌<◌, max, min,
  String, ◌≡◌, refl, sym, ap, ap₂, ◌∙◌, ◌≢◌, ◌↔◌, ◌⊎◌, inl, inr, Bool, true, false, not, ◌&&◌, ◌||◌,
  Option, none, some, List, [], ◌∷◌, ◌++◌, map, foldl, arith,
}
use meet_millions_finance.Workflow.Periods.{PeriodStatus, PeriodStatus-discrete}
pub mod Current

pub data StageKey : Type 0 where
  registration upload verification query verified calculation approval client_review payment
        archive :
      StageKey

pub StageKey-discrete : Discrete StageKey
StageKey-discrete = hlevel

-- The keys of `WORKFLOW_STAGES`, in order.
abbrev pub workflow_stages : List StageKey
workflow_stages =
    StageKey.registration ∷ StageKey.upload ∷ StageKey.verification ∷ StageKey.query
    ∷ StageKey.verified ∷ StageKey.calculation ∷ StageKey.approval ∷ StageKey.client_review
    ∷ StageKey.payment ∷ StageKey.archive ∷ []

-- `STATUS_TO_STAGE`.
abbrev pub status_to_stage : PeriodStatus → StageKey
status_to_stage PeriodStatus.collecting = StageKey.upload
status_to_stage PeriodStatus.under_review = StageKey.verification
status_to_stage PeriodStatus.query_raised = StageKey.query
status_to_stage PeriodStatus.awaiting_client = StageKey.query
status_to_stage PeriodStatus.verified = StageKey.calculation
status_to_stage PeriodStatus.calculated = StageKey.approval
status_to_stage PeriodStatus.pending_approval = StageKey.approval
status_to_stage PeriodStatus.approved = StageKey.client_review
status_to_stage PeriodStatus.client_review = StageKey.client_review
status_to_stage PeriodStatus.signed_off = StageKey.payment
status_to_stage PeriodStatus.paid = StageKey.archive
status_to_stage PeriodStatus.filed = StageKey.archive
status_to_stage PeriodStatus.archived = StageKey.archive
status_to_stage PeriodStatus.rejected = StageKey.verification

abbrev pub current_stage_key : PeriodStatus → ℕ → StageKey
current_stage_key status open_queries =
    if ltb 0 open_queries then StageKey.query else status_to_stage status

-- The position in the list `order` of `statusAtLeast`, with the depths of the two query statuses
-- brought down to that of `under_review`; a rejected period is not in the list.
abbrev pub depth : PeriodStatus → Option ℕ
depth PeriodStatus.collecting = some 0
depth PeriodStatus.under_review = some 1
depth PeriodStatus.query_raised = some 1
depth PeriodStatus.awaiting_client = some 1
depth PeriodStatus.verified = some 4
depth PeriodStatus.calculated = some 5
depth PeriodStatus.pending_approval = some 6
depth PeriodStatus.approved = some 7
depth PeriodStatus.client_review = some 8
depth PeriodStatus.signed_off = some 9
depth PeriodStatus.paid = some 10
depth PeriodStatus.filed = some 11
depth PeriodStatus.archived = some 12
depth PeriodStatus.rejected = none

abbrev pub depth_at_least : Option ℕ → Option ℕ → Bool
depth_at_least (some a) (some b) = leb b a
depth_at_least _ _ = false

abbrev pub status_at_least : PeriodStatus → PeriodStatus → Bool
status_at_least status target = depth_at_least (depth status) (depth target)

pub data StageState : Type 0 where
  done current blocked todo : StageState

-- The object `reached`; the entry for the stage `query` is not read.
abbrev pub is_reached : PeriodStatus → ℕ → Bool → Bool → StageKey → Bool
is_reached status received report pay StageKey.registration = true
is_reached status received report pay StageKey.upload =
    ltb 0 received || status_at_least status PeriodStatus.under_review
is_reached status received report pay StageKey.verification =
    status_at_least status PeriodStatus.under_review
is_reached status received report pay StageKey.query = false
is_reached status received report pay StageKey.verified =
    status_at_least status PeriodStatus.verified
is_reached status received report pay StageKey.calculation =
    status_at_least status PeriodStatus.calculated
is_reached status received report pay StageKey.approval =
    status_at_least status PeriodStatus.approved
is_reached status received report pay StageKey.client_review =
    status_at_least status PeriodStatus.client_review || report
is_reached status received report pay StageKey.payment =
    status_at_least status PeriodStatus.paid || pay
is_reached status received report pay StageKey.archive =
    beq_of PeriodStatus-discrete status PeriodStatus.archived

-- The state of a stage before the current one is marked.
abbrev pub base_state : PeriodStatus → ℕ → Bool → Bool → ℕ → StageKey → StageState
base_state status received report pay open_queries StageKey.query =
    if ltb 0 open_queries
    then blocked
    else if status_at_least status PeriodStatus.verified
    then done
    else todo
base_state status received report pay open_queries k =
    if is_reached status received report pay k then done else todo

abbrev pub is_blocked : StageState → Bool
is_blocked blocked = true
is_blocked _ = false

unfoldable pub stage_state : PeriodStatus → ℕ → Bool → Bool → ℕ → StageKey → StageState
stage_state status received report pay open_queries k =
    let state = base_state status received report pay open_queries k in
    if beq_of StageKey-discrete k (current_stage_key status open_queries) && not (is_blocked state)
    then current
    else state

-- `buildStageProgress`, for a period with the given status and number of received documents.
unfoldable pub build_stage_progress :
    PeriodStatus → ℕ → Bool → Bool → ℕ → List (StageKey × StageState)
unfolding stage_state
build_stage_progress status received report pay open_queries =
    map (λ k. (k, stage_state status received report pay open_queries k)) workflow_stages
