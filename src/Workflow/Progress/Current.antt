-- ===== src/Workflow/Progress/Current.antt =====
-- The stepper.
use meet_millions_finance.Prelude.{nat_eq, filter, ℕ, ◌<◌, ◌≡◌, Bool, true, false, [], ◌∷◌, arith}
use meet_millions_finance.Workflow.Periods.{PeriodStatus}
use meet_millions_finance.Workflow.Progress.{
  StageKey, query, StageState, current, blocked, status_to_stage, stage_state, build_stage_progress,
}

abbrev pub is_current : StageKey × StageState → Bool
is_current (k, current) = true
is_current (k, _) = false

-- With no open query exactly one stage of the stepper is current, the one of the period's status;
-- with an open query none is, and the stage `query` is blocked.
pub one_current_stage :
    (status : PeriodStatus) (received : ℕ) (report pay : Bool) (open_queries : ℕ)
    → let stages =
        filter is_current (build_stage_progress status received report pay open_queries) in
      (open_queries ≡ 0 → stages ≡ (status_to_stage status, current) ∷ [])
      × (0 < open_queries
          → (stages ≡ []) × (stage_state status received report pay open_queries query ≡ blocked))
unfolding build_stage_progress
one_current_stage status received report pay open_queries = ground arith
