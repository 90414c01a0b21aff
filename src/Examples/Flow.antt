-- ===== src/Examples/Flow.antt =====
-- Documents, filing periods and the stepper at concrete inputs.
use meet_millions_finance.Prelude.{
  nat_eq, length, filter, any, All, contains, ℕ, ◌≤◌, ◌<◌, ◌≡◌, refl, ◌⊎◌, true, false, Option,
  none, some, List, [], ◌∷◌, arith,
}
use meet_millions_finance.Workflow.Documents.{
  doc_eq, DocStatus, Document, Priority, DecisionInput, Decision, can_transition_document, decide,
}
use meet_millions_finance.Workflow.Documents.Paths as Paths
use meet_millions_finance.Workflow.Documents.Decisions.{Outcome, decide_outcome}
use meet_millions_finance.Workflow.Periods.{
  period_eq, Period, PeriodStatus, refresh_filing_period, derive_status, is_decided, of_period,
  count_in, verified_statuses, expected_count, can_transition_period,
}
use meet_millions_finance.Workflow.Periods.Filing.{is_signed, filing_needs_sign_off}
use meet_millions_finance.Workflow.Periods.Refresh.{refresh_stable, refresh_verified}
use meet_millions_finance.Workflow.Progress.{
  StageKey, StageState, status_to_stage, stage_state, build_stage_progress,
}
use meet_millions_finance.Workflow.Progress.Current.{is_current, one_current_stage}

abbrev path : List DocStatus
path = DocStatus.submitted ∷ DocStatus.verified ∷ DocStatus.approved ∷ []

approved_needs_verified_example : contains DocStatus.verified path ≡ true
unfolding can_transition_document
approved_needs_verified_example =
    Paths.approved_needs_verified DocStatus.draft path (λ e. cc) (λ e. cc)
      (ground arith, (ground arith, (ground arith, tt))) (ground arith)

abbrev pub document : ℕ → DocStatus → Document
document id status = record {
  id = id;
  filing_period_id = some 1;
  client_id = 4;
  document_type_id = 5;
  status = status;
  assigned_to = none;
  priority = Priority.normal;
  is_locked = false;
  locked_by = none;
  locked_at = none;
  verified_by = none;
  verified_at = none;
  rejected_reason = none;
  sla_due_at = some 100;
  is_deleted = false;
}

abbrev pub input : Decision → Option ℕ → DecisionInput
input decision notes = record {
  decision = decision;
  notes = notes;
  lock_on_approve = true;
  query_body = none;
}

decide_outcome_example :
    Outcome 7
      (input Decision.approve none)
      (document 1 DocStatus.under_review)
      (decide 7 50 true (input Decision.approve none) (document 1 DocStatus.under_review))
decide_outcome_example =
    decide_outcome 7 50 true (input Decision.approve none) (document 1 DocStatus.under_review)

abbrev filing_path : List PeriodStatus
filing_path = PeriodStatus.client_review ∷ PeriodStatus.signed_off ∷ PeriodStatus.filed ∷ []

filing_needs_sign_off_example :
    (is_signed PeriodStatus.approved ≡ false
      → any is_signed filing_path ≡ true
      → (contains PeriodStatus.client_review (PeriodStatus.approved ∷ filing_path) ≡ true)
        × (contains PeriodStatus.signed_off filing_path ≡ true))
    × (is_signed PeriodStatus.approved ≡ true → All (λ t. is_signed t ≡ true) filing_path)
unfolding can_transition_period
filing_needs_sign_off_example =
    filing_needs_sign_off PeriodStatus.approved filing_path
      (ground arith, (ground arith, (ground arith, tt)))

abbrev period : PeriodStatus → Period
period status = record {
  id = 1;
  client_id = 4;
  status = status;
  documents_expected = 0;
  documents_received = 0;
  documents_verified = 0;
  period_end = 1000;
}

abbrev documents : List Document
documents = document 1 DocStatus.verified ∷ document 2 DocStatus.approved ∷ []

abbrev refreshed : Period
refreshed = refresh_filing_period 2 0 documents (period PeriodStatus.collecting)

refresh_stable_example :
    (is_decided refreshed.status ≡ is_decided PeriodStatus.collecting)
    × (is_decided PeriodStatus.collecting ≡ true → refreshed.status ≡ PeriodStatus.collecting)
    × (refresh_filing_period 2 0 documents refreshed ≡ refreshed)
refresh_stable_example = refresh_stable 2 0 documents (period PeriodStatus.collecting)

refresh_verified_example :
    (0 < length (of_period 1 documents))
    × (◌≡◌ {A = ℕ} 0 0)
    × (count_in (DocStatus.query_raised ∷ DocStatus.awaiting_client ∷ []) (of_period 1 documents)
        ≡ 0)
    × ((count_in verified_statuses (of_period 1 documents) ≡ length (of_period 1 documents))
        ⊎ (expected_count 2 (period PeriodStatus.collecting)
            ≤ count_in verified_statuses (of_period 1 documents)))
unfolding refresh_filing_period derive_status
refresh_verified_example =
    refresh_verified 2 0 documents (period PeriodStatus.collecting) refl (ground arith)

abbrev current_stages : ℕ → List (StageKey × StageState)
current_stages queries =
    filter is_current (build_stage_progress PeriodStatus.calculated 3 false false queries)

one_current_stage_example :
    (◌≡◌ {A = ℕ} 2 0
      → current_stages 2 ≡ (status_to_stage PeriodStatus.calculated, StageState.current) ∷ [])
    × (0 < 2
        → (current_stages 2 ≡ [])
          × (stage_state PeriodStatus.calculated 3 false false 2 StageKey.query
              ≡ StageState.blocked))
one_current_stage_example = one_current_stage PeriodStatus.calculated 3 false false 2
