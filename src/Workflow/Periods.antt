-- ===== src/Workflow/Periods.antt =====
-- Filing periods: their transitions, and the status derived from the documents beneath them
-- (src/services/workflow.js).
use meet_millions_finance.Prelude.{
  ltb, leb, ◌==◌, if◌then◌else◌, ltb→lt, leb→le, ==_iff, ==_refl, Bool-cases, Option-cases, or_else,
  is_some, Eq, nat_eq, beq_of, beq_of_iff, length, filter, any, All, length-append, length-filter,
  contains, sum_by, sum_by-append, ℕ, zero, suc, ◌+◌, ◌-◌, ◌*◌, ◌/◌, ◌%◌, ◌^◌, ◌≤◌, ◌<◌, max, min,
  String, ◌≡◌, refl, sym, ap, ap₂, ◌∙◌, ◌≢◌, ◌↔◌, ◌⊎◌, inl, inr, Bool, true, false, not, ◌&&◌, ◌||◌,
  Option, none, some, List, [], ◌∷◌, ◌++◌, map, foldl, arith,
}
use meet_millions_finance.Workflow.Documents.{DocStatus, Document, doc_eq}
pub mod Filing
pub mod Refresh

pub data PeriodStatus : Type 0 where
  collecting under_review query_raised awaiting_client verified calculated pending_approval approved
        client_review signed_off paid filed archived rejected :
      PeriodStatus

pub PeriodStatus-discrete : Discrete PeriodStatus
PeriodStatus-discrete = hlevel

instance abbrev pub period_eq : Eq PeriodStatus
period_eq = record {
  beq = beq_of PeriodStatus-discrete;
  beq_iff = beq_of_iff PeriodStatus-discrete;
}

-- `PERIOD_TRANSITIONS`.
abbrev pub period_transitions : PeriodStatus → List PeriodStatus
period_transitions PeriodStatus.collecting =
    PeriodStatus.under_review ∷ PeriodStatus.query_raised ∷ PeriodStatus.verified
    ∷ PeriodStatus.rejected ∷ []
period_transitions PeriodStatus.under_review =
    PeriodStatus.query_raised ∷ PeriodStatus.awaiting_client ∷ PeriodStatus.verified
    ∷ PeriodStatus.collecting ∷ PeriodStatus.rejected ∷ []
period_transitions PeriodStatus.query_raised =
    PeriodStatus.awaiting_client ∷ PeriodStatus.under_review ∷ PeriodStatus.verified ∷ []
period_transitions PeriodStatus.awaiting_client =
    PeriodStatus.under_review ∷ PeriodStatus.query_raised ∷ PeriodStatus.verified ∷ []
period_transitions PeriodStatus.verified = PeriodStatus.calculated ∷ PeriodStatus.under_review ∷ []
period_transitions PeriodStatus.calculated =
    PeriodStatus.pending_approval ∷ PeriodStatus.verified ∷ []
period_transitions PeriodStatus.pending_approval =
    PeriodStatus.approved ∷ PeriodStatus.rejected ∷ PeriodStatus.calculated ∷ []
period_transitions PeriodStatus.approved =
    PeriodStatus.client_review ∷ PeriodStatus.pending_approval ∷ []
period_transitions PeriodStatus.client_review =
    PeriodStatus.signed_off ∷ PeriodStatus.approved ∷ PeriodStatus.rejected ∷ []
period_transitions PeriodStatus.signed_off = PeriodStatus.paid ∷ PeriodStatus.filed ∷ []
period_transitions PeriodStatus.paid = PeriodStatus.filed ∷ []
period_transitions PeriodStatus.filed = PeriodStatus.archived ∷ []
period_transitions PeriodStatus.archived = []
period_transitions PeriodStatus.rejected = PeriodStatus.under_review ∷ PeriodStatus.collecting ∷ []

-- `canTransitionPeriod`.
unfoldable pub can_transition_period : PeriodStatus → PeriodStatus → Bool
can_transition_period from to =
    if beq_of PeriodStatus-discrete from to then true else contains to (period_transitions from)

-- The columns of `filing_periods` that a refresh reads or writes.
pub record Period : Type 0 where
  pub id : ℕ
  pub client_id : ℕ
  pub status : PeriodStatus
  pub documents_expected : ℕ
  pub documents_received : ℕ
  pub documents_verified : ℕ
  pub period_end : ℕ

-- `SUM(CASE WHEN status IN (…) THEN 1 ELSE 0 END)` over the rows of a period.
abbrev pub count_in : List DocStatus → List Document → ℕ
count_in statuses docs = sum_by (λ (d : Document). if contains d.status statuses then 1 else 0) docs

-- The `WHERE` clause of the query on `documents`.
abbrev pub of_period : ℕ → List Document → List Document
of_period period docs =
    filter
      (λ (d : Document).
        elim d.filing_period_id [ none ↦ false | some p ↦ p == period ] && not d.is_deleted)
      docs

abbrev pub received_statuses : List DocStatus
received_statuses =
    DocStatus.submitted ∷ DocStatus.under_review ∷ DocStatus.query_raised
    ∷ DocStatus.awaiting_client ∷ DocStatus.verified ∷ DocStatus.approved ∷ DocStatus.archived ∷ []

abbrev pub verified_statuses : List DocStatus
verified_statuses = DocStatus.verified ∷ DocStatus.approved ∷ DocStatus.archived ∷ []

-- The list `terminal`: stages driven by explicit decisions.
abbrev pub is_decided : PeriodStatus → Bool
is_decided PeriodStatus.calculated = true
is_decided PeriodStatus.pending_approval = true
is_decided PeriodStatus.approved = true
is_decided PeriodStatus.client_review = true
is_decided PeriodStatus.signed_off = true
is_decided PeriodStatus.paid = true
is_decided PeriodStatus.filed = true
is_decided PeriodStatus.archived = true
is_decided _ = false

-- `Number(expected?.n) || period.documents_expected || 0`.
abbrev pub expected_count : ℕ → Period → ℕ
expected_count required p = if required == 0 then p.documents_expected else required

-- The chain of tests, on the rows of the period.
unfoldable pub derive_status : ℕ → ℕ → List Document → PeriodStatus
derive_status expected open_queries docs =
    let total = length docs in
    let verified_count = count_in verified_statuses docs in
    if ltb 0 (count_in (DocStatus.query_raised ∷ []) docs)
    then PeriodStatus.query_raised
    else if ltb 0 (count_in (DocStatus.awaiting_client ∷ []) docs) || ltb 0 open_queries
    then PeriodStatus.awaiting_client
    else if ltb 0 expected && leb expected verified_count && ltb 0 total
    then PeriodStatus.verified
    else if ltb 0 total && verified_count == total
    then PeriodStatus.verified
    else if ltb 0 (count_in (DocStatus.under_review ∷ []) docs)
    then PeriodStatus.under_review
    else if ltb 0 (count_in received_statuses docs)
    then PeriodStatus.under_review
    else PeriodStatus.collecting

-- `refreshFilingPeriod`: the period's new row, given the number of required checklist items, of open
-- queries, and all documents.
unfoldable pub refresh_filing_period : ℕ → ℕ → List Document → Period → Period
refresh_filing_period required open_queries docs p =
    let rows = of_period p.id docs in
    record p {
      documents_expected = expected_count required p;
      documents_received = count_in received_statuses rows;
      documents_verified = count_in verified_statuses rows;
      status =
          if is_decided p.status
          then p.status
          else derive_status (expected_count required p) open_queries rows;
    }
