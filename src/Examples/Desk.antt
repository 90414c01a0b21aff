-- ===== src/Examples/Desk.antt =====
-- The review desk at concrete inputs.
use meet_millions_finance.Prelude.{
  if◌then◌else◌, nat_eq, contains, ℕ, ◌+◌, ◌≡◌, refl, ◌≢◌, inr, Bool, true, false, Option, none,
  some, [], ◌∷◌, arith,
}
use meet_millions_finance.Store.{find, update}
use meet_millions_finance.Workflow.Documents.{DocStatus, Document, Decision}
use meet_millions_finance.Workflow.Periods.{
  Period, PeriodStatus, refresh_filing_period, derive_status,
}
use meet_millions_finance.Workflow.Desk.{
  DeskError, Answer, Desk, ok, ChecklistItem, ItemStatus, Query, QueryStatus, document_row,
  query_row,
}
use meet_millions_finance.Workflow.Desk.Review.{Call}
use meet_millions_finance.Workflow.Desk.Bulk.{Bulk, approve_all, bulk_ok, bulk_loop, bulk}
use meet_millions_finance.Workflow.Desk.Queries.{
  ReplyInput, reply, reply_row, resolve, raise_query_on,
}
use meet_millions_finance.Workflow.Desk.Kept.{IsInStep}
use meet_millions_finance.Workflow.Desk.Served.{
  serve, decide_one, desk_after, untouched, then_served, desk-IsInStep,
}
use meet_millions_finance.Workflow.Desk.Replies.{resolving_reply_lem}
use meet_millions_finance.Workflow.Desk.Spared.{times, ids_of, bulk_lem}
use meet_millions_finance.Workflow.Desk.Patched.{is_taken, patch_of, patched}
use meet_millions_finance.Workflow.Desk.Raised.{raising_ignores_lock}
use meet_millions_finance.Examples.Flow.{document, input}

abbrev locked_document : Document
locked_document = record (document 3 DocStatus.verified) { is_locked = true }

abbrev item : ChecklistItem
item = record {
  id = 1;
  filing_period_id = 1;
  document_type_id = 5;
  document_id = some 1;
  is_required = true;
  status = ItemStatus.under_review;
}

abbrev query : Query
query = record {
  id = 40;
  document_id = some 2;
  filing_period_id = some 1;
  reference_no = (2026, 1);
  status = QueryStatus.client_responded;
  raised_by = 7;
  assigned_to = 7;
  due_at = none;
  resolved_by = none;
  resolved_at = none;
  resolution_note = none;
  first_response_at = some 20;
  reply_count = 1;
}

abbrev period : Period
period = record {
  id = 1;
  client_id = 4;
  status = PeriodStatus.awaiting_client;
  documents_expected = 1;
  documents_received = 3;
  documents_verified = 1;
  period_end = 1000;
}

abbrev desk : Desk
desk = record {
  documents =
      document 1 DocStatus.under_review
      ∷ document 2 DocStatus.awaiting_client
      ∷ locked_document
      ∷ [];
  checklist = item ∷ [];
  queries = query ∷ [];
  replies = [];
  records = [];
  periods = period ∷ [];
}

desk_in_step : IsInStep desk
unfolding refresh_filing_period derive_status find
desk_in_step = record {
  document_ids = (refl, (refl, (refl, tt)));
  query_ids = (refl, tt);
  in_step = (inr (ground arith), tt);
}

abbrev call : Call
call = record { user = 7; now = 50; year = 2026; new_id = 41 }

desk-IsInStep_example :
    IsInStep (desk_after (serve (decide_one call true (input Decision.approve none) 1) desk) desk)
unfolding find
desk-IsInStep_example =
    desk-IsInStep desk_in_step
      (then_served untouched (decide_one call true (input Decision.approve none) 1) refl)

abbrev many : Bulk
many =
    bulk_loop call approve_all none (1 ∷ 3 ∷ 9 ∷ [])
      (record { desk = desk; updated = []; skipped = [] })

many_answered : bulk call approve_all none (1 ∷ 3 ∷ 9 ∷ []) desk ≡ bulk_ok many
unfolding bulk
many_answered = refl

bulk_lem_example :
    (times 1 many.updated + times 1 (ids_of many.skipped) ≡ 1)
    × (contains 1 many.updated ≡ is_taken approve_all (find 1 desk.documents))
    × (find 1 many.desk.documents ≡ (
        if is_taken approve_all (find 1 desk.documents)
        then patched (patch_of call approve_all none) (find 1 desk.documents)
        else find 1 desk.documents))
bulk_lem_example = bulk_lem call approve_all none (1 ∷ 3 ∷ 9 ∷ []) desk 1 many_answered

abbrev closing_reply : ReplyInput
closing_reply = record {
  is_client = false;
  is_shared = true;
  may_note = true;
  resolve = true;
  may_resolve = true;
  body = 12;
}

abbrev replied : Desk
replied = record desk {
  replies = (record { query_id = 40; author_id = 7; is_shared = true }) ∷ [];
  queries = reply_row 7 60 closing_reply query query ∷ [];
}

resolving_reply_lem_example :
    (replied.documents ≡ desk.documents)
    × (replied.periods ≡ desk.periods)
    × ((later at : ℕ) (notes : Option ℕ) (release : Bool)
        → resolve later at notes release 40 replied ≡ ok replied)
unfolding find update reply
resolving_reply_lem_example =
    resolving_reply_lem 7 60 closing_reply 40 desk {q = query} {t' = replied} refl refl refl

raising_ignores_lock_example :
    ((t' : Desk) × (raise_query_on call 4 (some 3) none none desk ≡ ok t')
      × (find 3 t'.documents ≡ some (record locked_document { status = DocStatus.query_raised })))
    × ((other : ℕ)
        → other ≢ 4
        → raise_query_on call other (some 3) none none desk ≡ Answer.err DeskError.not_found)
unfolding find
raising_ignores_lock_example =
    raising_ignores_lock call 3 none none desk {d = locked_document} refl refl
