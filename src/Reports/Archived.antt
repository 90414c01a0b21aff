-- ===== src/Reports/Archived.antt =====
-- What archiving a report closes.
use meet_millions_finance.Prelude.{
  ◌==◌, Bool-cases, nat_eq, contains, ℕ, ◌≡◌, refl, ap, ◌∙◌, inl, inr, Bool, true, false, ◌&&◌,
  Option, some, List, [], ◌∷◌, map, arith,
}
use meet_millions_finance.Store.{find}
use meet_millions_finance.Workflow.Documents.{
  Document, DocStatus, DecisionInput, decide, locked, refused,
}
use meet_millions_finance.Workflow.Desk as Desks
use meet_millions_finance.Workflow.Desk.{Desk, is_of, document_row}
use meet_millions_finance.Workflow.Desk.Review.{Call, decide_document}
use meet_millions_finance.Workflow.Desk.Bulk.{Bulk, BulkAction, bulk, bulk_ok}
use meet_millions_finance.Workflow.Desk.Patched.{is_taken}
use meet_millions_finance.Workflow.Desk.Spared.{bulk_lem}
use meet_millions_finance.Reports.{Report, Office, ok, report_row}
use meet_millions_finance.Reports.Routes.{Caller}
use meet_millions_finance.Reports.SignOff.{
  archive_document, archive_report, archive_at, may_archive,
}

archive_keeps_id : (c : Caller) (i : ℕ) (d : Document) → (archive_document c i d).id ≡ d.id
archive_keeps_id c i d = ground arith

archived_found :
    (c : Caller) (i k : ℕ) (docs : List Document) {d : Document}
    → find k docs ≡ some d
    → find k (map (archive_document c i) docs) ≡ some (archive_document c i d)
unfolding find
archived_found c i k [] f = cc
archived_found c i k (x ∷ xs) {d} f = elim (Bool-cases (x.id == k)) [
  | inl here ↦
      let found : some x ≡ some d = rw here at f in
      let same : x ≡ d = cc in
      let kept : ((archive_document c i x).id == k) ≡ true =
        ap (λ n. n == k) (archive_keeps_id c i x) ∙ here in
      rw kept (ap (λ z. some (archive_document c i z)) same)
  | inr there ↦
      let kept : ((archive_document c i x).id == k) ≡ false =
        ap (λ n. n == k) (archive_keeps_id c i x) ∙ there in
      rw kept (archived_found c i k xs (rw there at f))
]

archived_closed :
    (c : Caller) (i : ℕ) (d : Document)
    → is_of i d.filing_period_id ≡ true
    → ((archive_document c i d).status ≡ DocStatus.archived)
      × ((archive_document c i d).is_locked ≡ true)
archived_closed c i d h = ground arith

locked_refused :
    (user now : ℕ) (may_lock : Bool) (i : DecisionInput) (d : Document)
    → d.is_locked ≡ true
    → decide user now may_lock i d ≡ refused locked
unfolding decide
locked_refused user now may_lock i d h = ground arith

archived_desk :
    (c : Caller) (i : ℕ) (r : Report) (o : Office) {o' : Office}
    → may_archive r.status ≡ true
    → r.filing_period_id ≡ some i
    → archive_at c (some r) o ≡ ok o'
    → o'.desk.documents ≡ map (archive_document c i) o.desk.documents
archived_desk c i r o {o'} m q e = ground arith

-- A bulk action leaves a locked document as it was.
locked_stays :
    (call : Call) (action : BulkAction) (notes : Option ℕ) (ks : List ℕ) (j : ℕ) (t : Desk)
    {d : Document} {b : Bulk}
    → find j t.documents ≡ some d
    → d.is_locked ≡ true
    → bulk call action notes ks t ≡ bulk_ok b
    → find j b.desk.documents ≡ some d
locked_stays call action notes ks j t {d} {b} f l e =
    let whole = bulk_lem call action notes ks t j e in
    let out : (contains j ks && is_taken action (some d)) ≡ false = ground arith in
    let rest = rw f at whole.2 in (rw out at rest)

-- Archiving a report that may be archived archives and locks every document of its filing period. In
-- the tables that it leaves, the decision route refuses each of them as locked, and every bulk action
-- leaves it as it is.
pub archive_closes_documents :
    (c : Caller) (k i j : ℕ) (o : Office) {r : Report} {d : Document} {o' : Office}
    → find k o.reports ≡ some r
    → may_archive r.status ≡ true
    → r.filing_period_id ≡ some i
    → find j o.desk.documents ≡ some d
    → is_of i d.filing_period_id ≡ true
    → archive_report c k o ≡ ok o'
    → (find j o'.desk.documents ≡ some (archive_document c i d))
      × ((archive_document c i d).status ≡ DocStatus.archived)
      × ((call : Call) (may_lock : Bool) (input : DecisionInput)
          → decide_document call may_lock input j o'.desk
            ≡ Desks.Answer.err (Desks.DeskError.undecided locked))
      × ((call : Call) (action : BulkAction) (notes : Option ℕ) (ks : List ℕ) (b : Bulk)
          → bulk call action notes ks o'.desk ≡ bulk_ok b
          → find j b.desk.documents ≡ some (archive_document c i d))
unfolding archive_report decide_document
archive_closes_documents c k i j o {r} {d} {o'} f m q g h e =
    let archived : archive_at c (some r) o ≡ ok o' = rw f at e in
    let there : find j o'.desk.documents ≡ some (archive_document c i d) =
      ap (find j) (archived_desk c i r o m q archived) ∙ archived_found c i j o.desk.documents g in
    let closed = archived_closed c i d h in
    (
      there,
      closed.0,
      λ call may_lock input.
          rw
            (
              there,
              locked_refused call.user call.now may_lock input (archive_document c i d) (closed.1),
            )
            refl,
      λ call action notes ks b a.
          locked_stays call action notes ks j o'.desk {b = b} there (closed.1) a,
    )
