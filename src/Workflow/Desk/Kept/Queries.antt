-- ===== src/Workflow/Desk/Kept/Queries.antt =====
-- Replies that leave a query open, and resolving one, keep the periods in step.
use meet_millions_finance.Prelude.{
  Bool-cases, nat_eq, ℕ, ◌≡◌, refl, inl, inr, Bool, true, false, not, ◌&&◌, Option, none, some, [],
  arith,
}
use meet_millions_finance.Store.{find, update}
use meet_millions_finance.Store.Rows.{find_own, sum_by-update, update-DistinctIds}
use meet_millions_finance.Workflow.Documents.{Document}
use meet_millions_finance.Workflow.Desk.{Desk, Query, open_of, document_row, query_row}
use meet_millions_finance.Workflow.Desk.Queries.{
  ReplyInput, reply_row, reply_at, is_closed, release_row, release_found, release_document,
  is_waiting, is_resolved, resolve_patch, resolve_at,
}
use meet_millions_finance.Workflow.Desk.Step.{noted, change-InStepBut}
use meet_millions_finance.Workflow.Desk.Kept.{
  IsSound, IsInStep, Keeps, patch-IsSound, refresh_at-IsSound, query-IsSound,
}

-- A reply that does not resolve leaves an open query open.
stays_open :
    (user now : ℕ) (i : ReplyInput) (j : ℕ) (q : Query)
    → is_closed q.status ≡ false
    → (i.resolve && i.may_resolve) ≡ false
    → open_of j (reply_row user now i q q) ≡ open_of j q
stays_open user now i j q h n = ground arith

answered-IsInStep :
    (user now : ℕ) (i : ReplyInput) (k : ℕ) (t : Desk) {q : Query}
    → find k t.queries ≡ some q
    → is_closed q.status ≡ false
    → (i.resolve && i.may_resolve) ≡ false
    → IsInStep t
    → IsInStep (record t { queries = update q.id (reply_row user now i q) t.queries })
answered-IsInStep user now i k t {q} f h n s =
    let g = reply_row user now i q in
    record {
      document_ids = s.document_ids;
      query_ids = update-DistinctIds q.id g t.queries (λ x. ground arith) s.query_ids;
      in_step =
          change-InStepBut none [] t (record t { queries = update q.id g t.queries }) refl
            (λ j e. record {
              total = refl;
              counts = λ w. refl;
              required = refl;
              queries = omega (
                arith,
                sum_by-update (open_of j) q.id g t.queries s.query_ids (find_own k t.queries f),
                stays_open user now i j q h n,
              );
            })
            s.in_step;
    }

pub reply_at-Keeps :
    (user now : ℕ) (i : ReplyInput) (k : ℕ) (o : Option Query) (t : Desk)
    → find k t.queries ≡ o
    → (i.resolve && i.may_resolve) ≡ false
    → IsInStep t
    → Keeps (reply_at user now i o t)
reply_at-Keeps user now i k none t f n s = tt
reply_at-Keeps user now i k (some q) t f n s = elim (Bool-cases (is_closed q.status)) [
  | inl e ↦ rw e tt
  | inr e ↦ rw e (elim (Bool-cases (not i.is_shared && not i.may_note)) [
    | inl m ↦ rw m tt
    | inr m ↦ rw m (
        let a = answered-IsInStep user now i k t f e n s in
        record { document_ids = a.document_ids; query_ids = a.query_ids; in_step = a.in_step })
  ])
]

released-IsSound :
    (o : Option ℕ) (k : ℕ) (found : Option Document) (t : Desk)
    → find k t.documents ≡ found
    → IsSound (noted o []) t
    → IsSound (noted o []) (release_found found t)
released-IsSound o k none t f s = s
released-IsSound o k (some d) t f s = elim (Bool-cases (is_waiting d.status)) [
  | inl e ↦ rw e (
      refresh_at-IsSound d.filing_period_id (noted o [])
        (record t { documents = update d.id release_row t.documents })
        (patch-IsSound (noted o []) t k release_row f (λ x. refl) refl s))
  | inr e ↦ rw e s
]

release-IsSound :
    (o : Option ℕ) (release : Bool) (document : Option ℕ) (t : Desk)
    → IsSound (noted o []) t
    → IsSound (noted o []) (release_document release document t)
release-IsSound o release none t s = s
release-IsSound o true (some k) t s = released-IsSound o k (find k t.documents) t refl s
release-IsSound o false (some k) t s = s

pub resolve_at-Keeps :
    (user now : ℕ) (notes : Option ℕ) (release : Bool) (k : ℕ) (o : Option Query) (t : Desk)
    → find k t.queries ≡ o
    → IsInStep t
    → Keeps (resolve_at user now notes release o t)
resolve_at-Keeps user now notes release k none t f s = tt
resolve_at-Keeps user now notes release k (some q) t f s =
    elim (Bool-cases (is_resolved q.status)) [
      | inl e ↦ rw e s
      | inr e ↦ rw e (
          let t' = record t { queries = update q.id (resolve_patch user now notes) t.queries } in
          refresh_at-IsSound q.filing_period_id [] (release_document release q.document_id t') (
            release-IsSound q.filing_period_id release q.document_id t'
              (query-IsSound [] t k (resolve_patch user now notes) f (λ x. refl) refl s)))
    ]
