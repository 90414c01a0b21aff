-- ===== src/Workflow/Desk/Kept.antt =====
-- Each change that a route of the desk makes, and the periods that it puts out of step.
use meet_millions_finance.Prelude.{
  ltb, leb, ◌==◌, if◌then◌else◌, ltb→lt, leb→le, ==_iff, ==_refl, Bool-cases, Option-cases, or_else,
  is_some, Eq, nat_eq, beq_of, beq_of_iff, length, filter, any, All, length-append, length-filter,
  contains, sum_by, sum_by-append, All-imp, All-and, All-append, ℕ, zero, suc, ◌+◌, ◌-◌, ◌*◌, ◌/◌,
  ◌%◌, ◌^◌, ◌≤◌, ◌<◌, max, min, String, ◌≡◌, refl, sym, ap, ap₂, ◌∙◌, ◌≢◌, ◌↔◌, ◌⊎◌, inl, inr, Bool,
  true, false, not, ◌&&◌, ◌||◌, Option, none, some, List, [], ◌∷◌, ◌++◌, map, foldl, arith,
}
use meet_millions_finance.Store.{find, update, DistinctIds}
use meet_millions_finance.Store.Rows.{
  KeepsId, update-DistinctIds, append-DistinctIds, sum_by-update, find_own,
}
use meet_millions_finance.Workflow.Documents.{Document, VerificationRecord}
use meet_millions_finance.Workflow.Desk.{
  Answer, ok, err, Desk, Query, is_of, open_of, refresh_at, sync_checklist, document_row, query_row,
}
use meet_millions_finance.Workflow.Desk.Review.{Call, new_query, create_query}
use meet_millions_finance.Workflow.Desk.Step.{
  InStepBut, noted, change-InStepBut, refresh_at-InStepBut, checklist-InStepBut, patch-InStepBut,
}
use meet_millions_finance.Workflow.Desk.Quiet.{IsQuiet, quiet-SameBelow}
pub mod Review
pub mod Bulk
pub mod Queries

-- Documents and queries have distinct ids, and every period but those listed is in step.
pub record IsSound (ks : List ℕ) (t : Desk) : Type 0 where
  pub document_ids : DistinctIds t.documents
  pub query_ids : DistinctIds t.queries
  pub in_step : InStepBut ks t

pub patch-IsSound :
    (ks : List ℕ) (t : Desk) (k : ℕ) (g : Document → Document) {d : Document}
    → find k t.documents ≡ some d
    → KeepsId g
    → (g d).filing_period_id ≡ d.filing_period_id
    → IsSound ks t
    → IsSound (noted d.filing_period_id ks) (record t { documents = update d.id g t.documents })
patch-IsSound ks t k g {d} f keeps e s = record {
  document_ids = update-DistinctIds d.id g t.documents keeps s.document_ids;
  query_ids = s.query_ids;
  in_step = patch-InStepBut ks t d.id g s.document_ids (find_own k t.documents f) e s.in_step;
}

pub refresh_at-IsSound :
    (o : Option ℕ) (ks : List ℕ) (t : Desk) → IsSound (noted o ks) t → IsSound ks (refresh_at o t)
refresh_at-IsSound none ks t s = s
refresh_at-IsSound (some k) ks t s = record {
  document_ids = s.document_ids;
  query_ids = s.query_ids;
  in_step = refresh_at-InStepBut (some k) ks t s.in_step;
}

pub checklist-IsSound :
    (d : Document) (ks : List ℕ) (t : Desk) → IsSound ks t → IsSound ks (sync_checklist d t)
unfolding sync_checklist
checklist-IsSound d ks t s = record {
  document_ids = s.document_ids;
  query_ids = s.query_ids;
  in_step = checklist-InStepBut d ks t s.in_step;
}

not_counted : (j : ℕ) (q : Query) → is_of j q.filing_period_id ≡ false → open_of j q ≡ 0
not_counted j q h = ground arith

-- A new query is seen by its period only.
pub create_query-IsSound :
    (c : Call) (document period : Option ℕ) (ks : List ℕ) (t : Desk)
    → find c.new_id t.queries ≡ none
    → IsSound ks t
    → IsSound (noted period ks) (create_query c document period t)
create_query-IsSound c document period ks t fresh s =
    let q = new_query c document period t.queries in
    record {
      document_ids = s.document_ids;
      query_ids = append-DistinctIds t.queries q fresh s.query_ids;
      in_step =
          change-InStepBut period ks t (create_query c document period t) refl
            (λ j n. record {
              total = refl;
              counts = λ w. refl;
              required = refl;
              queries =
                  rw (sum_by-append (open_of j) t.queries (q ∷ []))
                    (omega (arith, not_counted j q n));
            })
            s.in_step;
    }

-- A patch of a query that keeps its period is seen by that period only.
pub query-IsSound :
    (ks : List ℕ) (t : Desk) (k : ℕ) (g : Query → Query) {q : Query}
    → find k t.queries ≡ some q
    → KeepsId g
    → (g q).filing_period_id ≡ q.filing_period_id
    → IsSound ks t
    → IsSound (noted q.filing_period_id ks) (record t { queries = update q.id g t.queries })
query-IsSound ks t k g {q} f keeps e s = record {
  document_ids = s.document_ids;
  query_ids = update-DistinctIds q.id g t.queries keeps s.query_ids;
  in_step =
      change-InStepBut q.filing_period_id ks t (record t { queries = update q.id g t.queries }) refl
        (λ j n. record {
          total = refl;
          counts = λ w. refl;
          required = refl;
          queries =
              let moved =
                sum_by-update (open_of j) q.id g t.queries s.query_ids (find_own k t.queries f) in
              let before = not_counted j q n in
              let after = not_counted j (g q) (rw e n) in omega (arith, moved, before, after);
        })
        s.in_step;
}

-- A period that is listed twice is listed.
pub noted_twice :
    (o : Option ℕ) (ks : List ℕ) (t : Desk)
    → IsSound (noted o (noted o ks)) t
    → IsSound (noted o ks) t
noted_twice none ks t s = s
noted_twice (some k) ks t s = record {
  document_ids = s.document_ids;
  query_ids = s.query_ids;
  in_step = All-imp _ _ t.periods (λ p h. ground arith) s.in_step;
}

-- A patch of a document that leaves period, status and deletion alone is seen by no period.
pub quiet-IsSound :
    (ks : List ℕ) (t : Desk) (k : ℕ) (g : Document → Document)
    → KeepsId g
    → IsQuiet g
    → IsSound ks t
    → IsSound ks (record t { documents = update k g t.documents })
quiet-IsSound ks t k g keeps q s = record {
  document_ids = update-DistinctIds k g t.documents keeps s.document_ids;
  query_ids = s.query_ids;
  in_step =
      change-InStepBut none ks t (record t { documents = update k g t.documents }) refl
        (λ j n. quiet-SameBelow t k g j q) s.in_step;
}

-- Documents and queries have distinct ids, and every period is in step with the tables below it.
abbrev pub IsInStep : Desk → Type 0
IsInStep t = IsSound [] t

abbrev pub Keeps : Answer → Type 0
Keeps (ok t) = IsInStep t
Keeps (err e) = Unit

pub with_record :
    (r : VerificationRecord) (t : Desk)
    → IsInStep t
    → IsInStep (record t { records = r ∷ t.records })
with_record r t s = record {
  document_ids = s.document_ids;
  query_ids = s.query_ids;
  in_step = s.in_step;
}

-- A patch of a document that keeps its period, and the refresh of that period.
pub refreshed-IsInStep :
    (t : Desk) (k : ℕ) (g : Document → Document) {d : Document}
    → find k t.documents ≡ some d
    → KeepsId g
    → (g d).filing_period_id ≡ d.filing_period_id
    → IsInStep t
    → IsInStep (refresh_at d.filing_period_id (record t { documents = update d.id g t.documents }))
refreshed-IsInStep t k g {d} f keeps e s =
    refresh_at-IsSound d.filing_period_id [] (record t { documents = update d.id g t.documents })
      (patch-IsSound [] t k g f keeps e s)
