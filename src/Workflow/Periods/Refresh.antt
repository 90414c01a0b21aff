-- ===== src/Workflow/Periods/Refresh.antt =====
-- The derived status of a period.
use meet_millions_finance.Prelude.{
  nat_eq, length, ℕ, ◌≤◌, ◌<◌, ◌≡◌, refl, ◌⊎◌, true, false, List, [], ◌∷◌, arith,
}
use meet_millions_finance.Workflow.Documents.{DocStatus, Document}
use meet_millions_finance.Workflow.Periods.{
  verified, Period, count_in, of_period, verified_statuses, is_decided, expected_count,
  derive_status, refresh_filing_period,
}

undecided : (e q : ℕ) (docs : List Document) → is_decided (derive_status e q docs) ≡ false
unfolding derive_status
undecided e q docs = ground arith

-- A refresh never moves a period out of the decided stages nor into them, and a second refresh over
-- the same rows changes nothing.
pub refresh_stable :
    (required open_queries : ℕ) (docs : List Document) (p : Period)
    → let r = refresh_filing_period required open_queries docs p in
      (is_decided r.status ≡ is_decided p.status)
      × (is_decided p.status ≡ true → r.status ≡ p.status)
      × (refresh_filing_period required open_queries docs r ≡ r)
unfolding refresh_filing_period
refresh_stable required open_queries docs p =
    ground (arith, undecided (expected_count required p) open_queries (of_period p.id docs))

no_waiting :
    (docs : List Document)
    → count_in (DocStatus.query_raised ∷ []) docs ≡ 0
    → count_in (DocStatus.awaiting_client ∷ []) docs ≡ 0
    → count_in (DocStatus.query_raised ∷ DocStatus.awaiting_client ∷ []) docs ≡ 0
no_waiting [] h k = refl
no_waiting (d ∷ docs) h k = ground (arith, no_waiting docs)

-- A period outside the decided stages that is refreshed to `verified` has documents, none of them
-- waiting on a query or on the client, no open query, and its verified documents are all of them or
-- as many as are expected.
pub refresh_verified :
    (required open_queries : ℕ) (docs : List Document) (p : Period)
    → is_decided p.status ≡ false
    → (refresh_filing_period required open_queries docs p).status ≡ verified
    → let rows = of_period p.id docs in
      (0 < length rows)
      × (open_queries ≡ 0)
      × (count_in (DocStatus.query_raised ∷ DocStatus.awaiting_client ∷ []) rows ≡ 0)
      × ((count_in verified_statuses rows ≡ length rows)
          ⊎ (expected_count required p ≤ count_in verified_statuses rows))
unfolding refresh_filing_period derive_status
refresh_verified required open_queries docs p h e = ground (arith, no_waiting (of_period p.id docs))
