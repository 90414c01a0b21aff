-- ===== src/Workflow/Desk/Step.antt =====
-- Periods in step with the tables below them, and what keeps them so.
use meet_millions_finance.Prelude.{
  ◌==◌, Bool-cases, nat_eq, length, All, contains, sum_by, All-imp, ℕ, ◌≡◌, refl, sym, ap, ◌∙◌, ◌⊎◌,
  inl, inr, Bool, true, false, ◌&&◌, ◌||◌, Option, none, some, List, [], ◌∷◌, arith,
}
use mathlib.Core.Path.{subst}
use meet_millions_finance.Store.{find, update, DistinctIds}
use meet_millions_finance.Store.Rows.{All-update, filter-update_out, sum_by-update_same}
use meet_millions_finance.Workflow.Documents.{DocStatus, doc_eq, Document}
use meet_millions_finance.Workflow.Periods.{
  Period, of_period, count_in, received_statuses, verified_statuses, derive_status,
  refresh_filing_period,
}
use meet_millions_finance.Workflow.Periods.Refresh.{refresh_stable}
use meet_millions_finance.Workflow.Desk.{
  Desk, ChecklistItem, is_of, required_of, open_of, refreshed, refresh, refresh_at, link_item,
  sync_item, sync_items, sync_checklist, best_item, items_for, document_row, item_row, query_row,
  desk_period_row,
}

-- A refresh would leave the period as it is.
abbrev pub IsFreshIn : Desk → Period → Type 0
IsFreshIn t p = refreshed t p ≡ p

-- Every period but those listed is in step with the tables below it.
abbrev pub InStepBut : List ℕ → Desk → Type 0
InStepBut ks t = All (λ (p : Period). (contains p.id ks ≡ true) ⊎ IsFreshIn t p) t.periods

-- Every period is in step.
abbrev pub InStep : Desk → Type 0
InStep t = All (IsFreshIn t) t.periods

abbrev pub noted : Option ℕ → List ℕ → List ℕ
noted none ks = ks
noted (some k) ks = k ∷ ks

-- Two states of the tables show a period the same documents and counts.
pub record SameBelow (t t' : Desk) (j : ℕ) : Type 0 where
  pub total : length (of_period j t'.documents) ≡ length (of_period j t.documents)
  pub counts :
      (w : List DocStatus)
      → count_in w (of_period j t'.documents) ≡ count_in w (of_period j t.documents)
  pub required : sum_by (required_of j) t'.checklist ≡ sum_by (required_of j) t.checklist
  pub queries : sum_by (open_of j) t'.queries ≡ sum_by (open_of j) t.queries

same_refreshed : (t t' : Desk) (p : Period) → SameBelow t t' p.id → refreshed t' p ≡ refreshed t p
unfolding refresh_filing_period derive_status
same_refreshed t t' p s =
    rw
      (
        s.total,
        s.counts (DocStatus.query_raised ∷ []),
        s.counts (DocStatus.awaiting_client ∷ []),
        s.counts (DocStatus.under_review ∷ []),
        s.counts received_statuses,
        s.counts verified_statuses,
        s.required,
        s.queries,
      )
      refl

contains-noted :
    (j : ℕ) (o : Option ℕ) (ks : List ℕ)
    → (is_of j o || contains j ks) ≡ true
    → contains j (noted o ks) ≡ true
contains-noted j none ks h = h
contains-noted j (some k) ks h = ground arith

-- A change that only the period `o` sees leaves every other one in step.
pub change-InStepBut :
    (o : Option ℕ) (ks : List ℕ) (t t' : Desk)
    → t'.periods ≡ t.periods
    → ((j : ℕ) → is_of j o ≡ false → SameBelow t t' j)
    → InStepBut ks t
    → InStepBut (noted o ks) t'
change-InStepBut o ks t t' e s h =
    let step : (p : Period)
        → (contains p.id ks ≡ true) ⊎ IsFreshIn t p
        → (contains p.id (noted o ks) ≡ true) ⊎ IsFreshIn t' p =
      λ p q. elim (Bool-cases (is_of p.id o)) [
        | inl here ↦ inl (contains-noted p.id o ks (rw here refl))
        | inr there ↦ elim q [
          | inl m ↦ inl (contains-noted p.id o ks (rw (there, m) refl))
          | inr f ↦ inr (same_refreshed t t' p (s p.id there) ∙ f)
        ]
      ] in
    subst (All (λ (p : Period). (contains p.id (noted o ks) ≡ true) ⊎ IsFreshIn t' p)) (sym e)
      (All-imp _ _ t.periods step h)

-- The refresh of a period brings it in step.
pub refresh-InStepBut :
    (k : ℕ) (ks : List ℕ) (t : Desk) → InStepBut (k ∷ ks) t → InStepBut ks (refresh k t)
unfolding refresh_filing_period
refresh-InStepBut k ks t h =
    All-update (λ (p : Period). (contains p.id (k ∷ ks) ≡ true) ⊎ IsFreshIn t p)
      (λ (p : Period). (contains p.id ks ≡ true) ⊎ IsFreshIn t p) k (refreshed t) t.periods
      (λ p e q. inr (
        (refresh_stable (sum_by (required_of p.id) t.checklist) (sum_by (open_of p.id) t.queries)
          t.documents p).2))
      (λ p n q. ground arith) h

pub refresh_at-InStepBut :
    (o : Option ℕ) (ks : List ℕ) (t : Desk)
    → InStepBut (noted o ks) t
    → InStepBut ks (refresh_at o t)
refresh_at-InStepBut none ks t h = h
refresh_at-InStepBut (some k) ks t h = refresh-InStepBut k ks t h

pub InStepBut-InStep : (t : Desk) → InStepBut [] t → InStep t
InStepBut-InStep t h = All-imp _ _ t.periods (λ p q. ground arith) h

pub InStep-InStepBut : (t : Desk) → InStep t → InStepBut [] t
InStep-InStepBut t h = All-imp _ _ t.periods (λ p q. inr q) h

out_of :
    (j : ℕ) (o : Option ℕ) (b : Bool)
    → is_of j o ≡ false
    → (elim o [ none ↦ false | some p ↦ p == j ] && b) ≡ false
out_of j none b h = refl
out_of j (some k) b h = rw h refl

-- A patch of a document that keeps its period is seen by that period only.
pub document-SameBelow :
    (t : Desk) (k : ℕ) (g : Document → Document) {d : Document} (j : ℕ)
    → DistinctIds t.documents
    → find k t.documents ≡ some d
    → (g d).filing_period_id ≡ d.filing_period_id
    → is_of j d.filing_period_id ≡ false
    → SameBelow t (record t { documents = update k g t.documents }) j
document-SameBelow t k g {d} j w f e n =
    let rows =
      filter-update_out _ k g t.documents w f (out_of j d.filing_period_id _ n)
        (out_of j (g d).filing_period_id _ (rw e n)) in
    record {
      total = ap length rows;
      counts = λ s. ap (count_in s) rows;
      required = refl;
      queries = refl;
    }

sync_item_required :
    (d : Document) (j : ℕ) (o : Option ChecklistItem) (items : List ChecklistItem)
    → sum_by (required_of j) (sync_item d o items) ≡ sum_by (required_of j) items
sync_item_required d j none items = refl
sync_item_required d j (some i) items =
    sum_by-update_same (required_of j) i.id (link_item d) items (λ x. refl)

sync_items_required :
    (d : Document) (j : ℕ) (o : Option ℕ) (items : List ChecklistItem)
    → sum_by (required_of j) (sync_items d o items) ≡ sum_by (required_of j) items
sync_items_required d j none items = refl
sync_items_required d j (some k) items =
    sync_item_required d j (best_item d.id (items_for k d.document_type_id items)) items

-- No period sees the update of the checklist.
pub checklist-InStepBut :
    (d : Document) (ks : List ℕ) (t : Desk) → InStepBut ks t → InStepBut ks (sync_checklist d t)
unfolding sync_checklist
checklist-InStepBut d ks t h =
    change-InStepBut none ks t (sync_checklist d t) refl
      (λ j n. record {
        total = refl;
        counts = λ w. refl;
        required = sync_items_required d j d.filing_period_id t.checklist;
        queries = refl;
      })
      h

-- A patch of a document that keeps its period, followed by the refresh of it.
pub patch-InStepBut :
    (ks : List ℕ) (t : Desk) (k : ℕ) (g : Document → Document) {d : Document}
    → DistinctIds t.documents
    → find k t.documents ≡ some d
    → (g d).filing_period_id ≡ d.filing_period_id
    → InStepBut ks t
    → InStepBut (noted d.filing_period_id ks) (record t { documents = update k g t.documents })
patch-InStepBut ks t k g {d} w f e h =
    change-InStepBut d.filing_period_id ks t (record t { documents = update k g t.documents }) refl
      (λ j n. document-SameBelow t k g j w f e n) h
