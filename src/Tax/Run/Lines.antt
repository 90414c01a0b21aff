-- ===== src/Tax/Run/Lines.antt =====
-- Which lines a computation counts, and the figures it gives them.
use meet_millions_finance.Prelude.{
  leb, leb→le, Bool-cases, nat_eq, filter, All, ℕ, ◌+◌, ◌≤◌, ◌≡◌, refl, ap₂, ◌∙◌, inl, inr, Bool,
  true, Option, List, [], ◌∷◌, arith,
}
use meet_millions_finance.Tax.Gst.{Code, is_inter_state, compute_gst_line, cess_on}
use meet_millions_finance.Tax.Rules.{TaxRule}
use meet_millions_finance.Tax.Summary.{GstRow}
use meet_millions_finance.Tax.Tds.{TdsRow, recompute_tds, tds_loop, YtdMap}
use meet_millions_finance.Tax.Run.{
  counts, recompute_gst, recompute_lines, insert_by_date, sort_by_payment_date, date_key,
  recompute_payments,
}

recompute_gst_stable :
    (supplier : Code) (l : GstRow)
    → recompute_gst supplier (recompute_gst supplier l) ≡ recompute_gst supplier l
unfolding recompute_gst is_inter_state
recompute_gst_stable supplier l = ground arith

gst_lines_checked :
    (supplier : Code) (verified : List ℕ) (lines : List GstRow)
    → All
        (λ (l : GstRow). counts verified l.document_id ≡ true)
        (recompute_lines supplier verified lines)
unfolding recompute_lines recompute_gst
gst_lines_checked supplier verified [] = tt
gst_lines_checked supplier verified (l ∷ ls) = elim (Bool-cases (counts verified l.document_id)) [
  | inl e ↦ rw e (e, gst_lines_checked supplier verified ls)
  | inr e ↦ rw e (gst_lines_checked supplier verified ls)
]

kept_document :
    (supplier : Code) (verified : List ℕ) (l : GstRow)
    → counts verified (recompute_gst supplier l).document_id ≡ counts verified l.document_id
unfolding recompute_gst
kept_document supplier verified l = refl

gst_lines_stable :
    (supplier : Code) (verified : List ℕ) (lines : List GstRow)
    → recompute_lines supplier verified (recompute_lines supplier verified lines)
      ≡ recompute_lines supplier verified lines
unfolding recompute_lines
gst_lines_stable supplier verified [] = refl
gst_lines_stable supplier verified (l ∷ ls) = elim (Bool-cases (counts verified l.document_id)) [
  | inl e ↦
      let still : counts verified (recompute_gst supplier l).document_id ≡ true =
        kept_document supplier verified l ∙ e in
      rw (e, still)
        (ap₂ (λ x xs. x ∷ xs) (recompute_gst_stable supplier l)
          (gst_lines_stable supplier verified ls))
  | inr e ↦ rw e (gst_lines_stable supplier verified ls)
]

-- The lines that a GST computation recalculates belong to no document or to one of the given
-- verified ones, and recalculating them once more changes nothing.
pub gst_rerun_lem :
    (supplier : Code) (verified : List ℕ) (lines : List GstRow)
    → let result = recompute_lines supplier verified lines in
      All (λ (l : GstRow). counts verified l.document_id ≡ true) result
      × (recompute_lines supplier verified result ≡ result)
gst_rerun_lem supplier verified lines =
    (gst_lines_checked supplier verified lines, gst_lines_stable supplier verified lines)

no_cess : (taxable : ℕ) → cess_on taxable 0 ≡ 0
unfolding cess_on
no_cess taxable = refl

-- The total that a computation writes to a line is its taxable value and the three taxes: the cess
-- that stays on the line is not in it.
recomputed_total_lem :
    (supplier : Code) (l : GstRow)
    → let r = recompute_gst supplier l in
      (r.total_paise ≡ l.taxable_value_paise + r.cgst_paise + r.sgst_paise + r.igst_paise)
      × (r.cess_paise ≡ l.cess_paise)
unfolding recompute_gst compute_gst_line
recomputed_total_lem supplier l = ground (arith, no_cess l.taxable_value_paise)

-- Payments in the order of their dates, none before `lo`.
abbrev pub InOrder : ℕ → List TdsRow → Type 0
InOrder lo [] = Unit
InOrder lo (l ∷ ls) = (lo ≤ date_key l) × InOrder (date_key l) ls

insert-InOrder :
    (lo : ℕ) (l : TdsRow) (ms : List TdsRow)
    → lo ≤ date_key l
    → InOrder lo ms
    → InOrder lo (insert_by_date l ms)
unfolding insert_by_date
insert-InOrder lo l [] b h = (b, tt)
insert-InOrder lo l (m ∷ ms) b h = elim (Bool-cases (leb (date_key l) (date_key m))) [
  | inl e ↦ rw e (b, (leb→le _ _ e, h.1))
  | inr e ↦ rw e (h.0, insert-InOrder (date_key m) l ms (ground (arith, e)) h.1)
]

insert-All :
    (P : TdsRow → Type 0) (l : TdsRow) (ms : List TdsRow)
    → P l
    → All P ms
    → All P (insert_by_date l ms)
unfolding insert_by_date
insert-All P l [] p h = (p, tt)
insert-All P l (m ∷ ms) p h = elim (Bool-cases (leb (date_key l) (date_key m))) [
  | inl e ↦ rw e (p, h)
  | inr e ↦ rw e (h.0, insert-All P l ms p h.1)
]

sort-InOrder : (ls : List TdsRow) → InOrder 0 (sort_by_payment_date ls)
unfolding sort_by_payment_date
sort-InOrder [] = tt
sort-InOrder (l ∷ ls) = insert-InOrder 0 l (sort_by_payment_date ls) (omega arith) (sort-InOrder ls)

sort-All : (P : TdsRow → Type 0) (ls : List TdsRow) → All P ls → All P (sort_by_payment_date ls)
unfolding sort_by_payment_date
sort-All P [] h = tt
sort-All P (l ∷ ls) h = insert-All P l (sort_by_payment_date ls) h.0 (sort-All P ls h.1)

filter-All : (p : TdsRow → Bool) (ls : List TdsRow) → All (λ l. p l ≡ true) (filter p ls)
filter-All p [] = tt
filter-All p (l ∷ ls) = elim (Bool-cases (p l)) [
  | inl e ↦ rw e (e, filter-All p ls)
  | inr e ↦ rw e (filter-All p ls)
]

loop-InOrder :
    (rule : TdsRow → Option TaxRule) (lo : ℕ) (ls : List TdsRow) (ytd : YtdMap)
    → InOrder lo ls
    → InOrder lo (tds_loop rule ytd ls)
unfolding tds_loop recompute_tds
loop-InOrder rule lo [] ytd h = tt
loop-InOrder rule lo (l ∷ ls) ytd h = (h.0, loop-InOrder rule (date_key l) ls _ h.1)

loop-checked :
    (rule : TdsRow → Option TaxRule) (verified : List ℕ) (ls : List TdsRow) (ytd : YtdMap)
    → All (λ (l : TdsRow). counts verified l.document_id ≡ true) ls
    → All (λ (l : TdsRow). counts verified l.document_id ≡ true) (tds_loop rule ytd ls)
unfolding tds_loop recompute_tds
loop-checked rule verified [] ytd h = tt
loop-checked rule verified (l ∷ ls) ytd h = (h.0, loop-checked rule verified ls _ h.1)

-- The payments of a TDS computation belong to no document or to one of the given verified ones, and
-- are taken in the order of their dates, those without a date first.
pub payments-InOrder :
    (rules : List TaxRule) (tenant period_end : ℕ) (verified : List ℕ) (lines : List TdsRow)
    → let result = recompute_payments rules tenant period_end verified lines in
      All (λ (l : TdsRow). counts verified l.document_id ≡ true) result × InOrder 0 result
unfolding recompute_payments
payments-InOrder rules tenant period_end verified lines =
    let kept = filter (λ (l : TdsRow). counts verified l.document_id) lines in
    (
      loop-checked _ verified (sort_by_payment_date kept) [] (
          sort-All (λ (l : TdsRow). counts verified l.document_id ≡ true) kept
            (filter-All (λ (l : TdsRow). counts verified l.document_id) lines)),
      loop-InOrder _ 0 (sort_by_payment_date kept) [] (sort-InOrder kept),
    )
