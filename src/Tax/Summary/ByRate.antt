-- ===== src/Tax/Summary/ByRate.antt =====
-- The breakdown by rate: one group per rate, in rising order, each with the totals of its lines.
use meet_millions_finance.Prelude.{
  ◌==◌, if◌then◌else◌, or_else, nat_eq, any, sum_by, ℕ, suc, ◌+◌, ◌≤◌, ◌≡◌, refl, ap, ◌∙◌, Option,
  none, some, List, [], ◌∷◌, foldl, arith,
}
use meet_millions_finance.Tax.Summary.{
  group_by_rate, GstRow, RateGroup, empty_group, add_row, group_row, insert_group, sort_groups,
}

abbrev pub lookup_rate : ℕ → List RateGroup → Option RateGroup
lookup_rate r [] = none
lookup_rate r (g ∷ gs) = if g.rate_pct == r then some g else lookup_rate r gs

abbrev DistinctRates : List RateGroup → Type 0
DistinctRates [] = Unit
DistinctRates (g ∷ gs) = (lookup_rate g.rate_pct gs ≡ none) × DistinctRates gs

-- The rates rise strictly, and the first is at least `lo`.
abbrev pub RisingRates : ℕ → List RateGroup → Type 0
RisingRates lo [] = Unit
RisingRates lo (g ∷ gs) = (lo ≤ g.rate_pct) × RisingRates (suc g.rate_pct) gs

-- What one line does to the group of rate `r`, as the loop finds it.
abbrev collect : ℕ → Option RateGroup → GstRow → Option RateGroup
collect r o l = if l.rate_pct == r then some (add_row (or_else o (empty_group r)) l) else o

lookup-group_row :
    (r : ℕ) (l : GstRow) (gs : List RateGroup)
    → lookup_rate r (group_row gs l) ≡ collect r (lookup_rate r gs) l
unfolding group_row
lookup-group_row r l [] = ground arith
lookup-group_row r l (g ∷ gs) = ground (arith, lookup-group_row r l gs)

group_row-Distinct :
    (l : GstRow) (gs : List RateGroup) → DistinctRates gs → DistinctRates (group_row gs l)
unfolding group_row
group_row-Distinct l [] h = (refl, tt)
group_row-Distinct l (g ∷ gs) h =
    ground (arith, group_row-Distinct l gs h.1, lookup-group_row g.rate_pct l gs)

foldl-Distinct :
    (gs : List RateGroup) (ls : List GstRow)
    → DistinctRates gs
    → DistinctRates (foldl group_row gs ls)
foldl-Distinct gs [] h = h
foldl-Distinct gs (l ∷ ls) h = foldl-Distinct (group_row gs l) ls (group_row-Distinct l gs h)

lookup-foldl :
    (r : ℕ) (gs : List RateGroup) (ls : List GstRow)
    → lookup_rate r (foldl group_row gs ls) ≡ foldl (collect r) (lookup_rate r gs) ls
lookup-foldl r gs [] = refl
lookup-foldl r gs (l ∷ ls) =
    lookup-foldl r (group_row gs l) ls ∙ ap (λ o. foldl (collect r) o ls) (lookup-group_row r l gs)

lookup-insert :
    (r : ℕ) (g : RateGroup) (gs : List RateGroup)
    → lookup_rate g.rate_pct gs ≡ none
    → lookup_rate r (insert_group g gs) ≡ (if g.rate_pct == r then some g else lookup_rate r gs)
unfolding insert_group
lookup-insert r g [] h = refl
lookup-insert r g (x ∷ gs) h = ground (arith, lookup-insert r g gs)

lookup-sort :
    (r : ℕ) (gs : List RateGroup)
    → DistinctRates gs
    → lookup_rate r (sort_groups gs) ≡ lookup_rate r gs
unfolding sort_groups
lookup-sort r [] h = refl
lookup-sort r (g ∷ gs) h =
    rw (lookup-insert r g (sort_groups gs) (lookup-sort g.rate_pct gs h.1 ∙ h.0))
      (rw (lookup-sort r gs h.1))

insert-Rising :
    (lo : ℕ) (g : RateGroup) (gs : List RateGroup)
    → lookup_rate g.rate_pct gs ≡ none
    → lo ≤ g.rate_pct
    → RisingRates lo gs
    → RisingRates lo (insert_group g gs)
unfolding insert_group
insert-Rising lo g [] h k s = (k, tt)
insert-Rising lo g (x ∷ gs) h k s = ground (arith, insert-Rising (suc x.rate_pct) g gs)

sort-Rising : (gs : List RateGroup) → DistinctRates gs → RisingRates 0 (sort_groups gs)
unfolding sort_groups
sort-Rising [] h = tt
sort-Rising (g ∷ gs) h =
    insert-Rising 0 g (sort_groups gs) (lookup-sort g.rate_pct gs h.1 ∙ h.0) (omega arith)
      (sort-Rising gs h.1)

-- A figure of a line, counted only at rate `r`.
abbrev pub at_rate : ℕ → (GstRow → ℕ) → GstRow → ℕ
at_rate r f l = if l.rate_pct == r then f l else 0

-- The group of rate `r` with the totals of the lines at that rate added.
abbrev pub add_totals : ℕ → RateGroup → List GstRow → RateGroup
add_totals r g ls = record {
  rate_pct = g.rate_pct;
  taxable_value_paise = g.taxable_value_paise + sum_by (at_rate r (λ l. l.taxable_value_paise)) ls;
  cgst_paise = g.cgst_paise + sum_by (at_rate r (λ l. l.cgst_paise)) ls;
  sgst_paise = g.sgst_paise + sum_by (at_rate r (λ l. l.sgst_paise)) ls;
  igst_paise = g.igst_paise + sum_by (at_rate r (λ l. l.igst_paise)) ls;
  cess_paise = g.cess_paise + sum_by (at_rate r (λ l. l.cess_paise)) ls;
  count = g.count + sum_by (at_rate r (λ _. 1)) ls;
}

-- The breakdown's entry for rate `r`: the totals of the lines at that rate, if there are any.
abbrev pub rate_totals : ℕ → List GstRow → Option RateGroup
rate_totals r ls =
    if any (λ (l : GstRow). l.rate_pct == r) ls
    then some (add_totals r (empty_group r) ls)
    else none

collect-some :
    (r : ℕ) (g : RateGroup) (ls : List GstRow)
    → foldl (collect r) (some g) ls ≡ some (add_totals r g ls)
collect-some r g [] = ground arith
collect-some r g (l ∷ ls) = ground (arith, collect-some r g ls, collect-some r (add_row g l) ls)

collect-none : (r : ℕ) (ls : List GstRow) → foldl (collect r) none ls ≡ rate_totals r ls
collect-none r [] = refl
collect-none r (l ∷ ls) =
    ground (arith, collect-none r ls, collect-some r (add_row (empty_group r) l) ls)

-- The breakdown by rate lists each rate once, in rising order, and its entry for any rate holds the
-- totals and the number of the lines at that rate; a rate that no line has does not appear.
pub group_by_rate_lem :
    (lines : List GstRow)
    → RisingRates 0 (group_by_rate lines)
      × ((r : ℕ) → lookup_rate r (group_by_rate lines) ≡ rate_totals r lines)
unfolding group_by_rate
group_by_rate_lem lines =
    let distinct = foldl-Distinct [] lines tt in
    (
      sort-Rising _ distinct,
      λ r. lookup-sort r _ distinct ∙ lookup-foldl r [] lines ∙ collect-none r lines,
    )
