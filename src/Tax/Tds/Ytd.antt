-- ===== src/Tax/Tds/Ytd.antt =====
-- The running totals of the payment loop are the deductee's earlier payments.
use meet_millions_finance.Prelude.{
  if◌then◌else◌, Bool-cases, nat_eq, sum_by, sum_by-append, ℕ, ◌+◌, ◌≡◌, refl, ap₂, inl, inr, true,
  Option, List, [], ◌∷◌, ◌++◌, arith,
}
use meet_millions_finance.Tax.Gst.{Code, code_eq}
use meet_millions_finance.Tax.Gst.Place.{code_eq_sound}
use meet_millions_finance.Tax.Rules.{TaxRule}
use meet_millions_finance.Tax.Tds.{
  TdsRow, deductee_key, YtdMap, get_ytd, set_ytd, recompute_tds, tds_loop,
}

-- What a line pays to the deductee of key `k`.
abbrev pub paid_to : Code → TdsRow → ℕ
paid_to k l = if code_eq k (deductee_key l) then l.amount_paise else 0

-- What the earlier lines paid to the deductee of key `k`.
abbrev pub paid_before : Code → List TdsRow → ℕ
paid_before k earlier = sum_by (paid_to k) earlier

-- Each line computed against the sum of its deductee's payments among the lines before it.
abbrev pub recompute_all : (TdsRow → Option TaxRule) → List TdsRow → List TdsRow → List TdsRow
recompute_all rule_for earlier [] = []
recompute_all rule_for earlier (l ∷ ls) =
    recompute_tds rule_for (paid_before (deductee_key l) earlier) l
    ∷ recompute_all rule_for (earlier ++ l ∷ []) ls

code_eq_join : (a b c : Code) → code_eq a b ≡ true → code_eq a c ≡ true → code_eq c b ≡ true
code_eq_join a b c p q = rw (← code_eq_sound a c q) p

code_eq_at : (k i j : Code) → code_eq j i ≡ true → code_eq k j ≡ code_eq k i
code_eq_at k i j p = rw (code_eq_sound j i p)

get-set_ytd :
    (k j : Code) (v : ℕ) (m : YtdMap)
    → get_ytd k (set_ytd j v m) ≡ (if code_eq k j then v else get_ytd k m)
unfolding get_ytd set_ytd
get-set_ytd k j v [] = refl
get-set_ytd k j v ((i, w) ∷ m) = elim (Bool-cases (code_eq j i)) [
  | inl same ↦ rw (same, code_eq_at k i j same) (ground arith)
  | inr other ↦ rw other (ground (arith, get-set_ytd k j v m, code_eq_join k i j))
]

abbrev Tracks : YtdMap → List TdsRow → Type 0
Tracks m earlier = (k : Code) → get_ytd k m ≡ paid_before k earlier

Tracks-step :
    (m : YtdMap) (earlier : List TdsRow) (l : TdsRow)
    → Tracks m earlier
    → Tracks
        (set_ytd (deductee_key l) (get_ytd (deductee_key l) m + l.amount_paise) m)
        (earlier ++ l ∷ [])
Tracks-step m earlier l h k =
    rw (get-set_ytd k (deductee_key l) (get_ytd (deductee_key l) m + l.amount_paise) m)
      (rw (sum_by-append (paid_to k) earlier (l ∷ [])) (last k (h k) (h (deductee_key l))))
  where
    last :
        (j : Code)
        → get_ytd j m ≡ paid_before j earlier
        → get_ytd (deductee_key l) m ≡ paid_before (deductee_key l) earlier
        → (if code_eq j (deductee_key l)
            then get_ytd (deductee_key l) m + l.amount_paise
            else get_ytd j m)
          ≡ paid_before j earlier + ((if code_eq j (deductee_key l) then l.amount_paise else 0) + 0)
    last j p q = elim (Bool-cases (code_eq j (deductee_key l))) [
      | inl same ↦ rw (same, code_eq_sound j (deductee_key l) same) (omega arith)
      | inr other ↦ rw other (omega arith)
    ]

tds_loop-eq :
    (rule_for : TdsRow → Option TaxRule) (m : YtdMap) (earlier ls : List TdsRow)
    → Tracks m earlier
    → tds_loop rule_for m ls ≡ recompute_all rule_for earlier ls
unfolding tds_loop
tds_loop-eq rule_for m earlier [] h = refl
tds_loop-eq rule_for m earlier (l ∷ ls) h =
    ap₂ (λ p rest. recompute_tds rule_for p l ∷ rest) (h (deductee_key l))
      (tds_loop-eq rule_for
        (set_ytd (deductee_key l) (get_ytd (deductee_key l) m + l.amount_paise) m)
        (earlier ++ l ∷ []) ls (Tracks-step m earlier l h))

-- The payment loop computes each line against the sum of the same deductee's payments on the lines
-- before it, for any assignment of rules to lines.
pub tds_loop_lem :
    (rule_for : TdsRow → Option TaxRule) (lines : List TdsRow)
    → tds_loop rule_for [] lines ≡ recompute_all rule_for [] lines
unfolding get_ytd
tds_loop_lem rule_for lines = tds_loop-eq rule_for [] [] lines (λ k. refl)
