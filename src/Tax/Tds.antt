-- ===== src/Tax/Tds.antt =====
-- Tax deducted at source (`computeTdsLine`, `summariseTds` and the payment loop of
-- `runComputation` in src/services/tax-engine.js). A text is the list of its code points.
use meet_millions_finance.Prelude.{
  ltb, leb, ◌==◌, if◌then◌else◌, ltb→lt, leb→le, ==_iff, ==_refl, Bool-cases, Option-cases, or_else,
  is_some, Eq, nat_eq, beq_of, beq_of_iff, length, filter, any, All, length-append, length-filter,
  contains, sum_by, sum_by-append, ℕ, zero, suc, ◌+◌, ◌-◌, ◌*◌, ◌/◌, ◌%◌, ◌^◌, ◌≤◌, ◌<◌, max, min,
  String, ◌≡◌, refl, sym, ap, ◌∙◌, ◌≢◌, ◌↔◌, ◌⊎◌, inl, inr, Bool, true, false, not, ◌&&◌, ◌||◌,
  Option, none, some, List, [], ◌∷◌, ◌++◌, map, foldl, arith,
}
use meet_millions_finance.Money.{pct_of_paise, sum_paise}
use meet_millions_finance.Tax.Gst.{Code, code_eq}
use meet_millions_finance.Tax.Rules.{TaxRule}
pub mod Line
pub mod Ytd

pub data TdsReason : Type 0 where
  higher_rate_no_pan below_threshold : TdsReason

pub record TdsResult : Type 0 where
  pub applicable : Bool
  pub rate_pct : ℕ
  pub tds_paise : ℕ
  pub threshold_met : Bool
  pub reason : Option TdsReason

-- The default of `higherRateNoPan`, 20%.
abbrev pub higher_rate_no_pan_pct : ℕ
higher_rate_no_pan_pct = 20000

unfoldable pub compute_tds_line : ℕ → ℕ → ℕ → ℕ → Bool → TdsResult
compute_tds_line amount rate_pct threshold prior_ytd has_pan =
    if not has_pan
    then (record {
      applicable = true;
      rate_pct = max rate_pct higher_rate_no_pan_pct;
      tds_paise = pct_of_paise amount (max rate_pct higher_rate_no_pan_pct);
      threshold_met = true;
      reason = some higher_rate_no_pan;
    })
    else if ltb 0 threshold && ltb (prior_ytd + amount) threshold
    then (record {
      applicable = false;
      rate_pct = 0;
      tds_paise = 0;
      threshold_met = false;
      reason = some below_threshold;
    })
    else (record {
      applicable = true;
      rate_pct = rate_pct;
      tds_paise = pct_of_paise amount rate_pct;
      threshold_met = true;
      reason = none;
    })

pub data PayeeType : Type 0 where
  individual huf company firm other : PayeeType

-- The columns of the table `tds_records` that the engine reads or writes.
pub record TdsRow : Type 0 where
  pub id : Code
  pub computation_id : ℕ
  pub document_id : Option ℕ
  pub section_code : Code
  pub deductee_name : Option Code
  pub deductee_pan : Option Code
  pub payee_type : PayeeType
  pub payment_date : Option ℕ
  pub amount_paise : ℕ
  pub rate_pct : ℕ
  pub tds_paise : ℕ
  pub deposited_paise : ℕ

-- `a || b` on a text that may be null: null and the empty text are passed over.
abbrev pub or_text : Option Code → Code → Code
or_text (some (c ∷ s)) d = c ∷ s
or_text _ d = d

-- `!!text`.
abbrev pub is_present : Option Code → Bool
is_present (some (c ∷ s)) = true
is_present _ = false

-- `line.deductee_pan || line.deductee_name || line.id`.
abbrev pub deductee_key : TdsRow → Code
deductee_key l = or_text l.deductee_pan (or_text l.deductee_name l.id)

-- The Map from a deductee's key to the payments so far.
abbrev pub YtdMap : Type 0
YtdMap = List (Code × ℕ)

-- `ytdByDeductee.get(key) ?? 0`.
unfoldable pub get_ytd : Code → YtdMap → ℕ
get_ytd k [] = 0
get_ytd k ((j, v) ∷ m) = if code_eq k j then v else get_ytd k m

unfoldable pub set_ytd : Code → ℕ → YtdMap → YtdMap
set_ytd k v [] = (k, v) ∷ []
set_ytd k v ((j, w) ∷ m) = if code_eq k j then (j, v) ∷ m else (j, w) ∷ set_ytd k v m

-- The rate and threshold that a line is computed by: the rule's, else the line's own rate.
abbrev pub line_rate : Option TaxRule → TdsRow → ℕ
line_rate none l = l.rate_pct
line_rate (some r) l = r.rate_pct

abbrev pub rule_threshold : Option TaxRule → ℕ
rule_threshold none = 0
rule_threshold (some r) = r.threshold_paise

-- One line, given the rule in force on its date and the deductee's payments so far.
unfoldable pub recompute_tds : (TdsRow → Option TaxRule) → ℕ → TdsRow → TdsRow
recompute_tds rule_for prior l =
    let rule = rule_for l in
    let result =
      compute_tds_line l.amount_paise (line_rate rule l) (rule_threshold rule) prior
        (is_present l.deductee_pan) in
    record l { rate_pct = result.rate_pct; tds_paise = result.tds_paise }

-- The loop over the lines in the order of their payment dates.
unfoldable pub tds_loop : (TdsRow → Option TaxRule) → YtdMap → List TdsRow → List TdsRow
tds_loop rule_for ytd [] = []
tds_loop rule_for ytd (l ∷ ls) =
    let prior = get_ytd (deductee_key l) ytd in
    recompute_tds rule_for prior l
    ∷ tds_loop rule_for (set_ytd (deductee_key l) (prior + l.amount_paise) ytd) ls

pub record TdsSummary : Type 0 where
  pub base_paise : ℕ
  pub deducted_paise : ℕ
  pub deposited_paise : ℕ
  pub outstanding_paise : ℕ
  pub line_count : ℕ

-- The totals of `summariseTds`; `Math.max(0, a - b)` is the truncated difference.
unfoldable pub tds_totals : List TdsRow → TdsSummary
tds_totals lines =
    let deducted = sum_paise (map (λ (l : TdsRow). l.tds_paise) lines) in
    let deposited = sum_paise (map (λ (l : TdsRow). l.deposited_paise) lines) in
    record {
      base_paise = sum_paise (map (λ (l : TdsRow). l.amount_paise) lines);
      deducted_paise = deducted;
      deposited_paise = deposited;
      outstanding_paise = deducted - deposited;
      line_count = length lines;
    }
