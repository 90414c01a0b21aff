-- ===== src/Tax/Tds/Line.antt =====
-- What is deducted from one payment.
use meet_millions_finance.Prelude.{nat_eq, ℕ, ◌+◌, ◌≤◌, ◌<◌, max, ◌≡◌, true, false, arith}
use meet_millions_finance.Money.{pct_of_paise}
use meet_millions_finance.Money.Rounding.{pct_of_paise_mono}
use meet_millions_finance.Tax.Tds.{higher_rate_no_pan_pct, compute_tds_line}

-- With a PAN on file, nothing is deducted while the year's payments stay below a threshold, and the
-- section rate of the whole payment from the payment that reaches it; a threshold of 0 shelters
-- nothing.
tds_threshold :
    (amount rate threshold prior : ℕ)
    → let r = compute_tds_line amount rate threshold prior true in
      (prior + amount < threshold → (r.tds_paise ≡ 0) × (r.applicable ≡ false))
      × (threshold ≤ prior + amount
          → (r.tds_paise ≡ pct_of_paise amount rate) × (r.applicable ≡ true))
unfolding compute_tds_line
tds_threshold amount rate threshold prior = ground arith

-- Without a PAN the deduction is at least 20% of the payment, at least what the section rate gives,
-- and at least what is deducted from the same payment with a PAN, whatever the threshold.
tds_no_pan :
    (amount rate threshold prior : ℕ)
    → let r = compute_tds_line amount rate threshold prior false in
      (pct_of_paise amount higher_rate_no_pan_pct ≤ r.tds_paise)
      × (pct_of_paise amount rate ≤ r.tds_paise)
      × ((compute_tds_line amount rate threshold prior true).tds_paise ≤ r.tds_paise)
unfolding compute_tds_line
tds_no_pan amount rate threshold prior =
    let high = max rate higher_rate_no_pan_pct in
    ground (
      arith,
      pct_of_paise_mono amount higher_rate_no_pan_pct high (omega arith),
      pct_of_paise_mono amount rate high (omega arith),
    )

-- Once a deductee's year has reached the threshold, every later payment is deducted too.
pub tds_stays_met :
    (amount rate threshold prior prior' : ℕ)
    → prior ≤ prior'
    → (compute_tds_line amount rate threshold prior true).threshold_met ≡ true
    → (compute_tds_line amount rate threshold prior' true).threshold_met ≡ true
unfolding compute_tds_line
tds_stays_met amount rate threshold prior prior' h k = ground arith
