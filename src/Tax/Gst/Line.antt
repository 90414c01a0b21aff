-- ===== src/Tax/Gst/Line.antt =====
-- What the heads of tax on one line add up to.
use meet_millions_finance.Prelude.{
  ◌==◌, if◌then◌else◌, ==_iff, nat_eq, ℕ, ◌+◌, ◌*◌, ◌≤◌, ◌≡◌, Bool, true, false, arith,
}
use meet_millions_finance.Money.{pct_of_paise}
use meet_millions_finance.Money.Rounding.{pct_of_paise-le}
use meet_millions_finance.Tax.Gst.{
  SupplyType, is_zero_tax_supply, pct_of_half_rate, cess_on, compute_gst_line,
}

-- The figure that a line's GST heads together must come to.
abbrev pub gst_due : ℕ → ℕ → SupplyType → ℕ
gst_due taxable rate supply = if is_zero_tax_supply supply then 0 else pct_of_paise taxable rate

pub half-le : (t r : ℕ) → pct_of_half_rate t r ≤ pct_of_paise t r
unfolding pct_of_half_rate pct_of_paise
half-le t r = omega arith

half_close :
    (t r : ℕ)
    → (pct_of_paise t r ≤ 2 * pct_of_half_rate t r + 1)
      × (2 * pct_of_half_rate t r ≤ pct_of_paise t r + 1)
unfolding pct_of_half_rate pct_of_paise
half_close t r = omega arith

pct-zero : (t r : ℕ) → (r == 0) ≡ true → pct_of_paise t r ≡ 0
unfolding pct_of_paise
pct-zero t r h = let e : r ≡ 0 = (==_iff r 0).0 h in rw e (omega arith)

-- Whatever the rate, the cess, the place of supply and the kind of supply, CGST, SGST and IGST add
-- up to the rate applied once to the taxable value (nothing for an exempt, nil-rated or non-GST
-- supply), the tax is these plus the cess, and the invoice is the taxable value plus the tax.
pub gst_line_adds_up :
    (taxable rate cess : ℕ) (away : Bool) (supply : SupplyType)
    → let t = compute_gst_line taxable rate cess away supply in
      (t.cgst_paise + t.sgst_paise + t.igst_paise ≡ gst_due taxable rate supply)
      × (t.total_tax_paise ≡ gst_due taxable rate supply + t.cess_paise)
      × (t.invoice_total_paise ≡ taxable + t.total_tax_paise)
unfolding compute_gst_line
gst_line_adds_up taxable rate cess away supply =
    ground (arith, half-le taxable rate, pct-zero taxable rate)

-- Central and state tax are within one paisa of each other on every line, and a line has either
-- these two or integrated tax, as the inter-state flag says.
gst_line_heads :
    (taxable rate cess : ℕ) (away : Bool) (supply : SupplyType)
    → let t = compute_gst_line taxable rate cess away supply in
      (t.cgst_paise ≤ t.sgst_paise + 1)
      × (t.sgst_paise ≤ t.cgst_paise + 1)
      × (away ≡ false → t.igst_paise ≡ 0)
      × (away ≡ true → (t.cgst_paise ≡ 0) × (t.sgst_paise ≡ 0))
unfolding compute_gst_line
gst_line_heads taxable rate cess away supply = ground (arith, half_close taxable rate)

-- At a rate and a cess of at most 100% each, the tax on a line is at most twice its taxable value.
pub gst_line_bounded :
    (taxable rate cess : ℕ) (away : Bool) (supply : SupplyType)
    → rate ≤ 100000
    → cess ≤ 100000
    → (compute_gst_line taxable rate cess away supply).total_tax_paise ≤ 2 * taxable
unfolding compute_gst_line cess_on
gst_line_bounded taxable rate cess away supply h k =
    ground
      (arith, half-le taxable rate, pct_of_paise-le taxable rate h, pct_of_paise-le taxable cess k)
