-- ===== src/Billing/Invoices.antt =====
-- The figures of a new invoice (`createInvoice` of src/modules/billing.js). A quantity is a number of
-- thousandths, and a rate one of thousandths of a percent.
use meet_millions_finance.Prelude.{
  ltb, leb, ◌==◌, if◌then◌else◌, ltb→lt, leb→le, ==_iff, ==_refl, Bool-cases, Option-cases, or_else,
  is_some, Eq, nat_eq, beq_of, beq_of_iff, length, filter, any, All, length-append, length-filter,
  contains, sum_by, sum_by-append, ℕ, zero, suc, ◌+◌, ◌-◌, ◌*◌, ◌/◌, ◌%◌, ◌^◌, ◌≤◌, ◌<◌, max, min,
  String, ◌≡◌, refl, sym, ap, ap₂, ◌∙◌, ◌≢◌, ◌↔◌, ◌⊎◌, inl, inr, Bool, true, false, not, ◌&&◌, ◌||◌,
  Option, none, some, List, [], ◌∷◌, ◌++◌, map, foldl, arith,
}
use meet_millions_finance.Money.{round_div, pct_of_paise}
use meet_millions_finance.Tax.Gst.{Code, code_eq, pct_of_half_rate}
pub mod Totals

pub record ItemInput : Type 0 where
  pub quantity : ℕ
  pub unit_price_paise : ℕ
  pub discount_paise : ℕ
  pub tax_rate_pct : ℕ

pub record InvoiceItem : Type 0 where
  pub tax_paise : ℕ
  pub amount_paise : ℕ
  pub sort_order : ℕ

-- The accumulators of the loop over the items.
pub record Sums : Type 0 where
  pub subtotal : ℕ
  pub discount : ℕ
  pub cgst : ℕ
  pub sgst : ℕ
  pub igst : ℕ

-- `Math.max(0, gross - itemDiscount)` with `gross` the rounded product, which is exact here; in the
-- source it is a product of doubles, which for a quantity such as 1.005 may fall just below a half.
unfoldable pub item_net : ItemInput → ℕ
unfolding round_div
item_net i = round_div (i.unit_price_paise * i.quantity) 1000 - i.discount_paise

unfoldable pub item_tax : ItemInput → ℕ
item_tax i = pct_of_paise (item_net i) i.tax_rate_pct

abbrev pub item_half : ItemInput → ℕ
item_half i = pct_of_half_rate (item_net i) i.tax_rate_pct

abbrev pub add_item : Bool → Sums → ItemInput → Sums
add_item inter_state s i = record {
  subtotal = s.subtotal + item_net i;
  discount = s.discount + i.discount_paise;
  cgst = if inter_state then s.cgst else s.cgst + item_half i;
  sgst = if inter_state then s.sgst else s.sgst + (item_tax i - item_half i);
  igst = if inter_state then s.igst + item_tax i else s.igst;
}

abbrev pub no_sums : Sums
no_sums = record { subtotal = 0; discount = 0; cgst = 0; sgst = 0; igst = 0 }

-- The prepared rows, numbered from `index` on.
unfoldable pub prepare : ℕ → List ItemInput → List InvoiceItem
prepare index [] = []
prepare index (i ∷ is) =
    (record {
      tax_paise = item_tax i;
      amount_paise = item_net i + item_tax i;
      sort_order = index * 10;
    })
    ∷ prepare (suc index) is

pub record InvoiceFigures : Type 0 where
  pub subtotal_paise : ℕ
  pub discount_paise : ℕ
  pub tax_paise : ℕ
  pub cgst_paise : ℕ
  pub sgst_paise : ℕ
  pub igst_paise : ℕ
  pub total_paise : ℕ
  pub amount_paid_paise : ℕ
  pub amount_due_paise : ℕ
  pub items : List InvoiceItem

-- `placeOfSupply ? String(placeOfSupply) !== String(supplierState) : false`.
abbrev pub is_other_state : Code → Option Code → Bool
is_other_state supplier (some (c ∷ p)) = not (code_eq (c ∷ p) supplier)
is_other_state supplier _ = false

unfoldable pub create_invoice : Code → Option Code → List ItemInput → InvoiceFigures
create_invoice supplier_state place_of_supply items =
    let s = foldl (add_item (is_other_state supplier_state place_of_supply)) no_sums items in
    let tax_total = s.cgst + s.sgst + s.igst in
    record {
      subtotal_paise = s.subtotal;
      discount_paise = s.discount;
      tax_paise = tax_total;
      cgst_paise = s.cgst;
      sgst_paise = s.sgst;
      igst_paise = s.igst;
      total_paise = s.subtotal + tax_total;
      amount_paid_paise = 0;
      amount_due_paise = s.subtotal + tax_total;
      items = prepare 0 items;
    }
