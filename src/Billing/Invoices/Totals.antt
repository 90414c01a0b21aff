-- ===== src/Billing/Invoices/Totals.antt =====
-- The heads and the items of a new invoice add up to its total.
use meet_millions_finance.Prelude.{
  nat_eq, sum_by, ℕ, suc, ◌+◌, ◌≤◌, ◌≡◌, refl, Bool, true, false, Option, List, [], ◌∷◌, foldl,
  arith,
}
use meet_millions_finance.Tax.Gst.{Code}
use meet_millions_finance.Tax.Gst.Line.{half-le}
use meet_millions_finance.Billing.Invoices.{
  ItemInput, InvoiceItem, Sums, item_net, item_tax, item_half, add_item, no_sums, prepare,
  is_other_state, create_invoice,
}

half_fits : (i : ItemInput) → item_half i ≤ item_tax i
unfolding item_tax
half_fits i = half-le (item_net i) i.tax_rate_pct

abbrev gst_of : Sums → ℕ
gst_of s = s.cgst + s.sgst + s.igst

sums_gst :
    (away : Bool) (s : Sums) (is : List ItemInput)
    → gst_of (foldl (add_item away) s is) ≡ gst_of s + sum_by item_tax is
sums_gst away s [] = omega arith
sums_gst away s (i ∷ is) = ground (arith, sums_gst away (add_item away s i) is, half_fits i)

sums_subtotal :
    (away : Bool) (s : Sums) (is : List ItemInput)
    → (foldl (add_item away) s is).subtotal ≡ s.subtotal + sum_by item_net is
sums_subtotal away s [] = omega arith
sums_subtotal away s (i ∷ is) = omega (arith, sums_subtotal away (add_item away s i) is)

sums_heads :
    (away : Bool) (s : Sums) (is : List ItemInput)
    → let r = foldl (add_item away) s is in
      (away ≡ true → (r.cgst ≡ s.cgst) × (r.sgst ≡ s.sgst)) × (away ≡ false → r.igst ≡ s.igst)
sums_heads away s [] = ((λ _. (refl, refl)), λ _. refl)
sums_heads away s (i ∷ is) = ground (arith, sums_heads away (add_item away s i) is)

items_amount :
    (n : ℕ) (is : List ItemInput)
    → sum_by (λ (r : InvoiceItem). r.amount_paise) (prepare n is)
      ≡ sum_by item_net is + sum_by item_tax is
unfolding prepare
items_amount n [] = omega arith
items_amount n (i ∷ is) = omega (arith, items_amount (suc n) is)

items_tax :
    (n : ℕ) (is : List ItemInput)
    → sum_by (λ (r : InvoiceItem). r.tax_paise) (prepare n is) ≡ sum_by item_tax is
unfolding prepare
items_tax n [] = omega arith
items_tax n (i ∷ is) = omega (arith, items_tax (suc n) is)

-- On every new invoice the items' amounts add up to the total and their taxes to the tax; the total
-- is subtotal plus tax and all of it is due; the tax is its three heads, of which the integrated one
-- is nil within the state and the other two are nil across states.
pub create_invoice_adds_up :
    (supplier : Code) (place : Option Code) (items : List ItemInput)
    → let v = create_invoice supplier place items in
      (sum_by (λ (r : InvoiceItem). r.amount_paise) v.items ≡ v.total_paise)
      × (sum_by (λ (r : InvoiceItem). r.tax_paise) v.items ≡ v.tax_paise)
      × (v.total_paise ≡ v.subtotal_paise + v.tax_paise)
      × (v.amount_due_paise ≡ v.total_paise)
      × (v.tax_paise ≡ v.cgst_paise + v.sgst_paise + v.igst_paise)
      × (is_other_state supplier place ≡ true → (v.cgst_paise ≡ 0) × (v.sgst_paise ≡ 0))
      × (is_other_state supplier place ≡ false → v.igst_paise ≡ 0)
unfolding create_invoice
create_invoice_adds_up supplier place items =
    let away = is_other_state supplier place in
    let gst = sums_gst away no_sums items in
    let sub = sums_subtotal away no_sums items in
    let (other, home) = sums_heads away no_sums items in
    (
      omega (arith, gst, sub, items_amount 0 items),
      omega (arith, gst, items_tax 0 items),
      refl,
      refl,
      refl,
      other,
      home,
    )
