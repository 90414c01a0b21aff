-- ===== src/Billing/Routes/Refunds.antt =====
-- What a refund undoes, and when one is refused.
use meet_millions_finance.Prelude.{
  or_else, nat_eq, ℕ, ◌-◌, ◌≤◌, ◌≡◌, refl, sym, Bool, Option, none, some, arith,
}
use mathlib.Core.Path.{subst}
use meet_millions_finance.Store.{find, update}
use meet_millions_finance.Store.Rows.{find-update_self, find_id}
use meet_millions_finance.Billing.{Payment, Books, invoice_row, payment_row}
use meet_millions_finance.Billing.Routes.{not_refundable, ok, err}
use meet_millions_finance.Billing.Routes.Office.{
  refund_row, take_back_from, refund_found, refund_at, refund_payment,
}

-- An accepted refund changes the payment's row as `refund_row` says, for an amount that fits.
refund_found_row :
    (accepted : Bool) (asked : Option ℕ) (p : Payment) (b : Books) {b' : Books}
    → refund_found accepted asked p b ≡ ok b'
    → (amount : ℕ) × (amount ≤ p.amount_paise - p.refunded_paise)
      × (b'.payments ≡ update p.id (refund_row p amount) b.payments)
      × (b'.invoices ≡ take_back_from amount p.invoice_id b.invoices)
refund_found_row accepted asked p b {b'} h =
    (or_else asked (p.amount_paise - p.refunded_paise), ground arith, ground arith, ground arith)

-- The row that a refund leaves is not one that a refund accepts.
refund_row_refused :
    (accepted : Bool) (asked : Option ℕ) (p : Payment) (amount : ℕ) (b : Books)
    → refund_found accepted asked (refund_row p amount p) b ≡ err not_refundable
refund_row_refused accepted asked p amount b = ground arith

refund_at_once :
    (accepted accepted' : Bool) (asked asked' : Option ℕ) (k : ℕ) (o : Option Payment) (b : Books)
    {b' : Books}
    → find k b.payments ≡ o
    → refund_at accepted asked o b ≡ ok b'
    → refund_at accepted' asked' (find k b'.payments) b' ≡ err not_refundable
refund_at_once accepted accepted' asked asked' k none b e h = cc
refund_at_once accepted accepted' asked asked' k (some p) b {b'} e h =
    let (amount, room, rows, invoices) = refund_found_row accepted asked p b h in
    let same : p.id ≡ k = find_id k b.payments e in
    let there : find p.id b.payments ≡ some p =
      subst (λ j. find j b.payments ≡ some p) (sym same) e in
    let kept : find k b'.payments ≡ some (refund_row p amount p) =
      subst (λ j. find j b'.payments ≡ some (refund_row p amount p)) same
        (subst (λ ps. find p.id ps ≡ some (refund_row p amount p)) (sym rows)
          (find-update_self p.id (refund_row p amount) b.payments (λ _. refl) there)) in
    rw kept (refund_row_refused accepted' asked' p amount b')

-- After any refund of a payment, in full or in part, every further refund of it is refused, whatever
-- is left of its amount.
pub refund_only_once :
    (accepted accepted' : Bool) (asked asked' : Option ℕ) (k : ℕ) (b : Books) {b' : Books}
    → refund_payment accepted asked k b ≡ ok b'
    → refund_payment accepted' asked' k b' ≡ err not_refundable
unfolding refund_payment
refund_only_once accepted accepted' asked asked' k b h =
    refund_at_once accepted accepted' asked asked' k (find k b.payments) b refl h
