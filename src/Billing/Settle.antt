-- ===== src/Billing/Settle.antt =====
-- Applying a successful payment to its invoice (`settlePayment` of src/modules/billing.js).
use meet_millions_finance.Prelude.{
  ltb, leb, ◌==◌, if◌then◌else◌, ltb→lt, leb→le, ==_iff, ==_refl, Bool-cases, Option-cases, or_else,
  is_some, Eq, nat_eq, beq_of, beq_of_iff, length, filter, any, All, length-append, length-filter,
  contains, sum_by, sum_by-append, ℕ, zero, suc, ◌+◌, ◌-◌, ◌*◌, ◌/◌, ◌%◌, ◌^◌, ◌≤◌, ◌<◌, max, min,
  String, ◌≡◌, refl, sym, ap, ap₂, ◌∙◌, ◌≢◌, ◌↔◌, ◌⊎◌, inl, inr, Bool, true, false, not, ◌&&◌, ◌||◌,
  Option, none, some, List, [], ◌∷◌, ◌++◌, map, foldl, arith,
}
use meet_millions_finance.Prelude.Int.{ℤ, pos}
use meet_millions_finance.Store.{find, update}
use meet_millions_finance.Workflow.Periods.{PeriodStatus, Period}
use meet_millions_finance.Billing.{
  InvoiceStatus, PaymentStatus, Invoice, Payment, TransactionKind, Transaction, Event, Books,
  invoice_row, payment_row, period_row,
}
pub mod Effect

-- The options of the call; the year and the instant come from the clock.
pub record Settlement : Type 0 where
  pub gateway_payment_id : Option ℕ
  pub method : Option ℕ
  pub paid_at : Option ℕ
  pub now : ℕ
  pub year : ℕ

-- `a ?? b` on two values that may be null.
abbrev pub or_null {ℓ} : {A : Type ℓ} → Option A → Option A → Option A
or_null none b = b
or_null (some a) b = some a

abbrev pub has_receipt_of : ℕ → Payment → Bool
has_receipt_of year p = elim p.receipt_no [ none ↦ false | some (y, n) ↦ y == year ]

-- `nextReceiptNumber`: one more than the number of the year's receipts.
abbrev pub next_receipt_number : ℕ → Books → ℕ × ℕ
next_receipt_number year b =
    (year, sum_by (λ (p : Payment). if has_receipt_of year p then 1 else 0) b.payments + 1)

-- The update of the payment's row.
abbrev pub mark_success : Settlement → ℕ × ℕ → Payment → Payment → Payment
mark_success s receipt p row = record row {
  status = PaymentStatus.success;
  gateway_payment_id = or_null s.gateway_payment_id p.gateway_payment_id;
  method = or_null s.method p.method;
  receipt_no = some receipt;
  paid_at = some (or_else s.paid_at s.now);
}

-- The update of the invoice's row: `due` is `Math.max(0, total - paid)`.
abbrev pub apply_payment : ℕ → ℕ → Invoice → Invoice → Invoice
apply_payment settled_at amount i row =
    let paid = i.amount_paid_paise + amount in
    let due = i.total_paise - paid in
    record row {
      amount_paid_paise = paid;
      amount_due_paise = pos due;
      status = if due == 0 then InvoiceStatus.paid else InvoiceStatus.partially_paid;
      paid_at = if due == 0 then some settled_at else none;
    }

-- The statuses from which a paid invoice advances its period.
abbrev pub awaits_payment : PeriodStatus → Bool
awaits_payment PeriodStatus.signed_off = true
awaits_payment PeriodStatus.approved = true
awaits_payment PeriodStatus.client_review = true
awaits_payment _ = false

abbrev pub mark_paid : Period → Period
mark_paid p = record p { status = PeriodStatus.paid }

-- `if (due === 0 && invoice.filing_period_id) { … }`, on the periods.
unfoldable pub advance_period : ℕ → Option ℕ → List Period → List Period
advance_period due none periods = periods
advance_period due (some k) periods = elim (find k periods) [
  | none ↦ periods
  | some p ↦ if due == 0 && awaits_payment p.status then update k mark_paid periods else periods
]

-- `if (payment.client_id) { … }`: the activity and the notification.
abbrev pub client_events : Payment → List Event
client_events p = elim p.client_id [
  | none ↦ []
  | some c ↦ Event.client_paid p.id ∷ Event.notify_paid p.id ∷ []
]

-- The payment's row and the transaction, before the invoice is looked at.
abbrev pub settle_row : Settlement → Payment → Books → Books
settle_row s p b = record b {
  payments = update p.id (mark_success s (next_receipt_number s.year b) p) b.payments;
  transactions =
      (record { payment_id = p.id; kind = TransactionKind.capture; amount_paise = p.amount_paise })
      ∷ b.transactions;
}

abbrev pub settle_invoice : Settlement → Payment → Option Invoice → Books → Books
settle_invoice s p none b = b
settle_invoice s p (some i) b = record b {
  invoices = update i.id (apply_payment (or_else s.paid_at s.now) p.amount_paise i) b.invoices;
  periods =
      advance_period (i.total_paise - (i.amount_paid_paise + p.amount_paise)) i.filing_period_id
        b.periods;
}

-- The invoice that a payment names, if it is there.
unfoldable pub invoice_of : Payment → Books → Option Invoice
invoice_of p b = elim p.invoice_id [ none ↦ none | some k ↦ find k b.invoices ]

unfoldable pub settle_payment : Settlement → Payment → Books → Books
settle_payment s p b =
    let after = settle_invoice s p (invoice_of p b) (settle_row s p b) in
    record after { events = client_events p ++ Event.payment_succeeded p.id ∷ after.events }
