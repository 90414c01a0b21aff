-- ===== src/Billing/Routes/Office.antt =====
-- The routes of the office (src/modules/billing.js: record, refund and void). Validated bodies come as
-- arguments; what a gateway answers is an argument too.
use meet_millions_finance.Prelude.{
  ltb, leb, ◌==◌, if◌then◌else◌, or_else, nat_eq, beq_of, ℕ, ◌+◌, ◌-◌, Bool, not, ◌&&◌, Option,
  none, some, List, [], ◌∷◌, ◌++◌,
}
use meet_millions_finance.Prelude.Int.{sub_ℕ, exceeds}
use meet_millions_finance.Store.{find, update}
use meet_millions_finance.Billing.{
  InvoiceStatus, InvoiceStatus-discrete, PaymentStatus, Gateway, Invoice, Payment, TransactionKind,
  Event, Books, invoice_row, payment_row,
}
use meet_millions_finance.Billing.Settle.{Settlement, settle_payment}
use meet_millions_finance.Billing.Routes.{
  Outcome, is_success, has_provider, add_event, ok, err, not_found, invoice_void, too_much,
  not_refundable, refund_declined, has_payments,
}

-- The body of `POST /payments/record`.
pub record OfflinePayment : Type 0 where
  pub invoice_id : ℕ
  pub amount_paise : ℕ
  pub method : ℕ
  pub reference : Option ℕ
  pub paid_at : Option ℕ

-- The row inserted for an offline payment; `new_id` is a fresh id.
abbrev pub offline_payment : ℕ → Option ℕ → OfflinePayment → Payment
offline_payment new_id client o = record {
  id = new_id;
  invoice_id = some o.invoice_id;
  client_id = client;
  gateway = Gateway.offline;
  status = PaymentStatus.created;
  method = some o.method;
  amount_paise = o.amount_paise;
  refunded_paise = 0;
  gateway_payment_id = o.reference;
  receipt_no = none;
  retry_count = 0;
  paid_at = none;
}

abbrev pub offline_settlement : ℕ → ℕ → ℕ → OfflinePayment → Settlement
offline_settlement now year reference_no o = record {
  gateway_payment_id = some (or_else o.reference reference_no);
  method = some o.method;
  paid_at = o.paid_at;
  now = now;
  year = year;
}

-- The route once its invoice is looked up; `client` is the invoice's client.
abbrev pub record_at : ℕ → ℕ → ℕ → ℕ → Option ℕ → OfflinePayment → Option Invoice → Books → Outcome
record_at now year new_id reference_no client o none b = err not_found
record_at now year new_id reference_no client o (some i) b =
    if beq_of InvoiceStatus-discrete i.status InvoiceStatus.void
    then err invoice_void
    else if exceeds o.amount_paise i.amount_due_paise
    then err too_much
    else ok (
        settle_payment (offline_settlement now year reference_no o)
          (offline_payment new_id client o)
          (record b { payments = b.payments ++ offline_payment new_id client o ∷ [] }))

unfoldable pub record_payment : ℕ → ℕ → ℕ → ℕ → Option ℕ → OfflinePayment → Books → Outcome
record_payment now year new_id reference_no client o b =
    record_at now year new_id reference_no client o (find o.invoice_id b.invoices) b

-- The gateways that are asked for the money back.
abbrev pub asks_gateway : Gateway → Bool
asks_gateway g = has_provider g

abbrev pub refund_row : Payment → ℕ → Payment → Payment
refund_row p amount row =
    let total = p.refunded_paise + amount in
    record row {
      refunded_paise = total;
      status =
          if leb p.amount_paise total
          then PaymentStatus.refunded
          else PaymentStatus.partially_refunded;
    }

-- The amount put back on the invoice; `paid` is `Math.max(0, paid - amount)`.
abbrev pub take_back : ℕ → Invoice → Invoice → Invoice
take_back amount i row =
    let paid = i.amount_paid_paise - amount in
    record row {
      amount_paid_paise = paid;
      amount_due_paise = sub_ℕ i.total_paise paid;
      status = if paid == 0 then InvoiceStatus.issued else InvoiceStatus.partially_paid;
      paid_at = none;
    }

abbrev pub take_back_at : ℕ → Option Invoice → List Invoice → List Invoice
take_back_at amount none invoices = invoices
take_back_at amount (some i) invoices = update i.id (take_back amount i) invoices

abbrev pub take_back_from : ℕ → Option ℕ → List Invoice → List Invoice
take_back_from amount none invoices = invoices
take_back_from amount (some k) invoices = take_back_at amount (find k invoices) invoices

-- The refund of a found payment. The source's difference `amount - refunded` is never negative here,
-- since a successful payment has not been refunded more than its amount.
abbrev pub refund_found : Bool → Option ℕ → Payment → Books → Outcome
refund_found accepted asked p b =
    let refundable = p.amount_paise - p.refunded_paise in
    let amount = or_else asked refundable in
    if not (is_success p.status)
    then err not_refundable
    else if ltb refundable amount
    then err too_much
    else if asks_gateway p.gateway && not accepted
    then err refund_declined
    else ok (record b {
      payments = update p.id (refund_row p amount) b.payments;
      invoices = take_back_from amount p.invoice_id b.invoices;
      transactions =
          (record { payment_id = p.id; kind = TransactionKind.refund; amount_paise = amount })
          ∷ b.transactions;
      events = Event.payment_refunded p.id amount ∷ b.events;
    })

abbrev pub refund_at : Bool → Option ℕ → Option Payment → Books → Outcome
refund_at accepted asked none b = err not_found
refund_at accepted asked (some p) b = refund_found accepted asked p b

-- The route `POST /payments/:id/refund`; `accepted` is the gateway's answer.
unfoldable pub refund_payment : Bool → Option ℕ → ℕ → Books → Outcome
refund_payment accepted asked payment_id b = refund_at accepted asked (find payment_id b.payments) b

abbrev pub void_row : Invoice → Invoice
void_row i = record i { status = InvoiceStatus.void }

abbrev pub void_at : Option Invoice → Books → Outcome
void_at none b = err not_found
void_at (some i) b =
    if ltb 0 i.amount_paid_paise
    then err has_payments
    else ok (
        add_event (Event.invoice_voided i.id)
          (record b { invoices = update i.id void_row b.invoices }))

-- The route `POST /invoices/:id/void`.
unfoldable pub void_invoice : ℕ → Books → Outcome
void_invoice invoice_id b = void_at (find invoice_id b.invoices) b
