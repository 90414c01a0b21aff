-- ===== src/Billing/Routes.antt =====
-- The routes by which a gateway's payment comes in (src/modules/billing.js: verify;
-- src/modules/webhooks.js: the capture of a payment), and the results that all routes share. What a
-- gateway answers is an argument.
use meet_millions_finance.Prelude.{
  ltb, leb, ◌==◌, if◌then◌else◌, ltb→lt, leb→le, ==_iff, ==_refl, Bool-cases, Option-cases, or_else,
  is_some, Eq, nat_eq, beq_of, beq_of_iff, length, filter, any, All, length-append, length-filter,
  contains, contains-append, contains-filter, filter-contains, sum_by, sum_by-append, All-imp,
  All-and, All-append, ℕ, zero, suc, ◌+◌, ◌-◌, ◌*◌, ◌/◌, ◌%◌, ◌^◌, ◌≤◌, ◌<◌, max, min, String, ◌≡◌,
  refl, sym, ap, ap₂, ◌∙◌, ◌≢◌, ◌↔◌, ◌⊎◌, inl, inr, Bool, true, false, not, ◌&&◌, ◌||◌, Option,
  none, some, List, [], ◌∷◌, ◌++◌, map, foldl, arith,
}
use meet_millions_finance.Prelude.Int.{ℤ, pos, sub_ℕ, exceeds}
use meet_millions_finance.Store.{find, update}
use meet_millions_finance.Billing.{
  InvoiceStatus, InvoiceStatus-discrete, PaymentStatus, PaymentStatus-discrete, Gateway, Invoice,
  Payment, TransactionKind, Transaction, Event, Books, invoice_row, payment_row,
}
use meet_millions_finance.Billing.Settle.{Settlement, settle_payment, or_null}
pub mod Office
pub mod Refunds
pub mod Inbox
pub mod Replays

pub data BillingError : Type 0 where
  not_found unknown_gateway invoice_void too_much not_refundable refund_declined has_payments :
      BillingError

pub data Outcome : Type 0 where
  ok : Books → Outcome
  err : BillingError → Outcome

abbrev pub is_success : PaymentStatus → Bool
is_success s = beq_of PaymentStatus-discrete s PaymentStatus.success

abbrev pub add_transaction : ℕ → TransactionKind → ℕ → Books → Books
add_transaction p kind amount b = record b {
  transactions = (record { payment_id = p; kind = kind; amount_paise = amount }) ∷ b.transactions;
}

abbrev pub add_event : Event → Books → Books
add_event e b = record b { events = e ∷ b.events }

-- `paymentProvider(key)` knows the four gateways.
abbrev pub has_provider : Gateway → Bool
has_provider Gateway.manual = false
has_provider Gateway.offline = false
has_provider _ = true

-- What `provider.verifyPayment` answers: a failure, or the gateway's payment id and method.
pub data Verification : Type 0 where
  rejected : Verification
  confirmed : Option ℕ → Option ℕ → Verification

abbrev pub mark_failed : Payment → Payment → Payment
mark_failed p row = record row { status = PaymentStatus.failed; retry_count = p.retry_count + 1 }

-- The route `POST /payments/:id/verify`, once the payment is found.
abbrev pub verify_found : ℕ → ℕ → Verification → Payment → Books → Outcome
verify_found now year answer p b =
    if is_success p.status
    then ok b
    else if not (has_provider p.gateway)
    then err unknown_gateway
    else elim answer [
      | rejected ↦
          let noted = add_transaction p.id TransactionKind.verify_failed p.amount_paise b in
          ok (
            add_event (Event.payment_failed p.id)
              (record noted { payments = update p.id (mark_failed p) noted.payments }))
      | confirmed gateway_id method ↦ ok (
          settle_payment
            (record {
              gateway_payment_id = gateway_id;
              method = method;
              paid_at = none;
              now = now;
              year = year;
            })
            p (add_transaction p.id TransactionKind.verify_ok p.amount_paise b))
    ]

abbrev pub verify_at : ℕ → ℕ → Verification → Option Payment → Books → Outcome
verify_at now year answer none b = err not_found
verify_at now year answer (some p) b = verify_found now year answer p b

unfoldable pub verify_payment : ℕ → ℕ → Verification → ℕ → Books → Outcome
verify_payment now year answer payment_id b =
    verify_at now year answer (find payment_id b.payments) b

-- What a gateway's webhook reports of a payment, read from its event type and amount.
pub data Report : Type 0 where
  failure : Report
  captured : Option ℕ → Report
  other : Report

-- `reported && reported !== payment.amount_paise`.
abbrev pub amount_disagrees : Option ℕ → ℕ → Bool
amount_disagrees none amount = false
amount_disagrees (some r) amount = ltb 0 r && not (r == amount)

-- The webhook, once its payment is found.
unfoldable pub receive_webhook : ℕ → ℕ → Report → Option ℕ → Option ℕ → Payment → Books → Books
receive_webhook now year report gateway_id method p b =
    if is_success p.status then b else elim report [
      | failure ↦ add_event (Event.payment_failed p.id) (record b {
        payments =
            update p.id (λ (q : Payment). record q { status = PaymentStatus.failed }) b.payments;
      })
      | other ↦ b
      | captured reported ↦
          if amount_disagrees reported p.amount_paise
          then add_event (Event.payment_failed p.id) (record b {
            payments =
                update p.id (λ (q : Payment). record q { status = PaymentStatus.disputed })
                  b.payments;
          })
          else add_event (Event.payment_succeeded p.id) (
              settle_payment
                (record {
                  gateway_payment_id = or_null gateway_id p.gateway_payment_id;
                  method = method;
                  paid_at = none;
                  now = now;
                  year = year;
                })
                p b)
    ]
