-- ===== src/Examples/Accounts.antt =====
-- Invoices, payments and the ledger at concrete inputs.
use meet_millions_finance.Prelude.{
  nat_eq, sum_by, ℕ, ◌+◌, ◌-◌, ◌≤◌, ◌≡◌, refl, ◌≢◌, ◌↔◌, true, false, none, some, List, [], ◌∷◌,
  arith,
}
use meet_millions_finance.Prelude.Int.{pos}
use meet_millions_finance.Store.{find, update}
use meet_millions_finance.Workflow.Periods.{Period, PeriodStatus}
use meet_millions_finance.Billing.{
  invoice_row, payment_row, period_row, InvoiceStatus, PaymentStatus, Gateway, Invoice, Payment,
  Books,
}
use meet_millions_finance.Billing.Invoices.{ItemInput, InvoiceItem, InvoiceFigures, create_invoice}
use meet_millions_finance.Billing.Invoices.Totals.{create_invoice_adds_up}
use meet_millions_finance.Billing.Settle.{
  Settlement, settle_payment, invoice_of, apply_payment, mark_success, next_receipt_number,
}
use meet_millions_finance.Billing.Settle.Effect.{settle_payment_credits}
use meet_millions_finance.Billing.Routes as Routes
use meet_millions_finance.Billing.Routes.Office as Office
use meet_millions_finance.Billing.Routes.Refunds.{refund_only_once}
use meet_millions_finance.Billing.Routes.Inbox.{Inbox, Delivery, deliver}
use meet_millions_finance.Billing.Routes.Replays.{replayed_capture_unbalances}
use meet_millions_finance.Billing.Ledger.{IsBalanced}
use meet_millions_finance.Billing.Ledger.Steps
use meet_millions_finance.Billing.Ledger.Steps.{Request, History, history-IsBalanced}

abbrev items : List ItemInput
items =
    (record {
      quantity = 2500;
      unit_price_paise = 99999;
      discount_paise = 100;
      tax_rate_pct = 18000;
    })
    ∷ (record { quantity = 1000; unit_price_paise = 5000; discount_paise = 0; tax_rate_pct = 5000 })
    ∷ []

abbrev new_invoice : InvoiceFigures
new_invoice = create_invoice (b'2' ∷ b'7' ∷ []) (some (b'2' ∷ b'9' ∷ [])) items

create_invoice_adds_up_example :
    (sum_by (λ (r : InvoiceItem). r.amount_paise) new_invoice.items ≡ new_invoice.total_paise)
    × (sum_by (λ (r : InvoiceItem). r.tax_paise) new_invoice.items ≡ new_invoice.tax_paise)
    × (new_invoice.total_paise ≡ new_invoice.subtotal_paise + new_invoice.tax_paise)
    × (new_invoice.amount_due_paise ≡ new_invoice.total_paise)
    × (new_invoice.tax_paise
        ≡ new_invoice.cgst_paise + new_invoice.sgst_paise + new_invoice.igst_paise)
    × (true ≡ true → (new_invoice.cgst_paise ≡ 0) × (new_invoice.sgst_paise ≡ 0))
    × (true ≡ false → new_invoice.igst_paise ≡ 0)
create_invoice_adds_up_example =
    create_invoice_adds_up (b'2' ∷ b'7' ∷ []) (some (b'2' ∷ b'9' ∷ [])) items

abbrev invoice : ℕ → Invoice
invoice paid_so_far = record {
  id = 1;
  filing_period_id = some 1;
  status = InvoiceStatus.issued;
  total_paise = 1000;
  amount_paid_paise = paid_so_far;
  amount_due_paise = pos (1000 - paid_so_far);
  paid_at = none;
}

abbrev payment : PaymentStatus → ℕ → Payment
payment status refunded_so_far = record {
  id = 2;
  invoice_id = some 1;
  client_id = some 4;
  gateway = Gateway.razorpay;
  status = status;
  method = none;
  amount_paise = 1000;
  refunded_paise = refunded_so_far;
  gateway_payment_id = none;
  receipt_no = none;
  retry_count = 0;
  paid_at = none;
}

abbrev reviewed : Period
reviewed = record {
  id = 1;
  client_id = 4;
  status = PeriodStatus.client_review;
  documents_expected = 3;
  documents_received = 3;
  documents_verified = 3;
  period_end = 1000;
}

abbrev books : ℕ → PaymentStatus → ℕ → Books
books paid_so_far status refunded_so_far = record {
  invoices = invoice paid_so_far ∷ [];
  payments = payment status refunded_so_far ∷ [];
  periods = reviewed ∷ [];
  transactions = [];
  events = [];
}

abbrev settlement : Settlement
settlement = record {
  gateway_payment_id = some 77;
  method = none;
  paid_at = none;
  now = 500;
  year = 2026;
}

abbrev open_books : Books
open_books = books 0 PaymentStatus.created 0

abbrev open_payment : Payment
open_payment = payment PaymentStatus.created 0

abbrev credited : Invoice
credited = apply_payment 500 1000 (invoice 0) (invoice 0)

settle_payment_credits_example :
    (find 2 (settle_payment settlement open_payment open_books).payments
      ≡ some
          (mark_success settlement (next_receipt_number 2026 open_books) open_payment open_payment))
    × (find 1 (settle_payment settlement open_payment open_books).invoices ≡ some credited)
    × (credited.amount_paid_paise ≡ 0 + 1000)
    × ((credited.status ≡ InvoiceStatus.paid) ↔ (1000 ≤ credited.amount_paid_paise))
    × ((k : ℕ)
        → k ≢ 2
        → find k (settle_payment settlement open_payment open_books).payments
          ≡ find k open_books.payments)
    × ((k : ℕ)
        → k ≢ 1
        → find k (settle_payment settlement open_payment open_books).invoices
          ≡ find k open_books.invoices)
unfolding find invoice_of
settle_payment_credits_example =
    settle_payment_credits settlement open_books {p = open_payment} {i = invoice 0} refl refl

abbrev paid_books : Books
paid_books = books 1000 PaymentStatus.success 0

-- The books after 300 of the payment's 1000 paise have been refunded.
abbrev after_refund : Routes.Outcome
after_refund = Office.refund_payment true (some 300) 2 paid_books

abbrev refunded_books : Books
refunded_books = elim after_refund [ Routes.ok b ↦ b | Routes.err e ↦ paid_books ]

refund_only_once_example :
    Office.refund_payment true (some 700) 2 refunded_books ≡ Routes.err Routes.not_refundable
unfolding Office.refund_payment find update
refund_only_once_example =
    refund_only_once true true (some 300) (some 700) 2 paid_books {b' = refunded_books}
      (ground arith)

abbrev repaid_books : Books
repaid_books = books 0 PaymentStatus.refunded 1000

repaid_books-IsBalanced : IsBalanced repaid_books
unfolding find
repaid_books-IsBalanced = record {
  invoice_ids = (refl, tt);
  payment_ids = (refl, tt);
  credited = (refl, tt);
  within = ((omega arith, λ e. cc), tt);
}

-- The inbox holds the event of the first capture; the gateway reports the capture by another.
abbrev inbox : Inbox
inbox = record { events = (Gateway.razorpay, some 500) ∷ []; books = repaid_books }

abbrev second_capture : Delivery
second_capture = record {
  gateway = Gateway.razorpay;
  event_id = some 501;
  is_valid = true;
  report = Routes.captured none;
  gateway_payment_id = some 77;
  method = none;
  payment_id = some 2;
}

replayed_capture_unbalances_example :
    ((i' : Invoice) × (find 1 (deliver 600 2026 second_capture inbox).books.invoices ≡ some i')
      × (i'.amount_paid_paise ≡ 1000))
    × (¬ IsBalanced (deliver 600 2026 second_capture inbox).books)
    × (deliver 700 2026 second_capture (deliver 600 2026 second_capture inbox)
        ≡ deliver 600 2026 second_capture inbox)
unfolding find invoice_of
replayed_capture_unbalances_example =
    replayed_capture_unbalances 600 2026 700 2026 501 Gateway.razorpay none (some 77) none inbox
      {p = payment PaymentStatus.refunded 1000} {i = invoice 0} refl (ground arith) refl
      repaid_books-IsBalanced refl refl refl refl (omega arith)

abbrev empty_books : Books
empty_books = record {
  invoices = invoice 0 ∷ [];
  payments = [];
  periods = reviewed ∷ [];
  transactions = [];
  events = [];
}

empty_books-IsBalanced : IsBalanced empty_books
unfolding find
empty_books-IsBalanced = record {
  invoice_ids = (refl, tt);
  payment_ids = tt;
  credited = (refl, tt);
  within = tt;
}

abbrev cash : Office.OfflinePayment
cash = record { invoice_id = 1; amount_paise = 400; method = 3; reference = none; paid_at = none }

abbrev record_cash : Request
record_cash = Request.record_offline 500 2026 9 55 (some 4) cash

abbrev after_cash : Books
after_cash = Steps.books_after (Steps.serve record_cash empty_books) empty_books

abbrev after_both : Books
after_both = Steps.books_after (Steps.serve (Request.give_refund true none 9) after_cash) after_cash

history-IsBalanced_example : IsBalanced after_both
unfolding find
history-IsBalanced_example =
    history-IsBalanced {b = empty_books} {c = after_both} empty_books-IsBalanced (
      History.served (History.served History.start record_cash refl)
        (Request.give_refund true none 9) tt)
