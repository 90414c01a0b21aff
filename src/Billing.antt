-- ===== src/Billing.antt =====
-- Invoices and payments (src/modules/billing.js and the payment webhook of src/modules/webhooks.js).
-- Rows have the columns that these routes read or write; amounts are paise, ids, users, references
-- and instants are numbers.
use meet_millions_finance.Prelude.{
  ltb, leb, ◌==◌, if◌then◌else◌, ltb→lt, leb→le, ==_iff, ==_refl, Bool-cases, Option-cases, or_else,
  is_some, Eq, nat_eq, beq_of, beq_of_iff, length, filter, any, All, length-append, length-filter,
  contains, contains-append, contains-filter, filter-contains, sum_by, sum_by-append, All-imp,
  All-and, All-append, ℕ, zero, suc, ◌+◌, ◌-◌, ◌*◌, ◌/◌, ◌%◌, ◌^◌, ◌≤◌, ◌<◌, max, min, String, ◌≡◌,
  refl, sym, ap, ap₂, ◌∙◌, ◌≢◌, ◌↔◌, ◌⊎◌, inl, inr, Bool, true, false, not, ◌&&◌, ◌||◌, Option,
  none, some, List, [], ◌∷◌, ◌++◌, map, foldl, arith,
}
use meet_millions_finance.Prelude.Int.{ℤ, pos, sub_ℕ}
use meet_millions_finance.Store.{Row}
use meet_millions_finance.Workflow.Periods.{Period}
pub mod Invoices
pub mod Settle
pub mod Routes
pub mod Ledger
pub mod Subscriptions

pub data InvoiceStatus : Type 0 where
  draft issued sent partially_paid paid overdue void refunded : InvoiceStatus

pub InvoiceStatus-discrete : Discrete InvoiceStatus
InvoiceStatus-discrete = hlevel

pub data PaymentStatus : Type 0 where
  created pending authorized success failed cancelled refunded partially_refunded disputed :
      PaymentStatus

pub PaymentStatus-discrete : Discrete PaymentStatus
PaymentStatus-discrete = hlevel

pub data Gateway : Type 0 where
  razorpay stripe cashfree phonepe manual offline : Gateway

pub Gateway-discrete : Discrete Gateway
Gateway-discrete = hlevel

pub record Invoice : Type 0 where
  pub id : ℕ
  pub filing_period_id : Option ℕ
  pub status : InvoiceStatus
  pub total_paise : ℕ
  pub amount_paid_paise : ℕ
  -- A refund writes the plain difference of total and paid, which may be negative.
  pub amount_due_paise : ℤ
  pub paid_at : Option ℕ

-- A receipt number is a year and a running number.
pub record Payment : Type 0 where
  pub id : ℕ
  pub invoice_id : Option ℕ
  pub client_id : Option ℕ
  pub gateway : Gateway
  pub status : PaymentStatus
  pub method : Option ℕ
  pub amount_paise : ℕ
  pub refunded_paise : ℕ
  pub gateway_payment_id : Option ℕ
  pub receipt_no : Option (ℕ × ℕ)
  pub retry_count : ℕ
  pub paid_at : Option ℕ

instance abbrev pub invoice_row : Row Invoice
invoice_row = record { row_id = λ i. i.id }

instance abbrev pub payment_row : Row Payment
payment_row = record { row_id = λ p. p.id }

instance abbrev pub period_row : Row Period
period_row = record { row_id = λ p. p.id }

pub data TransactionKind : Type 0 where
  verify_failed verify_ok capture refund : TransactionKind

-- A row of `payment_transactions`.
pub record Transaction : Type 0 where
  pub payment_id : ℕ
  pub kind : TransactionKind
  pub amount_paise : ℕ

-- What the routes append to the audit log, the activities and the outgoing notifications.
pub data Event : Type 0 where
  payment_succeeded payment_failed client_paid notify_paid : ℕ → Event
  payment_refunded : ℕ → ℕ → Event
  invoice_voided : ℕ → Event

pub record Books : Type 0 where
  pub invoices : List Invoice
  pub payments : List Payment
  pub periods : List Period
  pub transactions : List Transaction
  pub events : List Event
