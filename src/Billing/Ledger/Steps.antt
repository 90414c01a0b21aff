-- ===== src/Billing/Ledger/Steps.antt =====
-- Every route keeps the ledger balanced, and a history of route calls does.
use meet_millions_finance.Prelude.{
  ltb, ==_refl, Bool-cases, nat_eq, beq_of, sum_by, sum_by-append, All-imp, All-append, ℕ, ◌≡◌,
  refl, ◌∙◌, inl, inr, Bool, false, Option, none, some, [], ◌∷◌, ◌++◌, arith,
}
use meet_millions_finance.Store.{find, update}
use meet_millions_finance.Store.Rows.{
  update-DistinctIds, All-update, find-append_none, append-DistinctIds,
}
use meet_millions_finance.Prelude.Int.{exceeds}
use meet_millions_finance.Billing.{
  InvoiceStatus-discrete, InvoiceStatus, Invoice, Payment, Books, invoice_row, payment_row,
}
use meet_millions_finance.Billing.Routes.{Outcome, ok, err}
use meet_millions_finance.Billing.Routes.Office.{
  OfflinePayment, offline_payment, record_payment, record_at, offline_settlement, void_at,
  refund_payment, void_row, void_invoice,
}
use meet_millions_finance.Billing.Ledger.Captures.{
  is_returned, Keeps, verify_at-Keeps, webhook_at, webhook_at-IsBalanced,
}
use meet_millions_finance.Billing.Routes.{verify_payment, Verification, Report}
use meet_millions_finance.Billing.Ledger.Returns.{refund_at-IsBalanced}
use meet_millions_finance.Billing.Ledger.{is_settled, net, IsWithin, IsBalanced, settle-IsBalanced}

net_open : (k : ℕ) (p : Payment) → is_settled p.status ≡ false → net k p ≡ 0
net_open k p h = ground arith

insert_open :
    (b : Books) (p : Payment)
    → find p.id b.payments ≡ none
    → is_settled p.status ≡ false
    → p.refunded_paise ≡ 0
    → IsBalanced b
    → IsBalanced (record b { payments = b.payments ++ p ∷ [] })
insert_open b p fresh open_p zero_back v = record {
  invoice_ids = v.invoice_ids;
  payment_ids = append-DistinctIds b.payments p fresh v.payment_ids;
  credited =
      All-imp _ _ b.invoices
        (λ (i : Invoice) c.
          let credited : i.amount_paid_paise ≡ sum_by (net i.id) b.payments = c in
          rw (sum_by-append (net i.id) b.payments (p ∷ []))
            (ground (arith, net_open i.id p open_p)))
        v.credited;
  within = All-append IsWithin b.payments (p ∷ []) v.within (ground arith);
}

record_at-IsBalanced :
    (now year new_id ref : ℕ) (client : Option ℕ) (o : OfflinePayment) (found : Option Invoice)
    (b : Books)
    → find new_id b.payments ≡ none
    → IsBalanced b
    → Keeps (record_at now year new_id ref client o found b)
record_at-IsBalanced now year new_id ref client o none b fresh v = tt
record_at-IsBalanced now year new_id ref client o (some i) b fresh v =
    let p = offline_payment new_id client o in
    let there : find new_id (b.payments ++ p ∷ []) ≡ some p =
      find-append_none new_id b.payments p fresh ∙ (rw (==_refl new_id)) in
    let settled =
      settle-IsBalanced (offline_settlement now year ref o) p
        (record b { payments = b.payments ++ p ∷ [] }) (insert_open b p fresh refl refl v) there
        refl in
    elim (Bool-cases (beq_of InvoiceStatus-discrete i.status InvoiceStatus.void)) [
      | inl e ↦ rw e tt
      | inr e ↦ rw e (elim (Bool-cases (exceeds o.amount_paise i.amount_due_paise)) [
        | inl q ↦ rw q tt
        | inr q ↦ rw q settled
      ])
    ]

void_row-IsBalanced :
    (k : ℕ) (b : Books)
    → IsBalanced b
    → IsBalanced (record b { invoices = update k void_row b.invoices })
void_row-IsBalanced k b v = record {
  invoice_ids = update-DistinctIds k void_row b.invoices (λ _. refl) v.invoice_ids;
  payment_ids = v.payment_ids;
  credited = All-update _ _ k void_row b.invoices (λ x e w. w) (λ x n w. w) v.credited;
  within = v.within;
}

void_at-IsBalanced : (o : Option Invoice) (b : Books) → IsBalanced b → Keeps (void_at o b)
void_at-IsBalanced none b v = tt
void_at-IsBalanced (some i) b v = elim (Bool-cases (ltb 0 i.amount_paid_paise)) [
  | inl e ↦ rw e tt
  | inr e ↦ rw e (void_row-IsBalanced i.id b v)
]

-- The routes that change payments and invoices: recording an offline payment, giving a refund, voiding
-- an invoice, verifying a payment, and the gateway's webhook. The clock's readings, fresh ids and the
-- gateway's answers are given.
pub data Request : Type 0 where
  record_offline : ℕ → ℕ → ℕ → ℕ → Option ℕ → OfflinePayment → Request
  give_refund : Bool → Option ℕ → ℕ → Request
  void_one : ℕ → Request
  verify_one : ℕ → ℕ → Verification → ℕ → Request
  webhook : ℕ → ℕ → Report → Option ℕ → Option ℕ → ℕ → Request

abbrev pub serve : Request → Books → Outcome
serve (record_offline now year new_id ref client o) b =
    record_payment now year new_id ref client o b
serve (give_refund accepted asked k) b = refund_payment accepted asked k b
serve (void_one k) b = void_invoice k b
serve (verify_one now year answer k) b = verify_payment now year answer k b
serve (webhook now year report gateway_id method k) b =
    ok (webhook_at now year report gateway_id method (find k b.payments) b)

-- The payment found at `k`, if any, has not been given back.
abbrev pub IsKept : ℕ → Books → Type 0
IsKept k b = (p : Payment) → find k b.payments ≡ some p → is_returned p.status ≡ false

-- The id of a payment that a request inserts is fresh, and a payment that is verified or reported
-- captured has not been given back.
abbrev pub IsFresh : Request → Books → Type 0
IsFresh (record_offline now year new_id ref client o) b = find new_id b.payments ≡ none
IsFresh (verify_one now year answer k) b = IsKept k b
IsFresh (webhook now year report gateway_id method k) b = IsKept k b
IsFresh _ b = Unit

serve-Keeps : (q : Request) (b : Books) → IsFresh q b → IsBalanced b → Keeps (serve q b)
unfolding record_payment refund_payment void_invoice verify_payment
serve-Keeps (record_offline now year new_id ref client o) b fresh v =
    record_at-IsBalanced now year new_id ref client o (find o.invoice_id b.invoices) b fresh v
serve-Keeps (give_refund accepted asked k) b fresh v =
    refund_at-IsBalanced accepted asked k (find k b.payments) b refl v
serve-Keeps (void_one k) b fresh v = void_at-IsBalanced (find k b.invoices) b v
serve-Keeps (verify_one now year answer k) b fresh v =
    verify_at-Keeps now year answer k (find k b.payments) b refl fresh v
serve-Keeps (webhook now year report gateway_id method k) b fresh v =
    webhook_at-IsBalanced now year report gateway_id method k (find k b.payments) b refl fresh v

-- The books after a request: an error leaves them as they were.
abbrev pub books_after : Outcome → Books → Books
books_after (ok b') b = b'
books_after (err e) b = b

-- A history of requests served one after the other.
pub data History (b : Books) : Books → Type 0 where
  start : History b b
  served :
      {c : Books}
      → History b c
      → (q : Request) → IsFresh q c
      → History b (books_after (serve q c) c)

kept : (o : Outcome) (b : Books) → Keeps o → IsBalanced b → IsBalanced (books_after o b)
kept (ok b') b k v = k
kept (err e) b k v = v

-- Whatever offline payments, refunds, voidings, verifications and webhook reports are served, in any
-- order, each inserted payment with a fresh id and no verification or report for a payment that has
-- been given back: every invoice of books that were balanced before stays paid exactly what its
-- payments brought in less what was refunded, and no payment is refunded more than its amount.
pub history-IsBalanced : {b c : Books} → IsBalanced b → History b c → IsBalanced c
history-IsBalanced v start = v
history-IsBalanced v (served {c = c} h q fresh) =
    let before = history-IsBalanced v h in kept (serve q c) c (serve-Keeps q c fresh before) before
