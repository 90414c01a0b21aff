-- ===== src/Billing/Routes/Replays.antt =====
-- A capture that arrives again after its payment was refunded.
use meet_millions_finance.Prelude.{
  ==_refl, or_else, nat_eq, beq_of_iff, sum_by, ℕ, ◌+◌, ◌<◌, ◌≡◌, refl, true, false, Option, some,
  List, [], ◌∷◌, ◌++◌, arith,
}
use meet_millions_finance.Store.{find, update}
use meet_millions_finance.Store.Rows.{find-update_self, sum_by-update, All-find}
use meet_millions_finance.Billing.{
  Gateway, Gateway-discrete, PaymentStatus, Invoice, Payment, Books, invoice_row, payment_row,
}
use meet_millions_finance.Billing.Settle.{
  Settlement, settle_payment, invoice_of, mark_success, next_receipt_number, apply_payment,
}
use meet_millions_finance.Billing.Settle.Effect.{settle-payments, settle-invoices, invoice_of_lem}
use meet_millions_finance.Billing.Routes.Inbox.{Delivery, Inbox, is_seen, deliver}
use meet_millions_finance.Billing.Routes.{
  has_provider, amount_disagrees, captured, receive_webhook, is_success,
}
use meet_millions_finance.Billing.Ledger.{net, IsCredited, IsBalanced}

-- What was paid of an invoice that is credited once more.
recredited :
    (s : Settlement) (b : Books) (p : Payment) {i : Invoice}
    → invoice_of p b ≡ some i
    → (i' : Invoice) × (find i.id (settle_payment s p b).invoices ≡ some i')
      × (i'.amount_paid_paise ≡ i.amount_paid_paise + p.amount_paise)
recredited s b p {i} hi =
    let found = (invoice_of_lem p b hi).0 in
    (
      apply_payment (or_else s.paid_at s.now) p.amount_paise i i,
      rw (settle-invoices s p b hi) (find-update_self i.id _ b.invoices (λ _. refl) found),
      refl,
    )

resettle_credits :
    (s : Settlement) (b : Books) {p : Payment} {i : Invoice}
    → IsBalanced b
    → find p.id b.payments ≡ some p
    → invoice_of p b ≡ some i
    → p.status ≡ PaymentStatus.refunded
    → p.refunded_paise ≡ p.amount_paise
    → 0 < p.amount_paise
    → ¬ IsBalanced (settle_payment s p b)
resettle_credits s b {p} {i} v hp hi refunded whole paid after =
    let marked = mark_success s (next_receipt_number s.year b) p in
    let found = (invoice_of_lem p b hi).0 in
    let named = (invoice_of_lem p b hi).1 in
    let old = All-find (IsCredited b.payments) i.id b.invoices v.credited found in
    let credited = apply_payment (or_else s.paid_at s.now) p.amount_paise i i in
    let there : find i.id (settle_payment s p b).invoices ≡ some credited =
      rw (settle-invoices s p b hi) (find-update_self i.id _ b.invoices (λ _. refl) found) in
    let new = All-find (IsCredited (settle_payment s p b).payments) i.id _ after.credited there in
    let new' : i.amount_paid_paise + p.amount_paise
        ≡ sum_by (net i.id) (update p.id marked b.payments) =
      rw (settle-payments s p b) at new in
    let moved = sum_by-update (net i.id) p.id marked b.payments v.payment_ids hp in ground arith

seen_after :
    (g : Gateway) (e : ℕ) (events : List (Gateway × Option ℕ))
    → is_seen g (some e) (events ++ (g, some e) ∷ []) ≡ true
seen_after g e [] = rw (==_refl e, (beq_of_iff Gateway-discrete g g).1 refl) refl
seen_after g e (x ∷ events) = rw (seen_after g e events) (ground arith)

-- A payment of a positive amount that was refunded in full, stored with its invoice in balanced books,
-- is reported as captured by a valid event that the inbox has not seen, with no amount or its own. Then
-- its invoice is credited with the amount once more and the books are balanced no longer; a second
-- delivery of that same event changes nothing.
pub replayed_capture_unbalances :
    (now year later year' event : ℕ) (gateway : Gateway) (reported gateway_id method : Option ℕ)
    (q : Inbox) {p : Payment} {i : Invoice}
    → has_provider gateway ≡ true
    → is_seen gateway (some event) q.events ≡ false
    → amount_disagrees reported p.amount_paise ≡ false
    → IsBalanced q.books
    → find p.id q.books.payments ≡ some p
    → invoice_of p q.books ≡ some i
    → p.status ≡ PaymentStatus.refunded
    → p.refunded_paise ≡ p.amount_paise
    → 0 < p.amount_paise
    → let d : Delivery = record {
      gateway = gateway;
      event_id = some event;
      is_valid = true;
      report = captured reported;
      gateway_payment_id = gateway_id;
      method = method;
      payment_id = some p.id;
    } in
      let after = deliver now year d q in
      ((i' : Invoice) × (find i.id after.books.invoices ≡ some i')
        × (i'.amount_paid_paise ≡ i.amount_paid_paise + p.amount_paise))
      × (¬ IsBalanced after.books)
      × (deliver later year' d after ≡ after)
unfolding deliver receive_webhook
replayed_capture_unbalances now year later year' event gateway reported gateway_id method q {p} {i}
      known new agrees v hp hi refunded whole paid =
    let e : is_success p.status ≡ false = ground arith in
    rw (known, new, hp, e, agrees)
      (
        recredited _ q.books p hi,
        resettle_credits _ q.books v hp hi refunded whole paid,
        rw (seen_after gateway event q.events) refl,
      )
