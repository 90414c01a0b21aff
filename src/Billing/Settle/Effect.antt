-- ===== src/Billing/Settle/Effect.antt =====
-- What a settlement does to the payment, the invoice and the filing period.
use meet_millions_finance.Prelude.{
  Option-cases, or_else, nat_eq, ℕ, ◌+◌, ◌-◌, ◌≤◌, ◌≡◌, refl, sym, ap, ◌∙◌, ◌≢◌, ◌↔◌, ◌⊎◌, inl, inr,
  true, false, Option, none, some, List, arith,
}
use mathlib.Core.Path.{subst}
use meet_millions_finance.Store.{find, update}
use meet_millions_finance.Store.Rows.{find_id, find-update_self, find-update_ne}
use meet_millions_finance.Workflow.Periods.{PeriodStatus, Period, can_transition_period}
use meet_millions_finance.Billing.{
  InvoiceStatus, Invoice, Payment, Books, invoice_row, payment_row, period_row,
}
use meet_millions_finance.Billing.Settle.{
  Settlement, next_receipt_number, mark_success, apply_payment, awaits_payment, mark_paid,
  advance_period, settle_row, settle_invoice, invoice_of, settle_payment,
}

settle_invoice-payments :
    (s : Settlement) (p : Payment) (o : Option Invoice) (b : Books)
    → (settle_invoice s p o b).payments ≡ b.payments
settle_invoice-payments s p none b = refl
settle_invoice-payments s p (some i) b = refl

pub settle-payments :
    (s : Settlement) (p : Payment) (b : Books)
    → (settle_payment s p b).payments
      ≡ update p.id (mark_success s (next_receipt_number s.year b) p) b.payments
unfolding settle_payment
settle-payments s p b = settle_invoice-payments s p (invoice_of p b) (settle_row s p b)

pub settle-invoices :
    (s : Settlement) (p : Payment) (b : Books) {i : Invoice}
    → invoice_of p b ≡ some i
    → (settle_payment s p b).invoices
      ≡ update i.id (apply_payment (or_else s.paid_at s.now) p.amount_paise i) b.invoices
unfolding settle_payment
settle-invoices s p b h = rw h

pub settle-invoices_none :
    (s : Settlement) (p : Payment) (b : Books)
    → invoice_of p b ≡ none
    → (settle_payment s p b).invoices ≡ b.invoices
unfolding settle_payment
settle-invoices_none s p b h = rw h

pub settle-periods :
    (s : Settlement) (p : Payment) (b : Books) {i : Invoice}
    → invoice_of p b ≡ some i
    → (settle_payment s p b).periods
      ≡ advance_period
          (i.total_paise - (i.amount_paid_paise + p.amount_paise))
          i.filing_period_id
          b.periods
unfolding settle_payment
settle-periods s p b h = rw h

pub invoice_of_lem :
    (p : Payment) (b : Books) {i : Invoice}
    → invoice_of p b ≡ some i
    → (find i.id b.invoices ≡ some i) × (p.invoice_id ≡ some i.id)
unfolding invoice_of
invoice_of_lem p b {i} h = elim (Option-cases p.invoice_id) [
  | inl e ↦ let bad : none ≡ some i = rw e at h in cc
  | inr (k, e) ↦
      let found : find k b.invoices ≡ some i = rw e at h in
      let same : i.id ≡ k = find_id k b.invoices found in
      (subst (λ j. find j b.invoices ≡ some i) (sym same) found, e ∙ ap some (sym same))
]

-- Settling a payment that is stored and whose invoice is there marks it successful and adds its
-- amount to what the invoice has been paid; the invoice is paid exactly if its total is reached.
-- Every other payment and every other invoice is left as it was.
pub settle_payment_credits :
    (s : Settlement) (b : Books) {p : Payment} {i : Invoice}
    → find p.id b.payments ≡ some p
    → invoice_of p b ≡ some i
    → let after = settle_payment s p b in
      let credited = apply_payment (or_else s.paid_at s.now) p.amount_paise i i in
      (find p.id after.payments ≡ some (mark_success s (next_receipt_number s.year b) p p))
      × (find i.id after.invoices ≡ some credited)
      × (credited.amount_paid_paise ≡ i.amount_paid_paise + p.amount_paise)
      × ((credited.status ≡ InvoiceStatus.paid) ↔ (i.total_paise ≤ credited.amount_paid_paise))
      × ((k : ℕ) → k ≢ p.id → find k after.payments ≡ find k b.payments)
      × ((k : ℕ) → k ≢ i.id → find k after.invoices ≡ find k b.invoices)
settle_payment_credits s b {p} {i} hp hi =
    let found = (invoice_of_lem p b hi).0 in
    (
      rw (settle-payments s p b) (find-update_self p.id _ b.payments (λ _. refl) hp),
      rw (settle-invoices s p b hi) (find-update_self i.id _ b.invoices (λ _. refl) found),
      refl,
      ((λ q. ground arith), λ q. ground arith),
      (λ k n. rw (settle-payments s p b) (find-update_ne k p.id _ b.payments (λ _. refl) n)),
      λ k n. rw (settle-invoices s p b hi) (find-update_ne k i.id _ b.invoices (λ _. refl) n),
    )

advance_period_lem :
    (due k : ℕ) (periods : List Period) {q : Period}
    → due ≡ 0
    → awaits_payment q.status ≡ true
    → find k periods ≡ some q
    → find k (advance_period due (some k) periods) ≡ some (mark_paid q)
unfolding advance_period
advance_period_lem due k periods z w h =
    rw (h, advance_period) (rw (z, w) (find-update_self k mark_paid periods (λ _. refl) h))

-- A payment that covers its invoice moves the invoice's filing period to `paid` from client review
-- or from approval, which the table of period transitions does not list.
settle_skips_sign_off :
    (s : Settlement) (b : Books) (p : Payment) {i : Invoice} {k : ℕ} {q : Period}
    → invoice_of p b ≡ some i
    → i.filing_period_id ≡ some k
    → find k b.periods ≡ some q
    → (q.status ≡ PeriodStatus.approved) ⊎ (q.status ≡ PeriodStatus.client_review)
    → i.total_paise ≤ i.amount_paid_paise + p.amount_paise
    → (find k (settle_payment s p b).periods ≡ some (mark_paid q))
      × (can_transition_period q.status (mark_paid q).status ≡ false)
unfolding can_transition_period
settle_skips_sign_off s b p {i} {k} {q} hi hk hq from covered = (
  rw (settle-periods s p b hi) (
      subst
        (λ o.
          find k
            (advance_period (i.total_paise - (i.amount_paid_paise + p.amount_paise)) o b.periods)
          ≡ some (mark_paid q))
        (sym hk)
        (advance_period_lem (i.total_paise - (i.amount_paid_paise + p.amount_paise)) k b.periods
          (omega arith) (ground arith) hq)),
  ground arith,
)
