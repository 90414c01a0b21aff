-- ===== src/Billing/Ledger/Captures.antt =====
-- The verification of a payment and the gateway's webhook keep the ledger balanced on a payment that
-- has not been given back (src/modules/billing.js, src/modules/webhooks.js).
use meet_millions_finance.Prelude.{
  Bool-cases, nat_eq, sum_by, All-imp, ℕ, ◌≡◌, refl, sym, ◌∙◌, inl, inr, Bool, true, false, Option,
  none, some, arith,
}
use mathlib.Core.Path.{subst}
use meet_millions_finance.Store.{find, update}
use meet_millions_finance.Store.Rows.{
  All-update_found, update-DistinctIds, sum_by-update, All-find, find_id,
}
use meet_millions_finance.Billing.{
  PaymentStatus, TransactionKind, Invoice, Payment, Books, invoice_row, payment_row,
}
use meet_millions_finance.Billing.Routes.{
  is_success, has_provider, Outcome, ok, err, Verification, mark_failed, verify_found, verify_at,
  Report, amount_disagrees, receive_webhook, add_transaction,
}
use meet_millions_finance.Billing.Ledger.{
  is_settled, net, IsCredited, IsWithin, Balanced, IsBalanced, settle-IsBalanced,
}

-- The statuses of a payment of which something has been given back.
abbrev pub is_returned : PaymentStatus → Bool
is_returned PaymentStatus.refunded = true
is_returned PaymentStatus.partially_refunded = true
is_returned _ = false

-- A change of status that receives no money.
pub record IsStatusOnly (g : Payment → Payment) : Type 0 where
  pub keeps : (x : Payment) → (g x).id ≡ x.id
  pub open_after : (x : Payment) → is_settled (g x).status ≡ false
  pub same_back : (x : Payment) → (g x).refunded_paise ≡ x.refunded_paise

module _ (p : Payment) (g : Payment → Payment) (b : Books) (v : IsBalanced b)
    (hp : find p.id b.payments ≡ some p) (open_p : is_settled p.status ≡ false)
    (h : IsStatusOnly g) where
  net-restatus : (k : ℕ) → sum_by (net k) (update p.id g b.payments) ≡ sum_by (net k) b.payments
  net-restatus k =
      ground (arith, sum_by-update (net k) p.id g b.payments v.payment_ids hp, h.open_after p)

  IsWithin-restatus : IsWithin (g p)
  IsWithin-restatus =
      ground (arith, (All-find IsWithin p.id b.payments v.within hp).1 open_p, h.same_back p)

  pub restatus-IsBalanced : Balanced b.invoices (update p.id g b.payments)
  restatus-IsBalanced = record {
    invoice_ids = v.invoice_ids;
    payment_ids = update-DistinctIds p.id g b.payments h.keeps v.payment_ids;
    credited =
        All-imp (IsCredited b.payments) _ b.invoices
          (λ (i : Invoice) c. c ∙ sym (net-restatus i.id)) v.credited;
    within =
        All-update_found IsWithin IsWithin p.id g b.payments v.payment_ids hp IsWithin-restatus
          (λ x n w. w) v.within;
  }

mark_failed-IsStatusOnly : (p : Payment) → IsStatusOnly (mark_failed p)
mark_failed-IsStatusOnly p = record {
  keeps = λ x. refl;
  open_after = λ x. refl;
  same_back = λ x. refl;
}

failed-IsStatusOnly : IsStatusOnly (λ (q : Payment). record q { status = PaymentStatus.failed })
failed-IsStatusOnly = record { keeps = λ x. refl; open_after = λ x. refl; same_back = λ x. refl }

disputed-IsStatusOnly : IsStatusOnly (λ (q : Payment). record q { status = PaymentStatus.disputed })
disputed-IsStatusOnly = record { keeps = λ x. refl; open_after = λ x. refl; same_back = λ x. refl }

-- A payment that is neither successful nor given back has not been received.
open_status :
    (s : PaymentStatus) → is_returned s ≡ false → is_success s ≡ false → is_settled s ≡ false
open_status s r n = ground arith

-- What a route leaves: balanced books, or an error and no change.
abbrev pub Keeps : Outcome → Type 0
Keeps (ok b) = IsBalanced b
Keeps (err e) = Unit

verify-Keeps :
    (now year : ℕ) (answer : Verification) (p : Payment) (b : Books)
    → find p.id b.payments ≡ some p
    → is_returned p.status ≡ false
    → IsBalanced b
    → Keeps (verify_found now year answer p b)
verify-Keeps now year Verification.rejected p b hp back v =
    elim (Bool-cases (is_success p.status)) [
      | inl e ↦ rw e v
      | inr e ↦ rw e (elim (Bool-cases (has_provider p.gateway)) [
        | inr n ↦ rw n tt
        | inl w ↦ rw w (
            restatus-IsBalanced p (mark_failed p) b v hp (open_status p.status back e)
              (mark_failed-IsStatusOnly p))
      ])
    ]
verify-Keeps now year (Verification.confirmed gateway_id method) p b hp back v =
    elim (Bool-cases (is_success p.status)) [
      | inl e ↦ rw e v
      | inr e ↦ rw e (elim (Bool-cases (has_provider p.gateway)) [
        | inr n ↦ rw n tt
        | inl w ↦ rw w (
            settle-IsBalanced _ p (add_transaction p.id TransactionKind.verify_ok p.amount_paise b)
              v hp (open_status p.status back e))
      ])
    ]

pub verify_at-Keeps :
    (now year : ℕ) (answer : Verification) (k : ℕ) (o : Option Payment) (b : Books)
    → find k b.payments ≡ o
    → ((p : Payment) → o ≡ some p → is_returned p.status ≡ false)
    → IsBalanced b
    → Keeps (verify_at now year answer o b)
verify_at-Keeps now year answer k none b h back v = tt
verify_at-Keeps now year answer k (some p) b h back v =
    verify-Keeps now year answer p b
      (subst (λ j. find j b.payments ≡ some p) (sym (find_id k b.payments h)) h) (back p refl) v

webhook-IsBalanced :
    (now year : ℕ) (report : Report) (gateway_id method : Option ℕ) (p : Payment) (b : Books)
    → find p.id b.payments ≡ some p
    → is_returned p.status ≡ false
    → IsBalanced b
    → IsBalanced (receive_webhook now year report gateway_id method p b)
unfolding receive_webhook
webhook-IsBalanced now year Report.failure gateway_id method p b hp back v =
    elim (Bool-cases (is_success p.status)) [
      | inl e ↦ rw e v
      | inr e ↦
          rw e (restatus-IsBalanced p _ b v hp (open_status p.status back e) failed-IsStatusOnly)
    ]
webhook-IsBalanced now year Report.other gateway_id method p b hp back v =
    elim (Bool-cases (is_success p.status)) [ inl e ↦ rw e v | inr e ↦ rw e v ]
webhook-IsBalanced now year (Report.captured reported) gateway_id method p b hp back v =
    elim (Bool-cases (is_success p.status)) [
      | inl e ↦ rw e v
      | inr e ↦ rw e (elim (Bool-cases (amount_disagrees reported p.amount_paise)) [
        | inl d ↦
            rw d
              (restatus-IsBalanced p _ b v hp (open_status p.status back e) disputed-IsStatusOnly)
        | inr d ↦ rw d (settle-IsBalanced _ p b v hp (open_status p.status back e))
      ])
    ]

-- The webhook's payment is looked up; where there is none nothing changes.
abbrev pub webhook_at : ℕ → ℕ → Report → Option ℕ → Option ℕ → Option Payment → Books → Books
webhook_at now year report gateway_id method none b = b
webhook_at now year report gateway_id method (some p) b =
    receive_webhook now year report gateway_id method p b

pub webhook_at-IsBalanced :
    (now year : ℕ) (report : Report) (gateway_id method : Option ℕ) (k : ℕ) (o : Option Payment)
    (b : Books)
    → find k b.payments ≡ o
    → ((p : Payment) → o ≡ some p → is_returned p.status ≡ false)
    → IsBalanced b
    → IsBalanced (webhook_at now year report gateway_id method o b)
webhook_at-IsBalanced now year report gateway_id method k none b h back v = v
webhook_at-IsBalanced now year report gateway_id method k (some p) b h back v =
    webhook-IsBalanced now year report gateway_id method p b
      (subst (λ j. find j b.payments ≡ some p) (sym (find_id k b.payments h)) h) (back p refl) v
