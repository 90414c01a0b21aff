-- ===== src/Billing/Ledger.antt =====
-- The ledger invariant: what an invoice has been paid is what its payments brought in.
use meet_millions_finance.Prelude.{
  ltb, leb, ◌==◌, if◌then◌else◌, ltb→lt, leb→le, ==_iff, ==_refl, Bool-cases, Option-cases, or_else,
  is_some, Eq, nat_eq, beq_of, beq_of_iff, length, filter, any, All, length-append, length-filter,
  contains, sum_by, sum_by-append, All-imp, All-and, All-append, ℕ, zero, suc, ◌+◌, ◌-◌, ◌*◌, ◌/◌,
  ◌%◌, ◌^◌, ◌≤◌, ◌<◌, max, min, String, ◌≡◌, refl, sym, ap, ap₂, ◌∙◌, ◌≢◌, ◌↔◌, ◌⊎◌, inl, inr, Bool,
  true, false, not, ◌&&◌, ◌||◌, Option, none, some, List, [], ◌∷◌, ◌++◌, map, foldl, arith,
}
use mathlib.Core.Path.{subst}
use meet_millions_finance.Store.{find, update, DistinctIds}
use meet_millions_finance.Store.Rows.{
  find-update_self, update-DistinctIds, sum_by-update, All-update, All-find, All-absent, find_id,
}
use meet_millions_finance.Billing.{PaymentStatus, Invoice, Payment, Books, invoice_row, payment_row}
use meet_millions_finance.Billing.Settle.{
  Settlement, next_receipt_number, mark_success, apply_payment, invoice_of, settle_payment,
}
use meet_millions_finance.Billing.Settle.Effect.{
  settle-payments, settle-invoices, settle-invoices_none, invoice_of_lem,
}
pub mod Captures
pub mod Returns
pub mod Steps

-- The statuses of a payment whose money has been received.
abbrev pub is_settled : PaymentStatus → Bool
is_settled PaymentStatus.success = true
is_settled PaymentStatus.refunded = true
is_settled PaymentStatus.partially_refunded = true
is_settled _ = false

abbrev pub names : ℕ → Option ℕ → Bool
names k none = false
names k (some j) = j == k

-- What a payment has brought in for invoice `k`, less what has been given back.
abbrev pub net : ℕ → Payment → ℕ
net k p =
    if names k p.invoice_id && is_settled p.status then p.amount_paise - p.refunded_paise else 0

abbrev pub IsCredited : List Payment → Invoice → Type 0
IsCredited ps i = i.amount_paid_paise ≡ sum_by (net i.id) ps

-- No more is refunded than was paid, and nothing of a payment that has not been received.
abbrev pub IsWithin : Payment → Type 0
IsWithin p =
    (p.refunded_paise ≤ p.amount_paise) × (is_settled p.status ≡ false → p.refunded_paise ≡ 0)

pub record Balanced (is : List Invoice) (ps : List Payment) : Type 0 where
  pub invoice_ids : DistinctIds is
  pub payment_ids : DistinctIds ps
  pub credited : All (IsCredited ps) is
  pub within : All IsWithin ps

-- Ids are distinct, every invoice has been paid what its payments brought in, and no payment has been
-- refunded more than its amount.
abbrev pub IsBalanced : Books → Type 0
IsBalanced b = Balanced b.invoices b.payments

-- A payment whose invoice is not there names no invoice that is.
unnamed :
    (p : Payment) (b : Books)
    → invoice_of p b ≡ none
    → All (λ (x : Invoice). names x.id p.invoice_id ≡ false) b.invoices
unfolding invoice_of
unnamed p b h = elim (Option-cases p.invoice_id) [
  | inl e ↦ rw e (All-imp (λ _. Unit {0}) _ b.invoices (λ x _. refl) (trivial b.invoices))
  | inr (k, e) ↦
      let absent : find k b.invoices ≡ none = rw e at h in
      rw e
        (All-imp _ _ b.invoices (λ (x : Invoice) n. ground arith) (All-absent k b.invoices absent))
]
  where
    trivial : (xs : List Invoice) → All (λ _. Unit {0}) xs
    trivial [] = tt
    trivial (x ∷ xs) = (tt, trivial xs)

module _ (s : Settlement) (p : Payment) (b : Books) (v : IsBalanced b)
    (hp : find p.id b.payments ≡ some p) (open_p : is_settled p.status ≡ false) where
  abbrev marked : Payment → Payment
  marked = mark_success s (next_receipt_number s.year b) p

  unspent : p.refunded_paise ≡ 0
  unspent = (All-find IsWithin p.id b.payments v.within hp).1 open_p

  net_moves :
      (k : ℕ)
      → sum_by (net k) (update p.id marked b.payments)
        ≡ sum_by (net k) b.payments + (if names k p.invoice_id then p.amount_paise else 0)
  net_moves k =
      let moved = sum_by-update (net k) p.id marked b.payments v.payment_ids hp in
      ground (arith, moved, unspent)

  IsWithin-after : All IsWithin (update p.id marked b.payments)
  IsWithin-after =
      All-update IsWithin IsWithin p.id marked b.payments (λ x e w. (w.0, λ q. cc)) (λ x n w. w)
        v.within

  credited_found :
      (i : Invoice)
      → invoice_of p b ≡ some i
      → All
          (IsCredited (update p.id marked b.payments))
          (update i.id (apply_payment (or_else s.paid_at s.now) p.amount_paise i) b.invoices)
  credited_found i hi =
      let (found, named) = invoice_of_lem p b hi in
      let old = All-find (IsCredited b.payments) i.id b.invoices v.credited found in
      All-update (IsCredited b.payments) (IsCredited (update p.id marked b.payments)) i.id _
        b.invoices
        (λ x e w.
          subst
            (λ k.
              i.amount_paid_paise + p.amount_paise ≡ sum_by (net k) (update p.id marked b.payments))
            (sym e) (ground (arith, net_moves i.id)))
        (λ x n w. ground (arith, net_moves x.id)) v.credited

  credited_none :
      invoice_of p b ≡ none → All (IsCredited (update p.id marked b.payments)) b.invoices
  credited_none h =
      All-imp _ _ b.invoices (λ x c. ground (arith, net_moves x.id))
        (All-and (IsCredited b.payments) (λ x. names x.id p.invoice_id ≡ false) b.invoices
          v.credited (unnamed p b h))

  -- Settling a payment that has not been received keeps the books balanced.
  pub settle-IsBalanced : IsBalanced (settle_payment s p b)
  settle-IsBalanced = elim (Option-cases (invoice_of p b)) [
    | inl h ↦ record {
      invoice_ids = rw (settle-invoices_none s p b h) v.invoice_ids;
      payment_ids =
          rw (settle-payments s p b) (update-DistinctIds p.id _ _ (λ _. refl) v.payment_ids);
      credited = rw (settle-payments s p b, settle-invoices_none s p b h) (credited_none h);
      within = rw (settle-payments s p b) IsWithin-after;
    }
    | inr (i, h) ↦ record {
      invoice_ids =
          rw (settle-invoices s p b h) (update-DistinctIds i.id _ _ (λ _. refl) v.invoice_ids);
      payment_ids =
          rw (settle-payments s p b) (update-DistinctIds p.id _ _ (λ _. refl) v.payment_ids);
      credited = rw (settle-payments s p b, settle-invoices s p b h) (credited_found i h);
      within = rw (settle-payments s p b) IsWithin-after;
    }
  ]
