-- ===== src/Billing/Ledger/Returns.antt =====
-- A refund keeps the ledger balanced (src/modules/billing.js).
use meet_millions_finance.Prelude.{
  ltb, if◌then◌else◌, Bool-cases, or_else, nat_eq, All, sum_by, All-imp, All-and, ℕ, ◌+◌, ◌-◌, ◌≤◌,
  ◌≡◌, refl, sym, ◌≢◌, inl, inr, Bool, true, not, ◌&&◌, Option, none, some, List, arith,
}
use mathlib.Core.Path.{subst}
use meet_millions_finance.Store.{find, update, DistinctIds}
use meet_millions_finance.Store.Rows.{
  All-update_found, update-DistinctIds, sum_by-update, All-update, All-find, All-absent, find_id,
}
use meet_millions_finance.Billing.{Invoice, Payment, Books, invoice_row, payment_row}
use meet_millions_finance.Billing.Routes.{is_success}
use meet_millions_finance.Billing.Routes.Office.{
  asks_gateway, take_back_at, refund_at, refund_row, take_back, take_back_from,
}
use meet_millions_finance.Billing.Ledger.{
  is_settled, names, net, IsCredited, IsWithin, Balanced, IsBalanced,
}
use meet_millions_finance.Billing.Ledger.Captures.{Keeps}

module _ (p : Payment) (b : Books) (amount : ℕ) (v : IsBalanced b)
    (hp : find p.id b.payments ≡ some p) (good : is_settled p.status ≡ true)
    (room : amount ≤ p.amount_paise - p.refunded_paise) where
  abbrev returned : List Payment
  returned = update p.id (refund_row p amount) b.payments

  net_returns :
      (k : ℕ)
      → sum_by (net k) returned + (if names k p.invoice_id then amount else 0)
        ≡ sum_by (net k) b.payments
  net_returns k =
      ground (arith, sum_by-update (net k) p.id (refund_row p amount) b.payments v.payment_ids hp)

  back_at :
      (k : ℕ) (o : Option Invoice)
      → p.invoice_id ≡ some k
      → find k b.invoices ≡ o
      → All (IsCredited returned) (take_back_at amount o b.invoices)
  back_at k none named h =
      All-imp _ _ b.invoices (λ (i : Invoice) c. ground (arith, net_returns i.id))
        (All-and (IsCredited b.payments) (λ (i : Invoice). i.id ≢ k) b.invoices v.credited
          (All-absent k b.invoices h))
  back_at k (some i) named h =
      let old = All-find (IsCredited b.payments) k b.invoices v.credited h in
      let same : i.id ≡ k = find_id k b.invoices h in
      All-update (IsCredited b.payments) (IsCredited returned) i.id (take_back amount i) b.invoices
        (λ x e w.
          subst (λ j. i.amount_paid_paise - amount ≡ sum_by (net j) returned) (sym e)
            (ground (arith, net_returns i.id)))
        (λ x n w. ground (arith, net_returns x.id)) v.credited

  back :
      (o : Option ℕ)
      → p.invoice_id ≡ o
      → All (IsCredited returned) (take_back_from amount o b.invoices)
  back none e =
      All-imp (IsCredited b.payments) _ b.invoices
        (λ (i : Invoice) c. ground (arith, net_returns i.id)) v.credited
  back (some k) e = back_at k (find k b.invoices) e refl

  ids : (o : Option ℕ) → DistinctIds (take_back_from amount o b.invoices)
  ids none = v.invoice_ids
  ids (some k) = ids_at (find k b.invoices)
    where
      ids_at : (o : Option Invoice) → DistinctIds (take_back_at amount o b.invoices)
      ids_at none = v.invoice_ids
      ids_at (some i) =
          update-DistinctIds i.id (take_back amount i) b.invoices (λ _. refl) v.invoice_ids

  refund_row-IsBalanced : Balanced (take_back_from amount p.invoice_id b.invoices) returned
  refund_row-IsBalanced = record {
    invoice_ids = ids p.invoice_id;
    payment_ids = update-DistinctIds p.id _ b.payments (λ _. refl) v.payment_ids;
    credited = back p.invoice_id refl;
    within =
        All-update_found IsWithin IsWithin p.id (refund_row p amount) b.payments v.payment_ids hp
          (ground (arith, All-find IsWithin p.id b.payments v.within hp)) (λ x n w. w) v.within;
  }

pub refund_at-IsBalanced :
    (accepted : Bool) (asked : Option ℕ) (k : ℕ) (o : Option Payment) (b : Books)
    → find k b.payments ≡ o
    → IsBalanced b
    → Keeps (refund_at accepted asked o b)
refund_at-IsBalanced accepted asked k none b h v = tt
refund_at-IsBalanced accepted asked k (some p) b h v =
    let room = p.amount_paise - p.refunded_paise in
    let hp : find p.id b.payments ≡ some p =
      subst (λ j. find j b.payments ≡ some p) (sym (find_id k b.payments h)) h in
    elim (Bool-cases (is_success p.status)) [
      | inr e ↦ rw e tt
      | inl e ↦ rw e (elim (Bool-cases (ltb room (or_else asked room))) [
        | inl q ↦ rw q tt
        | inr q ↦ rw q (elim (Bool-cases (asks_gateway p.gateway && not accepted)) [
          | inl g ↦ rw g tt
          | inr g ↦ rw g (
              refund_row-IsBalanced p b (or_else asked room) v hp (ground (arith, e))
                (ground (arith, q)))
        ])
      ])
    ]
