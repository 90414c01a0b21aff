-- ===== src/Billing/Routes/Inbox.antt =====
-- The inbox of payment webhooks (`POST /payments/:gateway` and `store` of src/modules/webhooks.js): an
-- event whose id the inbox holds already is answered as a duplicate.
use meet_millions_finance.Prelude.{
  ◌==◌, if◌then◌else◌, nat_eq, beq_of, any, ℕ, Bool, false, not, ◌&&◌, ◌||◌, Option, none, some,
  List, [], ◌∷◌, ◌++◌,
}
use meet_millions_finance.Store.{find}
use meet_millions_finance.Billing.{Gateway, Gateway-discrete, Books, Payment, payment_row}
use meet_millions_finance.Billing.Routes.{Report, has_provider}
use meet_millions_finance.Billing.Ledger.Captures.{webhook_at}

-- A request: its gateway, the id of its event, whether the signature is valid, and what it reports of
-- which payment. The query that finds the payment by the gateway's ids is not looked into.
pub record Delivery : Type 0 where
  pub gateway : Gateway
  pub event_id : Option ℕ
  pub is_valid : Bool
  pub report : Report
  pub gateway_payment_id : Option ℕ
  pub method : Option ℕ
  pub payment_id : Option ℕ

-- The stored events, by gateway and id, and the books.
pub record Inbox : Type 0 where
  pub events : List (Gateway × Option ℕ)
  pub books : Books

abbrev pub is_event : Gateway → ℕ → (Gateway × Option ℕ) → Bool
is_event g e (h, none) = false
is_event g e (h, some f) = beq_of Gateway-discrete h g && f == e

abbrev pub is_seen : Gateway → Option ℕ → List (Gateway × Option ℕ) → Bool
is_seen g none events = false
is_seen g (some e) events = any (is_event g e) events

abbrev pub payment_named : Option ℕ → Books → Option Payment
payment_named none b = none
payment_named (some k) b = find k b.payments

abbrev pub apply_delivery : ℕ → ℕ → Delivery → Books → Books
apply_delivery now year d b =
    if d.is_valid
    then webhook_at now year d.report d.gateway_payment_id d.method (payment_named d.payment_id b) b
    else b

-- The route.
unfoldable pub deliver : ℕ → ℕ → Delivery → Inbox → Inbox
deliver now year d q =
    if not (has_provider d.gateway) || is_seen d.gateway d.event_id q.events then q else record {
      events = q.events ++ (d.gateway, d.event_id) ∷ [];
      books = apply_delivery now year d q.books;
    }
