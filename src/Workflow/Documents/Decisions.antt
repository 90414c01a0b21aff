-- ===== src/Workflow/Documents/Decisions.antt =====
-- What a recorded decision does to a document.
use meet_millions_finance.Prelude.{
  is_some, nat_eq, ℕ, ◌≡◌, ◌≢◌, ◌↔◌, Bool, true, false, none, some, arith,
}
use meet_millions_finance.Workflow.Documents.{
  query_raised, awaiting_client, can_transition_document, Document, approve, reject,
  request_changes, raise_query, target_status, DecisionInput, illegal_transition, Decided, done,
  refused, decide,
}

-- What must hold for a decision to be recorded.
pub record MayDecide (i : DecisionInput) (d : Document) : Type 0 where
  pub unlocked : d.is_locked ≡ false
  pub legal : can_transition_document d.status (target_status i.decision) ≡ true
  pub reasoned : i.decision ≡ reject → is_some i.notes ≡ true
  pub worded : i.decision ≡ raise_query → is_some i.query_body ≡ true

-- The document after a decision: the status that the decision aims at, a verifier exactly for an
-- approval, a rejection reason only for a rejection; and the record names document and decision.
abbrev pub Outcome : ℕ → DecisionInput → Document → Decided → Type 0
Outcome user i d (refused e) = ¬ MayDecide i d
Outcome user i d (done d' r) =
    MayDecide i d
    × (d'.status ≡ target_status i.decision)
    × ((d'.verified_by ≡ some user) ↔ (i.decision ≡ approve))
    × (i.decision ≢ reject → d'.rejected_reason ≡ none)
    × (r.document_id ≡ d.id)
    × (r.decision ≡ i.decision)

-- A decision is recorded exactly if the document is not locked, the transition is legal, a
-- rejection has a reason and a query a text; otherwise it is refused. A recorded one gives the
-- document the status it aims at, its verifier exactly for an approval and a reason only for a
-- rejection, and its record names the document and the decision.
pub decide_outcome :
    (user now : ℕ) (may_lock : Bool) (i : DecisionInput) (d : Document)
    → Outcome user i d (decide user now may_lock i d)
unfolding decide
decide_outcome user now may_lock i d = ground arith

-- Asking the client for changes is refused as an illegal transition on every unlocked document that
-- is not already waiting on a query or on the client.
request_changes_refused :
    (user now : ℕ) (may_lock : Bool) (i : DecisionInput) (d : Document)
    → i.decision ≡ request_changes
    → d.is_locked ≡ false
    → d.status ≢ query_raised
    → d.status ≢ awaiting_client
    → decide user now may_lock i d ≡ refused illegal_transition
unfolding decide
request_changes_refused user now may_lock i d h u q w = ground arith
