-- ===== src/Workflow/Documents/Paths.antt =====
-- What the table of transitions rules out over whole histories.
use meet_millions_finance.Prelude.{
  nat_eq, All, contains, ◌≡◌, refl, ◌≢◌, ◌⊎◌, true, List, [], ◌∷◌, arith,
}
use meet_millions_finance.Workflow.Documents.{
  DocStatus, verified, approved, archived, doc_eq, can_transition_document,
}

-- A history: every status is reached from the one before it by a legal transition.
abbrev pub IsLegal : DocStatus → List DocStatus → Type 0
IsLegal s [] = Unit
IsLegal s (t ∷ ts) = (can_transition_document s t ≡ true) × IsLegal t ts

approved_from :
    (s t : DocStatus)
    → can_transition_document s t ≡ true
    → (t ≡ approved → (s ≡ approved) ⊎ (s ≡ verified)) × (s ≡ archived → t ≡ archived)
unfolding can_transition_document
approved_from s t h = ground arith

-- No document becomes approved without having been verified: a legal history that begins at a status
-- other than these two and contains `approved` contains `verified`.
pub approved_needs_verified :
    (s : DocStatus) (ts : List DocStatus)
    → s ≢ approved
    → s ≢ verified
    → IsLegal s ts
    → contains approved ts ≡ true
    → contains verified ts ≡ true
approved_needs_verified s [] a v h c = cc
approved_needs_verified s (t ∷ ts) a v h c =
    ground (arith, approved_from s t h.0, approved_needs_verified t ts)

-- An archived document stays archived on every legal history.
pub archived_is_final : (ts : List DocStatus) → IsLegal archived ts → All (λ t. t ≡ archived) ts
archived_is_final [] h = tt
archived_is_final (t ∷ ts) h =
    let e : t ≡ archived = (approved_from archived t h.0).1 refl in
    (e, archived_is_final ts (rw e at h.1))
