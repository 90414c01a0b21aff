-- ===== src/Workflow/Desk/Patched.antt =====
-- What the body of the bulk loop does for one id (`POST /bulk` of src/modules/verification.js).
use meet_millions_finance.Prelude.{
  ◌==◌, if◌then◌else◌, ==_iff, Bool-cases, nat_eq, ℕ, ◌≡◌, refl, ap, ◌∙◌, ◌≢◌, inl, inr, Bool, true,
  false, not, ◌&&◌, Option, none, some, List, [], ◌∷◌, ◌++◌,
}
use mathlib.Core.Path.{subst}
use meet_millions_finance.Store.{find, update}
use meet_millions_finance.Store.Rows.{find-update_ne, find-update_self, find_own, find_id}
use meet_millions_finance.Workflow.Documents.{Document, DocStatus, can_transition_document}
use meet_millions_finance.Workflow.Desk.{Desk, refresh_at, sync_checklist, document_row}
use meet_millions_finance.Workflow.Desk.Review.{Call}
use meet_millions_finance.Workflow.Desk.Bulk.{
  Bulk, BulkAction, SkipReason, skip, missing, is_locked, illegal, approve_all, reject_all,
  assign_all, set_priority, verdict_patch, verdict_desk, verdict_one, assign_to, prioritise, act,
  bulk_at, bulk_one,
}

-- The action may be done on a document of this status.
abbrev pub is_legal : BulkAction → DocStatus → Bool
is_legal (assign_all who) status = true
is_legal (set_priority p) status = true
is_legal approve_all status = can_transition_document status DocStatus.verified
is_legal reject_all status = can_transition_document status DocStatus.rejected

-- The action is done: the document is there, not locked, and the action legal.
abbrev pub is_taken : BulkAction → Option Document → Bool
is_taken action none = false
is_taken action (some d) = not d.is_deleted && (not d.is_locked && is_legal action d.status)

-- The columns that the action writes.
abbrev pub patch_of : Call → BulkAction → Option ℕ → Document → Document
patch_of c (assign_all who) notes d = assign_to who d
patch_of c (set_priority p) notes d = prioritise p d
patch_of c approve_all notes d = verdict_patch c true notes d
patch_of c reject_all notes d = verdict_patch c false notes d

abbrev pub patched : (Document → Document) → Option Document → Option Document
patched g none = none
patched g (some d) = some (g d)

-- A served id joins the updated ones, its row takes the patch and no other row changes; any other id
-- joins the skipped ones with a reason.
abbrev pub Effect : Bool → (Document → Document) → ℕ → Bulk → Bulk → Type 0
Effect true g k b b' =
    (b'.updated ≡ b.updated ++ k ∷ [])
    × (b'.skipped ≡ b.skipped)
    × ((j : ℕ)
        → find j b'.desk.documents
          ≡ (if j == k then patched g (find j b.desk.documents) else find j b.desk.documents))
Effect false g k b b' = (why : SkipReason) × (b' ≡ skip k why b)

refresh_documents : (o : Option ℕ) (t : Desk) → (refresh_at o t).documents ≡ t.documents
refresh_documents none t = refl
refresh_documents (some k) t = refl

verdict_documents :
    (c : Call) (approves : Bool) (notes : Option ℕ) (d : Document) (t : Desk)
    → (verdict_desk c approves notes d t).documents
      ≡ update d.id (verdict_patch c approves notes) t.documents
unfolding sync_checklist
verdict_documents c approves notes d t = refresh_documents d.filing_period_id _

rows_after :
    (g : Document → Document) (k j : ℕ) (docs : List Document) {d : Document}
    → ((x : Document) → (g x).id ≡ x.id)
    → find k docs ≡ some d
    → find j (update k g docs) ≡ (if j == k then patched g (find j docs) else find j docs)
rows_after g k j docs {d} keeps f = elim (Bool-cases (j == k)) [
  | inl here ↦
      let same : j ≡ k = (==_iff j k).0 here in
      let there : find j docs ≡ some d = rw same f in
      let after : find j (update k g docs) ≡ some (g d) =
        rw same (find-update_self k g docs keeps f) in
      rw (here, there) after
  | inr other ↦
      let apart : j ≢ k = λ q. let s = (==_iff j k).1 q in cc in
      rw other (find-update_ne j k g docs keeps apart)
]

verdict-Effect :
    (c : Call) (approves : Bool) (notes : Option ℕ) (d : Document) (b : Bulk)
    → find d.id b.desk.documents ≡ some d
    → Effect
        (can_transition_document d.status
          (if approves then DocStatus.verified else DocStatus.rejected))
        (verdict_patch c approves notes)
        d.id
        b
        (verdict_one c approves notes d b)
verdict-Effect c approves notes d b f =
    elim (Bool-cases (
      can_transition_document d.status
        (if approves then DocStatus.verified else DocStatus.rejected))) [
          | inl e ↦ rw e (
            refl,
            refl,
            λ j.
                ap (find j) (verdict_documents c approves notes d b.desk)
                ∙ rows_after (verdict_patch c approves notes) d.id j b.desk.documents (λ x. refl) f,
          )
          | inr e ↦ rw e (illegal, refl)
        ]

act-Effect :
    (c : Call) (action : BulkAction) (notes : Option ℕ) (d : Document) (b : Bulk)
    → find d.id b.desk.documents ≡ some d
    → Effect (is_legal action d.status) (patch_of c action notes) d.id b (act c action notes d b)
act-Effect c (assign_all who) notes d b f =
    (refl, refl, λ j. rows_after (assign_to who) d.id j b.desk.documents (λ x. refl) f)
act-Effect c (set_priority p) notes d b f =
    (refl, refl, λ j. rows_after (prioritise p) d.id j b.desk.documents (λ x. refl) f)
act-Effect c approve_all notes d b f = verdict-Effect c true notes d b f
act-Effect c reject_all notes d b f = verdict-Effect c false notes d b f

guard-Effect :
    (test legal : Bool) (g : Document → Document) (k : ℕ) (b x y : Bulk)
    → Effect false g k b x
    → Effect legal g k b y
    → Effect (not test && legal) g k b (if test then x else y)
guard-Effect true legal g k b x y h e = h
guard-Effect false legal g k b x y h e = e

bulk_at-Effect :
    (c : Call) (action : BulkAction) (notes : Option ℕ) (k : ℕ) (o : Option Document) (b : Bulk)
    → find k b.desk.documents ≡ o
    → Effect (is_taken action o) (patch_of c action notes) k b (bulk_at c action notes k o b)
bulk_at-Effect c action notes k none b f = (missing, refl)
bulk_at-Effect c action notes k (some d) b f =
    let done =
      subst
        (λ i.
          Effect (is_legal action d.status) (patch_of c action notes) i b (act c action notes d b))
        (find_id k b.desk.documents f)
        (act-Effect c action notes d b (find_own k b.desk.documents f)) in
    guard-Effect d.is_deleted _ _ k b _ _ (missing, refl)
      (guard-Effect d.is_locked _ _ k b _ _ (is_locked, refl) done)

-- The body of the loop.
pub bulk_one-Effect :
    (c : Call) (action : BulkAction) (notes : Option ℕ) (k : ℕ) (b : Bulk)
    → Effect
        (is_taken action (find k b.desk.documents))
        (patch_of c action notes)
        k
        b
        (bulk_one c action notes k b)
unfolding bulk_one
bulk_one-Effect c action notes k b =
    bulk_at-Effect c action notes k (find k b.desk.documents) b refl
