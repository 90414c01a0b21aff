-- ===== src/Workflow/Desk/Kept/Bulk.antt =====
-- Decisions on many documents keep the periods in step.
use meet_millions_finance.Prelude.{
  if◌then◌else◌, Bool-cases, nat_eq, ℕ, ◌≡◌, refl, inl, inr, Bool, true, false, Option, none, some,
  List, [], ◌∷◌,
}
use meet_millions_finance.Store.{find, update}
use meet_millions_finance.Workflow.Documents.{Document, DocStatus, can_transition_document}
use meet_millions_finance.Workflow.Desk.{Desk, sync_checklist, document_row, query_row}
use meet_millions_finance.Workflow.Desk.Review.{Call}
use meet_millions_finance.Workflow.Desk.Bulk.{
  Bulk, BulkAction, approve_all, reject_all, assign_all, set_priority, verdict_record, verdict_desk,
  verdict_patch, verdict_one, assign_to, prioritise, act, bulk_at, bulk_one, bulk_loop,
}
use meet_millions_finance.Workflow.Desk.Step.{noted}
use meet_millions_finance.Workflow.Desk.Kept.{
  IsInStep, with_record, patch-IsSound, refresh_at-IsSound, checklist-IsSound, quiet-IsSound,
}

verdict_desk-IsInStep :
    (c : Call) (approves : Bool) (notes : Option ℕ) (k : ℕ) (d : Document) (t : Desk)
    → find k t.documents ≡ some d
    → IsInStep t
    → IsInStep (verdict_desk c approves notes d t)
verdict_desk-IsInStep c approves notes k d t f s =
    let g = verdict_patch c approves notes in
    let t' = record t { records = verdict_record c approves notes d ∷ t.records } in
    let rows = record t' { documents = update d.id g t.documents } in
    let patched =
      patch-IsSound [] t' k g f (λ x. refl) refl
        (with_record (verdict_record c approves notes d) t s) in
    refresh_at-IsSound d.filing_period_id [] (sync_checklist (g d) rows)
      (checklist-IsSound (g d) (noted d.filing_period_id []) rows patched)

verdict_one-IsInStep :
    (c : Call) (approves : Bool) (notes : Option ℕ) (k : ℕ) (d : Document) (b : Bulk)
    → find k b.desk.documents ≡ some d
    → IsInStep b.desk
    → IsInStep (verdict_one c approves notes d b).desk
verdict_one-IsInStep c approves notes k d b f s =
    elim (Bool-cases (
      can_transition_document d.status
        (if approves then DocStatus.verified else DocStatus.rejected))) [
          | inl e ↦ rw e (verdict_desk-IsInStep c approves notes k d b.desk f s)
          | inr e ↦ rw e s
        ]

act-IsInStep :
    (c : Call) (action : BulkAction) (notes : Option ℕ) (k : ℕ) (d : Document) (b : Bulk)
    → find k b.desk.documents ≡ some d
    → IsInStep b.desk
    → IsInStep (act c action notes d b).desk
act-IsInStep c (assign_all who) notes k d b f s =
    quiet-IsSound [] b.desk d.id (assign_to who) (λ x. refl)
      (record { period = λ x. refl; status = λ x. refl; deletion = λ x. refl }) s
act-IsInStep c (set_priority p) notes k d b f s =
    quiet-IsSound [] b.desk d.id (prioritise p) (λ x. refl)
      (record { period = λ x. refl; status = λ x. refl; deletion = λ x. refl }) s
act-IsInStep c approve_all notes k d b f s = verdict_one-IsInStep c true notes k d b f s
act-IsInStep c reject_all notes k d b f s = verdict_one-IsInStep c false notes k d b f s

either-IsInStep :
    (test : Bool) (x y : Bulk)
    → IsInStep x.desk
    → IsInStep y.desk
    → IsInStep (if test then x else y).desk
either-IsInStep true x y s r = s
either-IsInStep false x y s r = r

bulk_at-IsInStep :
    (c : Call) (action : BulkAction) (notes : Option ℕ) (k : ℕ) (o : Option Document) (b : Bulk)
    → find k b.desk.documents ≡ o
    → IsInStep b.desk
    → IsInStep (bulk_at c action notes k o b).desk
bulk_at-IsInStep c action notes k none b f s = s
bulk_at-IsInStep c action notes k (some d) b f s =
    either-IsInStep d.is_deleted _ _ s
      (either-IsInStep d.is_locked _ _ s (act-IsInStep c action notes k d b f s))

pub bulk_loop-IsInStep :
    (c : Call) (action : BulkAction) (notes : Option ℕ) (ks : List ℕ) (b : Bulk)
    → IsInStep b.desk
    → IsInStep (bulk_loop c action notes ks b).desk
unfolding bulk_loop bulk_one
bulk_loop-IsInStep c action notes [] b s = s
bulk_loop-IsInStep c action notes (k ∷ ks) b s =
    bulk_loop-IsInStep c action notes ks (bulk_one c action notes k b)
      (bulk_at-IsInStep c action notes k (find k b.desk.documents) b refl s)
