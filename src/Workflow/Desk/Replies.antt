-- ===== src/Workflow/Desk/Replies.antt =====
-- What a reply that resolves its query leaves behind.
use meet_millions_finance.Prelude.{nat_eq, ℕ, ◌≡◌, refl, sym, Bool, true, ◌&&◌, Option, some, arith}
use mathlib.Core.Path.{subst}
use meet_millions_finance.Store.{find, update}
use meet_millions_finance.Store.Rows.{find-update_self, find_id}
use meet_millions_finance.Workflow.Desk.{Desk, ok, Query, query_row}
use meet_millions_finance.Workflow.Desk.Queries.{
  ReplyInput, reply_row, reply_at, reply, is_resolved, resolve_at, resolve,
}

-- The tables after a reply that is accepted.
replied :
    (user now : ℕ) (i : ReplyInput) (q : Query) (t : Desk) {t' : Desk}
    → reply_at user now i (some q) t ≡ ok t'
    → (t'.documents ≡ t.documents)
      × (t'.periods ≡ t.periods)
      × (t'.queries ≡ update q.id (reply_row user now i q) t.queries)
replied user now i q t {t'} e = ground arith

resolved_row :
    (user now : ℕ) (i : ReplyInput) (q : Query)
    → (i.resolve && i.may_resolve) ≡ true
    → is_resolved (reply_row user now i q q).status ≡ true
resolved_row user now i q h = ground arith

row_id_kept :
    (user now : ℕ) (i : ReplyInput) (q : Query) (row : Query)
    → (reply_row user now i q row).id ≡ row.id
row_id_kept user now i q row = ground arith

no_more :
    (later at : ℕ) (notes : Option ℕ) (release : Bool) (q : Query) (t : Desk)
    → is_resolved q.status ≡ true
    → resolve_at later at notes release (some q) t ≡ ok t
no_more later at notes release q t h = rw h refl

-- A reply that resolves an open query, by a user who may, closes it and leaves every document and
-- filing period as it was; the resolve route then answers without a change, with or without the wish
-- to release the document.
pub resolving_reply_lem :
    (user now : ℕ) (i : ReplyInput) (k : ℕ) (t : Desk) {q : Query} {t' : Desk}
    → find k t.queries ≡ some q
    → (i.resolve && i.may_resolve) ≡ true
    → reply user now i k t ≡ ok t'
    → (t'.documents ≡ t.documents)
      × (t'.periods ≡ t.periods)
      × ((later at : ℕ) (notes : Option ℕ) (release : Bool)
          → resolve later at notes release k t' ≡ ok t')
unfolding reply resolve
resolving_reply_lem user now i k t {q} {t'} f r e =
    let accepted : reply_at user now i (some q) t ≡ ok t' = rw f at e in
    let after = replied user now i q t accepted in
    let there : find k t'.queries ≡ some (reply_row user now i q q) = rw (after.2) (
      subst
        (λ j.
          find k (update j (reply_row user now i q) t.queries) ≡ some (reply_row user now i q q))
        (sym (find_id k t.queries f))
        (find-update_self k (reply_row user now i q) t.queries (row_id_kept user now i q) f)) in
    (
      after.0,
      after.1,
      λ later at notes release. rw there (
          no_more later at notes release (reply_row user now i q q) t'
            (resolved_row user now i q r)),
    )
