-- ===== src/Audit/Anchor.antt =====
-- What an anchor adds to the chain (src/services/audit.js, `anchorChain`, `verifyAgainstAnchor`).
use mathlib.Core.Path.{subst}
use meet_millions_finance.Tax.Gst.Place.{code_eq_refl}
use meet_millions_finance.Prelude.{
  ltb, ◌==◌, ==_iff, Bool-cases, Option-cases, nat_eq, length, ℕ, zero, suc, ◌+◌, ◌≤◌, ◌<◌, ◌≡◌,
  refl, sym, ap, inl, inr, true, false, Option, none, some, List, [], ◌∷◌, ◌++◌, arith,
}
use meet_millions_finance.Tax.Gst.{Code}
use meet_millions_finance.Audit.{
  cover_at, code_eq, first_sequence, covered, valid, new_anchor, next_row, verify_chain, audit,
  anchor_at, verify_against_anchor, anchor_chain, row_at, take, AnchorRow, last_row, AuditRow,
  Anchored,
}
use meet_millions_finance.Audit.Chain.{verify_chain_sound, Linked}

-- The anchor that `anchorChain` stores, the old one where it stores none.
unfoldable pub stored_anchor : Anchored → Option AnchorRow → Option AnchorRow
stored_anchor Anchored.empty_chain old = old
stored_anchor Anchored.chain_shrank old = old
stored_anchor (Anchored.anchored a) old = some a

-- The last of at most `n` rows of a chain is numbered below the first number plus `n`.
last-sequence :
    (sha256 : Code → Code) (prev : Option Code) (expected n : ℕ) (rs : List AuditRow)
    (last : AuditRow)
    → Linked sha256 prev expected rs
    → last_row (take n rs) ≡ some last
    → last.sequence < expected + n
last-sequence sha256 prev expected zero rs last h e = cc
last-sequence sha256 prev expected (suc n) [] last h e = cc
last-sequence sha256 prev expected (suc zero) (r ∷ rs) last h e =
    let q : r ≡ last = cc in omega (arith, h.0.0, ap AuditRow.sequence q)
last-sequence sha256 prev expected (suc (suc n)) (r ∷ []) last h e =
    let q : r ≡ last = cc in omega (arith, h.0.0, ap AuditRow.sequence q)
last-sequence sha256 prev expected (suc (suc n)) (r ∷ s ∷ rs) last h e =
    let below = last-sequence sha256 (some r.hash) (expected + 1) (suc n) (s ∷ rs) last h.1 e in
    omega (arith, below)

found_at :
    (n : ℕ) (r last : AuditRow) (rs : List AuditRow)
    → r.sequence ≡ n
    → r ≡ last
    → row_at n (r ∷ rs) ≡ some last
found_at n r last rs e q =
    let hit : (r.sequence == n) ≡ true = (==_iff r.sequence n).1 e in rw hit (ap some q)

-- Every row of a chain is numbered from the first number on.
last-above :
    (sha256 : Code → Code) (prev : Option Code) (expected : ℕ) (rs : List AuditRow)
    (last : AuditRow)
    → Linked sha256 prev expected rs
    → last_row rs ≡ some last
    → (last.sequence + 1 ≡ expected + length rs) × (row_at last.sequence rs ≡ some last)
last-above sha256 prev expected [] last h e = cc
last-above sha256 prev expected (r ∷ []) last h e =
    let q : r ≡ last = cc in
    let n = ap AuditRow.sequence q in
    (omega (arith, h.0.0, n), found_at last.sequence r last [] n q)
last-above sha256 prev expected (r ∷ s ∷ rs) last h e =
    let rest = last-above sha256 (some r.hash) (expected + 1) (s ∷ rs) last h.1 e in
    let later : (r.sequence == last.sequence) ≡ false = ground (arith, rest.0, h.0.0) in
    (omega (arith, rest.0), rw later rest.1)

anchored_head :
    (sha256 : Code → Code) (now : Code) (log : List AuditRow) (old : Option AnchorRow)
    (a : AnchorRow)
    → anchor_chain sha256 now log old ≡ Anchored.anchored a
    → (head : AuditRow) × (last_row log ≡ some head)
      × (a.sequence ≡ head.sequence)
      × (a.hash ≡ head.hash)
unfolding anchor_chain
anchored_head sha256 now log old a h = go (last_row log) old refl h
  where
    go :
        (x : Option AuditRow) (o : Option AnchorRow)
        → last_row log ≡ x
        → anchor_at sha256 now x o ≡ Anchored.anchored a
        → (head : AuditRow) × (last_row log ≡ some head)
          × (a.sequence ≡ head.sequence)
          × (a.hash ≡ head.hash)
    go none o e k = cc
    go (some head) none e k =
        let q : new_anchor sha256 now head none ≡ a = cc in
        (head, e, sym (ap AnchorRow.sequence q), sym (ap AnchorRow.hash q))
    go (some head) (some b) e k = elim (Bool-cases (ltb head.sequence b.sequence)) [
      | inl lower ↦ ground arith
      | inr level ↦
          let q : new_anchor sha256 now head (some b) ≡ a = ground arith in
          (head, e, sym (ap AnchorRow.sequence q), sym (ap AnchorRow.hash q))
    ]

-- The head of a valid log is anchored. When the log has lost rows from its end since, the check
-- against the anchor is covered and fails.
pub anchor_sees_truncation :
    (sha256 : Code → Code) (now : Code) (log : List AuditRow) (old : Option AnchorRow)
    (a : AnchorRow) (kept : ℕ)
    → verify_chain sha256 (length log) log ≡ valid
    → anchor_chain sha256 now log old ≡ Anchored.anchored a
    → kept < length log
    → verify_against_anchor (take kept log) (some a) ≡ covered false
unfolding verify_against_anchor
anchor_sees_truncation sha256 now log old a kept h e less =
    let (head, at_head, level, same) = anchored_head sha256 now log old a e in
    let chain = verify_chain_sound sha256 log h in
    let end = last-above sha256 none (first_sequence log) log head chain at_head in
    elim (Option-cases (last_row (take kept log))) [
      | inl gone ↦ rw gone refl
      | inr (last, found) ↦
          let below = last-sequence sha256 none (first_sequence log) kept log last chain found in
          let lower : ltb last.sequence a.sequence ≡ true =
            ground (arith, below, end.0, level, less) in
          rw (found, lower) refl
    ]

last_row-append : (log : List AuditRow) (x : AuditRow) → last_row (log ++ x ∷ []) ≡ some x
last_row-append [] x = refl
last_row-append (r ∷ []) x = refl
last_row-append (r ∷ s ∷ rs) x = last_row-append (s ∷ rs) x

row_at-append :
    (n : ℕ) (log more : List AuditRow) (r : AuditRow)
    → row_at n log ≡ some r
    → row_at n (log ++ more) ≡ some r
row_at-append n [] more r h = cc
row_at-append n (s ∷ rs) more r h = ground (arith, row_at-append n rs more r)

cover_lem :
    (a : AnchorRow) (last r : AuditRow) (rows : List AuditRow)
    → ltb last.sequence a.sequence ≡ false
    → row_at a.sequence rows ≡ some r
    → code_eq r.hash a.hash ≡ true
    → cover_at a (some last) rows ≡ covered true
cover_lem a last r rows high there same = rw (high, there, same) refl

-- The head of a valid log is anchored. After one more row from `audit` the check against the anchor
-- is covered and holds.
pub anchor_allows_growth :
    (sha256 : Code → Code) (now : Code) (log : List AuditRow) (old : Option AnchorRow)
    (a : AnchorRow) (id : ℕ) (tenant : Option Code) (details : List (Option Code))
    → verify_chain sha256 (length log) log ≡ valid
    → anchor_chain sha256 now log old ≡ Anchored.anchored a
    → verify_against_anchor (audit sha256 id tenant details log) (some a) ≡ covered true
unfolding verify_against_anchor audit next_row
anchor_allows_growth sha256 now log old a id tenant details h e =
    let (head, at_head, level, same) = anchored_head sha256 now log old a e in
    let chain = verify_chain_sound sha256 log h in
    let end = last-above sha256 none (first_sequence log) log head chain at_head in
    let new = next_row sha256 id tenant details (last_row log) in
    let next : new.sequence ≡ head.sequence + 1 = rw at_head refl in
    let high : ltb new.sequence a.sequence ≡ false = ground (arith, next, level) in
    let kept : row_at a.sequence (log ++ new ∷ []) ≡ some head =
      subst (λ n. row_at n (log ++ new ∷ []) ≡ some head) (sym level)
        (row_at-append head.sequence log (new ∷ []) head end.1) in
    let same_hash : code_eq head.hash a.hash ≡ true =
      subst (λ x. code_eq head.hash x ≡ true) (sym same) (code_eq_refl head.hash) in
    subst (λ o. cover_at a o (log ++ new ∷ []) ≡ covered true) (sym (last_row-append log new))
      (cover_lem a new head (log ++ new ∷ []) high kept same_hash)

-- An anchor never moves back: the one that `anchorChain` stores is not below the one before it.
anchor_moves_forward :
    (sha256 : Code → Code) (now : Code) (log : List AuditRow) (a b : AnchorRow)
    → stored_anchor (anchor_chain sha256 now log (some a)) (some a) ≡ some b
    → a.sequence ≤ b.sequence
unfolding anchor_chain stored_anchor
anchor_moves_forward sha256 now log a b h = go (last_row log) h
  where
    go :
        (x : Option AuditRow)
        → stored_anchor (anchor_at sha256 now x (some a)) (some a) ≡ some b
        → a.sequence ≤ b.sequence
    go none k = let q : a ≡ b = cc in omega (arith, ap AnchorRow.sequence q)
    go (some head) k = elim (Bool-cases (ltb head.sequence a.sequence)) [
      | inl lower ↦ let q : a ≡ b = ground arith in omega (arith, ap AnchorRow.sequence q)
      | inr level ↦
          let q : new_anchor sha256 now head (some a) ≡ b = ground arith in
          ground (arith, ap AnchorRow.sequence q)
    ]
