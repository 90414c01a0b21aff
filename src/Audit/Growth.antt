-- ===== src/Audit/Growth.antt =====
-- The chain when the log grows, loses its tail or loses its head (src/services/audit.js, `audit`,
-- `verifyChain`, `purgeExpiredAuditLogs`).
use meet_millions_finance.Prelude.{
  ==_refl, nat_eq, length, filter, ℕ, zero, suc, ◌+◌, ◌≡◌, refl, ap, Bool, true, false, Option,
  none, some, List, [], ◌∷◌, ◌++◌,
}
use meet_millions_finance.Tax.Gst.{Code}
use meet_millions_finance.Audit.{
  link_mismatch, broken, valid, last_row, check_rows, next_row, take, purge_expired, audit,
  verify_chain, AuditRow,
}
use meet_millions_finance.Audit.Chain.{
  verify_chain_sound, verify_chain_complete, Linked, Linked-take, IsChain,
}

-- The row that `audit` writes follows the last one.
next_row-Linked :
    (sha256 : Code → Code) (id : ℕ) (tenant : Option Code) (details : List (Option Code))
    (prev : Option Code) (expected : ℕ) (r : AuditRow) (rs : List AuditRow)
    → Linked sha256 prev expected (r ∷ rs)
    → Linked sha256 prev expected
        ((r ∷ rs) ++ next_row sha256 id tenant details (last_row (r ∷ rs)) ∷ [])
unfolding next_row
next_row-Linked sha256 id tenant details prev expected r [] h =
    (h.0, ((ap (λ n. n + 1) h.0.0, refl, refl), tt))
next_row-Linked sha256 id tenant details prev expected r (s ∷ rs) h =
    (h.0, next_row-Linked sha256 id tenant details (some r.hash) (expected + 1) s rs h.1)

audit-IsChain :
    (sha256 : Code → Code) (id : ℕ) (tenant : Option Code) (details : List (Option Code))
    (log : List AuditRow)
    → IsChain sha256 log
    → IsChain sha256 (audit sha256 id tenant details log)
unfolding audit next_row
audit-IsChain sha256 id tenant details [] h = ((refl, refl, refl), tt)
audit-IsChain sha256 id tenant details (r ∷ rs) h =
    next_row-Linked sha256 id tenant details none r.sequence r rs h

-- A log whose whole chain is valid stays valid when `audit` writes a row behind it, however many of
-- its rows are walked.
pub audit_keeps_chain :
    (sha256 : Code → Code) (id : ℕ) (tenant : Option Code) (details : List (Option Code))
    (log : List AuditRow) (limit : ℕ)
    → verify_chain sha256 (length log) log ≡ valid
    → verify_chain sha256 limit (audit sha256 id tenant details log) ≡ valid
audit_keeps_chain sha256 id tenant details log limit h =
    verify_chain_complete sha256 limit (audit sha256 id tenant details log)
      (audit-IsChain sha256 id tenant details log (verify_chain_sound sha256 log h))

take-IsChain :
    (sha256 : Code → Code) (n : ℕ) (log : List AuditRow)
    → IsChain sha256 log
    → IsChain sha256 (take n log)
take-IsChain sha256 zero log h = tt
take-IsChain sha256 (suc n) [] h = tt
take-IsChain sha256 (suc n) (r ∷ rs) h = Linked-take sha256 none r.sequence (suc n) (r ∷ rs) h

-- A log that has lost rows from its end still verifies: `verifyChain` alone does not see it.
truncation_unseen :
    (sha256 : Code → Code) (log : List AuditRow) (kept limit : ℕ)
    → verify_chain sha256 (length log) log ≡ valid
    → verify_chain sha256 limit (take kept log) ≡ valid
truncation_unseen sha256 log kept limit h =
    verify_chain_complete sha256 limit (take kept log)
      (take-IsChain sha256 kept log (verify_chain_sound sha256 log h))

link_mismatch_lem :
    (sha256 : Code → Code) (s : AuditRow) (rs : List AuditRow) (limit : ℕ) (x : Code)
    → s.prev_hash ≡ some x
    → verify_chain sha256 (suc limit) (s ∷ rs) ≡ broken s.id link_mismatch
unfolding verify_chain check_rows
link_mismatch_lem sha256 s rs limit x h = rw (h, ==_refl s.sequence) refl

-- In a valid log whose first row is past its retention date and whose second is not, the purge
-- makes `verifyChain`, on any positive number of rows, report a link mismatch at the second row.
purge_breaks_chain :
    (sha256 : Code → Code) (keeps : AuditRow → Bool) (r s : AuditRow) (rs : List AuditRow)
    (limit : ℕ)
    → verify_chain sha256 (length (r ∷ s ∷ rs)) (r ∷ s ∷ rs) ≡ valid
    → keeps r ≡ false
    → keeps s ≡ true
    → verify_chain sha256 (suc limit) (purge_expired keeps (r ∷ s ∷ rs)) ≡ broken s.id link_mismatch
unfolding purge_expired
purge_breaks_chain sha256 keeps r s rs limit h drops stays =
    rw (drops, stays)
      (link_mismatch_lem sha256 s (filter keeps rs) limit r.hash
        (verify_chain_sound sha256 (r ∷ s ∷ rs) h).1.0.1)
