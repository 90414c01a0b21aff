-- ===== src/Examples/Log.antt =====
-- The audit log at concrete inputs. The hash function here writes a text's length in one hexadecimal
-- letter behind another.
use meet_millions_finance.Prelude.{
  nat_eq, length, All, ◌<◌, ◌≡◌, refl, ◌≢◌, ◌⊎◌, true, false, Option, none, some, List, [], ◌∷◌,
  arith,
}
use meet_millions_finance.Tax.Gst.{Code}
use meet_millions_finance.Audit.{
  escape, join_bar, canonical, digits_from, AuditRow, check_rows, verify_chain, next_row, audit,
  AnchorRow, Coverage, Verdict, anchor_chain, verify_against_anchor, new_anchor, take,
}
use meet_millions_finance.Audit.Growth.{audit_keeps_chain}
use meet_millions_finance.Audit.Anchor.{anchor_sees_truncation, anchor_allows_growth}
use meet_millions_finance.Audit.Tamper.{IsHex, SameHistory, Collision, same_head-SameHistory}

abbrev toy_hash : Code → Code
toy_hash [] = b'a' ∷ []
toy_hash (c ∷ s) = b'b' ∷ toy_hash s

toy_hash-colon : (t : Code) → All (λ c. c ≢ b':') (toy_hash t)
toy_hash-colon [] = ((λ e. omega (arith, e)), tt)
toy_hash-colon (c ∷ s) = ((λ e. omega (arith, e)), toy_hash-colon s)

toy_hash-long : (t : Code) → 0 < length (toy_hash t)
toy_hash-long [] = omega arith
toy_hash-long (c ∷ s) = omega arith

toy_hash-IsHex : (t : Code) → IsHex (toy_hash t)
toy_hash-IsHex t = (toy_hash-long t, toy_hash-colon t)

-- The details of a row: an action and nineteen columns that are null.
abbrev details : Code → List (Option Code)
details action =
    some action
    ∷ none
    ∷ none
    ∷ none
    ∷ none
    ∷ none
    ∷ none
    ∷ none
    ∷ none
    ∷ none
    ∷ none
    ∷ none
    ∷ none
    ∷ none
    ∷ none
    ∷ none
    ∷ none
    ∷ none
    ∷ none
    ∷ none
    ∷ []

abbrev tenant : Option Code
tenant = some (b't' ∷ [])

abbrev one_row : List AuditRow
one_row = audit toy_hash 1 tenant (details (b'a' ∷ [])) []

abbrev log : List AuditRow
log = audit toy_hash 2 tenant (details (b'|' ∷ [])) one_row

audit_keeps_chain_example :
    verify_chain toy_hash 5000 (audit toy_hash 3 tenant (details []) log) ≡ Verdict.valid
unfolding verify_chain check_rows audit next_row canonical join_bar escape digits_from
audit_keeps_chain_example = audit_keeps_chain toy_hash 3 tenant (details []) log 5000 refl

abbrev first_row : AuditRow
first_row = next_row toy_hash 1 tenant (details (b'a' ∷ [])) none

abbrev second_row : AuditRow
second_row = next_row toy_hash 2 tenant (details (b'|' ∷ [])) (some first_row)

abbrev anchor : AnchorRow
anchor = new_anchor toy_hash (b'n' ∷ []) second_row none

anchor_sees_truncation_example :
    verify_against_anchor (take 1 log) (some anchor) ≡ Coverage.covered false
unfolding verify_chain check_rows audit next_row canonical join_bar escape digits_from anchor_chain
anchor_sees_truncation_example =
    anchor_sees_truncation toy_hash (b'n' ∷ []) log none anchor 1 refl refl (omega arith)

anchor_allows_growth_example :
    verify_against_anchor (audit toy_hash 3 tenant (details []) log) (some anchor)
    ≡ Coverage.covered true
unfolding verify_chain check_rows audit next_row canonical join_bar escape digits_from anchor_chain
anchor_allows_growth_example =
    anchor_allows_growth toy_hash (b'n' ∷ []) log none anchor 3 tenant (details []) refl refl

same_head-SameHistory_example : SameHistory log log ⊎ Collision toy_hash
unfolding verify_chain check_rows audit next_row canonical join_bar escape digits_from
same_head-SameHistory_example =
    same_head-SameHistory toy_hash toy_hash-IsHex log log (refl, (refl, tt)) (refl, (refl, tt)) refl
      refl refl refl
