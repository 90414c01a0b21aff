-- ===== src/Audit.antt =====
-- The audit log's hash chain and its anchor (src/services/audit.js). A text is the list of its code
-- points. SHA-256 is a parameter.
use meet_millions_finance.Prelude.{
  ltb, leb, ◌==◌, if◌then◌else◌, ltb→lt, leb→le, ==_iff, ==_refl, Bool-cases, Option-cases, or_else,
  is_some, Eq, nat_eq, beq_of, beq_of_iff, length, filter, any, All, length-append, length-filter,
  contains, sum_by, sum_by-append, All-imp, All-and, All-append, ℕ, zero, suc, ◌+◌, ◌-◌, ◌*◌, ◌/◌,
  ◌%◌, ◌^◌, ◌≤◌, ◌<◌, max, min, String, ◌≡◌, refl, sym, ap, ap₂, ◌∙◌, ◌≢◌, ◌↔◌, ◌⊎◌, inl, inr, Bool,
  true, false, not, ◌&&◌, ◌||◌, Option, none, some, List, [], ◌∷◌, ◌++◌, map, foldl, arith,
}
use meet_millions_finance.Tax.Gst.{Code, code_eq}
pub mod Canonical
pub mod Chain
pub mod Growth
pub mod Anchor
pub mod Tamper

-- The escaping of one value: a backslash before every backslash and every bar.
unfoldable pub escape : Code → Code
escape [] = []
escape (c ∷ s) = let rest = escape s in if c == 0x5c || c == b'|' then 0x5c ∷ c ∷ rest else c ∷ rest

-- `null` and `undefined` become the empty text.
abbrev pub field_text : Option Code → Code
field_text none = []
field_text (some s) = escape s

-- `.join('|')`.
unfoldable pub join_bar : List Code → Code
join_bar [] = []
join_bar (s ∷ []) = s
join_bar (s ∷ t ∷ r) = s ++ b'|' ∷ join_bar (t ∷ r)

-- `canonical`: the values of the hashed fields, in the order of `HASHED_FIELDS`.
unfoldable pub canonical : List (Option Code) → Code
unfolding escape join_bar
canonical fields = join_bar (map field_text fields)

-- `String(n)`: the decimal digits of a number. As many steps as the number itself are enough.
unfoldable pub digits_from : ℕ → ℕ → Code
digits_from zero n = (48 + n % 10) ∷ []
digits_from (suc fuel) n =
    let rest = digits_from fuel (n / 10) in
    if ltb n 10 then (48 + n) ∷ [] else rest ++ (48 + n % 10) ∷ []

abbrev pub decimal : ℕ → Code
unfolding digits_from
decimal n = digits_from n n

-- A row of `audit_logs`: the hashed fields (`details` holds those behind the first two) beside the
-- chain's own columns.
pub record AuditRow : Type 0 where
  pub id : ℕ
  pub tenant_id : Option Code
  pub sequence : ℕ
  pub details : List (Option Code)
  pub prev_hash : Option Code
  pub hash : Code

abbrev pub hashed_fields : AuditRow → List (Option Code)
hashed_fields r = r.tenant_id ∷ some (decimal r.sequence) ∷ r.details

-- The text that is hashed: `${prevHash ?? ''}::${canonical(row)}`.
abbrev pub hashed_text : Option Code → List (Option Code) → Code
hashed_text prev fields = or_else prev [] ++ b':' ∷ b':' ∷ canonical fields

pub data Break : Type 0 where
  sequence_gap link_mismatch hash_mismatch : Break

pub data Verdict : Type 0 where
  valid : Verdict
  broken : ℕ → Break → Verdict

abbrev pub null_eq : Option Code → Option Code → Bool
null_eq none none = true
null_eq (some a) (some b) = code_eq a b
null_eq _ _ = false

-- The tests of one row in the loop of `verifyChain`.
abbrev pub check_row : (Code → Code) → Option Code → ℕ → AuditRow → Option Break
check_row sha256 prev expected r =
    if not (r.sequence == expected)
    then some sequence_gap
    else if not (null_eq r.prev_hash prev)
    then some link_mismatch
    else if not (code_eq (sha256 (hashed_text prev (hashed_fields r))) r.hash)
    then some hash_mismatch
    else none

abbrev pub verdict_of : ℕ → Option Break → Verdict → Verdict
verdict_of id none rest = rest
verdict_of id (some b) rest = broken id b

-- The loop of `verifyChain`: `prevHash` and `expectedSequence` move on with the rows.
unfoldable pub check_rows : (Code → Code) → Option Code → ℕ → List AuditRow → Verdict
check_rows sha256 prev expected [] = valid
check_rows sha256 prev expected (r ∷ rs) =
    verdict_of r.id (check_row sha256 prev expected r)
      (check_rows sha256 (some r.hash) (expected + 1) rs)

abbrev pub first_sequence : List AuditRow → ℕ
first_sequence [] = 1
first_sequence (r ∷ rs) = r.sequence

-- `LIMIT ?`.
abbrev pub take : ℕ → List AuditRow → List AuditRow
take zero rs = []
take (suc n) [] = []
take (suc n) (r ∷ rs) = r ∷ take n rs

-- `verifyChain`, on a tenant's rows in the order of their sequence.
unfoldable pub verify_chain : (Code → Code) → ℕ → List AuditRow → Verdict
verify_chain sha256 limit log =
    check_rows sha256 none (first_sequence (take limit log)) (take limit log)

-- `nextSequenceAndHash`, from the last row.
abbrev pub next_sequence : Option AuditRow → ℕ
next_sequence none = 1
next_sequence (some r) = r.sequence + 1

abbrev pub prev_hash_of : Option AuditRow → Option Code
prev_hash_of none = none
prev_hash_of (some r) = some r.hash

-- The row that `audit` writes behind the last one: the entry is hashed with its sequence.
unfoldable pub next_row :
    (Code → Code) → ℕ → Option Code → List (Option Code) → Option AuditRow → AuditRow
next_row sha256 id tenant details last = record {
  id = id;
  tenant_id = tenant;
  sequence = next_sequence last;
  details = details;
  prev_hash = prev_hash_of last;
  hash =
      sha256
        (hashed_text (prev_hash_of last) (tenant ∷ some (decimal (next_sequence last)) ∷ details));
}

-- The last row in the order of the sequence.
abbrev pub last_row : List AuditRow → Option AuditRow
last_row [] = none
last_row (r ∷ []) = some r
last_row (r ∷ s ∷ rs) = last_row (s ∷ rs)

-- `audit`: the new row goes behind the log.
unfoldable pub audit :
    (Code → Code) → ℕ → Option Code → List (Option Code) → List AuditRow → List AuditRow
unfolding next_row
audit sha256 id tenant details log = log ++ next_row sha256 id tenant details (last_row log) ∷ []

-- `purgeExpiredAuditLogs`: `keeps` is the test that a row is not past its retention date.
unfoldable pub purge_expired : (AuditRow → Bool) → List AuditRow → List AuditRow
purge_expired keeps log = filter keeps log

-- The anchor kept in the settings.
pub record AnchorRow : Type 0 where
  pub sequence : ℕ
  pub hash : Code
  pub previous_anchor_hash : Option Code
  pub at : Code
  pub self_hash : Code

pub data Anchored : Type 0 where
  empty_chain chain_shrank : Anchored
  anchored : AnchorRow → Anchored

pub data Coverage : Type 0 where
  not_covered : Coverage
  covered : Bool → Coverage

-- The row with a given sequence number.
abbrev pub row_at : ℕ → List AuditRow → Option AuditRow
row_at n [] = none
row_at n (r ∷ rs) = if r.sequence == n then some r else row_at n rs

abbrev pub self_hash_of : Option AnchorRow → Option Code
self_hash_of none = none
self_hash_of (some a) = some a.self_hash

-- The text over which an anchor is hashed. The time is the text of a date.
abbrev pub anchor_text : Option Code → ℕ → Code → Code → Code
anchor_text prev sequence hash at =
    or_else prev [] ++ b':' ∷ b':' ∷ (decimal sequence ++ b':' ∷ b':' ∷ (hash ++ b':' ∷ b':' ∷ at))

abbrev pub new_anchor : (Code → Code) → Code → AuditRow → Option AnchorRow → AnchorRow
new_anchor sha256 now head previous = record {
  sequence = head.sequence;
  hash = head.hash;
  previous_anchor_hash = self_hash_of previous;
  at = now;
  self_hash = sha256 (anchor_text (self_hash_of previous) head.sequence head.hash now);
}

abbrev pub anchor_at : (Code → Code) → Code → Option AuditRow → Option AnchorRow → Anchored
anchor_at sha256 now none previous = empty_chain
anchor_at sha256 now (some head) none = anchored (new_anchor sha256 now head none)
anchor_at sha256 now (some head) (some a) =
    if ltb head.sequence a.sequence
    then chain_shrank
    else anchored (new_anchor sha256 now head (some a))

-- `anchorChain`, given the stored anchor.
unfoldable pub anchor_chain : (Code → Code) → Code → List AuditRow → Option AnchorRow → Anchored
anchor_chain sha256 now rows previous = anchor_at sha256 now (last_row rows) previous

abbrev pub intact_at : AnchorRow → Option AuditRow → Bool
intact_at a none = false
intact_at a (some r) = code_eq r.hash a.hash

abbrev pub cover_at : AnchorRow → Option AuditRow → List AuditRow → Coverage
cover_at a none rows = covered false
cover_at a (some head) rows =
    if ltb head.sequence a.sequence
    then covered false
    else covered (intact_at a (row_at a.sequence rows))

-- `verifyAgainstAnchor`.
unfoldable pub verify_against_anchor : List AuditRow → Option AnchorRow → Coverage
verify_against_anchor rows none = not_covered
verify_against_anchor rows (some a) = cover_at a (last_row rows) rows
