-- ===== src/RateLimit/Quota.antt =====
-- How many requests of one client the limiter lets through. A store is read as its last write left it;
-- over a cache that is only eventually consistent more may pass.
use meet_millions_finance.Prelude.{
  leb, if◌then◌else◌, ==_refl, Bool-cases, nat_eq, length, All, ℕ, suc, ◌+◌, ◌-◌, ◌/◌, min, ◌≡◌,
  refl, inl, inr, Bool, true, false, none, some, List, [], ◌∷◌, arith,
}
use meet_millions_finance.RateLimit.{
  Bucket, Request, RateOption, Stores, Limited, passed, rate_limited, bucket_for, identity_for,
  per_key_max, window_seconds, apply_rate_limit, Identity, identity_eq, bucket_tag, RateKey, key_eq,
  Counts, count_at, put_count, Attempt, attempt,
}

identity_eq_refl : (i : Identity) → identity_eq i i ≡ true
identity_eq_refl (Identity.key a) = ==_refl a
identity_eq_refl (Identity.user a) = ==_refl a
identity_eq_refl (Identity.ip a) = ==_refl a

key_eq_refl : (k : RateKey) → key_eq k k ≡ true
key_eq_refl k =
    ground (arith, identity_eq_refl k.identity, ==_refl (bucket_tag k.bucket), ==_refl k.window)

identity_eq_join :
    (i j l : Identity) → identity_eq i j ≡ true → identity_eq l j ≡ true → identity_eq l i ≡ true
identity_eq_join i j l h g = ground arith

key_eq_join : (i j k : RateKey) → key_eq i j ≡ true → key_eq k j ≡ true → key_eq k i ≡ true
key_eq_join i j k h g = ground (arith, identity_eq_join i.identity j.identity k.identity)

count-put_self : (k : RateKey) (n : ℕ) (m : Counts) → count_at k (put_count k n m) ≡ n
unfolding count_at put_count
count-put_self k n [] = rw (key_eq_refl k) refl
count-put_self k n ((j, o) ∷ m) = elim (Bool-cases (key_eq k j)) [
  | inl e ↦ rw (e, e) refl
  | inr e ↦ rw (e, e) (count-put_self k n m)
]

count-put_other :
    (i k : RateKey) (n : ℕ) (m : Counts)
    → key_eq i k ≡ false
    → count_at i (put_count k n m) ≡ count_at i m
unfolding count_at put_count
count-put_other i k n [] h = rw h refl
count-put_other i k n ((j, o) ∷ m) h = ground (arith, count-put_other i k n m h, key_eq_join k j i)

-- An attempt leaves the count of every other key as it was.
attempt_isolated :
    (limit : ℕ) (i k : RateKey) (m m' : Counts)
    → key_eq i k ≡ false
    → attempt limit k m ≡ Attempt.admitted m'
    → (count_at i m' ≡ count_at i m) × (count_at k m' ≡ count_at k m + 1)
unfolding attempt
attempt_isolated limit i k m m' h e =
    let next = put_count k (count_at k m + 1) m in
    ground
      (arith, count-put_other i k (count_at k m + 1) m h, count-put_self k (count_at k m + 1) m)

-- One request of the sequence: whether the cache answers it, and the second at which it comes.
pub record Arrival : Type 0 where
  pub answers : Bool
  pub at : ℕ

-- One more if a request passes, and what the stores that it leaves then give.
abbrev pub passed_after : (Stores → ℕ) → Stores → Limited → ℕ
passed_after rest s (rate_limited seconds) = rest s
passed_after rest s (passed s') = suc (rest s')

-- How many requests of one client on one route pass, each meeting the stores that the one before it
-- left; a refused one leaves them as they were.
abbrev pub passed_of : Request → RateOption → List Arrival → Stores → ℕ
passed_of r option [] s = 0
passed_of r option (a ∷ arrivals) s =
    passed_after (λ t. passed_of r option arrivals t) s (apply_rate_limit a.answers a.at r option s)

-- How many requests the cache answers, and how many fall through to the table.
abbrev pub answered : List Arrival → ℕ
answered [] = 0
answered (a ∷ arrivals) = (if a.answers then 1 else 0) + answered arrivals

abbrev pub fallen : List Arrival → ℕ
fallen [] = 0
fallen (a ∷ arrivals) = (if a.answers then 0 else 1) + fallen arrivals

abbrev pub key_of : Request → Bucket → ℕ → RateKey
key_of r b window = record { bucket = b; identity = identity_for r; window = window }

abbrev pub AllIn : Bucket → ℕ → List Arrival → Type 0
AllIn b w arrivals = All (λ (a : Arrival). a.at / window_seconds b ≡ w) arrivals

module _ (r : Request) (option : RateOption) (b : Bucket) (w : ℕ) where
  passed_cached :
      (arrivals : List Arrival) (cache table : Counts)
      → bucket_for r option ≡ some b
      → AllIn b w arrivals
      → passed_of r option arrivals (record { cache = some cache; table = table })
        ≡ min (answered arrivals) (per_key_max r b - count_at (key_of r b w) cache)
          + min (fallen arrivals) (per_key_max r b - count_at (key_of r b w) table)
  unfolding apply_rate_limit attempt
  passed_cached [] cache table e h = omega arith
  passed_cached (a ∷ arrivals) cache table e h = elim (Bool-cases a.answers) [
    | inl there ↦ elim (Bool-cases (leb (per_key_max r b) (count_at (key_of r b w) cache))) [
      | inl full ↦
          let rest = passed_cached arrivals cache table e h.1 in
          rw (e, h.0, there, full) (ground (arith, rest))
      | inr free ↦
          let n = count_at (key_of r b w) cache in
          let rest = passed_cached arrivals (put_count (key_of r b w) (n + 1) cache) table e h.1 in
          rw (e, h.0, there, free)
            (ground (arith, rest, count-put_self (key_of r b w) (n + 1) cache))
    ]
    | inr gone ↦ elim (Bool-cases (leb (per_key_max r b) (count_at (key_of r b w) table))) [
      | inl full ↦
          let rest = passed_cached arrivals cache table e h.1 in
          rw (e, h.0, gone, full) (ground (arith, rest))
      | inr free ↦
          let n = count_at (key_of r b w) table in
          let rest = passed_cached arrivals cache (put_count (key_of r b w) (n + 1) table) e h.1 in
          rw (e, h.0, gone, free)
            (ground (arith, rest, count-put_self (key_of r b w) (n + 1) table))
    ]
  ]

  passed_uncached :
      (arrivals : List Arrival) (table : Counts)
      → bucket_for r option ≡ some b
      → AllIn b w arrivals
      → passed_of r option arrivals (record { cache = none; table = table })
        ≡ min (length arrivals) (per_key_max r b - count_at (key_of r b w) table)
  unfolding apply_rate_limit attempt
  passed_uncached [] table e h = omega arith
  passed_uncached (a ∷ arrivals) table e h =
      elim (Bool-cases (leb (per_key_max r b) (count_at (key_of r b w) table))) [
        | inl full ↦
            let rest = passed_uncached arrivals table e h.1 in
            rw (e, h.0, full) (ground (arith, rest))
        | inr free ↦
            let n = count_at (key_of r b w) table in
            let rest = passed_uncached arrivals (put_count (key_of r b w) (n + 1) table) e h.1 in
            rw (e, h.0, free) (ground (arith, rest, count-put_self (key_of r b w) (n + 1) table))
      ]

  -- Of any sequence of one client's requests on one route that is limited, all in one window, each
  -- meeting the stores as the one before left them: of those that the cache answers exactly as many
  -- pass as its count is short of the limit, or all if they are fewer, and of those that fall back to
  -- the table as many as the table's count is short of it, or all; without a cache the table decides
  -- on all of them in that way.
  pub passed_of_lem :
      (arrivals : List Arrival) (cache table : Counts)
      → bucket_for r option ≡ some b
      → AllIn b w arrivals
      → (passed_of r option arrivals (record { cache = some cache; table = table })
          ≡ min (answered arrivals) (per_key_max r b - count_at (key_of r b w) cache)
            + min (fallen arrivals) (per_key_max r b - count_at (key_of r b w) table))
        × (passed_of r option arrivals (record { cache = none; table = table })
            ≡ min (length arrivals) (per_key_max r b - count_at (key_of r b w) table))
  passed_of_lem arrivals cache table e h =
      (passed_cached arrivals cache table e h, passed_uncached arrivals table e h)
