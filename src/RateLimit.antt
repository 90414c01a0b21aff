-- ===== src/RateLimit.antt =====
-- Rate limiting (src/services/ratelimit.js). The clock's seconds are an argument. The cache and the table
-- are maps from keys to counts, read as their last write left them; what expires has another window.
use meet_millions_finance.Prelude.{
  ltb, leb, ◌==◌, if◌then◌else◌, ltb→lt, leb→le, ==_iff, ==_refl, Bool-cases, Option-cases, or_else,
  is_some, Eq, nat_eq, beq_of, beq_of_iff, length, filter, any, All, length-append, length-filter,
  contains, sum_by, sum_by-append, All-imp, All-and, All-append, ℕ, zero, suc, ◌+◌, ◌-◌, ◌*◌, ◌/◌,
  ◌%◌, ◌^◌, ◌≤◌, ◌<◌, max, min, String, ◌≡◌, refl, sym, ap, ap₂, ◌∙◌, ◌≢◌, ◌↔◌, ◌⊎◌, inl, inr, Bool,
  true, false, not, ◌&&◌, ◌||◌, Option, none, some, List, [], ◌∷◌, ◌++◌, map, foldl, arith,
}
pub mod Quota

-- The keys of `RATE_LIMITS`, and any other name a route may give.
pub data Bucket : Type 0 where
  auth_login auth_register auth_forgot auth_twofa documents_upload webhook api default_bucket :
      Bucket
  named : ℕ → Bucket

-- The entries' `max`; a name that is not there has the default's.
abbrev pub max_of : Bucket → ℕ
max_of auth_login = 10
max_of auth_register = 5
max_of auth_forgot = 5
max_of auth_twofa = 10
max_of documents_upload = 60
max_of webhook = 600
max_of api = 120
max_of _ = 300

-- The entries' `windowSeconds`.
abbrev pub window_seconds : Bucket → ℕ
window_seconds auth_login = 300
window_seconds auth_register = 3600
window_seconds auth_forgot = 3600
window_seconds auth_twofa = 300
window_seconds _ = 60

-- The option `rateLimit` of a route.
pub data RateOption : Type 0 where
  unset switched_off : RateOption
  explicit : Bucket → RateOption

pub data Identity : Type 0 where
  key user ip : ℕ → Identity

-- The names and identities as they are told apart in the text of a key.
abbrev pub bucket_tag : Bucket → ℕ
bucket_tag auth_login = 0
bucket_tag auth_register = 1
bucket_tag auth_forgot = 2
bucket_tag auth_twofa = 3
bucket_tag documents_upload = 4
bucket_tag webhook = 5
bucket_tag api = 6
bucket_tag default_bucket = 7
bucket_tag (named n) = 8 + n

abbrev pub identity_eq : Identity → Identity → Bool
identity_eq (key a) (key b) = a == b
identity_eq (user a) (user b) = a == b
identity_eq (ip a) (ip b) = a == b
identity_eq _ _ = false

-- What of a request the limiter reads: its API key with the key's own limit, its user, its address,
-- and whether its path is that of a webhook.
pub record Request : Type 0 where
  pub api_key : Option (ℕ × Option ℕ)
  pub user_id : Option ℕ
  pub address : ℕ
  pub is_webhook_path : Bool

-- `bucketFor`.
unfoldable pub bucket_for : Request → RateOption → Option Bucket
bucket_for r switched_off = none
bucket_for r (explicit b) = some b
bucket_for r unset =
    if r.is_webhook_path
    then some webhook
    else if is_some r.api_key
    then some api
    else some default_bucket

-- `identityFor`.
unfoldable pub identity_for : Request → Identity
identity_for r = elim r.api_key [
  | some (k, limit) ↦ key k
  | none ↦ elim r.user_id [ some u ↦ user u | none ↦ ip r.address ]
]

-- `ctx.apiKey?.rate_limit_per_min ?? config.max`.
unfoldable pub per_key_max : Request → Bucket → ℕ
per_key_max r b = elim r.api_key [ none ↦ max_of b | some (k, limit) ↦ or_else limit (max_of b) ]

-- `rl:${bucket}:${identity}:${window}`.
pub record RateKey : Type 0 where
  pub bucket : Bucket
  pub identity : Identity
  pub window : ℕ

abbrev pub key_eq : RateKey → RateKey → Bool
key_eq j k =
    bucket_tag j.bucket == bucket_tag k.bucket
    && identity_eq j.identity k.identity
    && j.window == k.window

abbrev pub Counts : Type 0
Counts = List (RateKey × ℕ)

-- The stored count, nil where there is none.
unfoldable pub count_at : RateKey → Counts → ℕ
count_at k [] = 0
count_at k ((j, n) ∷ m) = if key_eq k j then n else count_at k m

unfoldable pub put_count : RateKey → ℕ → Counts → Counts
put_count k n [] = (k, n) ∷ []
put_count k n ((j, o) ∷ m) = if key_eq k j then (j, n) ∷ m else (j, o) ∷ put_count k n m

-- One attempt against a store: refused at the limit, else counted.
pub data Attempt : Type 0 where
  admitted : Counts → Attempt
  refused : Attempt

unfoldable pub attempt : ℕ → RateKey → Counts → Attempt
attempt limit k m =
    if leb limit (count_at k m) then refused else admitted (put_count k (count_at k m + 1) m)

-- The two stores: the cache, which may not be configured, and the table.
pub record Stores : Type 0 where
  pub cache : Option Counts
  pub table : Counts

-- What a request meets: the stores after it, or an error for the seconds of the window.
pub data Limited : Type 0 where
  passed : Stores → Limited
  rate_limited : ℕ → Limited

abbrev pub with_cache : ℕ → Stores → Attempt → Limited
with_cache seconds s (admitted m) = passed (record s { cache = some m })
with_cache seconds s refused = rate_limited seconds

abbrev pub with_table : ℕ → Stores → Attempt → Limited
with_table seconds s (admitted m) = passed (record s { table = m })
with_table seconds s refused = rate_limited seconds

-- The choice of store: the cache where there is one and it answers, else the table.
abbrev pub spend : Bool → ℕ → ℕ → RateKey → Option Counts → Stores → Limited
spend answers limit seconds k (some m) s =
    if answers
    then with_cache seconds s (attempt limit k m)
    else with_table seconds s (attempt limit k s.table)
spend answers limit seconds k none s = with_table seconds s (attempt limit k s.table)

abbrev pub apply_at : Bool → ℕ → Request → Option Bucket → Stores → Limited
apply_at answers now r none s = passed s
apply_at answers now r (some b) s =
    spend answers (per_key_max r b) (window_seconds b)
      (record { bucket = b; identity = identity_for r; window = now / window_seconds b }) s.cache s

-- `applyRateLimit`, at a time in seconds.
unfoldable pub apply_rate_limit : Bool → ℕ → Request → RateOption → Stores → Limited
apply_rate_limit answers now r option s = apply_at answers now r (bucket_for r option) s

-- `consumeAttempt`: the cache is asked where there is one, and its failure is the request's.
unfoldable pub consume_attempt : ℕ → Bucket → Identity → Stores → Limited
consume_attempt now b who s =
    spend true (max_of b) (window_seconds b)
      (record { bucket = b; identity = who; window = now / window_seconds b }) s.cache s
