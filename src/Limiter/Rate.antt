-- ===== src/Limiter/Rate.antt =====
-- `requestLimiter`: a token bucket for each identity. Times are nanoseconds. The program's tokens are of
-- type float64. A double that is not negative is a whole number of units of 2^-1074, and so stands here as
-- that number. The rounding of IEEE 754 is the parameter `nearest`: `nearest n d` is the double nearest to
-- n / d units. No value here is large enough to be infinite.
pub mod Credit
pub mod Bounds
pub mod Steps
pub mod Budget
use inkmail.Base.{
  ℕ, ◌+◌, ◌-◌, ◌*◌, ◌/◌, ◌%◌, ◌^◌, ◌≤◌, ◌≡◌, Bool, true, false, [], ◌∷◌, Option, none, some, ltb,
  leb, min, if◌then◌else◌, Bytes, codes, has_prefix, length,
}
use inkmail.Base.Map
use inkmail.Base.Map.{Map}
use inkmail.Limits.{Limits}
use inkmail.Limiter.Oldest.{evict_oldest}
use inkmail.Limiter.Requests.{named}

abbrev pub max_tracked_identities : ℕ
max_tracked_identities = 4096

-- 1.0
pub one : ℕ
one = 2 ^ 1074

-- What the Go specification and IEEE 754 promise of rounding: it keeps the order, and the whole numbers up to
-- 2^53 are doubles.
pub record Ieee (nearest : ℕ → ℕ → ℕ) : Type 0 where
  pub monotone : (m n d : ℕ) → m ≤ n → nearest m d ≤ nearest n d
  pub exact : (n : ℕ) → n ≤ 2 ^ 53 → nearest (n * one) 1 ≡ n * one

pub record Bucket : Type 0 where
  pub tokens : ℕ
  pub updated : ℕ
  pub last_seen : ℕ

abbrev pub Buckets : Type 0
Buckets = Map Bucket

-- A source address has four times the budget of an identity.
unfoldable pub factor : Bytes → ℕ
factor identity = if has_prefix identity (codes "source:") then 4 else 1

-- The longest `time.Duration`, at which `Sub` stops.
abbrev longest : ℕ
longest = 9223372036854775807

module _ (nearest : ℕ → ℕ → ℕ) where
  -- `float64(n)`
  unfoldable pub of_int : ℕ → ℕ
  of_int n = nearest (n * one) 1

  abbrev scaled : Bytes → ℕ → ℕ
  scaled identity x = if has_prefix identity (codes "source:") then nearest (4 * x) 1 else x

  unfoldable pub capacity : Limits → Bytes → ℕ
  unfolding of_int
  capacity limits identity = scaled identity (of_int limits.request_burst)

  unfoldable pub rate : Limits → Bytes → ℕ
  unfolding of_int
  rate limits identity = scaled identity (of_int limits.requests_per_minute)

  -- `Duration.Seconds`: the whole seconds and the nanoseconds divided by 1e9.
  unfoldable pub seconds : ℕ → ℕ
  unfolding of_int
  seconds elapsed =
      nearest (of_int (elapsed / 1000000000) + nearest (of_int (elapsed % 1000000000)) 1000000000) 1

  -- `elapsed * requestsPerMinute / 60`
  unfoldable pub credit : ℕ → ℕ → ℕ
  unfolding seconds
  credit per_minute elapsed = nearest (nearest (seconds elapsed * per_minute) one) 60

  unfoldable pub refilled : ℕ → ℕ → ℕ → Bucket → ℕ
  refilled cap per_minute now b =
      let elapsed = min (now - b.updated) longest in
      if ltb 0 elapsed then min cap (nearest (b.tokens + credit per_minute elapsed) 1) else b.tokens

  abbrev stamped : ℕ → ℕ → Bucket
  stamped tokens now = record { tokens = tokens; updated = now; last_seen = now }

  unfoldable pub spend : ℕ → ℕ → ℕ → Bucket → Bucket × Bool
  spend cap per_minute now b =
      let tokens = refilled cap per_minute now b in
      if ltb tokens one
      then (stamped tokens now, false)
      else (stamped (nearest (tokens - one) 1) now, true)

abbrev fresh : ℕ → ℕ → Bucket
fresh cap now = record { tokens = cap; updated = now; last_seen = 0 }

-- The map and the bucket before the request: a new identity may evict the oldest one.
pub admit : ℕ → ℕ → Bytes → Buckets → Buckets × Bucket
unfolding evict_oldest
admit cap now identity buckets = elim (Map.get identity buckets) [
  | some b ↦ (buckets, b)
  | none ↦ (
    if leb max_tracked_identities (length buckets)
        then evict_oldest (λ b. b.last_seen) buckets
        else buckets,
    fresh cap now,
  )
]

module _ (nearest : ℕ → ℕ → ℕ) where
  allow_named : Bytes → ℕ → Limits → Buckets → Buckets × Bool
  allow_named identity now limits buckets =
      let cap = capacity nearest limits identity in
      let (kept, b) = admit cap now identity buckets in
      let (b', allowed) = spend nearest cap (rate nearest limits identity) now b in
      (Map.put identity b' kept, allowed)

  -- `allowWithLimits`, and `allow` at the configured limits.
  pub allow : Bytes → ℕ → Limits → Buckets → Buckets × Bool
  unfolding allow_named
  allow identity now limits buckets = allow_named (named identity) now limits buckets
