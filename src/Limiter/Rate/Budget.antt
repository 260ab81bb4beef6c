-- ===== src/Limiter/Rate/Budget.antt =====
-- The budget of one identity over a history of requests by many, whatever the rounding.
use inkmail.Base.{
  ℕ, zero, suc, ◌+◌, ◌*◌, ◌^◌, ◌≤◌, ◌≡◌, List, [], ◌∷◌, some, arith, if◌then◌else◌, length, map,
  Bytes, codes, has_prefix, same, same_iff, Option-cases, Bool-cases, inl, inr, ok, sym, ◌∙◌,
}
use inkmail.Base.Map
use inkmail.Base.Map.{Map}
use inkmail.Limits.{Limits, validate}
use inkmail.Limits.Accepts.{validate_iff}
use inkmail.Limiter.Requests.{named}
use inkmail.Limiter.Rate.{
  Bucket, Buckets, Ieee, one, of_int, capacity, refilled, spend, fresh, allow,
  max_tracked_identities,
}
use inkmail.Limiter.Rate.Steps.{cap, r, own_some, own_none, other}
use inkmail.Limiter.Rate.Credit.{nearest-le, spend_pays}

module _ (nearest : ℕ → ℕ → ℕ) where
  -- The requests of a history that were granted to one identity.
  pub granted : Bytes → Limits → List (Bytes × ℕ) → Buckets → ℕ
  granted id limits [] bs = 0
  granted id limits ((k, now) ∷ calls) bs =
      let (bs', allowed) = allow nearest k now limits bs in
      (if same (named k) id then (if allowed then 1 else 0) else 0) + granted id limits calls bs'

-- Requests at one time.
abbrev pub at_once : ℕ → List Bytes → List (Bytes × ℕ)
at_once now ks = map (λ k. (k, now)) ks

module _ (nearest : ℕ → ℕ → ℕ) (id : Bytes) (limits : Limits) where
  no_time :
      (now m : ℕ) (b : Bucket)
      → b.updated ≡ now
      → b.tokens ≤ m * one
      → refilled nearest (cap nearest id limits) (r nearest id limits) now b ≤ m * one
  unfolding refilled
  no_time now m b e h = ground arith

  refilled-le :
      (law : Ieee nearest) (now n : ℕ) (b : Bucket)
      → cap nearest id limits ≤ n * one
      → b.tokens ≤ cap nearest id limits
      → refilled nearest (cap nearest id limits) (r nearest id limits) now b ≤ n * one
  unfolding refilled
  refilled-le law now n b c h = ground arith

  -- The identity's bucket, if it has one, is within its capacity.
  abbrev Fits : Buckets → Type 0
  Fits bs = (b : Bucket) → Map.get id bs ≡ some b → b.tokens ≤ cap nearest id limits

  -- A bucket that no time refills pays for what is granted from its tokens.
  granted-some :
      (law : Ieee nearest) (now n : ℕ) (ks : List Bytes) (bs : Buckets) (b : Bucket)
      → n ≤ 2 ^ 53
      → length bs + length ks ≤ max_tracked_identities
      → Map.get id bs ≡ some b
      → refilled nearest (cap nearest id limits) (r nearest id limits) now b ≤ n * one
      → granted nearest id limits (at_once now ks) bs ≤ n
  unfolding granted
  granted-some law now n [] bs b small room e h = omega arith
  granted-some law now n (k ∷ ks) bs b small room e h = elim (Bool-cases (same (named k) id)) [
    | inl own ↦
        let (b', allowed) = spend nearest (cap nearest id limits) (r nearest id limits) now b in
        let (m, paid, left, stamp) =
          spend_pays nearest law (cap nearest id limits) (r nearest id limits) now n b small h in
        let again : refilled nearest (cap nearest id limits) (r nearest id limits) now b'
            ≤ m * one =
          no_time now m b' stamp left in
        rw (own, own_some nearest id limits k now bs b ((same_iff _ _).0 own) e)
          (ground (
            arith,
            granted-some law now m ks (Map.put id b' bs) b',
            Map.get-put id id b' bs,
            same_iff id id,
            Map.length-put id b' bs,
          ))
    | inr foreign ↦ rw foreign (
        ground (
          arith,
          other nearest id limits k now bs foreign,
          granted-some law now n ks (allow nearest k now limits bs).0 b small,
        ))
  ]

  granted_within :
      (law : Ieee nearest) (now n : ℕ) (ks : List Bytes) (bs : Buckets)
      → n ≤ 2 ^ 53
      → cap nearest id limits ≤ n * one
      → length bs + length ks ≤ max_tracked_identities
      → Fits bs
      → granted nearest id limits (at_once now ks) bs ≤ n
  unfolding granted
  granted_within law now n [] bs small c room fits = omega arith
  granted_within law now n (k ∷ ks) bs small c room fits = elim (Option-cases (Map.get id bs)) [
    | inr (b, e) ↦
        granted-some law now n (k ∷ ks) bs b small room e (refilled-le law now n b c (fits b e))
    | inl e ↦ elim (Bool-cases (same (named k) id)) [
      | inl own ↦
          let b = fresh (cap nearest id limits) now in
          let (b', allowed) = spend nearest (cap nearest id limits) (r nearest id limits) now b in
          let (m, paid, left, stamp) =
            spend_pays nearest law (cap nearest id limits) (r nearest id limits) now n b small
              (refilled-le law now n b c (omega arith)) in
          let again : refilled nearest (cap nearest id limits) (r nearest id limits) now b'
              ≤ m * one =
            no_time now m b' stamp left in
          rw (own, own_none nearest id limits k now bs ((same_iff _ _).0 own) e (omega arith))
            (ground (
              arith,
              granted-some law now m ks (Map.put id b' bs) b',
              Map.get-put id id b' bs,
              same_iff id id,
              Map.length-put id b' bs,
            ))
      | inr foreign ↦
          let same_bucket = other nearest id limits k now bs foreign (omega arith) in
          let rest =
            granted_within law now n ks (allow nearest k now limits bs).0 small c (omega arith)
              (λ b q. fits b (sym same_bucket.0 ∙ q)) in
          rw foreign (ground arith)
    ]
  ]

-- How many tokens the capacity is.
abbrev pub burst : Limits → Bytes → ℕ
burst limits id =
    if has_prefix id (codes "source:") then 4 * limits.request_burst else limits.request_burst

module _ (nearest : ℕ → ℕ → ℕ) (law : Ieee nearest) where
  capacity-le :
      (limits : Limits) (id : Bytes)
      → limits.request_burst ≤ 10000
      → capacity nearest limits id ≤ burst limits id * one
  unfolding capacity of_int
  capacity-le limits id small =
      let n = limits.request_burst in
      let first = nearest-le nearest law n (n * one) (omega arith) (omega arith) in
      let four : 4 * nearest (n * one) 1 ≤ (4 * n) * one = grind arith in
      let second = nearest-le nearest law (4 * n) (4 * nearest (n * one) 1) (omega arith) four in
      ground arith

  -- With limits that `Validate` accepts, however the requests of all identities are mixed: at any one time an
  -- identity is granted no more requests than its burst, which for the address of a source is four times as
  -- large. This is for requests in which no bucket is evicted, since the tracked identities and the requests
  -- together are at most 4096, an identity whose bucket, if any, starts within its capacity, and floating
  -- point arithmetic that keeps the order and the whole numbers up to 2^53.
  pub burst_bound :
      (id : Bytes) (limits : Limits) (now : ℕ) (ks : List Bytes) (bs : Buckets)
      → validate limits ≡ ok tt
      → length bs + length ks ≤ max_tracked_identities
      → ((b : Bucket) → Map.get id bs ≡ some b → b.tokens ≤ capacity nearest limits id)
      → granted nearest id limits (at_once now ks) bs ≤ burst limits id
  unfolding cap r
  burst_bound id limits now ks bs valid room fits =
      let small = ((validate_iff limits).0 valid).0.request_burst.1 in
      let bounded : burst limits id ≤ 2 ^ 53 = ground arith in
      granted_within nearest id limits law now (burst limits id) ks bs bounded
        (capacity-le limits id small) room fits

abbrev pub repeat : ℕ → Bytes × ℕ → List (Bytes × ℕ)
repeat zero c = []
repeat (suc n) c = c ∷ repeat n c

-- `maxSessionRequests`
abbrev pub max_session_requests : ℕ
max_session_requests = 256 + 16
