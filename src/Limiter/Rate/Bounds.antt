-- ===== src/Limiter/Rate/Bounds.antt =====
-- What every request keeps of the limiter: a bound on its memory.
use inkmail.Base.{
  ℕ, ◌≤◌, ◌≡◌, ◌≢◌, [], ◌∷◌, none, arith, length, Bytes, same_iff, Option-cases, inl, inr,
}
use inkmail.Base.Map
use inkmail.Base.Map.{Map}
use inkmail.Limits.{Limits}
use inkmail.Limiter.Oldest.{evict_oldest, length-evict_oldest, get-evict_oldest-none}
use inkmail.Limiter.Requests.{named}
use inkmail.Limiter.Rate.{
  Bucket, Buckets, capacity, rate, spend, fresh, admit, allow_named, allow, max_tracked_identities,
}

pub named_proper : (identity : Bytes) → named identity ≢ []
named_proper [] = λ e. cc
named_proper (c ∷ cs) = λ e. cc

-- The map's keys are proper names, and there are at most 4096.
pub record Inv (buckets : Buckets) : Type 0 where
  pub proper : Map.get [] buckets ≡ none
  pub bounded : length buckets ≤ max_tracked_identities

module _ (nearest : ℕ → ℕ → ℕ) where
  allow_named-Inv :
      (identity : Bytes) (now : ℕ) (limits : Limits) (buckets : Buckets)
      → identity ≢ []
      → Inv buckets
      → Inv (allow_named nearest identity now limits buckets).0
  unfolding allow_named admit
  allow_named-Inv identity now limits buckets proper v =
      elim (Option-cases (Map.get identity buckets)) [
        | inr (b, e) ↦
            let b' =
              (spend nearest (capacity nearest limits identity) (rate nearest limits identity) now
                b).0 in
            ground (
              arith,
              same_iff [] identity,
              Map.get-put [] identity b' buckets,
              Map.length-put identity b' buckets,
            )
        | inl e ↦
            let b' =
              (spend nearest (capacity nearest limits identity) (rate nearest limits identity) now
                (fresh (capacity nearest limits identity) now)).0 in
            let evicted = evict_oldest (λ (b : Bucket). b.last_seen) buckets in
            ground (
              arith,
              same_iff [] identity,
              Map.get-put [] identity b' buckets,
              Map.get-put [] identity b' evicted,
              Map.length-put identity b' buckets,
              Map.length-put identity b' evicted,
              get-evict_oldest-none (λ (b : Bucket). b.last_seen) [] buckets,
              get-evict_oldest-none (λ (b : Bucket). b.last_seen) identity buckets,
              length-evict_oldest (λ (b : Bucket). b.last_seen) buckets,
            )
      ]

  -- Every request keeps the number of tracked identities within its bound, and tracks nothing under
  -- the empty text.
  pub allow-Inv :
      (identity : Bytes) (now : ℕ) (limits : Limits) (buckets : Buckets)
      → Inv buckets
      → Inv (allow nearest identity now limits buckets).0
  unfolding allow
  allow-Inv identity now limits buckets v =
      allow_named-Inv (named identity) now limits buckets (named_proper identity) v
