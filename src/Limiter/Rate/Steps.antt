-- ===== src/Limiter/Rate/Steps.antt =====
-- What one request does to the bucket of an identity, without an eviction.
use inkmail.Base.{
  ℕ, suc, ◌≤◌, ◌<◌, ◌≡◌, false, none, some, arith, leb, length, Bytes, same, same_iff,
}
use inkmail.Base.Map
use inkmail.Base.Map.{Map}
use inkmail.Limits.{Limits}
use inkmail.Limiter.Requests.{named}
use inkmail.Limiter.Rate.{
  Bucket, Buckets, capacity, rate, spend, fresh, admit, allow_named, allow, max_tracked_identities,
}

admit-some :
    (cap now : ℕ) (k : Bytes) (bs : Buckets) (b : Bucket)
    → Map.get k bs ≡ some b
    → admit cap now k bs ≡ (bs, b)
unfolding admit
admit-some cap now k bs b h = rw (h, admit)

admit-none :
    (cap now : ℕ) (k : Bytes) (bs : Buckets)
    → Map.get k bs ≡ none
    → length bs < max_tracked_identities
    → admit cap now k bs ≡ (bs, fresh cap now)
unfolding admit
admit-none cap now k bs h room =
    let full : leb max_tracked_identities (length bs) ≡ false = ground arith in
    rw (h, admit) (rw full)

admit_room :
    (cap now : ℕ) (k : Bytes) (bs : Buckets)
    → length bs < max_tracked_identities
    → (admit cap now k bs).0 ≡ bs
unfolding admit
admit_room cap now k bs h = ground arith

module _ (nearest : ℕ → ℕ → ℕ) (id : Bytes) (limits : Limits) where
  unfoldable pub cap : ℕ
  cap = capacity nearest limits id

  unfoldable pub r : ℕ
  r = rate nearest limits id

  -- A request of the identity, without an eviction.
  pub own_some :
      (k : Bytes) (now : ℕ) (bs : Buckets) (b : Bucket)
      → named k ≡ id
      → Map.get id bs ≡ some b
      → let (b', allowed) = spend nearest cap r now b in
        allow nearest k now limits bs ≡ (Map.put id b' bs, allowed)
  unfolding allow allow_named cap r
  own_some k now bs b e h = rw (e, admit-some (capacity nearest limits id) now id bs b h)

  pub own_none :
      (k : Bytes) (now : ℕ) (bs : Buckets)
      → named k ≡ id
      → Map.get id bs ≡ none
      → length bs < max_tracked_identities
      → let (b', allowed) = spend nearest cap r now (fresh cap now) in
        allow nearest k now limits bs ≡ (Map.put id b' bs, allowed)
  unfolding allow allow_named cap r
  own_none k now bs e h room = rw (e, admit-none (capacity nearest limits id) now id bs h room)

  pub other :
      (k : Bytes) (now : ℕ) (bs : Buckets)
      → same (named k) id ≡ false
      → length bs < max_tracked_identities
      → (Map.get id (allow nearest k now limits bs).0 ≡ Map.get id bs)
        × (length (allow nearest k now limits bs).0 ≤ suc (length bs))
  unfolding allow allow_named
  other k now bs e room =
      let cap' = capacity nearest limits (named k) in
      let (kept, b) = admit cap' now (named k) bs in
      let b' = (spend nearest cap' (rate nearest limits (named k)) now b).0 in
      ground (
        arith,
        admit_room cap' now (named k) bs room,
        same_iff id (named k),
        same_iff (named k) id,
        Map.get-put id (named k) b' bs,
        Map.length-put (named k) b' bs,
      )
