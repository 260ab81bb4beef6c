-- ===== src/Limiter/Oldest.antt =====
-- `evictOldest`, which `requestLimiter` and `handshakeLimiter` both have. Go visits a map in any order;
-- here the order is that of the association list, so a theorem for every list covers every order.
use inkmail.Base.{
  ℕ, suc, ◌≤◌, ◌<◌, ◌≡◌, ◌≢◌, refl, ◌||◌, [], ◌∷◌, none, arith, Bytes, same, same_iff, ltb,
  if◌then◌else◌, length, Option-cases, inl, inr, Bool-cases, ◌⊎◌,
}
use inkmail.Base.Map
use inkmail.Base.Map.{Map}

module _ {V : Type 0} (last_seen : V → ℕ) where
  -- The loop: the name and the time of the oldest entry so far, the empty name before the first.
  pub oldest_from : Bytes → ℕ → Map V → Bytes
  oldest_from name seen [] = name
  oldest_from name seen ((k, v) ∷ m) =
      let older = same name [] || ltb (last_seen v) seen in
      oldest_from (if older then k else name) (if older then last_seen v else seen) m

  unfoldable pub evict_oldest : Map V → Map V
  unfolding oldest_from
  evict_oldest m = Map.del (oldest_from [] 0 m) m

  oldest_from-present :
      (name : Bytes) (seen : ℕ) (m : Map V)
      → Map.get [] m ≡ none
      → name ≢ []
      → (oldest_from name seen m ≡ name) ⊎ (Map.get (oldest_from name seen m) m ≢ none)
  unfolding oldest_from
  oldest_from-present name seen [] e h = inl refl
  oldest_from-present name seen ((k, v) ∷ m) e h = elim (Bool-cases (ltb (last_seen v) seen)) [
    | inl older ↦ ground (
      arith,
      same_iff name [],
      same_iff [] k,
      oldest_from-present k (last_seen v) m,
      same_iff (oldest_from k (last_seen v) m) k,
    )
    | inr not_older ↦ ground (
      arith,
      same_iff name [],
      same_iff [] k,
      oldest_from-present name seen m,
      same_iff (oldest_from name seen m) k,
    )
  ]

  oldest_present :
      (m : Map V) → Map.get [] m ≡ none → 0 < length m → Map.get (oldest_from [] 0 m) m ≢ none
  unfolding oldest_from same
  oldest_present [] e h = absurd (omega arith)
  oldest_present ((k, v) ∷ m) e h = ground (
    arith,
    same_iff [] k,
    same_iff (oldest_from k (last_seen v) m) k,
    oldest_from-present k (last_seen v) m,
  )

  -- When every key is a proper name, an eviction removes an entry.
  pub length-evict_oldest :
      (m : Map V) → Map.get [] m ≡ none → 0 < length m → suc (length (evict_oldest m)) ≤ length m
  unfolding evict_oldest
  length-evict_oldest m e h = elim (Option-cases (Map.get (oldest_from [] 0 m) m)) [
    | inl missing ↦ absurd (oldest_present m e h missing)
    | inr (v, found) ↦ Map.length-del_present _ v m found
  ]

  pub length-evict_oldest-le : (m : Map V) → length (evict_oldest m) ≤ length m
  unfolding evict_oldest
  length-evict_oldest-le m = Map.length-del-le _ m

  -- No eviction brings a key in.
  pub get-evict_oldest-none :
      (k : Bytes) (m : Map V) → Map.get k m ≡ none → Map.get k (evict_oldest m) ≡ none
  unfolding evict_oldest
  get-evict_oldest-none k m e = ground (arith, Map.get-del k (oldest_from [] 0 m) m)
