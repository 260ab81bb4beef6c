-- ===== src/Peers/Directory/Capacity.antt =====
-- How an upsert and an update of an alias change what a test counts.
use inkmail.Base.{
  ℕ, ◌+◌, ◌≤◌, ◌<◌, ◌≡◌, refl, Bool, true, false, not, ◌&&◌, List, [], ◌∷◌, none, some,
  if◌then◌else◌, Bytes, equal_fold, length, keep, arith, Bool-cases, inl, inr,
}
use inkmail.Peers.Directory.{
  PeerIdentity, is_peer, has_alias, holds_alias, upsert_peer, write_alias, find_peer,
}

-- How many rows pass a test.
abbrev pub count : (PeerIdentity → Bool) → List PeerIdentity → ℕ
count q ps = length (keep q ps)

abbrev pub one_if : Bool → ℕ
one_if b = if b then 1 else 0

module _ (fresh : PeerIdentity) (update : PeerIdentity → PeerIdentity) (q : PeerIdentity → Bool)
    (stable : (p : PeerIdentity) → q (update p) ≡ q p) where
  pub count-upsert_new :
      (ps : List PeerIdentity)
      → count (is_peer fresh.namespace fresh.public_key) ps ≡ 0
      → count q (upsert_peer fresh update ps) ≡ count q ps + one_if (q fresh)
  unfolding upsert_peer
  count-upsert_new [] h = ground arith
  count-upsert_new (p ∷ ps) h = elim (Bool-cases (is_peer fresh.namespace fresh.public_key p)) [
    | inl e ↦ absurd (ground arith)
    | inr e ↦ rw (e, upsert_peer) (ground (arith, count-upsert_new ps (rw e at h)))
  ]

  pub count-upsert_known :
      (ps : List PeerIdentity)
      → 0 < count (is_peer fresh.namespace fresh.public_key) ps
      → count q (upsert_peer fresh update ps) ≡ count q ps
  unfolding upsert_peer
  count-upsert_known [] h = absurd (omega arith)
  count-upsert_known (p ∷ ps) h = elim (Bool-cases (is_peer fresh.namespace fresh.public_key p)) [
    | inl e ↦ rw (e, upsert_peer) (ground (arith, stable p))
    | inr e ↦ rw (e, upsert_peer) (ground (arith, count-upsert_known ps (rw e at h)))
  ]

count-and-le :
    (q r : PeerIdentity → Bool) (ps : List PeerIdentity) → count (λ x. q x && r x) ps ≤ count q ps
count-and-le q r [] = omega arith
count-and-le q r (x ∷ ps) = ground (arith, count-and-le q r ps)

module _ (q r : PeerIdentity → Bool) (p : PeerIdentity) where
  -- The row that is found is one of those that pass.
  pub find_peer-passes : (ps : List PeerIdentity) → find_peer q ps ≡ some p → q p ≡ true
  unfolding find_peer
  find_peer-passes [] h = absurd (ground arith)
  find_peer-passes (x ∷ ps) h = elim (Bool-cases (q x)) [
    | inl e ↦ ground arith
    | inr e ↦ ground (arith, find_peer-passes ps)
  ]

  pub find_peer-count :
      (ps : List PeerIdentity)
      → find_peer q ps ≡ some p
      → r p ≡ true
      → count (λ x. q x && not (r x)) ps + 1 ≤ count q ps
  unfolding find_peer
  find_peer-count [] h k = absurd (ground arith)
  find_peer-count (x ∷ ps) h k = elim (Bool-cases (q x)) [
    | inl e ↦
        let eq : r x ≡ true = ground arith in ground (arith, count-and-le q (λ y. not (r y)) ps)
    | inr e ↦ ground (arith, find_peer-count ps)
  ]

pub find_peer-none :
    (q : PeerIdentity → Bool) (ps : List PeerIdentity) → find_peer q ps ≡ none → count q ps ≡ 0
unfolding find_peer
find_peer-none q [] h = refl
find_peer-none q (x ∷ ps) h = ground (arith, find_peer-none q ps)

module _ (namespace key alias : Bytes) where
  -- A test that does not read the alias.
  pub count-write_alias :
      (q : PeerIdentity → Bool) (stable : (p : PeerIdentity) → q (record p { alias = alias }) ≡ q p)
      (ps : List PeerIdentity)
      → count q (write_alias namespace key alias ps) ≡ count q ps
  unfolding write_alias
  count-write_alias q stable [] = refl
  count-write_alias q stable (p ∷ ps) = ground (arith, stable p, count-write_alias q stable ps)

  -- The rows with the new alias, when no other row had it.
  pub count-write_alias_new :
      (a : Bytes)
      → equal_fold alias a ≡ true
      → (ps : List PeerIdentity)
      → count (has_alias a) (write_alias namespace key alias ps)
        ≡ count (is_peer namespace key) ps + count (holds_alias namespace key a) ps
  unfolding write_alias
  count-write_alias_new a h [] = refl
  count-write_alias_new a h (p ∷ ps) = ground (arith, count-write_alias_new a h ps)

  pub count-write_alias_other :
      (a : Bytes)
      → equal_fold alias a ≡ false
      → (ps : List PeerIdentity)
      → count (has_alias a) (write_alias namespace key alias ps) ≤ count (has_alias a) ps
  unfolding write_alias
  count-write_alias_other a h [] = omega arith
  count-write_alias_other a h (p ∷ ps) = ground (arith, count-write_alias_other a h ps)
