-- ===== src/Peers/Directory/Aliases.antt =====
-- The invariants of the table of peers: one row for each identity, one peer for each alias, and the quota; and
-- what an alias names.
use inkmail.Base.{
  ℕ, ◌≤◌, ◌<◌, ◌≡◌, ◌≢◌, refl, sym, true, false, not, ◌||◌, List, [], ◌∷◌, Option, some, Bytes,
  same, same_iff, equal_fold, map, to_lower, length, ltb, ◌==◌, arith, Bool-cases, inl, inr, ap,
  ◌∙◌, ok, bind-ok, reject_if-ok, keep_all,
}
use inkmail.Hex.{decode_hex}
use inkmail.Peers.Directory.{
  PeerIdentity, is_peer, has_alias, has_size, ensure_capacity, upsert_peer, identity_row,
  refresh_identity, refresh_contact, record_peer_identity, record_peer_contact,
  invalid_peer_mailbox, invalid_key_size,
}
use inkmail.Peers.Directory.Capacity.{count, count-upsert_new, count-upsert_known}

pub record IsRegistry (limit : ℕ) (ps : List PeerIdentity) : Type 0 where
  pub distinct : (namespace key : Bytes) → count (is_peer namespace key) ps ≤ 1
  pub aliases : (a : Bytes) → a ≢ [] → count (has_alias a) ps ≤ 1
  pub within : length ps ≤ limit

pub equal_fold_join :
    (x y z : Bytes) → equal_fold x z ≡ true → equal_fold y z ≡ true → equal_fold x y ≡ true
unfolding equal_fold
equal_fold_join x y z p q = (same_iff (map to_lower x) (map to_lower y)).1 (
    (same_iff (map to_lower x) (map to_lower z)).0 p
    ∙ sym ((same_iff (map to_lower y) (map to_lower z)).0 q))

pub equal_fold_empty : (a : Bytes) → a ≢ [] → equal_fold [] a ≡ false
unfolding equal_fold same
equal_fold_empty [] h = absurd (h refl)
equal_fold_empty (c ∷ a) h = refl

module _ (limit : ℕ) (fresh : PeerIdentity) (update : PeerIdentity → PeerIdentity)
    (no_alias : fresh.alias ≡ [])
    (same_namespace : (p : PeerIdentity) → (update p).namespace ≡ p.namespace)
    (same_key : (p : PeerIdentity) → (update p).public_key ≡ p.public_key)
    (same_alias : (p : PeerIdentity) → (update p).alias ≡ p.alias) where
  is_peer-update :
      (namespace key : Bytes) (p : PeerIdentity)
      → is_peer namespace key (update p) ≡ is_peer namespace key p
  is_peer-update namespace key p = rw (same_namespace p, same_key p) refl

  has_alias-update : (a : Bytes) (p : PeerIdentity) → has_alias a (update p) ≡ has_alias a p
  has_alias-update a p = rw (same_alias p) refl

  upsert_peer-new_IsRegistry :
      (ps : List PeerIdentity)
      → IsRegistry limit ps
      → count (is_peer fresh.namespace fresh.public_key) ps ≡ 0
      → length ps < limit
      → IsRegistry limit (upsert_peer fresh update ps)
  upsert_peer-new_IsRegistry ps i none_yet room = record {
    distinct = λ namespace key.
        let counted =
          count-upsert_new fresh update (is_peer namespace key) (is_peer-update namespace key) ps
            none_yet in
        let mine = i.distinct namespace key in
        ground (arith, same_iff fresh.namespace namespace, same_iff fresh.public_key key);
    aliases = λ a some_alias.
        let counted =
          count-upsert_new fresh update (has_alias a) (has_alias-update a) ps none_yet in
        let unnamed : has_alias a fresh ≡ false = rw no_alias (equal_fold_empty a some_alias) in
        let old = i.aliases a some_alias in ground arith;
    within =
        let counted = count-upsert_new fresh update (λ p. true) (λ p. refl) ps none_yet in
        let all = keep_all (upsert_peer fresh update ps) in
        let all_before = keep_all ps in
        omega (
          arith,
          ap (λ (l : List PeerIdentity). length l) all,
          ap (λ (l : List PeerIdentity). length l) all_before,
        );
  }

  upsert_peer-known_IsRegistry :
      (ps : List PeerIdentity)
      → IsRegistry limit ps
      → 0 < count (is_peer fresh.namespace fresh.public_key) ps
      → IsRegistry limit (upsert_peer fresh update ps)
  upsert_peer-known_IsRegistry ps i known = record {
    distinct = λ namespace key.
        rw
          (count-upsert_known fresh update (is_peer namespace key) (is_peer-update namespace key) ps
            known)
          (i.distinct namespace key);
    aliases = λ a some_alias.
        rw (count-upsert_known fresh update (has_alias a) (has_alias-update a) ps known)
          (i.aliases a some_alias);
    within =
        let counted = count-upsert_known fresh update (λ p. true) (λ p. refl) ps known in
        let all = keep_all (upsert_peer fresh update ps) in
        let all_before = keep_all ps in
        let old = i.within in
        omega (
          arith,
          ap (λ (l : List PeerIdentity). length l) all,
          ap (λ (l : List PeerIdentity). length l) all_before,
        );
  }

  upsert_peer-IsRegistry :
      (ps : List PeerIdentity)
      → IsRegistry limit ps
      → ensure_capacity fresh.namespace fresh.public_key limit ps ≡ ok tt
      → IsRegistry limit (upsert_peer fresh update ps)
  unfolding ensure_capacity
  upsert_peer-IsRegistry ps i room =
      elim (Bool-cases (ltb 0 (count (is_peer fresh.namespace fresh.public_key) ps))) [
        | inl known ↦ upsert_peer-known_IsRegistry ps i (ground arith)
        | inr unknown ↦ upsert_peer-new_IsRegistry ps i (ground arith) (ground arith)
      ]

pub record_peer_identity-IsRegistry :
    (limit : ℕ) (namespace key : Bytes) (encryption_key : Option Bytes) (now : ℕ)
    (ps qs : List PeerIdentity)
    → IsRegistry limit ps
    → record_peer_identity limit namespace key encryption_key now ps ≡ ok qs
    → IsRegistry limit qs
unfolding record_peer_identity
record_peer_identity-IsRegistry limit namespace key encryption_key now ps qs i e =
    let (u, room, done) = bind-ok (ensure_capacity namespace key limit ps) _ qs e in
    let kept =
      upsert_peer-IsRegistry limit (identity_row namespace key encryption_key now)
        (refresh_identity encryption_key now) refl (λ p. refl) (λ p. refl) (λ p. refl) ps i room in
    let eq : upsert_peer (identity_row namespace key encryption_key now)
          (refresh_identity encryption_key now) ps
        ≡ qs =
      ground arith in
    rw (sym eq) kept

pub record_peer_contact-IsRegistry :
    (limit : ℕ) (namespace key encryption_key mailbox : Bytes) (now : ℕ) (ps qs : List PeerIdentity)
    → IsRegistry limit ps
    → record_peer_contact limit namespace key encryption_key mailbox now ps ≡ ok qs
    → IsRegistry limit qs
unfolding record_peer_contact
record_peer_contact-IsRegistry limit namespace key encryption_key mailbox now ps qs i e =
    let (a, e1) =
      reject_if-ok (not (has_size 32 (decode_hex mailbox))) invalid_peer_mailbox _ qs e in
    let (b, e2) =
      reject_if-ok (not (length key == 32) || not (length encryption_key == 32)) invalid_key_size _
        qs e1 in
    let (u, room, done) = bind-ok (ensure_capacity namespace key limit ps) _ qs e2 in
    let row = record (identity_row namespace key (some encryption_key) now) {
      mailbox_id = mailbox;
    } in
    let kept =
      upsert_peer-IsRegistry limit row (refresh_contact encryption_key mailbox now) refl (λ p. refl)
        (λ p. refl) (λ p. refl) ps i room in
    let eq : upsert_peer row (refresh_contact encryption_key mailbox now) ps ≡ qs = ground arith in
    rw (sym eq) kept
