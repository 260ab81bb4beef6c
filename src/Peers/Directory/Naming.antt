-- ===== src/Peers/Directory/Naming.antt =====
-- What `SetPeerAlias` of internal/database/peers_alias.go leaves, and histories of the table of peers.
use inkmail.Base.{
  ℕ, ◌≤◌, ◌≡◌, ◌≢◌, refl, sym, Bool, true, false, not, ◌&&◌, ◌||◌, List, [], ◌∷◌, Option, none,
  some, if◌then◌else◌, Bytes, same, same_iff, equal_fold, trim_space, length, keep, ltb, ◌==◌,
  arith, Bool-cases, Option-cases, Result-cases, inl, inr, ◌⊎◌, ap, ◌∙◌, ok, err, bind-ok,
  reject_if-ok, keep_all, length-keep-le, length-keep-keep-le,
}
use inkmail.Hex.{decode_hex}
use inkmail.Peers.Directory.{
  invalid_peer_mailbox, invalid_key_size, PeerIdentity, is_peer, has_alias, has_size, holds_alias,
  is_other, other_peer, ensure_capacity, upsert_peer, identity_row, refresh_identity,
  refresh_contact, record_peer_identity, record_peer_contact, write_alias, update_alias,
  check_alias, set_peer_alias, validate_alias, delete_peer_row, find_peer, peer_not_found,
  unique_constraint, alias_owned,
}
use inkmail.Peers.Directory.Capacity.{
  count, find_peer-count, find_peer-none, count-write_alias, count-write_alias_new,
  count-write_alias_other,
}
use inkmail.Peers.Directory.Aliases.{
  IsRegistry, equal_fold_join, equal_fold_empty, record_peer_identity-IsRegistry,
  record_peer_contact-IsRegistry,
}

count-none-le :
    (q r : PeerIdentity → Bool) (ps : List PeerIdentity)
    → count q ps ≡ 0
    → count (λ x. q x && r x) ps ≡ 0
count-none-le q r [] h = refl
count-none-le q r (x ∷ ps) h = ground (arith, count-none-le q r ps)

validate_alias-other_errors : (raw : Bytes) → validate_alias raw ≢ err unique_constraint
unfolding validate_alias
validate_alias-other_errors raw h = ground arith

check_alias-other_errors :
    (namespace key alias : Bytes) (ps : List PeerIdentity)
    → check_alias namespace key alias ps ≢ err unique_constraint
unfolding check_alias
check_alias-other_errors namespace key alias ps h = elim (Result-cases (validate_alias alias)) [
  | inl (u, fine) ↦ absurd (ground arith)
  | inr (x, bad) ↦ absurd (ground (arith, validate_alias-other_errors alias))
]

holds_alias-same :
    (namespace key a alias : Bytes)
    → equal_fold alias a ≡ true
    → (ps : List PeerIdentity)
    → count (holds_alias namespace key a) ps ≤ count (holds_alias namespace key alias) ps
holds_alias-same namespace key a alias h [] = omega arith
holds_alias-same namespace key a alias h (p ∷ ps) =
    let joined = λ (e : equal_fold p.alias a ≡ true). equal_fold_join p.alias alias a e h in
    ground (arith, holds_alias-same namespace key a alias h ps, joined)

module _ (limit : ℕ) (namespace key : Bytes) (ps : List PeerIdentity)
    (i : IsRegistry limit ps) where
  -- Once the checks pass, no other row holds the alias.
  check_alias-free :
      (alias : Bytes)
      → alias ≢ []
      → check_alias namespace key alias ps ≡ ok tt
      → count (holds_alias namespace key alias) ps ≡ 0
  unfolding check_alias
  check_alias-free alias some_alias e =
      let (u, valid, e1) = bind-ok (validate_alias alias) _ tt e in
      let (mine, e2) =
        reject_if-ok (is_other namespace key (find_peer (has_alias alias) ps)) alias_owned _ tt
          e1 in
      elim (Option-cases (find_peer (has_alias alias) ps)) [
        | inl missing ↦
            count-none-le (has_alias alias) (λ p. not (is_peer namespace key p)) ps
              (find_peer-none (has_alias alias) ps missing)
        | inr (p, found) ↦
            let other : other_peer namespace key p ≡ false =
              ap (is_other namespace key) (sym found) ∙ mine in
            let same_peer : is_peer namespace key p ≡ true = ground arith in
            let counted =
              find_peer-count (has_alias alias) (is_peer namespace key) p ps found same_peer in
            let one = i.aliases alias some_alias in omega arith
      ]

  -- The new rows, when no other row holds the alias.
  write_alias-IsRegistry :
      (alias : Bytes)
      → (alias ≢ [] → count (holds_alias namespace key alias) ps ≡ 0)
      → IsRegistry limit (write_alias namespace key alias ps)
  write_alias-IsRegistry alias free = record {
    distinct = λ n k.
        rw (count-write_alias namespace key alias (is_peer n k) (λ p. refl) ps) (i.distinct n k);
    aliases = λ a some_alias. elim (Bool-cases (equal_fold alias a)) [
      | inl new ↦
          let named : alias ≢ [] =
            λ e. absurd (ground (arith, rw e at new, equal_fold_empty a some_alias)) in
          let counted = count-write_alias_new namespace key alias a new ps in
          let others : count (holds_alias namespace key a) ps
              ≤ count (holds_alias namespace key alias) ps =
            holds_alias-same namespace key a alias new ps in
          let none_other = free named in let mine = i.distinct namespace key in omega arith
      | inr old ↦
          let counted = count-write_alias_other namespace key alias a old ps in
          let before = i.aliases a some_alias in omega arith
    ];
    within =
        let counted = count-write_alias namespace key alias (λ p. true) (λ p. refl) ps in
        let all = keep_all (write_alias namespace key alias ps) in
        let all_before = keep_all ps in
        let old = i.within in
        omega (
          arith,
          ap (λ (l : List PeerIdentity). length l) all,
          ap (λ (l : List PeerIdentity). length l) all_before,
        );
  }

  update_alias-IsRegistry :
      (alias : Bytes) (qs : List PeerIdentity)
      → update_alias namespace key alias ps ≡ ok qs
      → IsRegistry limit qs
  unfolding update_alias same
  update_alias-IsRegistry alias qs e =
      let (known, e1) =
        reject_if-ok (count (is_peer namespace key) ps == 0) peer_not_found _ qs e in
      let (free, e2) =
        reject_if-ok (not (same alias []) && ltb 0 (count (holds_alias namespace key alias) ps))
          unique_constraint _ qs e1 in
      let eq : write_alias namespace key alias ps ≡ qs = ground arith in
      rw (sym eq) (write_alias-IsRegistry alias (λ named. ground (arith, same_iff alias [])))

  -- In a table with one row for each identity and one peer for each alias, `SetPeerAlias` never runs into
  -- the unique index on aliases: its own checks find every conflict before.
  pub set_peer_alias-no_conflict :
      (raw : Bytes) → set_peer_alias namespace key raw ps ≢ err unique_constraint
  unfolding set_peer_alias update_alias
  set_peer_alias-no_conflict raw h = elim (Bool-cases (same (trim_space raw) [])) [
    | inl e ↦ absurd (ground arith)
    | inr e ↦ elim (Result-cases (check_alias namespace key (trim_space raw) ps)) [
      | inl (u, fine) ↦
          let named : trim_space raw ≢ [] =
            λ w. absurd (ground (arith, same_iff (trim_space raw) [])) in
          let free = check_alias-free (trim_space raw) named (fine ∙ refl) in absurd (ground arith)
      | inr (x, bad) ↦
          let other = check_alias-other_errors namespace key (trim_space raw) ps in
          absurd (ground arith)
    ]
  ]

  set_peer_alias-IsRegistry :
      (raw : Bytes) (qs : List PeerIdentity)
      → set_peer_alias namespace key raw ps ≡ ok qs
      → IsRegistry limit qs
  unfolding set_peer_alias
  set_peer_alias-IsRegistry raw qs e =
      let (u, checked, e1) =
        bind-ok
          (if same (trim_space raw) []
            then ok tt
            else check_alias namespace key (trim_space raw) ps)
          _ qs e in
      update_alias-IsRegistry (trim_space raw) qs e1

  delete_peer_row-IsRegistry :
      (qs : List PeerIdentity) → delete_peer_row namespace key ps ≡ ok qs → IsRegistry limit qs
  unfolding delete_peer_row
  delete_peer_row-IsRegistry qs e =
      let kept = keep (λ p. not (is_peer namespace key p)) ps in
      let eq : kept ≡ qs = ground arith in
      rw (sym eq) (record {
        distinct = λ n k.
            let old = i.distinct n k in
            omega
              (arith, length-keep-keep-le (is_peer n k) (λ p. not (is_peer namespace key p)) ps);
        aliases = λ a some_alias.
            let old = i.aliases a some_alias in
            omega
              (arith, length-keep-keep-le (has_alias a) (λ p. not (is_peer namespace key p)) ps);
        within =
            let old = i.within in
            omega (arith, length-keep-le (λ p. not (is_peer namespace key p)) ps);
      })

-- One operation on the table of peers.
pub data Step (limit : ℕ) (ps qs : List PeerIdentity) : Type 0 where
  recorded :
      (namespace key : Bytes) (encryption_key : Option Bytes) (now : ℕ)
      → record_peer_identity limit namespace key encryption_key now ps ≡ ok qs
      → Step limit ps qs
  contacted :
      (namespace key encryption_key mailbox : Bytes) (now : ℕ)
      → record_peer_contact limit namespace key encryption_key mailbox now ps ≡ ok qs
      → Step limit ps qs
  named :
      (namespace key raw : Bytes) → set_peer_alias namespace key raw ps ≡ ok qs → Step limit ps qs
  removed : (namespace key : Bytes) → delete_peer_row namespace key ps ≡ ok qs → Step limit ps qs

pub data Reach (limit : ℕ) (ps : List PeerIdentity) : List PeerIdentity → Type 0 where
  here : Reach limit ps ps
  next : {qs rs : List PeerIdentity} → Reach limit ps qs → Step limit qs rs → Reach limit ps rs

Step-IsRegistry :
    (limit : ℕ) (ps qs : List PeerIdentity)
    → IsRegistry limit ps
    → Step limit ps qs
    → IsRegistry limit qs
Step-IsRegistry limit ps qs i (recorded namespace key encryption_key now e) =
    record_peer_identity-IsRegistry limit namespace key encryption_key now ps qs i e
Step-IsRegistry limit ps qs i (contacted namespace key encryption_key mailbox now e) =
    record_peer_contact-IsRegistry limit namespace key encryption_key mailbox now ps qs i e
Step-IsRegistry limit ps qs i (named namespace key raw e) =
    set_peer_alias-IsRegistry limit namespace key ps i raw qs e
Step-IsRegistry limit ps qs i (removed namespace key e) =
    delete_peer_row-IsRegistry limit namespace key ps i qs e

-- From a table with one row for each identity, one peer for each alias and its quota kept, any history of
-- recorded identities and contacts, of aliases and removals leads to such a table.
pub Reach-IsRegistry :
    {limit : ℕ} {ps qs : List PeerIdentity}
    → IsRegistry limit ps
    → Reach limit ps qs
    → IsRegistry limit qs
Reach-IsRegistry i here = i
Reach-IsRegistry {limit} {ps} {qs} i (next {rs} r st) =
    Step-IsRegistry limit _ qs (Reach-IsRegistry i r) st

-- What an alias names.
abbrev pub identity_of : Option PeerIdentity → Option (Bytes × Bytes)
identity_of none = none
identity_of (some p) = some (p.namespace, p.public_key)

module _ (fresh : PeerIdentity) (update : PeerIdentity → PeerIdentity) (a : Bytes)
    (not_fresh : has_alias a fresh ≡ false)
    (same_identity : (p : PeerIdentity) → identity_of (some (update p)) ≡ identity_of (some p))
    (same_alias : (p : PeerIdentity) → has_alias a (update p) ≡ has_alias a p) where
  upsert_peer-identity_of :
      (ps : List PeerIdentity)
      → identity_of (find_peer (has_alias a) (upsert_peer fresh update ps))
        ≡ identity_of (find_peer (has_alias a) ps)
  unfolding upsert_peer find_peer
  upsert_peer-identity_of [] = rw not_fresh refl
  upsert_peer-identity_of (p ∷ ps) =
      elim (Bool-cases (is_peer fresh.namespace fresh.public_key p)) [
        | inl e ↦ rw (e, upsert_peer) (ground (arith, same_alias p, same_identity p))
        | inr e ↦ rw (e, upsert_peer) (ground (arith, upsert_peer-identity_of ps))
      ]

-- A handshake, a received message or a learned contact never takes a name away: after a peer is recorded,
-- with or without an encryption key, every alias that is not empty names the peer that it named before.
pub record_peer_contact-identity_of :
    (limit : ℕ) (namespace key contact_key mailbox : Bytes) (encryption_key : Option Bytes)
    (now : ℕ) (ps qs : List PeerIdentity) (a : Bytes)
    → a ≢ []
    → (record_peer_contact limit namespace key contact_key mailbox now ps ≡ ok qs)
      ⊎ (record_peer_identity limit namespace key encryption_key now ps ≡ ok qs)
    → identity_of (find_peer (has_alias a) qs) ≡ identity_of (find_peer (has_alias a) ps)
unfolding record_peer_contact record_peer_identity
record_peer_contact-identity_of limit namespace key contact_key mailbox encryption_key now ps qs a
      some_alias (inl e) =
    let (x, e1) =
      reject_if-ok (not (has_size 32 (decode_hex mailbox))) invalid_peer_mailbox _ qs e in
    let (y, e2) =
      reject_if-ok (not (length key == 32) || not (length contact_key == 32)) invalid_key_size _ qs
        e1 in
    let (u, room, done) = bind-ok (ensure_capacity namespace key limit ps) _ qs e2 in
    let row = record (identity_row namespace key (some contact_key) now) { mailbox_id = mailbox } in
    let eq : upsert_peer row (refresh_contact contact_key mailbox now) ps ≡ qs = ground arith in
    rw (sym eq) (
      upsert_peer-identity_of row (refresh_contact contact_key mailbox now) a
        (equal_fold_empty a some_alias) (λ p. refl) (λ p. refl) ps)
record_peer_contact-identity_of limit namespace key contact_key mailbox encryption_key now ps qs a
      some_alias (inr e) =
    let (u, room, done) = bind-ok (ensure_capacity namespace key limit ps) _ qs e in
    let row = identity_row namespace key encryption_key now in
    let eq : upsert_peer row (refresh_identity encryption_key now) ps ≡ qs = ground arith in
    rw (sym eq) (
      upsert_peer-identity_of row (refresh_identity encryption_key now) a
        (equal_fold_empty a some_alias) (λ p. refl) (λ p. refl) ps)
