-- ===== src/Store/Routes/Ownership.antt =====
-- A mailbox keeps the identity that claimed it.
use inkmail.Base.{
  false, ◌∙◌, ℕ, suc, ◌≤◌, ◌≡◌, ◌≢◌, refl, true, List, [], ◌∷◌, ◌++◌, none, some, Bytes, same_iff,
  length, ok, err, arith, Option-cases, Result-cases, inl, inr, length-append,
}
use inkmail.Session.{validate_opaque_token, same_bytes}
use inkmail.Session.Scope.{same_bytes_iff}
use inkmail.Store.Schema.{Owner, Store}
use inkmail.Store.Routes.{
  different_owner, find_owner, upsert_route, claim, write_route, valid_route, owner_hash,
  set_owned_route, mailbox_owned_by, set_route, expire_routes,
}

find_owner-append :
    (mailbox : Bytes) (os more : List Owner) (h : Bytes)
    → find_owner mailbox os ≡ some h
    → find_owner mailbox (os ++ more) ≡ some h
unfolding find_owner
find_owner-append mailbox [] more h e = absurd (ground arith)
find_owner-append mailbox (o ∷ os) more h e = ground (arith, find_owner-append mailbox os more h)

find_owner-snoc :
    (mailbox hash : Bytes) (os : List Owner)
    → find_owner mailbox os ≡ none
    → find_owner mailbox (os ++ (record { mailbox_id = mailbox; owner_key_hash = hash } ∷ []))
      ≡ some hash
unfolding find_owner
find_owner-snoc mailbox hash [] e = ground (arith, same_iff mailbox mailbox)
find_owner-snoc mailbox hash (o ∷ os) e = ground (arith, find_owner-snoc mailbox hash os)

-- The mailbox belongs to the identity with the hash.
abbrev pub Owns : Bytes → Bytes → Store → Type 0
Owns mailbox hash s = find_owner mailbox s.owners ≡ some hash

-- A claim that succeeds gives the mailbox to the caller, takes no other and respects the owners' quota.
pub record Claimed (mailbox hash : Bytes) (s t : Store) : Type 0 where
  pub mine : Owns mailbox hash t
  pub others : (m h : Bytes) → Owns m h s → Owns m h t
  pub same_routes : t.routes ≡ s.routes
  pub quota :
      length s.owners ≤ s.limits.mailbox_owners_global
      → length t.owners ≤ t.limits.mailbox_owners_global

claim-Claimed :
    (mailbox hash : Bytes) (s t : Store) → claim mailbox hash s ≡ ok t → Claimed mailbox hash s t
unfolding claim
claim-Claimed mailbox hash s t e = elim (Option-cases (find_owner mailbox s.owners)) [
  | inl new ↦
      let (room, result) : (suc (length s.owners) ≤ s.limits.mailbox_owners_global)
          × (t ≡ record s {
            owners = s.owners ++ (record { mailbox_id = mailbox; owner_key_hash = hash } ∷ []);
          }) =
        ground arith in
      rw result (record {
        mine = find_owner-snoc mailbox hash s.owners new;
        others = λ m h o. find_owner-append m s.owners _ h o;
        same_routes = refl;
        quota = λ _. omega (
          arith,
          length-append s.owners (record { mailbox_id = mailbox; owner_key_hash = hash } ∷ []),
        );
      })
  | inr (stored, old) ↦
      let (equal, result) : (stored ≡ hash) × (t ≡ s) =
        ground (arith, same_bytes_iff stored hash) in
      rw result (record {
        mine = rw (← equal) old;
        others = λ m h o. o;
        same_routes = refl;
        quota = λ q. q;
      })
]

write_route_effect :
    (mailbox address : Bytes) (expires : ℕ) (hash : Bytes) (now : ℕ) (s t : Store)
    → write_route mailbox address expires hash now s ≡ ok t
    → t ≡ record s { routes = upsert_route mailbox address expires now s.routes }
unfolding write_route
write_route_effect mailbox address expires hash now s t h = ground arith

pub valid_route_facts :
    (mailbox address : Bytes) (expires : ℕ) (key : Bytes) (now : ℕ)
    → valid_route mailbox address expires key now ≡ ok tt
    → (validate_opaque_token mailbox ≡ true) × (length key ≡ 32)
unfolding valid_route
valid_route_facts mailbox address expires key now h = ground arith

module _ (sha256 : Bytes → Bytes) where
  -- What a registration that succeeds has done, with the store after the claim.
  pub record Registered (mailbox address : Bytes) (expires : ℕ) (key : Bytes) (now : ℕ)
      (s t : Store) : Type 0 where
    pub valid : valid_route mailbox address expires key now ≡ ok tt
    pub claimed : Store
    pub ownership : Claimed mailbox (owner_hash sha256 key) s claimed
    pub result :
        t ≡ record claimed { routes = upsert_route mailbox address expires now claimed.routes }

  pub set_owned_route_parts :
      (mailbox address : Bytes) (expires : ℕ) (key : Bytes) (now : ℕ) (s t : Store)
      → set_owned_route sha256 mailbox address expires key now s ≡ ok t
      → Registered mailbox address expires key now s t
  unfolding set_owned_route
  set_owned_route_parts mailbox address expires key now s t h =
      elim (Result-cases (valid_route mailbox address expires key now)) [
        | inr (x, e) ↦ absurd (ground arith)
        | inl (v, e) ↦ elim (Result-cases (claim mailbox (owner_hash sha256 key) s)) [
          | inr (x, c) ↦ absurd (ground arith)
          | inl (u, c) ↦ record {
            valid = ground arith;
            claimed = u;
            ownership = claim-Claimed mailbox (owner_hash sha256 key) s u c;
            result =
                write_route_effect mailbox address expires (owner_hash sha256 key) now u t
                  (ground arith);
          }
        ]
      ]

  -- One operation on the routes.
  pub data Step (s : Store) : Store → Type 0 where
    registers :
        (mailbox address : Bytes) (expires : ℕ) (key : Bytes) (now : ℕ) {t : Store}
        → set_owned_route sha256 mailbox address expires key now s ≡ ok t
        → Step s t
    learns :
        (mailbox address : Bytes) (expires now : ℕ) {t : Store}
        → set_route mailbox address expires now s ≡ ok t
        → Step s t
    expires_at : (now : ℕ) → Step s (expire_routes now s).1

  pub data Reach (s : Store) : Store → Type 0 where
    start : Reach s s
    next : {t u : Store} → Reach s t → Step t u → Reach s u

  registers-Owns :
      (mailbox address : Bytes) (expires : ℕ) (key : Bytes) (now : ℕ) (s t : Store) (m h : Bytes)
      → set_owned_route sha256 mailbox address expires key now s ≡ ok t
      → Owns m h s
      → Owns m h t
  registers-Owns mailbox address expires key now s t m h e o =
      let r = set_owned_route_parts mailbox address expires key now s t e in
      rw (r.result) (r.ownership.others m h o)

  set_route_effect :
      (mailbox address : Bytes) (expires now : ℕ) (s t : Store)
      → set_route mailbox address expires now s ≡ ok t
      → t ≡ record s { routes = upsert_route mailbox address expires now s.routes }
  unfolding set_route
  set_route_effect mailbox address expires now s t h = ground arith

  Step-Owns : {s t : Store} (m h : Bytes) → Step s t → Owns m h s → Owns m h t
  unfolding expire_routes
  Step-Owns {s} m h (registers mailbox address expires key now {t = t} e) o =
      registers-Owns mailbox address expires key now s t m h e o
  Step-Owns {s} m h (learns mailbox address expires now {t = t} e) o =
      rw (set_route_effect mailbox address expires now s t e) o
  Step-Owns {s} m h (expires_at now) o = o

  Reach-Owns : {s t : Store} (m h : Bytes) → Reach s t → Owns m h s → Owns m h t
  Reach-Owns m h start o = o
  Reach-Owns m h (next r st) o = Step-Owns m h st (Reach-Owns m h r o)

  claim_foreign :
      (mailbox stored hash : Bytes) (s : Store)
      → Owns mailbox stored s
      → stored ≢ hash
      → claim mailbox hash s ≡ err different_owner
  unfolding claim
  claim_foreign mailbox stored hash s o foreign =
      rw (o, claim) (ground (arith, same_bytes_iff stored hash))

  owned_answer :
      (mailbox stored key : Bytes) (s : Store)
      → Owns mailbox stored s
      → validate_opaque_token mailbox ≡ true
      → length key ≡ 32
      → mailbox_owned_by sha256 mailbox key s ≡ ok (same_bytes stored (owner_hash sha256 key))
  unfolding mailbox_owned_by same_bytes
  owned_answer mailbox stored key s o valid size = rw (o, mailbox_owned_by) (ground arith)

  set_owned_route-Owns :
      (mailbox address : Bytes) (expires : ℕ) (key : Bytes) (now : ℕ) (s t : Store)
      → set_owned_route sha256 mailbox address expires key now s ≡ ok t
      → Owns mailbox (owner_hash sha256 key) t
  set_owned_route-Owns mailbox address expires key now s t e =
      let r = set_owned_route_parts mailbox address expires key now s t e in
      rw (r.result) (r.ownership.mine)

  -- After an identity has registered a route for a mailbox, and after any further registrations, learned
  -- routes and expirations, by whoever: an identity whose key has another hash is not answered to own the
  -- mailbox, and its well-formed registration for it is refused.
  pub foreign_owner_refused :
      (mailbox address : Bytes) (expires : ℕ) (key : Bytes) (now : ℕ) (s t u : Store)
      → set_owned_route sha256 mailbox address expires key now s ≡ ok t
      → Reach t u
      → (address' : Bytes) (expires' : ℕ) (key' : Bytes) (now' : ℕ)
      → valid_route mailbox address' expires' key' now' ≡ ok tt
      → owner_hash sha256 key ≢ owner_hash sha256 key'
      → (set_owned_route sha256 mailbox address' expires' key' now' u ≡ err different_owner)
        × (mailbox_owned_by sha256 mailbox key' u ≡ ok false)
  unfolding set_owned_route
  foreign_owner_refused mailbox address expires key now s t u e r address' expires' key' now' valid
        foreign =
      let owns =
        Reach-Owns mailbox (owner_hash sha256 key) r
          (set_owned_route-Owns mailbox address expires key now s t e) in
      let (good, size) = valid_route_facts mailbox address' expires' key' now' valid in
      let refused =
        claim_foreign mailbox (owner_hash sha256 key) (owner_hash sha256 key') u owns foreign in
      let answer = owned_answer mailbox (owner_hash sha256 key) key' u owns good size in
      (
        rw (valid, refused) refl,
        answer
            ∙ ground
                (arith, foreign, same_bytes_iff (owner_hash sha256 key) (owner_hash sha256 key')),
      )

  -- The identity that registered a route for a mailbox is answered to own it after any further
  -- registrations, learned routes and expirations.
  pub owner_stays :
      (mailbox address : Bytes) (expires : ℕ) (key : Bytes) (now : ℕ) (s t u : Store)
      → set_owned_route sha256 mailbox address expires key now s ≡ ok t
      → Reach t u
      → mailbox_owned_by sha256 mailbox key u ≡ ok true
  owner_stays mailbox address expires key now s t u e r =
      let owns =
        Reach-Owns mailbox (owner_hash sha256 key) r
          (set_owned_route-Owns mailbox address expires key now s t e) in
      let valid = (set_owned_route_parts mailbox address expires key now s t e).valid in
      let (good, size) = valid_route_facts mailbox address expires key now valid in
      owned_answer mailbox (owner_hash sha256 key) key u owns good size
      ∙ ground (arith, same_bytes_iff (owner_hash sha256 key) (owner_hash sha256 key))

  abbrev pub WithinOwners : Store → Type 0
  WithinOwners s = length s.owners ≤ s.limits.mailbox_owners_global

  Step-WithinOwners : {s t : Store} → Step s t → WithinOwners s → WithinOwners t
  unfolding expire_routes
  Step-WithinOwners {s} (registers mailbox address expires key now {t = t} e) q =
      let r = set_owned_route_parts mailbox address expires key now s t e in
      rw (r.result) (r.ownership.quota q)
  Step-WithinOwners {s} (learns mailbox address expires now {t = t} e) q =
      rw (set_route_effect mailbox address expires now s t e) q
  Step-WithinOwners (expires_at now) q = q

  -- No history of registrations, learned routes and expirations that starts with the number of
  -- claimed mailboxes within its quota takes it over the quota.
  pub Reach-WithinOwners : {s t : Store} → WithinOwners s → Reach s t → WithinOwners t
  Reach-WithinOwners q start = q
  Reach-WithinOwners q (next r st) = Step-WithinOwners st (Reach-WithinOwners q r)
