-- ===== src/Peers/Routes/Freshest.antt =====
-- What a registration through `RegisterOrReplaceRoute` leaves of the routes, against a plain map from
-- peers to their one route.
use inkmail.Base.{
  ℕ, ◌≤◌, ◌<◌, ◌≡◌, refl, Bool, true, false, not, ◌&&◌, List, [], ◌∷◌, if◌then◌else◌, Bytes, same,
  same_iff, same_refl, keep, leb, ◌==◌, arith, Bool-cases, inl, inr, Result, ok, err, reject_if-ok,
  length-keep-keep-le,
}
use inkmail.Limits.{Limits}
use inkmail.Peers.Routes.{
  Route, PeerRouteError, of_peer, at_address, active, count, upsert_route, register_or_replace,
  superseded, list_routes, get_route, sort_routes, global_route_quota,
}

-- One row for each address of a peer, as the primary key has it.
abbrev pub Distinct : List Route → Type 0
Distinct rs = (namespace key address : Bytes) → count (at_address namespace key address) rs ≤ 1

abbrev pub new_route : Bytes → Bytes → Bytes → ℕ → ℕ → Route
new_route namespace key address expires now = record {
  namespace = namespace;
  public_key = key;
  address = address;
  expires_at = expires;
  last_seen = now;
}

abbrev listed : Bytes → Bytes → ℕ → Route → Bool
listed namespace key now r = of_peer namespace key r && active now r

count-keep-not : (q : Route → Bool) (rs : List Route) → count q (keep (λ r. not (q r)) rs) ≡ 0
count-keep-not q [] = refl
count-keep-not q (r ∷ rs) = ground (arith, count-keep-not q rs)

module _ (namespace key address : Bytes) where
  -- A peer none of whose rows has this address has no row that is not superseded.
  none_listed :
      (at : ℕ) (rs : List Route)
      → count (superseded namespace key address) rs ≡ 0
      → count (at_address namespace key address) rs ≡ 0
      → keep (listed namespace key at) rs ≡ []
  none_listed at [] h k = refl
  none_listed at (r ∷ rs) h k = ground (arith, none_listed at rs)

  at_address-fields :
      (r : Route)
      → at_address namespace key address r ≡ true
      → (r.namespace ≡ namespace) × (r.public_key ≡ key) × (r.address ≡ address)
  at_address-fields r h =
      ground (
        arith,
        same_iff r.namespace namespace,
        same_iff r.public_key key,
        same_iff r.address address,
      )

  upsert_route-listed :
      (expires now at : ℕ) (rs : List Route)
      → at < expires
      → count (superseded namespace key address) rs ≡ 0
      → count (at_address namespace key address) rs ≤ 1
      → keep (listed namespace key at) (upsert_route namespace key address expires now rs)
        ≡ new_route namespace key address expires now ∷ []
  unfolding upsert_route
  upsert_route-listed expires now at [] live h k =
      rw (same_refl namespace, same_refl key) (ground arith)
  upsert_route-listed expires now at (r ∷ rs) live h k =
      elim (Bool-cases (at_address namespace key address r)) [
        | inl e ↦
            let (en, ek, ea) = at_address-fields r e in
            let empty = none_listed at rs (ground arith) (ground arith) in
            ground (arith, same_refl namespace, same_refl key)
        | inr e ↦ rw (e, upsert_route) (ground (arith, upsert_route-listed expires now at rs live))
      ]

  none_of_peer :
      (rs : List Route)
      → count (superseded namespace key address) rs ≡ 0
      → count (at_address namespace key address) rs ≡ 0
      → keep (of_peer namespace key) rs ≡ []
  none_of_peer [] h k = refl
  none_of_peer (r ∷ rs) h k = ground (arith, none_of_peer rs)

  upsert_route-of_peer :
      (expires now : ℕ) (rs : List Route)
      → count (superseded namespace key address) rs ≡ 0
      → count (at_address namespace key address) rs ≤ 1
      → keep (of_peer namespace key) (upsert_route namespace key address expires now rs)
        ≡ new_route namespace key address expires now ∷ []
  unfolding upsert_route
  upsert_route-of_peer expires now [] h k = rw (same_refl namespace, same_refl key) refl
  upsert_route-of_peer expires now (r ∷ rs) h k =
      elim (Bool-cases (at_address namespace key address r)) [
        | inl e ↦
            let (en, ek, ea) = at_address-fields r e in
            let empty = none_of_peer rs (ground arith) (ground arith) in
            ground (arith, same_refl namespace, same_refl key)
        | inr e ↦ rw (e, upsert_route) (ground (arith, upsert_route-of_peer expires now rs))
      ]

  module _ (other_namespace other_key : Bytes)
      (apart : (same other_namespace namespace && same other_key key) ≡ false) where
    not_both :
        (r : Route) → of_peer namespace key r ≡ true → of_peer other_namespace other_key r ≡ false
    not_both r h = ground (
      arith,
      same_iff r.namespace namespace,
      same_iff r.public_key key,
      same_iff r.namespace other_namespace,
      same_iff r.public_key other_key,
      same_iff other_namespace namespace,
      same_iff other_key key,
    )

    upsert_route-others :
        (expires now at : ℕ) (rs : List Route)
        → keep
            (listed other_namespace other_key at)
            (upsert_route namespace key address expires now rs)
          ≡ keep (listed other_namespace other_key at) rs
    unfolding upsert_route
    upsert_route-others expires now at [] =
        let gone =
          not_both (new_route namespace key address expires now)
            (rw (same_refl namespace, same_refl key) refl) in
        ground arith
    upsert_route-others expires now at (r ∷ rs) =
        elim (Bool-cases (at_address namespace key address r)) [
          | inl e ↦ let gone = not_both r (ground arith) in ground arith
          | inr e ↦ rw (e, upsert_route) (ground (arith, upsert_route-others expires now at rs))
        ]

    superseded-others :
        (at : ℕ) (rs : List Route)
        → keep
            (listed other_namespace other_key at)
            (keep (λ r. not (superseded namespace key address r)) rs)
          ≡ keep (listed other_namespace other_key at) rs
    superseded-others at [] = refl
    superseded-others at (r ∷ rs) = ground (arith, not_both r, superseded-others at rs)

-- The address and expiry that a lookup gives.
abbrev pub Directory : Type 0
Directory = Bytes → Bytes → Result PeerRouteError (Bytes × ℕ)

abbrev pub shown : Result PeerRouteError Route → Result PeerRouteError (Bytes × ℕ)
shown (ok r) = ok (r.address, r.expires_at)
shown (err e) = err e

abbrev pub directory : ℕ → List Route → Directory
directory at rs namespace key = shown (get_route namespace key at rs)

-- The abstract operation: one entry is written.
abbrev pub updated : Bytes → Bytes → Bytes × ℕ → Directory → Directory
updated namespace key entry d n k = if same n namespace && same k key then ok entry else d n k

-- In a table with one row for each address of a peer, a registration that succeeds writes one entry of
-- the directory of freshest routes, until it expires: the lookup of the peer gives the new address, and that
-- of every other peer is as it was. The table then has one row of the peer, the new one.
pub register_or_replace-updated :
    (limits : Limits) (namespace key address : Bytes) (expires now at : ℕ) (rs qs : List Route)
    (n k : Bytes)
    → Distinct rs
    → register_or_replace limits namespace key address expires now rs ≡ ok qs
    → at < expires
    → (directory at qs n k ≡ updated namespace key (address, expires) (directory at rs) n k)
      × (keep (of_peer namespace key) qs
          ≡ record {
            namespace = namespace;
            public_key = key;
            address = address;
            expires_at = expires;
            last_seen = now;
          }
            ∷ [])
unfolding register_or_replace get_route list_routes sort_routes
register_or_replace-updated limits namespace key address expires now at rs qs n k d e live =
    let left = keep (λ r. not (superseded namespace key address r)) rs in
    let (room, done) =
      reject_if-ok
        (count (at_address namespace key address) left == 0
          && leb limits.peer_routes_global (count (active now) left))
        global_route_quota _ qs e in
    let eq : qs ≡ upsert_route namespace key address expires now left = ground arith in
    let one : count (at_address namespace key address) left ≤ 1 = omega (
      arith,
      d namespace key address,
      length-keep-keep-le (at_address namespace key address)
          (λ r. not (superseded namespace key address r)) rs,
    ) in
    let gone = count-keep-not (superseded namespace key address) rs in
    let freshest : directory at qs n k
        ≡ updated namespace key (address, expires) (directory at rs) n k =
      elim (Bool-cases (same n namespace && same k key)) [
        | inl mine ↦
            let en : n ≡ namespace = ground (arith, same_iff n namespace) in
            let ek : k ≡ key = ground (arith, same_iff k key) in
            let only =
              upsert_route-listed namespace key address expires now at left live gone one in
            rw (mine, en, ek, eq, only) refl
        | inr other ↦
            rw
              (
                other,
                eq,
                upsert_route-others namespace key address n k other expires now at left,
                superseded-others namespace key address n k other at rs,
              )
              refl
      ] in
    (freshest, rw eq (upsert_route-of_peer namespace key address expires now left gone one))
