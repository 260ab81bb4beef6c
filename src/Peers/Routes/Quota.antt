-- ===== src/Peers/Routes/Quota.antt =====
-- How `StoreRoute` keeps the quotas on active routes, and where it does not.
use inkmail.Base.{
  ℕ, suc, ◌+◌, ◌≤◌, ◌<◌, ◌≡◌, refl, Bool, true, ◌&&◌, List, [], ◌∷◌, if◌then◌else◌, Bytes,
  same_refl, ◌==◌, arith, Bool-cases, inl, inr, ok,
}
use inkmail.Limits.{Limits}
use inkmail.Peers.Routes.{
  Route, of_peer, at_address, active, count, upsert_route, check_new_route, store_route,
}
use inkmail.Peers.Routes.Freshest.{new_route}

abbrev one_if : Bool → ℕ
one_if b = if b then 1 else 0

abbrev pub active_of : Bytes → Bytes → ℕ → Route → Bool
active_of namespace key now r = of_peer namespace key r && active now r

abbrev pub active_at : Bytes → Bytes → Bytes → ℕ → Route → Bool
active_at namespace key address now r = at_address namespace key address r && active now r

module _ (namespace key address : Bytes) (expires now : ℕ) where
  upsert_new :
      (q : Route → Bool) (rs : List Route)
      → count (at_address namespace key address) rs ≡ 0
      → count q (upsert_route namespace key address expires now rs)
        ≡ count q rs + one_if (q (new_route namespace key address expires now))
  unfolding upsert_route
  upsert_new q [] h = ground arith
  upsert_new q (r ∷ rs) h = elim (Bool-cases (at_address namespace key address r)) [
    | inl e ↦ absurd (ground arith)
    | inr e ↦ rw (e, upsert_route) (ground (arith, upsert_new q rs))
  ]

  active_at-none :
      (rs : List Route)
      → count (at_address namespace key address) rs ≡ 0
      → count (active_at namespace key address now) rs ≡ 0
  active_at-none [] h = refl
  active_at-none (r ∷ rs) h = ground (arith, active_at-none rs)

  -- A refreshed row counts as one with its new expiry.
  upsert_known :
      (q : Route → Bool) (rs : List Route)
      → ((r : Route) → at_address namespace key address r ≡ true → q r ≡ active now r)
      → ((r : Route)
          → at_address namespace key address r ≡ true
          → q (record r { expires_at = expires; last_seen = now }) ≡ true)
      → 0 < count (at_address namespace key address) rs
      → count (at_address namespace key address) rs ≤ 1
      → count q (upsert_route namespace key address expires now rs)
          + count (active_at namespace key address now) rs
        ≡ count q rs + 1
  unfolding upsert_route
  upsert_known q [] was will h k = absurd (omega arith)
  upsert_known q (r ∷ rs) was will h k = elim (Bool-cases (at_address namespace key address r)) [
    | inl e ↦
        let a = was r e in
        let b = will r e in let none_left = active_at-none rs (ground arith) in ground arith
    | inr e ↦ rw (e, upsert_route) (ground (arith, upsert_known q rs was will))
  ]

  module _ (live : now < expires) where
    -- A route that expires in the future, to an address that has one row, which is expired, is always
    -- stored, however many active routes the peer and the table have: the peer then has one active route
    -- more.
    pub store_route-expired_row :
        (limits : Limits) (rs : List Route)
        → count (at_address namespace key address) rs ≡ 1
        → count (active_at namespace key address now) rs ≡ 0
        → (qs : List Route) × (store_route limits namespace key address expires now rs ≡ ok qs)
          × (count (active_of namespace key now) qs ≡ suc (count (active_of namespace key now) rs))
    unfolding store_route
    store_route-expired_row limits rs one expired =
        let counted =
          upsert_known (active_of namespace key now) rs (λ r e. ground arith) (λ r e. ground arith)
            (omega arith) (omega arith) in
        (upsert_route namespace key address expires now rs, ground arith, ground arith)

    -- A table within both quotas on active routes is still within them after a route is stored to an
    -- address that has no row, or one that is active.
    pub store_route-Quotas :
        (limits : Limits) (rs qs : List Route)
        → count (at_address namespace key address) rs ≤ 1
        → count (at_address namespace key address) rs
          ≡ count (active_at namespace key address now) rs
        → store_route limits namespace key address expires now rs ≡ ok qs
        → count (active_of namespace key now) rs ≤ limits.peer_routes_per_identity
        → count (active now) rs ≤ limits.peer_routes_global
        → (count (active_of namespace key now) qs ≤ limits.peer_routes_per_identity)
          × (count (active now) qs ≤ limits.peer_routes_global)
    unfolding store_route check_new_route
    store_route-Quotas limits rs qs one fresh e mine all =
        elim (Bool-cases (count (at_address namespace key address) rs == 0)) [
          | inl z ↦
              let counted = upsert_new (active_of namespace key now) rs (ground arith) in
              let counted_all = upsert_new (active now) rs (ground arith) in
              ground (arith, same_refl namespace, same_refl key)
          | inr nz ↦
              let counted =
                upsert_known (active_of namespace key now) rs (λ r h. ground arith)
                  (λ r h. ground arith) (ground arith) one in
              let counted_all =
                upsert_known (active now) rs (λ r h. refl) (λ r h. ground arith) (ground arith)
                  one in
              ground arith
        ]
