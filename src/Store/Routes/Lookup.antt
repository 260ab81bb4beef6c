-- ===== src/Store/Routes/Lookup.antt =====
-- A registered route is found.
use inkmail.Base.{ℕ, ◌<◌, ◌≡◌, ◌≢◌, refl, List, [], ◌∷◌, some, Bytes, same_iff, ok, arith, ap}
use inkmail.Store.Schema.{MailboxRoute, Store}
use inkmail.Store.Routes.{upsert_route, set_owned_route, find_route, get_route_with_expiry}
use inkmail.Store.Routes.Ownership.{set_owned_route_parts, valid_route_facts}

find_route-upsert :
    (mailbox address : Bytes) (expires now at : ℕ) (rs : List MailboxRoute)
    → at < expires
    → find_route mailbox at (upsert_route mailbox address expires now rs) ≡ some (address, expires)
unfolding find_route upsert_route
find_route-upsert mailbox address expires now at [] h = ground (arith, same_iff mailbox mailbox)
find_route-upsert mailbox address expires now at (r ∷ rs) h =
    ground (arith, find_route-upsert mailbox address expires now at rs h)

find_route-upsert_other :
    (mailbox address : Bytes) (expires now at : ℕ) (other : Bytes) (rs : List MailboxRoute)
    → other ≢ mailbox
    → find_route other at (upsert_route mailbox address expires now rs) ≡ find_route other at rs
unfolding find_route upsert_route
find_route-upsert_other mailbox address expires now at other [] h =
    ground (arith, same_iff mailbox other)
find_route-upsert_other mailbox address expires now at other (r ∷ rs) h = ground (
  arith,
  find_route-upsert_other mailbox address expires now at other rs h,
  same_iff r.mailbox_id mailbox,
  same_iff r.mailbox_id other,
)

module _ (sha256 : Bytes → Bytes) where
  registered_routes :
      (mailbox address : Bytes) (expires : ℕ) (key : Bytes) (now : ℕ) (s t : Store)
      → set_owned_route sha256 mailbox address expires key now s ≡ ok t
      → t.routes ≡ upsert_route mailbox address expires now s.routes
  registered_routes mailbox address expires key now s t e =
      let r = set_owned_route_parts sha256 mailbox address expires key now s t e in
      rw (r.result) (ap (upsert_route mailbox address expires now) r.ownership.same_routes)

  -- A registered route is looked up with its address and expiry until it expires.
  pub registered_route_found :
      (mailbox address : Bytes) (expires : ℕ) (key : Bytes) (now : ℕ) (s t : Store)
      → set_owned_route sha256 mailbox address expires key now s ≡ ok t
      → (at : ℕ) → at < expires
      → get_route_with_expiry mailbox at t ≡ ok (address, expires)
  unfolding get_route_with_expiry
  registered_route_found mailbox address expires key now s t e at before =
      let valid = (set_owned_route_parts sha256 mailbox address expires key now s t e).valid in
      let good = (valid_route_facts mailbox address expires key now valid).0 in
      let found = find_route-upsert mailbox address expires now at s.routes before in
      rw
        (
          registered_routes mailbox address expires key now s t e,
          found,
          good,
          get_route_with_expiry,
        )
        refl

  -- A registration leaves the lookups of the other mailboxes as they were.
  pub other_routes_kept :
      (mailbox address : Bytes) (expires : ℕ) (key : Bytes) (now : ℕ) (s t : Store)
      → set_owned_route sha256 mailbox address expires key now s ≡ ok t
      → (at : ℕ) (other : Bytes) → other ≢ mailbox
      → get_route_with_expiry other at t ≡ get_route_with_expiry other at s
  unfolding get_route_with_expiry
  other_routes_kept mailbox address expires key now s t e at other different =
      let found = find_route-upsert_other mailbox address expires now at other s.routes different in
      rw (registered_routes mailbox address expires key now s t e, found, get_route_with_expiry)
        refl
