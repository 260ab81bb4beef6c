-- ===== src/Peers/Routes.antt =====
-- The table `peer_routes` of internal/database/database.go: `StoreRoute`, `RegisterOrReplaceRoute`,
-- `ListRoutes`, `GetRoute` and the deletions, with `DeletePeerIdentity` of
-- internal/database/peers_delete.go. An expiry is a natural number; a negative one has passed, as 0 has.
pub mod Freshest
pub mod Quota
use inkmail.Base.{
  ℕ, Bool, true, false, not, ◌||◌, ◌&&◌, List, [], ◌∷◌, Option, none, some, ltb, leb, ◌==◌,
  if◌then◌else◌, Bytes, same, length, keep, Result, ok, err, reject_if, ◌>>=◌, ◌>>◌,
}
use inkmail.Limits.{Limits}
use inkmail.Peers.Directory.{PeerIdentity, PeerError, delete_peer_row}

pub record Route : Type 0 where
  pub namespace : Bytes
  pub public_key : Bytes
  pub address : Bytes
  pub expires_at : ℕ
  pub last_seen : ℕ

pub data PeerRouteError : Type 0 where
  identity_route_quota global_route_quota no_route : PeerRouteError

abbrev pub of_peer : Bytes → Bytes → Route → Bool
of_peer namespace key r = same r.namespace namespace && same r.public_key key

abbrev pub at_address : Bytes → Bytes → Bytes → Route → Bool
at_address namespace key address r = of_peer namespace key r && same r.address address

abbrev pub active : ℕ → Route → Bool
active now r = ltb now r.expires_at

abbrev pub count : (Route → Bool) → List Route → ℕ
count q rs = length (keep q rs)

-- `INSERT ... ON CONFLICT(namespace, public_key, address) DO UPDATE`
unfoldable pub upsert_route : Bytes → Bytes → Bytes → ℕ → ℕ → List Route → List Route
upsert_route namespace key address expires now [] =
    record {
      namespace = namespace;
      public_key = key;
      address = address;
      expires_at = expires;
      last_seen = now;
    }
    ∷ []
upsert_route namespace key address expires now (r ∷ rs) =
    let rest = upsert_route namespace key address expires now rs in
    if at_address namespace key address r
    then record r { expires_at = expires; last_seen = now } ∷ rs
    else r ∷ rest

-- The quota tests of `StoreRoute`, for an address that has no row yet.
unfoldable pub check_new_route :
    Limits → Bytes → Bytes → ℕ → List Route → Result PeerRouteError (Unit {0})
check_new_route limits namespace key now rs = do
  reject_if
      (leb limits.peer_routes_per_identity
        (count (λ r. of_peer namespace key r && active now r) rs))
      identity_route_quota
  reject_if (leb limits.peer_routes_global (count (active now) rs)) global_route_quota

unfoldable pub store_route :
    Limits → Bytes → Bytes → Bytes → ℕ → ℕ → List Route → Result PeerRouteError (List Route)
unfolding check_new_route upsert_route
store_route limits namespace key address expires now rs =
    (if count (at_address namespace key address) rs == 0
      then check_new_route limits namespace key now rs
      else ok tt)
    >> ok (upsert_route namespace key address expires now rs)

-- A row that a registration at the address supersedes.
abbrev pub superseded : Bytes → Bytes → Bytes → Route → Bool
superseded namespace key address r = of_peer namespace key r && not (same r.address address)

-- The transaction after the superseded rows are deleted.
unfoldable pub register_among :
    Limits → Bytes → Bytes → Bytes → ℕ → ℕ → List Route → Result PeerRouteError (List Route)
unfolding upsert_route
register_among limits namespace key address expires now rs = do
  reject_if
      (count (at_address namespace key address) rs == 0
        && leb limits.peer_routes_global (count (active now) rs))
      global_route_quota
  ok (upsert_route namespace key address expires now rs)

unfoldable pub register_or_replace :
    Limits → Bytes → Bytes → Bytes → ℕ → ℕ → List Route → Result PeerRouteError (List Route)
unfolding register_among
register_or_replace limits namespace key address expires now rs =
    register_among limits namespace key address expires now
      (keep (λ r. not (superseded namespace key address r)) rs)

-- `ORDER BY expires_at DESC, last_seen DESC`, rows that agree in both in insertion order.
abbrev pub fresher : Route → Route → Bool
fresher r q =
    ltb q.expires_at r.expires_at || (r.expires_at == q.expires_at && ltb q.last_seen r.last_seen)

unfoldable pub insert_route : Route → List Route → List Route
insert_route r [] = r ∷ []
insert_route r (q ∷ qs) =
    let rest = insert_route r qs in if fresher q r then q ∷ rest else r ∷ q ∷ qs

unfoldable pub sort_routes : List Route → List Route
unfolding insert_route
sort_routes [] = []
sort_routes (r ∷ rs) = insert_route r (sort_routes rs)

unfoldable pub list_routes : Bytes → Bytes → ℕ → List Route → List Route
unfolding sort_routes
list_routes namespace key now rs =
    sort_routes (keep (λ r. of_peer namespace key r && active now r) rs)

abbrev pub first_route : List Route → Result PeerRouteError Route
first_route [] = err no_route
first_route (r ∷ rs) = ok r

unfoldable pub get_route : Bytes → Bytes → ℕ → List Route → Result PeerRouteError Route
unfolding list_routes
get_route namespace key now rs = first_route (list_routes namespace key now rs)

-- The number of rows deleted, and the rows that stay.
unfoldable pub delete_expired_routes : ℕ → List Route → ℕ × List Route
delete_expired_routes now rs = (count (λ r. not (active now r)) rs, keep (active now) rs)

unfoldable pub delete_route : Bytes → Bytes → Bytes → List Route → List Route
delete_route namespace key address rs = keep (λ r. not (at_address namespace key address r)) rs

unfoldable pub delete_all_routes : Bytes → Bytes → List Route → List Route
delete_all_routes namespace key rs = keep (λ r. not (of_peer namespace key r)) rs

-- The peers and their routes.
pub record PeerTables : Type 0 where
  pub identities : List PeerIdentity
  pub routes : List Route

-- `DeletePeerIdentity`: both tables or, for an unknown peer, none.
unfoldable pub delete_peer_identity : Bytes → Bytes → PeerTables → Result PeerError PeerTables
delete_peer_identity namespace key t = do
  left ← delete_peer_row namespace key t.identities
  ok (record { identities = left; routes = delete_all_routes namespace key t.routes })
