-- ===== src/Store/Routes.antt =====
-- Mailbox routes and their owners: `SetOwnedMailboxRoute`, `MailboxOwnedBy`, `SetMailboxRoute`,
-- `GetMailboxRouteWithExpiry` and `DeleteExpiredMailboxRoutesCount` of internal/database/mailbox_privacy.go.
-- An expiry is a natural number; the program's may be negative, which it refuses as it refuses 0.
pub mod Ownership
pub mod Lookup
use inkmail.Base.{
  ℕ, ◌+◌, Bool, true, false, not, ◌||◌, ◌&&◌, List, [], ◌∷◌, ◌++◌, Option, none, some, ltb, leb,
  ◌==◌, if◌then◌else◌, Bytes, same, trim_space, length, keep, Result, ok, err, reject_if, ◌>>◌,
  ◌>>=◌,
}
use inkmail.Session.{validate_opaque_token, same_bytes}
use inkmail.Store.Schema.{Owner, MailboxRoute, Store, hash_security_key}

pub data RouteError : Type 0 where
  invalid_mailbox_id invalid_route invalid_ownership_check : RouteError
  owner_quota route_quota : RouteError
  different_owner : RouteError
  no_active_route : RouteError

-- `SELECT owner_key_hash FROM mailbox_owners WHERE mailbox_id = ?`
unfoldable pub find_owner : Bytes → List Owner → Option Bytes
find_owner mailbox [] = none
find_owner mailbox (o ∷ os) =
    let rest = find_owner mailbox os in
    if same o.mailbox_id mailbox then some o.owner_key_hash else rest

-- `INSERT INTO mailbox_routes ... ON CONFLICT(mailbox_id) DO UPDATE`
unfoldable pub upsert_route : Bytes → Bytes → ℕ → ℕ → List MailboxRoute → List MailboxRoute
upsert_route mailbox address expires now [] =
    record { mailbox_id = mailbox; address = address; expires_at = expires; last_seen = now } ∷ []
upsert_route mailbox address expires now (r ∷ rs) =
    let rest = upsert_route mailbox address expires now rs in
    if same r.mailbox_id mailbox
    then record r { address = address; expires_at = expires; last_seen = now } ∷ rs
    else r ∷ rest

-- A value that equals what is stored in a `WHERE` test; a missing row passes no test.
abbrev pub equals_some : Bytes → Option Bytes → Bool
equals_some hash none = false
equals_some hash (some h) = same h hash

-- The rows of the join of routes and owners: a mailbox has at most one owner row.
abbrev pub active_route : List Owner → Bytes → ℕ → Bytes → MailboxRoute → Bool
active_route owners hash now mailbox r =
    equals_some hash (find_owner r.mailbox_id owners)
    && (ltb now r.expires_at && not (same r.mailbox_id mailbox))

-- The branch on the owner that is stored: a new mailbox is claimed if there is room for an owner.
unfoldable pub claim : Bytes → Bytes → Store → Result RouteError Store
unfolding find_owner
claim mailbox hash s = elim (find_owner mailbox s.owners) [
  | none ↦
      if leb s.limits.mailbox_owners_global (length s.owners)
      then err owner_quota
      else ok (record s {
        owners = s.owners ++ (record { mailbox_id = mailbox; owner_key_hash = hash } ∷ []);
      })
  | some stored ↦ if same_bytes stored hash then ok s else err different_owner
]

-- The count of the owner's other active routes, and the write.
unfoldable pub write_route : Bytes → Bytes → ℕ → Bytes → ℕ → Store → Result RouteError Store
unfolding upsert_route
write_route mailbox address expires hash now s =
    if leb s.limits.routes_per_identity
      (length (keep (active_route s.owners hash now mailbox) s.routes))
    then err route_quota
    else ok (record s { routes = upsert_route mailbox address expires now s.routes })

unfoldable pub valid_route : Bytes → Bytes → ℕ → Bytes → ℕ → Result RouteError (Unit {0})
valid_route mailbox address expires owner_key now = do
  reject_if (not (validate_opaque_token mailbox)) invalid_mailbox_id
  reject_if (same (trim_space address) [] || leb expires now || not (length owner_key == 32))
      invalid_route

module _ (sha256 : Bytes → Bytes) where
  abbrev pub owner_hash : Bytes → Bytes
  owner_hash key = hash_security_key sha256 "inkmail-mailbox-owner-v1" key

  unfoldable pub set_owned_route : Bytes → Bytes → ℕ → Bytes → ℕ → Store → Result RouteError Store
  unfolding valid_route
  set_owned_route mailbox address expires owner_key now s = do
    valid_route mailbox address expires owner_key now
    claimed ← claim mailbox (owner_hash owner_key) s
    write_route mailbox address expires (owner_hash owner_key) now claimed

  unfoldable pub mailbox_owned_by : Bytes → Bytes → Store → Result RouteError Bool
  unfolding find_owner
  mailbox_owned_by mailbox owner_key s =
      if not (validate_opaque_token mailbox) || not (length owner_key == 32)
      then err invalid_ownership_check
      else elim (find_owner mailbox s.owners) [
        | none ↦ ok false
        | some stored ↦ ok (same_bytes stored (owner_hash owner_key))
      ]

-- `SetMailboxRoute`: a route that this node learned, with no owner.
unfoldable pub set_route : Bytes → Bytes → ℕ → ℕ → Store → Result RouteError Store
unfolding upsert_route
set_route mailbox address expires now s = do
  reject_if (not (validate_opaque_token mailbox)) invalid_mailbox_id
  reject_if (same (trim_space address) [] || leb expires now) invalid_route
  ok (record s { routes = upsert_route mailbox address expires now s.routes })

-- `SELECT address, expires_at FROM mailbox_routes WHERE mailbox_id = ? AND expires_at > ?`
unfoldable pub find_route : Bytes → ℕ → List MailboxRoute → Option (Bytes × ℕ)
find_route mailbox now [] = none
find_route mailbox now (r ∷ rs) =
    let rest = find_route mailbox now rs in
    if same r.mailbox_id mailbox && ltb now r.expires_at
    then some (r.address, r.expires_at)
    else rest

unfoldable pub get_route_with_expiry : Bytes → ℕ → Store → Result RouteError (Bytes × ℕ)
unfolding find_route
get_route_with_expiry mailbox now s =
    if not (validate_opaque_token mailbox)
    then err invalid_mailbox_id
    else elim (find_route mailbox now s.routes) [
      | none ↦ err no_active_route
      | some found ↦ ok found
    ]

unfoldable pub expire_routes : ℕ → Store → ℕ × Store
expire_routes now s = (
  length (keep (λ r. leb r.expires_at now) s.routes),
  record s { routes = keep (λ r. ltb now r.expires_at) s.routes },
)
