-- ===== src/Peers/Directory.antt =====
-- The known peers: the table `peer_identities` of internal/database/database.go with
-- `RecordPeerIdentityWithKey`, `RecordPeerContact`, `ListPeerIdentities` and `GetPeerIdentity`, the
-- aliases of internal/database/peers.go and internal/database/peers_alias.go, and
-- `ensurePeerIdentityCapacity` of internal/database/resource_usage.go.
pub mod Aliases
pub mod Capacity
pub mod Naming
use inkmail.Base.{
  ℕ, ◌+◌, ◌-◌, ◌*◌, Bool, true, false, not, ◌||◌, ◌&&◌, List, [], ◌∷◌, ◌++◌, Option, none, some,
  ltb, leb, ◌==◌, if◌then◌else◌, Bytes, codes, same, equal_fold, contains, trim_space, to_lower,
  map, length, keep, Result, ok, err, reject_if, ◌>>=◌, ◌>>◌,
}
use inkmail.Base.Decimal.{before, all_of, is_int, member}
use inkmail.Hex.{decode_hex}

pub record PeerIdentity : Type 0 where
  pub namespace : Bytes
  pub public_key : Bytes
  pub encryption_public_key : Option Bytes
  pub mailbox_id : Bytes
  pub alias : Bytes
  pub first_seen : ℕ
  pub last_seen : ℕ

pub data PeerError : Type 0 where
  identity_quota invalid_peer_mailbox invalid_key_size peer_not_found : PeerError
  empty_alias alias_too_long numeric_alias alias_with_separator malformed_alias reserved_alias :
      PeerError
  alias_owned namespace_collision unique_constraint : PeerError

abbrev pub is_peer : Bytes → Bytes → PeerIdentity → Bool
is_peer namespace key p = same p.namespace namespace && same p.public_key key

-- `COALESCE`
abbrev pub coalesce : Option Bytes → Option Bytes → Option Bytes
coalesce none old = old
coalesce (some k) old = some k

unfoldable pub ensure_capacity : Bytes → Bytes → ℕ → List PeerIdentity → Result PeerError (Unit {0})
ensure_capacity namespace key limit ps =
    if ltb 0 (length (keep (is_peer namespace key) ps))
    then ok tt
    else if leb limit (length ps)
    then err identity_quota
    else ok tt

-- `INSERT ... ON CONFLICT(namespace, public_key) DO UPDATE`
unfoldable pub upsert_peer :
    PeerIdentity → (PeerIdentity → PeerIdentity) → List PeerIdentity → List PeerIdentity
upsert_peer fresh update [] = fresh ∷ []
upsert_peer fresh update (p ∷ ps) =
    let rest = upsert_peer fresh update ps in
    if is_peer fresh.namespace fresh.public_key p then update p ∷ ps else p ∷ rest

abbrev pub identity_row : Bytes → Bytes → Option Bytes → ℕ → PeerIdentity
identity_row namespace key encryption_key now = record {
  namespace = namespace;
  public_key = key;
  encryption_public_key = encryption_key;
  mailbox_id = [];
  alias = [];
  first_seen = now;
  last_seen = now;
}

abbrev pub refresh_identity : Option Bytes → ℕ → PeerIdentity → PeerIdentity
refresh_identity encryption_key now p = record p {
  encryption_public_key = coalesce encryption_key p.encryption_public_key;
  last_seen = now;
}

unfoldable pub record_peer_identity :
    ℕ → Bytes → Bytes → Option Bytes → ℕ → List PeerIdentity → Result PeerError (List PeerIdentity)
unfolding ensure_capacity upsert_peer
record_peer_identity limit namespace key encryption_key now ps =
    ensure_capacity namespace key limit ps
    >> ok (
        upsert_peer (identity_row namespace key encryption_key now)
          (refresh_identity encryption_key now) ps)

abbrev pub has_size : ℕ → Option Bytes → Bool
has_size n none = false
has_size n (some bytes) = length bytes == n

abbrev pub refresh_contact : Bytes → Bytes → ℕ → PeerIdentity → PeerIdentity
refresh_contact encryption_key mailbox now p = record p {
  encryption_public_key = some encryption_key;
  mailbox_id = mailbox;
  last_seen = now;
}

unfoldable pub record_peer_contact :
    ℕ → Bytes → Bytes → Bytes → Bytes → ℕ → List PeerIdentity → Result PeerError (List PeerIdentity)
unfolding ensure_capacity upsert_peer
record_peer_contact limit namespace key encryption_key mailbox now ps = do
  reject_if (not (has_size 32 (decode_hex mailbox))) invalid_peer_mailbox
  reject_if (not (length key == 32) || not (length encryption_key == 32)) invalid_key_size
  ensure_capacity namespace key limit ps
  ok (
      upsert_peer
        (record (identity_row namespace key (some encryption_key) now) { mailbox_id = mailbox })
        (refresh_contact encryption_key mailbox now) ps)

abbrev pub peer_before : PeerIdentity → PeerIdentity → Bool
peer_before p q =
    before p.namespace q.namespace
    || (same p.namespace q.namespace && before p.public_key q.public_key)

unfoldable pub insert_peer : PeerIdentity → List PeerIdentity → List PeerIdentity
unfolding before
insert_peer p [] = p ∷ []
insert_peer p (q ∷ qs) =
    let rest = insert_peer p qs in if peer_before q p then q ∷ rest else p ∷ q ∷ qs

-- `ORDER BY namespace, public_key`
unfoldable pub list_peer_identities : List PeerIdentity → List PeerIdentity
unfolding insert_peer
list_peer_identities [] = []
list_peer_identities (p ∷ ps) = insert_peer p (list_peer_identities ps)

unfoldable pub find_peer : (PeerIdentity → Bool) → List PeerIdentity → Option PeerIdentity
find_peer test [] = none
find_peer test (p ∷ ps) = let rest = find_peer test ps in if test p then some p else rest

abbrev pub or_missing : Option PeerIdentity → Result PeerError PeerIdentity
or_missing none = err peer_not_found
or_missing (some p) = ok p

unfoldable pub get_peer_identity : Bytes → Bytes → List PeerIdentity → Result PeerError PeerIdentity
unfolding list_peer_identities find_peer
get_peer_identity namespace key ps =
    or_missing (find_peer (is_peer namespace key) (list_peer_identities ps))

-- `alias = ? COLLATE NOCASE`
abbrev pub has_alias : Bytes → PeerIdentity → Bool
has_alias alias p = equal_fold p.alias alias

unfoldable pub get_peer_by_alias : Bytes → List PeerIdentity → Result PeerError PeerIdentity
unfolding find_peer
get_peer_by_alias raw ps =
    if same (trim_space raw) []
    then err empty_alias
    else or_missing (find_peer (has_alias (trim_space raw)) ps)

unfoldable pub is_word : ℕ → Bool
is_word c =
    (leb b'A' c && leb c b'Z')
    || (leb b'a' c && leb c b'z')
    || (leb b'0' c && leb c b'9')
    || c == b'_'

-- `^[A-Za-z0-9_][A-Za-z0-9_-]{0,31}$`
unfoldable pub alias_pattern : Bytes → Bool
unfolding is_word all_of
alias_pattern [] = false
alias_pattern (c ∷ s) = is_word c && all_of (λ d. is_word d || d == b'-') s && leb (length s) 31

abbrev pub max_alias_length : ℕ
max_alias_length = 32

abbrev pub reserved_aliases : List Bytes
reserved_aliases =
    codes "all"
    ∷ codes "inbox"
    ∷ codes "archive"
    ∷ codes "important"
    ∷ codes "deleted"
    ∷ codes "msg"
    ∷ codes "peers"
    ∷ codes "relays"
    ∷ codes "send"
    ∷ codes "open"
    ∷ codes "help"
    ∷ codes "quit"
    ∷ codes "exit"
    ∷ codes "identity"
    ∷ codes "list"
    ∷ codes "add"
    ∷ codes "remove"
    ∷ codes "alias"
    ∷ codes "daddy"
    ∷ []

unfoldable pub validate_alias : Bytes → Result PeerError (Unit {0})
unfolding is_int alias_pattern member
validate_alias raw = do
  let alias = trim_space raw
  reject_if (same alias []) empty_alias
  reject_if (ltb max_alias_length (length alias)) alias_too_long
  reject_if (is_int alias) numeric_alias
  reject_if (contains alias (codes "::")) alias_with_separator
  reject_if (not (alias_pattern alias)) malformed_alias
  reject_if (member (map to_lower alias) reserved_aliases) reserved_alias

-- Another peer than the one named.
abbrev pub other_peer : Bytes → Bytes → PeerIdentity → Bool
other_peer namespace key p = not (same p.namespace namespace) || not (same p.public_key key)

abbrev pub is_other : Bytes → Bytes → Option PeerIdentity → Bool
is_other namespace key none = false
is_other namespace key (some p) = other_peer namespace key p

-- The checks on an alias that is not empty.
unfoldable pub check_alias : Bytes → Bytes → Bytes → List PeerIdentity → Result PeerError (Unit {0})
unfolding validate_alias find_peer list_peer_identities
check_alias namespace key alias ps = do
  validate_alias alias
  reject_if (is_other namespace key (find_peer (has_alias alias) ps)) alias_owned
  reject_if
      (ltb 0 (
        length (
          keep (λ p. equal_fold p.namespace alias && other_peer namespace key p)
            (list_peer_identities ps))))
      namespace_collision

unfoldable pub write_alias : Bytes → Bytes → Bytes → List PeerIdentity → List PeerIdentity
write_alias namespace key alias [] = []
write_alias namespace key alias (p ∷ ps) =
    let rest = write_alias namespace key alias ps in
    if is_peer namespace key p then record p { alias = alias } ∷ rest else p ∷ rest

-- The rows that break the unique index on aliases after the update.
abbrev pub holds_alias : Bytes → Bytes → Bytes → PeerIdentity → Bool
holds_alias namespace key alias p = has_alias alias p && not (is_peer namespace key p)

-- `UPDATE peer_identities SET alias = ?`, under the unique index on aliases that are not empty.
unfoldable pub update_alias :
    Bytes → Bytes → Bytes → List PeerIdentity → Result PeerError (List PeerIdentity)
unfolding write_alias
update_alias namespace key alias ps = do
  let rows = length (keep (is_peer namespace key) ps)
  reject_if (rows == 0) peer_not_found
  reject_if (not (same alias []) && ltb 0 (length (keep (holds_alias namespace key alias) ps)))
      unique_constraint
  ok (write_alias namespace key alias ps)

unfoldable pub set_peer_alias :
    Bytes → Bytes → Bytes → List PeerIdentity → Result PeerError (List PeerIdentity)
unfolding check_alias update_alias
set_peer_alias namespace key raw ps = do
  let alias = trim_space raw
  (if same alias [] then ok tt else check_alias namespace key alias ps)
  update_alias namespace key alias ps

-- `DELETE FROM peer_identities`
unfoldable pub delete_peer_row :
    Bytes → Bytes → List PeerIdentity → Result PeerError (List PeerIdentity)
delete_peer_row namespace key ps =
    if length (keep (is_peer namespace key) ps) == 0
    then err peer_not_found
    else ok (keep (λ p. not (is_peer namespace key p)) ps)
