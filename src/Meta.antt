-- ===== src/Meta.antt =====
-- The table `node_meta` of internal/database/database.go: `SetMeta`, `GetMeta` and
-- `GetOrCreateMailboxID`; and the settings that internal/network/daddy.go keeps there. The random bytes
-- of a new mailbox ID are an argument.
pub mod Mailbox
use inkmail.Base.{
  ℕ, Bool, true, false, not, ◌&&◌, [], Option, none, some, ◌==◌, if◌then◌else◌, Bytes, codes, same,
  trim_space, length, Result, ok, err,
}
use inkmail.Base.Map
use inkmail.Base.Map.{Map}
use inkmail.Hex.{encode_hex, decode_hex}
use inkmail.Daddy.{Libraries, validate_advertised_address}

abbrev pub Metadata : Type 0
Metadata = Map Bytes

unfoldable pub set_meta : Bytes → Bytes → Metadata → Metadata
set_meta key value t = Map.put key value t

unfoldable pub get_meta : Bytes → Metadata → Option Bytes
get_meta key t = Map.get key t

pub data MetaError : Type 0 where
  invalid_stored_mailbox invalid_address : MetaError

abbrev pub mailbox_key : Bytes
mailbox_key = codes "mailbox_id"

abbrev pub has_size : ℕ → Option Bytes → Bool
has_size n none = false
has_size n (some bytes) = length bytes == n

abbrev pub checked_mailbox : Bytes → Result MetaError Bytes
checked_mailbox value =
    if has_size 32 (decode_hex value) then ok value else err invalid_stored_mailbox

-- The ID that is stored, or a new one of 32 random bytes, which is stored first.
unfoldable pub get_or_create_mailbox_id : Bytes → Metadata → Result MetaError Bytes × Metadata
unfolding set_meta get_meta
get_or_create_mailbox_id random t = elim (get_meta mailbox_key t) [
  | some value ↦ (checked_mailbox value, t)
  | none ↦ (checked_mailbox (encode_hex random), set_meta mailbox_key (encode_hex random) t)
]

abbrev pub daddy_key : Bytes
daddy_key = codes "daddy_address"

abbrev pub advertised_key : Bytes
advertised_key = codes "advertised_address"

abbrev pub or_empty : Option Bytes → Bytes
or_empty none = []
or_empty (some a) = trim_space a

unfoldable pub daddy_address_from_db : Metadata → Bytes
unfolding get_meta
daddy_address_from_db t = or_empty (get_meta daddy_key t)

unfoldable pub set_daddy_address : Bytes → Metadata → Metadata
unfolding set_meta
set_daddy_address address t = set_meta daddy_key (trim_space address) t

unfoldable pub set_advertised_address : Libraries → Bytes → Metadata → Result MetaError Metadata
unfolding set_meta
set_advertised_address lib raw t =
    let address = trim_space raw in
    if same address []
    then ok (set_meta advertised_key [] t)
    else if validate_advertised_address lib address
    then ok (set_meta advertised_key address t)
    else err invalid_address

-- `discoverAdvertisedAddress`: the address that was set, if it is valid, or else the host by which the
-- remote end is reached, with the port that the daemon listens on. `local_host` and `join_host_port` are
-- the functions of `net`.
pub data DiscoverError : Type 0 where
  unknown_port no_local_host : DiscoverError

abbrev pub joined : (Bytes → Bytes → Bytes) → Option Bytes → Bytes → Result DiscoverError Bytes
joined join_host_port none port = err no_local_host
joined join_host_port (some host) port = ok (join_host_port host port)

unfoldable pub discover_advertised_address :
    Libraries
    → (Bytes → Option Bytes)
    → (Bytes → Bytes → Bytes)
    → Bytes
    → Metadata
    → Result DiscoverError Bytes
unfolding get_meta
discover_advertised_address lib local_host join_host_port remote t =
    let set = or_empty (get_meta advertised_key t) in
    let port = or_empty (get_meta (codes "listen_port") t) in
    if not (same set []) && validate_advertised_address lib set
    then ok set
    else if same port []
    then err unknown_port
    else joined join_host_port (local_host remote) port
