-- ===== src/Tests/Tables.antt =====
-- The local tables at concrete inputs: contacts, known peers, their routes, messages, the mailbox ID and
-- the outbox.
use inkmail.Base.{
  suc, ◌≤◌, ◌≡◌, inr, refl, true, keep, List, [], ◌∷◌, none, some, Bytes, codes, ok, err, Result,
  arith, same, is_space,
}
use inkmail.Hex.{hex_digit, decode_pairs, decode_hex, encode_hex}
use inkmail.Limits.{defaults}
use inkmail.Store.Schema.{Store, empty}
use inkmail.Peers.Contact.{PeerContact, print_contact, parse_peer_contact}
use inkmail.Peers.Contact.Printing.{Proper, ends_in_colon, parse_peer_contact-print_contact}
use inkmail.Peers.Directory.{
  PeerIdentity, has_alias, find_peer, ensure_capacity, upsert_peer, record_peer_identity,
}
use inkmail.Peers.Directory.Aliases.{IsRegistry}
use inkmail.Peers.Directory.Naming as Naming
use inkmail.Peers.Directory.Naming.{identity_of, Reach-IsRegistry, record_peer_contact-identity_of}
use inkmail.Peers.Routes.{
  of_peer, Route, count, at_address, register_among, upsert_route, register_or_replace, store_route,
}
use inkmail.Peers.Routes.Freshest.{directory, updated, register_or_replace-updated}
use inkmail.Peers.Routes.Quota.{active_of, active_at, store_route-expired_row}
use inkmail.Letters.{Letter, status_delivered}
use inkmail.Letters.Storing.{store_message, upsert_letter}
use inkmail.Letters.Once.{StoredOnce, store_message-StoredOnce}
use inkmail.Messages.{sender_key, recipient_key}
use inkmail.Outgoing.Synced.{Round, sync_outbox-exact}
use inkmail.Tests.Envelopes.{bytes_of_size, length-bytes_of_size, sized-IsBytes}
use inkmail.Tests.Handshakes.{unicode, alice_named}
use inkmail.Tests.Mail.{letter}

abbrev contact : PeerContact
contact = record {
  namespace = codes "alice";
  public_key = bytes_of_size 32;
  encryption_public_key = bytes_of_size 32;
  mailbox_id = encode_hex (bytes_of_size 32);
}

proper : Proper unicode contact
unfolding is_space ends_in_colon
proper = record {
  named = alice_named;
  no_spaces = (refl, (refl, (refl, (refl, (refl, tt)))));
  no_colon_last = refl;
  key_bytes = sized-IsBytes;
  key_size = length-bytes_of_size 32;
  encryption_bytes = sized-IsBytes;
  encryption_size = length-bytes_of_size 32;
  mailbox_bytes = bytes_of_size 32;
  mailbox_IsBytes = sized-IsBytes;
  mailbox_size = length-bytes_of_size 32;
  mailbox = refl;
}

parse_peer_contact-print_contact_example :
    parse_peer_contact unicode (print_contact contact) ≡ ok contact
parse_peer_contact-print_contact_example = parse_peer_contact-print_contact unicode contact proper

abbrev peer : PeerIdentity
peer = record {
  namespace = codes "bob";
  public_key = 1 ∷ [];
  encryption_public_key = none;
  mailbox_id = [];
  alias = [];
  first_seen = 5;
  last_seen = 5;
}

recorded : record_peer_identity 10 (codes "bob") (1 ∷ []) none 5 [] ≡ ok (peer ∷ [])
unfolding record_peer_identity ensure_capacity upsert_peer
recorded = refl

no_peers : IsRegistry 10 []
no_peers = record {
  distinct = λ namespace key. omega arith;
  aliases = λ a n. omega arith;
  within = omega arith;
}

Reach-IsRegistry_example : IsRegistry 10 (peer ∷ [])
Reach-IsRegistry_example =
    Reach-IsRegistry {limit = 10} {ps = []} {qs = peer ∷ []} no_peers
      (Naming.next Naming.here (Naming.recorded (codes "bob") (1 ∷ []) none 5 recorded))

abbrev named_peer : PeerIdentity
named_peer = record peer { alias = codes "friend" }

refreshed :
    record_peer_identity 10 (codes "bob") (1 ∷ []) (some []) 8 (named_peer ∷ [])
    ≡ ok (record named_peer { encryption_public_key = some []; last_seen = 8 } ∷ [])
unfolding record_peer_identity ensure_capacity upsert_peer same
refreshed = refl

record_peer_contact-identity_of_example :
    identity_of (
      find_peer
        (has_alias (codes "friend"))
        (record named_peer { encryption_public_key = some []; last_seen = 8 } ∷ []))
    ≡ identity_of (find_peer (has_alias (codes "friend")) (named_peer ∷ []))
record_peer_contact-identity_of_example =
    record_peer_contact-identity_of 10 (codes "bob") (1 ∷ []) [] [] (some []) 8 (named_peer ∷ []) _
      (codes "friend") (λ e. ground arith) (inr refreshed)

abbrev old_route : Route
old_route = record {
  namespace = codes "bob";
  public_key = 1 ∷ [];
  address = codes "old:1";
  expires_at = 9;
  last_seen = 2;
}

abbrev new_route : Route
new_route = record old_route { address = codes "new:1"; expires_at = 90; last_seen = 10 }

replaced :
    register_or_replace defaults (codes "bob") (1 ∷ []) (codes "new:1") 90 10 (old_route ∷ [])
    ≡ ok (new_route ∷ [])
unfolding register_or_replace register_among upsert_route defaults same
replaced = refl

one_row :
    (namespace key address : Bytes) → count (at_address namespace key address) (old_route ∷ []) ≤ 1
one_row namespace key address = ground arith

register_or_replace-updated_example :
    (directory 50 (new_route ∷ []) (codes "bob") (1 ∷ [])
      ≡ updated
          (codes "bob")
          (1 ∷ [])
          (codes "new:1", 90)
          (directory 50 (old_route ∷ []))
          (codes "bob")
          (1 ∷ []))
    × (keep (of_peer (codes "bob") (1 ∷ [])) (new_route ∷ []) ≡ new_route ∷ [])
register_or_replace-updated_example =
    register_or_replace-updated defaults (codes "bob") (1 ∷ []) (codes "new:1") 90 10 50
      (old_route ∷ []) (new_route ∷ []) (codes "bob") (1 ∷ []) one_row replaced (omega arith)

one_expired :
    (count (at_address (codes "bob") (1 ∷ []) (codes "old:1")) (old_route ∷ []) ≡ 1)
    × (count (active_at (codes "bob") (1 ∷ []) (codes "old:1") 10) (old_route ∷ []) ≡ 0)
unfolding same
one_expired = (refl, refl)

store_route-expired_row_example :
    (qs : List Route) × (store_route defaults
        (codes "bob")
        (1 ∷ [])
        (codes "old:1")
        90
        10
        (old_route ∷ [])
      ≡ ok qs)
    × (count (active_of (codes "bob") (1 ∷ []) 10) qs
        ≡ suc (count (active_of (codes "bob") (1 ∷ []) 10) (old_route ∷ [])))
store_route-expired_row_example =
    store_route-expired_row (codes "bob") (1 ∷ []) (codes "old:1") 90 10 (omega arith) defaults
      (old_route ∷ []) one_expired.0 one_expired.1

abbrev letters_of : {E : Type 0} → Result E (List Letter) → List Letter
letters_of (ok ls) = ls
letters_of (err e) = []

abbrev stored : List Letter
stored = letters_of (store_message (letter (codes "ink")) (codes "received") status_delivered 9 [])

stored_ok :
    store_message (letter (codes "ink")) (codes "received") status_delivered 9 [] ≡ ok stored
unfolding store_message sender_key recipient_key upsert_letter decode_hex decode_pairs hex_digit
    encode_hex bytes_of_size same
stored_ok = refl

store_message-StoredOnce_example :
    StoredOnce (letter (codes "ink")) (codes "received") status_delivered 9 [] stored
store_message-StoredOnce_example =
    store_message-StoredOnce (letter (codes "ink")) (codes "received") status_delivered 9 [] stored
      (omega arith) stored_ok

abbrev outbox : Store
outbox = record (empty defaults) {
  outbox =
      record { id = codes "m"; mailbox_id = codes "b"; payload = codes "p"; stored_at = 3 } ∷ [];
}

sync_outbox-exact_example : Round (λ a e. true) (λ b. none) (codes "relay" ∷ []) outbox
sync_outbox-exact_example = sync_outbox-exact (λ a e. true) (λ b. none) (codes "relay" ∷ []) outbox
