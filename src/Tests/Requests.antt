-- ===== src/Tests/Requests.antt =====
-- The handlers at concrete inputs. The libraries of the tests know one body for each request.
use inkmail.Base.{
  ◌≡◌, ◌≢◌, refl, [], ◌∷◌, some, Bytes, codes, ok, ◌⊎◌, same, trim_space, trim_left, trim_right,
  is_space, equal_fold, to_lower,
}
use inkmail.Hex.{hex_digit, decode_pairs, decode_hex}
use inkmail.Limits.{defaults}
use inkmail.Session.{
  validate_mailbox_id, validate_opaque_token, authorize_mailbox_id, same_bytes,
  record_fetched_message,
}
use inkmail.Store.Schema.{empty, hash_security_key}
use inkmail.Store.Routes.{
  valid_route, claim, find_owner, write_route, upsert_route, set_owned_route, mailbox_owned_by,
}
use inkmail.Store.Held.{
  store_held, check_submission, admit, find_record, check_quotas, insert_held, purge, list_held,
  sort_by_time, insert_by_time, fill,
}
use inkmail.Mailbox
use inkmail.Mailbox.{MailboxEnvelope}
use inkmail.Daddy.{
  Libraries, Node, RouteRegistration, AckBody, registered, held, delivery,
  validate_advertised_address, authorize_mailbox_owner,
}
use inkmail.Daddy.Handlers.{
  clamp_expiry, store_route, register_in_session, handle_register_route, handle_hold_message,
  handle_fetch_messages, handle_delivery_ack, fetch_authorized, offer_all, offered, hold_answer,
}
use inkmail.Daddy.Guards.{Deletes, handle_delivery_ack-Deletes}
use inkmail.Daddy.Holding.{Holds, handle_hold_message-Holds}
use inkmail.Daddy.Exchanges.{Gives, handle_fetch_messages-Gives}
use inkmail.Daddy.Registration.{Routed, handle_register_route-Routed}
use inkmail.Tests.Holding.{token_a, token_b}
use inkmail.Tests.Frames.{session}

abbrev pub envelope : MailboxEnvelope
envelope = record {
  id = token_a;
  mailbox_id = token_b;
  ephemeral_public_key = token_a;
  nonce = 0 ∷ 0 ∷ 0 ∷ 0 ∷ 0 ∷ 0 ∷ 0 ∷ 0 ∷ 0 ∷ 0 ∷ 0 ∷ 0 ∷ [];
  ciphertext = token_b;
}

abbrev pub lib : Libraries
lib = record {
  parse_registration =
      λ b. some (record { mailbox_id = token_b; address = b; expires_at = 500000 });
  parse_mailbox = λ b. some b;
  parse_envelope = λ b. some envelope;
  print_envelope = λ e. e.ciphertext;
  parse_ack = λ b. some (record { message_id = token_a; mailbox_id = token_b; status = b });
  split_host_port = λ a. some (a, codes "7777");
  sha256 = λ b. b;
}

abbrev node : Node
node = record { session = session; store = empty defaults }

abbrev address : Bytes
address = codes "10.0.0.1:7777"

abbrev registered_node : Node
registered_node = (handle_register_route lib address 1000 node).1

-- The expiry asked for is cut to a day.
registration : (handle_register_route lib address 1000 node).0 ≡ ok (registered 87400)
unfolding handle_register_route register_in_session clamp_expiry store_route
    validate_advertised_address validate_mailbox_id validate_opaque_token decode_hex decode_pairs
    hex_digit trim_space trim_left trim_right is_space same authorize_mailbox_id set_owned_route
    valid_route claim find_owner write_route upsert_route empty defaults hash_security_key
    same_bytes
registration = refl

handle_register_route-Routed_example :
    (r : RouteRegistration) × (lib.parse_registration address ≡ some r)
    × Routed lib r 87400 1000 node registered_node
handle_register_route-Routed_example =
    handle_register_route-Routed lib address 1000 node 87400 registration

handle_hold_message-Holds_example :
    (((id : Bytes) → (handle_hold_message lib token_a 1000 node).0 ≢ ok (held id))
      × ((handle_hold_message lib token_a 1000 node).1.store ≡ node.store))
    ⊎ ((e : MailboxEnvelope) × (lib.parse_envelope token_a ≡ some e)
        × ((handle_hold_message lib token_a 1000 node).0 ≡ ok (held e.id))
        × Holds lib e 1000 node (handle_hold_message lib token_a 1000 node).1)
handle_hold_message-Holds_example = handle_hold_message-Holds lib token_a 1000 node

-- The registered owner of the mailbox polls it after an envelope was held.
abbrev holding : Node
holding = (handle_hold_message lib token_a 1000 registered_node).1

polled : (handle_fetch_messages lib token_b 2000 holding).0 ≡ ok (delivery (envelope ∷ []))
unfolding handle_fetch_messages authorize_mailbox_owner mailbox_owned_by fetch_authorized offer_all
    offered list_held sort_by_time insert_by_time fill record_fetched_message handle_hold_message
    hold_answer store_held check_submission admit find_record check_quotas insert_held purge
    Mailbox.validate handle_register_route register_in_session clamp_expiry store_route
    validate_advertised_address validate_mailbox_id validate_opaque_token decode_hex decode_pairs
    hex_digit trim_space trim_left trim_right is_space equal_fold to_lower same authorize_mailbox_id
    set_owned_route valid_route claim find_owner write_route upsert_route empty defaults
    hash_security_key same_bytes
polled = refl

handle_fetch_messages-Gives_example :
    ((handle_fetch_messages lib token_b 2000 holding).1.store ≡ holding.store)
    × (((envelope ∷ []) ≡ [])
        ⊎ ((mailbox : Bytes) × (lib.parse_mailbox token_b ≡ some mailbox)
            × Gives lib mailbox holding
                (handle_fetch_messages lib token_b 2000 holding).1
                (envelope ∷ [])))
handle_fetch_messages-Gives_example =
    handle_fetch_messages-Gives lib token_b 2000 holding (envelope ∷ []) polled

abbrev fetched : Node
fetched = (handle_fetch_messages lib token_b 2000 holding).1

handle_delivery_ack-Deletes_example :
    ((handle_delivery_ack lib (codes "delivered") fetched).1.store ≡ fetched.store)
    ⊎ ((a : AckBody) × (lib.parse_ack (codes "delivered") ≡ some a)
        × Deletes lib a fetched (handle_delivery_ack lib (codes "delivered") fetched).1)
handle_delivery_ack-Deletes_example = handle_delivery_ack-Deletes lib (codes "delivered") fetched
