-- ===== src/Daddy/Handlers.antt =====
-- The five handlers.
use inkmail.Base.{
  ℕ, zero, suc, ◌+◌, Bool, true, false, not, ◌||◌, ◌&&◌, List, [], ◌∷◌, Option, none, some, ltb,
  leb, ◌==◌, if◌then◌else◌, Bytes, codes, same, equal_fold, length, Result, ok, err, is_ok,
}
use inkmail.Session.{
  Session, validate_mailbox_id, authorize_mailbox_id, record_fetched_message,
  consume_fetched_message,
}
use inkmail.Store.Schema.{Held, Store}
use inkmail.Store.Held.{HeldError, max_opaque_envelope_size, store_held, list_held, delete_held}
use inkmail.Store.Routes.{set_owned_route, get_route_with_expiry}
use inkmail.Mailbox
use inkmail.Mailbox.{MailboxEnvelope}
use inkmail.Daddy.{
  Libraries, Node, Handled, RouteRegistration, AckBody, relay, max_route_lifetime, held_message_ttl,
  max_held_message_batch, is_quota, safe_route_registration_reason, validate_advertised_address,
  authorize_mailbox_owner, malformed, invalid_mailbox, mailbox_mismatch, owner_required,
  bad_address, already_expired, quota_exceeded, admission_failed, too_large, sender_required,
  invalid_envelope, registered, not_registered, found, unreachable, not_looked_up, held,
  already_stored, not_held, delivery, deleted, malformed_body, no_message_id, unauthorized,
  unknown_status, not_offered, list_failed, delete_failed,
}

module _ (lib : Libraries) where
  -- A route is advertised for a day at most.
  unfoldable pub clamp_expiry : ℕ → ℕ → ℕ
  clamp_expiry now expires =
      if ltb (now + max_route_lifetime) expires then now + max_route_lifetime else expires

  -- The write of a registration whose request was checked.
  unfoldable pub store_route : RouteRegistration → ℕ → ℕ → Node → Handled
  store_route r expires now n =
      elim (set_owned_route lib.sha256 r.mailbox_id r.address expires n.session.peer now n.store) [
        | err e ↦ (ok (not_registered (safe_route_registration_reason e)), n)
        | ok s ↦ (ok (registered expires), record n { store = s })
      ]

  -- The checks on the caller, the address and the time, in a session bound to the mailbox.
  unfoldable pub register_in_session : RouteRegistration → ℕ → Node → Handled
  unfolding clamp_expiry store_route
  register_in_session r now n =
      if not (length n.session.peer == 32) || same n.session.peer_namespace relay
      then (ok (not_registered owner_required), n)
      else if not (validate_advertised_address lib r.address)
      then (ok (not_registered bad_address), n)
      else if leb (clamp_expiry now r.expires_at) now
      then (ok (not_registered already_expired), n)
      else store_route r (clamp_expiry now r.expires_at) now n

  unfoldable pub handle_register_route : Bytes → ℕ → Node → Handled
  unfolding register_in_session
  handle_register_route body now n = elim (lib.parse_registration body) [
    | none ↦ (ok (not_registered malformed), n)
    | some r ↦
        if not (validate_mailbox_id r.mailbox_id)
        then (ok (not_registered invalid_mailbox), n)
        else elim (authorize_mailbox_id r.mailbox_id n.session) [
          | err e ↦ (ok (not_registered mailbox_mismatch), n)
          | ok s ↦ register_in_session r now (record n { session = s })
        ]
  ]

  unfoldable pub handle_lookup_route : Bytes → ℕ → Node → Handled
  handle_lookup_route body now n = elim (lib.parse_mailbox body) [
    | none ↦ (ok (not_looked_up malformed), n)
    | some mailbox ↦
        if not (validate_mailbox_id mailbox)
        then (ok (not_looked_up invalid_mailbox), n)
        else elim (get_route_with_expiry mailbox now n.store) [
          | err e ↦ (ok unreachable, n)
          | ok p ↦ (ok (found p.0 p.1), n)
        ]
  ]

  -- The answer to what the store says of a submission.
  unfoldable pub hold_answer : Bytes → Node → Result HeldError (Bool × Store) → Handled
  hold_answer id n (err e) =
      (ok (not_held id (if is_quota e then quota_exceeded else admission_failed)), n)
  hold_answer id n (ok (true, s)) = (ok (held id), record n { store = s })
  hold_answer id n (ok (false, s)) = (ok (already_stored id), record n { store = s })

  unfoldable pub handle_hold_message : Bytes → ℕ → Node → Handled
  unfolding hold_answer
  handle_hold_message body now n =
      if ltb max_opaque_envelope_size (length body)
      then (ok (not_held [] too_large), n)
      else if not (length n.session.peer == 32) || n.session.peer_anonymous
      then (ok (not_held [] sender_required), n)
      else elim (lib.parse_envelope body) [
        | none ↦ (ok (not_held [] malformed), n)
        | some e ↦
            if not (is_ok (Mailbox.validate e))
            then (ok (not_held e.id invalid_envelope), n)
            else hold_answer e.id n (
                store_held lib.sha256 e.id e.mailbox_id (lib.print_envelope e)
                  (now + held_message_ttl) n.session.peer now n.store)
      ]

  -- Whether a stored envelope is offered: it is well formed and addressed to the mailbox.
  unfoldable pub offered : Bytes → Held → Option MailboxEnvelope
  offered mailbox h = elim (lib.parse_envelope h.payload) [
    | none ↦ none
    | some e ↦
        if is_ok (Mailbox.validate e) && equal_fold e.mailbox_id mailbox then some e else none
  ]

  -- The loop over the stored envelopes, with the room that is left in the batch.
  unfoldable pub offer_all : ℕ → Bytes → List Held → Session → List MailboxEnvelope × Session
  unfolding offered
  offer_all room mailbox [] s = ([], s)
  offer_all zero mailbox (h ∷ hs) s = ([], s)
  offer_all (suc room) mailbox (h ∷ hs) s = elim (offered mailbox h) [
    | none ↦ offer_all (suc room) mailbox hs s
    | some e ↦
        let (rest, s') = offer_all room mailbox hs (record_fetched_message e.id mailbox s) in
        (e ∷ rest, s')
  ]

  unfoldable pub fetch_authorized : Bytes → ℕ → Node → Handled
  unfolding offer_all
  fetch_authorized mailbox now n = elim (list_held mailbox max_held_message_batch now n.store) [
    | err e ↦ (err list_failed, n)
    | ok hs ↦
        let (envelopes, s) = offer_all max_held_message_batch mailbox hs n.session in
        (ok (delivery envelopes), record n { session = s })
  ]

  unfoldable pub handle_fetch_messages : Bytes → ℕ → Node → Handled
  unfolding fetch_authorized
  handle_fetch_messages body now n = elim (lib.parse_mailbox body) [
    | none ↦ (err malformed_body, n)
    | some mailbox ↦
        if not (validate_mailbox_id mailbox)
        then (ok (delivery []), n)
        else let (authorized, n') = authorize_mailbox_owner lib mailbox n in
          elim authorized [
            | err e ↦ (ok (delivery []), n')
            | ok u ↦ fetch_authorized mailbox now n'
          ]
  ]

  -- An acknowledgement of an envelope that was offered.
  unfoldable pub settle : AckBody → Node → Handled
  settle a n =
      let (r, s) = delete_held a.message_id a.mailbox_id n.store in
      if not (same a.status (codes "delivered"))
      then (ok (deleted a.message_id a.mailbox_id), n)
      else if is_ok r
      then (ok (deleted a.message_id a.mailbox_id), record n { store = s })
      else (err delete_failed, record n { store = s })

  unfoldable pub ack_authorized : AckBody → Node → Handled
  unfolding settle
  ack_authorized a n =
      if not (same a.status (codes "delivered")) && not (same a.status (codes "rejected"))
      then (err unknown_status, n)
      else let (s, mine) = consume_fetched_message a.message_id a.mailbox_id n.session in
        if mine
        then settle a (record n { session = s })
        else (err not_offered, record n { session = s })

  unfoldable pub handle_delivery_ack : Bytes → Node → Handled
  unfolding ack_authorized
  handle_delivery_ack body n = elim (lib.parse_ack body) [
    | none ↦ (err malformed_body, n)
    | some a ↦
        if same a.message_id []
        then (err no_message_id, n)
        else let (authorized, n') = authorize_mailbox_owner lib a.mailbox_id n in
          elim authorized [ err e ↦ (err unauthorized, n') | ok u ↦ ack_authorized a n' ]
  ]
