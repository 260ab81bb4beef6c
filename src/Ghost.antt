-- ===== src/Ghost.antt =====
-- internal/network/ghost.go: the latency probe and the forwarding of envelopes over several hops. Whether
-- another node accepts what is forwarded to it is the environment's, `forwards address body`:
-- `sendGhostForward` returned no error. A hop count is a signed number, as the peer may send any.
pub mod Hops
use inkmail.Base.{
  ℕ, zero, suc, ◌+◌, Bool, true, false, not, ◌||◌, List, [], ◌∷◌, ◌++◌, Option, none, some, ltb,
  ◌==◌, if◌then◌else◌, Bytes, same, length, Result, ok, err,
}
use inkmail.Base.Int.{ℤ, pos, negsuc}
use inkmail.Identity.{Identity}
use inkmail.Session.{Session}
use inkmail.Store.Held.{HeldError, store_held}
use inkmail.Store.Routes.{RouteError, get_route_with_expiry, expire_routes}
use inkmail.Daddy.{Libraries, held_message_ttl}
use inkmail.Mailbox
use inkmail.Mailbox.{MailboxEnvelope, MailboxError}
use inkmail.Meta.{MetaError, get_or_create_mailbox_id}
use inkmail.Outgoing.{is_blank}
use inkmail.Receiving.{Site, World, Received, ReceiveError, receive_mailbox_envelope}

pub record RelayProbe : Type 0 where
  pub nonce : Bytes
  pub sent_at : ℕ
  pub responder : Bytes

-- `handleRelayProbe`: the answer to a probe, parsed or not.
unfoldable pub handle_relay_probe : Option RelayProbe → ℕ → RelayProbe
handle_relay_probe none now = record { nonce = []; sent_at = now; responder = [] }
handle_relay_probe (some p) now = record p { responder = [] }

pub record GhostForward : Type 0 where
  pub next_mailbox_id : Bytes
  pub hops_left : ℤ
  pub envelope : MailboxEnvelope

abbrev pub max_ghost_hops : ℕ
max_ghost_hops = 5

abbrev pub minus_one : ℤ → ℤ
minus_one (pos zero) = negsuc 0
minus_one (pos (suc n)) = pos n
minus_one (negsuc n) = negsuc (suc n)

unfoldable pub out_of_hops : ℤ → Bool
out_of_hops (negsuc n) = true
out_of_hops (pos n) = ltb max_ghost_hops n

-- The answer; after `no_local_mailbox` none is sent, and the handler returns the error.
pub data ForwardAck : Type 0 where
  bad_forward identity_required hop_limit_exceeded forwarded delivered_here : ForwardAck
  invalid_forward : MailboxError → ForwardAck
  not_received : ReceiveError → ForwardAck
  not_kept : HeldError → ForwardAck
  no_local_mailbox : MetaError → ForwardAck

-- An attempt to pass the envelope on.
abbrev pub Attempt : Type 0
Attempt = Bytes × GhostForward

module _ (lib : Libraries) (forwards : Bytes → GhostForward → Bool) (siblings : List Bytes) where
  abbrev pub next_forward : Bytes → GhostForward → GhostForward
  next_forward mailbox b = record b { next_mailbox_id = mailbox; hops_left = minus_one b.hops_left }

  -- The loop over the configured Daddies: the attempts made, and whether the last one succeeded.
  unfoldable pub try_siblings : List Bytes → GhostForward → List Attempt × Bool
  try_siblings [] b = ([], false)
  try_siblings (a ∷ as_) b =
      let (tried, done) = try_siblings as_ b in
      let next = next_forward b.next_mailbox_id b in
      if is_blank a
      then (tried, done)
      else if forwards a next
      then ((a, next) ∷ [], true)
      else ((a, next) ∷ tried, done)

  -- What is left when no node took the envelope: it is held here.
  unfoldable pub hold_here : GhostForward → Bytes → ℕ → Site → ForwardAck × Site
  hold_here b submitter now s =
      elim (store_held lib.sha256 b.envelope.id b.envelope.mailbox_id
        (lib.print_envelope b.envelope) (now + held_message_ttl) submitter now s.store) [
          | err e ↦ (not_kept e, s)
          | ok (stored, store) ↦ (forwarded, record s { store = store })
        ]

  abbrev pub Forwarded : Type 0
  Forwarded = List Attempt × ForwardAck × Site

  unfoldable pub past_route : List Attempt → GhostForward → Bytes → ℕ → Site → Forwarded
  past_route before b submitter now s =
      let (tried, done) = try_siblings siblings b in
      let (ack, t) = if done then (forwarded, s) else hold_here b submitter now s in
      (before ++ tried, ack, t)

  -- `forwardGhostEnvelope`: a known route first, then the Daddies, then the own store.
  unfoldable pub forward_ghost_envelope : GhostForward → Bytes → ℕ → Site → Forwarded
  unfolding past_route
  forward_ghost_envelope b submitter now s =
      elim (get_route_with_expiry b.envelope.mailbox_id now s.store) [
        | err e ↦ past_route [] b submitter now s
        | ok (route, expiry) ↦
            let next = next_forward b.envelope.mailbox_id b in
            if forwards route next
            then (((route, next) ∷ []), forwarded, s)
            else past_route ((route, next) ∷ []) b submitter now
                (record s { store = (expire_routes now s.store).1 })
      ]

  abbrev pub received_here : Received → Forwarded
  received_here (ok u, s) = ([], delivered_here, s)
  received_here (err e, s) = ([], not_received e, s)

  -- An envelope for this node's own mailbox is received; the others are passed on.
  unfoldable pub forward_or_receive : World → Identity → GhostForward → Bytes → ℕ → Site → Forwarded
  unfolding forward_ghost_envelope
  forward_or_receive w local b submitter now s =
      let (found, meta) = get_or_create_mailbox_id w.draws.mailbox s.meta in
      let s' : Site = record s { meta = meta } in
      elim found [
        | err e ↦ ([], no_local_mailbox e, s')
        | ok mailbox ↦
            if same b.envelope.mailbox_id mailbox
            then received_here (receive_mailbox_envelope w local b.envelope s')
            else forward_ghost_envelope b submitter now s'
      ]

  unfoldable pub handle_ghost_forward :
      World → Identity → Session → Option GhostForward → ℕ → Site → Forwarded
  unfolding out_of_hops forward_or_receive
  handle_ghost_forward w local session none now s = ([], bad_forward, s)
  handle_ghost_forward w local session (some b) now s = elim (Mailbox.validate b.envelope) [
    | err e ↦ ([], invalid_forward e, s)
    | ok u ↦
        if not (length session.peer == 32) || session.peer_anonymous
        then ([], identity_required, s)
        else if out_of_hops b.hops_left
        then ([], hop_limit_exceeded, s)
        else forward_or_receive w local b session.peer now s
  ]
