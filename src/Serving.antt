-- ===== src/Serving.antt =====
-- Serving a session, internal/network/messaging.go: `serveSession`, `dispatchRequest` and
-- `requestMailboxID`, over the handlers of Daddy, Receiving and Ghost. What arrives is a list of events,
-- each with the clock in nanoseconds; after the last one the connection is at its end. Sending the
-- answer, deadlines and `runtimeStats` are not modelled. Other sessions change the shared counters in
-- between; a session is modelled alone.
pub mod InFlight
use inkmail.Base.{
  ℕ, zero, suc, ◌+◌, ◌/◌, Bool, true, false, not, ◌||◌, List, [], ◌∷◌, ◌++◌, Option, none, some,
  if◌then◌else◌, Bytes, codes, same, map, to_lower, Result, ok, err,
}
use inkmail.Identity.{Identity, fingerprint}
use inkmail.Limits.{Limits}
use inkmail.Limiter.Requests as Requests
use inkmail.Limiter.Rate as Rate
use inkmail.Limiter.Rate.{Buckets}
use inkmail.Limiter.Slots.{Slots, source_address_key}
use inkmail.Session.{Session, validate_mailbox_id}
use inkmail.Store.Schema.{Store}
use inkmail.Wire.Channel.{Message}
use inkmail.Daddy.{Libraries, Node, Reply, Handled, HandlerError}
use inkmail.Daddy.Handlers.{
  handle_register_route, handle_lookup_route, handle_hold_message, handle_fetch_messages,
  handle_delivery_ack,
}
use inkmail.Receiving.{Site, World, MessageAck, malformed_envelope, handle_incoming_message}
use inkmail.Ghost.{
  RelayProbe, GhostForward, Attempt, ForwardAck, no_local_mailbox, handle_relay_probe,
  handle_ghost_forward,
}

abbrev pub max_session_requests : ℕ
max_session_requests = 272

-- The session, what the node keeps, and the limiters that all sessions share.
pub record Server : Type 0 where
  pub session : Session
  pub site : Site
  pub in_flight : Slots
  pub buckets : Buckets

-- The node that serves: its libraries, the rounding of floating point, its identity, and the other end's
-- address.
pub record Serving : Type 0 where
  pub lib : Libraries
  pub world : World
  pub local : Identity
  pub limits : Limits
  pub nearest : ℕ → ℕ → ℕ
  pub remote : Option Bytes
  pub parse_probe : Bytes → Option RelayProbe
  pub parse_forward : Bytes → Option GhostForward
  pub forwards : Bytes → GhostForward → Bool
  pub siblings : List Bytes

pub data Outcome : Type 0 where
  answered : Result HandlerError Reply → Outcome
  acknowledged : MessageAck → Outcome
  probed : RelayProbe → Outcome
  forwarded : List Attempt → ForwardAck → Outcome
  rate_limited unsupported : Outcome

-- Whether the handler returns an error, which ends the session.
unfoldable pub ends_session : Outcome → Bool
ends_session (answered (ok r)) = false
ends_session (answered (err e)) = true
ends_session (acknowledged malformed_envelope) = true
ends_session (acknowledged _) = false
ends_session (probed p) = false
ends_session (forwarded tried (no_local_mailbox _)) = true
ends_session (forwarded tried _) = false
ends_session rate_limited = true
ends_session unsupported = true

abbrev pub is_type : Message → Bytes → Bool
is_type r name = same r.type name

-- The kinds of request that name a mailbox.
unfoldable pub names_mailbox : Message → Bool
names_mailbox r =
    is_type r (codes "REGISTER_ROUTE")
    || is_type r (codes "LOOKUP_ROUTE")
    || is_type r (codes "HOLD_MESSAGE")
    || is_type r (codes "FETCH_MESSAGES")
    || is_type r (codes "DELIVERY_ACK")

abbrev pub peer_fingerprint : Session → Bytes
peer_fingerprint s = if same s.peer [] then [] else fingerprint s.peer

-- What a handler of Daddy leaves.
abbrev pub by_daddy : Handled → Server → Outcome × Server
by_daddy (r, n) v =
    (answered r, record v { session = n.session; site = record v.site { store = n.store } })

-- What arrives: a request, the end of the connection, or something that cannot be read.
pub data Event : Type 0 where
  request : ℕ → Message → Event
  closed unreadable : Event

pub data SessionEnd : Type 0 where
  at_end read_failed request_failed no_capacity too_many : SessionEnd

abbrev pub head_event : List Event → Option Event
head_event [] = none
head_event (e ∷ es) = some e

abbrev pub tail_events : List Event → List Event
tail_events [] = []
tail_events (e ∷ es) = es

module _ (env : Serving) where
  open env use {
    lib, world, local, limits, nearest, remote, parse_probe, parse_forward, forwards, siblings,
  }

  abbrev pub lower_if_valid : Option Bytes → Bytes
  lower_if_valid none = []
  lower_if_valid (some mailbox) = if validate_mailbox_id mailbox then map to_lower mailbox else []

  unfoldable pub request_mailbox_id : Message → Bytes
  unfolding names_mailbox
  request_mailbox_id r =
      if names_mailbox r then lower_if_valid (lib.parse_mailbox r.content) else []

  -- The keys that a request is charged to, in order; the first that refuses ends the charging.
  unfoldable pub charged_keys : Message → Session → List Bytes
  unfolding request_mailbox_id
  charged_keys r s =
      let mailbox = request_mailbox_id r in
      (codes "identity:" ++ peer_fingerprint s)
      ∷ (codes "source:" ++ source_address_key lib.split_host_port remote)
      ∷ (if same mailbox [] then [] else (codes "mailbox:" ++ mailbox) ∷ [])

  unfoldable pub charge : ℕ → List Bytes → Buckets → Buckets × Bool
  charge clock [] b = (b, true)
  charge clock (k ∷ ks) b =
      let (b', granted) = Rate.allow nearest k clock limits b in
      let rest = charge clock ks b' in if granted then rest else (b', false)

  -- The switch on the type of an admitted request.
  unfoldable pub handle : Message → ℕ → Server → Outcome × Server
  handle r clock v =
      let now = clock / 1000000000 in
      let node : Node = record { session = v.session; store = v.site.store } in
      if is_type r (codes "MESSAGE")
      then (let (ack, site) = handle_incoming_message world local r.content v.site in
          (acknowledged ack, record v { site = site }))
      else if is_type r (codes "HOLD_MESSAGE")
      then by_daddy (handle_hold_message lib r.content now node) v
      else if is_type r (codes "FETCH_MESSAGES")
      then by_daddy (handle_fetch_messages lib r.content now node) v
      else if is_type r (codes "DELIVERY_ACK")
      then by_daddy (handle_delivery_ack lib r.content node) v
      else if is_type r (codes "REGISTER_ROUTE")
      then by_daddy (handle_register_route lib r.content now node) v
      else if is_type r (codes "LOOKUP_ROUTE")
      then by_daddy (handle_lookup_route lib r.content now node) v
      else if is_type r (codes "RELAY_PROBE")
      then (probed (handle_relay_probe (parse_probe r.content) now), v)
      else if is_type r (codes "GHOST_FORWARD")
      then (let (tried, ack, site) =
            handle_ghost_forward lib forwards siblings world local v.session
              (parse_forward r.content) now v.site in
          (forwarded tried ack, record v { site = site }))
      else (unsupported, v)

  unfoldable pub dispatch_request : Message → ℕ → Server → Outcome × Server
  unfolding charge charged_keys
  dispatch_request r clock v =
      let (buckets, granted) = charge clock (charged_keys r v.session) v.buckets in
      let v' : Server = record v { buckets = buckets } in
      if granted then handle r clock v' else (rate_limited, v')

  abbrev pub after : Outcome × Server → Option SessionEnd × Server
  after (o, v) = (if ends_session o then some request_failed else none, v)

  -- One exchange with its slot taken, and how the session ends with it, if it does.
  unfoldable pub exchange : Option Event → Server → Option SessionEnd × Server
  unfolding dispatch_request ends_session
  exchange none v = (some at_end, v)
  exchange (some closed) v = (some at_end, v)
  exchange (some unreadable) v = (some read_failed, v)
  exchange (some (request clock r)) v = after (dispatch_request r clock v)

  -- An exchange between taking and giving back the slot of the peer's identity.
  unfoldable pub guarded_exchange : Option Event → Server → Option SessionEnd × Server
  unfolding exchange
  guarded_exchange e v =
      let key = peer_fingerprint v.session in
      let (taken, admitted) = Requests.acquire limits key v.in_flight in
      let (end, t) = exchange e (record v { in_flight = taken }) in
      if admitted
      then (end, record t { in_flight = Requests.release key t.in_flight })
      else (some no_capacity, v)

  -- The loop of `serveSession`, with the exchanges that are left.
  unfoldable pub serve : ℕ → List Event → Server → SessionEnd × Server
  unfolding guarded_exchange
  serve zero es v = (too_many, v)
  serve (suc n) es v =
      let (end, t) = guarded_exchange (head_event es) v in
      elim end [ some x ↦ (x, t) | none ↦ serve n (tail_events es) t ]

  unfoldable pub serve_session : List Event → Server → SessionEnd × Server
  unfolding serve
  serve_session es v = serve max_session_requests es v
