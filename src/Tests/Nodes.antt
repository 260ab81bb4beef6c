-- ===== src/Tests/Nodes.antt =====
-- Relays, forwarding over several hops and a served session, at concrete inputs.
use inkmail.Base.{
  ◌/◌, ℕ, ◌≤◌, ◌≡◌, inl, refl, Bool, true, false, ◌==◌, if◌then◌else◌, List, [], ◌∷◌, Option, none,
  some, Bytes, All, codes, ok, same, trim_space, trim_left, trim_right, is_space, has_prefix,
}
use inkmail.Base.Int.{pos}
use inkmail.Hex.{hex_digit, decode_pairs, decode_hex}
use inkmail.Limits.{defaults}
use inkmail.Limiter.Slots as Slots
use inkmail.Store.Routes.{get_route_with_expiry}
use inkmail.Session.{validate_opaque_token, validate_mailbox_id}
use inkmail.Daddy.{Libraries}
use inkmail.Mailbox
use inkmail.Store.Schema as Schema
use inkmail.Meta.{get_or_create_mailbox_id, get_meta}
use inkmail.Relays.{Relay, lines, split_key_value}
use inkmail.Relays.Parse.{parse_relays, is_section}
use inkmail.Relays.Order.{select_relays}
use inkmail.Relays.Select.{count, Ascending, priorities}
use inkmail.Relays.Bands.{select_relays-Ascending}
use inkmail.Relays.Accepted.{NoColon, parse_relays-bare}
use inkmail.Receiving.{Site}
use inkmail.Ghost.{
  GhostForward, handle_ghost_forward, try_siblings, past_route, forward_ghost_envelope,
  forward_or_receive, out_of_hops,
}
use inkmail.Ghost.Hops.{
  PassedOn, Allowed, Passed, kept, passed, handle_ghost_forward-PassedOn, Passed-le,
}
use inkmail.Serving.{Serving, Server, Event, request, closed, serve_session}
use inkmail.Serving.InFlight.{SameCounts, serve_session-SameCounts}
use inkmail.Tests.Holding.{token_a, token_b}
use inkmail.Tests.Frames.{session}
use inkmail.Tests.Requests.{lib, envelope}
use inkmail.Tests.Mail.{bob}
use inkmail.Tests.Arrival.{world, site}

abbrev relay : Relay
relay = record { name = codes "one"; address = codes "one:25565"; priority = pos 7 }

abbrev draw : ℕ → ℕ → ℕ
draw n k = 0

select_relays-Ascending_example :
    ((q : Relay → Bool)
      → count q (select_relays draw (relay ∷ record relay { priority = pos 3 } ∷ []))
        ≡ count q (relay ∷ record relay { priority = pos 3 } ∷ []))
    × Ascending (priorities (select_relays draw (relay ∷ record relay { priority = pos 3 } ∷ [])))
select_relays-Ascending_example =
    select_relays-Ascending draw (relay ∷ record relay { priority = pos 3 } ∷ [])

-- The parts around the first colon.
unfoldable split_at_colon : Bytes → Option (Bytes × Bytes)
split_at_colon [] = none
split_at_colon (c ∷ s) =
    let rest = split_at_colon s in
    if c == b':'
    then some ([], s)
    else elim rest [ none ↦ none | some (host, port) ↦ some (c ∷ host, port) ]

split_at_colon-NoColon : (a : Bytes) → NoColon a → split_at_colon a ≡ none
unfolding split_at_colon
split_at_colon-NoColon [] h = refl
split_at_colon-NoColon (c ∷ s) h = rw (h.0, split_at_colon-NoColon s h.1) refl

abbrev relay_lib : Libraries
relay_lib = record lib { split_host_port = split_at_colon }

abbrev forward : GhostForward
forward = record { next_mailbox_id = token_b; hops_left = pos 2; envelope = envelope }

abbrev sibling : List Bytes
sibling = codes "relay:1" ∷ []

abbrev elsewhere : Site
elsewhere = record site { meta = (codes "mailbox_id", token_a) ∷ [] }

handle_ghost_forward-PassedOn_example :
    All
      (λ a. PassedOn forward a × Allowed lib (λ a b. true) sibling session forward)
      (handle_ghost_forward lib
        (λ a b. true)
        sibling
        world
        bob
        session
        (some forward)
        20
        elsewhere).0
handle_ghost_forward-PassedOn_example =
    handle_ghost_forward-PassedOn lib (λ a b. true) sibling world bob session forward 20 elsewhere

once : Passed 1 forward
unfolding handle_ghost_forward forward_or_receive forward_ghost_envelope past_route try_siblings
    out_of_hops get_or_create_mailbox_id get_meta get_route_with_expiry same decode_hex decode_pairs
    hex_digit Mailbox.validate validate_mailbox_id trim_space validate_opaque_token Schema.empty
once =
    passed 0 forward (record forward { hops_left = pos 1 }) (codes "relay:1") lib (λ a b. true)
      sibling world bob session 20 elsewhere (inl refl)
      (kept (record forward { hops_left = pos 1 }))

Passed-le_example : 1 ≤ 6
Passed-le_example = Passed-le 1 forward once

abbrev serving : Serving
serving = record {
  lib = lib;
  world = world;
  local = bob;
  limits = defaults;
  nearest = λ n d. n / d;
  remote = some (codes "host");
  parse_probe = λ b. none;
  parse_forward = λ b. some forward;
  forwards = λ a b. true;
  siblings = sibling;
}

abbrev server : Server
server = record { session = session; site = elsewhere; in_flight = Slots.empty; buckets = [] }

abbrev events : List Event
events =
    request 20000000000 (record { type = codes "LOOKUP_ROUTE"; content = token_b })
    ∷ request 20000000001 (record { type = codes "NONE"; content = [] })
    ∷ closed
    ∷ []

serve_session-SameCounts_example :
    SameCounts server.in_flight (serve_session serving events server).1.in_flight
serve_session-SameCounts_example = serve_session-SameCounts serving events server

abbrev bare_line : Bytes
bare_line = codes "one:25565"

no_relays : parse_relays relay_lib bare_line ≡ ok []
unfolding parse_relays lines same trim_space has_prefix split_key_value
no_relays = refl

bare_lines : All (λ line. is_section (trim_space line) ≡ false) (lines bare_line)
unfolding is_section lines trim_space trim_left trim_right is_space has_prefix
bare_lines = (refl, tt)

parse_relays-bare_example : ◌≡◌ {A = List Relay} [] []
parse_relays-bare_example =
    parse_relays-bare relay_lib split_at_colon-NoColon bare_line [] bare_lines no_relays
