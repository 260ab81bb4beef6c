-- ===== src/Tests/Limiters.antt =====
-- The limits and the limiters at concrete inputs.
use inkmail.Base.{
  ◌/◌, ℕ, ◌+◌, ◌≤◌, ◌<◌, ◌≡◌, ◌↔◌, refl, false, List, [], ◌∷◌, Bytes, codes, ok, arith,
}
use inkmail.Limits.{defaults, validate}
use inkmail.Limits.Accepts.{Ranges, Related, validate_iff, validate-defaults}
use inkmail.Limiter.Slots.{Slots, empty, held, take_slot}
use inkmail.Limiter.Slots.Sums.{sum}
use inkmail.Limiter.Slots.Bounds.{start, next, asks}
use inkmail.Limiter.Connections
use inkmail.Limiter.Requests
use inkmail.Limiter.Rate.{Ieee}
use inkmail.Limiter.Rate.Budget.{granted, at_once, burst, burst_bound}
use inkmail.Limiter.Handshake
use inkmail.Limiter.Handshake.{cooldown}
use inkmail.Limiter.Handshake.Throttle

div_mono : (m n d : ℕ) → m ≤ n → m / d ≤ n / d
div_mono m n d h = grind arith

abbrev alice : Bytes
alice = codes "alice"

abbrev home : Bytes
home = codes "10.0.0.1"

validate_iff_example : (validate defaults ≡ ok tt) ↔ (Ranges defaults × Related defaults)
validate_iff_example = validate_iff defaults

abbrev connected : Slots
connected = (take_slot defaults.connections_global defaults.connections_per_source home empty).0

Reachable-within_example :
    (held home connected ≤ defaults.connections_per_source)
    × (connected.total ≤ defaults.connections_global)
    × (sum connected.active ≡ connected.total)
Reachable-within_example =
    Connections.Reachable-within defaults connected home (next start (asks home))

-- The rounding of the tests is always downwards.
abbrev down : ℕ → ℕ → ℕ
down n d = n / d

down-Ieee : Ieee down
down-Ieee = record { monotone = λ m n d h. div_mono m n d h; exact = λ n h. omega arith }

abbrev calls : List Bytes
calls = alice ∷ home ∷ alice ∷ []

burst_bound_example : granted down alice defaults (at_once 5 calls) [] ≤ burst defaults alice
burst_bound_example =
    burst_bound down down-Ieee alice defaults 5 calls [] validate-defaults (omega arith)
      (λ b e. absurd (ground arith))

failures_over : defaults.handshake_failures_per_window ≤ 100
unfolding defaults
failures_over = omega arith

window_open : 0 < Handshake.window defaults
unfolding defaults
window_open = omega arith

fail_times_blocks_example :
    ((Handshake.allow defaults home 11 (Throttle.fail_times 100 defaults home 10 [])).1 ≡ false)
    ↔ (11 < 10 + cooldown defaults)
fail_times_blocks_example =
    Throttle.fail_times_blocks 99 defaults home 10 11 [] window_open refl failures_over
