-- ===== src/Limiter/Handshake.antt =====
-- `handshakeLimiter`: sources and identities whose handshakes keep failing are refused for a while.
-- Times are nanoseconds since the zero time, so the zero `blockedUntil` is 0.
pub mod Throttle
use inkmail.Base.{
  ℕ, ◌+◌, ◌-◌, ◌*◌, Bool, true, false, ◌&&◌, ◌||◌, [], ◌∷◌, Option, none, some, ltb, leb,
  if◌then◌else◌, Bytes, length,
}
use inkmail.Base.Map
use inkmail.Base.Map.{Map}
use inkmail.Limits.{Limits}
use inkmail.Limiter.Oldest.{evict_oldest}
use inkmail.Limiter.Rate.{max_tracked_identities}

pub record FailureState : Type 0 where
  pub failures : ℕ
  pub window_start : ℕ
  pub blocked_until : ℕ
  pub last_seen : ℕ

abbrev pub Sources : Type 0
Sources = Map FailureState

abbrev pub second : ℕ
second = 1000000000

abbrev pub window : Limits → ℕ
window limits = limits.handshake_failure_window_seconds * second

abbrev pub cooldown : Limits → ℕ
cooldown limits = limits.handshake_cooldown_seconds * second

-- `now.Sub(state.windowStart) >= window`. The window is positive in every accepted configuration, so
-- a clock that went back, where the truncated difference is 0, gives false as in the program.
abbrev pub window_over : Limits → ℕ → FailureState → Bool
window_over limits now st = leb (window limits) (now - st.window_start)

unfoldable pub allow : Limits → Bytes → ℕ → Sources → Sources × Bool
allow limits source now sources = elim (Map.get source sources) [
  | none ↦ (sources, true)
  | some old ↦
      let st = record old { last_seen = now } in
      if ltb now st.blocked_until
      then (Map.put source st sources, false)
      else if window_over limits now st
      then (Map.del source sources, true)
      else (Map.put source st sources, true)
]

abbrev opened : ℕ → FailureState
opened now = record { failures = 0; window_start = now; blocked_until = 0; last_seen = 0 }

-- The state that a failure counts on: the old one while its window runs.
abbrev pub current : Limits → ℕ → Option FailureState → FailureState
current limits now none = opened now
current limits now (some old) = if window_over limits now old then opened now else old

unfoldable pub count_failure : Limits → ℕ → FailureState → FailureState
count_failure limits now st =
    let counted = record st { failures = st.failures + 1; last_seen = now } in
    if leb limits.handshake_failures_per_window counted.failures
    then record counted { blocked_until = now + cooldown limits }
    else counted

abbrev is_new : Option FailureState → Bool
is_new none = true
is_new (some _) = false

unfoldable pub failed : Limits → Bytes → ℕ → Sources → Sources
failed limits source now sources =
    let old = Map.get source sources in
    let st = count_failure limits now (current limits now old) in
    let kept =
      if leb max_tracked_identities (length sources) && is_new old
      then evict_oldest (λ (s : FailureState). s.last_seen) sources
      else sources in
    Map.put source st kept

unfoldable pub succeeded : Bytes → Sources → Sources
succeeded source sources = Map.del source sources
