-- ===== src/Limiter/Handshake/Throttle.antt =====
-- Repeated failures block a source until its cooldown ends, and the limiter's memory is bounded.
use inkmail.Base.{
  ℕ, zero, suc, ◌+◌, ◌≤◌, ◌<◌, ◌≡◌, ◌≢◌, ◌↔◌, true, false, [], Option, none, some, arith, Bytes,
  length, same_iff, Option-cases, inl, inr,
}
use inkmail.Base.Map
use inkmail.Base.Map.{Map}
use inkmail.Limits.{Limits}
use inkmail.Limiter.Oldest.{evict_oldest, length-evict_oldest, get-evict_oldest-none}
use inkmail.Limiter.Rate.{max_tracked_identities}
use inkmail.Limiter.Handshake.{
  FailureState, Sources, window, cooldown, allow, current, count_failure, failed, succeeded,
}

pub get-failed :
    (limits : Limits) (source : Bytes) (now : ℕ) (sources : Sources)
    → Map.get source (failed limits source now sources)
      ≡ some (count_failure limits now (current limits now (Map.get source sources)))
unfolding failed
get-failed limits source now sources =
    let st = count_failure limits now (current limits now (Map.get source sources)) in
    let evicted = evict_oldest (λ (s : FailureState). s.last_seen) sources in
    ground (
      arith,
      same_iff source source,
      Map.get-put source source st sources,
      Map.get-put source source st evicted,
    )

-- `n` failures of one source at one time.
pub fail_times : ℕ → Limits → Bytes → ℕ → Sources → Sources
fail_times zero limits source now sources = sources
fail_times (suc n) limits source now sources =
    failed limits source now (fail_times n limits source now sources)

-- A source is refused exactly while it is tracked and blocked.
pub allow_iff :
    (limits : Limits) (source : Bytes) (now : ℕ) (sources : Sources)
    → ((allow limits source now sources).1 ≡ false)
      ↔ ((st : FailureState) × (Map.get source sources ≡ some st) × (now < st.blocked_until))
unfolding allow
allow_iff limits source now sources = elim (Option-cases (Map.get source sources)) [
  | inl e ↦ (λ h. absurd (ground arith), λ h. absurd (ground arith))
  | inr (st, e) ↦ (λ h. (st, e, ground arith), λ h. ground arith)
]

-- The failures counted in the running window.
abbrev pub running : Limits → ℕ → Option FailureState → ℕ
running limits now st = (current limits now st).failures

-- The failure that reaches the limit blocks the source, from then until the cooldown has passed, and
-- one that does not reach it leaves the time of an earlier block as it was.
pub failed_blocks :
    (limits : Limits) (source : Bytes) (now later : ℕ) (sources : Sources)
    → limits.handshake_failures_per_window ≤ suc (running limits now (Map.get source sources))
    → ((allow limits source later (failed limits source now sources)).1 ≡ false)
      ↔ (later < now + cooldown limits)
unfolding allow count_failure
failed_blocks limits source now later sources h =
    rw (get-failed limits source now sources, allow) (ground arith)

running-count_failure :
    (limits : Limits) (now : ℕ) (o : Option FailureState)
    → 0 < window limits
    → running limits now (some (count_failure limits now (current limits now o)))
      ≡ suc (running limits now o)
unfolding count_failure
running-count_failure limits now none h = ground arith
running-count_failure limits now (some st) h = ground arith

running-fail_times :
    (n : ℕ) (limits : Limits) (source : Bytes) (now : ℕ) (sources : Sources)
    → 0 < window limits
    → running limits now (Map.get source (fail_times n limits source now sources))
      ≡ n + running limits now (Map.get source sources)
unfolding fail_times
running-fail_times zero limits source now sources h = omega arith
running-fail_times (suc n) limits source now sources h =
    let before = fail_times n limits source now sources in
    rw (get-failed limits source now before) (
      omega (
        arith,
        running-count_failure limits now (Map.get source before) h,
        running-fail_times n limits source now sources h,
      ))

-- When the window is not empty: as many failures at one time as the window allows, and any more,
-- block a source that was untracked before until the cooldown after them has passed, and no longer.
pub fail_times_blocks :
    (n : ℕ) (limits : Limits) (source : Bytes) (now later : ℕ) (sources : Sources)
    → 0 < window limits
    → Map.get source sources ≡ none
    → limits.handshake_failures_per_window ≤ suc n
    → ((allow limits source later (fail_times (suc n) limits source now sources)).1 ≡ false)
      ↔ (later < now + cooldown limits)
unfolding fail_times
fail_times_blocks n limits source now later sources h new enough =
    failed_blocks limits source now later (fail_times n limits source now sources)
      (omega (arith, running-fail_times n limits source now sources h))

pub record Inv (sources : Sources) : Type 0 where
  pub proper : Map.get [] sources ≡ none
  pub bounded : length sources ≤ max_tracked_identities

-- Recording a failure of a source, whose address is not empty, keeps the number of tracked sources
-- within its bound, and the empty text untracked.
pub failed-Inv :
    (limits : Limits) (source : Bytes) (now : ℕ) (sources : Sources)
    → source ≢ []
    → Inv sources
    → Inv (failed limits source now sources)
unfolding failed
failed-Inv limits source now sources proper v =
    let st = count_failure limits now (current limits now (Map.get source sources)) in
    let evicted = evict_oldest (λ (s : FailureState). s.last_seen) sources in
    ground (
      arith,
      same_iff [] source,
      Map.get-put [] source st sources,
      Map.length-put source st sources,
      Map.get-put [] source st evicted,
      Map.length-put source st evicted,
      get-evict_oldest-none (λ (s : FailureState). s.last_seen) [] sources,
      get-evict_oldest-none (λ (s : FailureState). s.last_seen) source sources,
      length-evict_oldest (λ (s : FailureState). s.last_seen) sources,
    )

-- A success forgets the source, which is then allowed at any time.
pub allow-succeeded :
    (limits : Limits) (source : Bytes) (now : ℕ) (sources : Sources)
    → (allow limits source now (succeeded source sources)).1 ≡ true
unfolding allow succeeded
allow-succeeded limits source now sources =
    ground (arith, Map.get-del source source sources, same_iff source source)
