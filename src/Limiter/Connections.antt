-- ===== src/Limiter/Connections.antt =====
-- `connectionLimiter`: the connections that each source address holds, `inboundConnections`.
use inkmail.Base.{◌≤◌, ◌<◌, ◌≡◌, ◌↔◌, Bool, true, false, arith, Bytes}
use inkmail.Limits.{Limits}
use inkmail.Limiter.Slots.{Slots, held, take_slot, drop_slot}
use inkmail.Limiter.Slots.Sums.{get_le_cap, sum}
use inkmail.Limiter.Slots.Bounds.{Reach, Reach-Inv, held-take_slot, held-drop_slot}

unfoldable pub acquire : Limits → Bytes → Slots → Slots × Bool
acquire limits = take_slot limits.connections_global limits.connections_per_source

unfoldable pub release : Bytes → Slots → Slots
release key s = drop_slot key s

-- The limiter's states under some limits.
abbrev pub Reachable : Limits → Slots → Type 0
Reachable limits = Reach limits.connections_global limits.connections_per_source

-- A connection is admitted exactly when both its source and the process are below their caps, and
-- a refused one changes nothing.
pub acquire_iff :
    (limits : Limits) (key : Bytes) (s : Slots)
    → (((acquire limits key s).1 ≡ true)
        ↔ ((s.total < limits.connections_global) × (held key s < limits.connections_per_source)))
      × ((acquire limits key s).1 ≡ false → (acquire limits key s).0 ≡ s)
unfolding acquire take_slot
acquire_iff limits key s = (ground arith, ground arith)

-- In every reachable state no source holds more than its cap, all together hold no more than the
-- global cap, and the global counter is the sum of the sources' counters.
pub Reachable-within :
    (limits : Limits) (s : Slots) (key : Bytes)
    → Reachable limits s
    → (held key s ≤ limits.connections_per_source)
      × (s.total ≤ limits.connections_global)
      × (sum s.active ≡ s.total)
Reachable-within limits s key r =
    let v = Reach-Inv r in (get_le_cap _ key s.active v.counts, v.capped, v.counted)

-- Releasing a connection that was just admitted restores the count of every source and the global
-- count.
pub release-acquire :
    (limits : Limits) (key other : Bytes) (s : Slots)
    → (acquire limits key s).1 ≡ true
    → let t = release key (acquire limits key s).0 in
      (held other t ≡ held other s) × (t.total ≡ s.total)
unfolding acquire release
release-acquire limits key other s h = (
  omega (
    arith,
    held-drop_slot other key
        (take_slot limits.connections_global limits.connections_per_source key s).0,
    held-take_slot limits.connections_global limits.connections_per_source other key s h,
  ),
  unfold take_slot drop_slot in ground arith,
)
