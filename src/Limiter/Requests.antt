-- ===== src/Limiter/Requests.antt =====
-- `requestAdmission`: the requests in flight for each identity, `inFlightRequests`.
use inkmail.Base.{ℕ, ◌<◌, ◌≡◌, ◌↔◌, Bool, true, false, arith, Bytes, codes, [], ◌∷◌}
use inkmail.Limits.{Limits}
use inkmail.Limiter.Slots.{Slots, held, take_slot, drop_slot}
use inkmail.Limiter.Slots.Bounds.{Reach}

-- `if identity == "" { identity = "unknown" }`
abbrev pub named : Bytes → Bytes
named [] = codes "unknown"
named (c ∷ cs) = c ∷ cs

unfoldable pub acquire : Limits → Bytes → Slots → Slots × Bool
acquire limits identity =
    take_slot limits.concurrent_requests limits.concurrent_requests_per_identity (named identity)

unfoldable pub release : Bytes → Slots → Slots
release identity s = drop_slot (named identity) s

pub count : Slots → ℕ
count s = s.total

abbrev pub Reachable : Limits → Slots → Type 0
Reachable limits = Reach limits.concurrent_requests limits.concurrent_requests_per_identity

-- A request starts exactly when its identity and the process are below their caps, and a refused
-- one changes nothing.
pub starts_iff :
    (limits : Limits) (identity : Bytes) (s : Slots)
    → (((acquire limits identity s).1 ≡ true) ↔ (
        (count s < limits.concurrent_requests)
        × (held (named identity) s < limits.concurrent_requests_per_identity)))
      × ((acquire limits identity s).1 ≡ false → (acquire limits identity s).0 ≡ s)
unfolding acquire take_slot count
starts_iff limits identity s = (ground arith, ground arith)
