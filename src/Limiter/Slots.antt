-- ===== src/Limiter/Slots.antt =====
-- `connectionLimiter` and `requestAdmission`: how many slots each key holds, and how many are held in
-- all. The counters are natural numbers. A release is only made by the goroutine that acquired,
-- so both counters are at least 1 there and the truncated subtraction is exact.
pub mod Sums
pub mod Bounds
use inkmail.Base.{
  ℕ, ◌+◌, ◌-◌, Bool, true, false, ◌||◌, Option, none, some, leb, ◌==◌, if◌then◌else◌, Bytes, codes,
  [], ◌∷◌,
}
use inkmail.Base.Map
use inkmail.Base.Map.{Map}
use inkmail.Limits.{Limits}

pub record Slots : Type 0 where
  pub active : Map ℕ
  pub total : ℕ

unfoldable pub empty : Slots
empty = record { active = []; total = 0 }

abbrev pub held : Bytes → Slots → ℕ
held key s = Map.get_or 0 key s.active

-- The two methods `acquire` have one body over their own limits, and so have the two `release`.
unfoldable pub take_slot : ℕ → ℕ → Bytes → Slots → Slots × Bool
take_slot global_cap key_cap key s =
    if leb global_cap s.total || leb key_cap (held key s)
    then (s, false)
    else (record s { active = Map.put key (held key s + 1) s.active; total = s.total + 1 }, true)

unfoldable pub drop_slot : Bytes → Slots → Slots
drop_slot key s =
    let left = held key s - 1 in
    record s {
      active = if leb left 0 then Map.del key s.active else Map.put key left s.active;
      total = s.total - 1;
    }

-- `sourceAddressKey`; `split` is `net.SplitHostPort`.
pub source_address_key : (Bytes → Option (Bytes × Bytes)) → Option Bytes → Bytes
source_address_key split none = codes "unknown"
source_address_key split (some address) = elim (split address) [
  | some (host, port) ↦ host
  | none ↦ address
]
