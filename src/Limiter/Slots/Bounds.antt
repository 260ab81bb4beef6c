-- ===== src/Limiter/Slots/Bounds.antt =====
-- No limiter lets a key or the whole process hold more slots than its limits allow.
use inkmail.Base.{ℕ, ◌+◌, ◌-◌, ◌≤◌, ◌≡◌, true, arith, Bytes, same, same_iff, if◌then◌else◌}
use inkmail.Base.Map
use inkmail.Base.Map.{Map}
use inkmail.Limiter.Slots.{Slots, empty, held, take_slot, drop_slot}
use inkmail.Limiter.Slots.Sums.{sum, Counts, sum-put, put-Counts, sum-del, del-Counts, get_le_cap}

pub record Inv (global_cap key_cap : ℕ) (s : Slots) : Type 0 where
  pub counted : sum s.active ≡ s.total
  pub capped : s.total ≤ global_cap
  pub counts : Counts key_cap s.active

-- What an admitted or released slot does to every key's count.
pub data Step (global_cap key_cap : ℕ) (s : Slots) : Slots → Type 0 where
  asks : (key : Bytes) → Step global_cap key_cap s (take_slot global_cap key_cap key s).0
  leaves : (key : Bytes) → 1 ≤ held key s → Step global_cap key_cap s (drop_slot key s)

-- The states after any interleaving in which each release follows its own acquire.
pub data Reach (global_cap key_cap : ℕ) : Slots → Type 0 where
  start : Reach global_cap key_cap empty
  next :
      {s t : Slots}
      → Reach global_cap key_cap s
      → Step global_cap key_cap s t
      → Reach global_cap key_cap t

module _ (global_cap key_cap : ℕ) where
  pub take_slot-Inv :
      (key : Bytes) (s : Slots)
      → Inv global_cap key_cap s
      → Inv global_cap key_cap (take_slot global_cap key_cap key s).0
  unfolding take_slot
  take_slot-Inv key s v = ground (
    arith,
    sum-put key (held key s + 1) s.active,
    put-Counts key_cap key (held key s + 1) s.active,
  )

  pub drop_slot-Inv :
      (key : Bytes) (s : Slots)
      → Inv global_cap key_cap s
      → 1 ≤ held key s
      → Inv global_cap key_cap (drop_slot key s)
  unfolding drop_slot
  drop_slot-Inv key s v h = ground (
    arith,
    sum-put key (held key s - 1) s.active,
    put-Counts key_cap key (held key s - 1) s.active,
    get_le_cap key_cap key s.active v.counts,
    sum-del key_cap key s.active v.counts,
    del-Counts key_cap key s.active v.counts,
  )

  pub held-take_slot :
      (other key : Bytes) (s : Slots)
      → (take_slot global_cap key_cap key s).1 ≡ true
      → held other (take_slot global_cap key_cap key s).0
        ≡ held other s + (if same other key then 1 else 0)
  unfolding take_slot
  held-take_slot other key s h =
      ground (arith, Map.get-put other key (held key s + 1) s.active, same_iff other key)

pub held-drop_slot :
    (other key : Bytes) (s : Slots)
    → held other (drop_slot key s) ≡ held other s - (if same other key then 1 else 0)
unfolding drop_slot
held-drop_slot other key s = ground (
  arith,
  Map.get-put other key (held key s - 1) s.active,
  Map.get-del other key s.active,
  same_iff other key,
)

Step-Inv : {g k : ℕ} {s t : Slots} → Step g k s t → Inv g k s → Inv g k t
Step-Inv (asks key) v = take_slot-Inv _ _ key _ v
Step-Inv (leaves key h) v = drop_slot-Inv _ _ key _ v h

empty-Inv : (g k : ℕ) → Inv g k empty
unfolding empty
empty-Inv g k = ground arith

-- Every reachable state is within both caps and counts right.
pub Reach-Inv : {g k : ℕ} {s : Slots} → Reach g k s → Inv g k s
Reach-Inv start = empty-Inv _ _
Reach-Inv (next r st) = Step-Inv st (Reach-Inv r)
