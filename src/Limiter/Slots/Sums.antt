-- ===== src/Limiter/Slots/Sums.antt =====
-- The sum of a map's counters under its updates.
use inkmail.Base.{ℕ, ◌+◌, ◌≤◌, ◌≡◌, refl, [], ◌∷◌, none, arith, Bytes, same_iff, sum_by}
use inkmail.Base.Map
use inkmail.Base.Map.{Map}

abbrev pub sum : Map ℕ → ℕ
sum = sum_by (λ e. e.1)

-- Each key stands once, with a positive counter of at most `cap`.
abbrev pub Counts : ℕ → Map ℕ → Type 0
Counts cap [] = Unit
Counts cap ((k, v) ∷ m) = (1 ≤ v) × (v ≤ cap) × (Map.get k m ≡ none) × Counts cap m

pub sum-put : (k : Bytes) (v : ℕ) (m : Map ℕ) → sum (Map.put k v m) + Map.get_or 0 k m ≡ sum m + v
sum-put k v [] = omega arith
sum-put k v ((j, w) ∷ m) = ground (arith, sum-put k v m)

pub put-Counts :
    (cap : ℕ) (k : Bytes) (v : ℕ) (m : Map ℕ)
    → 1 ≤ v
    → v ≤ cap
    → Counts cap m
    → Counts cap (Map.put k v m)
put-Counts cap k v [] p q c = (p, q, refl, tt)
put-Counts cap k v ((j, w) ∷ m) p q c =
    ground (arith, put-Counts cap k v m p q c.3, Map.get-put j k v m, same_iff k j, same_iff j k)

pub del_absent : (k : Bytes) (m : Map ℕ) → Map.get k m ≡ none → Map.del k m ≡ m
del_absent k [] h = refl
del_absent k ((j, w) ∷ m) h = ground (arith, del_absent k m)

pub sum-del :
    (cap : ℕ) (k : Bytes) (m : Map ℕ) → Counts cap m → sum (Map.del k m) + Map.get_or 0 k m ≡ sum m
sum-del cap k [] c = omega arith
sum-del cap k ((j, w) ∷ m) c = ground (arith, sum-del cap k m c.3, del_absent k m, same_iff k j)

pub del-Counts : (cap : ℕ) (k : Bytes) (m : Map ℕ) → Counts cap m → Counts cap (Map.del k m)
del-Counts cap k [] c = tt
del-Counts cap k ((j, w) ∷ m) c = ground (arith, del-Counts cap k m c.3, Map.get-del j k m)

pub get_le_cap : (cap : ℕ) (k : Bytes) (m : Map ℕ) → Counts cap m → Map.get_or 0 k m ≤ cap
get_le_cap cap k [] c = omega arith
get_le_cap cap k ((j, w) ∷ m) c = ground (arith, get_le_cap cap k m c.3)
