-- ===== src/Relays/Order.antt =====
-- `OrderRelays` and `SelectRelays` of internal/network/relays.go. The random source is a parameter: `draw
-- k n` is the k-th call of `rand.Intn`, at n. A band is a run of relays of one priority.
use inkmail.Base.{
  ℕ, zero, suc, ◌+◌, ◌-◌, Bool, not, List, [], ◌∷◌, ◌++◌, if◌then◌else◌, same, length,
}
use inkmail.Base.Int.{int_before, int_same}
use inkmail.Base.Decimal.{before}
use inkmail.Relays.{Relay}

-- Priority, then name, then address.
unfoldable pub relay_before : Relay → Relay → Bool
unfolding before
relay_before r q =
    if not (int_same r.priority q.priority)
    then int_before r.priority q.priority
    else if not (same r.name q.name)
    then before r.name q.name
    else before r.address q.address

unfoldable pub insert_relay : Relay → List Relay → List Relay
insert_relay r [] = r ∷ []
insert_relay r (q ∷ qs) =
    let rest = insert_relay r qs in if relay_before q r then q ∷ rest else r ∷ q ∷ qs

unfoldable pub order_relays : List Relay → List Relay
unfolding insert_relay
order_relays [] = []
order_relays (r ∷ rs) = insert_relay r (order_relays rs)

-- The element at an index, and the list with another in its place.
unfoldable pub exchange : Relay → ℕ → List Relay → Relay × List Relay
exchange x i [] = (x, [])
exchange x zero (y ∷ ys) = (y, x ∷ ys)
exchange x (suc i) (y ∷ ys) = let (z, rest) = exchange x i ys in (z, y ∷ rest)

-- The swap of the first place and the one at an index.
unfoldable pub swap_first : ℕ → List Relay → List Relay
unfolding exchange
swap_first j [] = []
swap_first zero (x ∷ xs) = x ∷ xs
swap_first (suc j) (x ∷ xs) = let (y, rest) = exchange x j xs in y ∷ rest

module _ (draw : ℕ → ℕ → ℕ) where
  -- The inner loop, from the last place of the band down to the second, with the number of calls made before.
  unfoldable pub jitter : ℕ → ℕ → List Relay → List Relay
  unfolding swap_first
  jitter k zero band = band
  jitter k (suc i) band = jitter (k + 1) i (swap_first (draw k (i + 2)) band)

  abbrev pub shuffle : ℕ → List Relay → List Relay
  shuffle k band = jitter k (length band - 1) band

  -- The outer loop over the bands, with the band read so far.
  unfoldable pub select_bands : ℕ → List Relay → List Relay → List Relay
  unfolding jitter
  select_bands k [] [] = []
  select_bands k (b ∷ band) [] = shuffle k (b ∷ band)
  select_bands k [] (r ∷ rs) = select_bands k (r ∷ []) rs
  select_bands k (b ∷ band) (r ∷ rs) =
      let same_band = select_bands k (b ∷ (band ++ (r ∷ []))) rs in
      let next_band = select_bands (k + length band) (r ∷ []) rs in
      if int_same r.priority b.priority then same_band else shuffle k (b ∷ band) ++ next_band

  unfoldable pub select_relays : List Relay → List Relay
  unfolding order_relays select_bands
  select_relays rs = select_bands 0 [] (order_relays rs)
