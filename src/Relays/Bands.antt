-- ===== src/Relays/Bands.antt =====
-- The bands of `SelectRelays` of internal/network/relays.go.
use inkmail.Base.{
  ℕ, zero, suc, ◌+◌, ◌-◌, ◌≡◌, refl, sym, subst, Bool, List, [], ◌∷◌, ◌++◌, length, keep, All,
  arith, Bool-cases, inl, inr, ap, ◌∙◌, length-append, keep-append, append_assoc, append-nil,
}
use mathlib.Core.List.{map-append}
use inkmail.Base.Int.{ℤ, int_same}
use inkmail.Relays.{Relay}
use inkmail.Relays.Order.{
  order_relays, exchange, swap_first, jitter, shuffle, select_bands, select_relays,
}
use inkmail.Relays.Select.{
  count, Ascending, int_same→eq, priorities, order_relays-Ascending, count-order_relays,
  count-jitter,
}

-- Every relay of the band has this priority.
abbrev Band : ℤ → List Relay → Type 0
Band p rs = All (λ r. r.priority ≡ p) rs

exchange-Band :
    (p : ℤ) (x : Relay) (i : ℕ) (ys : List Relay)
    → x.priority ≡ p
    → Band p ys
    → let (z, rest) = exchange x i ys in (z.priority ≡ p) × Band p rest × (length rest ≡ length ys)
unfolding exchange
exchange-Band p x i [] h b = (h, tt, refl)
exchange-Band p x zero (y ∷ ys) h b = (b.0, (h, b.1), refl)
exchange-Band p x (suc i) (y ∷ ys) h b =
    let (hz, br, l) = exchange-Band p x i ys h b.1 in (hz, (b.0, br), ap suc l)

swap_first-Band :
    (p : ℤ) (j : ℕ) (xs : List Relay)
    → Band p xs
    → Band p (swap_first j xs) × (length (swap_first j xs) ≡ length xs)
unfolding swap_first
swap_first-Band p j [] b = (tt, refl)
swap_first-Band p zero (x ∷ xs) b = (b, refl)
swap_first-Band p (suc j) (x ∷ xs) b =
    let (hz, br, l) = exchange-Band p x j xs b.0 b.1 in ((hz, br), ap suc l)

Band-priorities :
    (p : ℤ) (xs ys : List Relay)
    → Band p xs
    → Band p ys
    → length xs ≡ length ys
    → priorities xs ≡ priorities ys
Band-priorities p [] [] b c l = refl
Band-priorities p [] (y ∷ ys) b c l = absurd (omega arith)
Band-priorities p (x ∷ xs) [] b c l = absurd (omega arith)
Band-priorities p (x ∷ xs) (y ∷ ys) b c l =
    rw (b.0, c.0) (ap (λ (t : List ℤ). p ∷ t) (Band-priorities p xs ys b.1 c.1 (omega arith)))

Band-append :
    (p : ℤ) (xs : List Relay) (r : Relay) → Band p xs → r.priority ≡ p → Band p (xs ++ (r ∷ []))
Band-append p [] r b h = (h, tt)
Band-append p (x ∷ xs) r b h = (b.0, Band-append p xs r b.1 h)

module _ (draw : ℕ → ℕ → ℕ) where
  jitter-Band :
      (p : ℤ) (k i : ℕ) (xs : List Relay)
      → Band p xs
      → Band p (jitter draw k i xs) × (length (jitter draw k i xs) ≡ length xs)
  unfolding jitter
  jitter-Band p k zero xs b = (b, refl)
  jitter-Band p k (suc i) xs b =
      let (sb, sl) = swap_first-Band p (draw k (i + 2)) xs b in
      let (jb, jl) = jitter-Band p (k + 1) i (swap_first (draw k (i + 2)) xs) sb in (jb, jl ∙ sl)

  shuffle-priorities :
      (p : ℤ) (k : ℕ) (xs : List Relay) → Band p xs → priorities (shuffle draw k xs) ≡ priorities xs
  shuffle-priorities p k xs b =
      let (jb, jl) = jitter-Band p k (length xs - 1) xs b in
      Band-priorities p (shuffle draw k xs) xs jb b jl

  -- The band read so far is uniform.
  select_bands-priorities :
      (k : ℕ) (b : Relay) (band rs : List Relay)
      → Band b.priority band
      → priorities (select_bands draw k (b ∷ band) rs) ≡ priorities ((b ∷ band) ++ rs)
  unfolding select_bands
  select_bands-priorities k b band [] u =
      shuffle-priorities b.priority k (b ∷ band) (refl, u)
      ∙ ap priorities (sym (append-nil (b ∷ band)))
  select_bands-priorities k b band (r ∷ rs) u = elim (Bool-cases (int_same r.priority b.priority)) [
    | inl e ↦
        rw (e, select_bands)
          (select_bands-priorities k b (band ++ (r ∷ [])) rs
              (Band-append b.priority band r u (int_same→eq r.priority b.priority e))
            ∙ ap (λ (t : List Relay). priorities (b ∷ t)) (append_assoc band (r ∷ []) rs))
    | inr e ↦
        rw (e, select_bands)
          (map-append (λ (x : Relay). x.priority) (shuffle draw k (b ∷ band))
              (select_bands draw (k + length band) (r ∷ []) rs)
            ∙ ap (λ (t : List ℤ). t ++ priorities (select_bands draw (k + length band) (r ∷ []) rs))
                (shuffle-priorities b.priority k (b ∷ band) (refl, u))
            ∙ ap (λ (t : List ℤ). priorities (b ∷ band) ++ t)
                (select_bands-priorities (k + length band) r [] rs tt)
            ∙ sym (map-append (λ (x : Relay). x.priority) (b ∷ band) (r ∷ rs)))
  ]

  shuffle-count :
      (q : Relay → Bool) (k : ℕ) (xs : List Relay) → count q (shuffle draw k xs) ≡ count q xs
  shuffle-count q k xs = count-jitter q draw k (length xs - 1) xs

  select_bands-count :
      (q : Relay → Bool) (k : ℕ) (b : Relay) (band rs : List Relay)
      → count q (select_bands draw k (b ∷ band) rs) ≡ count q ((b ∷ band) ++ rs)
  unfolding select_bands
  select_bands-count q k b band [] =
      shuffle-count q k (b ∷ band) ∙ ap (count q) (sym (append-nil (b ∷ band)))
  select_bands-count q k b band (r ∷ rs) = elim (Bool-cases (int_same r.priority b.priority)) [
    | inl e ↦
        rw (e, select_bands)
          (select_bands-count q k b (band ++ (r ∷ [])) rs
            ∙ ap (λ (t : List Relay). count q (b ∷ t)) (append_assoc band (r ∷ []) rs))
    | inr e ↦
        let first = shuffle-count q k (b ∷ band) in
        let later = select_bands-count q (k + length band) r [] rs in
        let parts =
          ap (λ (l : List Relay). length l)
            (keep-append q (shuffle draw k (b ∷ band))
              (select_bands draw (k + length band) (r ∷ []) rs)) in
        let whole = ap (λ (l : List Relay). length l) (keep-append q (b ∷ band) (r ∷ rs)) in
        rw (e, select_bands)
          (omega (
            arith,
            first,
            later,
            parts,
            whole,
            length-append (keep q (shuffle draw k (b ∷ band)))
                (keep q (select_bands draw (k + length band) (r ∷ []) rs)),
            length-append (keep q (b ∷ band)) (keep q (r ∷ rs)),
          ))
  ]

  -- The outer loop, from its start.
  select_bands_start :
      (os : List Relay)
      → ((q : Relay → Bool) → count q (select_bands draw 0 [] os) ≡ count q os)
        × (priorities (select_bands draw 0 [] os) ≡ priorities os)
  unfolding select_bands
  select_bands_start [] = ((λ q. refl), refl)
  select_bands_start (r ∷ rs) =
      ((λ q. select_bands-count q 0 r [] rs), select_bands-priorities 0 r [] rs tt)

  -- Whatever is drawn, the relays that are selected are all the relays, each as often, and no relay
  -- stands in front of one with a smaller priority.
  pub select_relays-Ascending :
      (rs : List Relay)
      → ((q : Relay → Bool) → count q (select_relays draw rs) ≡ count q rs)
        × Ascending (priorities (select_relays draw rs))
  unfolding select_relays
  select_relays-Ascending rs =
      let (counted, banded) = select_bands_start (order_relays rs) in
      (
        (λ q. counted q ∙ count-order_relays q rs),
        subst Ascending (sym banded) (order_relays-Ascending rs),
      )
