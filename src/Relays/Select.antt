-- ===== src/Relays/Select.antt =====
-- `SelectRelays` of internal/network/relays.go gives all relays, by priority, whatever is drawn.
use inkmail.Base.{
  ℕ, zero, suc, ◌+◌, ◌≡◌, refl, Bool, true, false, List, [], ◌∷◌, length, keep, map, All, arith,
  Bool-cases, inl, inr, ◌∙◌,
}
use inkmail.Base.Int.{ℤ, pos, negsuc, int_before, int_same}
use inkmail.Relays.{Relay}
use inkmail.Relays.Order.{relay_before, insert_relay, order_relays, exchange, swap_first, jitter}

abbrev pub count : (Relay → Bool) → List Relay → ℕ
count q rs = length (keep q rs)

-- No number stands in front of a smaller one.
abbrev pub Ascending : List ℤ → Type 0
Ascending [] = Unit
Ascending (a ∷ as_) = All (λ b. int_before b a ≡ false) as_ × Ascending as_

int_before_trans :
    (a b c : ℤ) → int_before a b ≡ false → int_before b c ≡ false → int_before a c ≡ false
int_before_trans (pos a) (pos b) (pos c) h k = ground arith
int_before_trans (pos a) (pos b) (negsuc c) h k = refl
int_before_trans (pos a) (negsuc b) (pos c) h k = absurd (ground arith)
int_before_trans (pos a) (negsuc b) (negsuc c) h k = refl
int_before_trans (negsuc a) (pos b) c h k = absurd (ground arith)
int_before_trans (negsuc a) (negsuc b) (pos c) h k = absurd (ground arith)
int_before_trans (negsuc a) (negsuc b) (negsuc c) h k = ground arith

pub int_same→eq : (a b : ℤ) → int_same a b ≡ true → a ≡ b
int_same→eq (pos a) (pos b) h = ground arith
int_same→eq (pos a) (negsuc b) h = absurd (ground arith)
int_same→eq (negsuc a) (pos b) h = absurd (ground arith)
int_same→eq (negsuc a) (negsuc b) h = ground arith

int_before_irrefl : (a : ℤ) → int_before a a ≡ false
int_before_irrefl (pos a) = ground arith
int_before_irrefl (negsuc a) = ground arith

int_before_asym : (a b : ℤ) → int_before a b ≡ true → int_before b a ≡ false
int_before_asym (pos a) (pos b) h = ground arith
int_before_asym (pos a) (negsuc b) h = absurd (ground arith)
int_before_asym (negsuc a) (pos b) h = refl
int_before_asym (negsuc a) (negsuc b) h = ground arith

-- The order of the relays goes with that of their priorities.
relay_before-not :
    (r q : Relay) → relay_before r q ≡ false → int_before r.priority q.priority ≡ false
unfolding relay_before
relay_before-not r q h = elim (Bool-cases (int_same r.priority q.priority)) [
  | inl e ↦ rw (int_same→eq r.priority q.priority e) (int_before_irrefl q.priority)
  | inr e ↦ ground arith
]

relay_before-true :
    (r q : Relay) → relay_before r q ≡ true → int_before q.priority r.priority ≡ false
unfolding relay_before
relay_before-true r q h = elim (Bool-cases (int_same r.priority q.priority)) [
  | inl e ↦ rw (int_same→eq r.priority q.priority e) (int_before_irrefl q.priority)
  | inr e ↦ int_before_asym r.priority q.priority (ground arith)
]

abbrev pub priorities : List Relay → List ℤ
priorities rs = map (λ r. r.priority) rs

All-trans :
    (a b : ℤ) (as_ : List ℤ)
    → int_before a b ≡ false
    → All (λ c. int_before c a ≡ false) as_
    → All (λ c. int_before c b ≡ false) as_
All-trans a b [] h k = tt
All-trans a b (c ∷ as_) h k = (int_before_trans c a b k.0 h, All-trans a b as_ h k.1)

All-insert :
    (a : ℤ) (r : Relay) (rs : List Relay)
    → int_before r.priority a ≡ false
    → All (λ b. int_before b a ≡ false) (priorities rs)
    → All (λ b. int_before b a ≡ false) (priorities (insert_relay r rs))
unfolding insert_relay
All-insert a r [] h k = (h, tt)
All-insert a r (q ∷ qs) h k = elim (Bool-cases (relay_before q r)) [
  | inl e ↦ rw (e, insert_relay) (k.0, All-insert a r qs h k.1)
  | inr e ↦ rw (e, insert_relay) (h, k)
]

insert_relay-Ascending :
    (r : Relay) (rs : List Relay)
    → Ascending (priorities rs)
    → Ascending (priorities (insert_relay r rs))
unfolding insert_relay
insert_relay-Ascending r [] h = (tt, tt)
insert_relay-Ascending r (q ∷ qs) h = elim (Bool-cases (relay_before q r)) [
  | inl e ↦
      rw (e, insert_relay)
        (All-insert q.priority r qs (relay_before-true q r e) h.0, insert_relay-Ascending r qs h.1)
  | inr e ↦
      let later = relay_before-not q r e in
      rw (e, insert_relay) ((later, All-trans q.priority r.priority (priorities qs) later h.0), h)
]

pub order_relays-Ascending : (rs : List Relay) → Ascending (priorities (order_relays rs))
unfolding order_relays
order_relays-Ascending [] = tt
order_relays-Ascending (r ∷ rs) =
    insert_relay-Ascending r (order_relays rs) (order_relays-Ascending rs)

module _ (q : Relay → Bool) where
  count-insert_relay :
      (r : Relay) (rs : List Relay) → count q (insert_relay r rs) ≡ count q (r ∷ rs)
  unfolding insert_relay
  count-insert_relay r [] = refl
  count-insert_relay r (x ∷ rs) = ground (arith, count-insert_relay r rs)

  pub count-order_relays : (rs : List Relay) → count q (order_relays rs) ≡ count q rs
  unfolding order_relays
  count-order_relays [] = refl
  count-order_relays (r ∷ rs) =
      ground (arith, count-insert_relay r (order_relays rs), count-order_relays rs)

  count-exchange :
      (x : Relay) (i : ℕ) (ys : List Relay)
      → let (z, rest) = exchange x i ys in count q (z ∷ rest) ≡ count q (x ∷ ys)
  unfolding exchange
  count-exchange x i [] = refl
  count-exchange x zero (y ∷ ys) = ground arith
  count-exchange x (suc i) (y ∷ ys) = ground (arith, count-exchange x i ys)

  pub count-swap_first : (j : ℕ) (xs : List Relay) → count q (swap_first j xs) ≡ count q xs
  unfolding swap_first
  count-swap_first j [] = refl
  count-swap_first zero (x ∷ xs) = refl
  count-swap_first (suc j) (x ∷ xs) = count-exchange x j xs

  module _ (draw : ℕ → ℕ → ℕ) where
    pub count-jitter : (k i : ℕ) (band : List Relay) → count q (jitter draw k i band) ≡ count q band
    unfolding jitter
    count-jitter k zero band = refl
    count-jitter k (suc i) band =
        count-jitter (k + 1) i (swap_first (draw k (i + 2)) band)
        ∙ count-swap_first (draw k (i + 2)) band
