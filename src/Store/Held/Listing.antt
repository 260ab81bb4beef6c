-- ===== src/Store/Held/Listing.antt =====
-- What a poll of a mailbox is given.
use inkmail.Base.{
  ℕ, zero, suc, ◌+◌, ◌≤◌, ◌<◌, ◌≡◌, refl, Bool, true, false, ◌&&◌, List, [], ◌∷◌, ltb, leb, Bytes,
  length, keep, sum_by, take, All, ok, arith, length-take, Bool-cases, inl, inr,
}
use inkmail.Session.{validate_opaque_token}
use inkmail.Store.Schema.{Held, Store}
use inkmail.Store.Held.{
  size_of, live, in_mailbox, max_opaque_envelope_size, max_opaque_delivery_bytes, insert_by_time,
  sort_by_time, fill, clamp_limit, list_held,
}

length-insert_by_time : (h : Held) (xs : List Held) → length (insert_by_time h xs) ≡ suc (length xs)
unfolding insert_by_time
length-insert_by_time h [] = refl
length-insert_by_time h (x ∷ xs) = ground (arith, length-insert_by_time h xs)

length-sort_by_time : (xs : List Held) → length (sort_by_time xs) ≡ length xs
unfolding sort_by_time
length-sort_by_time [] = refl
length-sort_by_time (x ∷ xs) =
    omega (arith, length-insert_by_time x (sort_by_time xs), length-sort_by_time xs)

module _ (P : Held → Type 0) where
  insert_by_time-All : (h : Held) (xs : List Held) → P h → All P xs → All P (insert_by_time h xs)
  unfolding insert_by_time
  insert_by_time-All h [] p a = (p, tt)
  insert_by_time-All h (x ∷ xs) p a = elim (Bool-cases (leb h.stored_at x.stored_at)) [
    | inl e ↦ rw e (p, a)
    | inr e ↦ rw e (a.0, insert_by_time-All h xs p a.1)
  ]

  sort_by_time-All : (xs : List Held) → All P xs → All P (sort_by_time xs)
  unfolding sort_by_time
  sort_by_time-All [] a = tt
  sort_by_time-All (x ∷ xs) a = insert_by_time-All x (sort_by_time xs) a.0 (sort_by_time-All xs a.1)

  take-All : (n : ℕ) (xs : List Held) → All P xs → All P (take n xs)
  take-All zero xs a = tt
  take-All (suc n) [] a = tt
  take-All (suc n) (x ∷ xs) a = (a.0, take-All n xs a.1)

  fill-All : (started : Bool) (used : ℕ) (xs : List Held) → All P xs → All P (fill started used xs)
  unfolding fill
  fill-All started used [] a = tt
  fill-All started used (x ∷ xs) a =
      elim (Bool-cases (started && ltb max_opaque_delivery_bytes (used + size_of x))) [
        | inl e ↦ rw e tt
        | inr e ↦ rw e (a.0, fill-All true (used + size_of x) xs a.1)
      ]

-- Oldest first.
abbrev pub Oldest : List Held → Type 0
Oldest [] = Unit
Oldest (h ∷ hs) = All (λ g. h.stored_at ≤ g.stored_at) hs × Oldest hs

All-mono {ℓ} :
    (P Q : Held → Type ℓ) → ((h : Held) → P h → Q h) → (xs : List Held) → All P xs → All Q xs
All-mono P Q f [] a = tt
All-mono P Q f (x ∷ xs) a = (f x a.0, All-mono P Q f xs a.1)

insert_by_time-Oldest : (h : Held) (xs : List Held) → Oldest xs → Oldest (insert_by_time h xs)
unfolding insert_by_time
insert_by_time-Oldest h [] o = (tt, tt)
insert_by_time-Oldest h (x ∷ xs) o = elim (Bool-cases (leb h.stored_at x.stored_at)) [
  | inl e ↦
      let first : h.stored_at ≤ x.stored_at = ground arith in
      rw e ((first, All-mono _ _ (λ g p. omega arith) xs o.0), o)
  | inr e ↦ rw e (
    insert_by_time-All (λ g. x.stored_at ≤ g.stored_at) h xs (ground arith) o.0,
    insert_by_time-Oldest h xs o.1,
  )
]

sort_by_time-Oldest : (xs : List Held) → Oldest (sort_by_time xs)
unfolding sort_by_time
sort_by_time-Oldest [] = tt
sort_by_time-Oldest (x ∷ xs) = insert_by_time-Oldest x (sort_by_time xs) (sort_by_time-Oldest xs)

take-Oldest : (n : ℕ) (xs : List Held) → Oldest xs → Oldest (take n xs)
take-Oldest zero xs o = tt
take-Oldest (suc n) [] o = tt
take-Oldest (suc n) (x ∷ xs) o = (take-All _ n xs o.0, take-Oldest n xs o.1)

fill-Oldest :
    (started : Bool) (used : ℕ) (xs : List Held) → Oldest xs → Oldest (fill started used xs)
unfolding fill
fill-Oldest started used [] o = tt
fill-Oldest started used (x ∷ xs) o =
    elim (Bool-cases (started && ltb max_opaque_delivery_bytes (used + size_of x))) [
      | inl e ↦ rw e tt
      | inr e ↦
          rw e
            (fill-All _ true (used + size_of x) xs o.0, fill-Oldest true (used + size_of x) xs o.1)
    ]

length-fill-le :
    (started : Bool) (used : ℕ) (xs : List Held) → length (fill started used xs) ≤ length xs
unfolding fill
length-fill-le started used [] = omega arith
length-fill-le started used (x ∷ xs) = ground (arith, length-fill-le true (used + size_of x) xs)

fill_started_bytes :
    (used : ℕ) (xs : List Held)
    → used ≤ max_opaque_delivery_bytes
    → used + sum_by size_of (fill true used xs) ≤ max_opaque_delivery_bytes
unfolding fill
fill_started_bytes used [] h = omega arith
fill_started_bytes used (x ∷ xs) h = ground (arith, fill_started_bytes (used + size_of x) xs)

fill_bytes :
    (xs : List Held)
    → All (λ h. size_of h ≤ max_opaque_envelope_size) xs
    → sum_by size_of (fill false 0 xs) ≤ max_opaque_delivery_bytes
unfolding fill
fill_bytes [] a = omega arith
fill_bytes (x ∷ xs) a = omega (arith, fill_started_bytes (0 + size_of x) xs)

fill_progress : (xs : List Held) → 0 < length xs → 0 < length (fill false 0 xs)
unfolding fill
fill_progress [] h = absurd (omega arith)
fill_progress (x ∷ xs) h = omega arith

-- The rows that `list_held` sorts.
abbrev pub wanted : Bytes → ℕ → Held → Bool
wanted mailbox now h = in_mailbox mailbox h && live now h

keep-holds : {A : Type 0} (p : A → Bool) (xs : List A) → All (λ x. p x ≡ true) (keep p xs)
keep-holds p [] = tt
keep-holds p (x ∷ xs) = elim (Bool-cases (p x)) [
  | inl e ↦ rw e (e, keep-holds p xs)
  | inr e ↦ rw e (keep-holds p xs)
]

keep-All {ℓ} :
    {A : Type 0} (P : A → Type ℓ) (p : A → Bool) (xs : List A) → All P xs → All P (keep p xs)
keep-All P p [] a = tt
keep-All P p (x ∷ xs) a = elim (Bool-cases (p x)) [
  | inl e ↦ rw e (a.0, keep-All P p xs a.1)
  | inr e ↦ rw e (keep-All P p xs a.1)
]

length-take-pos : (n : ℕ) (xs : List Held) → 0 < n → 0 < length xs → 0 < length (take n xs)
length-take-pos zero xs h k = absurd (omega arith)
length-take-pos (suc n) [] h k = absurd (omega arith)
length-take-pos (suc n) (x ∷ xs) h k = omega arith

-- What a poll is given.
pub record Delivery (mailbox : Bytes) (now : ℕ) (s : Store) (hs : List Held) : Type 0 where
  pub wanted : All (λ h. wanted mailbox now h ≡ true) hs
  pub ordered : Oldest hs
  pub few : length hs ≤ 256
  pub bounded : sum_by size_of hs ≤ max_opaque_delivery_bytes
  pub progress : 0 < length (keep (λ h. in_mailbox mailbox h && live now h) s.held) → 0 < length hs

-- When no stored payload is over 2 MiB, a poll of a valid mailbox succeeds and returns only unexpired
-- envelopes of that mailbox, oldest first, at most 256 of them and at most 3 MiB together, and at least
-- one if there is one.
pub list_held-Delivery :
    (mailbox : Bytes) (limit now : ℕ) (s : Store)
    → validate_opaque_token mailbox ≡ true
    → All (λ h. size_of h ≤ max_opaque_envelope_size) s.held
    → (hs : List Held) × (list_held mailbox limit now s ≡ ok hs) × Delivery mailbox now s hs
unfolding list_held
list_held-Delivery mailbox limit now s valid small =
    let rows = keep (λ h. in_mailbox mailbox h && live now h) s.held in
    let sorted = sort_by_time rows in
    let n = clamp_limit limit in
    let first = take n sorted in
    let positive : 0 < n = ground arith in
    let at_most : n ≤ 256 = ground arith in
    (
      fill false 0 first,
      rw valid refl,
      record {
        wanted =
            fill-All _ false 0 first
              (take-All _ n sorted (sort_by_time-All _ rows (keep-holds _ s.held)));
        ordered = fill-Oldest false 0 first (take-Oldest n sorted (sort_by_time-Oldest rows));
        few = omega (arith, length-fill-le false 0 first, length-take n sorted);
        bounded =
            fill_bytes first
              (take-All _ n sorted (sort_by_time-All _ rows (keep-All _ _ s.held small)));
        progress = λ h.
            fill_progress first
              (length-take-pos n sorted positive (omega (arith, length-sort_by_time rows, h)));
      },
    )
