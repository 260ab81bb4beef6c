-- ===== src/Limiter/Rate/Credit.antt =====
-- One bucket: what a request takes from it and what it leaves, whatever the rounding.
use inkmail.Base.{
  ℕ, zero, suc, ◌+◌, ◌-◌, ◌*◌, ◌^◌, ◌≤◌, ◌<◌, ◌≡◌, refl, subst, Bool, true, false, ltb, arith,
  Bool-cases, inl, inr, min,
}
use inkmail.Limiter.Rate.{Bucket, Ieee, one, refilled, credit, spend}

abbrev pub cost : Bool → ℕ
cost true = 1
cost false = 0

one_positive : 0 < one
unfolding one
one_positive = omega arith

pub suc-one : (n : ℕ) → suc n * one ≡ n * one + one
suc-one n = grind arith

module _ (nearest : ℕ → ℕ → ℕ) (law : Ieee nearest) where
  -- Rounding does not cross a whole number.
  pub nearest-ge : (n x : ℕ) → n ≤ 2 ^ 53 → n * one ≤ x → n * one ≤ nearest x 1
  nearest-ge n x small h =
      subst (λ (v : ℕ). v ≤ nearest x 1) (law.exact n small) (law.monotone (n * one) x 1 h)

  pub nearest-le : (n x : ℕ) → n ≤ 2 ^ 53 → x ≤ n * one → nearest x 1 ≤ n * one
  nearest-le n x small h =
      subst (λ (v : ℕ). nearest x 1 ≤ v) (law.exact n small) (law.monotone x (n * one) 1 h)

  refilled-ge :
      (cap r now n : ℕ) (b : Bucket)
      → n ≤ 2 ^ 53
      → n * one ≤ cap
      → n * one ≤ b.tokens
      → n * one ≤ refilled nearest cap r now b
  unfolding refilled
  refilled-ge cap r now n b small c h =
      let added = b.tokens + credit nearest r (min (now - b.updated) 9223372036854775807) in
      let up = nearest-ge n added small (omega arith) in ground arith

  -- A bucket that holds some tokens, and has the capacity for them, grants one and keeps the others.
  pub spend_grants :
      (cap r now n : ℕ) (b : Bucket)
      → suc n ≤ 2 ^ 53
      → suc n * one ≤ cap
      → suc n * one ≤ b.tokens
      → let (b', allowed) = spend nearest cap r now b in (allowed ≡ true) × (n * one ≤ b'.tokens)
  unfolding spend
  spend_grants cap r now n b small c h =
      let full = refilled-ge cap r now (suc n) b small c h in
      let e = suc-one n in
      let kept = nearest-ge n (refilled nearest cap r now b - one) (omega arith) (omega arith) in
      let enough : ltb (refilled nearest cap r now b) one ≡ false = ground (arith, full, e) in
      rw enough (refl, kept)

  -- A bucket that is refilled to no more than some tokens pays one for a grant.
  pub spend_pays :
      (cap r now n : ℕ) (b : Bucket)
      → n ≤ 2 ^ 53
      → refilled nearest cap r now b ≤ n * one
      → let (b', allowed) = spend nearest cap r now b in
        (m : ℕ) × (m + cost allowed ≡ n) × (b'.tokens ≤ m * one) × (b'.updated ≡ now)
  unfolding spend
  spend_pays cap r now zero b small h =
      let poor : ltb (refilled nearest cap r now b) one ≡ true = ground (arith, h, one_positive) in
      rw poor (zero, refl, h, refl)
  spend_pays cap r now (suc n) b small h =
      elim (Bool-cases (ltb (refilled nearest cap r now b) one)) [
        | inl poor ↦ rw poor (suc n, omega arith, h, refl)
        | inr rich ↦
            let e = suc-one n in
            let kept =
              nearest-le n (refilled nearest cap r now b - one) (omega arith) (omega arith) in
            rw rich (n, omega arith, kept, refl)
      ]
