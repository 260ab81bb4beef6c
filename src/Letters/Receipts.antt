-- ===== src/Letters/Receipts.antt =====
-- What a delivery receipt changes.
use inkmail.Base.{
  ◌≤◌, ◌<◌, ◌≡◌, ◌↔◌, refl, Bool, true, not, List, [], ◌∷◌, none, some, Bytes, same, same_iff,
  length, keep, All, arith, Bool-cases, Option-cases, inl, inr, ap, ◌∙◌,
}
use inkmail.Letters.{
  Letter, Receipt, status_delivered, update_where, find_status, receipt_matches, delivered,
  mark_delivered_from_receipt,
}

-- A message is delivered if the test selects it.
abbrev IsDone : (Letter → Bool) → Letter → Type 0
IsDone p m = p m ≡ true → m.status ≡ status_delivered

module _ (p : Letter → Bool) (stable : (m : Letter) → p (delivered m) ≡ p m) where
  update_where-IsDone : (ms : List Letter) → All (IsDone p) (update_where p delivered ms)
  unfolding update_where
  update_where-IsDone [] = tt
  update_where-IsDone (m ∷ ms) = elim (Bool-cases (p m)) [
    | inl e ↦ rw (e, update_where) ((λ h. refl), update_where-IsDone ms)
    | inr e ↦ rw (e, update_where) ((λ h. absurd (ground arith)), update_where-IsDone ms)
  ]

  update_where_others :
      (ms : List Letter)
      → keep (λ m. not (p m)) (update_where p delivered ms) ≡ keep (λ m. not (p m)) ms
  unfolding update_where
  update_where_others [] = refl
  update_where_others (m ∷ ms) = ground (arith, stable m, update_where_others ms)

  none-IsDone : (ms : List Letter) → length (keep p ms) ≡ 0 → All (IsDone p) ms
  none-IsDone [] h = tt
  none-IsDone (m ∷ ms) h = elim (Bool-cases (p m)) [
    | inl e ↦ absurd (ground arith)
    | inr e ↦ ((λ k. absurd (ground arith)), none-IsDone ms (ground arith))
  ]

  find_status-none : (ms : List Letter) → find_status p ms ≡ none → length (keep p ms) ≡ 0
  unfolding find_status
  find_status-none [] h = refl
  find_status-none (m ∷ ms) h = ground (arith, find_status-none ms)

  find_status-some :
      (ms : List Letter) (s : Bytes) → find_status p ms ≡ some s → 0 < length (keep p ms)
  unfolding find_status
  find_status-some [] s h = absurd (ground arith)
  find_status-some (m ∷ ms) s h = ground (arith, find_status-some ms s)

  find_status-IsDone :
      (ms : List Letter)
      → find_status p ms ≡ some status_delivered
      → length (keep p ms) ≤ 1
      → All (IsDone p) ms
  unfolding find_status
  find_status-IsDone [] h one = tt
  find_status-IsDone (m ∷ ms) h one = elim (Bool-cases (p m)) [
    | inl e ↦ ((λ k. ground arith), none-IsDone ms (ground arith))
    | inr e ↦ ((λ k. absurd (ground arith)), find_status-IsDone ms (ground arith) (ground arith))
  ]

keep-IsDone :
    (p : Letter → Bool) (ms : List Letter)
    → All (IsDone p) ms
    → All (λ m. m.status ≡ status_delivered) (keep p ms)
keep-IsDone p [] a = tt
keep-IsDone p (m ∷ ms) a = elim (Bool-cases (p m)) [
  | inl e ↦ rw e (a.0 e, keep-IsDone p ms a.1)
  | inr e ↦ rw e (keep-IsDone p ms a.1)
]

-- What a receipt leaves: the message that it is for is delivered, and the others are as they were.
pub record Marked (r : Receipt) (found : Bool) (ms ns : List Letter) : Type 0 where
  pub done : All (λ m. m.status ≡ status_delivered) (keep (receipt_matches r) ns)
  pub others : keep (λ m. not (receipt_matches r m)) ns ≡ keep (λ m. not (receipt_matches r m)) ms
  pub answer : (found ≡ true) ↔ (0 < length (keep (receipt_matches r) ms))

-- When at most one message agrees with a receipt, as IDs are unique, applying the receipt leaves that message
-- delivered and all others as they were, and answers whether there was one.
pub mark_delivered_from_receipt-Marked :
    (r : Receipt) (ms : List Letter)
    → length (keep (receipt_matches r) ms) ≤ 1
    → let (found, ns) = mark_delivered_from_receipt r ms in Marked r found ms ns
unfolding mark_delivered_from_receipt
mark_delivered_from_receipt-Marked r ms one =
    let p = receipt_matches r in
    let stable : (m : Letter) → p (delivered m) ≡ p m = λ m. refl in
    elim (Option-cases (find_status p ms)) [
      | inl e ↦
          let empty = find_status-none p stable ms e in
          rw (e, mark_delivered_from_receipt)
            (record {
              done = keep-IsDone p ms (none-IsDone p stable ms empty);
              others = refl;
              answer = ground arith;
            })
      | inr (s, e) ↦
          let some_match = find_status-some p stable ms s e in
          elim (Bool-cases (same s status_delivered)) [
            | inl d ↦
                let equal : s ≡ status_delivered = (same_iff s status_delivered).0 d in
                rw (e, d, mark_delivered_from_receipt)
                  (record {
                    done =
                        keep-IsDone p ms (find_status-IsDone p stable ms (e ∙ ap some equal) one);
                    others = refl;
                    answer = ground arith;
                  })
            | inr d ↦
                rw (e, d, mark_delivered_from_receipt)
                  (record {
                    done =
                        keep-IsDone p (update_where p delivered ms)
                          (update_where-IsDone p stable ms);
                    others = update_where_others p stable ms;
                    answer = ground arith;
                  })
          ]
    ]
