-- ===== src/Store/Held/Admission.antt =====
-- The three ends of `StoreOpaqueHeldMessageForUser`.
use inkmail.Base.{
  ℕ, suc, ◌+◌, ◌≤◌, ◌<◌, ◌≡◌, Bool, true, false, ◌&&◌, [], ◌∷◌, ◌++◌, none, Bytes, length, keep,
  sum_by, ok, arith, Result-cases, Option-cases, Bool-cases, inl, inr, ◌⊎◌, ltb,
}
use inkmail.Base.Int.{unix_limit}
use inkmail.Store.Schema.{Held, Dedup, Store}
use inkmail.Store.Held.{
  size_of, live_record, purge, find_record, by_user, in_mailbox, record_by, check_quotas,
  check_submission, held_row, record_row, envelope_hash, user_hash, insert_held, admit, store_held,
  max_opaque_envelope_size, max_envelope_retention,
}

-- What the quota tests establish of the tables that they read.
pub record Room (now : ℕ) (s : Store) (user mailbox : Bytes) (size : ℕ) : Type 0 where
  pub user_count : suc (length (keep (by_user user) s.held)) ≤ s.limits.held_messages_per_user
  pub user_bytes : sum_by size_of (keep (by_user user) s.held) + size ≤ s.limits.held_bytes_per_user
  pub mailbox_count :
      suc (length (keep (in_mailbox mailbox) s.held)) ≤ s.limits.held_messages_per_mailbox
  pub mailbox_bytes :
      sum_by size_of (keep (in_mailbox mailbox) s.held) + size ≤ s.limits.held_bytes_per_mailbox
  pub global_count : suc (length s.held) + s.legacy_relay_messages ≤ s.limits.held_messages_global
  pub global_bytes :
      sum_by size_of s.held + s.legacy_relay_bytes + size ≤ s.limits.held_bytes_global
  pub replay_user :
      suc (length (keep (λ d. record_by user d && live_record now d) s.dedup))
      ≤ s.limits.replay_records_per_user
  pub replay_global : suc (length (keep (live_record now) s.dedup)) ≤ s.limits.replay_records_global

check_quotas-Room :
    (now : ℕ) (s : Store) (user mailbox : Bytes) (size : ℕ)
    → check_quotas now s user mailbox size ≡ ok tt
    → Room now s user mailbox size
unfolding check_quotas
check_quotas-Room now s user mailbox size h = ground arith

-- The store after an admission.
abbrev pub with_row : Store → Held → Dedup → Store
with_row s h d = record s { held = s.held ++ (h ∷ []); dedup = s.dedup ++ (d ∷ []) }

module _ (sha256 : Bytes → Bytes) (id mailbox payload : Bytes) (expires : ℕ) (user_key : Bytes)
    (now : ℕ) where
  -- What a submission that was stored has passed.
  pub record Admitted (s t : Store) : Type 0 where
    pub nonempty : 0 < length payload
    pub bounded : length payload ≤ max_opaque_envelope_size
    pub unexpired : now < expires
    pub retention : (expires ≤ now + max_envelope_retention) ⊎ (unix_limit ≤ expires)
    pub unseen : find_record (envelope_hash sha256 id) (keep (live_record now) s.dedup) ≡ none
    pub room : Room now (purge now s) (user_hash sha256 user_key) mailbox (length payload)
    pub result :
        t
        ≡ with_row
            (purge now s)
            (held_row id mailbox payload expires (user_hash sha256 user_key) now)
            (record_row sha256 id mailbox payload expires (user_hash sha256 user_key))

  submission_facts :
      check_submission id mailbox payload expires user_key now ≡ ok tt
      → (0 < length payload)
        × (length payload ≤ max_opaque_envelope_size)
        × (now < expires)
        × ((expires ≤ now + max_envelope_retention) ⊎ (unix_limit ≤ expires))
  unfolding check_submission
  submission_facts h = (
    ground arith,
    ground arith,
    ground arith,
    elim (Bool-cases (ltb expires unix_limit)) [
      | inl e ↦ inl (ground arith)
      | inr e ↦ inr (ground arith)
    ],
  )

  insert_facts :
      (user : Bytes) (s : Store) {b : Bool} {t : Store}
      → insert_held sha256 id mailbox payload expires user now s ≡ ok (b, t)
      → (b ≡ true)
        × (t
            ≡ with_row s
                (held_row id mailbox payload expires user now)
                (record_row sha256 id mailbox payload expires user))
  unfolding insert_held
  insert_facts user s h = ground arith

  admit-true :
      (user : Bytes) (original s t : Store)
      → admit sha256 id mailbox payload expires user now original s ≡ ok (true, t)
      → (find_record (envelope_hash sha256 id) s.dedup ≡ none)
        × (check_quotas now s user mailbox (length payload) ≡ ok tt)
        × (insert_held sha256 id mailbox payload expires user now s ≡ ok (true, t))
  unfolding admit
  admit-true user original s t h =
      elim (Option-cases (find_record (envelope_hash sha256 id) s.dedup)) [
        | inr (old, e) ↦ absurd (ground arith)
        | inl e ↦ elim (Result-cases (check_quotas now s user mailbox (length payload))) [
          | inl (u, q) ↦ (e, ground arith, ground arith)
          | inr (x, q) ↦ absurd (ground arith)
        ]
      ]

  admit-false :
      (user : Bytes) (original s t : Store)
      → admit sha256 id mailbox payload expires user now original s ≡ ok (false, t)
      → t ≡ original
  unfolding admit
  admit-false user original s t h =
      elim (Option-cases (find_record (envelope_hash sha256 id) s.dedup)) [
        | inr (old, e) ↦ ground arith
        | inl e ↦ elim (Result-cases (check_quotas now s user mailbox (length payload))) [
          | inl (u, q) ↦
              let facts = insert_facts user s {b = false} {t = t} (ground arith) in
              absurd (ground arith)
          | inr (x, q) ↦ absurd (ground arith)
        ]
      ]

  -- A submission that is stored was within its size bounds and not expired, and it expires within 30 days
  -- or at a second so late, from 2^63 - 62135596800 on, that the program takes it for one in the past. It was
  -- not seen before and had room in every quota; its row and its replay record are added to the purged
  -- tables.
  pub store_held-Admitted :
      (s t : Store)
      → store_held sha256 id mailbox payload expires user_key now s ≡ ok (true, t)
      → Admitted s t
  unfolding store_held purge
  store_held-Admitted s t h =
      elim (Result-cases (check_submission id mailbox payload expires user_key now)) [
        | inr (x, e) ↦ absurd (ground arith)
        | inl (u, e) ↦
            let user = user_hash sha256 user_key in
            let (unseen, quotas, inserted) = admit-true user s (purge now s) t (ground arith) in
            let (small, fits, later, kept) = submission_facts (ground arith) in
            record {
              nonempty = small;
              bounded = fits;
              unexpired = later;
              retention = kept;
              unseen = unseen;
              room = check_quotas-Room now (purge now s) user mailbox (length payload) quotas;
              result = (insert_facts user (purge now s) inserted).1;
            }
      ]

  -- A submission that was accepted before changes nothing.
  pub store_held_again :
      (s t : Store)
      → store_held sha256 id mailbox payload expires user_key now s ≡ ok (false, t)
      → t ≡ s
  unfolding store_held
  store_held_again s t h =
      elim (Result-cases (check_submission id mailbox payload expires user_key now)) [
        | inr (x, e) ↦ absurd (ground arith)
        | inl (u, e) ↦ admit-false (user_hash sha256 user_key) s (purge now s) t (ground arith)
      ]
