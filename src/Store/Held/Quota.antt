-- ===== src/Store/Held/Quota.antt =====
-- No history of submissions, deliveries and expirations takes the held envelopes or the replay records
-- over a quota.
use inkmail.Base.{
  ℕ, ◌+◌, ◌≤◌, ◌<◌, ◌≡◌, refl, ap, Bool, true, false, not, ◌&&◌, List, [], ◌∷◌, ◌++◌, if◌then◌else◌,
  Bytes, same_iff, length, keep, sum_by, ok, arith, length-append, sum_by-append, length-keep-le,
  length-keep-keep-le, sum_by-keep-le, sum_by-keep-keep-le, keep-and-keep, keep_idem, keep_all,
  subst,
}
use inkmail.Limits.{Limits}
use inkmail.Store.Schema.{Held, Dedup, Store, empty}
use inkmail.Store.Held.{
  size_of, live, live_record, purge, by_user, in_mailbox, record_by, store_held, delete_held,
  expire_held, is_message, held_row, record_row, user_hash,
}
use inkmail.Store.Held.Admission.{Room, with_row, Admitted, store_held-Admitted, store_held_again}

pub record Quotas (s : Store) : Type 0 where
  pub user_count : (u : Bytes) → length (keep (by_user u) s.held) ≤ s.limits.held_messages_per_user
  pub user_bytes :
      (u : Bytes) → sum_by size_of (keep (by_user u) s.held) ≤ s.limits.held_bytes_per_user
  pub mailbox_count :
      (m : Bytes) → length (keep (in_mailbox m) s.held) ≤ s.limits.held_messages_per_mailbox
  pub mailbox_bytes :
      (m : Bytes) → sum_by size_of (keep (in_mailbox m) s.held) ≤ s.limits.held_bytes_per_mailbox
  pub global_count :
      0 < length s.held → length s.held + s.legacy_relay_messages ≤ s.limits.held_messages_global
  pub global_bytes :
      0 < length s.held → sum_by size_of s.held + s.legacy_relay_bytes ≤ s.limits.held_bytes_global
  pub replay_user :
      (u : Bytes) → length (keep (record_by u) s.dedup) ≤ s.limits.replay_records_per_user
  pub replay_global : length s.dedup ≤ s.limits.replay_records_global

-- Rows that go take nothing over a quota.
keep-Quotas :
    (p : Held → Bool) (q : Dedup → Bool) (s : Store)
    → Quotas s
    → Quotas (record s { held = keep p s.held; dedup = keep q s.dedup })
keep-Quotas p q s v = record {
  user_count = λ u. omega (arith, length-keep-keep-le (by_user u) p s.held, v.user_count u);
  user_bytes = λ u. omega (arith, sum_by-keep-keep-le size_of (by_user u) p s.held, v.user_bytes u);
  mailbox_count =
      λ m. omega (arith, length-keep-keep-le (in_mailbox m) p s.held, v.mailbox_count m);
  mailbox_bytes =
      λ m. omega (arith, sum_by-keep-keep-le size_of (in_mailbox m) p s.held, v.mailbox_bytes m);
  global_count = λ h. omega (arith, length-keep-le p s.held, v.global_count);
  global_bytes =
      λ h. omega (arith, length-keep-le p s.held, sum_by-keep-le size_of p s.held, v.global_bytes);
  replay_user = λ u. omega (arith, length-keep-keep-le (record_by u) q s.dedup, v.replay_user u);
  replay_global = omega (arith, length-keep-le q s.dedup, v.replay_global);
}

-- One more row under a test raises the count of the test by one if the row passes it.
length-keep-snoc {ℓ} :
    {A : Type ℓ} (p : A → Bool) (xs : List A) (x : A)
    → length (keep p (xs ++ (x ∷ []))) ≡ length (keep p xs) + (if p x then 1 else 0)
length-keep-snoc p [] x = ground arith
length-keep-snoc p (y ∷ xs) x = ground (arith, length-keep-snoc p xs x)

sum_by-keep-snoc {ℓ} :
    {A : Type ℓ} (f : A → ℕ) (p : A → Bool) (xs : List A) (x : A)
    → sum_by f (keep p (xs ++ (x ∷ []))) ≡ sum_by f (keep p xs) + (if p x then f x else 0)
sum_by-keep-snoc f p [] x = ground arith
sum_by-keep-snoc f p (y ∷ xs) x = ground (arith, sum_by-keep-snoc f p xs x)

-- An admitted row fits into every quota.
with_row-Quotas :
    (now : ℕ) (s : Store) (h : Held) (d : Dedup)
    → Quotas s
    → keep (live_record now) s.dedup ≡ s.dedup
    → keep (λ e. record_by h.submitter_hash e && live_record now e) s.dedup
      ≡ keep (record_by h.submitter_hash) s.dedup
    → d.submitter_hash ≡ h.submitter_hash
    → Room now s h.submitter_hash h.mailbox_id (length h.payload)
    → Quotas (with_row s h d)
with_row-Quotas now s h d v fresh fresh_user same_user r = record {
  user_count = λ u.
      ground
        (arith, length-keep-snoc (by_user u) s.held h, same_iff h.submitter_hash u, v.user_count u);
  user_bytes = λ u. ground (
    arith,
    sum_by-keep-snoc size_of (by_user u) s.held h,
    same_iff h.submitter_hash u,
    v.user_bytes u,
  );
  mailbox_count = λ m.
      ground (
        arith,
        length-keep-snoc (in_mailbox m) s.held h,
        same_iff h.mailbox_id m,
        v.mailbox_count m,
      );
  mailbox_bytes = λ m. ground (
    arith,
    sum_by-keep-snoc size_of (in_mailbox m) s.held h,
    same_iff h.mailbox_id m,
    v.mailbox_bytes m,
  );
  global_count = λ _. omega (arith, length-append s.held (h ∷ []), r.global_count);
  global_bytes = λ _. omega (arith, sum_by-append size_of s.held (h ∷ []), r.global_bytes);
  replay_user = λ u. ground (
    arith,
    length-keep-snoc (record_by u) s.dedup d,
    same_iff d.submitter_hash u,
    v.replay_user u,
    ap (length {A = Dedup}) fresh_user,
    r.replay_user,
  );
  replay_global =
      omega (arith, length-append s.dedup (d ∷ []), ap (length {A = Dedup}) fresh, r.replay_global);
}

purge-Quotas : (now : ℕ) (s : Store) → Quotas s → Quotas (purge now s)
unfolding purge
purge-Quotas now s v = keep-Quotas (live now) (live_record now) s v

-- One operation on the held envelopes, before a deadline.
pub data Step (sha256 : Bytes → Bytes) (deadline : ℕ) (s : Store) : Store → Type 0 where
  stores :
      (id mailbox payload : Bytes) (expires : ℕ) (user_key : Bytes) (now : ℕ) {b : Bool} {t : Store}
      → now < deadline
      → store_held sha256 id mailbox payload expires user_key now s ≡ ok (b, t)
      → Step sha256 deadline s t
  deletes : (id mailbox : Bytes) → Step sha256 deadline s (delete_held id mailbox s).1
  expires_at : (now : ℕ) → now < deadline → Step sha256 deadline s (expire_held now s).1

Admitted-Quotas :
    {sha256 : Bytes → Bytes} (id mailbox payload : Bytes) (expires : ℕ) (user_key : Bytes) (now : ℕ)
    (s t : Store)
    → Quotas s
    → Admitted sha256 id mailbox payload expires user_key now s t
    → Quotas t
unfolding purge
Admitted-Quotas {sha256} id mailbox payload expires user_key now s t v a =
    let user = user_hash sha256 user_key in
    rw (a.result) (
      with_row-Quotas now (purge now s) (held_row id mailbox payload expires user now)
        (record_row sha256 id mailbox payload expires user) (purge-Quotas now s v)
        (keep_idem (live_record now) s.dedup)
        (keep-and-keep (record_by user) (live_record now) s.dedup) refl a.room)

delete_held-Quotas :
    (id mailbox : Bytes) (s : Store) → Quotas s → Quotas (delete_held id mailbox s).1
unfolding delete_held
delete_held-Quotas id mailbox s v =
    subst
      (λ ds.
        Quotas (record s { held = keep (λ h. not (is_message id mailbox h)) s.held; dedup = ds }))
      (keep_all s.dedup) (keep-Quotas (λ h. not (is_message id mailbox h)) (λ d. true) s v)

-- Every operation keeps every quota.
pub Step-Quotas :
    {sha256 : Bytes → Bytes} {deadline : ℕ} {s t : Store}
    → Step sha256 deadline s t
    → Quotas s
    → Quotas t
unfolding expire_held
Step-Quotas {s = s} (stores id mailbox payload expires user_key now {b = true} {t = t} before e) v =
    Admitted-Quotas id mailbox payload expires user_key now s t v
      (store_held-Admitted _ id mailbox payload expires user_key now s t e)
Step-Quotas {s = s} (stores id mailbox payload expires user_key now {b = false} {t = t} before e)
      v =
    rw (store_held_again _ id mailbox payload expires user_key now s t e) v
Step-Quotas {s = s} (deletes id mailbox) v = delete_held-Quotas id mailbox s v
Step-Quotas {s = s} (expires_at now before) v = purge-Quotas now s v

pub data Reach (sha256 : Bytes → Bytes) (deadline : ℕ) (s : Store) : Store → Type 0 where
  start : Reach sha256 deadline s s
  next :
      {t u : Store}
      → Reach sha256 deadline s t
      → Step sha256 deadline t u
      → Reach sha256 deadline s u

-- A history of submissions, deliveries and expirations that starts within every quota on the held
-- envelopes and the replay records, of each user, of each mailbox and of all together, stays within
-- them.
pub Reach-Quotas :
    {sha256 : Bytes → Bytes} {deadline : ℕ} {s t : Store}
    → Quotas s
    → Reach sha256 deadline s t
    → Quotas t
Reach-Quotas v start = v
Reach-Quotas v (next r st) = Step-Quotas st (Reach-Quotas v r)

-- A database just created is within its quotas.
pub empty-Quotas : (limits : Limits) → Quotas (empty limits)
unfolding empty
empty-Quotas limits = ground arith
