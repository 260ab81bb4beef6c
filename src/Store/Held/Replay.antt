-- ===== src/Store/Held/Replay.antt =====
-- An accepted envelope ID is not accepted again before it expires, whatever happens in between.
use inkmail.Base.{
  ℕ, ◌≤◌, ◌<◌, ◌≡◌, refl, true, false, not, ◌||◌, List, [], ◌∷◌, ◌++◌, none, some, if◌then◌else◌,
  Bytes, same_iff, keep, ok, err, arith,
}
use inkmail.Session.{same_bytes}
use inkmail.Store.Schema.{Dedup, Store}
use inkmail.Store.Held.{
  replay_conflict, live_record, purge, find_record, envelope_hash, mailbox_hash, user_hash,
  check_submission, admit, store_held, delete_held, expire_held, record_row,
}
use inkmail.Store.Held.Admission.{Admitted, store_held-Admitted, store_held_again}
use inkmail.Store.Held.Quota.{Step, stores, deletes, expires_at, Reach, start, next}

find_record-keep :
    (hash : Bytes) (now : ℕ) (ds : List Dedup) (d : Dedup)
    → find_record hash ds ≡ some d
    → now < d.expires_at
    → find_record hash (keep (live_record now) ds) ≡ some d
unfolding find_record
find_record-keep hash now [] d h e = absurd (ground arith)
find_record-keep hash now (x ∷ ds) d h e = ground (arith, find_record-keep hash now ds d)

find_record-append :
    (hash : Bytes) (ds es : List Dedup) (d : Dedup)
    → find_record hash ds ≡ some d
    → find_record hash (ds ++ es) ≡ some d
unfolding find_record
find_record-append hash [] es d h = absurd (ground arith)
find_record-append hash (x ∷ ds) es d h = ground (arith, find_record-append hash ds es d)

find_record-snoc :
    (hash : Bytes) (ds : List Dedup) (d : Dedup)
    → find_record hash ds ≡ none
    → d.envelope_hash ≡ hash
    → find_record hash (ds ++ (d ∷ [])) ≡ some d
unfolding find_record
find_record-snoc hash [] d h e = ground (arith, same_iff d.envelope_hash hash)
find_record-snoc hash (x ∷ ds) d h e = ground (arith, find_record-snoc hash ds d)

-- The store remembers a replay record under a hash.
abbrev pub Remembers : Bytes → Dedup → Store → Type 0
Remembers hash d s = find_record hash s.dedup ≡ some d

purge-Remembers :
    (hash : Bytes) (d : Dedup) (now : ℕ) (s : Store)
    → now < d.expires_at
    → Remembers hash d s
    → Remembers hash d (purge now s)
unfolding purge
purge-Remembers hash d now s e m = find_record-keep hash now s.dedup d m e

stores-Remembers :
    {sha256 : Bytes → Bytes} (hash : Bytes) (d : Dedup) (id mailbox payload : Bytes) (expires : ℕ)
    (user_key : Bytes) (now : ℕ) (s t : Store)
    → now < d.expires_at
    → Remembers hash d s
    → Admitted sha256 id mailbox payload expires user_key now s t
    → Remembers hash d t
stores-Remembers {sha256} hash d id mailbox payload expires user_key now s t e m a =
    rw (a.result)
      (find_record-append hash (purge now s).dedup _ d (purge-Remembers hash d now s e m))

Step-Remembers :
    {sha256 : Bytes → Bytes} {deadline : ℕ} {s t : Store} (hash : Bytes) (d : Dedup)
    → deadline ≤ d.expires_at
    → Step sha256 deadline s t
    → Remembers hash d s
    → Remembers hash d t
unfolding expire_held delete_held
Step-Remembers {s = s} hash d e
      (stores id mailbox payload expires user_key now {b = true} {t = t} before st) m =
    stores-Remembers hash d id mailbox payload expires user_key now s t (omega arith) m
      (store_held-Admitted _ id mailbox payload expires user_key now s t st)
Step-Remembers {s = s} hash d e
      (stores id mailbox payload expires user_key now {b = false} {t = t} before st) m =
    rw (store_held_again _ id mailbox payload expires user_key now s t st) m
Step-Remembers hash d e (deletes id mailbox) m = m
Step-Remembers {s = s} hash d e (expires_at now before) m =
    purge-Remembers hash d now s (omega arith) m

Reach-Remembers :
    {sha256 : Bytes → Bytes} {deadline : ℕ} {s t : Store} (hash : Bytes) (d : Dedup)
    → deadline ≤ d.expires_at
    → Reach sha256 deadline s t
    → Remembers hash d s
    → Remembers hash d t
Reach-Remembers hash d e start m = m
Reach-Remembers hash d e (next r st) m = Step-Remembers hash d e st (Reach-Remembers hash d e r m)

module _ (sha256 : Bytes → Bytes) where
  Admitted-Remembers :
      (id mailbox payload : Bytes) (expires : ℕ) (user_key : Bytes) (now : ℕ) (s t : Store)
      → Admitted sha256 id mailbox payload expires user_key now s t
      → Remembers
          (envelope_hash sha256 id)
          (record_row sha256 id mailbox payload expires (user_hash sha256 user_key))
          t
  unfolding purge
  Admitted-Remembers id mailbox payload expires user_key now s t a =
      rw (a.result) (
        find_record-snoc (envelope_hash sha256 id) (keep (live_record now) s.dedup) _ a.unseen refl)

  remembered_refused :
      (id mailbox payload : Bytes) (expires : ℕ) (user_key : Bytes) (now : ℕ) (s t : Store)
      (d : Dedup)
      → Remembers (envelope_hash sha256 id) d s
      → now < d.expires_at
      → store_held sha256 id mailbox payload expires user_key now s ≡ ok (true, t)
      → ⊥
  unfolding purge
  remembered_refused id mailbox payload expires user_key now s t d m e h =
      let a = store_held-Admitted sha256 id mailbox payload expires user_key now s t h in
      let kept = purge-Remembers (envelope_hash sha256 id) d now s e m in cc (a.unseen)

  -- From the acceptance of an envelope until it expires, no submission under its ID is stored: after any
  -- history of submissions, deliveries and expirations, by whoever and with whatever content.
  pub store_held_once :
      (id mailbox payload : Bytes) (expires : ℕ) (user_key : Bytes) (now : ℕ) (s t u : Store)
      → store_held sha256 id mailbox payload expires user_key now s ≡ ok (true, t)
      → Reach sha256 expires t u
      → (mailbox' payload' : Bytes) (expires' : ℕ) (user_key' : Bytes) (now' : ℕ) (v : Store)
      → now' < expires
      → ¬ (store_held sha256 id mailbox' payload' expires' user_key' now' u ≡ ok (true, v))
  store_held_once id mailbox payload expires user_key now s t u h r mailbox' payload' expires'
        user_key' now' v e again =
      let a = store_held-Admitted sha256 id mailbox payload expires user_key now s t h in
      let d = record_row sha256 id mailbox payload expires (user_hash sha256 user_key) in
      let m =
        Reach-Remembers (envelope_hash sha256 id) d (omega arith) r
          (Admitted-Remembers id mailbox payload expires user_key now s t a) in
      remembered_refused id mailbox' payload' expires' user_key' now' u v d m e again

  admit_found :
      (id mailbox payload : Bytes) (expires : ℕ) (user : Bytes) (now : ℕ) (original s : Store)
      (d : Dedup)
      → find_record (envelope_hash sha256 id) s.dedup ≡ some d
      → admit sha256 id mailbox payload expires user now original s ≡ (
          if not (same_bytes d.mailbox_hash (mailbox_hash sha256 mailbox))
            || not (same_bytes d.payload_hash (sha256 payload))
          then err replay_conflict
          else ok (false, original))
  unfolding admit
  admit_found id mailbox payload expires user now original s d e = rw (e, admit) refl

  remembered_answer :
      (id mailbox payload : Bytes) (expires : ℕ) (user_key : Bytes) (now : ℕ) (s : Store)
      (d : Dedup)
      → Remembers (envelope_hash sha256 id) d s
      → now < d.expires_at
      → check_submission id mailbox payload expires user_key now ≡ ok tt
      → store_held sha256 id mailbox payload expires user_key now s ≡ (
          if same_bytes d.mailbox_hash (mailbox_hash sha256 mailbox)
          then (if same_bytes d.payload_hash (sha256 payload)
              then ok (false, s)
              else err replay_conflict)
          else err replay_conflict)
  unfolding store_held
  remembered_answer id mailbox payload expires user_key now s d m e valid =
      let kept = purge-Remembers (envelope_hash sha256 id) d now s e m in
      rw
        (
          valid,
          admit_found id mailbox payload expires (user_hash sha256 user_key) now s (purge now s) d
              kept,
        )
        (ground arith)

  -- Until it expires, a valid submission under the ID of an accepted envelope is answered, whoever makes it
  -- and whatever the quotas, as accepted before if its mailbox and its payload have the hashes of those
  -- accepted, and as a conflict otherwise; the first answer changes nothing.
  pub resubmission :
      (id mailbox payload : Bytes) (expires : ℕ) (user_key : Bytes) (now : ℕ) (s t u : Store)
      → store_held sha256 id mailbox payload expires user_key now s ≡ ok (true, t)
      → Reach sha256 expires t u
      → (mailbox' payload' : Bytes) (expires' : ℕ) (user_key' : Bytes) (now' : ℕ) → now' < expires
      → check_submission id mailbox' payload' expires' user_key' now' ≡ ok tt
      → store_held sha256 id mailbox' payload' expires' user_key' now' u ≡ (
          if same_bytes (mailbox_hash sha256 mailbox) (mailbox_hash sha256 mailbox')
          then (if same_bytes (sha256 payload) (sha256 payload')
              then ok (false, u)
              else err replay_conflict)
          else err replay_conflict)
  resubmission id mailbox payload expires user_key now s t u h r mailbox' payload' expires'
        user_key' now' e valid =
      let a = store_held-Admitted sha256 id mailbox payload expires user_key now s t h in
      let d = record_row sha256 id mailbox payload expires (user_hash sha256 user_key) in
      let m =
        Reach-Remembers (envelope_hash sha256 id) d (omega arith) r
          (Admitted-Remembers id mailbox payload expires user_key now s t a) in
      remembered_answer id mailbox' payload' expires' user_key' now' u d m e valid
