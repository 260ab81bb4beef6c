-- ===== src/Store/Held.antt =====
-- Held envelopes: `StoreOpaqueHeldMessageForUser`, `ListOpaqueHeldMessages`, `DeleteOpaqueHeldMessage`
-- and `ExpireOpaqueHeldMessages`.
pub mod Admission
pub mod Quota
pub mod Replay
pub mod Listing
use inkmail.Base.{
  ℕ, suc, ◌+◌, Bool, true, false, not, ◌&&◌, ◌||◌, List, [], ◌∷◌, ◌++◌, Option, none, some, ltb,
  leb, ◌==◌, if◌then◌else◌, Bytes, same, length, keep, sum_by, take, Result, ok, err, reject_if,
  ◌>>=◌, ◌>>◌,
}
use inkmail.Base.Int.{unix_limit}
use inkmail.Session.{validate_opaque_token, same_bytes}
use inkmail.Store.Schema.{Held, Dedup, Store, hash_security_key}

abbrev pub max_opaque_envelope_size : ℕ
max_opaque_envelope_size = 2097152

abbrev pub max_opaque_delivery_bytes : ℕ
max_opaque_delivery_bytes = 3145728

-- 30 days of seconds.
abbrev pub max_envelope_retention : ℕ
max_envelope_retention = 2592000

pub data HeldError : Type 0 where
  invalid_envelope_id invalid_mailbox_id invalid_held_envelope missing_user_key : HeldError
  replay_conflict : HeldError
  user_hold_quota mailbox_hold_quota global_hold_quota : HeldError
  user_replay_quota global_replay_quota : HeldError
  id_taken not_available : HeldError

abbrev pub size_of : Held → ℕ
size_of h = length h.payload

abbrev pub live : ℕ → Held → Bool
live now h = ltb now h.expires_at

abbrev pub live_record : ℕ → Dedup → Bool
live_record now d = ltb now d.expires_at

-- `DELETE ... WHERE expires_at <= now` on both tables.
unfoldable pub purge : ℕ → Store → Store
purge now s = record s { held = keep (live now) s.held; dedup = keep (live_record now) s.dedup }

-- `SELECT ... WHERE envelope_hash = ?`
unfoldable pub find_record : Bytes → List Dedup → Option Dedup
find_record hash [] = none
find_record hash (d ∷ ds) =
    let rest = find_record hash ds in if same d.envelope_hash hash then some d else rest

abbrev pub by_user : Bytes → Held → Bool
by_user user h = same h.submitter_hash user

abbrev pub in_mailbox : Bytes → Held → Bool
in_mailbox mailbox h = same h.mailbox_id mailbox

abbrev pub record_by : Bytes → Dedup → Bool
record_by user d = same d.submitter_hash user

-- The quota tests on the purged tables, in the program's order.
unfoldable pub check_quotas : ℕ → Store → Bytes → Bytes → ℕ → Result HeldError (Unit {0})
check_quotas now s user mailbox size = do
  let mine = keep (by_user user) s.held
  reject_if
      (leb s.limits.held_messages_per_user (length mine)
        || ltb s.limits.held_bytes_per_user (sum_by size_of mine + size))
      user_hold_quota
  let there = keep (in_mailbox mailbox) s.held
  reject_if
      (leb s.limits.held_messages_per_mailbox (length there)
        || ltb s.limits.held_bytes_per_mailbox (sum_by size_of there + size))
      mailbox_hold_quota
  reject_if
      (leb s.limits.held_messages_global (length s.held + s.legacy_relay_messages)
        || ltb s.limits.held_bytes_global (sum_by size_of s.held + s.legacy_relay_bytes + size))
      global_hold_quota
  reject_if
      (leb s.limits.replay_records_per_user
        (length (keep (λ d. record_by user d && live_record now d) s.dedup)))
      user_replay_quota
  reject_if (leb s.limits.replay_records_global (length (keep (live_record now) s.dedup)))
      global_replay_quota

abbrev pub has_id : Bytes → Held → Bool
has_id id h = same h.id id

-- What a submission is asked to be before the transaction.
-- The expiry is a 64-bit number of seconds; `time.Unix` takes one from `unix_limit` on for a time in the
-- far past, which is not after the retention.
unfoldable pub check_submission :
    Bytes → Bytes → Bytes → ℕ → Bytes → ℕ → Result HeldError (Unit {0})
check_submission id mailbox payload expires user_key now = do
  reject_if (not (validate_opaque_token id)) invalid_envelope_id
  reject_if (not (validate_opaque_token mailbox)) invalid_mailbox_id
  reject_if
      (length payload == 0
        || ltb max_opaque_envelope_size (length payload)
        || leb expires now
        || (ltb expires unix_limit && ltb (now + max_envelope_retention) expires))
      invalid_held_envelope
  reject_if (length user_key == 0) missing_user_key

abbrev pub held_row : Bytes → Bytes → Bytes → ℕ → Bytes → ℕ → Held
held_row id mailbox payload expires user now = record {
  id = id;
  mailbox_id = mailbox;
  payload = payload;
  expires_at = expires;
  stored_at = now;
  submitter_hash = user;
}

module _ (sha256 : Bytes → Bytes) where
  abbrev pub envelope_hash : Bytes → Bytes
  envelope_hash id = hash_security_key sha256 "inkmail-envelope-id-v1" id

  abbrev pub mailbox_hash : Bytes → Bytes
  mailbox_hash id = hash_security_key sha256 "inkmail-mailbox-id-v1" id

  abbrev pub user_hash : Bytes → Bytes
  user_hash key = hash_security_key sha256 "inkmail-hold-user-v1" key

  abbrev pub record_row : Bytes → Bytes → Bytes → ℕ → Bytes → Dedup
  record_row id mailbox payload expires user = record {
    envelope_hash = envelope_hash id;
    mailbox_hash = mailbox_hash mailbox;
    payload_hash = sha256 payload;
    submitter_hash = user;
    expires_at = expires;
  }

  -- The two inserts, and the commit.
  unfoldable pub insert_held :
      Bytes → Bytes → Bytes → ℕ → Bytes → ℕ → Store → Result HeldError (Bool × Store)
  insert_held id mailbox payload expires user now s =
      if ltb 0 (length (keep (has_id id) s.held))
      then err id_taken
      else ok (
        true,
        record s {
          held = s.held ++ (held_row id mailbox payload expires user now ∷ []);
          dedup = s.dedup ++ (record_row id mailbox payload expires user ∷ []);
        },
      )

  -- The transaction, on the purged tables; `original` is what a rollback restores.
  unfoldable pub admit :
      Bytes → Bytes → Bytes → ℕ → Bytes → ℕ → Store → Store → Result HeldError (Bool × Store)
  unfolding insert_held
  admit id mailbox payload expires user now original s =
      elim (find_record (envelope_hash id) s.dedup) [
        | some old ↦
            if not (same_bytes old.mailbox_hash (mailbox_hash mailbox))
              || not (same_bytes old.payload_hash (sha256 payload))
            then err replay_conflict
            else ok (false, original)
        | none ↦
            check_quotas now s user mailbox (length payload)
            >> insert_held id mailbox payload expires user now s
      ]

  -- `true` means stored, `false` that the same envelope was accepted before.
  unfoldable pub store_held :
      Bytes → Bytes → Bytes → ℕ → Bytes → ℕ → Store → Result HeldError (Bool × Store)
  store_held id mailbox payload expires user_key now s =
      check_submission id mailbox payload expires user_key now
      >> admit id mailbox payload expires (user_hash user_key) now s (purge now s)

-- `ORDER BY stored_at ASC`, rows of one time in insertion order.
unfoldable pub insert_by_time : Held → List Held → List Held
insert_by_time h [] = h ∷ []
insert_by_time h (x ∷ xs) =
    let rest = insert_by_time h xs in if leb h.stored_at x.stored_at then h ∷ x ∷ xs else x ∷ rest

unfoldable pub sort_by_time : List Held → List Held
unfolding insert_by_time
sort_by_time [] = []
sort_by_time (x ∷ xs) = insert_by_time x (sort_by_time xs)

-- The loop over the rows: it stops before the bytes exceed the budget, but not before the first row.
unfoldable pub fill : Bool → ℕ → List Held → List Held
fill started used [] = []
fill started used (h ∷ hs) =
    let rest = fill true (used + size_of h) hs in
    if started && ltb max_opaque_delivery_bytes (used + size_of h) then [] else h ∷ rest

abbrev pub clamp_limit : ℕ → ℕ
clamp_limit limit = if limit == 0 || ltb 256 limit then 256 else limit

unfoldable pub list_held : Bytes → ℕ → ℕ → Store → Result HeldError (List Held)
unfolding sort_by_time fill
list_held mailbox limit now s =
    if not (validate_opaque_token mailbox)
    then err invalid_mailbox_id
    else ok (
        fill false 0 (
          take (clamp_limit limit)
            (sort_by_time (keep (λ h. in_mailbox mailbox h && live now h) s.held))))

abbrev pub is_message : Bytes → Bytes → Held → Bool
is_message id mailbox h = same h.id id && same h.mailbox_id mailbox

-- The delete is not in a transaction: its effect stays when the count is not 1.
unfoldable pub delete_held : Bytes → Bytes → Store → Result HeldError (Unit {0}) × Store
delete_held id mailbox s =
    let deleted = length (keep (is_message id mailbox) s.held) in
    (
      if deleted == 1 then ok tt else err not_available,
      record s { held = keep (λ h. not (is_message id mailbox h)) s.held },
    )

-- The number of envelopes that expired.
unfoldable pub expire_held : ℕ → Store → ℕ × Store
unfolding purge
expire_held now s = (length (keep (λ h. not (live now h)) s.held), purge now s)
