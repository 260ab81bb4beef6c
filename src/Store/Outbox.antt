-- ===== src/Store/Outbox.antt =====
-- The outbox of undelivered envelopes: `QueueOpaqueOutbox`, `ListOpaqueOutbox` and `RemoveOpaqueOutbox`
-- of internal/database/mailbox_privacy.go.
use inkmail.Base.{
  ℕ, suc, ◌+◌, ◌-◌, ◌≤◌, ◌≡◌, refl, Bool, true, false, not, ◌||◌, ◌&&◌, List, [], ◌∷◌, Option, none,
  some, ltb, leb, ◌==◌, if◌then◌else◌, Bytes, same, length, keep, sum_by, take, Result, ok,
  reject_if, ◌>>◌, arith, inl, inr, Option-cases,
}
use inkmail.Session.{validate_opaque_token}
use inkmail.Store.Schema.{OutboxMessage, Store}
use inkmail.Store.Held.{max_opaque_envelope_size}

pub data OutboxError : Type 0 where
  invalid_token invalid_size : OutboxError
  message_quota byte_quota : OutboxError

abbrev pub bytes_of : OutboxMessage → ℕ
bytes_of m = length m.payload

-- `SELECT length(payload) ... WHERE id = ?`
unfoldable pub old_bytes : Bytes → List OutboxMessage → Option ℕ
old_bytes id [] = none
old_bytes id (m ∷ ms) =
    let rest = old_bytes id ms in if same m.id id then some (bytes_of m) else rest

-- `INSERT ... ON CONFLICT(id) DO UPDATE`: a message that is queued again keeps its mailbox.
unfoldable pub upsert : Bytes → Bytes → Bytes → ℕ → List OutboxMessage → List OutboxMessage
upsert id mailbox payload now [] =
    record { id = id; mailbox_id = mailbox; payload = payload; stored_at = now } ∷ []
upsert id mailbox payload now (m ∷ ms) =
    let rest = upsert id mailbox payload now ms in
    if same m.id id then record m { payload = payload; stored_at = now } ∷ ms else m ∷ rest

unfoldable pub check_outbox : Bytes → Bytes → Bytes → Result OutboxError (Unit {0})
check_outbox id mailbox payload = do
  reject_if (not (validate_opaque_token id)) invalid_token
  reject_if (not (validate_opaque_token mailbox)) invalid_token
  reject_if (length payload == 0 || ltb max_opaque_envelope_size (length payload)) invalid_size

-- `oldBytes` is 0 for a new message.
abbrev or_zero : Option ℕ → ℕ
or_zero none = 0
or_zero (some n) = n

abbrev is_new : Option ℕ → Bool
is_new none = true
is_new (some n) = false

unfoldable pub queue : Bytes → Bytes → Bytes → ℕ → Store → Result OutboxError Store
unfolding upsert check_outbox old_bytes
queue id mailbox payload now s = do
  check_outbox id mailbox payload
  let old = old_bytes id s.outbox
  reject_if (is_new old && leb s.limits.outbox_messages (length s.outbox)) message_quota
  reject_if (ltb s.limits.outbox_bytes (sum_by bytes_of s.outbox - or_zero old + length payload))
      byte_quota
  ok (record s { outbox = upsert id mailbox payload now s.outbox })

-- `ORDER BY stored_at ASC`, rows of one time in insertion order.
unfoldable pub insert_by_time : OutboxMessage → List OutboxMessage → List OutboxMessage
insert_by_time m [] = m ∷ []
insert_by_time m (x ∷ xs) =
    let rest = insert_by_time m xs in if leb m.stored_at x.stored_at then m ∷ x ∷ xs else x ∷ rest

unfoldable pub sort_by_time : List OutboxMessage → List OutboxMessage
unfolding insert_by_time
sort_by_time [] = []
sort_by_time (x ∷ xs) = insert_by_time x (sort_by_time xs)

-- `ListOpaqueOutbox`.
unfoldable pub list_outbox : ℕ → Store → List OutboxMessage
unfolding sort_by_time
list_outbox limit s =
    take (if limit == 0 || ltb 500 limit then 200 else limit) (sort_by_time s.outbox)

-- `RemoveOpaqueOutbox`.
unfoldable pub remove : Bytes → Store → Store
remove id s = record s { outbox = keep (λ m. not (same m.id id)) s.outbox }

length-upsert_new :
    (id mailbox payload : Bytes) (now : ℕ) (ms : List OutboxMessage)
    → old_bytes id ms ≡ none
    → length (upsert id mailbox payload now ms) ≡ suc (length ms)
unfolding upsert old_bytes
length-upsert_new id mailbox payload now [] e = refl
length-upsert_new id mailbox payload now (m ∷ ms) e =
    ground (arith, length-upsert_new id mailbox payload now ms)

length-upsert_old :
    (id mailbox payload : Bytes) (now : ℕ) (ms : List OutboxMessage) (n : ℕ)
    → old_bytes id ms ≡ some n
    → length (upsert id mailbox payload now ms) ≡ length ms
unfolding upsert old_bytes
length-upsert_old id mailbox payload now [] n e = absurd (ground arith)
length-upsert_old id mailbox payload now (m ∷ ms) n e =
    ground (arith, length-upsert_old id mailbox payload now ms n)

sum_by-upsert_new :
    (id mailbox payload : Bytes) (now : ℕ) (ms : List OutboxMessage)
    → old_bytes id ms ≡ none
    → sum_by bytes_of (upsert id mailbox payload now ms) ≡ sum_by bytes_of ms + length payload
unfolding upsert old_bytes
sum_by-upsert_new id mailbox payload now [] e = omega arith
sum_by-upsert_new id mailbox payload now (m ∷ ms) e =
    ground (arith, sum_by-upsert_new id mailbox payload now ms)

sum_by-upsert_old :
    (id mailbox payload : Bytes) (now : ℕ) (ms : List OutboxMessage) (n : ℕ)
    → old_bytes id ms ≡ some n
    → sum_by bytes_of (upsert id mailbox payload now ms) + n ≡ sum_by bytes_of ms + length payload
unfolding upsert old_bytes
sum_by-upsert_old id mailbox payload now [] n e = absurd (ground arith)
sum_by-upsert_old id mailbox payload now (m ∷ ms) n e =
    ground (arith, sum_by-upsert_old id mailbox payload now ms n)

-- The outbox is within its quotas.
pub record Quotas (s : Store) : Type 0 where
  pub count : length s.outbox ≤ s.limits.outbox_messages
  pub bytes : sum_by bytes_of s.outbox ≤ s.limits.outbox_bytes

-- A message that is queued, new or again, in an outbox within both of its quotas leaves it within
-- them.
pub queue-Quotas :
    (id mailbox payload : Bytes) (now : ℕ) (s t : Store)
    → Quotas s
    → queue id mailbox payload now s ≡ ok t
    → Quotas t
unfolding queue
queue-Quotas id mailbox payload now s t v h =
    let count_new = length-upsert_new id mailbox payload now s.outbox in
    let bytes_new = sum_by-upsert_new id mailbox payload now s.outbox in
    elim (Option-cases (old_bytes id s.outbox)) [
      | inl e ↦ record {
        count = ground (arith, v.count, count_new e);
        bytes = ground (arith, v.bytes, bytes_new e);
      }
      | inr (n, e) ↦
          let same_count = length-upsert_old id mailbox payload now s.outbox n e in
          let same_bytes = sum_by-upsert_old id mailbox payload now s.outbox n e in
          record {
            count = ground (arith, v.count, same_count);
            bytes = ground (arith, v.bytes, same_bytes);
          }
    ]
