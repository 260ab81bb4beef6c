-- ===== src/Letters/Storing.antt =====
-- `StoreMessage` of internal/database/database.go, and the reads of the table of local messages:
-- `ListMessages`, `ListMessagesInFolder`, `ListQueuedMessages`, `GetMessage` and `GetMessageFolder`.
use inkmail.Base.{
  ℕ, Bool, not, ◌||◌, ◌&&◌, List, [], ◌∷◌, Option, none, some, ltb, ◌==◌, if◌then◌else◌, Bytes,
  codes, same, trim_space, to_lower, map, take, keep, Result, ok, err, map_err, or_err, ◌>>=◌,
}
use inkmail.Hex.{encode_hex, decode_hex}
use inkmail.Messages.{Message, sender_key, recipient_key}
use inkmail.Letters.{Letter, direction_queued, status_delivered, normalise_direction, has_id}

pub data StoreError : Type 0 where
  bad_sender_key bad_recipient_key bad_signature not_found : StoreError

abbrev pub folder_inbox : Bytes
folder_inbox = codes "inbox"

abbrev pub letter_row : Message → Bytes → Bytes → Bytes → Bytes → Bytes → ℕ → Letter
letter_row m sender recipient signature direction status now = record {
  id = m.id;
  sender_namespace = m.sender_namespace;
  sender_public_key = sender;
  recipient_namespace = m.recipient_namespace;
  recipient_public_key = recipient;
  subject = m.subject;
  body = m.body;
  created_at = m.created_at;
  signature = signature;
  direction = direction;
  status = status;
  folder = folder_inbox;
  folder_updated_at = now;
  stored_at = now;
}

-- The two `CASE` expressions of the conflict: only a queued message changes its direction, and a
-- delivered one stays delivered.
abbrev pub merged : Bytes → Bytes → Letter → Letter
merged direction status l = record l {
  direction = if same l.direction direction_queued then direction else l.direction;
  status = if same l.status status_delivered then l.status else status;
}

-- `INSERT INTO messages ... ON CONFLICT(id) DO UPDATE`
unfoldable pub upsert_letter : Letter → List Letter → List Letter
upsert_letter row [] = row ∷ []
upsert_letter row (l ∷ ls) =
    let rest = upsert_letter row ls in
    if has_id row.id l then merged row.direction row.status l ∷ ls else l ∷ rest

abbrev pub signature_bytes : Bytes → Result StoreError Bytes
signature_bytes text = if same text [] then ok [] else or_err (decode_hex text) bad_signature

unfoldable pub store_message :
    Message → Bytes → Bytes → ℕ → List Letter → Result StoreError (List Letter)
unfolding upsert_letter sender_key recipient_key
store_message m direction status now ls = do
  sender ← map_err (λ e. bad_sender_key) (sender_key m)
  recipient ← map_err (λ e. bad_recipient_key) (recipient_key m)
  signature ← signature_bytes m.signature
  ok (upsert_letter (letter_row m sender recipient signature direction status now) ls)

pub record StoredMessage : Type 0 where
  pub message : Message
  pub direction : Bytes
  pub status : Bytes
  pub stored_at : ℕ

-- `scanMessage` and `scanMessageRow`
unfoldable pub scan_message : Letter → StoredMessage
scan_message l = record {
  message = record {
    id = l.id;
    sender_namespace = l.sender_namespace;
    sender_public_key = encode_hex l.sender_public_key;
    recipient_namespace = l.recipient_namespace;
    recipient_public_key = encode_hex l.recipient_public_key;
    subject = l.subject;
    body = l.body;
    created_at = l.created_at;
    signature = encode_hex l.signature;
  };
  direction = l.direction;
  status = l.status;
  stored_at = l.stored_at;
}

-- Rows by a column, the greatest first; rows that agree in it in insertion order.
unfoldable pub insert_newest : (Letter → ℕ) → Letter → List Letter → List Letter
insert_newest f l [] = l ∷ []
insert_newest f l (k ∷ ks) =
    let rest = insert_newest f l ks in if ltb (f l) (f k) then k ∷ rest else l ∷ k ∷ ks

unfoldable pub newest_first : (Letter → ℕ) → List Letter → List Letter
unfolding insert_newest
newest_first f [] = []
newest_first f (l ∷ ls) = insert_newest f l (newest_first f ls)

unfoldable pub insert_oldest : (Letter → ℕ) → Letter → List Letter → List Letter
insert_oldest f l [] = l ∷ []
insert_oldest f l (k ∷ ks) =
    let rest = insert_oldest f l ks in if ltb (f k) (f l) then k ∷ rest else l ∷ k ∷ ks

unfoldable pub oldest_first : (Letter → ℕ) → List Letter → List Letter
unfolding insert_oldest
oldest_first f [] = []
oldest_first f (l ∷ ls) = insert_oldest f l (oldest_first f ls)

unfoldable pub list_messages : List Letter → List StoredMessage
unfolding newest_first scan_message
list_messages ls = map scan_message (newest_first (λ l. l.created_at) ls)

abbrev pub shown_in_folder : Letter → StoredMessage
shown_in_folder l = record (scan_message l) { direction = normalise_direction l.direction }

unfoldable pub list_messages_in_folder : Bytes → List Letter → List StoredMessage
unfolding newest_first scan_message
list_messages_in_folder folder ls =
    let lower = map to_lower (trim_space folder) in
    let name = if same lower [] then folder_inbox else lower in
    map shown_in_folder (
      newest_first (λ l. l.stored_at)
        (if same name (codes "all") then ls else keep (λ l. same l.folder name) ls))

abbrev pub waiting : Letter → Bool
waiting l = same l.direction direction_queued && not (same l.status status_delivered)

abbrev pub queue_limit : ℕ → ℕ
queue_limit limit = if limit == 0 || ltb 500 limit then 100 else limit

unfoldable pub list_queued_messages : ℕ → List Letter → List StoredMessage
unfolding oldest_first scan_message
list_queued_messages limit ls =
    map scan_message (take (queue_limit limit) (oldest_first (λ l. l.stored_at) (keep waiting ls)))

unfoldable pub find_letter : Bytes → List Letter → Option Letter
find_letter id [] = none
find_letter id (l ∷ ls) = let rest = find_letter id ls in if has_id id l then some l else rest

unfoldable pub get_message : Bytes → List Letter → Result StoreError StoredMessage
unfolding find_letter scan_message
get_message id ls = elim (find_letter id ls) [ none ↦ err not_found | some l ↦ ok (scan_message l) ]

unfoldable pub get_message_folder : Bytes → List Letter → Result StoreError Bytes
unfolding find_letter
get_message_folder id ls = elim (find_letter id ls) [ none ↦ err not_found | some l ↦ ok l.folder ]
