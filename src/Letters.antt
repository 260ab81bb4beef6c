-- ===== src/Letters.antt =====
-- The table of local messages of internal/database/database.go: folders, status changes, deletion, and
-- `MarkMessageDeliveredFromReceipt` of internal/database/mailbox_privacy.go. A row has the columns that
-- the program reads. Storing is `StoreMessage` and the lists.
pub mod Receipts
pub mod Storing
pub mod Once
use inkmail.Base.{
  ℕ, Bool, true, false, not, ◌||◌, ◌&&◌, List, [], ◌∷◌, Option, none, some, ltb, leb, ◌==◌,
  if◌then◌else◌, Bytes, codes, same, trim_space, to_lower, map, length, keep, Result, ok, err,
}

pub record Letter : Type 0 where
  pub id : Bytes
  pub sender_namespace : Bytes
  pub sender_public_key : Bytes
  pub recipient_namespace : Bytes
  pub recipient_public_key : Bytes
  pub subject : Bytes
  pub body : Bytes
  pub created_at : ℕ
  pub signature : Bytes
  pub direction : Bytes
  pub status : Bytes
  pub folder : Bytes
  pub folder_updated_at : ℕ
  pub stored_at : ℕ

abbrev pub direction_sent : Bytes
direction_sent = codes "sent"

abbrev pub direction_queued : Bytes
direction_queued = codes "queued"

abbrev pub status_delivered : Bytes
status_delivered = codes "delivered"

unfoldable pub normalise_direction : Bytes → Bytes
normalise_direction direction =
    if same direction (codes "in")
    then codes "received"
    else if same direction (codes "out")
    then direction_sent
    else direction

pub data LetterError : Type 0 where
  folder_too_long invalid_folder no_rows : LetterError

unfoldable pub is_folder_char : ℕ → Bool
is_folder_char r =
    (leb b'a' r && leb r b'z') || (leb b'0' r && leb r b'9') || r == b'-' || r == b'_' || r == b'.'

unfoldable pub folder_chars : Bytes → Bool
unfolding is_folder_char
folder_chars [] = true
folder_chars (c ∷ cs) = is_folder_char c && folder_chars cs

unfoldable pub is_reserved : Bytes → Bool
is_reserved name =
    same name (codes "inbox")
    || same name (codes "archive")
    || same name (codes "important")
    || same name (codes "deleted")

unfoldable pub normalise_folder : Bytes → Result LetterError Bytes
unfolding folder_chars is_reserved
normalise_folder folder =
    let name = map to_lower (trim_space folder) in
    if same name []
    then ok (codes "inbox")
    else if is_reserved name
    then ok name
    else if ltb 64 (length name)
    then err folder_too_long
    else if folder_chars name
    then ok name
    else err invalid_folder

abbrev pub has_id : Bytes → Letter → Bool
has_id id m = same m.id id

-- `UPDATE messages SET ... WHERE ...`
unfoldable pub update_where : (Letter → Bool) → (Letter → Letter) → List Letter → List Letter
update_where p f [] = []
update_where p f (m ∷ ms) = let rest = update_where p f ms in if p m then f m ∷ rest else m ∷ rest

abbrev count_where : (Letter → Bool) → List Letter → ℕ
count_where p ms = length (keep p ms)

unfoldable pub move_message : Bytes → Bytes → List Letter → Result LetterError (List Letter)
unfolding normalise_folder update_where
move_message id folder ms = elim (normalise_folder folder) [
  | err e ↦ err e
  | ok name ↦
      if count_where (has_id id) ms == 0
      then err no_rows
      else ok (update_where (has_id id) (λ m. record m { folder = name }) ms)
]

unfoldable pub delete_message : Bytes → List Letter → Result LetterError (List Letter)
delete_message id ms =
    if count_where (has_id id) ms == 0 then err no_rows else ok (keep (λ m. not (has_id id m)) ms)

unfoldable pub update_message_status :
    Bytes → Bytes → List Letter → Result LetterError (List Letter)
unfolding update_where
update_message_status id status ms =
    if count_where (has_id id) ms == 0
    then err no_rows
    else ok (update_where (has_id id) (λ m. record m { status = status }) ms)

-- What a receipt must agree with.
pub record Receipt : Type 0 where
  pub message_id : Bytes
  pub local_namespace : Bytes
  pub local_public_key : Bytes
  pub recipient_namespace : Bytes
  pub recipient_public_key : Bytes

-- The `WHERE` of both statements.
abbrev pub receipt_matches : Receipt → Letter → Bool
receipt_matches r m =
    same m.id r.message_id
    && ((same m.direction direction_sent || same m.direction direction_queued)
        && (same m.sender_namespace r.local_namespace
            && (same m.sender_public_key r.local_public_key
                && (same m.recipient_namespace r.recipient_namespace
                    && same m.recipient_public_key r.recipient_public_key))))

unfoldable pub find_status : (Letter → Bool) → List Letter → Option Bytes
find_status p [] = none
find_status p (m ∷ ms) = let rest = find_status p ms in if p m then some m.status else rest

abbrev pub delivered : Letter → Letter
delivered m = record m { status = status_delivered }

unfoldable pub mark_delivered_from_receipt : Receipt → List Letter → Bool × List Letter
unfolding find_status update_where
mark_delivered_from_receipt r ms = elim (find_status (receipt_matches r) ms) [
  | none ↦ (false, ms)
  | some status ↦ (
    true,
    if not (same status status_delivered)
        then update_where (receipt_matches r) delivered ms
        else ms,
  )
]
