-- ===== src/Letters/Once.antt =====
-- What `StoreMessage` of internal/database/database.go leaves: a message is stored once, however often it
-- is delivered.
use inkmail.Base.{
  ℕ, ◌≤◌, ◌≡◌, refl, sym, not, List, [], ◌∷◌, Option, none, some, Bytes, IsBytes, same, same_iff,
  same_refl, length, keep, arith, Bool-cases, Option-cases, inl, inr, ◌⊎◌, ◌≢◌, codes, ap, ◌∙◌, ok,
  map_err-ok, bind-ok,
}
use inkmail.Hex.{encode_hex, decode_hex}
use inkmail.Hex.Laws.{decode_hex-encode_hex}
use inkmail.Messages.{Message, MessageError, decoded, sender_key, recipient_key}
use inkmail.Messages.Signing.{decoded-encode_hex}
use inkmail.Letters.{Letter, has_id, direction_queued, status_delivered}
use inkmail.Letters.Storing.{
  bad_sender_key, bad_recipient_key, letter_row, merged, upsert_letter, signature_bytes,
  store_message, scan_message, find_letter, get_message,
}

abbrev pub count_id : Bytes → List Letter → ℕ
count_id id ls = length (keep (has_id id) ls)

-- The row for the message: new, or merged with the one that was there.
abbrev pub expected : Letter → Option Letter → Letter
expected row none = row
expected row (some l) = merged row.direction row.status l

upsert_letter-count :
    (row : Letter) (ls : List Letter)
    → count_id row.id ls ≤ 1
    → count_id row.id (upsert_letter row ls) ≡ 1
unfolding upsert_letter
upsert_letter-count row [] h = rw (same_refl row.id) refl
upsert_letter-count row (l ∷ ls) h = elim (Bool-cases (has_id row.id l)) [
  | inl e ↦ rw (e, upsert_letter) (ground arith)
  | inr e ↦ rw (e, upsert_letter) (ground (arith, upsert_letter-count row ls))
]

upsert_letter-others :
    (row : Letter) (ls : List Letter)
    → keep (λ l. not (has_id row.id l)) (upsert_letter row ls)
      ≡ keep (λ l. not (has_id row.id l)) ls
unfolding upsert_letter
upsert_letter-others row [] = rw (same_refl row.id) refl
upsert_letter-others row (l ∷ ls) = elim (Bool-cases (has_id row.id l)) [
  | inl e ↦ rw (e, upsert_letter) (ground arith)
  | inr e ↦ rw (e, upsert_letter) (ground (arith, upsert_letter-others row ls))
]

upsert_letter-find :
    (row : Letter) (ls : List Letter)
    → find_letter row.id (upsert_letter row ls) ≡ some (expected row (find_letter row.id ls))
unfolding upsert_letter find_letter
upsert_letter-find row [] = rw (same_refl row.id) refl
upsert_letter-find row (l ∷ ls) = elim (Bool-cases (has_id row.id l)) [
  | inl e ↦ rw (e, upsert_letter, find_letter) (ground arith)
  | inr e ↦ rw (e, upsert_letter, find_letter) (ground (arith, upsert_letter-find row ls))
]

merged_twice :
    (direction status : Bytes) (l : Letter)
    → merged direction status (merged direction status l) ≡ merged direction status l
merged_twice direction status l =
    ground (arith, same_iff direction direction_queued, same_iff status status_delivered)

merged_self : (row : Letter) → merged row.direction row.status row ≡ row
merged_self row = ground arith

-- The second row may carry another time.
upsert_letter-twice :
    (row later : Letter) (ls : List Letter)
    → later.id ≡ row.id
    → later.direction ≡ row.direction
    → later.status ≡ row.status
    → upsert_letter later (upsert_letter row ls) ≡ upsert_letter row ls
unfolding upsert_letter
upsert_letter-twice row later [] i d s =
    rw (i, d, s, same_refl row.id) (ap (λ (l : Letter). l ∷ []) (merged_self row))
upsert_letter-twice row later (l ∷ ls) i d s = elim (Bool-cases (has_id row.id l)) [
  | inl e ↦
      rw (e, upsert_letter, i, e)
        (rw (d, s) (ap (λ (k : Letter). k ∷ ls) (merged_twice row.direction row.status l)))
  | inr e ↦
      rw (e, upsert_letter, i, e)
        (ap (λ (ks : List Letter). l ∷ ks) (upsert_letter-twice row later ls i d s))
]

-- The row that a message gives.
pub record Row (m : Message) (direction status : Bytes) (now : ℕ) (ls qs : List Letter)
    : Type 0 where
  pub sender : Bytes
  pub sender_read : sender_key m ≡ ok sender
  pub recipient : Bytes
  pub recipient_read : recipient_key m ≡ ok recipient
  pub signature : Bytes
  pub signature_read : signature_bytes m.signature ≡ ok signature
  pub result : qs ≡ upsert_letter (letter_row m sender recipient signature direction status now) ls

module _ (m : Message) (direction status : Bytes) (now : ℕ) (ls qs : List Letter) where
  pub store_message-Row :
      store_message m direction status now ls ≡ ok qs → Row m direction status now ls qs
  unfolding store_message
  store_message-Row e =
      let (sender, s, e1) = map_err-ok (λ x. bad_sender_key) (sender_key m) _ qs e in
      let (recipient, r, e2) = map_err-ok (λ x. bad_recipient_key) (recipient_key m) _ qs e1 in
      let (signature, g, e3) = bind-ok (signature_bytes m.signature) _ qs e2 in
      record {
        sender = sender;
        sender_read = s;
        recipient = recipient;
        recipient_read = r;
        signature = signature;
        signature_read = g;
        result = ground arith;
      }

  -- The row that was there, after the message is stored: only a queued message changes its direction, a
  -- delivered one stays delivered, and all other columns stay.
  pub record Updated (old l : Letter) : Type 0 where
    pub elsewhere :
        record l { direction = []; status = [] } ≡ record old { direction = []; status = [] }
    pub directed :
        ((old.direction ≡ codes "queued") × (l.direction ≡ direction))
        ⊎ ((old.direction ≢ codes "queued") × (l.direction ≡ old.direction))
    pub settled :
        ((old.status ≡ codes "delivered") × (l.status ≡ codes "delivered"))
        ⊎ ((old.status ≢ codes "delivered") × (l.status ≡ status))

  -- What a stored message leaves in the table.
  pub record StoredOnce : Type 0 where
    pub sender : Bytes
    pub sender_read : sender_key m ≡ ok sender
    pub recipient : Bytes
    pub recipient_read : recipient_key m ≡ ok recipient
    pub signature : Bytes
    pub signature_read : signature_bytes m.signature ≡ ok signature
    pub once : count_id m.id qs ≡ 1
    pub others : keep (λ l. not (has_id m.id l)) qs ≡ keep (λ l. not (has_id m.id l)) ls
    pub row : Letter
    pub found : find_letter m.id qs ≡ some row
    pub origin :
        ((find_letter m.id ls ≡ none)
          × (row ≡ record {
            id = m.id;
            sender_namespace = m.sender_namespace;
            sender_public_key = sender;
            recipient_namespace = m.recipient_namespace;
            recipient_public_key = recipient;
            subject = m.subject;
            body = m.body;
            created_at = m.created_at;
            signature = signature;
            direction = direction;
            status = status;
            folder = codes "inbox";
            folder_updated_at = now;
            stored_at = now;
          }))
        ⊎ ((old : Letter) × (find_letter m.id ls ≡ some old) × Updated old row)

  merged-Updated : (old : Letter) → Updated old (merged direction status old)
  merged-Updated old = record {
    elsewhere = refl;
    directed = elim (Bool-cases (same old.direction direction_queued)) [
      | inl e ↦ inl ((same_iff old.direction direction_queued).0 e, rw e refl)
      | inr e ↦ inr (λ q. ground (arith, same_iff old.direction direction_queued), rw e refl)
    ];
    settled = elim (Bool-cases (same old.status status_delivered)) [
      | inl e ↦ let d = (same_iff old.status status_delivered).0 e in inl (d, rw e d)
      | inr e ↦ inr (λ q. ground (arith, same_iff old.status status_delivered), rw e refl)
    ];
  }

  -- In a table that has the ID of a message at most once: after the message is stored the table has it
  -- exactly once, as a new row in the inbox or as the old row, whose direction changes only if it was
  -- queued, whose status changes only if it was not delivered, and whose other columns stay; every other
  -- row is as it was.
  pub store_message-StoredOnce :
      count_id m.id ls ≤ 1 → store_message m direction status now ls ≡ ok qs → StoredOnce
  store_message-StoredOnce one e =
      let r = store_message-Row e in
      let row = letter_row m r.sender r.recipient r.signature direction status now in
      record {
        sender = r.sender;
        sender_read = r.sender_read;
        recipient = r.recipient;
        recipient_read = r.recipient_read;
        signature = r.signature;
        signature_read = r.signature_read;
        once = rw (r.result) (upsert_letter-count row ls one);
        others = rw (r.result) (upsert_letter-others row ls);
        row = expected row (find_letter m.id ls);
        found = ap (find_letter m.id) r.result ∙ upsert_letter-find row ls;
        origin = elim (Option-cases (find_letter m.id ls)) [
          | inl new ↦ inl (new, rw new refl)
          | inr (old, there) ↦ inr (old, there, rw there (merged-Updated old))
        ];
      }

  -- Storing a message again with the same direction and status, at any time, changes nothing.
  pub store_message-twice :
      (later : ℕ)
      → store_message m direction status now ls ≡ ok qs
      → store_message m direction status later qs ≡ ok qs
  unfolding store_message
  store_message-twice later e =
      let r = store_message-Row e in
      let first = letter_row m r.sender r.recipient r.signature direction status now in
      let second = letter_row m r.sender r.recipient r.signature direction status later in
      rw (r.sender_read, r.recipient_read, r.signature_read)
        (ap (λ (x : List Letter). ok (upsert_letter second x)) r.result
          ∙ ap (λ (x : List Letter). ok x) (upsert_letter-twice first second ls refl refl refl)
          ∙ ap (λ (x : List Letter). ok x) (sym r.result))

-- A message whose keys and signature are printed from bytes, as `New` prints them.
pub record Printed (m : Message) : Type 0 where
  pub sender : Bytes
  pub sender_bytes : IsBytes sender
  pub sender_size : length sender ≡ 32
  pub sender_printed : m.sender_public_key ≡ encode_hex sender
  pub recipient : Bytes
  pub recipient_bytes : IsBytes recipient
  pub recipient_size : length recipient ≡ 32
  pub recipient_printed : m.recipient_public_key ≡ encode_hex recipient
  pub signature : Bytes
  pub signature_IsBytes : IsBytes signature
  pub signature_printed : m.signature ≡ encode_hex signature

decode_hex-nothing : (t : Bytes) → some t ≡ decode_hex [] → t ≡ []
unfolding decode_hex
decode_hex-nothing t h = ground arith

signature_bytes-encode_hex : (s : Bytes) → IsBytes s → signature_bytes (encode_hex s) ≡ ok s
signature_bytes-encode_hex s b = elim (Bool-cases (same (encode_hex s) [])) [
  | inl e ↦
      let empty = (same_iff (encode_hex s) []).0 e in
      let back = sym (decode_hex-encode_hex s b) ∙ ap decode_hex empty in
      rw e (ap (λ (t : Bytes). ok t) (sym (decode_hex-nothing s back)))
  | inr e ↦ rw (e, decode_hex-encode_hex s b) refl
]

-- A message whose keys and signature are well printed, and whose ID is not in the table, is stored, and
-- it is read back as it was, with its direction, status and time.
pub get_message-store_message :
    (m : Message) (direction status : Bytes) (now : ℕ) (ls : List Letter)
    → Printed m
    → find_letter m.id ls ≡ none
    → (qs : List Letter) × (store_message m direction status now ls ≡ ok qs)
      × (get_message m.id qs
          ≡ ok (record { message = m; direction = direction; status = status; stored_at = now }))
unfolding store_message get_message scan_message sender_key recipient_key
get_message-store_message m direction status now ls p fresh =
    let row = letter_row m p.sender p.recipient p.signature direction status now in
    let sender =
      ap (λ t. decoded 32 t MessageError.invalid_sender_key) p.sender_printed
      ∙ decoded-encode_hex 32 p.sender MessageError.invalid_sender_key p.sender_bytes
          p.sender_size in
    let recipient =
      ap (λ t. decoded 32 t MessageError.invalid_recipient_key) p.recipient_printed
      ∙ decoded-encode_hex 32 p.recipient MessageError.invalid_recipient_key p.recipient_bytes
          p.recipient_size in
    let signature =
      ap signature_bytes p.signature_printed
      ∙ signature_bytes-encode_hex p.signature p.signature_IsBytes in
    let found = upsert_letter-find row ls ∙ ap (λ o. some (expected row o)) fresh in
    (
      upsert_letter row ls,
      simp (sender, recipient, signature),
      rw (get_message, found)
          (λ i. ok (record {
            message = record m {
              sender_public_key = sym p.sender_printed i;
              recipient_public_key = sym p.recipient_printed i;
              signature = sym p.signature_printed i;
            };
            direction = direction;
            status = status;
            stored_at = now;
          })),
    )
