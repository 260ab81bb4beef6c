-- ===== src/Meta/Mailbox.antt =====
-- A node keeps one mailbox ID: `GetOrCreateMailboxID` of internal/database/database.go.
use inkmail.Base.{◌≡◌, refl, some, Bytes}
use inkmail.Meta.{Metadata, get_meta, mailbox_key, checked_mailbox, get_or_create_mailbox_id}

pub get_or_create_mailbox_id-found :
    (random : Bytes) (t : Metadata) (v : Bytes)
    → get_meta mailbox_key t ≡ some v
    → get_or_create_mailbox_id random t ≡ (checked_mailbox v, t)
unfolding get_or_create_mailbox_id
get_or_create_mailbox_id-found random t v e = rw (get_or_create_mailbox_id, e) refl
