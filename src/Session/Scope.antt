-- ===== src/Session/Scope.antt =====
-- What a session is bound to, and the envelopes that it offered.
use inkmail.Base.{
  ◌≡◌, ◌≢◌, ◌↔◌, refl, true, false, [], ◌∷◌, Bytes, same_iff, trim_space, equal_fold, length, ok,
  arith,
}
use inkmail.Base.Map
use inkmail.Session.{
  Session, validate_mailbox_id, authorize_mailbox_id, record_fetched_message,
  consume_fetched_message, every_place, same_bytes,
}

every_place-eq : (a b : Bytes) → length a ≡ length b → every_place a b ≡ true → a ≡ b
unfolding every_place
every_place-eq [] [] e h = refl
every_place-eq [] (y ∷ ys) e h = absurd (omega arith)
every_place-eq (x ∷ xs) [] e h = absurd (omega arith)
every_place-eq (x ∷ xs) (y ∷ ys) e h = ground (arith, every_place-eq xs ys)

every_place_refl : (a : Bytes) → every_place a a ≡ true
unfolding every_place
every_place_refl [] = refl
every_place_refl (x ∷ xs) = ground (arith, every_place_refl xs)

-- Two byte slices are reported the same exactly when they are equal.
pub same_bytes_iff : (a b : Bytes) → (same_bytes a b ≡ true) ↔ (a ≡ b)
unfolding same_bytes
same_bytes_iff a b =
    (λ h. ground (arith, every_place-eq a b), λ e. rw e (ground (arith, every_place_refl b)))

-- A request that is authorised names a valid mailbox; a session that was bound stays as it was, and
-- the mailbox is its own up to the case of the digits; one that was not bound is bound to the
-- mailbox.
pub authorize_mailbox_id_bound :
    (mailbox_id : Bytes) (s t : Session)
    → authorize_mailbox_id mailbox_id s ≡ ok t
    → (validate_mailbox_id mailbox_id ≡ true)
      × (s.mailbox_id ≢ [] → (t ≡ s) × (equal_fold s.mailbox_id (trim_space mailbox_id) ≡ true))
      × (s.mailbox_id ≡ [] → t.mailbox_id ≡ trim_space mailbox_id)
unfolding authorize_mailbox_id
authorize_mailbox_id_bound mailbox_id s t h = ground (arith, same_iff s.mailbox_id [])

-- An envelope that was offered in the session to a mailbox, whose name is not empty, can be
-- consumed once, and then not again.
pub consume_once :
    (message_id mailbox_id : Bytes) (s : Session)
    → mailbox_id ≢ []
    → let offered = record_fetched_message message_id mailbox_id s in
      let (after, first) = consume_fetched_message message_id mailbox_id offered in
      (first ≡ true) × ((consume_fetched_message message_id mailbox_id after).1 ≡ false)
unfolding record_fetched_message consume_fetched_message
consume_once message_id mailbox_id s proper =
    let put = Map.put message_id mailbox_id s.fetched_messages in
    ground (
      arith,
      Map.get-put message_id message_id mailbox_id s.fetched_messages,
      Map.get-del message_id message_id put,
      same_iff message_id message_id,
      same_iff mailbox_id mailbox_id,
      same_iff [] mailbox_id,
    )
