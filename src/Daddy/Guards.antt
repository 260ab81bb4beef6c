-- ===== src/Daddy/Guards.antt =====
-- What the handlers let a caller do.
use inkmail.Base.{
  ◌≡◌, refl, true, false, [], some, Bytes, codes, same, same_iff, length, ok, arith, Option-cases,
  Result-cases, Bool-cases, inl, inr, ◌⊎◌, ap, ◌∙◌, sym,
}
use inkmail.Base.Map
use inkmail.Session.{Session, authorize_mailbox_id, consume_fetched_message}
use inkmail.Store.Held.{delete_held}
use inkmail.Store.Routes.{mailbox_owned_by}
use inkmail.Daddy.{Libraries, Node, AckBody, authorize_mailbox_owner}
use inkmail.Daddy.Handlers.{settle, ack_authorized, handle_delivery_ack}

module _ (lib : Libraries) where
  -- The caller of a session is the mailbox's owner.
  pub record Authorized (mailbox : Bytes) (n : Node) : Type 0 where
    pub key_size : length n.session.peer ≡ 32
    pub named : n.session.peer_anonymous ≡ false
    pub owner : mailbox_owned_by lib.sha256 mailbox n.session.peer n.store ≡ ok true

  pub authorize_mailbox_id_keeps :
      (mailbox : Bytes) (s t : Session)
      → authorize_mailbox_id mailbox s ≡ ok t
      → (t.peer ≡ s.peer)
        × (t.peer_anonymous ≡ s.peer_anonymous)
        × (t.fetched_messages ≡ s.fetched_messages)
  unfolding authorize_mailbox_id
  authorize_mailbox_id_keeps mailbox s t h = ground arith

  pub authorize_mailbox_owner-store :
      (mailbox : Bytes) (n : Node) → (authorize_mailbox_owner lib mailbox n).1.store ≡ n.store
  unfolding authorize_mailbox_owner
  authorize_mailbox_owner-store mailbox n =
      elim (Result-cases (authorize_mailbox_id mailbox n.session)) [
        | inr (e, h) ↦ ground arith
        | inl (s, h) ↦ ground arith
      ]

  pub authorize_mailbox_owner-Authorized :
      (mailbox : Bytes) (n : Node)
      → (authorize_mailbox_owner lib mailbox n).0 ≡ ok tt
      → Authorized mailbox n
        × ((authorize_mailbox_owner lib mailbox n).1.session.fetched_messages
            ≡ n.session.fetched_messages)
  unfolding authorize_mailbox_owner
  authorize_mailbox_owner-Authorized mailbox n h =
      elim (Result-cases (authorize_mailbox_id mailbox n.session)) [
        | inr (e, g) ↦ absurd (ground arith)
        | inl (s, g) ↦
            let keeps = authorize_mailbox_id_keeps mailbox n.session s g in
            (
              record { key_size = ground arith; named = ground arith; owner = ground arith },
              ground arith,
            )
      ]

  -- The acknowledgement deletes an envelope that was offered to the mailbox's owner.
  pub record Deletes (a : AckBody) (n t : Node) : Type 0 where
    pub owner : Authorized a.mailbox_id n
    pub delivered : a.status ≡ codes "delivered"
    pub was_offered : Map.get_or [] a.message_id n.session.fetched_messages ≡ a.mailbox_id
    pub result : t.store ≡ (delete_held a.message_id a.mailbox_id n.store).1

  ack_authorized_effect :
      (a : AckBody) (n : Node)
      → let t = (ack_authorized lib a n).1 in
        (t.store ≡ n.store)
        ⊎ ((a.status ≡ codes "delivered")
            × (Map.get_or [] a.message_id n.session.fetched_messages ≡ a.mailbox_id)
            × (t.store ≡ (delete_held a.message_id a.mailbox_id n.store).1))
  unfolding ack_authorized settle consume_fetched_message
  ack_authorized_effect a n = ground (
    arith,
    same_iff a.status (codes "delivered"),
    same_iff (Map.get_or [] a.message_id n.session.fetched_messages) a.mailbox_id,
  )

  ack_after_authorization :
      (a : AckBody) (n : Node)
      → (authorize_mailbox_owner lib a.mailbox_id n).0 ≡ ok tt
      → let t = (ack_authorized lib a (authorize_mailbox_owner lib a.mailbox_id n).1).1 in
        (t.store ≡ n.store) ⊎ Deletes a n t
  ack_after_authorization a n h =
      let (authorized, fetched) = authorize_mailbox_owner-Authorized a.mailbox_id n h in
      let same_store = authorize_mailbox_owner-store a.mailbox_id n in
      elim (ack_authorized_effect a (authorize_mailbox_owner lib a.mailbox_id n).1) [
        | inl kept ↦ inl (kept ∙ same_store)
        | inr (delivered, was_offered, result) ↦ inr (record {
          owner = authorized;
          delivered = delivered;
          was_offered = sym (ap (Map.get_or [] a.message_id) fetched) ∙ was_offered;
          result = result ∙ ap (λ s. (delete_held a.message_id a.mailbox_id s).1) same_store;
        })
      ]

  -- A delivery acknowledgement leaves the store as it was, or it reports a delivery, by the named owner of
  -- the mailbox, of an envelope that this session offered to that mailbox, and it deletes that envelope.
  pub handle_delivery_ack-Deletes :
      (body : Bytes) (n : Node)
      → let t = (handle_delivery_ack lib body n).1 in
        (t.store ≡ n.store) ⊎ ((a : AckBody) × (lib.parse_ack body ≡ some a) × Deletes a n t)
  unfolding handle_delivery_ack
  handle_delivery_ack-Deletes body n = elim (Option-cases (lib.parse_ack body)) [
    | inl e ↦ rw (e, handle_delivery_ack) (inl refl)
    | inr (a, e) ↦ elim (Bool-cases (same a.message_id [])) [
      | inl empty ↦ rw (e, empty, handle_delivery_ack) (inl refl)
      | inr proper ↦ elim (Result-cases (authorize_mailbox_owner lib a.mailbox_id n).0) [
        | inr (x, denied) ↦
            rw (e, proper, denied, handle_delivery_ack)
              (inl (authorize_mailbox_owner-store a.mailbox_id n))
        | inl (u, granted) ↦
            rw (e, proper, granted, handle_delivery_ack)
              (elim (ack_after_authorization a n granted) [
                | inl kept ↦ inl kept
                | inr d ↦ inr (a, refl, d)
              ])
      ]
    ]
  ]
