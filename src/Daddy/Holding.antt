-- ===== src/Daddy/Holding.antt =====
-- What HOLD_MESSAGE accepts.
use inkmail.Base.{
  ℕ, ◌+◌, ◌≡◌, ◌≢◌, refl, true, false, not, ◌||◌, some, ltb, ◌==◌, Bytes, length, ok, arith,
  Option-cases, Result-cases, Bool-cases, inl, inr, ◌⊎◌,
}
use inkmail.Store.Held.{max_opaque_envelope_size, store_held}
use inkmail.Store.Held.Admission.{store_held_again}
use inkmail.Mailbox
use inkmail.Mailbox.{MailboxEnvelope}
use inkmail.Daddy.{Libraries, Node, held_message_ttl, held}
use inkmail.Daddy.Handlers.{hold_answer, handle_hold_message}

module _ (lib : Libraries) where
  -- An envelope was accepted: it is well formed, its sender is named, and the store admitted it for 30 days.
  pub record Holds (e : MailboxEnvelope) (now : ℕ) (n t : Node) : Type 0 where
    pub named : n.session.peer_anonymous ≡ false
    pub valid : Mailbox.validate e ≡ ok tt
    pub stored :
        store_held lib.sha256 e.id e.mailbox_id
          (lib.print_envelope e)
          (now + held_message_ttl)
          n.session.peer
          now
          n.store
        ≡ ok (true, t.store)

  hold_answer_effect :
      (e : MailboxEnvelope) (now : ℕ) (n : Node)
      → n.session.peer_anonymous ≡ false
      → Mailbox.validate e ≡ ok tt
      → let h = hold_answer lib e.id n (
          store_held lib.sha256 e.id e.mailbox_id
            (lib.print_envelope e)
            (now + held_message_ttl)
            n.session.peer
            now
            n.store) in
        (((id : Bytes) → h.0 ≢ ok (held id)) × (h.1.store ≡ n.store))
        ⊎ ((h.0 ≡ ok (held e.id)) × Holds e now n h.1)
  unfolding hold_answer
  hold_answer_effect e now n a v =
      let sent =
        store_held lib.sha256 e.id e.mailbox_id (lib.print_envelope e) (now + held_message_ttl)
          n.session.peer now n.store in
      elim (Result-cases sent) [
        | inr (x, h) ↦ rw (h, hold_answer) (inl (λ id q. ground arith, refl))
        | inl ((false, s), h) ↦
            rw (h, hold_answer)
              (inl (
                λ id q. ground arith,
                store_held_again lib.sha256 e.id e.mailbox_id (lib.print_envelope e)
                    (now + held_message_ttl) n.session.peer now n.store s h,
              ))
        | inl ((true, s), h) ↦
            rw (h, hold_answer) (inr (refl, record { named = a; valid = v; stored = h }))
      ]

  -- An envelope is answered as held only if it is well formed, its sender is named and the store admitted it
  -- under its ID for 30 days; every other answer leaves the store as it was.
  pub handle_hold_message-Holds :
      (body : Bytes) (now : ℕ) (n : Node)
      → let h = handle_hold_message lib body now n in
        (((id : Bytes) → h.0 ≢ ok (held id)) × (h.1.store ≡ n.store))
        ⊎ ((e : MailboxEnvelope) × (lib.parse_envelope body ≡ some e)
            × (h.0 ≡ ok (held e.id))
            × Holds e now n h.1)
  unfolding handle_hold_message
  handle_hold_message-Holds body now n =
      elim (Bool-cases (ltb max_opaque_envelope_size (length body))) [
        | inl large ↦ rw (large, handle_hold_message) (inl (λ id q. ground arith, refl))
        | inr small ↦
            elim (Bool-cases (not (length n.session.peer == 32) || n.session.peer_anonymous)) [
              | inl unnamed ↦
                  rw (small, unnamed, handle_hold_message) (inl (λ id q. ground arith, refl))
              | inr named ↦ elim (Option-cases (lib.parse_envelope body)) [
                | inl unparsed ↦
                    rw (small, named, unparsed, handle_hold_message)
                      (inl (λ id q. ground arith, refl))
                | inr (e, parsed) ↦ elim (Result-cases (Mailbox.validate e)) [
                  | inr (x, bad) ↦
                      rw (small, named, parsed, bad, handle_hold_message)
                        (inl (λ id q. ground arith, refl))
                  | inl (u, good) ↦
                      rw (small, named, parsed, good, handle_hold_message)
                        (elim (hold_answer_effect e now n (ground arith) good) [
                          | inl k ↦ inl k
                          | inr (r, k) ↦ inr (e, refl, r, k)
                        ])
                ]
              ]
            ]
      ]
