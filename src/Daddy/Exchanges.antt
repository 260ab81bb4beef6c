-- ===== src/Daddy/Exchanges.antt =====
-- What FETCH_MESSAGES gives away.
use inkmail.Base.{
  ℕ, zero, suc, ◌≤◌, ◌≡◌, refl, true, List, [], ◌∷◌, some, Bytes, same_iff, equal_fold, length, All,
  ok, is_ok, arith, Option-cases, Result-cases, Bool-cases, inl, inr, ◌⊎◌, ◌∙◌, subst,
}
use inkmail.Base.Map
use inkmail.Session.{Session, validate_mailbox_id, record_fetched_message}
use inkmail.Store.Schema.{Held}
use inkmail.Store.Held.{list_held}
use inkmail.Mailbox
use inkmail.Mailbox.{MailboxEnvelope}
use inkmail.Daddy.{Libraries, Node, max_held_message_batch, authorize_mailbox_owner, delivery}
use inkmail.Daddy.Handlers.{offered, offer_all, fetch_authorized, handle_fetch_messages}
use inkmail.Daddy.Guards.{
  Authorized, authorize_mailbox_owner-store, authorize_mailbox_owner-Authorized,
}

module _ (lib : Libraries) where
  -- The envelope is well formed and addressed to the mailbox.
  abbrev pub Addressed : Bytes → MailboxEnvelope → Type 0
  Addressed mailbox e =
      (is_ok (Mailbox.validate e) ≡ true) × (equal_fold e.mailbox_id mailbox ≡ true)

  -- The session remembers that it offered the envelope to the mailbox.
  abbrev pub Recorded : Bytes → Session → MailboxEnvelope → Type 0
  Recorded mailbox s e = Map.get_or [] e.id s.fetched_messages ≡ mailbox

  offered-Addressed :
      (mailbox : Bytes) (h : Held) (e : MailboxEnvelope)
      → offered lib mailbox h ≡ some e
      → Addressed mailbox e
  unfolding offered
  offered-Addressed mailbox h e g = ground arith

  record-Recorded :
      (mailbox id : Bytes) (s : Session) (e : MailboxEnvelope)
      → Recorded mailbox s e
      → Recorded mailbox (record_fetched_message id mailbox s) e
  unfolding record_fetched_message
  record-Recorded mailbox id s e r = ground (arith, Map.get-put e.id id mailbox s.fetched_messages)

  record_now-Recorded :
      (mailbox : Bytes) (s : Session) (e : MailboxEnvelope)
      → Recorded mailbox (record_fetched_message e.id mailbox s) e
  unfolding record_fetched_message
  record_now-Recorded mailbox s e =
      ground (arith, Map.get-put e.id e.id mailbox s.fetched_messages, same_iff e.id e.id)

  offer_all-Recorded :
      (room : ℕ) (mailbox : Bytes) (hs : List Held) (s : Session) (e : MailboxEnvelope)
      → Recorded mailbox s e
      → Recorded mailbox (offer_all lib room mailbox hs s).1 e
  unfolding offer_all
  offer_all-Recorded room mailbox [] s e r = r
  offer_all-Recorded zero mailbox (h ∷ hs) s e r = r
  offer_all-Recorded (suc room) mailbox (h ∷ hs) s e r =
      elim (Option-cases (offered lib mailbox h)) [
        | inl o ↦ rw (o, offer_all) (offer_all-Recorded (suc room) mailbox hs s e r)
        | inr (f, o) ↦
            rw (o, offer_all)
              (offer_all-Recorded room mailbox hs (record_fetched_message f.id mailbox s) e
                (record-Recorded mailbox f.id s e r))
      ]

  -- What the loop over the stored envelopes collects.
  pub record Offers (room : ℕ) (mailbox : Bytes) (es : List MailboxEnvelope) (s : Session)
      : Type 0 where
    pub few : length es ≤ room
    pub addressed : All (Addressed mailbox) es
    pub recorded : All (Recorded mailbox s) es

  offer_all-Offers :
      (room : ℕ) (mailbox : Bytes) (hs : List Held) (s : Session)
      → let (es, t) = offer_all lib room mailbox hs s in Offers room mailbox es t
  unfolding offer_all
  offer_all-Offers room mailbox [] s = record { few = omega arith; addressed = tt; recorded = tt }
  offer_all-Offers zero mailbox (h ∷ hs) s = record {
    few = omega arith;
    addressed = tt;
    recorded = tt;
  }
  offer_all-Offers (suc room) mailbox (h ∷ hs) s = elim (Option-cases (offered lib mailbox h)) [
    | inl o ↦ rw (o, offer_all) (offer_all-Offers (suc room) mailbox hs s)
    | inr (e, o) ↦
        let s' = record_fetched_message e.id mailbox s in
        let rest = offer_all-Offers room mailbox hs s' in
        rw (o, offer_all)
          (record {
            few = omega (arith, rest.few);
            addressed = (offered-Addressed mailbox h e o, rest.addressed);
            recorded = (
              offer_all-Recorded room mailbox hs s' e (record_now-Recorded mailbox s e),
              rest.recorded,
            );
          })
  ]

  -- What FETCH_MESSAGES gives away.
  pub record Gives (mailbox : Bytes) (n t : Node) (es : List MailboxEnvelope) : Type 0 where
    pub owner : Authorized lib mailbox n
    pub offers : Offers max_held_message_batch mailbox es t.session

  fetch_authorized_effect :
      (mailbox : Bytes) (now : ℕ) (n : Node)
      → let h = fetch_authorized lib mailbox now n in
        (h.1.store ≡ n.store)
        × ((es : List MailboxEnvelope)
            → h.0 ≡ ok (delivery es)
            → Offers max_held_message_batch mailbox es h.1.session)
  unfolding fetch_authorized
  fetch_authorized_effect mailbox now n =
      elim (Result-cases (list_held mailbox max_held_message_batch now n.store)) [
        | inr (x, e) ↦ rw (e, fetch_authorized) (refl, λ es q. absurd (ground arith))
        | inl (hs, e) ↦
            let offers = offer_all-Offers max_held_message_batch mailbox hs n.session in
            let t = (offer_all lib max_held_message_batch mailbox hs n.session).1 in
            rw (e, fetch_authorized)
              (
                refl,
                λ es q.
                    let equal : (offer_all lib max_held_message_batch mailbox hs n.session).0 ≡ es =
                      ground arith in
                    subst (λ es. Offers max_held_message_batch mailbox es t) equal offers,
              )
      ]

  handle_fetch_messages_effect :
      (body : Bytes) (now : ℕ) (n : Node) (es : List MailboxEnvelope)
      → let h = handle_fetch_messages lib body now n in
        (h.1.store ≡ n.store)
        × (h.0 ≡ ok (delivery es)
            → (es ≡ [])
              ⊎ ((mailbox : Bytes) × (lib.parse_mailbox body ≡ some mailbox)
                  × Gives mailbox n h.1 es))
  unfolding handle_fetch_messages
  handle_fetch_messages_effect body now n es = elim (Option-cases (lib.parse_mailbox body)) [
    | inl e ↦ rw (e, handle_fetch_messages) (refl, λ q. absurd (ground arith))
    | inr (mailbox, e) ↦ elim (Bool-cases (validate_mailbox_id mailbox)) [
      | inr bad ↦ rw (e, bad, handle_fetch_messages) (refl, λ q. inl (ground arith))
      | inl good ↦ elim (Result-cases (authorize_mailbox_owner lib mailbox n).0) [
        | inr (x, denied) ↦
            rw (e, good, denied, handle_fetch_messages)
              (authorize_mailbox_owner-store lib mailbox n, λ q. inl (ground arith))
        | inl (u, granted) ↦
            let (kept, gives) =
              fetch_authorized_effect mailbox now (authorize_mailbox_owner lib mailbox n).1 in
            rw (e, good, granted, handle_fetch_messages)
              (
                kept ∙ authorize_mailbox_owner-store lib mailbox n,
                λ q. inr (
                  mailbox,
                  refl,
                  record {
                    owner = (authorize_mailbox_owner-Authorized lib mailbox n granted).0;
                    offers = gives es q;
                  },
                ),
              )
      ]
    ]
  ]

  -- A fetch that delivers envelopes leaves the store as it was, and delivers them only to the named owner of
  -- the mailbox, at most 256, all of them well formed and addressed to that mailbox; the session remembers
  -- each of them as offered to it. Otherwise what is delivered is empty.
  pub handle_fetch_messages-Gives :
      (body : Bytes) (now : ℕ) (n : Node) (es : List MailboxEnvelope)
      → (handle_fetch_messages lib body now n).0 ≡ ok (delivery es)
      → let t = (handle_fetch_messages lib body now n).1 in
        (t.store ≡ n.store)
        × ((es ≡ [])
            ⊎ ((mailbox : Bytes) × (lib.parse_mailbox body ≡ some mailbox) × Gives mailbox n t es))
  handle_fetch_messages-Gives body now n es q =
      let (kept, gives) = handle_fetch_messages_effect body now n es in (kept, gives q)
