-- ===== src/Outgoing/Synced.antt =====
-- What a round through the relays leaves in the outbox, `SyncOpaqueMailboxOutbox` of
-- internal/network/opaque_mailbox.go.
use inkmail.Base.{
  ◌≡◌, refl, sym, Bool, true, false, not, ◌||◌, List, [], ◌∷◌, Option, none, some, Bytes, same,
  keep, arith, Option-cases, Result-cases, Bool-cases, All, Some, same_iff, trim_space, ok, ◌⊎◌,
  ◌↔◌, inl, inr, ap, ◌∙◌, keep_all,
}
use inkmail.Store.Schema.{Store, OutboxMessage}
use inkmail.Store.Outbox.{list_outbox, remove}
use inkmail.Mailbox
use inkmail.Mailbox.{MailboxEnvelope}
use inkmail.Outgoing.{is_blank, all_accept, accepted_id, sync_all, sync_outbox}

abbrev removed_or : Option Bytes → Bool → OutboxMessage → Bool
removed_or none rest x = rest
removed_or (some id) rest x = same x.id id || rest

abbrev refused_or : Option Bytes → Bool → Bool
refused_or none rest = true
refused_or (some id) rest = rest

or_true : (b : Bool) → true ≡ (b || true)
or_true true = refl
or_true false = refl

module _ (accepts : Bytes → MailboxEnvelope → Bool) (parse : Bytes → Option MailboxEnvelope)
    (daddies : List Bytes) where
  abbrev accepted : OutboxMessage → Option Bytes
  accepted m = accepted_id accepts parse daddies m

  -- Whether an entry of the outbox is removed for one of these: its ID is that of an envelope that every
  -- relay accepted.
  abbrev removes : List OutboxMessage → OutboxMessage → Bool
  removes [] x = false
  removes (m ∷ ms) x = removed_or (accepted m) (removes ms x) x

  -- Whether one of these is not accepted by every relay, or is no envelope.
  abbrev any_refused : List OutboxMessage → Bool
  any_refused [] = false
  any_refused (m ∷ ms) = refused_or (accepted m) (any_refused ms)

  keep-keep :
      (p q : OutboxMessage → Bool) (ms : List OutboxMessage)
      → keep (λ m. not (p m)) (keep (λ m. not (q m)) ms) ≡ keep (λ m. not (q m || p m)) ms
  keep-keep p q [] = refl
  keep-keep p q (m ∷ ms) = ground (arith, keep-keep p q ms)

  sync_all-outbox :
      (ms : List OutboxMessage) (failed : Bool) (s : Store)
      → sync_all accepts parse daddies ms failed s ≡ (
        (failed || any_refused ms),
        record s { outbox = keep (λ x. not (removes ms x)) s.outbox },
      )
  unfolding sync_all remove
  sync_all-outbox [] failed s = ground (arith, keep_all s.outbox)
  sync_all-outbox (m ∷ ms) failed s =
      let outcome : Option Bytes → Bool × Store = λ o. (
        (failed || refused_or o (any_refused ms)),
        record s { outbox = keep (λ x. not (removed_or o (removes ms x) x)) s.outbox },
      ) in
      elim (Option-cases (accepted m)) [
        | inl e ↦
            rw (e, sync_all) (sync_all-outbox ms true s)
            ∙ ap (λ (b : Bool). (b, record s { outbox = keep (λ x. not (removes ms x)) s.outbox }))
                (or_true failed)
            ∙ ap outcome (sym e)
        | inr (id, e) ↦
            rw (e, sync_all) (sync_all-outbox ms failed (remove id s))
            ∙ ap (λ (l : List OutboxMessage). ((failed || any_refused ms), record s { outbox = l }))
                (keep-keep (removes ms) (λ x. same x.id id) s.outbox)
            ∙ ap outcome (sym e)
      ]

  -- A stored message is an envelope that every relay accepted, or had no address.
  pub record Accepted (m : OutboxMessage) (id : Bytes) : Type 0 where
    pub envelope : MailboxEnvelope
    pub parsed : parse m.payload ≡ some envelope
    pub valid : Mailbox.validate envelope ≡ ok tt
    pub named : envelope.id ≡ id
    pub everywhere : All (λ d. (trim_space d ≡ []) ⊎ (accepts d envelope ≡ true)) daddies

  all_accept_iff :
      (e : MailboxEnvelope) (ds : List Bytes)
      → (all_accept accepts ds e ≡ true) ↔ All (λ d. (trim_space d ≡ []) ⊎ (accepts d e ≡ true)) ds
  unfolding all_accept
  all_accept_iff e [] = (λ h. tt, λ h. refl)
  all_accept_iff e (d ∷ ds) =
      let rest = all_accept_iff e ds in
      (
        λ h. elim (Bool-cases (is_blank d)) [
          | inl b ↦ (inl ((same_iff (trim_space d) []).0 b), rest.0 (ground arith))
          | inr b ↦ (inr (ground arith), rest.0 (ground arith))
        ],
        λ h. elim (h.0) [
          | inl b ↦ ground (arith, (same_iff (trim_space d) []).1 b, rest.1 h.1)
          | inr b ↦ ground (arith, rest.1 h.1)
        ],
      )

  accepted-Accepted : (m : OutboxMessage) (id : Bytes) → accepted m ≡ some id → Accepted m id
  unfolding accepted_id
  accepted-Accepted m id h = elim (Option-cases (parse m.payload)) [
    | inl p ↦ absurd (ground arith)
    | inr (e, p) ↦ elim (Result-cases (Mailbox.validate e)) [
      | inr (x, v) ↦ absurd (ground arith)
      | inl (u, v) ↦ elim (Bool-cases (all_accept accepts daddies e)) [
        | inr a ↦ absurd (ground arith)
        | inl a ↦ record {
          envelope = e;
          parsed = p;
          valid = v;
          named = ground arith;
          everywhere = (all_accept_iff e daddies).0 a;
        }
      ]
    ]
  ]

  Accepted-accepted : (m : OutboxMessage) (id : Bytes) → Accepted m id → accepted m ≡ some id
  unfolding accepted_id
  Accepted-accepted m id a =
      let all = (all_accept_iff a.envelope daddies).1 a.everywhere in
      rw (accepted_id, a.parsed) (rw (a.valid) (rw all (ap some a.named)))

  removes_iff :
      (ms : List OutboxMessage) (x : OutboxMessage)
      → (removes ms x ≡ true) ↔ Some (λ m. Accepted m x.id) ms
  removes_iff [] x = (λ h. absurd (ground arith), λ h. absurd h)
  removes_iff (m ∷ ms) x =
      let rest = removes_iff ms x in
      elim (Option-cases (accepted m)) [
        | inl e ↦ (
          λ h. inr (rest.0 (ground arith)),
          λ h. elim h [
            | inl a ↦ let e' = Accepted-accepted m x.id a in absurd (ground arith)
            | inr later ↦ let r = rest.1 later in ground arith
          ],
        )
        | inr (id, e) ↦ (
          λ h. elim (Bool-cases (same x.id id)) [
            | inl s ↦ inl (accepted-Accepted m x.id (rw ((same_iff x.id id).0 s) e))
            | inr s ↦ inr (rest.0 (ground arith))
          ],
          λ h. elim h [
            | inl a ↦ let e' = Accepted-accepted m x.id a in ground (arith, same_iff x.id id)
            | inr later ↦ let r = rest.1 later in ground arith
          ],
        )
      ]

  any_refused_iff :
      (ms : List OutboxMessage)
      → (any_refused ms ≡ false) ↔ All (λ m. (id : Bytes) × Accepted m id) ms
  any_refused_iff [] = (λ h. tt, λ h. refl)
  any_refused_iff (m ∷ ms) =
      let rest = any_refused_iff ms in
      elim (Option-cases (accepted m)) [
        | inl e ↦ (
          λ h. absurd (ground arith),
          λ h. let e' = Accepted-accepted m h.0.0 h.0.1 in absurd (ground arith),
        )
        | inr (id, e) ↦ (
          λ h. ((id, accepted-Accepted m id e), rest.0 (ground arith)),
          λ h. let r = rest.1 h.1 in ground arith,
        )
      ]

  -- What a round does to the store: which entries are gone, and whether an error is reported.
  pub record Round (s : Store) : Type 0 where
    pub failed : Bool
    pub gone : OutboxMessage → Bool
    pub result :
        sync_outbox accepts parse daddies s
        ≡ (failed, record s { outbox = keep (λ x. not (gone x)) s.outbox })
    pub removed :
        (x : OutboxMessage) → (gone x ≡ true) ↔ Some (λ m. Accepted m x.id) (list_outbox 200 s)
    pub reported : (failed ≡ false) ↔ All (λ m. (id : Bytes) × Accepted m id) (list_outbox 200 s)

  -- A round over the outbox removes exactly the entries whose ID is that of an envelope, among the first
  -- 200 entries, that is well formed and that every relay with an address accepted; it reports no error
  -- exactly if each of those 200 is such an envelope; and it changes nothing else.
  pub sync_outbox-exact : (s : Store) → Round s
  unfolding sync_outbox
  sync_outbox-exact s = record {
    failed = any_refused (list_outbox 200 s);
    gone = removes (list_outbox 200 s);
    result = sync_all-outbox (list_outbox 200 s) false s;
    removed = removes_iff (list_outbox 200 s);
    reported = any_refused_iff (list_outbox 200 s);
  }
