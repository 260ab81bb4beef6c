-- ===== src/Outgoing.antt =====
-- Sending through the relays: internal/network/opaque_mailbox.go and internal/network/failover.go. What a
-- relay answers to one envelope is the environment's: `accepts daddy envelope` says whether
-- `SendHoldMessage` returned no error.
pub mod Synced
use inkmail.Base.{
  ℕ, ◌+◌, Bool, true, false, not, ◌||◌, ◌&&◌, List, [], ◌∷◌, Option, none, some, ◌==◌,
  if◌then◌else◌, Bytes, same, trim_space, Result, ok, err, is_ok, map_err, ◌>>=◌, ◌>>◌,
}
use inkmail.Store.Schema.{Store, OutboxMessage}
use inkmail.Store.Outbox.{OutboxError, queue, list_outbox, remove}
use inkmail.Mailbox
use inkmail.Mailbox.{MailboxEnvelope, MailboxError}

abbrev pub is_blank : Bytes → Bool
is_blank daddy = same (trim_space daddy) []

-- An entry of the outbox that is an envelope.
abbrev pub well_formed : Option MailboxEnvelope → Option MailboxEnvelope
well_formed none = none
well_formed (some e) = if is_ok (Mailbox.validate e) then some e else none

pub data QueueError : Type 0 where
  invalid_envelope : MailboxError → QueueError
  not_queued : OutboxError → QueueError

module _ (accepts : Bytes → MailboxEnvelope → Bool) where
  -- `holdViaRelays`: the relays are tried until one accepts.
  unfoldable pub hold_via_relays : List Bytes → MailboxEnvelope → Bool
  hold_via_relays [] e = false
  hold_via_relays (d ∷ ds) e =
      let rest = hold_via_relays ds e in
      if is_blank d then rest else if accepts d e then true else rest

  -- The inner loop: every relay is sent the envelope.
  unfoldable pub all_accept : List Bytes → MailboxEnvelope → Bool
  all_accept [] e = true
  all_accept (d ∷ ds) e = (is_blank d || accepts d e) && all_accept ds e

  module _ (parse : Bytes → Option MailboxEnvelope) (daddies : List Bytes) where
    -- The ID under which an entry is removed: that of its envelope, if every relay accepts it.
    unfoldable pub accepted_id : OutboxMessage → Option Bytes
    unfolding all_accept
    accepted_id m = elim (well_formed (parse m.payload)) [
      | none ↦ none
      | some e ↦ if all_accept daddies e then some e.id else none
    ]

    abbrev pub removed : Option Bytes → Store → Store
    removed none s = s
    removed (some id) s = remove id s

    -- The outer loop, with whether an error is to be returned.
    unfoldable pub sync_all : List OutboxMessage → Bool → Store → Bool × Store
    unfolding accepted_id
    sync_all [] failed s = (failed, s)
    sync_all (m ∷ ms) failed s =
        sync_all ms (elim (accepted_id m) [ none ↦ true | some id ↦ failed ])
          (removed (accepted_id m) s)

    unfoldable pub sync_outbox : Store → Bool × Store
    unfolding sync_all
    sync_outbox s = sync_all (list_outbox 200 s) false s

    -- `queueAndSendOpaqueEnvelope`: once it is queued, what the relays say does not matter.
    unfoldable pub queue_and_send :
        (MailboxEnvelope → Bytes) → MailboxEnvelope → ℕ → Store → Result QueueError Store
    unfolding sync_outbox
    queue_and_send print e now s = do
      map_err (λ x. invalid_envelope x) (Mailbox.validate e)
      queued ← map_err (λ x. not_queued x) (queue e.id e.mailbox_id (print e) now s)
      ok ((sync_outbox queued).1)

-- `fetchViaRelays`. A fetch changes a state and gives the number of messages stored, or nothing if it fails.
module _ {S : Type 0} (fetch : Bytes → S → Option ℕ × S) where
  unfoldable pub fetch_loop : List Bytes → ℕ → Bool → S → ℕ × Bool × S
  fetch_loop [] total failed s = (total, failed, s)
  fetch_loop (d ∷ ds) total failed s =
      let skipped = fetch_loop ds total failed s in
      if is_blank d
      then skipped
      else let (r, s') = fetch d s in
        elim r [ none ↦ fetch_loop ds total true s' | some n ↦ fetch_loop ds (total + n) failed s' ]

  abbrev pub fetch_result : ℕ × Bool × S → Option ℕ × S
  fetch_result (total, failed, s) = (if total == 0 && failed then none else some total, s)

  unfoldable pub fetch_via_relays : List Bytes → S → Option ℕ × S
  unfolding fetch_loop
  fetch_via_relays daddies s = fetch_result (fetch_loop daddies 0 false s)
