-- ===== src/Tests/Holding.antt =====
-- The held envelopes at concrete inputs, with SHA-256 replaced by the identity.
use inkmail.Base.{
  ◌≤◌, ◌≡◌, refl, Bool, true, false, List, [], ◌∷◌, Bytes, codes, ok, err, arith, Result, All, same,
  if◌then◌else◌,
}
use inkmail.Hex.{hex_digit, decode_pairs, decode_hex}
use inkmail.Limits.{defaults}
use inkmail.Session.{validate_opaque_token, same_bytes}
use inkmail.Store.Schema.{Store, empty, hash_security_key}
use inkmail.Store.Held.{
  HeldError, purge, find_record, check_quotas, check_submission, insert_held, admit, store_held,
  list_held, size_of, replay_conflict, mailbox_hash, max_opaque_envelope_size, delete_held,
}
use inkmail.Store.Held.Admission.{Admitted, store_held-Admitted}
use inkmail.Store.Held.Quota.{
  Quotas, Reach, start, next, stores, deletes, Reach-Quotas, empty-Quotas,
}
use inkmail.Store.Held.Replay.{store_held_once, resubmission}
use inkmail.Store.Held.Listing.{Delivery, list_held-Delivery}

abbrev pub sha : Bytes → Bytes
sha b = b

abbrev pub token_a : Bytes
token_a = codes "0a0a0a0a0a0a0a0a0a0a0a0a0a0a0a0a0a0a0a0a0a0a0a0a0a0a0a0a0a0a0a0a"

abbrev pub token_b : Bytes
token_b = codes "BcBcBcBcBcBcBcBcBcBcBcBcBcBcBcBcBcBcBcBcBcBcBcBcBcBcBcBcBcBcBcBc"

abbrev payload : Bytes
payload = 1 ∷ 2 ∷ 3 ∷ []

abbrev user : Bytes
user = 7 ∷ []

abbrev store_of : Store → Result HeldError (Bool × Store) → Store
store_of s (ok (b, t)) = t
store_of s (err e) = s

abbrev nothing : Store
nothing = empty defaults

-- One envelope under `token_a` for `token_b`, accepted at 10 until 100.
abbrev one : Store
one = store_of nothing (store_held sha token_a token_b payload 100 user 10 nothing)

accepted : store_held sha token_a token_b payload 100 user 10 nothing ≡ ok (true, one)
unfolding store_held check_submission validate_opaque_token decode_hex decode_pairs hex_digit admit
    find_record check_quotas insert_held purge empty defaults hash_security_key same
accepted = refl

abbrev delivered : Store
delivered = (delete_held token_a token_b one).1

history : Reach sha 100 one delivered
history = next start (deletes token_a token_b)

-- Sent again at 50 for another mailbox after its delivery, the envelope is not stored.
store_held_once_example :
    ¬ (store_held sha token_a token_a payload 200 user 50 delivered ≡ ok (true, one))
store_held_once_example =
    store_held_once sha token_a token_b payload 100 user 10 nothing one delivered accepted history
      token_a payload 200 user 50 one (omega arith)

abbrev other_user : Bytes
other_user = 8 ∷ []

valid_again : check_submission token_a token_b payload 200 other_user 50 ≡ ok tt
unfolding check_submission validate_opaque_token decode_hex decode_pairs hex_digit
valid_again = refl

resubmission_example : store_held sha token_a token_b payload 200 other_user 50 delivered ≡ (
    if same_bytes (mailbox_hash sha token_b) (mailbox_hash sha token_b)
    then (if same_bytes (sha payload) (sha payload)
        then ok (false, delivered)
        else err replay_conflict)
    else err replay_conflict)
resubmission_example =
    resubmission sha token_a token_b payload 100 user 10 nothing one delivered accepted history
      token_b payload 200 other_user 50 (omega arith) valid_again

Reach-Quotas_example : Quotas delivered
Reach-Quotas_example = Reach-Quotas {sha256 = sha} {deadline = 100} (empty-Quotas defaults) (
    next
      (next start
        (stores token_a token_b payload 100 user 10 {b = true} {t = one} (omega arith) accepted))
      (deletes token_a token_b))

store_held-Admitted_example : Admitted sha token_a token_b payload 100 user 10 nothing one
store_held-Admitted_example =
    store_held-Admitted sha token_a token_b payload 100 user 10 nothing one accepted

valid_mailbox : validate_opaque_token token_b ≡ true
unfolding validate_opaque_token decode_hex decode_pairs hex_digit
valid_mailbox = refl

small : All (λ h. size_of h ≤ max_opaque_envelope_size) one.held
unfolding store_held check_submission validate_opaque_token decode_hex decode_pairs hex_digit admit
    find_record check_quotas insert_held purge empty defaults hash_security_key same
small = (omega arith, tt)

list_held-Delivery_example :
    (hs : List _) × (list_held token_b 0 20 one ≡ ok hs) × Delivery token_b 20 one hs
list_held-Delivery_example = list_held-Delivery token_b 0 20 one valid_mailbox small
