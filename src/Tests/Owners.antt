-- ===== src/Tests/Owners.antt =====
-- The outbox and the routes at concrete inputs.
use inkmail.Base.{
  ℕ, ◌≡◌, ◌≢◌, refl, false, [], ◌∷◌, Bytes, codes, ok, err, arith, same, trim_space, trim_left,
  trim_right, is_space,
}
use inkmail.Hex.{hex_digit, decode_pairs, decode_hex}
use inkmail.Limits.{defaults}
use inkmail.Session.{validate_opaque_token, same_bytes}
use inkmail.Store.Schema.{Store, empty, hash_security_key}
use inkmail.Store.Outbox
use inkmail.Store.Outbox.{OutboxError}
use inkmail.Store.Routes.{
  different_owner, find_owner, upsert_route, claim, write_route, valid_route, set_owned_route,
  mailbox_owned_by, owner_hash, expire_routes,
}
use inkmail.Store.Routes.Ownership.{foreign_owner_refused, Reach, start, next, expires_at}
use inkmail.Tests.Holding.{sha, token_a, token_b}

abbrev nothing : Store
nothing = empty defaults

abbrev pub key_of : ℕ → Bytes
key_of b =
    b ∷ b ∷ b ∷ b ∷ b ∷ b ∷ b ∷ b ∷ b ∷ b ∷ b ∷ b ∷ b ∷ b ∷ b ∷ b ∷ b ∷ b ∷ b ∷ b ∷ b ∷ b ∷ b ∷ b
    ∷ b ∷ b ∷ b ∷ b ∷ b ∷ b ∷ b ∷ b ∷ []

abbrev address : Bytes
address = codes "10.0.0.1:7777"

abbrev queued_store : Store
queued_store = elim (Outbox.queue token_a token_b (1 ∷ 2 ∷ []) 10 nothing) [
  | ok t ↦ t
  | err e ↦ nothing
]

queued : Outbox.queue token_a token_b (1 ∷ 2 ∷ []) 10 nothing ≡ ok queued_store
unfolding Outbox.queue Outbox.check_outbox Outbox.old_bytes Outbox.upsert validate_opaque_token
    decode_hex decode_pairs hex_digit empty defaults same
queued = refl

empty_outbox : Outbox.Quotas nothing
unfolding empty
empty_outbox = record { count = omega arith; bytes = omega arith }

queue-Quotas_example : Outbox.Quotas queued_store
queue-Quotas_example =
    Outbox.queue-Quotas token_a token_b (1 ∷ 2 ∷ []) 10 nothing queued_store empty_outbox queued

abbrev routed : Store
routed = elim (set_owned_route sha token_b address 100 (key_of 7) 10 nothing) [
  | ok t ↦ t
  | err e ↦ nothing
]

registration : set_owned_route sha token_b address 100 (key_of 7) 10 nothing ≡ ok routed
unfolding set_owned_route valid_route claim find_owner write_route upsert_route
    validate_opaque_token decode_hex decode_pairs hex_digit empty defaults hash_security_key same
    same_bytes trim_space trim_left trim_right is_space
registration = refl

abbrev expired : Store
expired = (expire_routes 200 routed).1

expiry : Reach sha routed expired
expiry = next start (expires_at 200)

valid_intruder : valid_route token_b address 400 (key_of 8) 300 ≡ ok tt
unfolding valid_route validate_opaque_token decode_hex decode_pairs hex_digit same trim_space
    trim_left trim_right is_space
valid_intruder = refl

other_hash : owner_hash sha (key_of 7) ≢ owner_hash sha (key_of 8)
unfolding hash_security_key
other_hash e = ground arith

-- The route has expired, and still no other identity registers one.
foreign_owner_refused_example :
    (set_owned_route sha token_b address 400 (key_of 8) 300 expired ≡ err different_owner)
    × (mailbox_owned_by sha token_b (key_of 8) expired ≡ ok false)
foreign_owner_refused_example =
    foreign_owner_refused sha token_b address 100 (key_of 7) 10 nothing routed expired registration
      expiry address 400 (key_of 8) 300 valid_intruder other_hash
