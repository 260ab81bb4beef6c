-- ===== src/Handshake/BothEnds.antt =====
-- Two honest ends of a handshake: newHello, verifyHello and finishHandshake of
-- internal/network/handshake.go, with libraries that keep their promises.
use inkmail.Base.{
  ℕ, ◌+◌, ◌*◌, ◌<◌, ◌≡◌, refl, ◌∙◌, Bool, true, false, some, Bytes, IsBytes, length, arith, ok,
}
use inkmail.Hex.Laws.{decode_hex-encode_hex}
use inkmail.Identity.{Identity, validate_namespace}
use inkmail.Session.{Session, encrypted}
use inkmail.Wire.Channel.{Aead}
use inkmail.Wire.Channel.Delivery.{Linked}
use inkmail.Base.Int.{unix_limit}
use inkmail.Handshake.{
  HandshakeHello, Primitives, Verified, outside_skew, max_duration, transcript_bytes,
  unsigned_hello, new_hello, verify_hello, install_session_keys, finish_handshake, direction_key,
  session_label_initiator, session_label_responder,
}
use inkmail.Handshake.Agreement.{agreed_session}

-- An identity whose namespace and keys are well formed, and whose signatures are verified by its public key.
pub record Sound (prim : Primitives) (id : Identity) : Type 0 where
  pub named : validate_namespace prim.unicode id.namespace ≡ ok tt
  pub key_bytes : IsBytes id.public_key
  pub key_size : length id.public_key ≡ 32
  pub encryption_bytes : IsBytes id.encryption_public_key
  pub encryption_size : length id.encryption_public_key ≡ 32
  pub signature_bytes : (m : Bytes) → IsBytes (prim.sign id.private_key m)
  pub signs : (m : Bytes) → prim.verify id.public_key m (prim.sign id.private_key m) ≡ true

-- What X25519 promises.
pub record Exchange (prim : Primitives) : Type 0 where
  pub public_bytes : (k : Bytes) → IsBytes (prim.x25519_public k)
  pub public_size : (k : Bytes) → length (prim.x25519_public k) ≡ 32
  pub agree :
      (a b : Bytes) → prim.ecdh a (prim.x25519_public b) ≡ prim.ecdh b (prim.x25519_public a)

module _ (prim : Primitives) (law : Exchange prim) where
  -- What a verified hello of an identity gives.
  abbrev pub verified_keys : Identity → Bytes → Verified
  verified_keys id ephemeral = record {
    peer_key = id.public_key;
    encryption_key = id.encryption_public_key;
    ephemeral = prim.x25519_public ephemeral;
  }

  -- The hello of a sound identity is accepted while its time passes the test, and gives the identity's keys.
  verify_hello-new_hello :
      (id : Identity) (ephemeral : Bytes) (then_ now : ℕ)
      → Sound prim id
      → outside_skew now then_ ≡ false
      → verify_hello prim (new_hello prim id ephemeral then_) now ≡ ok (verified_keys id ephemeral)
  unfolding verify_hello new_hello
  verify_hello-new_hello id ephemeral then_ now s near =
      let message = transcript_bytes prim (unsigned_hello prim id ephemeral then_) in
      simp (
        s.named,
        decode_hex-encode_hex id.public_key s.key_bytes,
        s.key_size,
        decode_hex-encode_hex id.encryption_public_key s.encryption_bytes,
        s.encryption_size,
        decode_hex-encode_hex (prim.x25519_public ephemeral) (law.public_bytes ephemeral),
        law.public_size ephemeral,
        decode_hex-encode_hex (prim.sign id.private_key message) (s.signature_bytes message),
        s.signs message,
        near,
      )

  -- The hello of a sound identity is accepted, however early it is seen, if its time lies 2^63 nanoseconds
  -- or more ahead of the clock, as far as `time.Unix` goes: a time step that long is its own negation.
  pub verify_hello-far_ahead :
      (id : Identity) (ephemeral : Bytes) (then_ now : ℕ)
      → Sound prim id
      → then_ < unix_limit
      → now + max_duration < then_ * 1000000000
      → verify_hello prim (new_hello prim id ephemeral then_) now ≡ ok (verified_keys id ephemeral)
  unfolding outside_skew
  verify_hello-far_ahead id ephemeral then_ now s low far =
      verify_hello-new_hello id ephemeral then_ now s (ground arith)

  finish_handshake-new_hello :
      (s : Session) (initiator : Bool) (ephemeral : Bytes) (local_hello : HandshakeHello)
      (peer : Identity) (peer_ephemeral : Bytes) (then_ now : ℕ) (shared : Bytes)
      → Sound prim peer
      → outside_skew now then_ ≡ false
      → prim.ecdh ephemeral (prim.x25519_public peer_ephemeral) ≡ some shared
      → finish_handshake prim s initiator ephemeral local_hello
          (new_hello prim peer peer_ephemeral then_)
          now
        ≡ ok (
            agreed_session prim s initiator shared
              (verified_keys peer peer_ephemeral)
              local_hello
              (new_hello prim peer peer_ephemeral then_))
  unfolding finish_handshake install_session_keys
  finish_handshake-new_hello s initiator ephemeral local_hello peer peer_ephemeral then_ now shared
        sound near agreed =
      rw (verify_hello-new_hello peer peer_ephemeral then_ now sound near, agreed) refl

  agreed_session-encrypted :
      (s : Session) (initiator : Bool) (shared : Bytes) (v : Verified)
      (local_hello peer_hello : HandshakeHello)
      → encrypted (agreed_session prim s initiator shared v local_hello peer_hello) ≡ true
  unfolding encrypted
  agreed_session-encrypted s initiator shared v local_hello peer_hello = refl

  -- Both directions of two sessions.
  pub record BothLinked (aead : Aead) (i r : Session) : Type 0 where
    pub forward_key : Bytes
    pub forward : Linked aead forward_key 0 i r
    pub backward_key : Bytes
    pub backward : Linked aead backward_key 0 r i

  agreed_session-BothLinked :
      (aead : Aead) (si sr : Session) (shared : Bytes) (v w : Verified) (hi hr : HandshakeHello)
      → BothLinked aead
          (agreed_session prim si true shared v hi hr)
          (agreed_session prim sr false shared w hr hi)
  agreed_session-BothLinked aead si sr shared v w hi hr =
      let i = agreed_session-encrypted si true shared v hi hr in
      let r = agreed_session-encrypted sr false shared w hr hi in
      record {
        forward_key = direction_key prim shared hi hr session_label_initiator;
        forward = record {
          sender_encrypted = i;
          receiver_encrypted = r;
          send_key = refl;
          recv_key = refl;
          sent = refl;
          received = refl;
        };
        backward_key = direction_key prim shared hi hr session_label_responder;
        backward = record {
          sender_encrypted = r;
          receiver_encrypted = i;
          send_key = refl;
          recv_key = refl;
          sent = refl;
          received = refl;
        };
      }

  -- Two ends with sound identities exchange the hellos that they make, whose times pass the
  -- test at the other end, and the key exchange succeeds: both handshakes finish, each end
  -- has the other's key as its peer, and in both directions the keys and counters belong together, so
  -- that what one sends the other receives.
  pub finish_handshake-BothLinked :
      (aead : Aead) (si sr : Session) (initiator responder : Identity) (ei er : Bytes)
      (ti tr ni nr : ℕ) (shared : Bytes)
      → Sound prim initiator
      → Sound prim responder
      → outside_skew ni tr ≡ false
      → outside_skew nr ti ≡ false
      → prim.ecdh ei (prim.x25519_public er) ≡ some shared
      → let hi = new_hello prim initiator ei ti in
        let hr = new_hello prim responder er tr in
        (i : Session) × (r : Session) × (finish_handshake prim si true ei hi hr ni ≡ ok i)
        × (finish_handshake prim sr false er hr hi nr ≡ ok r)
        × (i.peer ≡ responder.public_key)
        × (r.peer ≡ initiator.public_key)
        × BothLinked aead i r
  finish_handshake-BothLinked aead si sr initiator responder ei er ti tr ni nr shared a b near_i
        near_r agreed =
      let hi = new_hello prim initiator ei ti in
      let hr = new_hello prim responder er tr in
      (
        agreed_session prim si true shared (verified_keys responder er) hi hr,
        agreed_session prim sr false shared (verified_keys initiator ei) hr hi,
        finish_handshake-new_hello si true ei hi responder er tr ni shared b near_i agreed,
        finish_handshake-new_hello sr false er hr initiator ei ti nr shared a near_r
            (law.agree er ei ∙ agreed),
        refl,
        refl,
        agreed_session-BothLinked aead si sr shared (verified_keys responder er)
            (verified_keys initiator ei) hi hr,
      )
