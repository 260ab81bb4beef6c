-- ===== src/Wire/Channel.antt =====
-- `writeEncryptedFrame`, `readEncryptedFrame`, `sendMessage` and `receiveMessage` of frame.go. The AEAD
-- (ChaCha20-Poly1305) and the JSON codec are not the repository's: they are the parameters `Aead`
-- and `Codec`.
pub mod Delivery
pub mod Oversize
use inkmail.Base.{
  ℕ, ◌+◌, ◌≡◌, Bool, true, false, not, List, [], ◌∷◌, ◌++◌, Option, none, some, ltb, ◌==◌,
  if◌then◌else◌, Bytes, same, length, take, drop, Result, ok, err, ◌>>=◌,
}
use inkmail.Wire.BigEndian.{put_uint32, uint32, put_uint64}
use inkmail.Wire.Frame.{FrameError, Writer, max_frame_size, write_frame, read_frame}
use inkmail.Session.{Session, encrypted}

-- `cipher.AEAD` under a key: what is sealed is opened by the same key, nonce and associated data, and
-- a tag of 16 bytes is added.
pub record Aead : Type 0 where
  pub seal : Bytes → Bytes → Bytes → Bytes → Bytes
  pub unseal : Bytes → Bytes → Bytes → Bytes → Option Bytes
  pub unseal-seal :
      (key nonce plain extra : Bytes)
      → unseal key nonce (seal key nonce plain extra) extra ≡ some plain
  pub length-seal :
      (key nonce plain extra : Bytes) → length (seal key nonce plain extra) ≡ length plain + 16

pub record Message : Type 0 where
  pub type : Bytes
  pub content : Bytes

-- `json.Marshal` and `json.Unmarshal` at `Message`.
pub record Codec : Type 0 where
  pub marshal : Message → Bytes
  pub unmarshal : Bytes → Option Message

abbrev pub max_uint64 : ℕ
max_uint64 = 18446744073709551615

pub data ChannelError : Type 0 where
  framing : FrameError → ChannelError
  nonce_exhausted frame_truncated invalid_frame_length decrypt_failed : ChannelError
  message_too_large unmarshal_failed no_type : ChannelError

abbrev lift {ℓ} : {A : Type ℓ} → Result FrameError A → Result ChannelError A
lift (ok a) = ok a
lift (err e) = err (framing e)

-- Twelve bytes, the counter in the last eight.
unfoldable pub transport_nonce : ℕ → Bytes
transport_nonce counter = (0 ∷ 0 ∷ 0 ∷ 0 ∷ []) ++ put_uint64 counter

abbrev pub Sent : Type 0
Sent = Result ChannelError (Unit {0}) × Session × Writer

abbrev framed : Session → Result FrameError (Unit {0}) × Writer → Sent
framed s (r, w) = (lift r, s, w)

module _ (aead : Aead) where
  open aead use {seal, unseal}

  unfoldable pub sealed_frame : Bytes → ℕ → Bytes → Bytes
  sealed_frame key counter payload =
      let sealed = seal key (transport_nonce counter) payload [] in
      put_uint32 (length sealed) ++ sealed

  -- The send with an installed key.
  unfoldable pub write_sealed : Bytes → Session → Bytes → Writer → Sent
  unfolding sealed_frame
  write_sealed key s payload w =
      if s.send_counter == max_uint64
      then (err nonce_exhausted, s, w)
      else framed (record s { send_counter = s.send_counter + 1 })
          (write_frame (sealed_frame key s.send_counter payload) w)

  unfoldable pub write_encrypted_frame : Session → Bytes → Writer → Sent
  unfolding write_sealed encrypted
  write_encrypted_frame s payload w =
      if not (encrypted s) then framed s (write_frame payload w) else elim s.send_aead [
        | none ↦ framed s (write_frame payload w)
        | some key ↦ write_sealed key s payload w
      ]

  abbrev opened : Session → Bytes → Option Bytes → Result ChannelError (Bytes × Bytes) × Session
  opened s rest none = (err decrypt_failed, s)
  opened s rest (some plain) = (ok (plain, rest), s)

  -- The checks on a frame that was read, and its opening.
  unfoldable pub open_frame :
      Bytes → Session → Bytes → Bytes → Result ChannelError (Bytes × Bytes) × Session
  unfolding uint32
  open_frame key s frame rest =
      if ltb (length frame) 4
      then (err frame_truncated, s)
      else if not (uint32 (take 4 frame) + 4 == length frame)
      then (err invalid_frame_length, s)
      else if s.recv_counter == max_uint64
      then (err nonce_exhausted, s)
      else opened (record s { recv_counter = s.recv_counter + 1 }) rest
          (unseal key (transport_nonce s.recv_counter) (drop 4 frame) [])

  abbrev read_sealed :
      Bytes
      → Session
      → Result FrameError (Bytes × Bytes)
      → Result ChannelError (Bytes × Bytes) × Session
  read_sealed key s (err e) = (err (framing e), s)
  read_sealed key s (ok (frame, rest)) = open_frame key s frame rest

  -- The payload with the rest of the stream, and the session.
  unfoldable pub read_encrypted_frame :
      Session → Bytes → Result ChannelError (Bytes × Bytes) × Session
  unfolding encrypted
  read_encrypted_frame s stream =
      if not (encrypted s) then (lift (read_frame stream), s) else elim s.recv_aead [
        | none ↦ (lift (read_frame stream), s)
        | some key ↦ read_sealed key s (read_frame stream)
      ]

  module _ (codec : Codec) where
    open codec use {marshal, unmarshal}

    unfoldable pub send_message : Session → Message → Writer → Sent
    send_message s msg w =
        let bytes = marshal msg in
        if ltb max_frame_size (length bytes)
        then (err message_too_large, s, w)
        else write_encrypted_frame s bytes w

    abbrev parsed : Option Message → Bytes → Result ChannelError (Message × Bytes)
    parsed none rest = err unmarshal_failed
    parsed (some msg) rest = if same msg.type [] then err no_type else ok (msg, rest)

    unfoldable pub receive_message :
        Session → Bytes → Result ChannelError (Message × Bytes) × Session
    receive_message s stream =
        let (r, s') = read_encrypted_frame s stream in (r >>= λ p. parsed (unmarshal p.0) p.1, s')
