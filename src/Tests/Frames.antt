-- ===== src/Tests/Frames.antt =====
-- The codec, the frames and the encrypted channel at concrete inputs. The AEAD of the tests copies the
-- plain text and adds a tag of zeros; it keeps the promises of `Aead`.
use inkmail.Base.{
  ℕ, suc, zero, ◌+◌, ◌-◌, ◌≡◌, refl, true, false, List, [], ◌∷◌, ◌++◌, Option, none, some, Bytes,
  codes, ok, err, arith, length, take, take-append, length-append, ap,
}
use inkmail.Session.{Session, encrypted}
use inkmail.Wire.BigEndian.{put_uint32}
use inkmail.Wire.Frame.{Writer, write_loop, write_all, write_frame, max_frame_size, frame_too_large}
use inkmail.Wire.Channel.{
  Aead, Codec, Message, framing, write_encrypted_frame, write_sealed, sealed_frame, send_message,
}
use inkmail.Wire.Channel.Delivery.{Linked, send_all, receive_all, receive_all-send_all}
use inkmail.Wire.Channel.Oversize.{send_message_oversize}

abbrev zeros : ℕ → Bytes
zeros zero = []
zeros (suc n) = 0 ∷ zeros n

length-zeros : (n : ℕ) → length (zeros n) ≡ n
length-zeros zero = refl
length-zeros (suc n) = omega (arith, length-zeros n)

-- Takes off the tag.
abbrev untagged : Bytes → Option Bytes
untagged sealed = some (take (length sealed - 16) sealed)

pub untagged-tagged : (plain : Bytes) → untagged (plain ++ zeros 16) ≡ some plain
untagged-tagged plain = ap some (
    take-append plain (zeros 16) (length (plain ++ zeros 16) - 16)
      (omega (arith, length-append plain (zeros 16))))

abbrev pub plain_aead : Aead
plain_aead = record {
  seal = λ key nonce plain extra. plain ++ zeros 16;
  unseal = λ key nonce sealed extra. untagged sealed;
  unseal-seal = λ key nonce plain extra. untagged-tagged plain;
  length-seal = λ key nonce plain extra. length-append plain (zeros 16);
}

abbrev key : Bytes
key = 9 ∷ []

abbrev pub session : Session
session = record {
  mailbox_id = [];
  fetched_messages = [];
  peer = zeros 32;
  peer_namespace = codes "alice";
  peer_anonymous = false;
  peer_encryption_key = zeros 32;
  send_aead = some key;
  recv_aead = some key;
  send_counter = 0;
  recv_counter = 0;
}

linked : Linked plain_aead key 0 session session
unfolding encrypted
linked = record {
  sender_encrypted = refl;
  receiver_encrypted = refl;
  send_key = refl;
  recv_key = refl;
  sent = refl;
  received = refl;
}

abbrev payloads : List Bytes
payloads = codes "one" ∷ codes "two" ∷ []

abbrev fresh_writer : Writer
fresh_writer = record { script = []; wire = [] }

all_sent : (send_all plain_aead session payloads fresh_writer).0 ≡ ok tt
unfolding send_all write_encrypted_frame write_sealed sealed_frame encrypted write_frame write_all
    write_loop put_uint32
all_sent = refl

receive_all-send_all_example :
    receive_all plain_aead 2 session
      ((send_all plain_aead session payloads fresh_writer).2.wire ++ codes "rest")
    ≡ ok (payloads, codes "rest")
receive_all-send_all_example =
    receive_all-send_all plain_aead key 0 session session payloads [] (codes "rest") linked
      (omega arith) (omega arith, (omega arith, tt)) all_sent

unfoldable block : ℕ → Bytes
block zero = []
block (suc n) = 0 ∷ block n

length-block : (n : ℕ) → length (block n) ≡ n
unfolding block
length-block zero = refl
length-block (suc n) = omega (arith, length-block n)

-- A codec with one message, as long as a frame may be.
abbrev long_codec : Codec
long_codec = record { marshal = λ msg. block max_frame_size; unmarshal = λ bytes. none }

abbrev message : Message
message = record { type = codes "HOLD"; content = [] }

long_size : length (long_codec.marshal message) ≡ max_frame_size
long_size = length-block max_frame_size

is_encrypted : encrypted session ≡ true
unfolding encrypted
is_encrypted = refl

send_message_oversize_example : send_message plain_aead long_codec session message fresh_writer ≡ (
  err (framing frame_too_large),
  record session { send_counter = session.send_counter + 1 },
  fresh_writer,
)
send_message_oversize_example =
    send_message_oversize plain_aead long_codec key session message fresh_writer is_encrypted refl
      (omega arith) (omega (arith, long_size)) (omega (arith, long_size))
