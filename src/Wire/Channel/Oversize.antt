-- ===== src/Wire/Channel/Oversize.antt =====
-- The size check of `sendMessage` is on the plain text, and the frame's is on the sealed text.
use inkmail.Base.{◌+◌, ◌≤◌, ◌<◌, ◌≡◌, ◌≢◌, true, false, some, ltb, ◌==◌, Bytes, length, err, arith}
use inkmail.Wire.Frame.{Writer, max_frame_size, frame_too_large, write_frame}
use inkmail.Wire.Frame.Roundtrip.{write_frame-Sends}
use inkmail.Session.{Session, encrypted}
use inkmail.Wire.Channel.{
  Aead, Codec, Message, framing, max_uint64, sealed_frame, write_sealed, write_encrypted_frame,
  send_message, framed,
}
use inkmail.Wire.Channel.Delivery.{length-sealed_frame}

-- In an encrypted session whose counter has not run out, a message whose encoding passes the size
-- check of `sendMessage` by less than the 20 bytes of overhead is refused by the frame layer:
-- nothing reaches the wire, and yet the sender's counter has moved on.
pub send_message_oversize :
    (aead : Aead) (codec : Codec) (key : Bytes) (s : Session) (msg : Message) (w : Writer)
    → encrypted s ≡ true
    → s.send_aead ≡ some key
    → s.send_counter ≢ max_uint64
    → max_frame_size < length (codec.marshal msg) + 20
    → length (codec.marshal msg) ≤ max_frame_size
    → send_message aead codec s msg w
      ≡ (err (framing frame_too_large), record s { send_counter = s.send_counter + 1 }, w)
unfolding send_message write_encrypted_frame write_sealed
send_message_oversize aead codec key s msg w enc k fresh over under =
    let payload = codec.marshal msg in
    let small : ltb max_frame_size (length payload) ≡ false = ground arith in
    let counter : (s.send_counter == max_uint64) ≡ false = ground arith in
    let step : send_message aead codec s msg w
        ≡ framed (record s { send_counter = s.send_counter + 1 })
            (write_frame (sealed_frame aead key s.send_counter payload) w) =
      simp (small, enc, k, counter) in
    rw (
      step,
      (write_frame-Sends (sealed_frame aead key s.send_counter payload) w).1
          (omega (arith, length-sealed_frame aead key s.send_counter payload)),
    )
