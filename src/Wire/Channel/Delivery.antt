-- ===== src/Wire/Channel/Delivery.antt =====
-- Both ends of an encrypted connection: what one sends the other receives, once and in order.
use inkmail.Base.{
  ℕ, zero, suc, ◌+◌, ◌≤◌, ◌<◌, ◌^◌, ◌≡◌, ◌≢◌, refl, ap, sym, ◌∙◌, true, false, List, [], ◌∷◌, ◌++◌,
  some, ◌==◌, Bytes, length, length-append, take, drop, take-append, drop-append, Result, ok, err,
  ◌>>=◌, arith, All, append_assoc, append-nil, Result-cases, inl, inr,
}
use inkmail.Wire.BigEndian.{
  put_uint32, uint32, uint32-put_uint32, length-put_uint32, put_uint64-injective,
}
use inkmail.Wire.Frame.{FrameError, Script, Writer, max_frame_size, write_frame, read_frame}
use inkmail.Wire.Frame.Roundtrip.{
  Sends, frame_bytes, write_frame-Sends, read_frame_limit-frame_bytes,
}
use inkmail.Session.{Session, encrypted}
use inkmail.Wire.Channel.{
  Aead, ChannelError, transport_nonce, max_uint64, sealed_frame, write_sealed,
  write_encrypted_frame, open_frame, read_encrypted_frame, framed, read_sealed, Sent,
}

drop4 : Bytes → Bytes
drop4 (_ ∷ _ ∷ _ ∷ _ ∷ r) = r
drop4 _ = []

-- Two 64-bit counters with the same nonce are equal.
pub transport_nonce-injective :
    (m n : ℕ) → m < 2 ^ 64 → n < 2 ^ 64 → transport_nonce m ≡ transport_nonce n → m ≡ n
unfolding transport_nonce drop4
transport_nonce-injective m n h k e = put_uint64-injective m n h k (ap drop4 e)

module _ (aead : Aead) where
  pub length-sealed_frame :
      (key : Bytes) (counter : ℕ) (payload : Bytes)
      → length (sealed_frame aead key counter payload) ≡ length payload + 20
  unfolding sealed_frame
  length-sealed_frame key counter payload =
      let sealed = aead.seal key (transport_nonce counter) payload [] in
      omega (
        arith,
        length-append (put_uint32 (length sealed)) sealed,
        length-put_uint32 (length sealed),
        aead.length-seal key (transport_nonce counter) payload [],
      )

  take-sealed_frame :
      (key : Bytes) (counter : ℕ) (payload : Bytes)
      → length payload + 20 ≤ max_frame_size
      → uint32 (take 4 (sealed_frame aead key counter payload)) ≡ length payload + 16
  unfolding sealed_frame
  take-sealed_frame key counter payload h =
      let sealed = aead.seal key (transport_nonce counter) payload [] in
      let size = aead.length-seal key (transport_nonce counter) payload [] in
      rw
        (take-append (put_uint32 (length sealed)) sealed 4
          (sym (length-put_uint32 (length sealed))))
        (omega (arith, uint32-put_uint32 (length sealed), size))

  drop-sealed_frame :
      (key : Bytes) (counter : ℕ) (payload : Bytes)
      → drop 4 (sealed_frame aead key counter payload)
        ≡ aead.seal key (transport_nonce counter) payload []
  unfolding sealed_frame
  drop-sealed_frame key counter payload =
      let sealed = aead.seal key (transport_nonce counter) payload [] in
      drop-append (put_uint32 (length sealed)) sealed 4 (sym (length-put_uint32 (length sealed)))

  open_frame-sealed_frame :
      (key : Bytes) (s : Session) (counter : ℕ) (payload rest : Bytes)
      → length payload + 20 ≤ max_frame_size
      → s.recv_counter ≢ max_uint64
      → s.recv_counter ≡ counter
      → open_frame aead key s (sealed_frame aead key counter payload) rest
        ≡ (ok (payload, rest), record s { recv_counter = s.recv_counter + 1 })
  unfolding open_frame
  open_frame-sealed_frame key s counter payload rest h room same_counter =
      rw (← same_counter, drop-sealed_frame key s.recv_counter payload, aead.unseal-seal)
        (ground (
          arith,
          length-sealed_frame key s.recv_counter payload,
          take-sealed_frame key s.recv_counter payload h,
        ))

  -- Two ends whose keys and counters belong together, for one direction.
  pub record Linked (key : Bytes) (n : ℕ) (s r : Session) : Type 0 where
    pub sender_encrypted : encrypted s ≡ true
    pub receiver_encrypted : encrypted r ≡ true
    pub send_key : s.send_aead ≡ some key
    pub recv_key : r.recv_aead ≡ some key
    pub sent : s.send_counter ≡ n
    pub received : r.recv_counter ≡ n

  framed_ok :
      (s : Session) (bytes wire : Bytes) (m : Result FrameError (Unit {0}) × Writer)
      → (framed s m).0 ≡ ok tt
      → Sends wire bytes m
      → ((framed s m).2.wire ≡ wire ++ bytes) × ((framed s m).1 ≡ s)
  framed_ok s bytes wire (ok u, w) h sends = (sends, refl)
  framed_ok s bytes wire (err e, w) h sends = absurd (ground arith)

  -- A successful send puts one frame on the wire and moves the counter on.
  write_encrypted_frame_ok :
      (key : Bytes) (n : ℕ) (s r : Session) (payload : Bytes) (w : Writer)
      → Linked key n s r
      → n < max_uint64
      → length payload + 20 ≤ max_frame_size
      → (write_encrypted_frame aead s payload w).0 ≡ ok tt
      → ((write_encrypted_frame aead s payload w).2.wire
          ≡ w.wire ++ frame_bytes (sealed_frame aead key n payload))
        × ((write_encrypted_frame aead s payload w).1
            ≡ record s { send_counter = s.send_counter + 1 })
  unfolding write_encrypted_frame write_sealed
  write_encrypted_frame_ok key n s r payload w l small room h =
      let fresh : (s.send_counter == max_uint64) ≡ false = ground arith in
      let step : write_encrypted_frame aead s payload w
          ≡ framed (record s { send_counter = s.send_counter + 1 })
              (write_frame (sealed_frame aead key s.send_counter payload) w) =
        simp (l.sender_encrypted, l.send_key, fresh) in
      let sends =
        (write_frame-Sends (sealed_frame aead key s.send_counter payload) w).0
          (omega (arith, length-sealed_frame key s.send_counter payload)) in
      rw (step, ← l.sent)
        (framed_ok (record s { send_counter = s.send_counter + 1 }) _ w.wire _ (rw step at h) sends)

  read_encrypted_frame_ok :
      (key : Bytes) (n : ℕ) (s r : Session) (payload rest : Bytes)
      → Linked key n s r
      → n < max_uint64
      → length payload + 20 ≤ max_frame_size
      → read_encrypted_frame aead r (frame_bytes (sealed_frame aead key n payload) ++ rest)
        ≡ (ok (payload, rest), record r { recv_counter = r.recv_counter + 1 })
  unfolding read_encrypted_frame read_frame
  read_encrypted_frame_ok key n s r payload rest l small room =
      let frame = sealed_frame aead key n payload in
      let size = length-sealed_frame key n payload in
      let step : read_encrypted_frame aead r (frame_bytes frame ++ rest)
          ≡ read_sealed aead key r (read_frame (frame_bytes frame ++ rest)) =
        simp (l.receiver_encrypted, l.recv_key) in
      step
      ∙ ap (read_sealed aead key r)
          (read_frame_limit-frame_bytes max_frame_size frame rest (omega arith) (omega arith))
      ∙ open_frame-sealed_frame key r n payload rest room (omega (arith, l.received)) l.received

  -- Sends in a row, which stop at the first error.
  unfoldable pub send_all : Session → List Bytes → Writer → Sent
  send_all s [] w = (ok tt, s, w)
  send_all s (p ∷ ps) w =
      let (r, s', w') = write_encrypted_frame aead s p w in
      let later = send_all s' ps w' in elim r [ ok _ ↦ later | err e ↦ (err e, s', w') ]

  -- So many reads in a row.
  pub receive_all : ℕ → Session → Bytes → Result ChannelError (List Bytes × Bytes)
  receive_all zero r stream = ok ([], stream)
  receive_all (suc n) r stream =
      let (got, r') = read_encrypted_frame aead r stream in
      got >>= λ p. receive_all n r' p.1 >>= λ q. ok (p.0 ∷ q.0, q.1)

  frames : Bytes → ℕ → List Bytes → Bytes
  frames key n [] = []
  frames key n (p ∷ ps) = frame_bytes (sealed_frame aead key n p) ++ frames key (n + 1) ps

  abbrev Fits : List Bytes → Type 0
  Fits = All (λ p. length p + 20 ≤ max_frame_size)

  next-Linked :
      {key : Bytes} {n : ℕ} {s r : Session}
      → Linked key n s r
      → Linked key
          (n + 1)
          (record s { send_counter = s.send_counter + 1 })
          (record r { recv_counter = r.recv_counter + 1 })
  unfolding encrypted
  next-Linked l = record {
    sender_encrypted = l.sender_encrypted;
    receiver_encrypted = l.receiver_encrypted;
    send_key = l.send_key;
    recv_key = l.recv_key;
    sent = omega (arith, l.sent);
    received = omega (arith, l.received);
  }

  receive_all-frames :
      (key : Bytes) (n : ℕ) (s r : Session) (ps : List Bytes) (rest : Bytes)
      → Linked key n s r
      → n + length ps ≤ max_uint64
      → Fits ps
      → receive_all (length ps) r (frames key n ps ++ rest) ≡ ok (ps, rest)
  unfolding receive_all frames
  receive_all-frames key n s r [] rest l small fits = refl
  receive_all-frames key n s r (p ∷ ps) rest l small fits =
      let first = frame_bytes (sealed_frame aead key n p) in
      rw (
        append_assoc first (frames key (n + 1) ps) rest,
        read_encrypted_frame_ok key n s r p (frames key (n + 1) ps ++ rest) l (omega arith) fits.0,
        receive_all-frames key (n + 1) _ _ ps rest (next-Linked l) (omega arith) fits.1,
      )

  send_all-frames :
      (key : Bytes) (n : ℕ) (s r : Session) (ps : List Bytes) (w : Writer)
      → Linked key n s r
      → n + length ps ≤ max_uint64
      → Fits ps
      → (send_all s ps w).0 ≡ ok tt
      → (send_all s ps w).2.wire ≡ w.wire ++ frames key n ps
  unfolding send_all frames
  send_all-frames key n s r [] w l small fits h = sym (append-nil w.wire)
  send_all-frames key n s r (p ∷ ps) w l small fits h =
      elim (Result-cases (write_encrypted_frame aead s p w).0) [
        | inr (e, failed) ↦ absurd (ground arith)
        | inl (u, sent) ↦
            let (wire, counter) =
              write_encrypted_frame_ok key n s r p w l (omega arith) fits.0 sent in
            let s' = (write_encrypted_frame aead s p w).1 in
            let w' = (write_encrypted_frame aead s p w).2 in
            let linked : Linked key (n + 1) s' (record r { recv_counter = r.recv_counter + 1 }) =
              rw counter (next-Linked l) in
            let rest = send_all-frames key (n + 1) s' _ ps w' linked (omega arith) fits.1 in
            rw (sent, send_all)
              (rest (rw (sent, send_all) at h)
                ∙ ap (λ b. b ++ frames key (n + 1) ps) wire
                ∙ append_assoc w.wire _ _)
      ]

  -- For two ends whose keys and counters belong together, counters that do not run out, and
  -- payloads that fit a frame with the 20 bytes of overhead: if all the sends of a row of payloads
  -- report no error on a fresh connection, whatever its calls of `Write` took, the other end
  -- receives exactly those payloads, in that order, and then what follows on the wire.
  pub receive_all-send_all :
      (key : Bytes) (n : ℕ) (s r : Session) (ps : List Bytes) (script : Script) (rest : Bytes)
      → Linked key n s r
      → n + length ps ≤ max_uint64
      → Fits ps
      → (send_all s ps (record { script = script; wire = [] })).0 ≡ ok tt
      → receive_all
          (length ps)
          r
          ((send_all s ps (record { script = script; wire = [] })).2.wire ++ rest)
        ≡ ok (ps, rest)
  receive_all-send_all key n s r ps script rest l small fits h =
      rw (send_all-frames key n s r ps _ l small fits h)
        (receive_all-frames key n s r ps rest l small fits)
