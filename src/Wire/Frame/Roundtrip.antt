-- ===== src/Wire/Frame/Roundtrip.antt =====
-- What is on the wire after a write, and that a reader gets it back.
use inkmail.Base.{
  ℕ, zero, suc, ◌%◌, ◌≤◌, ◌<◌, ◌≡◌, refl, false, sym, ap, subst, ◌∙◌, inl, inr, List, [], ◌∷◌, ◌++◌,
  none, some, arith, Bytes, length, length-append, take, drop, take-append, drop-append,
  append_assoc, append-nil, Result, ok, err, Result-cases, ltb, same_iff, length-take,
}
use inkmail.Wire.BigEndian.{put_uint32, uint32, uint32-put_uint32, length-put_uint32}
use inkmail.Wire.Frame.{
  FrameError, Script, Writer, magic, max_frame_size, frame_too_large, write_loop, write_all,
  write_frame, read_full, read_payload, read_frame_limit, read_frame, ◌then_write◌,
}
use inkmail.Base.{◌>>=◌}

take-append-drop {ℓ} : {A : Type ℓ} (n : ℕ) (xs : List A) → take n xs ++ drop n xs ≡ xs
take-append-drop zero xs = refl
take-append-drop (suc n) [] = refl
take-append-drop (suc n) (x ∷ xs) = ap (◌∷◌ x) (take-append-drop n xs)

-- What a write leaves: everything written, or a beginning of it and an error.
abbrev pub Sends : Bytes → Bytes → Result FrameError (Unit {0}) × Writer → Type 0
Sends wire bytes (ok _, w) = w.wire ≡ wire ++ bytes
Sends wire bytes (err _, w) =
    (sent : Bytes) × (unsent : Bytes) × (sent ++ unsent ≡ bytes) × (w.wire ≡ wire ++ sent)

Sends-more :
    (wire sent rest : Bytes) (r : Result FrameError (Unit {0}) × Writer)
    → Sends (wire ++ sent) rest r
    → Sends wire (sent ++ rest) r
Sends-more wire sent rest (ok u, w) h = h ∙ append_assoc wire sent rest
Sends-more wire sent rest (err e, w) (s, u, p, q) =
    (sent ++ s, u, append_assoc sent s u ∙ ap (◌++◌ sent) p, q ∙ append_assoc wire sent s)

write_loop-Sends :
    (script : Script) (wire bytes : Bytes) → Sends wire bytes (write_loop script wire bytes)
unfolding write_loop
write_loop-Sends script wire [] = sym (append-nil wire)
write_loop-Sends [] wire (x ∷ xs) = refl
write_loop-Sends (none ∷ script) wire (x ∷ xs) = ([], x ∷ xs, refl, sym (append-nil wire))
write_loop-Sends (some zero ∷ script) wire (x ∷ xs) = ([], x ∷ xs, refl, sym (append-nil wire))
write_loop-Sends (some (suc n) ∷ script) wire (x ∷ xs) =
    let whole : take (suc n) (x ∷ xs) ++ drop n xs ≡ x ∷ xs = take-append-drop (suc n) (x ∷ xs) in
    subst (λ b. Sends wire b (write_loop script (wire ++ take (suc n) (x ∷ xs)) (drop n xs))) whole
      (Sends-more wire (take (suc n) (x ∷ xs)) (drop n xs) _
        (write_loop-Sends script (wire ++ take (suc n) (x ∷ xs)) (drop n xs)))

-- However the connection splits the writes, `writeAll` sends all the bytes, or reports an error after
-- sending a beginning of them.
pub write_all-Sends : (bytes : Bytes) (w : Writer) → Sends w.wire bytes (write_all bytes w)
unfolding write_all
write_all-Sends bytes w = write_loop-Sends w.script w.wire bytes

then_write-Sends :
    (wire first second : Bytes) (r : Result FrameError (Unit {0}) × Writer)
    → Sends wire first r
    → Sends wire (first ++ second) (◌then_write◌ r second)
then_write-Sends wire first second (ok u, w) h =
    Sends-more wire first second _
      (subst (λ start. Sends start second (write_all second w)) h (write_all-Sends second w))
then_write-Sends wire first second (err e, w) (s, u, p, q) =
    (s, u ++ second, sym (append_assoc s u second) ∙ ap (λ b. b ++ second) p, q)

-- The bytes of a frame.
abbrev pub frame_bytes : Bytes → Bytes
frame_bytes payload = (magic ++ put_uint32 (length payload)) ++ payload

-- A payload within the limit is sent as one frame, or an error is reported after a beginning of that
-- frame; a larger one is refused and nothing is sent.
pub write_frame-Sends :
    (payload : Bytes) (w : Writer)
    → (length payload ≤ max_frame_size → Sends w.wire (frame_bytes payload) (write_frame payload w))
      × (max_frame_size < length payload → write_frame payload w ≡ (err frame_too_large, w))
unfolding write_frame
write_frame-Sends payload w = (
  λ h.
      let fits : ltb max_frame_size (length payload) ≡ false = ground arith in
      let small : length payload % 4294967296 ≡ length payload = omega arith in
      rw (fits, small)
        (then_write-Sends w.wire (magic ++ put_uint32 (length payload)) payload _ (
          then_write-Sends w.wire magic (put_uint32 (length payload)) _ (write_all-Sends magic w))),
  λ h. ground arith,
)

-- A payload within the limit is sent as one frame, or an error is reported after a beginning of that frame.
pub write_frame_within :
    (payload : Bytes) (w : Writer)
    → length payload ≤ max_frame_size
    → Sends w.wire (frame_bytes payload) (write_frame payload w)
write_frame_within payload w fits = (write_frame-Sends payload w).0 fits

read_full-append : (p rest : Bytes) (n : ℕ) → n ≡ length p → read_full n (p ++ rest) ≡ ok (p, rest)
unfolding read_full
read_full-append [] [] n e = ground arith
read_full-append [] (y ∷ ys) zero e = ground arith
read_full-append [] (y ∷ ys) (suc n) e = absurd (omega arith)
read_full-append (x ∷ xs) rest n e =
    rw (take-append (x ∷ xs) rest n e, drop-append (x ∷ xs) rest n e)
      (ground (arith, length-append xs rest))

take-header : (x : ℕ) → take 4 (magic ++ put_uint32 x) ≡ magic
unfolding put_uint32
take-header x = refl

drop-header : (x : ℕ) → drop 4 (magic ++ put_uint32 x) ≡ put_uint32 x
unfolding put_uint32
drop-header x = refl

read_payload-payload :
    (limit : ℕ) (payload rest : Bytes)
    → length payload ≤ max_frame_size
    → length payload ≤ limit
    → read_payload limit (magic ++ put_uint32 (length payload), payload ++ rest)
      ≡ ok (payload, rest)
unfolding read_payload
read_payload-payload limit payload rest h k =
    let size : uint32 (put_uint32 (length payload)) ≡ length payload =
      uint32-put_uint32 (length payload) (omega arith) in
    rw (take-header (length payload), drop-header (length payload), size)
      (ground (arith, same_iff magic magic, read_full-append payload rest (length payload)))

-- Reading the bytes of a frame gives its payload and leaves what comes after it, if the payload is
-- within the reader's limit.
pub read_frame_limit-frame_bytes :
    (limit : ℕ) (payload rest : Bytes)
    → length payload ≤ max_frame_size
    → length payload ≤ limit
    → read_frame_limit limit (frame_bytes payload ++ rest) ≡ ok (payload, rest)
unfolding read_frame_limit
read_frame_limit-frame_bytes limit payload rest h k =
    let header = magic ++ put_uint32 (length payload) in
    let eight : 8 ≡ length header = omega (arith, length-put_uint32 (length payload)) in
    rw (append_assoc header payload rest, read_full-append header (payload ++ rest) 8 eight)
      (read_payload-payload limit payload rest h k)

length-read_full :
    (n : ℕ) (stream p rest : Bytes) → read_full n stream ≡ ok (p, rest) → length p ≡ n
unfolding read_full
length-read_full n [] p rest h = ground arith
length-read_full n (x ∷ xs) p rest h = ground (arith, length-take n (x ∷ xs))

read_payload_bounded :
    (limit : ℕ) (header stream payload rest : Bytes)
    → read_payload limit (header, stream) ≡ ok (payload, rest)
    → (length payload ≤ limit) × (length payload ≤ max_frame_size)
unfolding read_payload
read_payload_bounded limit header stream payload rest h =
    ground (arith, length-read_full (uint32 (drop 4 header)) stream payload rest)

-- Whatever a stream holds, a payload that is read is no longer than the reader's limit and than the
-- limit of the protocol.
pub read_frame_limit_bounded :
    (limit : ℕ) (stream payload rest : Bytes)
    → read_frame_limit limit stream ≡ ok (payload, rest)
    → (length payload ≤ limit) × (length payload ≤ max_frame_size)
unfolding read_frame_limit
read_frame_limit_bounded limit stream payload rest h = elim (Result-cases (read_full 8 stream)) [
  | inl ((header, later), e) ↦
      read_payload_bounded limit header later payload rest (rw (e, ◌>>=◌) at h)
  | inr (x, e) ↦ absurd (ground arith)
]

-- If a fresh connection reports no error for the write of a frame with a payload within the limit,
-- whatever its calls of `Write` took, the reader at the other end gets the payload, before what is
-- sent next.
pub read_frame-write_frame :
    (payload rest : Bytes) (script : Script)
    → length payload ≤ max_frame_size
    → (write_frame payload (record { script = script; wire = [] })).0 ≡ ok tt
    → read_frame ((write_frame payload (record { script = script; wire = [] })).1.wire ++ rest)
      ≡ ok (payload, rest)
unfolding read_frame
read_frame-write_frame payload rest script h sent =
    rw (sent_wire (write_frame payload w) sent ((write_frame-Sends payload w).0 h))
      (read_frame_limit-frame_bytes max_frame_size payload rest h h)
  where
    w : Writer
    w = record { script = script; wire = [] }

    sent_wire :
        (r : Result FrameError (Unit {0}) × Writer)
        → r.0 ≡ ok tt
        → Sends [] (frame_bytes payload) r
        → r.1.wire ≡ frame_bytes payload
    sent_wire (ok u, w') e s = s
    sent_wire (err x, w') e s = cc
