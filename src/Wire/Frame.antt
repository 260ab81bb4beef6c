-- ===== src/Wire/Frame.antt =====
-- `writeFrame`, `writeAll`, `readFrame` and `readFrameLimit`. A connection that is written to is what
-- it does with the coming calls of `Write`, and the bytes that it has taken; one that is read from
-- is the bytes still to come, which `io.ReadFull` takes from the front.
pub mod Roundtrip
use inkmail.Base.{
  ℕ, zero, suc, ◌+◌, ◌*◌, ◌%◌, Bool, ◌||◌, List, [], ◌∷◌, ◌++◌, Option, none, some, ltb, ◌==◌,
  if◌then◌else◌, Bytes, codes, same, not, length, take, drop, Result, ok, err, reject_if, ◌>>=◌,
  ◌>>◌,
}
use inkmail.Wire.BigEndian.{put_uint32, uint32}

abbrev pub magic : Bytes
magic = codes "INKM"

abbrev pub max_frame_size : ℕ
max_frame_size = 4194304

abbrev pub max_handshake_frame_size : ℕ
max_handshake_frame_size = 65536

pub data FrameError : Type 0 where
  frame_too_large invalid_magic : FrameError
  write_failed short_write : FrameError
  eof unexpected_eof : FrameError

-- What one call of `Write` does: it fails and takes nothing, or it takes at most so many bytes.
abbrev pub Script : Type 0
Script = List (Option ℕ)

pub record Writer : Type 0 where
  pub script : Script
  pub wire : Bytes

abbrev writer : Script → Bytes → Writer
writer script wire = record { script = script; wire = wire }

-- The loop of `writeAll`; when the script has ended, a call takes everything.
unfoldable pub write_loop : Script → Bytes → Bytes → Result FrameError (Unit {0}) × Writer
write_loop script wire [] = (ok tt, writer script wire)
write_loop [] wire (x ∷ xs) = (ok tt, writer [] (wire ++ x ∷ xs))
write_loop (none ∷ script) wire (x ∷ xs) = (err write_failed, writer script wire)
write_loop (some zero ∷ script) wire (x ∷ xs) = (err short_write, writer script wire)
write_loop (some (suc n) ∷ script) wire (x ∷ xs) =
    write_loop script (wire ++ take (suc n) (x ∷ xs)) (drop n xs)

unfoldable pub write_all : Bytes → Writer → Result FrameError (Unit {0}) × Writer
unfolding write_loop
write_all bytes w = write_loop w.script w.wire bytes

-- `if err := writeAll(conn, bytes); err != nil { return err }`, then the rest.
infixr 5 ◌then_write◌
abbrev ◌then_write◌ :
    Result FrameError (Unit {0}) × Writer → Bytes → Result FrameError (Unit {0}) × Writer
◌then_write◌ (ok u, w) bytes = write_all bytes w
◌then_write◌ (err e, w) bytes = (err e, w)

unfoldable pub write_frame : Bytes → Writer → Result FrameError (Unit {0}) × Writer
unfolding write_all
write_frame payload w =
    if ltb max_frame_size (length payload)
    then (err frame_too_large, w)
    else ◌then_write◌ (◌then_write◌ (write_all magic w) (put_uint32 (length payload % 4294967296)))
        payload

-- `io.ReadFull`: exactly `n` bytes, the end of the stream, or an end in the middle.
unfoldable pub read_full : ℕ → Bytes → Result FrameError (Bytes × Bytes)
read_full n [] = if n == 0 then ok ([], []) else err eof
read_full n (x ∷ xs) =
    if ltb (length (x ∷ xs)) n then err unexpected_eof else ok (take n (x ∷ xs), drop n (x ∷ xs))

-- The checks on the header, and the payload with what is left of the stream.
unfoldable pub read_payload : ℕ → Bytes × Bytes → Result FrameError (Bytes × Bytes)
read_payload limit (header, rest) = do
  reject_if (not (same (take 4 header) magic)) invalid_magic
  let size = uint32 (drop 4 header)
  reject_if (ltb max_frame_size size || ltb limit size) frame_too_large
  read_full size rest

unfoldable pub read_frame_limit : ℕ → Bytes → Result FrameError (Bytes × Bytes)
unfolding read_payload
read_frame_limit limit stream = read_full 8 stream >>= read_payload limit

unfoldable pub read_frame : Bytes → Result FrameError (Bytes × Bytes)
unfolding read_frame_limit
read_frame stream = read_frame_limit max_frame_size stream
