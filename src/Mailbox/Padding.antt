-- ===== src/Mailbox/Padding.antt =====
-- The padding of a mailbox payload.
use inkmail.Base.{
  ℕ, ◌+◌, ◌-◌, ◌%◌, ◌≤◌, ◌<◌, ◌≡◌, refl, ◌++◌, Bytes, length, drop, ok, err, arith, length-append,
  take-append, drop-append, ap, ◌∙◌, sym, append_assoc,
}
use inkmail.Wire.BigEndian.{put_uint32, uint32, uint32-put_uint32, length-put_uint32}
use inkmail.Mailbox.{
  mailbox_padding_size, max_mailbox_payload, target_size, pad, unpad, payload_too_large,
}

-- The padded size is the least multiple of 64 KiB with room for the payload and its length.
target_size_bounds :
    (n : ℕ)
    → n + 4 ≤ max_mailbox_payload
    → (n + 4 ≤ target_size n)
      × (target_size n < n + 4 + mailbox_padding_size)
      × (target_size n ≤ max_mailbox_payload)
      × (target_size n % mailbox_padding_size ≡ 0)
unfolding target_size
target_size_bounds n h = omega arith

module _ (filler : ℕ → Bytes) (exact : (n : ℕ) → length (filler n) ≡ n) where
  length-padded :
      (payload : Bytes) (gap : ℕ)
      → length (payload ++ (filler gap ++ put_uint32 (length payload))) ≡ length payload + gap + 4
  length-padded payload gap = omega (
    arith,
    length-append payload (filler gap ++ put_uint32 (length payload)),
    length-append (filler gap) (put_uint32 (length payload)),
    exact gap,
    length-put_uint32 (length payload),
  )

  trailer :
      (payload : Bytes) (gap : ℕ)
      → drop (length payload + gap) (payload ++ (filler gap ++ put_uint32 (length payload)))
        ≡ put_uint32 (length payload)
  trailer payload gap =
      ap (drop (length payload + gap))
        (sym (append_assoc payload (filler gap) (put_uint32 (length payload))))
      ∙ drop-append (payload ++ filler gap) (put_uint32 (length payload)) (length payload + gap)
          (omega (arith, length-append payload (filler gap), exact gap))

  -- A payload whose length with 4 bytes exceeds 4 MiB is refused.
  pad_refuses :
      (payload : Bytes)
      → max_mailbox_payload < length payload + 4
      → pad filler payload ≡ err payload_too_large
  unfolding pad
  pad_refuses payload large = ground arith

  -- When the random source gives as many bytes as are asked for, a payload that is not empty and has room,
  -- with its 4-byte length, in 4 MiB is padded to a multiple of 64 KiB, which has room for both and is less
  -- than 64 KiB longer than both; and removing the padding gives the payload.
  pub unpad-pad :
      (payload : Bytes)
      → 0 < length payload
      → length payload + 4 ≤ max_mailbox_payload
      → (padded : Bytes) × (pad filler payload ≡ ok padded)
        × (length padded % mailbox_padding_size ≡ 0)
        × (length payload + 4 ≤ length padded)
        × (length padded < length payload + 4 + mailbox_padding_size)
        × (unpad padded ≡ ok payload)
  unfolding pad unpad
  unpad-pad payload nonempty fits =
      let n = length payload in
      let gap = target_size n - 4 - n in
      let padded = payload ++ (filler gap ++ put_uint32 n) in
      let (room, least, bounded, aligned) = target_size_bounds n fits in
      let size : length padded ≡ target_size n = omega (arith, length-padded payload gap) in
      let place : length padded - 4 ≡ n + gap = omega arith in
      let read : uint32 (drop (length padded - 4) padded) ≡ n =
        ap (λ k. uint32 (drop k padded)) place
        ∙ ap uint32 (trailer payload gap)
        ∙ uint32-put_uint32 n (omega arith) in
      let whole = take-append payload (filler gap ++ put_uint32 n) n refl in
      let whole_multiple : length padded % mailbox_padding_size ≡ 0 =
        ap (λ k. k % mailbox_padding_size) size ∙ aligned in
      (
        padded,
        ground arith,
        whole_multiple,
        omega arith,
        omega arith,
        ground (arith, read, size, whole),
      )
