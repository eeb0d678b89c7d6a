-- ===== src/Transport/Build.antt =====
-- `BuildFrame`: which calls write a frame, and what the buffer holds afterwards.
use midi2pwmv2_libcomm.Common.{
  ℕ, ◌+◌, ◌≤◌, ◌<◌, ◌≡◌, refl, ap, ◌∙◌, arith, ltb, ◌||◌, if◌then◌else◌, Bool-cases, ◌⊎◌, inl, inr,
  List, ◌++◌, drop, length, Span, null, points, span_size,
}
use midi2pwmv2_libcomm.Transport.{
  header_size, crc_size, max_frame_size, data_frame, fill_transmit_buffer, build_frame,
}
use midi2pwmv2_libcomm.Transport.Frame.{frame, payload_of, fill-frame}

-- The two functions that write frames make the same writes.
build_frame-fill :
    (n : ℕ) (payload : Span) (buffer : List ℕ)
    → span_size payload ≤ max_frame_size
    → header_size + span_size payload + crc_size ≤ length buffer
    → build_frame n payload (points buffer) ≡ (
      header_size + span_size payload + crc_size,
      points (fill_transmit_buffer data_frame n payload buffer),
    )
unfolding build_frame fill_transmit_buffer
build_frame-fill n payload buffer small fits = ground arith

-- A payload of at most 4096 bytes that fits the buffer with its header and CRC is written as one
-- frame at the front of the buffer; the rest of the buffer stays as it was.
build_frame-frame :
    (n : ℕ) (payload : Span) (buffer : List ℕ)
    → span_size payload ≤ max_frame_size
    → header_size + span_size payload + crc_size ≤ length buffer
    → build_frame n payload (points buffer) ≡ (
      header_size + span_size payload + crc_size,
      points (
          frame n (payload_of payload buffer)
          ++ drop (header_size + span_size payload + crc_size) buffer),
    )
build_frame-frame n payload buffer small fits =
    build_frame-fill n payload buffer small fits
    ∙ ap {B = ℕ × Span} (λ r. (header_size + span_size payload + crc_size, points r))
        (fill-frame n payload buffer fits)

-- A larger payload, too small a buffer or a null buffer: nothing is written and the size is 0.
build_frame_refused :
    (n : ℕ) (payload output : Span)
    → (max_frame_size < span_size payload)
      ⊎ (span_size output < header_size + span_size payload + crc_size)
      ⊎ ((k : ℕ) × (output ≡ null k))
    → build_frame n payload output ≡ (0, output)
unfolding build_frame
build_frame_refused n payload output h = ground arith

-- The size and the buffer that `BuildFrame` is meant to leave.
abbrev pub build_outcome : ℕ → Span → Span → ℕ × Span
build_outcome n payload (null k) = (0, null k)
build_outcome n payload (points buffer) =
    let total : ℕ = header_size + span_size payload + crc_size in
    if ltb max_frame_size (span_size payload) || ltb (length buffer) total
    then (0, points buffer)
    else (total, points (frame n (payload_of payload buffer) ++ drop total buffer))

-- For every payload and every output buffer: a payload of at most 4096 bytes that fits the buffer with its
-- header and CRC is written as one frame at the front, the size is the frame's, and the rest of the
-- buffer stays as it was; with a larger payload, too small a buffer or a null buffer nothing is
-- written and the size is 0.
pub build_frame-build_outcome :
    (n : ℕ) (payload output : Span) → build_frame n payload output ≡ build_outcome n payload output
build_frame-build_outcome n payload (null k) =
    build_frame_refused n payload (null k) (inr (inr (k, refl)))
build_frame-build_outcome n payload (points buffer) =
    let total : ℕ = header_size + span_size payload + crc_size in
    elim (Bool-cases (ltb max_frame_size (span_size payload))) [
      | inl large ↦ rw large (build_frame_refused n payload (points buffer) (inl (ground arith)))
      | inr small ↦ rw small (elim (Bool-cases (ltb (length buffer) total)) [
        | inl tight ↦
            rw tight (build_frame_refused n payload (points buffer) (inr (inl (ground arith))))
        | inr fits ↦ rw fits (build_frame-frame n payload buffer (ground arith) (ground arith))
      ])
    ]
