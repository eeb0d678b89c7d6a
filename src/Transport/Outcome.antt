-- ===== src/Transport/Outcome.antt =====
-- `Send` on every branch: what it answers and what it changes.
use midi2pwmv2_libcomm.Common.{
  ℕ, zero, suc, ◌<◌, ◌≡◌, ◌⊎◌, refl, sym, ap, ◌∙◌, arith, Bool, false, ltb, Bool-cases,
  Option-cases, if◌then◌else◌, Option, none, some, List, [], length, inl, inr, Span, null, points,
}
use midi2pwmv2_libcomm.Transport.{
  max_frame_size, data_frame, FrameTransport, Statics, send, send_allocated, transmit_frame,
  transmit_with, fill_transmit_buffer, WriteCallback,
}
use midi2pwmv2_libcomm.Transport.Frame.{frame}
use midi2pwmv2_libcomm.Transport.Transmit.{IsStatics, turned, transmit_refused}
use midi2pwmv2_libcomm.Transport.Sequence.{
  IsSequence, successor, next_sequence_lem, send-frame, send_null,
}

module _ {W : Type 0} where
  -- The transport after its number was used.
  abbrev counted : FrameTransport W → FrameTransport W
  counted t = record t { next_sequence = successor t.next_sequence }

  -- Bytes are handed to a callback as one frame if there is a callback and they are at most 4096; the
  -- number is used up in any case.
  abbrev bytes_outcome :
      Option (WriteCallback W)
      → FrameTransport W
      → List ℕ
      → Statics
      → W
      → Bool × FrameTransport W × Statics × W
  bytes_outcome none t bytes v w = (false, counted t, v, w)
  bytes_outcome (some write) t bytes v w =
      if ltb max_frame_size (length bytes) then (false, counted t, v, w) else (
        (write (frame t.next_sequence bytes) w).0,
        counted t,
        turned t.next_sequence bytes v,
        (write (frame t.next_sequence bytes) w).1,
      )

  -- A null pointer stands for no bytes if the size is 0, and is refused otherwise.
  abbrev pub send_outcome :
      FrameTransport W → Span → Statics → W → Bool × FrameTransport W × Statics × W
  send_outcome t (null zero) v w = bytes_outcome t.write t [] v w
  send_outcome t (null (suc n)) v w = (false, t, v, w)
  send_outcome t (points bytes) v w = bytes_outcome t.write t bytes v w

  send_refused :
      (t : FrameTransport W) (bytes : List ℕ) (v : Statics) (w : W)
      → IsSequence t.next_sequence
      → (t.write ≡ none) ⊎ (max_frame_size < length bytes)
      → send t (points bytes) v w ≡ (false, counted t, v, w)
  unfolding send send_allocated
  send_refused t bytes v w valid why = rw (
    next_sequence_lem t valid,
    transmit_refused (counted t) data_frame t.next_sequence (points bytes) v w why,
  )

  send_bytes :
      (t : FrameTransport W) (bytes : List ℕ) (v : Statics) (w : W)
      → IsSequence t.next_sequence
      → IsStatics v
      → send t (points bytes) v w ≡ bytes_outcome t.write t bytes v w
  send_bytes t bytes v w valid h = elim (Option-cases t.write) [
    | inl unset ↦
        send_refused t bytes v w valid (inl unset)
        ∙ sym (ap (λ c. bytes_outcome c t bytes v w) unset)
    | inr (write, set) ↦ elim (Bool-cases (ltb max_frame_size (length bytes))) [
      | inl large ↦
          send_refused t bytes v w valid (inr (ground arith))
          ∙ sym (ap (λ c. bytes_outcome c t bytes v w) set ∙ rw large refl)
      | inr small ↦
          send-frame t write bytes v w set valid h (ground arith)
          ∙ sym (ap (λ c. bytes_outcome c t bytes v w) set ∙ rw small refl)
    ]
  ]

  -- From a valid next number and sound buffers, for any pointer and size: a null pointer with a
  -- size above 0 is refused and nothing changes; anything else uses up the number, and if there is
  -- a callback and there are at most 4096 bytes, then exactly their frame is handed to it, its
  -- answer is returned and the other buffer is next; without a callback or with more bytes the
  -- answer is false and nothing is written.
  pub send-send_outcome :
      (t : FrameTransport W) (payload : Span) (v : Statics) (w : W)
      → IsSequence t.next_sequence
      → IsStatics v
      → send t payload v w ≡ send_outcome t payload v w
  unfolding send send_allocated transmit_frame transmit_with fill_transmit_buffer
  send-send_outcome t (null zero) v w valid h = send_bytes t [] v w valid h
  send-send_outcome t (null (suc n)) v w valid h = send_null t (suc n) v w (omega arith)
  send-send_outcome t (points bytes) v w valid h = send_bytes t bytes v w valid h
