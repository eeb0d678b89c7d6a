-- ===== src/Transport/Sequence.antt =====
-- `NextSequence` and `Send`: which sequence numbers the frames carry.
use midi2pwmv2_libcomm.Common.{
  ℕ, ◌+◌, ◌-◌, ◌%◌, ◌^◌, ◌≤◌, ◌<◌, ◌≡◌, refl, ◌∙◌, arith, inr, All, false, some, List, [], ◌∷◌,
  length, null, points,
}
use midi2pwmv2_libcomm.Transport.{
  max_frame_size, data_frame, WriteCallback, Statics, FrameTransport, next_sequence, send,
  send_allocated,
}
use midi2pwmv2_libcomm.Transport.Frame.{frame}
use midi2pwmv2_libcomm.Transport.Transmit.{
  IsStatics, transmit-frame, transmit_refused, turned, turned-IsStatics,
}

-- A usable sequence number: a `std::uint16_t` that is not the reserved 0.
pub record IsSequence (n : ℕ) : Type 0 where
  pub positive : 0 < n
  pub bounded : n < 2 ^ 16

-- The number after `n`, on the cycle of 1 to 65535.
abbrev pub successor : ℕ → ℕ
successor n = n % 65535 + 1

module _ {W : Type 0} where
  -- From a transport whose next number is valid, `next_sequence` allocates that number, and the one
  -- after it on the cycle of 1 to 65535 is next; only the counter changes.
  pub next_sequence_lem :
      (t : FrameTransport W)
      → IsSequence t.next_sequence
      → next_sequence t ≡ (t.next_sequence, record t { next_sequence = successor t.next_sequence })
  unfolding next_sequence
  next_sequence_lem t h = ground arith

  -- An oversized payload is refused with nothing written, but its sequence number is used up.
  send_oversized :
      (t : FrameTransport W) (payload : List ℕ) (v : Statics) (w : W)
      → max_frame_size < length payload
      → send t (points payload) v w ≡ (false, (next_sequence t).1, v, w)
  unfolding send send_allocated
  send_oversized t payload v w h = rw (
      transmit_refused (next_sequence t).1 data_frame (next_sequence t).0 (points payload) v w
        (inr h))

  -- A null payload of a size above 0 is refused before a number is taken.
  pub send_null :
      (t : FrameTransport W) (n : ℕ) (v : Statics) (w : W)
      → 0 < n
      → send t (null n) v w ≡ (false, t, v, w)
  unfolding send
  send_null t n v w h = ground arith

  pub send-frame :
      (t : FrameTransport W) (write : WriteCallback W) (payload : List ℕ) (v : Statics) (w : W)
      → t.write ≡ some write
      → IsSequence t.next_sequence
      → IsStatics v
      → length payload ≤ max_frame_size
      → send t (points payload) v w ≡ (
        (write (frame t.next_sequence payload) w).0,
        record t { next_sequence = successor t.next_sequence },
        turned t.next_sequence payload v,
        (write (frame t.next_sequence payload) w).1,
      )
  unfolding send send_allocated
  send-frame t write payload v w set valid h small = rw (
    next_sequence_lem t valid,
    transmit-frame write (record t { next_sequence = successor t.next_sequence }) t.next_sequence
        payload v w set h small,
  )

  -- Sends of one payload after the other.
  unfoldable pub send_each :
      FrameTransport W → List (List ℕ) → Statics → W → FrameTransport W × Statics × W
  send_each t [] v w = (t, v, w)
  send_each t (payload ∷ rest) v w =
      let (sent, t', v', w') = send t (points payload) v w in send_each t' rest v' w'

  -- The frames of the payloads, handed to the callback in order with consecutive numbers.
  unfoldable pub write_each : WriteCallback W → ℕ → List (List ℕ) → W → W
  write_each write n [] w = w
  write_each write n (payload ∷ rest) w =
      write_each write (successor n) rest (write (frame n payload) w).1

pub successor-IsSequence : (n : ℕ) → IsSequence (successor n)
successor-IsSequence n = omega arith

-- The number after `k` steps on the cycle.
abbrev pub number_after : ℕ → ℕ → ℕ
number_after k n = (n - 1 + k) % 65535 + 1

module _ {W : Type 0} (write : WriteCallback W) where
  -- Any number of sends of payloads of at most 4096 bytes: the callback is given the frames of the
  -- payloads in order, numbered consecutively on the cycle of 1 to 65535, whatever it answers, and
  -- the next number is that many steps further on.
  pub send_each-frames :
      (t : FrameTransport W) (payloads : List (List ℕ)) (v : Statics) (w : W)
      → t.write ≡ some write
      → IsSequence t.next_sequence
      → IsStatics v
      → All (λ payload. length payload ≤ max_frame_size) payloads
      → ((send_each t payloads v w).2 ≡ write_each write t.next_sequence payloads w)
        × ((send_each t payloads v w).0.next_sequence
            ≡ number_after (length payloads) t.next_sequence)
  unfolding send_each write_each
  send_each-frames t [] v w set valid h small = (refl, omega (arith, valid))
  send_each-frames t (payload ∷ rest) v w set valid h small =
      let (written, number) =
        send_each-frames (record t { next_sequence = successor t.next_sequence }) rest
          (turned t.next_sequence payload v) (write (frame t.next_sequence payload) w).1 set
          (successor-IsSequence t.next_sequence)
          (turned-IsStatics t.next_sequence payload v h small.0) small.1 in
      rw (send-frame t write payload v w set valid h small.0, send_each)
        (written, number ∙ omega (arith, valid))
