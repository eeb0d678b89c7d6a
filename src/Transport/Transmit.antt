-- ===== src/Transport/Transmit.antt =====
-- `TransmitFrame` and its two static buffers.
use midi2pwmv2_libcomm.Common.{
  ℕ, ◌+◌, ◌%◌, ◌≤◌, ◌<◌, ◌≡◌, arith, false, ltb, ◌⊎◌, some, none, List, ◌++◌, drop, take,
  take_append, length, length-append, length-replicate, length-drop, Span, points, span_size,
}
use midi2pwmv2_libcomm.Transport.{
  header_size, crc_size, max_frame_size, maximum_total_buffer_size_bytes, FrameType, data_frame,
  WriteCallback, Statics, initial_statics, buffer_at, put_buffer, FrameTransport,
  fill_transmit_buffer, transmit_with, transmit_frame,
}
use midi2pwmv2_libcomm.Transport.Frame.{frame, fill-frame, length-frame}

-- Both buffers have their full size.
pub record IsStatics (v : Statics) : Type 0 where
  pub first_size : length v.first ≡ maximum_total_buffer_size_bytes
  pub second_size : length v.second ≡ maximum_total_buffer_size_bytes
  pub index_bound : v.active_buffer_index < 2

pub initial_statics-IsStatics : IsStatics initial_statics
unfolding initial_statics
initial_statics-IsStatics = record {
  first_size = length-replicate {A = ℕ} maximum_total_buffer_size_bytes 0;
  second_size = length-replicate {A = ℕ} maximum_total_buffer_size_bytes 0;
  index_bound = omega arith;
}

length-buffer_at :
    (v : Statics) (i : ℕ) → IsStatics v → length (buffer_at v i) ≡ maximum_total_buffer_size_bytes
length-buffer_at v i h = ground arith

-- The buffer after a frame was written over it.
unfoldable pub filled : ℕ → List ℕ → List ℕ → List ℕ
filled n payload buffer = frame n payload ++ drop (header_size + length payload + crc_size) buffer

-- The statics after a transmission: the other buffer is next.
unfoldable pub turned : ℕ → List ℕ → Statics → Statics
turned n payload v =
    put_buffer (record v { active_buffer_index = (v.active_buffer_index + 1) % 2 })
      v.active_buffer_index (filled n payload (buffer_at v v.active_buffer_index))

take-filled :
    (n : ℕ) (payload buffer : List ℕ)
    → take (header_size + length payload + crc_size) (filled n payload buffer) ≡ frame n payload
unfolding filled
take-filled n payload buffer =
    take_append _ (frame n payload) (drop (header_size + length payload + crc_size) buffer)
      (omega (arith, length-frame n payload))

length-filled :
    (n : ℕ) (payload buffer : List ℕ)
    → header_size + length payload + crc_size ≤ length buffer
    → length (filled n payload buffer) ≡ length buffer
unfolding filled
length-filled n payload buffer h = omega (
  arith,
  length-append (frame n payload) (drop (header_size + length payload + crc_size) buffer),
  length-frame n payload,
  length-drop (header_size + length payload + crc_size) buffer,
)

module _ {W : Type 0} (write : WriteCallback W) where
  transmit_with-frame :
      (n : ℕ) (payload : List ℕ) (v : Statics) (w : W)
      → IsStatics v
      → length payload ≤ max_frame_size
      → transmit_with write data_frame n (points payload) v w
        ≡ ((write (frame n payload) w).0, turned n payload v, (write (frame n payload) w).1)
  unfolding transmit_with turned
  transmit_with-frame n payload v w h small =
      let fits : ltb max_frame_size (length payload) ≡ false = ground arith in
      let buffer : List ℕ = buffer_at v v.active_buffer_index in
      let written : fill_transmit_buffer data_frame n (points payload) buffer
          ≡ filled n payload buffer =
        unfold filled in
        fill-frame n (points payload) buffer
          (omega (arith, length-buffer_at v v.active_buffer_index h)) in
      rw (fits, written, take-filled n payload buffer)

  -- With a write callback set, a payload of at most 4096 bytes is handed to it as exactly its frame,
  -- whatever the static buffers hold, and the answer is the callback's. The buffer that was used holds
  -- the frame, the other one is untouched, and the next call uses that one.
  pub transmit-frame :
      (t : FrameTransport W) (n : ℕ) (payload : List ℕ) (v : Statics) (w : W)
      → t.write ≡ some write
      → IsStatics v
      → length payload ≤ max_frame_size
      → transmit_frame t data_frame n (points payload) v w
        ≡ ((write (frame n payload) w).0, turned n payload v, (write (frame n payload) w).1)
  unfolding transmit_frame
  transmit-frame t n payload v w set h small =
      rw (set, transmit_frame) (transmit_with-frame n payload v w h small)

-- Without a callback, or with a larger payload, nothing is written and nothing changes.
pub transmit_refused :
    {W : Type 0} (t : FrameTransport W) (type : FrameType) (n : ℕ) (payload : Span) (v : Statics)
    (w : W)
    → (t.write ≡ none) ⊎ (max_frame_size < span_size payload)
    → transmit_frame t type n payload v w ≡ (false, v, w)
unfolding transmit_frame transmit_with
transmit_refused t type n payload v w h = ground arith

pub turned-IsStatics :
    (n : ℕ) (payload : List ℕ) (v : Statics)
    → IsStatics v
    → length payload ≤ max_frame_size
    → IsStatics (turned n payload v)
unfolding turned
turned-IsStatics n payload v h small =
    ground (arith, length-filled n payload v.first, length-filled n payload v.second)

-- The next transmission writes into the other buffer.
turned_keeps :
    (n m : ℕ) (payload next : List ℕ) (v : Statics)
    → IsStatics v
    → buffer_at (turned m next (turned n payload v)) v.active_buffer_index
      ≡ filled n payload (buffer_at v v.active_buffer_index)
unfolding turned
turned_keeps n m payload next v h = ground arith

module _ {W : Type 0} (t : FrameTransport W) (write : WriteCallback W) where
  -- After two successful calls the first frame still stands whole at the front of the buffer that was
  -- handed to the callback for it, whatever the callback did.
  pub frame_survives :
      (n m : ℕ) (payload next : List ℕ) (v : Statics) (w w' : W)
      → t.write ≡ some write
      → IsStatics v
      → length payload ≤ max_frame_size
      → length next ≤ max_frame_size
      → let once = (transmit_frame t data_frame n (points payload) v w).1 in
        let twice = (transmit_frame t data_frame m (points next) once w').1 in
        take (header_size + length payload + crc_size) (buffer_at twice v.active_buffer_index)
        ≡ frame n payload
  frame_survives n m payload next v w w' set h small small' =
      rw
        (
          transmit-frame write t n payload v w set h small,
          transmit-frame write t m next (turned n payload v) w' set
              (turned-IsStatics n payload v h small) small',
          turned_keeps n m payload next v h,
        )
        (take-filled n payload (buffer_at v v.active_buffer_index))
