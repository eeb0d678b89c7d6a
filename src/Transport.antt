-- ===== src/Transport.antt =====
-- include/libcomm/frame_transport.h and src/frame_transport.cpp: frames of a header, a payload and a
-- CRC. `W` is the world that a write callback acts on, `S` the state that a data handler acts on; a
-- delegate that is not set is `none`. The host is little-endian, where `flatbuffers::EndianScalar`
-- returns its argument. `size_modulus` is 2 to the width of `std::size_t`.
pub mod Frame
pub mod Build
pub mod Transmit
pub mod Sequence
pub mod Outcome
pub mod Shared
pub mod Receive
pub mod Damage
pub mod Packets
mod Examples
use midi2pwmv2_libcomm.Common.{
  ℕ, ◌+◌, ◌-◌, ◌%◌, ◌^◌, ◌<◌, ◌==◌, ltb, Bool, true, false, not, ◌&&◌, ◌||◌, if◌then◌else◌, Option,
  none, some, List, [], ◌∷◌, length, get_or, take, drop, replicate, le_bytes, le_word, Span, null,
  points, span_size, store,
}
use midi2pwmv2_libcomm.Crc.{compute_crc32}

abbrev pub header_size : ℕ
header_size = 8

abbrev pub crc_size : ℕ
crc_size = 4

abbrev pub max_frame_size : ℕ
max_frame_size = 4096

abbrev pub protocol_version : ℕ
protocol_version = 1

pub data FrameType : Type 0 where
  data_frame : FrameType

abbrev frame_type_byte : FrameType → ℕ
frame_type_byte data_frame = 0

abbrev pub WriteCallback : Type 0 → Type 0
WriteCallback W = List ℕ → W → Bool × W

abbrev pub DataHandler : Type 0 → Type 0
DataHandler S = List ℕ → S → Bool × S

-- The static variables of `TransmitFrame`, which all transports share.
pub record Statics : Type 0 where
  pub first : List ℕ
  pub second : List ℕ
  pub active_buffer_index : ℕ

abbrev pub maximum_total_buffer_size_bytes : ℕ
maximum_total_buffer_size_bytes = header_size + max_frame_size + crc_size

pub initial_statics : Statics
initial_statics = record {
  first = replicate maximum_total_buffer_size_bytes 0;
  second = replicate maximum_total_buffer_size_bytes 0;
  active_buffer_index = 0;
}

abbrev pub buffer_at : Statics → ℕ → List ℕ
buffer_at v index = if index == 0 then v.first else v.second

abbrev pub put_buffer : Statics → ℕ → List ℕ → Statics
put_buffer v index buffer =
    if index == 0 then record v { first = buffer } else record v { second = buffer }

pub record FrameTransport (W : Type 0) : Type 0 where
  pub write : Option (WriteCallback W)
  pub next_sequence : ℕ

pub new_transport : {W : Type 0} → Option (WriteCallback W) → FrameTransport W
new_transport write = record { write = write; next_sequence = 1 }

-- The payload is copied if there is one.
abbrev pub copy_payload : List ℕ → Span → List ℕ
copy_payload buffer (null n) = buffer
copy_payload buffer (points payload) =
    if ltb 0 (length payload) then store buffer header_size payload else buffer

-- The writes of `TransmitFrame` into the buffer that it has chosen.
pub fill_transmit_buffer : FrameType → ℕ → Span → List ℕ → List ℕ
fill_transmit_buffer type sequence_number payload_data buffer =
    let total_transmit_size_bytes = header_size + span_size payload_data + crc_size in
    let version = store buffer 0 (protocol_version ∷ []) in
    let typed = store version 1 (frame_type_byte type ∷ []) in
    let numbered = store typed 2 (le_bytes 2 sequence_number) in
    let sized = store numbered 4 (le_bytes 4 (span_size payload_data)) in
    let loaded = copy_payload sized payload_data in
    let computed_crc32_value = compute_crc32 (take (total_transmit_size_bytes - crc_size) loaded) in
    store loaded (total_transmit_size_bytes - crc_size) (le_bytes 4 computed_crc32_value)

module _ {W : Type 0} where
  transmit_with : WriteCallback W → FrameType → ℕ → Span → Statics → W → Bool × Statics × W
  transmit_with write type sequence_number payload_data v w =
      if ltb max_frame_size (span_size payload_data)
      then (false, v, w)
      else (let index = v.active_buffer_index in
          let buffer = fill_transmit_buffer type sequence_number payload_data (buffer_at v index) in
          let turned = record v { active_buffer_index = (index + 1) % 2 } in
          let (write_succeeded, w') =
            write (take (header_size + span_size payload_data + crc_size) buffer) w in
          (write_succeeded, put_buffer turned index buffer, w'))

  pub transmit_frame : FrameTransport W → FrameType → ℕ → Span → Statics → W → Bool × Statics × W
  transmit_frame t type sequence_number payload_data v w = elim t.write [
    | none ↦ (false, v, w)
    | some write ↦ transmit_with write type sequence_number payload_data v w
  ]

  -- Zero is left out: `++next_sequence_` wraps at 2 ^ 16 and is then raised once more.
  pub next_sequence : FrameTransport W → ℕ × FrameTransport W
  next_sequence t =
      let raised = (t.next_sequence + 1) % 2 ^ 16 in
      let skipped = if raised == 0 then (raised + 1) % 2 ^ 16 else raised in
      (t.next_sequence, record t { next_sequence = skipped })

  send_allocated : FrameTransport W → Span → Statics → W → Bool × FrameTransport W × Statics × W
  send_allocated t payload_data v w =
      let (allocated, t') = next_sequence t in
      let (sent, v', w') = transmit_frame t' data_frame allocated payload_data v w in
      (sent, t', v', w')

  pub send : FrameTransport W → Span → Statics → W → Bool × FrameTransport W × Statics × W
  send t (null n) v w = if ltb 0 n then (false, t, v, w) else send_allocated t (null n) v w
  send t (points payload) v w = send_allocated t (points payload) v w

-- The size of the frame and the buffer afterwards; the capacity is the buffer's size.
pub build_frame : ℕ → Span → Span → ℕ × Span
build_frame sequence_number payload output_buffer =
    let total_size = header_size + span_size payload + crc_size in
    if ltb max_frame_size (span_size payload)
    then (0, output_buffer)
    else if ltb (span_size output_buffer) total_size
    then (0, output_buffer)
    else elim output_buffer [
      | null n ↦ (0, null n)
      | points buffer ↦
          (let version = store buffer 0 (protocol_version ∷ []) in
            let typed = store version 1 (frame_type_byte data_frame ∷ []) in
            let numbered = store typed 2 (le_bytes 2 sequence_number) in
            let sized = store numbered 4 (le_bytes 4 (span_size payload)) in
            let loaded = copy_payload sized payload in
            let crc = compute_crc32 (take (total_size - crc_size) loaded) in
            (total_size, points (store loaded (total_size - crc_size) (le_bytes 4 crc))))
    ]

abbrev minimum_valid_frame_size_bytes : ℕ
minimum_valid_frame_size_bytes = header_size + crc_size

-- The size that the header announces, as a `std::size_t`.
abbrev pub expected_total_size_bytes : ℕ → List ℕ → ℕ
expected_total_size_bytes size_modulus received =
    (header_size + le_word (take 4 (drop 4 received)) + crc_size) % size_modulus

abbrev version_and_size_are_valid : ℕ → List ℕ → Bool
version_and_size_are_valid size_modulus received =
    (get_or received 0 0 == protocol_version)
    && (length received == expected_total_size_bytes size_modulus received)

abbrev crc32_matches : ℕ → List ℕ → Bool
crc32_matches size_modulus received =
    let covered = expected_total_size_bytes size_modulus received - crc_size in
    le_word (take 4 (drop covered received)) == compute_crc32 (take covered received)

module _ {S : Type 0} where
  deliver : Option (DataHandler S) → List ℕ → S → Bool × S
  deliver none payload s = (false, s)
  deliver (some handler) payload s = handler payload s

  pub handle_incoming : ℕ → Span → Option (DataHandler S) → S → Bool × S
  handle_incoming size_modulus (null n) data_handler s = (false, s)
  handle_incoming size_modulus (points received) data_handler s =
      if ltb (length received) minimum_valid_frame_size_bytes
      then (false, s)
      else if not (version_and_size_are_valid size_modulus received)
      then (false, s)
      else if not (crc32_matches size_modulus received)
      then (false, s)
      else if not (get_or received 1 0 == frame_type_byte data_frame)
      then (false, s)
      else deliver data_handler
          (take (le_word (take 4 (drop 4 received))) (drop header_size received)) s
