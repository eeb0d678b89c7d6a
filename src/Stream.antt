-- ===== src/Stream.antt =====
-- include/libcomm/stream_processor.h and src/stream_processor.cpp: frames cut out of a byte stream.
-- `S` is the state that the callbacks act on; they do not call the processor back. The message that an
-- error callback also gets is fixed by the error's type and left out. A loop that runs out of fuel
-- returns `none`.
pub mod Pending
pub mod Refine
pub mod Loop
pub mod Terminate
pub mod Hang
pub mod Deliver
pub mod Feed
pub mod Chunks
pub mod Safety
pub mod Damaged
pub mod Recover
pub mod Noise
pub mod Waiting
pub mod Bytewise
pub mod Examples
use midi2pwmv2_libcomm.Common.{
  ℕ, zero, suc, ◌+◌, ◌-◌, ◌<◌, ◌==◌, ltb, Bool, true, false, if◌then◌else◌, Option, none, some,
  List, length, get_or, take, drop, replicate, le_word, Span, null, points, store,
}
use midi2pwmv2_libcomm.Transport.{
  header_size, crc_size, max_frame_size, protocol_version, WriteCallback, expected_total_size_bytes,
  handle_incoming,
}

abbrev pub buffer_capacity : ℕ
buffer_capacity = header_size + max_frame_size + crc_size

abbrev pub minimum_frame_size : ℕ
minimum_frame_size = header_size + crc_size

pub data ErrorType : Type 0 where
  buffer_overflow invalid_frame_size crc_failure invalid_header sync_recovery_attempt : ErrorType

abbrev pub FrameCallback : Type 0 → Type 0
FrameCallback S = List ℕ → S → S

abbrev ErrorCallback : Type 0 → Type 0
ErrorCallback S = ErrorType → S → S

-- `buffer` is the whole array; the bytes from `size` on are stale.
pub record StreamProcessor (S : Type 0) : Type 0 where
  pub buffer : List ℕ
  pub size : ℕ
  pub frame_callback : Option (FrameCallback S)
  pub error_callback : Option (ErrorCallback S)
  pub write_callback : Option (WriteCallback S)

-- The position of the first version byte, in the `n` places from `search_pos` on.
pub find_version : ℕ → ℕ → List ℕ → Option ℕ
find_version zero search_pos buffer = none
find_version (suc n) search_pos buffer =
    if get_or buffer search_pos 0 == protocol_version
    then some search_pos
    else find_version n (search_pos + 1) buffer

-- What one round of the loop of `extractFrames` comes to.
pub data Round (S : Type 0) : Type 0 where
  breaks : StreamProcessor S → S → Round S
  continues : Bool → StreamProcessor S → S → Round S

module _ {S : Type 0} where
  new_stream_processor : Option (WriteCallback S) → StreamProcessor S
  new_stream_processor write = record {
    buffer = replicate buffer_capacity 0;
    size = 0;
    frame_callback = none;
    error_callback = none;
    write_callback = write;
  }

  set_frame_callback : StreamProcessor S → Option (FrameCallback S) → StreamProcessor S
  set_frame_callback p callback = record p { frame_callback = callback }

  set_error_callback : StreamProcessor S → Option (ErrorCallback S) → StreamProcessor S
  set_error_callback p callback = record p { error_callback = callback }

  get_buffer_usage : StreamProcessor S → ℕ
  get_buffer_usage p = p.size

  pub reset : StreamProcessor S → StreamProcessor S
  reset p = record p { size = 0 }

  pub report_error : StreamProcessor S → ErrorType → S → S
  report_error p type s = elim p.error_callback [ none ↦ s | some callback ↦ callback type s ]

  -- The bytes from `from` up to `size` are moved to the start of the buffer.
  abbrev pub move_to_start : StreamProcessor S → ℕ → StreamProcessor S
  move_to_start p from = record p {
    buffer = store p.buffer 0 (take (p.size - from) (drop from p.buffer));
    size = p.size - from;
  }

  pub try_sync : StreamProcessor S → S → Bool × StreamProcessor S × S
  try_sync p s =
      let s' = report_error p sync_recovery_attempt s in
      elim (find_version (p.size - 1) 1 p.buffer) [
        | none ↦ (false, p, s')
        | some search_pos ↦ (true, move_to_start p search_pos, s')
      ]

  -- The frame at the start is taken off; an empty rest is not copied.
  abbrev pub consume : StreamProcessor S → ℕ → StreamProcessor S
  consume p expected =
      if ltb 0 (p.size - expected)
      then move_to_start p expected
      else record p { size = p.size - expected }

  after_oversize : StreamProcessor S → S → Round S
  after_oversize p s =
      let (synced, p', s') = try_sync p (report_error p invalid_frame_size s) in
      if synced then continues false p' s' else breaks (record p' { size = 0 }) s'

  after_failure : StreamProcessor S → ℕ → S → Round S
  after_failure p expected s =
      let (synced, p', s') = try_sync p (report_error p crc_failure s) in
      if synced then continues false p' s' else continues false (consume p' expected) s'

  process_frame : ℕ → FrameCallback S → StreamProcessor S → ℕ → S → Round S
  process_frame size_modulus callback p expected s =
      let (processed, s') =
        handle_incoming size_modulus (points (take expected p.buffer))
          (some (λ payload t. (true, callback payload t))) s in
      if processed then continues true (consume p expected) s' else after_failure p expected s'

  -- One round: `breaks` ends the loop.
  pub extract_round : ℕ → FrameCallback S → StreamProcessor S → S → Round S
  extract_round size_modulus callback p s =
      let expected = expected_total_size_bytes size_modulus p.buffer in
      if ltb p.size header_size
      then breaks p s
      else if ltb buffer_capacity expected
      then after_oversize p s
      else if ltb p.size minimum_frame_size
      then breaks p s
      else if ltb p.size expected
      then breaks p s
      else process_frame size_modulus callback p expected s

  -- The loop of `extractFrames`; the flag is `extractedAny`.
  pub extract_loop :
      ℕ → ℕ → FrameCallback S → Bool → StreamProcessor S → S → Option (Bool × StreamProcessor S × S)
  extract_loop zero size_modulus callback extracted_any p s = none
  extract_loop (suc fuel) size_modulus callback extracted_any p s =
      elim (extract_round size_modulus callback p s) [
        | breaks p' s' ↦ some (extracted_any, p', s')
        | continues extracted p' s' ↦
            extract_loop fuel size_modulus callback (if extracted then true else extracted_any) p'
              s'
      ]

  -- Every round but the last takes a byte at least.
  pub extract_frames :
      ℕ → FrameCallback S → StreamProcessor S → S → Option (Bool × StreamProcessor S × S)
  extract_frames size_modulus callback p s =
      extract_loop (p.size + 1) size_modulus callback false p s

  -- New bytes behind those that are there.
  pub append_bytes : StreamProcessor S → List ℕ → StreamProcessor S
  append_bytes p bytes = record p {
    buffer = store p.buffer p.size bytes;
    size = p.size + length bytes;
  }

  pub extract_into : ℕ → FrameCallback S → StreamProcessor S → S → Option (StreamProcessor S × S)
  extract_into size_modulus callback p s = elim (extract_frames size_modulus callback p s) [
    | none ↦ none
    | some (extracted_any, p', s') ↦ some (p', s')
  ]

  pub accept_bytes :
      ℕ → FrameCallback S → StreamProcessor S → List ℕ → S → Option (StreamProcessor S × S)
  accept_bytes size_modulus callback p bytes s =
      if ltb (length p.buffer - p.size) (length bytes)
      then (let (synced, p', s') = try_sync p (report_error p buffer_overflow s) in
          let recovered = if synced then p' else record p' { size = 0 } in
          if ltb (length recovered.buffer - recovered.size) (length bytes)
          then some (recovered, s')
          else extract_into size_modulus callback (append_bytes recovered bytes) s')
      else extract_into size_modulus callback (append_bytes p bytes) s

  pub feed : ℕ → StreamProcessor S → Span → S → Option (StreamProcessor S × S)
  feed size_modulus p (null n) s = some (p, s)
  feed size_modulus p (points bytes) s =
      if length bytes == 0 then some (p, s) else elim p.frame_callback [
        | none ↦ some (p, report_error p invalid_header s)
        | some callback ↦ accept_bytes size_modulus callback p bytes s
      ]
