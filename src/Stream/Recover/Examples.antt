-- ===== src/Stream/Recover/Examples.antt =====
-- A damaged frame between two others, and noise in front of one.
use midi2pwmv2_libcomm.Common.{
  ℕ, ◌^◌, ◌≡◌, refl, inl, ap, ◌∙◌, arith, none, some, List, [], ◌∷◌, ◌++◌, get_or, le_bytes, length,
  length-append, length-replicate, replicate, points,
}
use midi2pwmv2_libcomm.Crc.{compute_crc32}
use midi2pwmv2_libcomm.Crc.Examples.{frame_value}
use midi2pwmv2_libcomm.Transport.Frame.{header, body, frame, frame_shape, length-frame}
use midi2pwmv2_libcomm.Stream.{StreamProcessor, report_error, feed}
use midi2pwmv2_libcomm.Stream.Pending.{pending}
use midi2pwmv2_libcomm.Stream.Refine.{Kept}
use midi2pwmv2_libcomm.Stream.Deliver.{stream}
use midi2pwmv2_libcomm.Stream.Damaged.{IsDamaged}
use midi2pwmv2_libcomm.Stream.Recover.{feed-damaged}
use midi2pwmv2_libcomm.Stream.Noise.{feed-noise}
use midi2pwmv2_libcomm.Stream.Examples.{
  keep, two_bytes, one_byte, two_bytes-IsSendable, one_byte-IsSendable,
}

two_bytes_crc : compute_crc32 (body 2 two_bytes) ≡ 0x35388B5D
unfolding body header
two_bytes_crc = frame_value

-- The frame of `two_bytes` with number 2, of whose payload the first byte has arrived as 6.
abbrev damaged_header : List ℕ
damaged_header = 1 ∷ 0 ∷ 2 ∷ 0 ∷ 2 ∷ 0 ∷ 0 ∷ 0 ∷ []

abbrev damaged_rest : List ℕ
damaged_rest = 9 ∷ 93 ∷ 139 ∷ 56 ∷ 53 ∷ []

abbrev damaged_frame : List ℕ
damaged_frame = damaged_header ++ (6 ∷ []) ++ damaged_rest

damaged_frame-IsDamaged : IsDamaged 2 two_bytes damaged_frame
damaged_frame-IsDamaged = record {
  before = damaged_header;
  sent = 7 ∷ [];
  got = 6 ∷ [];
  after = damaged_rest;
  original =
      frame_shape 2 two_bytes ∙ ap (λ c. damaged_header ++ (7 ∷ 9 ∷ le_bytes 4 c)) two_bytes_crc;
  damaged = refl;
  header_kept = omega arith;
  same = refl;
  short = omega arith;
  differ = λ e. omega (arith, ap (λ (r : List ℕ). get_or r 0 0) e);
  before_bytes = omega arith;
  sent_bytes = (omega arith, tt);
  got_bytes = (omega arith, tt);
  after_bytes = omega arith;
}

-- A callback that keeps each reported error as a list of its own.
abbrev logging_processor : StreamProcessor (List (List ℕ))
logging_processor = record {
  buffer = replicate 4108 0;
  size = 0;
  frame_callback = some keep;
  error_callback = some (λ type kept. [] ∷ kept);
  write_callback = none;
}

abbrev damaged_chunk : List ℕ
damaged_chunk =
    stream ((1, two_bytes) ∷ []) ++ (damaged_frame ++ (stream ((2, one_byte) ∷ []) ++ []))

length-damaged_chunk : length damaged_chunk ≡ 41
length-damaged_chunk = omega (
  arith,
  length-append (stream ((1, two_bytes) ∷ []))
      (damaged_frame ++ (stream ((2, one_byte) ∷ []) ++ [])),
  length-append damaged_frame (stream ((2, one_byte) ∷ []) ++ []),
  length-append (stream ((2, one_byte) ∷ [])) [],
  length-append (frame 1 two_bytes) [],
  length-append (frame 2 one_byte) [],
  length-frame 1 two_bytes,
  length-frame 2 one_byte,
)

feed-damaged_example :
    (q : StreamProcessor (List (List ℕ))) × (feed
        (2 ^ 32)
        logging_processor
        (points damaged_chunk)
        []
      ≡ some (q, one_byte ∷ [] ∷ [] ∷ two_bytes ∷ []))
    × (pending q ≡ [])
    × Kept logging_processor q
unfolding report_error
feed-damaged_example =
    feed-damaged (2 ^ 32) keep logging_processor damaged_chunk ((1, two_bytes) ∷ [])
      ((2, one_byte) ∷ []) (2, two_bytes) (3, []) damaged_frame [] (frame 3 []) [] (omega arith)
      (record { capacity = length-replicate {A = ℕ} 4108 0; within = omega arith }) refl
      (omega (arith, length-damaged_chunk)) (omega (arith, length-damaged_chunk))
      (two_bytes-IsSendable, tt)
      (record { small = omega arith; bytes = (omega arith, (omega arith, tt)) })
      damaged_frame-IsDamaged (ground arith) (one_byte-IsSendable, tt)
      (record { small = omega arith; bytes = tt }) refl refl (omega (arith, length-frame 3 []))

-- The end of a frame that was not seen from its start.
abbrev noise : List ℕ
noise = 255 ∷ 255 ∷ 255 ∷ 255 ∷ 255 ∷ 255 ∷ 255 ∷ 255 ∷ 255 ∷ []

abbrev noisy_chunk : List ℕ
noisy_chunk = noise ++ (stream ((1, two_bytes) ∷ []) ++ [])

length-noisy_chunk : length noisy_chunk ≡ 23
length-noisy_chunk = omega (
  arith,
  length-append (frame 1 two_bytes) [],
  length-append (stream ((1, two_bytes) ∷ [])) [],
  length-frame 1 two_bytes,
)

feed-noise_example :
    (q : StreamProcessor (List (List ℕ))) × (feed (2 ^ 64) logging_processor (points noisy_chunk) []
      ≡ some (q, two_bytes ∷ [] ∷ [] ∷ []))
    × (pending q ≡ [])
    × Kept logging_processor q
unfolding report_error
feed-noise_example =
    feed-noise (2 ^ 64) keep logging_processor noisy_chunk noise (1, two_bytes) [] (3, []) []
      (frame 3 []) [] (omega arith)
      (record { capacity = length-replicate {A = ℕ} 4108 0; within = omega arith }) refl
      (omega (arith, length-noisy_chunk)) (omega (arith, length-noisy_chunk))
      (record { some_bytes = omega arith; no_version = ground arith }) (two_bytes-IsSendable, tt)
      (record { small = omega arith; bytes = tt }) refl (inl (omega arith)) refl
      (omega (arith, length-frame 3 []))
