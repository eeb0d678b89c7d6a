-- ===== src/Stream/Examples.antt =====
-- A stream processor fed small frames, and processors that hold noise.
use midi2pwmv2_libcomm.Common.{
  ℕ, ◌^◌, ◌≡◌, refl, ap, ◌∙◌, arith, Bool, false, none, some, List, [], ◌∷◌, ◌++◌, append-nil, All,
  IsByte, length, length-append, length-take, length-drop, length-replicate, take-append-drop, take,
  drop, replicate, points,
}
use midi2pwmv2_libcomm.Transport.Frame.{frame, length-frame}
use midi2pwmv2_libcomm.Stream.{
  StreamProcessor, report_error, extract_round, extract_loop, extract_frames, feed,
}
use midi2pwmv2_libcomm.Stream.Pending.{scan, pending, IsProcessor}
use midi2pwmv2_libcomm.Stream.Refine.{Kept, Refines, extract_round-Refines}
use midi2pwmv2_libcomm.Stream.Terminate.{extract_frames_total}
use midi2pwmv2_libcomm.Stream.Hang.{extract_loop_hangs}
use midi2pwmv2_libcomm.Stream.Deliver.{IsSendable, stream}
use midi2pwmv2_libcomm.Stream.Feed.{feed-frames}
use midi2pwmv2_libcomm.Stream.Safety.{Returns, feed-Returns, feed_each-Returns}
use midi2pwmv2_libcomm.Stream.Chunks.{feed_each, feed_each-stream}

-- A callback that keeps the payloads, the last first.
abbrev pub keep : List ℕ → List (List ℕ) → List (List ℕ)
keep payload kept = payload ∷ kept

abbrev pub fresh : StreamProcessor (List (List ℕ))
fresh = record {
  buffer = replicate 4108 0;
  size = 0;
  frame_callback = some keep;
  error_callback = none;
  write_callback = none;
}

pub fresh-IsProcessor : IsProcessor fresh
fresh-IsProcessor = record { capacity = length-replicate {A = ℕ} 4108 0; within = omega arith }

abbrev pub two_bytes : List ℕ
two_bytes = 7 ∷ 9 ∷ []

abbrev pub one_byte : List ℕ
one_byte = 5 ∷ []

abbrev two_frames : List (ℕ × List ℕ)
two_frames = (1, two_bytes) ∷ (2, one_byte) ∷ []

pub two_bytes-IsSendable : IsSendable (1, two_bytes)
two_bytes-IsSendable = record { small = omega arith; bytes = (omega arith, (omega arith, tt)) }

pub one_byte-IsSendable : IsSendable (2, one_byte)
one_byte-IsSendable = record { small = omega arith; bytes = (omega arith, tt) }

length-two_frames : length (stream two_frames) ≡ 27
length-two_frames = omega (
  arith,
  length-append (frame 1 two_bytes) (stream ((2, one_byte) ∷ [])),
  length-append (frame 2 one_byte) [],
  length-frame 1 two_bytes,
  length-frame 2 one_byte,
)

abbrev two_chunks : List (List ℕ)
two_chunks = take 5 (stream two_frames) ∷ drop 5 (stream two_frames) ∷ []

feed_each-stream_example :
    (q : StreamProcessor (List (List ℕ))) × (feed_each (2 ^ 64) two_chunks fresh []
      ≡ some (q, one_byte ∷ two_bytes ∷ []))
    × (pending q ≡ [])
    × Kept fresh q
feed_each-stream_example =
    feed_each-stream (2 ^ 64) 4 keep two_chunks two_frames fresh [] (omega arith) fresh-IsProcessor
      refl
      (
        omega (arith, length-take 5 (stream two_frames), length-two_frames),
        (omega (arith, length-drop 5 (stream two_frames), length-two_frames), tt),
      )
      (
        record { sendable = two_bytes-IsSendable; bounded = omega arith },
        (record { sendable = one_byte-IsSendable; bounded = omega arith }, tt),
      )
      (omega (arith, length-frame 1 two_bytes))
      (ap (λ r. take 5 (stream two_frames) ++ r) (append-nil (drop 5 (stream two_frames)))
        ∙ take-append-drop 5 (stream two_frames))

abbrev frame_and_part : List ℕ
frame_and_part = stream ((1, two_bytes) ∷ []) ++ take 3 (frame 2 one_byte)

length-frame_and_part : length frame_and_part ≡ 17
length-frame_and_part = omega (
  arith,
  length-append (stream ((1, two_bytes) ∷ [])) (take 3 (frame 2 one_byte)),
  length-append (frame 1 two_bytes) [],
  length-frame 1 two_bytes,
  length-take 3 (frame 2 one_byte),
  length-frame 2 one_byte,
)

feed-frames_example :
    (q : StreamProcessor (List (List ℕ))) × (feed (2 ^ 64) fresh (points frame_and_part) []
      ≡ some (q, two_bytes ∷ []))
    × (pending q ≡ take 3 (frame 2 one_byte))
    × Kept fresh q
feed-frames_example =
    feed-frames (2 ^ 64) keep fresh frame_and_part ((1, two_bytes) ∷ []) (2, one_byte)
      (take 3 (frame 2 one_byte)) (drop 3 (frame 2 one_byte)) [] (omega arith) fresh-IsProcessor
      refl (omega (arith, length-frame_and_part)) (omega (arith, length-frame_and_part))
      (two_bytes-IsSendable, tt) one_byte-IsSendable refl (take-append-drop 3 (frame 2 one_byte))
      (omega (arith, length-drop 3 (frame 2 one_byte), length-frame 2 one_byte))

-- Twelve bytes that start no frame; the size field is 0xFFFFFFF4.
abbrev noise : List ℕ
noise = 9 ∷ 9 ∷ 9 ∷ 9 ∷ 0xF4 ∷ 0xFF ∷ 0xFF ∷ 0xFF ∷ 9 ∷ 9 ∷ 9 ∷ 9 ∷ []

abbrev noisy : StreamProcessor (List (List ℕ))
noisy = record fresh { buffer = noise ++ replicate 4096 0; size = 12 }

noisy-IsProcessor : IsProcessor noisy
noisy-IsProcessor = record {
  capacity = omega (arith, length-append noise (replicate 4096 0), length-replicate {A = ℕ} 4096 0);
  within = omega arith;
}

noise-IsByte : All IsByte noise
noise-IsByte = omega arith

extract_round-Refines_example :
    Refines noisy
      (extract_round (2 ^ 64) keep noisy [])
      (scan (2 ^ 64) keep (report_error noisy) (pending noisy) [])
extract_round-Refines_example = extract_round-Refines (2 ^ 64) keep noisy noisy-IsProcessor []

extract_frames_total_example :
    (b : Bool) × (q : StreamProcessor (List (List ℕ))) × (t : List (List ℕ)) × (extract_frames
        (2 ^ 64)
        keep
        noisy
        []
      ≡ some (b, q, t))
    × Kept noisy q
    × All IsByte (pending q)
extract_frames_total_example =
    extract_frames_total (2 ^ 64) keep noisy [] (omega arith) noisy-IsProcessor noise-IsByte

extract_loop_hangs_example : extract_loop 1000 (2 ^ 32) keep false noisy [] ≡ none
extract_loop_hangs_example =
    extract_loop_hangs 1000 keep false noisy [] noisy-IsProcessor (omega arith) refl (omega arith)

feed-Returns_example : Returns noisy (feed (2 ^ 64) noisy (points noise) [])
feed-Returns_example =
    feed-Returns (2 ^ 64) (omega arith) noisy (points noise) []
      (record { sound = noisy-IsProcessor; bytes = noise-IsByte }) noise-IsByte

feed_each-Returns_example : Returns noisy (feed_each (2 ^ 64) (noise ∷ one_byte ∷ []) noisy [])
feed_each-Returns_example =
    feed_each-Returns (2 ^ 64) (omega arith) (noise ∷ one_byte ∷ []) noisy []
      (record { sound = noisy-IsProcessor; bytes = noise-IsByte })
      (noise-IsByte, ((omega arith, tt), tt))
