-- ===== src/Link/Examples.antt =====
-- Two payloads over a link, in two chunks.
use midi2pwmv2_libcomm.Common.{
  ℕ, ◌^◌, ◌≡◌, refl, ap, ◌∙◌, arith, some, none, List, [], ◌∷◌, ◌++◌, append-nil, length,
  length-append, length-take, length-drop, length-replicate, take, drop, replicate,
  take-append-drop,
}
use midi2pwmv2_libcomm.Transport.{FrameTransport, initial_statics}
use midi2pwmv2_libcomm.Transport.Frame.{frame, length-frame}
use midi2pwmv2_libcomm.Transport.Transmit.{initial_statics-IsStatics}
use midi2pwmv2_libcomm.Transport.Sequence.{IsSequence, send_each, write_each, send_each-frames}
use midi2pwmv2_libcomm.Stream.{StreamProcessor}
use midi2pwmv2_libcomm.Stream.Pending.{pending, IsProcessor}
use midi2pwmv2_libcomm.Stream.Refine.{Kept}
use midi2pwmv2_libcomm.Stream.Chunks.{feed_each}
use midi2pwmv2_libcomm.Link.{put_on_wire, feed_each-send_each}

abbrev two_bytes : List ℕ
two_bytes = 7 ∷ 9 ∷ []

abbrev one_byte : List ℕ
one_byte = 5 ∷ []

abbrev sender : FrameTransport (List ℕ)
sender = record { write = some put_on_wire; next_sequence = 65535 }

sender-IsSequence : IsSequence 65535
sender-IsSequence = record { positive = omega arith; bounded = omega arith }

abbrev wire : List ℕ
wire = (send_each sender (two_bytes ∷ one_byte ∷ []) initial_statics []).2

length-wire : length wire ≡ 27
unfolding write_each
length-wire =
    let (written, _) =
      send_each-frames put_on_wire sender (two_bytes ∷ one_byte ∷ []) initial_statics [] refl
        sender-IsSequence initial_statics-IsStatics (omega arith, (omega arith, tt)) in
    ap length written
    ∙ omega (
      arith,
      length-append (frame 65535 two_bytes) (frame 1 one_byte),
      length-frame 65535 two_bytes,
      length-frame 1 one_byte,
    )

abbrev keep : List ℕ → List (List ℕ) → List (List ℕ)
keep payload kept = payload ∷ kept

abbrev receiver : StreamProcessor (List (List ℕ))
receiver = record {
  buffer = replicate 4108 0;
  size = 0;
  frame_callback = some keep;
  error_callback = none;
  write_callback = none;
}

receiver-IsProcessor : IsProcessor receiver
receiver-IsProcessor = record { capacity = length-replicate {A = ℕ} 4108 0; within = omega arith }

feed_each-send_each_example :
    (q : StreamProcessor (List (List ℕ))) × (feed_each
        (2 ^ 32)
        (take 20 wire ∷ drop 20 wire ∷ [])
        receiver
        []
      ≡ some (q, one_byte ∷ two_bytes ∷ []))
    × (pending q ≡ [])
    × Kept receiver q
feed_each-send_each_example =
    feed_each-send_each (2 ^ 32) 2 sender initial_statics (two_bytes ∷ one_byte ∷ [])
      (take 20 wire ∷ drop 20 wire ∷ []) keep receiver [] (omega arith) (omega arith) refl
      sender-IsSequence initial_statics-IsStatics
      (
        record { bounded = omega arith; bytes = (omega arith, (omega arith, tt)) },
        (record { bounded = omega arith; bytes = (omega arith, tt) }, tt),
      )
      (
        omega (arith, length-take 20 wire, length-wire),
        (omega (arith, length-drop 20 wire, length-wire), tt),
      )
      (ap (λ r. take 20 wire ++ r) (append-nil (drop 20 wire)) ∙ take-append-drop 20 wire)
      receiver-IsProcessor refl refl
