-- ===== src/Transport/Examples.antt =====
-- Small frames sent, received and refused.
use midi2pwmv2_libcomm.Common.{
  ℕ, ◌^◌, ◌≡◌, refl, ap, arith, ◌==◌, if◌then◌else◌, Bool-cases, ◌⊎◌, inl, inr, Bool, true, false,
  some, List, [], ◌∷◌, ◌++◌, All, IsByte, get_or, take, replicate, le_bytes, le_bytes-IsByte,
  points,
}
use midi2pwmv2_libcomm.Crc.{compute_crc32}
use midi2pwmv2_libcomm.Transport.{
  data_frame, initial_statics, buffer_at, FrameTransport, transmit_frame, send, build_frame,
  handle_incoming,
}
use midi2pwmv2_libcomm.Transport.Frame.{body, frame, frame_shape}
use midi2pwmv2_libcomm.Transport.Build.{build_outcome, build_frame-build_outcome}
use midi2pwmv2_libcomm.Transport.Transmit.{
  initial_statics-IsStatics, turned, transmit-frame, frame_survives,
}
use midi2pwmv2_libcomm.Transport.Sequence.{send_each, write_each, send_each-frames}
use midi2pwmv2_libcomm.Transport.Shared.{Wires, write_on, IsOn, send_all, send_all-frames}
use midi2pwmv2_libcomm.Transport.Outcome.{send_outcome, send-send_outcome}
use midi2pwmv2_libcomm.Transport.Packets.{Packet, frame_of, frame_of-IsEquiv}
use mathlib.Core.Equiv.{IsEquiv}
use midi2pwmv2_libcomm.Transport.Receive.{
  IsSizeModulus, handle_incoming-frame, handle_incoming_exact,
}
use midi2pwmv2_libcomm.Transport.Damage.{damaged_frame_refused}

abbrev two_bytes : List ℕ
two_bytes = 7 ∷ 9 ∷ []

abbrev one_byte : List ℕ
one_byte = 5 ∷ []

two_bytes-IsByte : All IsByte two_bytes
two_bytes-IsByte = (omega arith, (omega arith, tt))

-- A callback that keeps what it is given, the last first.
abbrev keep : List ℕ → List (List ℕ) → Bool × List (List ℕ)
keep bytes kept = (true, bytes ∷ kept)

abbrev first_transport : FrameTransport (List (List ℕ))
first_transport = record { write = some keep; next_sequence = 1 }

abbrev last_transport : FrameTransport (List (List ℕ))
last_transport = record { write = some keep; next_sequence = 65535 }

handle_incoming-frame_example :
    handle_incoming (2 ^ 64) (points (frame 1 two_bytes)) (some keep) [] ≡ (true, two_bytes ∷ [])
handle_incoming-frame_example =
    handle_incoming-frame (2 ^ 64) keep [] 1 two_bytes (omega arith) (omega arith) two_bytes-IsByte

handle_incoming_exact_example :
    ((n : ℕ) × (payload : List ℕ) × (two_bytes ≡ frame n payload)
      × (handle_incoming (2 ^ 64) (points two_bytes) (some keep) [] ≡ (true, payload ∷ [])))
    ⊎ (handle_incoming (2 ^ 64) (points two_bytes) (some keep) [] ≡ (false, []))
handle_incoming_exact_example =
    handle_incoming_exact (2 ^ 64) keep [] two_bytes (omega arith) two_bytes-IsByte

abbrev frame_header : List ℕ
frame_header = 1 ∷ 0 ∷ 1 ∷ 0 ∷ 2 ∷ 0 ∷ 0 ∷ 0 ∷ []

abbrev frame_rest : List ℕ
frame_rest = 9 ∷ le_bytes 4 (compute_crc32 (body 1 two_bytes))

damaged_frame_refused_example :
    handle_incoming (2 ^ 64) (points (frame_header ++ (6 ∷ []) ++ frame_rest)) (some keep) []
    ≡ (false, [])
damaged_frame_refused_example =
    damaged_frame_refused (2 ^ 64) 1 two_bytes frame_header (7 ∷ []) (6 ∷ []) frame_rest (some keep)
      [] (omega arith) two_bytes-IsByte
      (
        omega arith,
        (
          omega arith,
          (
            omega arith,
            (omega arith, (omega arith, (omega arith, (omega arith, (omega arith, tt))))),
          ),
        ),
      )
      (omega arith, tt) (omega arith, tt)
      (omega arith, le_bytes-IsByte 4 (compute_crc32 (body 1 two_bytes))) (frame_shape 1 two_bytes)
      refl (omega arith) (λ e. omega (arith, ap (λ (r : List ℕ). get_or r 0 0) e))

transmit-frame_example :
    transmit_frame first_transport data_frame 1 (points two_bytes) initial_statics []
    ≡ (true, turned 1 two_bytes initial_statics, frame 1 two_bytes ∷ [])
transmit-frame_example =
    transmit-frame keep first_transport 1 two_bytes initial_statics [] refl
      initial_statics-IsStatics (omega arith)

frame_survives_example :
    take 14 (
      buffer_at
        (transmit_frame first_transport data_frame 2
          (points one_byte)
          (transmit_frame first_transport data_frame 1 (points two_bytes) initial_statics []).1
          []).1
        initial_statics.active_buffer_index)
    ≡ frame 1 two_bytes
frame_survives_example =
    frame_survives first_transport keep 1 2 two_bytes one_byte initial_statics [] [] refl
      initial_statics-IsStatics (omega arith) (omega arith)

build_frame-build_outcome_example :
    build_frame 1 (points two_bytes) (points (replicate 20 0))
    ≡ build_outcome 1 (points two_bytes) (points (replicate 20 0))
build_frame-build_outcome_example =
    build_frame-build_outcome 1 (points two_bytes) (points (replicate 20 0))

send-send_outcome_example :
    send first_transport (points (replicate 4097 0)) initial_statics []
    ≡ send_outcome first_transport (points (replicate 4097 0)) initial_statics []
send-send_outcome_example =
    send-send_outcome first_transport (points (replicate 4097 0)) initial_statics []
      (record { positive = omega arith; bounded = omega arith }) initial_statics-IsStatics

-- The width of the host's sizes.
wide_host : IsSizeModulus (2 ^ 64)
wide_host = omega arith

frame_of-IsEquiv_example :
    IsEquiv (frame_of (2 ^ 64) wide_host)
    × ((p : Packet)
        → handle_incoming (2 ^ 64) (points (frame_of (2 ^ 64) wide_host p).0) (some keep) []
          ≡ (true, p.0.1 ∷ []))
frame_of-IsEquiv_example = frame_of-IsEquiv (2 ^ 64) wide_host keep []

send_each-frames_example :
    ((send_each last_transport (two_bytes ∷ one_byte ∷ []) initial_statics []).2
      ≡ write_each keep 65535 (two_bytes ∷ one_byte ∷ []) [])
    × ((send_each last_transport (two_bytes ∷ one_byte ∷ []) initial_statics []).0.next_sequence
        ≡ 2)
send_each-frames_example =
    send_each-frames keep last_transport (two_bytes ∷ one_byte ∷ []) initial_statics [] refl
      (record { positive = omega arith; bounded = omega arith }) initial_statics-IsStatics
      (omega arith, (omega arith, tt))

-- Two lines, and the same transport for all the others.
abbrev line_transports : ℕ → FrameTransport Wires
line_transports i = record {
  write = some (write_on i);
  next_sequence = if i == 1 then 65535 else 7;
}

line_transports-IsOn : (i : ℕ) → IsOn i (line_transports i)
line_transports-IsOn i = elim (Bool-cases (i == 1)) [
  | inl first ↦ record {
    writes = refl;
    valid = rw first (record { positive = omega arith; bounded = omega arith });
  }
  | inr other ↦ record {
    writes = refl;
    valid = rw other (record { positive = omega arith; bounded = omega arith });
  }
]

abbrev mixed_sends : List (ℕ × List ℕ)
mixed_sends = (1, two_bytes) ∷ (2, 5 ∷ []) ∷ (1, 6 ∷ []) ∷ []

send_all-frames_example :
    send_all line_transports mixed_sends initial_statics (λ i. []) 1
    ≡ frame 65535 two_bytes ++ (frame 1 (6 ∷ []) ++ [])
send_all-frames_example =
    send_all-frames line_transports mixed_sends initial_statics (λ i. []) 1 line_transports-IsOn
      initial_statics-IsStatics (omega arith, (omega arith, (omega arith, tt)))
