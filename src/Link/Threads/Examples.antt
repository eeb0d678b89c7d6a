-- ===== src/Link/Threads/Examples.antt =====
-- Two threads on one transport.
use midi2pwmv2_libcomm.Common.{
  ℕ, ◌≡◌, refl, arith, ◌==◌, if◌then◌else◌, Bool-cases, inl, inr, some, none, List, [], ◌∷◌, ◌++◌,
  All,
}
use midi2pwmv2_libcomm.Transport.{initial_statics}
use midi2pwmv2_libcomm.Transport.Transmit.{initial_statics-IsStatics}
use midi2pwmv2_libcomm.Link.{put_on_wire}
use midi2pwmv2_libcomm.Link.Threads.{
  Threads, run_threads, Sent, frames_of, payloads_by, held, AreNumberedApart,
}
use midi2pwmv2_libcomm.Link.Threads.Keep.{IsSmall}
use midi2pwmv2_libcomm.Link.Threads.Order.{run_threads-frames}

-- Thread 1 has two payloads, every other thread has one.
abbrev programs : ℕ → List (List ℕ)
programs k = if k == 1 then (7 ∷ 9 ∷ []) ∷ (5 ∷ []) ∷ [] else (6 ∷ []) ∷ []

programs-IsSmall : (k : ℕ) → All IsSmall (programs k)
programs-IsSmall k = elim (Bool-cases (k == 1)) [
  | inl first ↦ rw first (omega arith, (omega arith, tt))
  | inr other ↦ rw other (omega arith, tt)
]

abbrev starting : Threads
starting = record {
  transport = record { write = some put_on_wire; next_sequence = 65535 };
  statics = initial_statics;
  wire = [];
  programs = programs;
  waiting = λ k. none;
}

-- Thread 1 takes its number first, but thread 2 transmits first.
abbrev schedule : List ℕ
schedule = 1 ∷ 2 ∷ 2 ∷ 1 ∷ 1 ∷ []

run_threads-frames_example :
    (sent : List Sent) × ((run_threads schedule starting).wire ≡ [] ++ frames_of sent)
    × ((k : ℕ)
        → payloads_by k sent
            ++ (held ((run_threads schedule starting).waiting k)
                ++ (run_threads schedule starting).programs k)
          ≡ programs k)
    × AreNumberedApart sent
run_threads-frames_example =
    run_threads-frames schedule starting
      (record {
        writes = refl;
        valid = record { positive = omega arith; bounded = omega arith };
        statics = initial_statics-IsStatics;
        idle = λ k. refl;
        small = programs-IsSmall;
      })
      (omega arith)
