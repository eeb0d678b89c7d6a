-- ===== src/Stream/Bytewise/Examples.antt =====
-- Noise, one byte at a time.
use midi2pwmv2_libcomm.Common.{ℕ, ◌^◌, ◌≡◌, refl, arith, inl, some, List, [], ◌∷◌}
use midi2pwmv2_libcomm.Stream.{StreamProcessor, report_error}
use midi2pwmv2_libcomm.Stream.Pending.{pending}
use midi2pwmv2_libcomm.Stream.Refine.{Kept}
use midi2pwmv2_libcomm.Stream.Chunks.{feed_each}
use midi2pwmv2_libcomm.Stream.Waiting.{IsWaiting}
use midi2pwmv2_libcomm.Stream.Bytewise.{absorb, one_by_one, feed_each-absorb}
use midi2pwmv2_libcomm.Stream.Examples.{keep, fresh, fresh-IsProcessor}

abbrev noise : List ℕ
noise = 9 ∷ 1 ∷ 255 ∷ []

feed_each-absorb_example :
    (q : StreamProcessor (List (List ℕ))) × (t : List (List ℕ)) × (feed_each
        (2 ^ 64)
        (one_by_one noise)
        fresh
        []
      ≡ some (q, t))
    × (absorb (2 ^ 64) keep (report_error fresh) [] [] noise ≡ some (pending q, t))
    × IsWaiting (2 ^ 64) (pending q)
    × Kept fresh q
feed_each-absorb_example =
    feed_each-absorb (2 ^ 64) (omega arith) keep noise fresh []
      (record { sound = fresh-IsProcessor; bytes = tt }) refl (inl (omega arith))
      (omega arith, (omega arith, (omega arith, tt)))
