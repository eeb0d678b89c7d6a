-- ===== src/Stream/Hang.antt =====
-- On a `std::size_t` of 32 bits the loop of `extractFrames` may never end.
use midi2pwmv2_libcomm.Common.{
  ℕ, zero, suc, ◌^◌, ◌≤◌, ◌≡◌, ◌≢◌, refl, arith, ltb, Bool, true, false, none, some, List, [], ◌∷◌,
  length, take, drop, le_word, All, points,
}
use midi2pwmv2_libcomm.Transport.{expected_total_size_bytes, handle_incoming}
use midi2pwmv2_libcomm.Transport.Receive.{handle_incoming_short}
use midi2pwmv2_libcomm.Stream.{
  buffer_capacity, ErrorType, FrameCallback, StreamProcessor, extract_loop, report_error,
  crc_failure, sync_recovery_attempt,
}
use midi2pwmv2_libcomm.Stream.Pending.{
  from_version, resync, goes, scan, scan_frame, scan_damaged, pending, IsProcessor, length-pending,
}
use midi2pwmv2_libcomm.Stream.Loop.{scan_loop, Looped-none, extract_loop-Looped}

from_version-none : (xs : List ℕ) → All (λ b. b ≢ 1) xs → from_version xs ≡ none
unfolding from_version
from_version-none [] h = refl
from_version-none (x ∷ xs) h = ground (arith, from_version-none xs h.1, h.0)

resync-none : (xs : List ℕ) → All (λ b. b ≢ 1) (drop 1 xs) → resync xs ≡ none
unfolding resync
resync-none [] h = refl
resync-none (x ∷ xs) h = from_version-none xs h

module _ {S : Type 0} (callback : FrameCallback S) (report : ErrorType → S → S) where
  -- Header, payload and CRC of 2 ^ 32 - 12 bytes of payload come to 0 in 32 bits.
  scan_stays :
      (xs : List ℕ) (s : S)
      → 12 ≤ length xs
      → length xs ≤ buffer_capacity
      → le_word (take 4 (drop 4 xs)) ≡ 0xFFFFFFF4
      → All (λ b. b ≢ 1) (drop 1 xs)
      → scan (2 ^ 32) callback report xs s
        ≡ goes false xs (report sync_recovery_attempt (report crc_failure s))
  unfolding scan scan_frame
  scan_stays xs s long fits field quiet =
      let wraps : expected_total_size_bytes (2 ^ 32) xs ≡ 0 = omega (arith, field) in
      let eight : ltb (length xs) 8 ≡ false = ground arith in
      let twelve : ltb (length xs) 12 ≡ false = ground arith in
      let ready : ltb (length xs) 0 ≡ false = ground arith in
      let dropped : handle_incoming (2 ^ 32) (points (take 0 xs))
            (some (λ payload u. (true, callback payload u))) s
          ≡ (false, s) =
        handle_incoming_short (2 ^ 32) [] s _ (omega arith) in
      rw (wraps, eight, twelve, ready) (rw dropped (rw (resync-none xs quiet, scan_damaged) refl))

  scan_loop_hangs :
      (fuel : ℕ) (any : Bool) (xs : List ℕ) (s : S)
      → 12 ≤ length xs
      → length xs ≤ buffer_capacity
      → le_word (take 4 (drop 4 xs)) ≡ 0xFFFFFFF4
      → All (λ b. b ≢ 1) (drop 1 xs)
      → scan_loop (2 ^ 32) callback report fuel any xs s ≡ none
  unfolding scan_loop
  scan_loop_hangs zero any xs s long fits field quiet = refl
  scan_loop_hangs (suc fuel) any xs s long fits field quiet =
      rw (scan_stays xs s long fits field quiet, scan_loop)
        (scan_loop_hangs fuel any xs (report sync_recovery_attempt (report crc_failure s)) long fits
          field quiet)

-- With a 32-bit `std::size_t`: a sound processor that holds 12 bytes or more, whose size field is
-- 0xFFFFFFF4 and with no byte 0x01 after the first, never leaves the loop, whatever the fuel.
pub extract_loop_hangs :
    {S : Type 0} (fuel : ℕ) (callback : FrameCallback S) (any : Bool) (p : StreamProcessor S)
    (s : S)
    → IsProcessor p
    → 12 ≤ p.size
    → le_word (take 4 (drop 4 (pending p))) ≡ 0xFFFFFFF4
    → All (λ b. b ≢ 1) (drop 1 (pending p))
    → extract_loop fuel (2 ^ 32) callback any p s ≡ none
extract_loop_hangs fuel callback any p s h long field quiet =
    Looped-none p _ _ (extract_loop-Looped fuel (2 ^ 32) callback any p s h) (
      scan_loop_hangs callback (report_error p) fuel any (pending p) s
        (omega (arith, length-pending p h)) (omega (arith, length-pending p h, h)) field quiet)
