-- ===== src/Stream/Waiting.antt =====
-- What `feed` leaves in the buffer: never a whole frame, so that there is room for another byte.
use native.Mathlib.Nat.{mod-eq_of_lt}
use mathlib.Core.Path.{subst}
use midi2pwmv2_libcomm.Common.{
  ℕ, zero, suc, ◌+◌, ◌≤◌, ◌<◌, ◌≡◌, refl, arith, ltb, Bool, true, Bool-cases, if◌then◌else◌, ◌⊎◌,
  inl, inr, some, List, length, take, drop, le_word, IsByte, All, All-drop, points,
}
use midi2pwmv2_libcomm.Transport.{expected_total_size_bytes, handle_incoming}
use midi2pwmv2_libcomm.Stream.{
  buffer_capacity, ErrorType, invalid_frame_size, sync_recovery_attempt, FrameCallback,
}
use midi2pwmv2_libcomm.Stream.Pending.{
  Scan, ends, goes, scan, scan_frame, scan_oversize, scan_damaged,
}
use midi2pwmv2_libcomm.Stream.Loop.{scan_loop}
use midi2pwmv2_libcomm.Stream.Terminate.{
  IsWide, Shrinks, Scan-cases, scan-Shrinks, resync-drop, size_field-lt, expected_positive,
}

-- Bytes that wait for more: not a header yet, or fewer than their header announces, which the buffer can
-- hold.
abbrev pub IsWaiting : ℕ → List ℕ → Type 0
IsWaiting m xs =
    (length xs < 8)
    ⊎ ((length xs < expected_total_size_bytes m xs)
        × (expected_total_size_bytes m xs ≤ buffer_capacity))

pub waiting_room : (m : ℕ) (xs : List ℕ) → IsWaiting m xs → length xs < buffer_capacity
waiting_room m xs h = omega arith

expected-ge : (m : ℕ) (xs : List ℕ) → IsWide m → All IsByte xs → 12 ≤ expected_total_size_bytes m xs
expected-ge m xs wide h = omega (
  arith,
  size_field-lt xs h,
  mod-eq_of_lt {n = 8 + le_word (take 4 (drop 4 xs)) + 4} {m = m}
      (omega (arith, size_field-lt xs h)),
)

-- A round that ends the scan leaves bytes that wait.
abbrev Waits : {S : Type 0} → ℕ → Scan S → Type 0
Waits m (ends ys t) = IsWaiting m ys
Waits m (goes b ys t) = Unit {0}

module _ {S : Type 0} (m : ℕ) (callback : FrameCallback S) (report : ErrorType → S → S) where
  scan_oversize-Waits : (xs : List ℕ) (s : S) → Waits m (scan_oversize m callback report xs s)
  scan_oversize-Waits xs s = elim (resync-drop xs) [
    | inl e ↦ rw (e, scan_oversize) (inl (omega arith))
    | inr (k, e, less) ↦ rw (e, scan_oversize) tt
  ]

  scan_damaged-Waits :
      (xs rest : List ℕ) (s : S) → Waits m (scan_damaged m callback report xs rest s)
  scan_damaged-Waits xs rest s = elim (resync-drop xs) [
    | inl e ↦ rw (e, scan_damaged) tt
    | inr (k, e, less) ↦ rw (e, scan_damaged) tt
  ]

  scan_frame-Waits :
      (xs : List ℕ) (expected : ℕ) (s : S) → Waits m (scan_frame m callback report xs expected s)
  unfolding scan_frame
  scan_frame-Waits xs expected s =
      let answer : Bool × S =
        handle_incoming m (points (take expected xs))
          (some (λ payload u. (true, callback payload u))) s in
      elim (Bool-cases answer.0) [
        | inl good ↦ rw good tt
        | inr bad ↦ rw bad (scan_damaged-Waits xs (drop expected xs) _)
      ]

  scan-Waits :
      (xs : List ℕ) (s : S) → IsWide m → All IsByte xs → Waits m (scan m callback report xs s)
  unfolding scan
  scan-Waits xs s wide bytes = elim (Bool-cases (ltb (length xs) 8)) [
    | inl short ↦ rw short (inl (ground arith))
    | inr long ↦ rw long (rest (expected_total_size_bytes m xs) refl (expected-ge m xs wide bytes))
  ]
    where
      rest :
          (expected : ℕ)
          → expected_total_size_bytes m xs ≡ expected
          → 12 ≤ expected
          → Waits m (
              if ltb buffer_capacity expected
              then scan_oversize m callback report xs
                  (report sync_recovery_attempt (report invalid_frame_size s))
              else if ltb (length xs) 12
              then ends xs s
              else if ltb (length xs) expected
              then ends xs s
              else scan_frame m callback report xs expected s)
      rest expected e enough = elim (Bool-cases (ltb buffer_capacity expected)) [
        | inl large ↦ rw large (scan_oversize-Waits xs _)
        | inr fits ↦ rw fits (elim (Bool-cases (ltb (length xs) 12)) [
          | inl early ↦ rw early (inr (ground arith))
          | inr late ↦ rw late (elim (Bool-cases (ltb (length xs) expected)) [
            | inl waits ↦ rw waits (inr (ground arith))
            | inr ready ↦ rw ready (scan_frame-Waits xs expected s)
          ])
        ])
      ]

  -- So does the whole loop.
  pub scan_loop-IsWaiting :
      (fuel : ℕ) (any : Bool) (xs : List ℕ) (s : S) (b : Bool) (ys : List ℕ) (t : S)
      → IsWide m
      → All IsByte xs
      → scan_loop m callback report fuel any xs s ≡ some (b, ys, t)
      → IsWaiting m ys
  unfolding scan_loop
  scan_loop-IsWaiting zero any xs s b ys t wide bytes e = absurd (cc)
  scan_loop-IsWaiting (suc fuel) any xs s b ys t wide bytes e =
      let shrinks : Shrinks xs (scan m callback report xs s) =
        scan-Shrinks m callback report xs s (expected_positive m xs wide bytes) in
      let waits : Waits m (scan m callback report xs s) = scan-Waits xs s wide bytes in
      elim (Scan-cases (scan m callback report xs s)) [
        | inl (zs, u, round) ↦
            let now : IsWaiting m zs = rw round at waits in
            let e' : some (any, zs, u) ≡ some (b, ys, t) = rw (round, scan_loop) at e in
            let same : zs ≡ ys = cc in subst (IsWaiting m) same now
        | inr (taken, zs, u, round) ↦
            let (k, dropped, held) =
              let now : Shrinks xs (goes taken zs u) = rw round at shrinks in now in
            scan_loop-IsWaiting fuel (if taken then true else any) zs u b ys t wide
              (rw dropped (All-drop IsByte (suc k) xs bytes)) (rw (round, scan_loop) at e)
      ]
