-- ===== src/Stream/Terminate.antt =====
-- When the loop of `extractFrames` ends.
use native.Mathlib.Nat.{mod-eq_of_lt}
use midi2pwmv2_libcomm.Common.{
  drop_past, sym, ℕ, zero, suc, ◌+◌, ◌^◌, ◌≤◌, ◌<◌, ◌≡◌, refl, ap, arith, ◌==◌, ltb, Bool, true,
  false, if◌then◌else◌, none, some, ◌⊎◌, inl, inr, Bool-cases, List, [], ◌∷◌, length, take, drop,
  le_word, short_word, IsByte, All, All-take, All-drop, length-drop, length-take, points,
}
use midi2pwmv2_libcomm.Transport.{expected_total_size_bytes, handle_incoming}
use midi2pwmv2_libcomm.Stream.{
  buffer_capacity, ErrorType, sync_recovery_attempt, invalid_frame_size, FrameCallback,
  StreamProcessor, extract_frames, report_error,
}
use midi2pwmv2_libcomm.Stream.Pending.{
  from_version, resync, Scan, ends, goes, scan, scan_frame, scan_oversize, scan_damaged, pending,
  IsProcessor, length-pending,
}
use midi2pwmv2_libcomm.Stream.Refine.{Kept}
use midi2pwmv2_libcomm.Stream.Loop.{scan_loop, Looped-some, extract_loop-Looped}

from_version-drop :
    (xs : List ℕ)
    → (from_version xs ≡ none) ⊎ ((k : ℕ) × (from_version xs ≡ some (drop k xs)) × (k < length xs))
unfolding from_version
from_version-drop [] = inl refl
from_version-drop (x ∷ xs) = elim (Bool-cases (x == 1)) [
  | inl found ↦ inr (0, rw found refl, omega arith)
  | inr other ↦ elim (from_version-drop xs) [
    | inl e ↦ inl (rw (other, e) refl)
    | inr (k, e, less) ↦ inr (suc k, rw (other, e) refl, omega (arith, less))
  ]
]

pub resync-drop :
    (xs : List ℕ)
    → (resync xs ≡ none) ⊎ ((k : ℕ) × (resync xs ≡ some (drop (suc k) xs)) × (suc k < length xs))
unfolding resync
resync-drop [] = inl refl
resync-drop (x ∷ xs) = elim (from_version-drop xs) [
  | inl e ↦ inl e
  | inr (k, e, less) ↦ inr (k, e, omega (arith, less))
]

-- What the scanner leaves is the bytes without some at the front; going on, it has dropped one at least.
abbrev pub Shrinks : {S : Type 0} → List ℕ → Scan S → Type 0
Shrinks xs (ends ys t) = (k : ℕ) × (ys ≡ drop k xs)
Shrinks xs (goes b ys t) = (k : ℕ) × (ys ≡ drop (suc k) xs) × (0 < length xs)

module _ {S : Type 0} (m : ℕ) (callback : FrameCallback S) (report : ErrorType → S → S) where
  scan_oversize-Shrinks :
      (xs : List ℕ) (s : S) → 0 < length xs → Shrinks xs (scan_oversize m callback report xs s)
  scan_oversize-Shrinks xs s held = elim (resync-drop xs) [
    | inl e ↦ rw (e, scan_oversize) (length xs, sym (drop_past (length xs) xs (omega arith)))
    | inr (k, e, less) ↦ rw (e, scan_oversize) (k, refl, held)
  ]

  scan_damaged-Shrinks :
      (xs : List ℕ) (k : ℕ) (s : S)
      → 0 < length xs
      → Shrinks xs (scan_damaged m callback report xs (drop (suc k) xs) s)
  scan_damaged-Shrinks xs k s held = elim (resync-drop xs) [
    | inl e ↦ rw (e, scan_damaged) (k, refl, held)
    | inr (j, e, less) ↦ rw (e, scan_damaged) (j, refl, held)
  ]

  scan_frame-Shrinks :
      (xs : List ℕ) (expected : ℕ) (s : S)
      → 0 < expected
      → 0 < length xs
      → Shrinks xs (scan_frame m callback report xs expected s)
  unfolding scan_frame
  scan_frame-Shrinks xs zero s pos held = absurd (omega arith)
  scan_frame-Shrinks xs (suc k) s pos held =
      let answer : Bool × S =
        handle_incoming m (points (take (suc k) xs))
          (some (λ payload u. (true, callback payload u))) s in
      elim (Bool-cases answer.0) [
        | inl good ↦ rw good (k, refl, held)
        | inr bad ↦ rw bad (scan_damaged-Shrinks xs k _ held)
      ]

  -- The only round that may leave all bytes in place is one whose announced frame size is 0.
  pub scan-Shrinks :
      (xs : List ℕ) (s : S)
      → 0 < expected_total_size_bytes m xs
      → Shrinks xs (scan m callback report xs s)
  unfolding scan
  scan-Shrinks xs s pos = elim (Bool-cases (ltb (length xs) 8)) [
    | inl short ↦ rw short (0, refl)
    | inr long ↦ rw long (rest (expected_total_size_bytes m xs) pos (ground arith))
  ]
    where
      rest :
          (expected : ℕ)
          → 0 < expected
          → 0 < length xs
          → Shrinks xs (
              if ltb buffer_capacity expected
              then scan_oversize m callback report xs
                  (report sync_recovery_attempt (report invalid_frame_size s))
              else if ltb (length xs) 12
              then ends xs s
              else if ltb (length xs) expected
              then ends xs s
              else scan_frame m callback report xs expected s)
      rest expected pos' held = elim (Bool-cases (ltb buffer_capacity expected)) [
        | inl large ↦ rw large (scan_oversize-Shrinks xs _ held)
        | inr fits ↦ rw fits (elim (Bool-cases (ltb (length xs) 12)) [
          | inl early ↦ rw early (0, refl)
          | inr enough ↦ rw enough (elim (Bool-cases (ltb (length xs) expected)) [
            | inl waits ↦ rw waits (0, refl)
            | inr ready ↦ rw ready (scan_frame-Shrinks xs expected s pos' held)
          ])
        ])
      ]

pub Scan-cases :
    {S : Type 0} (sc : Scan S)
    → ((ys : List ℕ) × (t : S) × (sc ≡ ends ys t))
      ⊎ ((b : Bool) × (ys : List ℕ) × (t : S) × (sc ≡ goes b ys t))
Scan-cases (ends ys t) = inl (ys, t, refl)
Scan-cases (goes b ys t) = inr (b, ys, t, refl)

-- A `std::size_t` in which the announced size of no frame wraps; 64 bits are enough.
abbrev pub IsWide : ℕ → Type 0
IsWide m = 2 ^ 32 + 12 ≤ m

pub size_field-lt : (xs : List ℕ) → All IsByte xs → le_word (take 4 (drop 4 xs)) < 2 ^ 32
size_field-lt xs h =
    short_word (take 4 (drop 4 xs)) (All-take IsByte 4 (drop 4 xs) (All-drop IsByte 4 xs h))
      (omega (arith, length-take 4 (drop 4 xs)))

pub expected_positive :
    (m : ℕ) (xs : List ℕ) → IsWide m → All IsByte xs → 0 < expected_total_size_bytes m xs
expected_positive m xs wide h = omega (
  arith,
  size_field-lt xs h,
  mod-eq_of_lt {n = 8 + le_word (take 4 (drop 4 xs)) + 4} {m = m}
      (omega (arith, size_field-lt xs h)),
)

module _ {S : Type 0} (m : ℕ) (callback : FrameCallback S) (report : ErrorType → S → S) where
  -- With more fuel than bytes the scanner ends, and what is left are bytes.
  pub scan_loop_total :
      (fuel : ℕ) (any : Bool) (xs : List ℕ) (s : S)
      → IsWide m
      → All IsByte xs
      → length xs < fuel
      → (b : Bool) × (ys : List ℕ) × (t : S) × (scan_loop m callback report fuel any xs s
          ≡ some (b, ys, t))
        × All IsByte ys
  unfolding scan_loop
  scan_loop_total zero any xs s wide bytes enough = absurd (omega arith)
  scan_loop_total (suc fuel) any xs s wide bytes enough =
      let shrinks : Shrinks xs (scan m callback report xs s) =
        scan-Shrinks m callback report xs s (expected_positive m xs wide bytes) in
      elim (Scan-cases (scan m callback report xs s)) [
        | inl (ys, t, e) ↦
            let (k, dropped) = let now : Shrinks xs (ends ys t) = rw e at shrinks in now in
            (any, ys, t, rw (e, scan_loop) refl, rw dropped (All-drop IsByte k xs bytes))
        | inr (taken, ys, t, e) ↦
            let (k, dropped, held) =
              let now : Shrinks xs (goes taken ys t) = rw e at shrinks in now in
            rw (e, scan_loop)
              (scan_loop_total fuel (if taken then true else any) ys t wide
                (rw dropped (All-drop IsByte (suc k) xs bytes))
                (omega (arith, ap length dropped, length-drop (suc k) xs)))
      ]

-- On a `std::size_t` of 64 bits the loop of `extractFrames` ends on every sound processor, whatever
-- bytes it holds, and leaves a sound processor with the same callbacks that holds bytes.
pub extract_frames_total :
    {S : Type 0} (m : ℕ) (callback : FrameCallback S) (p : StreamProcessor S) (s : S)
    → IsWide m
    → IsProcessor p
    → All IsByte (pending p)
    → (b : Bool) × (q : StreamProcessor S) × (t : S) × (extract_frames m callback p s
        ≡ some (b, q, t))
      × Kept p q
      × All IsByte (pending q)
unfolding extract_frames
extract_frames_total m callback p s wide h bytes =
    let (b, ys, t, e, left) =
      scan_loop_total m callback (report_error p) (p.size + 1) false (pending p) s wide bytes
        (omega (arith, length-pending p h)) in
    let (q, r, same, kept) =
      Looped-some p _ _ b ys t (extract_loop-Looped (p.size + 1) m callback false p s h) e in
    (b, q, t, r, kept, rw same left)
