-- ===== src/Stream/Pending.antt =====
-- The stream processor seen as the list of the bytes that it holds: an abstract scanner on lists, and
-- the proof that each round of `extractFrames` on the array does what the scanner does on the list.
use mathlib.Core.Option
use midi2pwmv2_libcomm.Common.{
  drop_past, Bool-cases, ℕ, zero, suc, ◌+◌, ◌-◌, ◌≤◌, ◌<◌, ◌≡◌, refl, sym, ap, ◌∙◌, arith, ◌==◌,
  ltb, Bool, true, false, if◌then◌else◌, Option, none, some, inl, inr, List, [], ◌∷◌, drop-take,
  get_or-take, drop_get, length-take, length-drop, take_append, length-store, length, get_or, take,
  drop, points, store_next,
}
use midi2pwmv2_libcomm.Transport.{expected_total_size_bytes, handle_incoming}
use midi2pwmv2_libcomm.Stream.{
  buffer_capacity, ErrorType, FrameCallback, invalid_frame_size, crc_failure, sync_recovery_attempt,
  StreamProcessor, find_version, move_to_start,
}

-- The list from its first version byte on.
unfoldable pub from_version : List ℕ → Option (List ℕ)
from_version [] = none
from_version (b ∷ bs) = if b == 1 then some (b ∷ bs) else from_version bs

-- What is left when at least one byte is given up.
unfoldable pub resync : List ℕ → Option (List ℕ)
resync [] = none
resync (b ∷ bs) = from_version bs

-- A round of the scanner: it ends, or goes on with another list. The flag says that a frame was taken.
pub data Scan (S : Type 0) : Type 0 where
  ends : List ℕ → S → Scan S
  goes : Bool → List ℕ → S → Scan S

module _ {S : Type 0} (m : ℕ) (callback : FrameCallback S) (report : ErrorType → S → S) where
  -- Bytes that start no valid frame.
  abbrev pub scan_damaged : List ℕ → List ℕ → S → Scan S
  scan_damaged xs rest s = elim (resync xs) [ none ↦ goes false rest s | some ys ↦ goes false ys s ]

  -- A header that announces more than the buffer can hold.
  abbrev pub scan_oversize : List ℕ → S → Scan S
  scan_oversize xs s = elim (resync xs) [ none ↦ ends [] s | some ys ↦ goes false ys s ]

  -- As many bytes as the header announces.
  unfoldable pub scan_frame : List ℕ → ℕ → S → Scan S
  scan_frame xs expected s =
      let (processed, t) =
        handle_incoming m (points (take expected xs))
          (some (λ payload u. (true, callback payload u))) s in
      if processed
      then goes true (drop expected xs) t
      else scan_damaged xs (drop expected xs) (report sync_recovery_attempt (report crc_failure t))

  unfoldable pub scan : List ℕ → S → Scan S
  scan xs s =
      let expected = expected_total_size_bytes m xs in
      if ltb (length xs) 8
      then ends xs s
      else if ltb buffer_capacity expected
      then scan_oversize xs (report sync_recovery_attempt (report invalid_frame_size s))
      else if ltb (length xs) 12
      then ends xs s
      else if ltb (length xs) expected
      then ends xs s
      else scan_frame xs expected s

abbrev pub pending : {S : Type 0} → StreamProcessor S → List ℕ
pending p = take p.size p.buffer

-- The array has its full size, and `size_` stays within it.
pub record IsProcessor {S : Type 0} (p : StreamProcessor S) : Type 0 where
  pub capacity : length p.buffer ≡ buffer_capacity
  pub within : p.size ≤ buffer_capacity

module _ {S : Type 0} (p : StreamProcessor S) (h : IsProcessor p) where
  pub length-pending : length (pending p) ≡ p.size
  length-pending = omega (arith, length-take p.size p.buffer, h)

  pub pending-move_to_start :
      (from : ℕ) → from ≤ p.size → pending (move_to_start p from) ≡ drop from (pending p)
  pending-move_to_start from le =
      let kept : List ℕ = take (p.size - from) (drop from p.buffer) in
      let size : length kept ≡ p.size - from =
        omega
          (arith, length-take (p.size - from) (drop from p.buffer), length-drop from p.buffer, h) in
      rw (store_next [] p.buffer kept 0 refl)
        (take_append (p.size - from) kept _ size ∙ sym (drop-take from p.size p.buffer))

  pub move_to_start-IsProcessor : (from : ℕ) → from ≤ p.size → IsProcessor (move_to_start p from)
  move_to_start-IsProcessor from le = record {
    capacity =
        length-store p.buffer 0 (take (p.size - from) (drop from p.buffer))
          (omega (arith, length-take (p.size - from) (drop from p.buffer), h))
        ∙ h.capacity;
    within = omega (arith, h);
  }

-- The search over the array finds the place at which the list search stops.
find_version-from_version :
    (n pos size : ℕ) (buffer : List ℕ)
    → pos + n ≡ size
    → size ≤ length buffer
    → from_version (drop pos (take size buffer))
      ≡ Option.map (λ q. drop q (take size buffer)) (find_version n pos buffer)
unfolding find_version from_version
find_version-from_version zero pos size buffer e h =
    ap from_version (drop_past pos (take size buffer) (omega (arith, length-take size buffer)))
find_version-from_version (suc n) pos size buffer e h =
    let ys : List ℕ = take size buffer in
    let here : drop pos ys ≡ get_or buffer pos 0 ∷ drop (pos + 1) ys =
      drop_get pos 0 ys (omega (arith, length-take size buffer))
      ∙ ap (λ (b : ℕ). b ∷ drop (pos + 1) ys) (get_or-take size pos 0 buffer (omega arith)) in
    elim (Bool-cases (get_or buffer pos 0 == 1)) [
      | inl found ↦ ap from_version here ∙ rw found (ap some (sym here))
      | inr other ↦
          ap from_version here
          ∙ rw other (find_version-from_version n (pos + 1) size buffer (omega arith) h)
    ]

pub find_version_bounds :
    (n pos : ℕ) (buffer : List ℕ) (q : ℕ)
    → find_version n pos buffer ≡ some q
    → (pos ≤ q) × (q < pos + n)
unfolding find_version
find_version_bounds zero pos buffer q e = cc
find_version_bounds (suc n) pos buffer q e =
    ground (arith, find_version_bounds n (pos + 1) buffer q)

resync-drop : (xs : List ℕ) → resync xs ≡ from_version (drop 1 xs)
unfolding resync from_version
resync-drop [] = refl
resync-drop (x ∷ xs) = refl

-- `trySync` looks from the second byte on.
pub resync-find_version :
    (size : ℕ) (buffer : List ℕ)
    → size ≤ length buffer
    → resync (take size buffer)
      ≡ Option.map (λ q. drop q (take size buffer)) (find_version (size - 1) 1 buffer)
resync-find_version zero buffer h = unfold resync find_version in refl
resync-find_version (suc k) buffer h =
    let one_less : suc k - 1 ≡ k = omega arith in
    rw one_less (
      resync-drop (take (suc k) buffer)
      ∙ find_version-from_version k 1 (suc k) buffer (omega arith) h)
