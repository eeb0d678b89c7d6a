-- ===== src/Stream/Deliver.antt =====
-- What the scanner makes of a stream of frames.
use midi2pwmv2_libcomm.Common.{
  ℕ, zero, suc, ◌+◌, ◌%◌, ◌≤◌, ◌<◌, ◌≡◌, refl, sym, ap, ◌∙◌, arith, ltb, Bool, true, false,
  Bool-cases, inl, inr, some, List, [], ◌∷◌, ◌++◌, append_assoc, length, length-append, length-drop,
  take, drop, take_append, drop_append, take_within, drop_within, le_word, le_word-le_bytes, IsByte,
  All, points,
}
use midi2pwmv2_libcomm.Transport.{max_frame_size, expected_total_size_bytes, handle_incoming}
use midi2pwmv2_libcomm.Transport.Frame.{frame, frame_shape, length-frame}
use midi2pwmv2_libcomm.Transport.Receive.{IsSizeModulus, handle_incoming-frame}
use midi2pwmv2_libcomm.Stream.{buffer_capacity, ErrorType, FrameCallback}
use midi2pwmv2_libcomm.Stream.Pending.{ends, goes, scan, scan_frame}
use midi2pwmv2_libcomm.Stream.Loop.{scan_loop}
use native.Mathlib.Nat.{mod-eq_of_lt}

-- A payload that can be sent, with the sequence number of its frame.
pub record IsSendable (f : ℕ × List ℕ) : Type 0 where
  pub small : length f.1 ≤ max_frame_size
  pub bytes : All IsByte f.1

abbrev pub frame_of : ℕ × List ℕ → List ℕ
frame_of f = frame f.0 f.1

-- The frames one behind the other.
abbrev pub stream : List (ℕ × List ℕ) → List ℕ
stream [] = []
stream (f ∷ fs) = frame_of f ++ stream fs

-- Their payloads handed to the callback in order.
abbrev pub deliver_each : {S : Type 0} → FrameCallback S → List (ℕ × List ℕ) → S → S
deliver_each callback [] s = s
deliver_each callback (f ∷ fs) s = deliver_each callback fs (callback f.1 s)

-- The size field lies in the first eight bytes.
pub field_within :
    (xs ys : List ℕ) → 8 ≤ length xs → take 4 (drop 4 (xs ++ ys)) ≡ take 4 (drop 4 xs)
field_within xs ys h =
    ap (take 4) (drop_within 4 xs ys (omega arith))
    ∙ take_within 4 (drop 4 xs) ys (omega (arith, length-drop 4 xs))

pub expected-frame :
    (m : ℕ) (f : ℕ × List ℕ)
    → IsSizeModulus m
    → IsSendable f
    → expected_total_size_bytes m (frame_of f) ≡ length f.1 + 12
expected-frame m f wide h =
    let announced : le_word (take 4 (drop 4 (frame_of f))) ≡ length f.1 =
      ap (λ r. le_word (take 4 (drop 4 r))) (frame_shape f.0 f.1)
      ∙ le_word-le_bytes 4 (length f.1) (omega (arith, h.small)) in
    ap (λ (k : ℕ). (8 + k + 4) % m) announced
    ∙ ap (λ (k : ℕ). k % m) (omega arith)
    ∙ mod-eq_of_lt {n = length f.1 + 12} {m = m} (omega (arith, h.small))

module _ {S : Type 0} (m : ℕ) (wide : IsSizeModulus m) (callback : FrameCallback S)
    (report : ErrorType → S → S) where
  -- A frame at the front is taken off and its payload delivered, whatever follows.
  pub scan-frame :
      (f : ℕ × List ℕ) (rest : List ℕ) (s : S)
      → IsSendable f
      → scan m callback report (frame_of f ++ rest) s ≡ goes true rest (callback f.1 s)
  unfolding scan scan_frame
  scan-frame f rest s h =
      let long : length (frame_of f ++ rest) ≡ length f.1 + 12 + length rest =
        omega (arith, length-append (frame_of f) rest, length-frame f.0 f.1) in
      let expected : expected_total_size_bytes m (frame_of f ++ rest) ≡ length f.1 + 12 =
        ap (λ r. (8 + le_word r + 4) % m)
          (field_within (frame_of f) rest (omega (arith, length-frame f.0 f.1)))
        ∙ expected-frame m f wide h in
      let eight : ltb (length f.1 + 12 + length rest) 8 ≡ false = ground arith in
      let fits : ltb buffer_capacity (length f.1 + 12) ≡ false = ground (arith, h.small) in
      let twelve : ltb (length f.1 + 12 + length rest) 12 ≡ false = ground arith in
      let ready : ltb (length f.1 + 12 + length rest) (length f.1 + 12) ≡ false = ground arith in
      let front : take (length f.1 + 12) (frame_of f ++ rest) ≡ frame_of f =
        take_append (length f.1 + 12) (frame_of f) rest (length-frame f.0 f.1) in
      let behind : drop (length f.1 + 12) (frame_of f ++ rest) ≡ rest =
        drop_append (length f.1 + 12) (frame_of f) rest (length-frame f.0 f.1) in
      let accepted : handle_incoming m (points (frame_of f))
            (some (λ payload u. (true, callback payload u))) s
          ≡ (true, callback f.1 s) =
        handle_incoming-frame m _ s f.0 f.1 wide (omega (arith, h.small)) h.bytes in
      rw (expected, long, eight, fits, twelve, ready) (rw (front, behind) (rw accepted refl))

  -- A part of a frame is left to wait.
  scan-partial :
      (f : ℕ × List ℕ) (xs tail : List ℕ) (s : S)
      → IsSendable f
      → xs ++ tail ≡ frame_of f
      → 0 < length tail
      → scan m callback report xs s ≡ ends xs s
  unfolding scan
  scan-partial f xs tail s h e more =
      let size : length xs + length tail ≡ length f.1 + 12 =
        sym (length-append xs tail) ∙ ap length e ∙ length-frame f.0 f.1 in
      elim (Bool-cases (ltb (length xs) 8)) [
        | inl short ↦ rw short refl
        | inr long ↦
            let expected : expected_total_size_bytes m xs ≡ length f.1 + 12 =
              ap (λ r. (8 + le_word r + 4) % m) (sym (field_within xs tail (ground arith)))
              ∙ ap (expected_total_size_bytes m) e
              ∙ expected-frame m f wide h in
            let fits : ltb buffer_capacity (length f.1 + 12) ≡ false = ground (arith, h.small) in
            let waits : ltb (length xs) (length f.1 + 12) ≡ true = ground arith in
            rw (long, expected, fits)
              (elim (Bool-cases (ltb (length xs) 12)) [
                | inl early ↦ rw early refl
                | inr enough ↦ rw (enough, waits) refl
              ])
      ]

  -- The frames of a stream are taken off one after the other and a part of a further one is left.
  pub scan_loop-stream :
      (fuel : ℕ) (any : Bool) (fs : List (ℕ × List ℕ)) (f : ℕ × List ℕ) (partial tail : List ℕ)
      (s : S)
      → All IsSendable fs
      → IsSendable f
      → partial ++ tail ≡ frame_of f
      → 0 < length tail
      → length fs < fuel
      → (b : Bool) × (scan_loop m callback report fuel any (stream fs ++ partial) s
          ≡ some (b, partial, deliver_each callback fs s))
  unfolding scan_loop
  scan_loop-stream zero any fs f partial tail s hs h e more enough = absurd (omega arith)
  scan_loop-stream (suc fuel) any [] f partial tail s hs h e more enough =
      (any, rw (scan-partial f partial tail s h e more, scan_loop) refl)
  scan_loop-stream (suc fuel) any (g ∷ fs) f partial tail s hs h e more enough =
      let (b, rest) =
        scan_loop-stream fuel true fs f partial tail (callback g.1 s) hs.1 h e more (omega arith) in
      (
        b,
        rw (append_assoc (frame_of g) (stream fs) partial)
            (rw (scan-frame g (stream fs ++ partial) s hs.0, scan_loop) rest),
      )
