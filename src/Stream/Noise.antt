-- ===== src/Stream/Noise.antt =====
-- Noise in front of a stream, such as a frame of which only the end arrived: how `extractFrames` finds
-- the first frame behind it.
use mathlib.Core.Path.{subst}
use midi2pwmv2_libcomm.Common.{
  ℕ, suc, ◌+◌, ◌≤◌, ◌<◌, ◌≡◌, ◌≢◌, refl, sym, ap, ◌∙◌, arith, ltb, true, false, Bool-cases,
  if◌then◌else◌, ◌⊎◌, inl, inr, some, List, [], ◌∷◌, ◌++◌, length, length-append, length-take,
  get_or-take, take, All, points,
}
use midi2pwmv2_libcomm.Transport.{expected_total_size_bytes, handle_incoming}
use midi2pwmv2_libcomm.Transport.Frame.{frame_shape, length-frame}
use midi2pwmv2_libcomm.Transport.Receive.{IsSizeModulus, handle_incoming_cases}
use midi2pwmv2_libcomm.Stream.{
  buffer_capacity, ErrorType, FrameCallback, crc_failure, invalid_frame_size, sync_recovery_attempt,
  StreamProcessor, report_error, extract_frames, append_bytes, feed,
}
use midi2pwmv2_libcomm.Stream.Pending.{
  from_version, resync, goes, scan, scan_damaged, scan_oversize, scan_frame, pending, IsProcessor,
  length-pending,
}
use midi2pwmv2_libcomm.Stream.Refine.{Kept}
use midi2pwmv2_libcomm.Stream.Loop.{scan_loop, Looped-some, extract_loop-Looped, Kept-trans}
use midi2pwmv2_libcomm.Stream.Deliver.{IsSendable, frame_of, stream, deliver_each, scan_loop-stream}
use midi2pwmv2_libcomm.Stream.Feed.{
  append_bytes-Kept, pending-append_bytes, length-stream, feed-room, extract_into_lem,
}
use midi2pwmv2_libcomm.Stream.Damaged.{from_version-skip}

-- Bytes none of which has the value of the protocol version, and at least one.
pub record IsNoise (noise : List ℕ) : Type 0 where
  pub some_bytes : 0 < length noise
  pub no_version : All (λ c. c ≢ 1) noise

-- The size that the first eight bytes seem to announce cannot be, or has been reached.
abbrev pub IsSettled : ℕ → List ℕ → Type 0
IsSettled m xs =
    (buffer_capacity < expected_total_size_bytes m xs)
    ⊎ (expected_total_size_bytes m xs ≤ length xs)

-- What is reported of it.
abbrev pub noise_error : ℕ → List ℕ → ErrorType
noise_error m xs =
    if ltb buffer_capacity (expected_total_size_bytes m xs) then invalid_frame_size else crc_failure

module _ {S : Type 0} (m : ℕ) (callback : FrameCallback S) (report : ErrorType → S → S) where
  resync-noise :
      (b : ℕ) (bs ys : List ℕ) → All (λ c. c ≢ 1) bs → resync (b ∷ bs ++ (1 ∷ ys)) ≡ some (1 ∷ ys)
  unfolding resync from_version
  resync-noise b bs ys h = from_version-skip bs (1 ∷ ys) h

  refused-noise :
      (b : ℕ) (xs : List ℕ) (expected : ℕ) (s : S)
      → b ≢ 1
      → handle_incoming m
          (points (take expected (b ∷ xs)))
          (some (λ payload u. (true, callback payload u)))
          s
        ≡ (false, s)
  refused-noise b xs expected s other =
      elim (handle_incoming_cases m (take expected (b ∷ xs)) s
        (some (λ payload u. (true, callback payload u)))) [
          | inr refused ↦ refused
          | inl ok ↦
              let enough : 0 < expected = omega (arith, ok.enough, length-take expected (b ∷ xs)) in
              absurd (other (sym (get_or-take expected 0 0 (b ∷ xs) enough) ∙ ok.version))
        ]

  scan-noise :
      (noise ys : List ℕ) (s : S)
      → IsNoise noise
      → 12 ≤ length (noise ++ (1 ∷ ys))
      → IsSettled m (noise ++ (1 ∷ ys))
      → scan m callback report (noise ++ (1 ∷ ys)) s
        ≡ goes false
            (1 ∷ ys)
            (report sync_recovery_attempt (report (noise_error m (noise ++ (1 ∷ ys))) s))
  unfolding scan scan_frame
  scan-noise [] ys s h long settled = absurd (omega (arith, h.some_bytes))
  scan-noise (b ∷ bs) ys s h long settled =
      let xs : List ℕ = b ∷ bs ++ (1 ∷ ys) in
      let found : resync xs ≡ some (1 ∷ ys) = resync-noise b bs ys h.no_version.1 in
      let eight : ltb (length xs) 8 ≡ false = ground arith in
      let twelve : ltb (length xs) 12 ≡ false = ground arith in
      elim (Bool-cases (ltb buffer_capacity (expected_total_size_bytes m xs))) [
        | inl large ↦ rw (eight, large) (rw (found, scan_oversize) refl)
        | inr fits ↦
            let ready : ltb (length xs) (expected_total_size_bytes m xs) ≡ false = ground arith in
            rw (eight, fits, twelve, ready)
              (rw
                (refused-noise b (bs ++ (1 ∷ ys)) (expected_total_size_bytes m xs) s h.no_version.0)
                (rw (found, scan_damaged) refl))
      ]

-- A stream that is not empty starts with the version.
stream-version :
    (g : ℕ × List ℕ) (fs : List (ℕ × List ℕ)) (partial : List ℕ)
    → (ys : List ℕ) × (stream (g ∷ fs) ++ partial ≡ 1 ∷ ys)
stream-version g fs partial = (_, ap (λ r. (r ++ stream fs) ++ partial) (frame_shape g.0 g.1))

-- A processor gets a chunk after which it holds noise, which has no byte 1, then one whole frame or more
-- and a proper part of a further one, and of the size that the noise seems to announce either as many bytes
-- are there or it is above what the buffer can hold: one error and one attempt to synchronise are reported,
-- the noise alone is given up, the payload of every frame is delivered, in order and once, and the part is
-- held.
pub feed-noise :
    {S : Type 0} (m : ℕ) (callback : FrameCallback S) (p : StreamProcessor S) (chunk : List ℕ)
    (noise : List ℕ) (g : ℕ × List ℕ) (fs : List (ℕ × List ℕ)) (f : ℕ × List ℕ)
    (partial tail : List ℕ) (s : S)
    → IsSizeModulus m
    → IsProcessor p
    → p.frame_callback ≡ some callback
    → p.size + length chunk ≤ buffer_capacity
    → 0 < length chunk
    → IsNoise noise
    → All IsSendable (g ∷ fs)
    → IsSendable f
    → pending p ++ chunk ≡ noise ++ (stream (g ∷ fs) ++ partial)
    → IsSettled m (pending p ++ chunk)
    → partial ++ tail ≡ frame_of f
    → 0 < length tail
    → (q : StreamProcessor S) × (feed m p (points chunk) s
        ≡ some (
          q,
          deliver_each callback (g ∷ fs) (
              report_error p sync_recovery_attempt
                (report_error p (noise_error m (pending p ++ chunk)) s)),
        ))
      × (pending q ≡ partial)
      × Kept p q
unfolding extract_frames append_bytes report_error scan_loop
feed-noise {S} m callback p chunk noise g fs f partial tail s wide h registered fits given noisy hs
      hf held settled part more =
    let p' = append_bytes p chunk in
    let kept : Kept p p' = append_bytes-Kept p chunk h fits in
    let shown : pending p' ≡ pending p ++ chunk = pending-append_bytes p chunk h fits in
    let (ys, front) = stream-version g fs partial in
    let whole : pending p ++ chunk ≡ noise ++ (1 ∷ ys) = held ∙ ap (λ r. noise ++ r) front in
    let size : length (noise ++ (stream (g ∷ fs) ++ partial)) ≡ p.size + length chunk =
      omega (arith, ap length held, length-append (pending p) chunk, length-pending p h) in
    let room : length noise + length (frame_of g) + length (stream fs) ≤ p.size + length chunk =
      omega (
        arith,
        size,
        length-append noise (stream (g ∷ fs) ++ partial),
        length-append (stream (g ∷ fs)) partial,
        length-append (frame_of g) (stream fs),
      ) in
    let report : ErrorType → S → S = report_error p in
    let t : S = report sync_recovery_attempt (report (noise_error m (pending p ++ chunk)) s) in
    let first : scan m callback report (pending p ++ chunk) s
        ≡ goes false (stream (g ∷ fs) ++ partial) t =
      ap (λ xs. scan m callback report xs s) whole
      ∙ scan-noise m callback report noise ys s noisy
          (omega (arith, ap length whole, ap length held, size, room, length-frame g.0 g.1))
          (subst (IsSettled m) whole settled)
      ∙ ap
          (λ r.
            goes false r
              (report sync_recovery_attempt (report (noise_error m (noise ++ (1 ∷ ys))) s)))
          (sym front)
      ∙ ap
          (λ xs.
            goes false (stream (g ∷ fs) ++ partial)
              (report sync_recovery_attempt (report (noise_error m xs) s)))
          (sym whole) in
    let (b, rest) =
      scan_loop-stream m wide callback report (p.size + length chunk) false (g ∷ fs) f partial tail
        t hs hf part more
        (omega (arith, room, length-stream fs, length-frame g.0 g.1, noisy.some_bytes)) in
    let run : scan_loop m callback report (p'.size + 1) false (pending p ++ chunk) s
        ≡ some (b, partial, deliver_each callback (g ∷ fs) t) =
      let one_more : p.size + length chunk + 1 ≡ suc (p.size + length chunk) = omega arith in
      rw one_more (rw (first, scan_loop) rest) in
    let (q, r, left, kept') =
      Looped-some p' _ _ b partial (deliver_each callback (g ∷ fs) t)
        (extract_loop-Looped (p'.size + 1) m callback false p' s kept.sound) (rw shown run) in
    (
      q,
      feed-room m callback p chunk s h.capacity registered fits given
          ∙ extract_into_lem m callback p' q b s _ r,
      left,
      Kept-trans p p' q kept kept',
    )
