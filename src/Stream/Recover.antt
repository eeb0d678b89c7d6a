-- ===== src/Stream/Recover.antt =====
-- A damaged frame in the middle of a stream: how `extractFrames` finds the frames behind it.
mod Examples
use midi2pwmv2_libcomm.Common.{
  ℕ, zero, suc, ◌+◌, ◌%◌, ◌≤◌, ◌<◌, ◌≡◌, ◌≢◌, refl, sym, ap, ◌∙◌, arith, ◌==◌, ltb, Bool, true,
  false, ◌⊎◌, inl, inr, none, some, List, [], ◌∷◌, ◌++◌, append_assoc, length, length-append,
  get_or, take, drop, take_append, drop_append, le_word, IsByte, All, points,
}
use midi2pwmv2_libcomm.Transport.{expected_total_size_bytes, handle_incoming}
use midi2pwmv2_libcomm.Transport.Frame.{frame, frame_shape, length-frame}
use midi2pwmv2_libcomm.Transport.Receive.{IsSizeModulus}
use midi2pwmv2_libcomm.Transport.Damage.{damaged_frame_refused}
use midi2pwmv2_libcomm.Stream.{
  buffer_capacity, ErrorType, FrameCallback, crc_failure, sync_recovery_attempt, StreamProcessor,
  report_error, extract_frames, append_bytes, feed,
}
use midi2pwmv2_libcomm.Stream.Pending.{
  from_version, resync, goes, scan, scan_damaged, scan_frame, pending, IsProcessor, length-pending,
}
use midi2pwmv2_libcomm.Stream.Refine.{Kept}
use midi2pwmv2_libcomm.Stream.Loop.{
  scan_loop, Looped-some, extract_loop-Looped, Kept-trans, report_error-kept,
}
use midi2pwmv2_libcomm.Stream.Deliver.{
  IsSendable, frame_of, stream, deliver_each, field_within, expected-frame, scan-frame,
  scan_loop-stream,
}
use midi2pwmv2_libcomm.Stream.Feed.{
  append_bytes-Kept, pending-append_bytes, length-stream, feed-room, extract_into_lem,
}
use midi2pwmv2_libcomm.Stream.Damaged.{
  HasNoVersion, IsDamaged, stream-IsRest, length-damaged, scan-damaged,
}

module _ {S : Type 0} (m : ℕ) (wide : IsSizeModulus m) (callback : FrameCallback S)
    (report : ErrorType → S → S) where
  -- The frames in front are taken off, and the rest of the fuel is there for what follows.
  scan_loop-front :
      (fuel : ℕ) (any : Bool) (fs : List (ℕ × List ℕ)) (rest : List ℕ) (s : S)
      → All IsSendable fs
      → length fs < fuel
      → (left : ℕ) × (b : Bool) × (left + length fs ≡ fuel)
        × (scan_loop m callback report fuel any (stream fs ++ rest) s
            ≡ scan_loop m callback report left b rest (deliver_each callback fs s))
  unfolding scan_loop
  scan_loop-front fuel any [] rest s hs enough = (fuel, any, omega arith, refl)
  scan_loop-front zero any (g ∷ fs) rest s hs enough = absurd (omega arith)
  scan_loop-front (suc fuel) any (g ∷ fs) rest s hs enough =
      let (left, b, used, run) =
        scan_loop-front fuel true fs rest (callback g.1 s) hs.1 (omega arith) in
      (
        left,
        b,
        omega (arith, used),
        rw (append_assoc (frame_of g) (stream fs) rest)
            (rw (scan-frame m wide callback report g (stream fs ++ rest) s hs.0, scan_loop) run),
      )

  -- Frames, a damaged one, frames, and a part of a further one.
  scan_loop-damaged :
      (fuel : ℕ) (es fs : List (ℕ × List ℕ)) (g f : ℕ × List ℕ) (d partial tail : List ℕ) (s : S)
      → All IsSendable es
      → IsSendable g
      → IsDamaged g.0 g.1 d
      → HasNoVersion d
      → All IsSendable fs
      → IsSendable f
      → partial ++ tail ≡ frame_of f
      → 0 < length tail
      → length es + length fs + 1 < fuel
      → (b : Bool) × (scan_loop m callback report fuel false
            (stream es ++ (d ++ (stream fs ++ partial)))
            s
          ≡ some (
            b,
            partial,
            deliver_each callback fs
                (report sync_recovery_attempt (report crc_failure (deliver_each callback es s))),
          ))
  unfolding scan_loop
  scan_loop-damaged fuel es fs g f d partial tail s he hg damage clear hs hf part more enough =
      let (left, b, used, run) =
        scan_loop-front fuel false es (d ++ (stream fs ++ partial)) s he (omega arith) in
      rw run (behind left b (omega (arith, used)))
    where
      behind :
          (left : ℕ) (b : Bool)
          → length fs + 1 < left
          → (c : Bool) × (scan_loop m callback report left b
                (d ++ (stream fs ++ partial))
                (deliver_each callback es s)
              ≡ some (
                c,
                partial,
                deliver_each callback fs (
                    report sync_recovery_attempt (report crc_failure (deliver_each callback es s))),
              ))
      behind zero b enough' = absurd (omega arith)
      behind (suc left) b enough' =
          rw
            (
              scan-damaged m wide callback report g.0 g.1 d (stream fs ++ partial)
                  (deliver_each callback es s) hg damage clear
                  (stream-IsRest fs f partial tail part),
              scan_loop,
            )
            (scan_loop-stream m wide callback report left b fs f partial tail _ hs hf part more
              (omega arith))

-- A processor gets a chunk after which it holds some frames, then a frame damaged in at most four
-- consecutive bytes behind its header and without a byte 1 behind its first, then more frames and a proper
-- part of a further one: all payloads but the damaged frame's are delivered, in order and once each;
-- between those before it and those behind it a CRC failure and one attempt to synchronise are reported,
-- and nothing else; the part is held.
pub feed-damaged :
    {S : Type 0} (m : ℕ) (callback : FrameCallback S) (p : StreamProcessor S) (chunk : List ℕ)
    (es fs : List (ℕ × List ℕ)) (g f : ℕ × List ℕ) (d partial tail : List ℕ) (s : S)
    → IsSizeModulus m
    → IsProcessor p
    → p.frame_callback ≡ some callback
    → p.size + length chunk ≤ buffer_capacity
    → 0 < length chunk
    → All IsSendable es
    → IsSendable g
    → IsDamaged g.0 g.1 d
    → HasNoVersion d
    → All IsSendable fs
    → IsSendable f
    → pending p ++ chunk ≡ stream es ++ (d ++ (stream fs ++ partial))
    → partial ++ tail ≡ frame_of f
    → 0 < length tail
    → (q : StreamProcessor S) × (feed m p (points chunk) s
        ≡ some (
          q,
          deliver_each callback fs (
              report_error p sync_recovery_attempt
                (report_error p crc_failure (deliver_each callback es s))),
        ))
      × (pending q ≡ partial)
      × Kept p q
unfolding extract_frames
feed-damaged {S} m callback p chunk es fs g f d partial tail s wide h registered fits given he hg
      damage clear hs hf held part more =
    let p' = append_bytes p chunk in
    let kept : Kept p p' = append_bytes-Kept p chunk h fits in
    let shown : pending p' ≡ stream es ++ (d ++ (stream fs ++ partial)) =
      pending-append_bytes p chunk h fits ∙ held in
    let enough : length es + length fs + 1 < p'.size + 1 = omega (
      arith,
      length-stream es,
      length-stream fs,
      length-damaged g.0 g.1 d damage,
      length-append (stream es) (d ++ (stream fs ++ partial)),
      length-append d (stream fs ++ partial),
      length-append (stream fs) partial,
      ap length shown,
      length-pending p' kept.sound,
    ) in
    let (b, run) =
      scan_loop-damaged m wide callback (report_error p') (p'.size + 1) es fs g f d partial tail s
        he hg damage clear hs hf part more enough in
    let (q, r, left, kept') =
      Looped-some p' _ _ b partial _
        (extract_loop-Looped (p'.size + 1) m callback false p' s kept.sound) (rw shown run) in
    (
      q,
      feed-room m callback p chunk s h.capacity registered fits given
          ∙ extract_into_lem m callback p' q b s _ r
          ∙ ap
              (λ (report : ErrorType → S → S). some (
                q,
                deliver_each callback fs (
                    report sync_recovery_attempt (report crc_failure (deliver_each callback es s))),
              ))
              (report_error-kept p p' kept.errors),
      left,
      Kept-trans p p' q kept kept',
    )
