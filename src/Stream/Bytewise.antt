-- ===== src/Stream/Bytewise.antt =====
-- `StreamProcessor` fed one byte at a time: its buffer is never too small.
mod Examples
use midi2pwmv2_libcomm.Common.{
  ℕ, suc, ◌+◌, ◌≤◌, ◌<◌, ◌≡◌, refl, sym, ap, ◌∙◌, arith, Bool, false, Option, none, some, List, [],
  ◌∷◌, ◌++◌, map, length, length-append, IsByte, All, All-append, points,
}
use midi2pwmv2_libcomm.Stream.{
  buffer_capacity, ErrorType, FrameCallback, StreamProcessor, report_error, extract_frames,
  append_bytes, feed,
}
use midi2pwmv2_libcomm.Stream.Pending.{pending, IsProcessor, length-pending}
use midi2pwmv2_libcomm.Stream.Refine.{Kept, Kept-refl}
use midi2pwmv2_libcomm.Stream.Loop.{
  scan_loop, Looped-some, extract_loop-Looped, Kept-trans, report_error-kept,
}
use midi2pwmv2_libcomm.Stream.Terminate.{IsWide, scan_loop_total}
use midi2pwmv2_libcomm.Stream.Feed.{
  append_bytes-Kept, pending-append_bytes, feed-room, extract_into_lem,
}
use midi2pwmv2_libcomm.Stream.Chunks.{feed_each}
use midi2pwmv2_libcomm.Stream.Safety.{IsHolding}
use midi2pwmv2_libcomm.Stream.Waiting.{IsWaiting, waiting_room, scan_loop-IsWaiting}

-- The scanner on a list without a bound: each byte is put behind those held, and frames are taken off.
unfoldable pub absorb :
    {S : Type 0}
    → ℕ
    → FrameCallback S
    → (ErrorType → S → S)
    → List ℕ
    → S
    → List ℕ
    → Option (List ℕ × S)
absorb m callback report xs s [] = some (xs, s)
absorb m callback report xs s (b ∷ bs) =
    elim (scan_loop m callback report (length xs + 1 + 1) false (xs ++ (b ∷ [])) s) [
      | none ↦ none
      | some (any, ys, t) ↦ absorb m callback report ys t bs
    ]

abbrev pub one_by_one : List ℕ → List (List ℕ)
one_by_one [] = []
one_by_one (b ∷ bs) = (b ∷ []) ∷ one_by_one bs

module _ {S : Type 0} (m : ℕ) (wide : IsWide m) (callback : FrameCallback S) where
  -- What one more byte does.
  record Absorbed (p : StreamProcessor S) (b : ℕ) (s : S) : Type 0 where
    processor : StreamProcessor S
    state : S
    any : Bool
    fed : feed m p (points (b ∷ [])) s ≡ some (processor, state)
    scanned :
        scan_loop m callback
          (report_error p)
          (length (pending p) + 1 + 1)
          false
          (pending p ++ (b ∷ []))
          s
        ≡ some (any, pending processor, state)
    kept : Kept p processor
    holding : All IsByte (pending processor)
    waiting : IsWaiting m (pending processor)

  feed-Absorbed :
      (p : StreamProcessor S) (b : ℕ) (s : S)
      → IsHolding p
      → p.frame_callback ≡ some callback
      → IsWaiting m (pending p)
      → IsByte b
      → Absorbed p b s
  unfolding extract_frames append_bytes report_error
  feed-Absorbed p b s h registered waits byte =
      let fits : p.size + length (b ∷ []) ≤ buffer_capacity =
        omega (arith, waiting_room m (pending p) waits, length-pending p h.sound) in
      let p' = append_bytes p (b ∷ []) in
      let kept : Kept p p' = append_bytes-Kept p (b ∷ []) h.sound fits in
      let shown : pending p' ≡ pending p ++ (b ∷ []) =
        pending-append_bytes p (b ∷ []) h.sound fits in
      let bytes : All IsByte (pending p ++ (b ∷ [])) =
        All-append IsByte (pending p) (b ∷ []) h.bytes (byte, tt) in
      let fuel : length (pending p) + 1 + 1 ≡ p'.size + 1 =
        omega (arith, length-pending p h.sound) in
      let (any, ys, t, run, left) =
        scan_loop_total m callback (report_error p) (p'.size + 1) false (pending p ++ (b ∷ [])) s
          wide bytes
          (omega (arith, length-append (pending p) (b ∷ []), length-pending p h.sound)) in
      let (q, r, same, kept') =
        Looped-some p' _ _ any ys t
          (extract_loop-Looped (p'.size + 1) m callback false p' s kept.sound) (rw shown run) in
      record {
        processor = q;
        state = t;
        any = any;
        fed =
            feed-room m callback p (b ∷ []) s h.sound.capacity registered fits (omega arith)
            ∙ extract_into_lem m callback p' q any s t r;
        scanned = rw fuel (run ∙ ap (λ zs. some (any, zs, t)) (sym same));
        kept = Kept-trans p p' q kept kept';
        holding = rw same left;
        waiting = rw same (
            scan_loop-IsWaiting m callback (report_error p) (p'.size + 1) false
              (pending p ++ (b ∷ [])) s any ys t wide bytes run);
      }

  -- On a `std::size_t` of 64 bits, any bytes at all, fed one at a time to a sound processor with a frame
  -- callback that holds no whole frame: every call is answered, the callbacks are called and the bytes are
  -- given up exactly as a scanner with an unbounded list does it, so that no byte finds the buffer full;
  -- after each call, and so at the end, what is held is again no whole frame.
  pub feed_each-absorb :
      (bs : List ℕ) (p : StreamProcessor S) (s : S)
      → IsHolding p
      → p.frame_callback ≡ some callback
      → IsWaiting m (pending p)
      → All IsByte bs
      → (q : StreamProcessor S) × (t : S) × (feed_each m (one_by_one bs) p s ≡ some (q, t))
        × (absorb m callback (report_error p) (pending p) s bs ≡ some (pending q, t))
        × IsWaiting m (pending q)
        × Kept p q
  unfolding feed_each absorb
  feed_each-absorb [] p s h registered waits bytes = (p, s, refl, refl, waits, Kept-refl p h.sound)
  feed_each-absorb (b ∷ bs) p s h registered waits bytes =
      let one = feed-Absorbed p b s h registered waits bytes.0 in
      let q' : StreamProcessor S = one.processor in
      let (q, t, fed, absorbed, waits', kept) =
        feed_each-absorb bs q' one.state (record { sound = one.kept.sound; bytes = one.holding })
          (one.kept.frames ∙ registered) one.waiting bytes.1 in
      (
        q,
        t,
        rw (one.fed, feed_each) fed,
        rw (one.scanned, absorb)
            (ap (λ report. absorb m callback report (pending q') one.state bs)
                (sym (report_error-kept p q' one.kept.errors))
              ∙ absorbed),
        waits',
        Kept-trans p q' q one.kept kept,
      )
