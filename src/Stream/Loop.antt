-- ===== src/Stream/Loop.antt =====
-- The loop of `extractFrames` is the scanner's loop on the list of bytes held.
use mathlib.Core.Path.{fun_ext}
use midi2pwmv2_libcomm.Common.{
  ℕ, zero, suc, ◌≡◌, refl, ◌∙◌, Bool, true, if◌then◌else◌, Option, none, some, ◌⊎◌, inl, inr, List,
}
use midi2pwmv2_libcomm.Stream.{
  ErrorType, FrameCallback, StreamProcessor, Round, breaks, continues, report_error, extract_round,
  extract_loop,
}
use midi2pwmv2_libcomm.Stream.Pending.{ends, goes, scan, pending, IsProcessor}
use midi2pwmv2_libcomm.Stream.Refine.{Kept, Refines, extract_round-Refines}

module _ {S : Type 0} (m : ℕ) (callback : FrameCallback S) (report : ErrorType → S → S) where
  unfoldable pub scan_loop : ℕ → Bool → List ℕ → S → Option (Bool × List ℕ × S)
  scan_loop zero any xs s = none
  scan_loop (suc fuel) any xs s = elim (scan m callback report xs s) [
    | ends ys t ↦ some (any, ys, t)
    | goes taken ys t ↦ scan_loop fuel (if taken then true else any) ys t
  ]

module _ {S : Type 0} where
  pub report_error-kept :
      (p q : StreamProcessor S)
      → q.error_callback ≡ p.error_callback
      → report_error q ≡ report_error p
  unfolding report_error
  report_error-kept p q e = fun_ext (λ type. fun_ext (λ s. rw (e, report_error) refl))

  Round-cases :
      (r : Round S)
      → ((q : StreamProcessor S) × (t : S) × (r ≡ breaks q t))
        ⊎ ((b : Bool) × (q : StreamProcessor S) × (t : S) × (r ≡ continues b q t))
  Round-cases (breaks q t) = inl (q, t, refl)
  Round-cases (continues b q t) = inr (b, q, t, refl)

  -- Both loops run out of fuel, or both end, with the same flag, bytes and state.
  pub data Looped (p : StreamProcessor S) (r : Option (Bool × StreamProcessor S × S))
      (sc : Option (Bool × List ℕ × S)) : Type 0 where
    exhausted : r ≡ none → sc ≡ none → Looped p r sc
    ended :
        (b : Bool) (q : StreamProcessor S) (t : S)
        → r ≡ some (b, q, t)
        → sc ≡ some (b, pending q, t)
        → Kept p q
        → Looped p r sc

  pub Kept-trans : (p q r : StreamProcessor S) → Kept p q → Kept q r → Kept p r
  Kept-trans p q r h k = record {
    sound = k.sound;
    frames = k.frames ∙ h.frames;
    errors = k.errors ∙ h.errors;
  }

  Looped-after :
      (p q : StreamProcessor S) (r : Option (Bool × StreamProcessor S × S))
      (sc : Option (Bool × List ℕ × S))
      → Kept p q
      → Looped q r sc
      → Looped p r sc
  Looped-after p q r sc k (exhausted e f) = exhausted e f
  Looped-after p q r sc k (ended b q' t e f k') = ended b q' t e f (Kept-trans p q q' k k')

  pub extract_loop-Looped :
      (fuel m : ℕ) (callback : FrameCallback S) (any : Bool) (p : StreamProcessor S) (s : S)
      → IsProcessor p
      → Looped p
          (extract_loop fuel m callback any p s)
          (scan_loop m callback (report_error p) fuel any (pending p) s)
  unfolding extract_loop scan_loop
  extract_loop-Looped zero m callback any p s h = exhausted refl refl
  extract_loop-Looped (suc fuel) m callback any p s h =
      let ref = extract_round-Refines m callback p h s in
      elim (Round-cases (extract_round m callback p s)) [
        | inl (q, t, e) ↦
            let now : Refines p (breaks q t) (scan m callback (report_error p) (pending p) s) =
              rw e at ref in
            rw (e, extract_loop, ← now.viewed, scan_loop) (ended any q t refl refl now.kept)
        | inr (b, q, t, e) ↦
            let now : Refines p (continues b q t) (scan m callback (report_error p) (pending p) s) =
              rw e at ref in
            let any' : Bool = if b then true else any in
            let rest = extract_loop-Looped fuel m callback any' q t now.kept.sound in
            rw (e, extract_loop, ← now.viewed, scan_loop)
              (Looped-after p q _ _ now.kept (rw (report_error-kept p q now.kept.errors) at rest))
      ]

  -- How a run of the array's loop follows from one of the scanner's.
  pub Looped-some :
      (p : StreamProcessor S) (r : Option (Bool × StreamProcessor S × S))
      (sc : Option (Bool × List ℕ × S)) (b : Bool) (ys : List ℕ) (t : S)
      → Looped p r sc
      → sc ≡ some (b, ys, t)
      → (q : StreamProcessor S) × (r ≡ some (b, q, t)) × (pending q ≡ ys) × Kept p q
  Looped-some p r sc b ys t (exhausted e f) h = absurd (cc)
  Looped-some p r sc b ys t (ended b' q t' e f k) h = (q, cc, cc, k)

  pub Looped-none :
      (p : StreamProcessor S) (r : Option (Bool × StreamProcessor S × S))
      (sc : Option (Bool × List ℕ × S))
      → Looped p r sc
      → sc ≡ none
      → r ≡ none
  Looped-none p r sc (exhausted e f) h = e
  Looped-none p r sc (ended b q t e f k) h = cc
