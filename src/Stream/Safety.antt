-- ===== src/Stream/Safety.antt =====
-- `feed` on any input: it returns, and the buffer is never left in a bad state.
use midi2pwmv2_libcomm.Common.{
  ℕ, suc, drop, ◌+◌, ◌-◌, ◌≤◌, ◌≡◌, refl, arith, ◌==◌, ltb, Bool, if◌then◌else◌, Option, none, some,
  inl, inr, Bool-cases, List, [], ◌∷◌, length, All, All-append, All-drop, IsByte, Span, null,
  points,
}
use midi2pwmv2_libcomm.Stream.{
  buffer_capacity, FrameCallback, StreamProcessor, invalid_header, buffer_overflow, report_error,
  append_bytes, extract_into, accept_bytes, feed,
}
use midi2pwmv2_libcomm.Stream.Pending.{resync, pending, IsProcessor}
use midi2pwmv2_libcomm.Stream.Refine.{Kept, Kept-refl, Synced, lost, found, try_sync-Synced}
use midi2pwmv2_libcomm.Stream.Loop.{Kept-trans}
use midi2pwmv2_libcomm.Stream.Terminate.{IsWide, resync-drop, extract_frames_total}
use midi2pwmv2_libcomm.Stream.Feed.{append_bytes-Kept, pending-append_bytes, extract_into_lem}
use midi2pwmv2_libcomm.Stream.Chunks.{feed_each}

-- A sound processor that holds bytes.
pub record IsHolding {S : Type 0} (p : StreamProcessor S) : Type 0 where
  pub sound : IsProcessor p
  pub bytes : All IsByte (pending p)

-- A call that returned, with a processor that is as sound as the one before and has its callbacks.
pub record Returns {S : Type 0} (p : StreamProcessor S) (r : Option (StreamProcessor S × S))
    : Type 0 where
  pub processor : StreamProcessor S
  pub state : S
  pub result : r ≡ some (processor, state)
  pub kept : Kept p processor
  pub holding : All IsByte (pending processor)

abbrev IsBytes : Span → Type 0
IsBytes (null n) = Unit
IsBytes (points bytes) = All IsByte bytes

resync-bytes : (xs ys : List ℕ) → All IsByte xs → resync xs ≡ some ys → All IsByte ys
resync-bytes xs ys h e = elim (resync-drop xs) [
  | inl none_left ↦ absurd (cc)
  | inr (k, e', less) ↦
      let same : drop (suc k) xs ≡ ys = cc in rw⁻¹ same (All-drop IsByte (suc k) xs h)
]

module _ {S : Type 0} (m : ℕ) (wide : IsWide m) where
  extract_into-Returns :
      (callback : FrameCallback S) (p : StreamProcessor S) (s : S)
      → IsHolding p
      → Returns p (extract_into m callback p s)
  extract_into-Returns callback p s h =
      let (b, q, t, run, kept, left) = extract_frames_total m callback p s wide h.sound h.bytes in
      record {
        processor = q;
        state = t;
        result = extract_into_lem m callback p q b s t run;
        kept = kept;
        holding = left;
      }

  Returns-after :
      (p q : StreamProcessor S) (r : Option (StreamProcessor S × S))
      → Kept p q
      → Returns q r
      → Returns p r
  Returns-after p q r k h = record {
    processor = h.processor;
    state = h.state;
    result = h.result;
    kept = Kept-trans p q h.processor k h.kept;
    holding = h.holding;
  }

  append-Returns :
      (callback : FrameCallback S) (p : StreamProcessor S) (bytes : List ℕ) (s : S)
      → IsHolding p
      → All IsByte bytes
      → p.size + length bytes ≤ buffer_capacity
      → Returns p (extract_into m callback (append_bytes p bytes) s)
  append-Returns callback p bytes s h given fits =
      let kept = append_bytes-Kept p bytes h.sound fits in
      Returns-after p (append_bytes p bytes) _ kept (
        extract_into-Returns callback (append_bytes p bytes) s (record {
          sound = kept.sound;
          bytes =
              rw (pending-append_bytes p bytes h.sound fits)
                (All-append IsByte (pending p) bytes h.bytes given);
        }))

  -- What `feed` does once it has made room, or has failed to.
  room-Returns :
      (callback : FrameCallback S) (p : StreamProcessor S) (bytes : List ℕ) (s : S)
      → IsHolding p
      → All IsByte bytes
      → Returns p (
          if ltb (length p.buffer - p.size) (length bytes)
          then some (p, s)
          else extract_into m callback (append_bytes p bytes) s)
  room-Returns callback p bytes s h given =
      elim (Bool-cases (ltb (length p.buffer - p.size) (length bytes))) [
        | inl full ↦ rw full (record {
          processor = p;
          state = s;
          result = refl;
          kept = Kept-refl p h.sound;
          holding = h.bytes;
        })
        | inr room ↦
            let fits : p.size + length bytes ≤ buffer_capacity =
              ground (arith, h.sound.capacity, h.sound.within) in
            rw room (append-Returns callback p bytes s h given fits)
      ]

  emptied-Kept : (p : StreamProcessor S) → IsProcessor p → Kept p (record p { size = 0 })
  emptied-Kept p h = record {
    sound = record { capacity = h.capacity; within = omega arith };
    frames = refl;
    errors = refl;
  }

  accept_bytes-Returns :
      (callback : FrameCallback S) (p : StreamProcessor S) (bytes : List ℕ) (s : S)
      → IsHolding p
      → All IsByte bytes
      → Returns p (accept_bytes m callback p bytes s)
  unfolding accept_bytes
  accept_bytes-Returns callback p bytes s h given =
      elim (Bool-cases (ltb (length p.buffer - p.size) (length bytes))) [
        | inl full ↦
            rw full (recovered (try_sync-Synced p (report_error p buffer_overflow s) h.sound))
        | inr room ↦
            let fits : p.size + length bytes ≤ buffer_capacity =
              ground (arith, h.sound.capacity, h.sound.within) in
            rw room (append-Returns callback p bytes s h given fits)
      ]
    where
      recovered :
          {r : Bool × StreamProcessor S × S}
          → Synced p (report_error p buffer_overflow s) r
          → Returns p (
              let settled = if r.0 then r.1 else record r.1 { size = 0 } in
              if ltb (length settled.buffer - settled.size) (length bytes)
              then some (settled, r.2)
              else extract_into m callback (append_bytes settled bytes) r.2)
      recovered (lost e at_r) = rw at_r (
          Returns-after p (record p { size = 0 }) _ (emptied-Kept p h.sound)
            (room-Returns callback (record p { size = 0 }) bytes _
              (record { sound = (emptied-Kept p h.sound).sound; bytes = tt }) given))
      recovered (found q e at_r kept shorter) = rw at_r (
          Returns-after p q _ kept (
            room-Returns callback q bytes _
              (record { sound = kept.sound; bytes = resync-bytes _ _ h.bytes e }) given))

  -- On a `std::size_t` of 64 bits, one call of `feed` with any bytes or a null pointer, on a sound
  -- processor that holds bytes, with or without callbacks: the call returns, and the processor is as sound
  -- as before, holds bytes and has its callbacks.
  pub feed-Returns :
      (p : StreamProcessor S) (input : Span) (s : S)
      → IsHolding p
      → IsBytes input
      → Returns p (feed m p input s)
  unfolding feed
  feed-Returns p (null n) s h given = record {
    processor = p;
    state = s;
    result = refl;
    kept = Kept-refl p h.sound;
    holding = h.bytes;
  }
  feed-Returns p (points bytes) s h given = elim (Bool-cases (length bytes == 0)) [
    | inl empty ↦ rw empty (record {
      processor = p;
      state = s;
      result = refl;
      kept = Kept-refl p h.sound;
      holding = h.bytes;
    })
    | inr full ↦ rw full (registered p.frame_callback)
  ]
    where
      registered :
          (callback : Option (FrameCallback S))
          → Returns p (elim callback [
            | none ↦ some (p, report_error p invalid_header s)
            | some f ↦ accept_bytes m f p bytes s
          ])
      registered none = record {
        processor = p;
        state = report_error p invalid_header s;
        result = refl;
        kept = Kept-refl p h.sound;
        holding = h.bytes;
      }
      registered (some f) = accept_bytes-Returns f p bytes s h given

  -- On a `std::size_t` of 64 bits, any number of calls of `feed` with any bytes, on a sound processor that
  -- holds bytes: every call returns, and after the last one the array has its size, at most 4108 bytes are
  -- held, and the callbacks are those that were set.
  pub feed_each-Returns :
      (cs : List (List ℕ)) (p : StreamProcessor S) (s : S)
      → IsHolding p
      → All (All IsByte) cs
      → Returns p (feed_each m cs p s)
  unfolding feed_each
  feed_each-Returns [] p s h given = record {
    processor = p;
    state = s;
    result = refl;
    kept = Kept-refl p h.sound;
    holding = h.bytes;
  }
  feed_each-Returns (c ∷ cs) p s h given =
      let once = feed-Returns p (points c) s h given.0 in
      rw (once.result, feed_each)
        (Returns-after p once.processor _ once.kept (
          feed_each-Returns cs once.processor once.state
            (record { sound = once.kept.sound; bytes = once.holding }) given.1))
