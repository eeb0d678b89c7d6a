-- ===== src/Stream/Refine.antt =====
-- Each round of `extractFrames` does on the array what the scanner does on the list of bytes held.
use midi2pwmv2_libcomm.Common.{
  ℕ, ◌+◌, ◌-◌, ◌≤◌, ◌<◌, ◌≡◌, refl, sym, ap, ◌∙◌, arith, ltb, Bool, true, false, if◌then◌else◌,
  none, some, inl, inr, Bool-cases, Option-cases, take, drop, drop_past, take-take, drop-take, ◌%◌,
  le_word, points,
}
use midi2pwmv2_libcomm.Transport.{expected_total_size_bytes, handle_incoming}
use midi2pwmv2_libcomm.Stream.{
  buffer_capacity, minimum_frame_size, FrameCallback, invalid_frame_size, crc_failure,
  sync_recovery_attempt, StreamProcessor, find_version, Round, breaks, continues, report_error,
  move_to_start, try_sync, consume, after_oversize, after_failure, process_frame, extract_round,
}
use midi2pwmv2_libcomm.Stream.Pending.{
  resync, Scan, ends, goes, scan, scan_damaged, scan_oversize, scan_frame, pending, IsProcessor,
  length-pending, pending-move_to_start, move_to_start-IsProcessor, find_version_bounds,
  resync-find_version,
}

-- A processor after some steps: sound, with the callbacks that it had.
pub record Kept {S : Type 0} (p q : StreamProcessor S) : Type 0 where
  pub sound : IsProcessor q
  pub frames : q.frame_callback ≡ p.frame_callback
  pub errors : q.error_callback ≡ p.error_callback

module _ {S : Type 0} where
  pub Kept-refl : (p : StreamProcessor S) → IsProcessor p → Kept p p
  Kept-refl p h = record { sound = h; frames = refl; errors = refl }

  abbrev view : Round S → Scan S
  view (breaks p s) = ends (pending p) s
  view (continues b p s) = goes b (pending p) s

  abbrev processor_of : Round S → StreamProcessor S
  processor_of (breaks p s) = p
  processor_of (continues b p s) = p

  -- `try_sync` reports its attempt, and either finds nothing or drops what stands before the byte found.
  pub data Synced (p : StreamProcessor S) (s : S) (r : Bool × StreamProcessor S × S) : Type 0 where
    lost :
        resync (pending p) ≡ none
        → r ≡ (false, p, report_error p sync_recovery_attempt s)
        → Synced p s r
    found :
        (q : StreamProcessor S)
        → resync (pending p) ≡ some (pending q)
        → r ≡ (true, q, report_error p sync_recovery_attempt s)
        → Kept p q
        → q.size < p.size
        → Synced p s r

  pub try_sync-Synced : (p : StreamProcessor S) (s : S) → IsProcessor p → Synced p s (try_sync p s)
  unfolding try_sync
  try_sync-Synced p s h =
      let searched = resync-find_version p.size p.buffer (omega (arith, h)) in
      elim (Option-cases (find_version (p.size - 1) 1 p.buffer)) [
        | inl e ↦ lost (rw e at searched) (rw (e, try_sync) refl)
        | inr (q, e) ↦
            let (low, high) = find_version_bounds (p.size - 1) 1 p.buffer q e in
            found (move_to_start p q)
              ((rw e at searched) ∙ ap some (sym (pending-move_to_start p h q (omega arith))))
              (rw (e, try_sync) refl)
              (record {
                sound = move_to_start-IsProcessor p h q (omega arith);
                frames = refl;
                errors = refl;
              })
              (omega arith)
      ]

  -- Taking a frame off the array drops it from the list.
  pending-consume :
      (p : StreamProcessor S) (n : ℕ)
      → IsProcessor p
      → n ≤ p.size
      → (pending (consume p n) ≡ drop n (pending p)) × Kept p (consume p n)
  pending-consume p n h le = elim (Bool-cases (ltb 0 (p.size - n))) [
    | inl more ↦ rw more (
      pending-move_to_start p h n le,
      record { sound = move_to_start-IsProcessor p h n le; frames = refl; errors = refl },
    )
    | inr whole ↦
        let nothing_left : p.size - n ≡ 0 = ground arith in
        rw whole (
          ap (λ k. take k p.buffer) nothing_left
              ∙ sym (drop_past n (pending p) (omega (arith, length-pending p h))),
          record {
            sound = record { capacity = h.capacity; within = omega (arith, h) };
            frames = refl;
            errors = refl;
          },
        )
  ]

  -- A round and the scanner's round agree on the list, the state and how they end.
  pub record Refines (p : StreamProcessor S) (r : Round S) (sc : Scan S) : Type 0 where
    pub viewed : view r ≡ sc
    pub kept : Kept p (processor_of r)

  module _ (m : ℕ) (callback : FrameCallback S) (p : StreamProcessor S) (h : IsProcessor p) where
    after_failure-Refines :
        (expected : ℕ) (s : S)
        → expected ≤ p.size
        → Refines p (after_failure p expected s) (
            scan_damaged m callback
              (report_error p)
              (pending p)
              (drop expected (pending p))
              (report_error p sync_recovery_attempt (report_error p crc_failure s)))
    unfolding after_failure
    after_failure-Refines expected s le =
        elim (try_sync-Synced p (report_error p crc_failure s) h) [
          | lost e r ↦
              let (dropped, kept) = pending-consume p expected h le in
              rw (r, e, scan_damaged)
                (record {
                  viewed =
                      ap
                        (λ ys.
                          goes false ys
                            (report_error p sync_recovery_attempt (report_error p crc_failure s)))
                        dropped;
                  kept = kept;
                })
          | found q e r kept shorter ↦
              rw (r, e, scan_damaged) (record { viewed = refl; kept = kept })
        ]

    after_oversize-Refines :
        (s : S)
        → Refines p (after_oversize p s) (
            scan_oversize m callback
              (report_error p)
              (pending p)
              (report_error p sync_recovery_attempt (report_error p invalid_frame_size s)))
    unfolding after_oversize
    after_oversize-Refines s = elim (try_sync-Synced p (report_error p invalid_frame_size s) h) [
      | lost e r ↦
          rw (r, e, scan_oversize)
            (record {
              viewed = refl;
              kept = record {
                sound = record { capacity = h.capacity; within = omega arith };
                frames = refl;
                errors = refl;
              };
            })
      | found q e r kept shorter ↦ rw (r, e, scan_oversize) (record { viewed = refl; kept = kept })
    ]

    process_frame-Refines :
        (expected : ℕ) (s : S)
        → expected ≤ p.size
        → Refines p
            (process_frame m callback p expected s)
            (scan_frame m callback (report_error p) (pending p) expected s)
    unfolding process_frame scan_frame
    process_frame-Refines expected s le =
        let same : take expected (pending p) ≡ take expected p.buffer =
          take-take expected p.size p.buffer le in
        let (dropped, kept) = pending-consume p expected h le in
        let answer : Bool × S =
          handle_incoming m (points (take expected p.buffer))
            (some (λ payload t. (true, callback payload t))) s in
        rw same (elim (Bool-cases answer.0) [
          | inl good ↦
              rw (good, process_frame)
                (record { viewed = ap (λ ys. goes true ys answer.1) dropped; kept = kept })
          | inr bad ↦ rw (bad, process_frame) (after_failure-Refines expected answer.1 le)
        ])

    -- On a sound processor every round of `extractFrames` does what the scanner does on the bytes held,
    -- and leaves the processor sound with its callbacks.
    pub extract_round-Refines :
        (s : S)
        → Refines p (extract_round m callback p s) (scan m callback (report_error p) (pending p) s)
    unfolding extract_round scan
    extract_round-Refines s = rw (length-pending p h) (elim (Bool-cases (ltb p.size 8)) [
      | inl short ↦ rw short (record { viewed = refl; kept = Kept-refl p h })
      | inr long ↦
          rw (long, same_field (ground arith)) (rest (expected_total_size_bytes m p.buffer))
    ])
      where
        same_field :
            8 ≤ p.size
            → expected_total_size_bytes m (pending p) ≡ expected_total_size_bytes m p.buffer
        same_field le =
            ap (λ r. (8 + le_word r + 4) % m)
              (ap (take 4) (drop-take 4 p.size p.buffer)
                ∙ take-take 4 (p.size - 4) (drop 4 p.buffer) (omega arith))

        rest :
            (expected : ℕ)
            → Refines p
                (if ltb buffer_capacity expected
                  then after_oversize p s
                  else if ltb p.size minimum_frame_size
                  then breaks p s
                  else if ltb p.size expected
                  then breaks p s
                  else process_frame m callback p expected s)
                (if ltb buffer_capacity expected
                  then scan_oversize m callback
                      (report_error p)
                      (pending p)
                      (report_error p sync_recovery_attempt (report_error p invalid_frame_size s))
                  else if ltb p.size 12
                  then ends (pending p) s
                  else if ltb p.size expected
                  then ends (pending p) s
                  else scan_frame m callback (report_error p) (pending p) expected s)
        rest expected = elim (Bool-cases (ltb buffer_capacity expected)) [
          | inl large ↦ rw large (after_oversize-Refines s)
          | inr fits ↦ rw fits (elim (Bool-cases (ltb p.size 12)) [
            | inl early ↦ rw early (record { viewed = refl; kept = Kept-refl p h })
            | inr enough ↦ rw enough (elim (Bool-cases (ltb p.size expected)) [
              | inl waits ↦ rw waits (record { viewed = refl; kept = Kept-refl p h })
              | inr ready ↦ rw ready (process_frame-Refines expected s (ground arith))
            ])
          ])
        ]
