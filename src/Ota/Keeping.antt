-- ===== src/Ota/Keeping.antt =====
-- Every handler of `OtaManager` keeps to the order of calls that the automaton allows.
use midi2pwmv2_libcomm.Common.{
  ℕ, ◌+◌, ◌%◌, ◌^◌, ◌≡◌, refl, sym, ap, ◌∙◌, arith, ◌==◌, true, false, ◌||◌, ◌⊎◌, inl, inr,
  Bool-cases, Option, none, some, List, length, Span, null, points,
}
use midi2pwmv2_libcomm.Ota.{
  Target, OtaStatus, idle, preparing, receiving, verifying, applying, rebooting, error, is_idle,
  is_receiving, FlashWriter, SendProgress, OtaManager, transition_to, count_chunk, store_chunk,
  accept_chunk, handle_data, verify_image, finish_image, handle_end,
}
use midi2pwmv2_libcomm.Ota.Protocol.{
  Phase, finished, failed, writing, phase_of, watched, watched_send, Agrees, report_progress-phase,
  transition_to-phase, abort_with-Agrees, activate_slot-Agrees,
}

pub receiving-cases :
    (st : OtaStatus) → (is_receiving st ≡ false) ⊎ ((is_receiving st ≡ true) × (st ≡ receiving))
receiving-cases idle = inl refl
receiving-cases preparing = inl refl
receiving-cases receiving = inr (refl, refl)
receiving-cases verifying = inl refl
receiving-cases applying = inl refl
receiving-cases rebooting = inl refl
receiving-cases error = inl refl

pub idle-cases : (st : OtaStatus) → (is_idle st ≡ false) ⊎ ((is_idle st ≡ true) × (st ≡ idle))
idle-cases idle = inr (refl, refl)
idle-cases preparing = inl refl
idle-cases receiving = inl refl
idle-cases verifying = inl refl
idle-cases applying = inl refl
idle-cases rebooting = inl refl
idle-cases error = inl refl

module _ {W : Type 0} (writer : FlashWriter W) (target : Target)
    (send : Option (SendProgress W)) where
  abbrev F : FlashWriter (W × Option Phase)
  F = watched writer

  abbrev P : Option (SendProgress (W × Option Phase))
  P = watched_send send

  verify_image-Agrees :
      (o : OtaManager) (x : W × Option Phase)
      → x.1 ≡ some finished
      → Agrees (verify_image F target P o x)
  unfolding verify_image
  verify_image-Agrees o x e =
      let o1 = transition_to F target P o verifying none x in
      let still : o1.1.1 ≡ some finished =
        transition_to-phase writer target send o verifying none x ∙ e in
      elim (Bool-cases (writer.verify o1.0.expected_crc32 o1.1.0).0) [
        | inl good ↦ rw good (activate_slot-Agrees writer target send o1.0 _ (rw still refl))
        | inr bad ↦ rw bad (abort_with-Agrees writer target send o1.0 _ _ failed (rw still refl))
      ]

  finish_image-Agrees :
      (o : OtaManager) (x : W × Option Phase) (k : ℕ)
      → x.1 ≡ some (writing k)
      → Agrees (finish_image F target P o x)
  unfolding finish_image
  finish_image-Agrees o x k e = elim (Bool-cases (writer.finish x.0).0) [
    | inl good ↦ rw good (verify_image-Agrees o _ (rw e refl))
    | inr bad ↦ rw bad (abort_with-Agrees writer target send o _ _ failed (rw e refl))
  ]

  -- While receiving, the automaton waits for the next chunk.
  receiving-writing :
      (o : OtaManager) (x : W × Option Phase)
      → Agrees (o, x)
      → o.status ≡ receiving
      → x.1 ≡ some (writing o.received_chunks)
  receiving-writing o x h e = h.stands ∙ sym h.rests ∙ ap (λ st. phase_of st o.received_chunks) e

  pub handle_end-Agrees :
      (o : OtaManager) (x : W × Option Phase) → Agrees (o, x) → Agrees (handle_end F target P o x)
  unfolding handle_end
  handle_end-Agrees o x h = elim (receiving-cases o.status) [
    | inl other ↦ rw other h
    | inr (now, e) ↦ rw now (elim (Bool-cases (o.received_chunks == o.total_chunks)) [
      | inl all ↦ rw all (finish_image-Agrees o x o.received_chunks (receiving-writing o x h e))
      | inr some_missing ↦
          rw some_missing (abort_with-Agrees writer target send o _ x h.phase h.stands)
    ])
  ]

  count_chunk-Agrees :
      (o : OtaManager) (x : W × Option Phase)
      → o.status ≡ receiving
      → x.1 ≡ some (writing ((o.received_chunks + 1) % 2 ^ 16))
      → Agrees (count_chunk F target P o x)
  unfolding count_chunk
  count_chunk-Agrees o x e stands =
      let next : ℕ = (o.received_chunks + 1) % 2 ^ 16 in
      let o' : OtaManager = record o { received_chunks = next } in
      let rests : phase_of o.status next ≡ some (writing next) = ap (λ st. phase_of st next) e in
      elim (Bool-cases ((next == o.total_chunks) || ((next % 50) == 0))) [
        | inl due ↦ rw due (record {
          phase = writing next;
          rests = rests;
          stands = report_progress-phase writer target send o' none x ∙ stands;
        })
        | inr quiet ↦ rw quiet (record { phase = writing next; rests = rests; stands = stands })
      ]

  store_chunk-Agrees :
      (o : OtaManager) (bytes : List ℕ) (x : W × Option Phase)
      → o.status ≡ receiving
      → x.1 ≡ some (writing o.received_chunks)
      → Agrees (store_chunk F target P o o.received_chunks bytes x)
  unfolding store_chunk
  store_chunk-Agrees o bytes x e stands =
      let same : (o.received_chunks == o.received_chunks) ≡ true = ground arith in
      elim (Bool-cases (writer.write_chunk o.received_chunks bytes x.0).0) [
        | inl good ↦ rw good (count_chunk-Agrees o _ e (rw (stands, same) refl))
        | inr bad ↦
            rw bad (abort_with-Agrees writer target send o _ _ failed (rw (stands, same) refl))
      ]

  accept_chunk-Agrees :
      (o : OtaManager) (chunk : Span) (x : W × Option Phase)
      → o.status ≡ receiving
      → x.1 ≡ some (writing o.received_chunks)
      → Agrees (accept_chunk F target P o o.received_chunks chunk x)
  unfolding accept_chunk
  accept_chunk-Agrees o (null n) x e stands =
      abort_with-Agrees writer target send o _ x (writing o.received_chunks) stands
  accept_chunk-Agrees o (points bytes) x e stands = elim (Bool-cases (length bytes == 0)) [
    | inl empty ↦
        rw empty (abort_with-Agrees writer target send o _ x (writing o.received_chunks) stands)
    | inr given ↦ rw given (store_chunk-Agrees o bytes x e stands)
  ]

  pub handle_data-Agrees :
      (o : OtaManager) (index : ℕ) (chunk : Span) (x : W × Option Phase)
      → Agrees (o, x)
      → Agrees (handle_data F target P o index chunk x)
  unfolding handle_data
  handle_data-Agrees o index chunk x h = elim (receiving-cases o.status) [
    | inl other ↦ rw other h
    | inr (now, e) ↦ rw now (elim (Bool-cases (index == o.received_chunks)) [
      | inl expected ↦
          let same : index ≡ o.received_chunks = ground arith in
          rw (expected, same) (accept_chunk-Agrees o chunk x e (receiving-writing o x h e))
      | inr wrong ↦ rw wrong (abort_with-Agrees writer target send o _ x h.phase h.stands)
    ])
  ]
