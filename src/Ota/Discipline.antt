-- ===== src/Ota/Discipline.antt =====
-- Every handler of `OtaManager` keeps to the order of calls that the automaton allows.
use midi2pwmv2_libcomm.Common.{
  ℕ, ◌≡◌, refl, sym, ap, ◌∙◌, ◌==◌, ltb, true, ◌||◌, if◌then◌else◌, inl, inr, Bool-cases, Option,
  none, some, List, [], ◌∷◌, length, points,
}
use midi2pwmv2_libcomm.Ota.{
  Target, idle, preparing, is_idle, empty_chunk, FlashWriter, SendProgress, OtaManager,
  new_ota_manager, OtaData, report_progress, transition_to, abort_with, restart, erase, begin_idle,
  handle_begin, handle_begin_message, handle_data, handle_data_message, handle_end_message,
  handle_abort, handle_abort_message,
}
use midi2pwmv2_libcomm.Ota.Command.{
  Command, calls_begin, calls_begin_message, calls_data, calls_data_message, calls_end,
  calls_end_message, calls_abort, calls_abort_message, call, run,
}
use midi2pwmv2_libcomm.Ota.Protocol.{
  Phase, ready, failed, writing, phase_of, watched, watched_send, Agrees, report_progress-phase,
  fail_with-Agrees, abort_with-Agrees,
}
use midi2pwmv2_libcomm.Ota.Keeping.{idle-cases, handle_end-Agrees, handle_data-Agrees}

module _ {W : Type 0} (writer : FlashWriter W) (target : Target)
    (send : Option (SendProgress W)) where
  abbrev F : FlashWriter (W × Option Phase)
  F = watched writer

  abbrev P : Option (SendProgress (W × Option Phase))
  P = watched_send send

  handle_data_message-Agrees :
      (o : OtaManager) (msg : OtaData) (x : W × Option Phase)
      → Agrees (o, x)
      → Agrees (handle_data_message F target P o msg x)
  unfolding handle_data_message
  handle_data_message-Agrees o msg x h = chunk msg.data_bytes
    where
      chunk :
          (bytes : Option (List ℕ))
          → Agrees {W = W} (elim bytes [
            | none ↦ abort_with F target P o empty_chunk x
            | some given ↦
                if length given == 0
                then abort_with F target P o empty_chunk x
                else handle_data F target P o msg.chunk_index (points given) x
          ])
      chunk none = abort_with-Agrees writer target send o empty_chunk x h.phase h.stands
      chunk (some given) = elim (Bool-cases (length given == 0)) [
        | inl empty ↦
            rw empty (abort_with-Agrees writer target send o empty_chunk x h.phase h.stands)
        | inr full ↦
            rw full (handle_data-Agrees writer target send o msg.chunk_index (points given) x h)
      ]

  erase-Agrees :
      (o : OtaManager) (size : ℕ) (x : W × Option Phase)
      → o.received_chunks ≡ 0
      → x.1 ≡ some ready
      → Agrees (erase F target P o size x)
  unfolding erase transition_to
  erase-Agrees o size x none_yet e =
      let o1 : OtaManager = record o { status = preparing } in
      let x1 = report_progress F target P o1 none x in
      let still : x1.1 ≡ some ready = report_progress-phase writer target send o1 none x ∙ e in
      elim (Bool-cases (writer.begin size x1.0).0) [
        | inl good ↦ rw good (record {
          phase = writing 0;
          rests = ap (λ k. some (writing k)) none_yet;
          stands = report_progress-phase writer target send _ none _ ∙ rw still refl;
        })
        | inr bad ↦ rw bad (abort_with-Agrees writer target send o1 _ _ failed (rw still refl))
      ]

  begin_idle-Agrees :
      (o : OtaManager) (size crc chunks : ℕ) (x : W × Option Phase)
      → o.status ≡ idle
      → x.1 ≡ some ready
      → Agrees (begin_idle F target P o size crc chunks x)
  unfolding begin_idle
  begin_idle-Agrees o size crc chunks x e stands =
      let resting : is_idle o.status ≡ true = ap is_idle e in
      rw resting (elim (Bool-cases ((size == 0) || ltb (writer.max_firmware_size x.0) size)) [
        | inl large ↦ rw large (fail_with-Agrees writer target send o _ x stands)
        | inr fits ↦ rw fits (erase-Agrees _ size x refl stands)
      ])

  handle_begin-Agrees :
      (o : OtaManager) (size crc chunks : ℕ) (x : W × Option Phase)
      → Agrees (o, x)
      → Agrees (handle_begin F target P o size crc chunks x)
  unfolding handle_begin restart
  handle_begin-Agrees o size crc chunks x h = elim (idle-cases o.status) [
    | inl busy ↦ rw busy (begin_idle-Agrees _ size crc chunks _ refl (rw h.stands refl))
    | inr (now, e) ↦ rw now (
        begin_idle-Agrees o size crc chunks x e
          (h.stands ∙ sym h.rests ∙ ap (λ st. phase_of st o.received_chunks) e))
  ]

  handle_abort-Agrees :
      (o : OtaManager) (reason : Option (List ℕ)) (x : W × Option Phase)
      → Agrees (o, x)
      → Agrees (handle_abort F target P o reason x)
  unfolding handle_abort
  handle_abort-Agrees o none x h = elim (idle-cases o.status) [
    | inl busy ↦ rw busy (abort_with-Agrees writer target send o _ x h.phase h.stands)
    | inr (now, e) ↦ rw now h
  ]
  handle_abort-Agrees o (some text) x h = elim (idle-cases o.status) [
    | inl busy ↦ rw busy (abort_with-Agrees writer target send o _ x h.phase h.stands)
    | inr (now, e) ↦ rw now h
  ]

  call-Agrees :
      (c : Command) (o : OtaManager) (x : W × Option Phase)
      → Agrees (o, x)
      → Agrees (call F target P c o x)
  unfolding handle_begin_message handle_end_message handle_abort_message
  call-Agrees (calls_begin size crc chunks) o x h = handle_begin-Agrees o size crc chunks x h
  call-Agrees (calls_begin_message msg) o x h =
      handle_begin-Agrees o msg.firmware_size msg.firmware_crc32 msg.chunk_count x h
  call-Agrees (calls_data index chunk) o x h =
      handle_data-Agrees writer target send o index chunk x h
  call-Agrees (calls_data_message msg) o x h = handle_data_message-Agrees o msg x h
  call-Agrees calls_end o x h = handle_end-Agrees writer target send o x h
  call-Agrees (calls_end_message msg) o x h = handle_end-Agrees writer target send o x h
  call-Agrees (calls_abort reason) o x h = handle_abort-Agrees o reason x h
  call-Agrees (calls_abort_message msg) o x h = handle_abort-Agrees o msg.reason x h

  run-Agrees_from :
      (cs : List Command) (o : OtaManager) (x : W × Option Phase)
      → Agrees (o, x)
      → Agrees (run F target P cs o x)
  unfolding run
  run-Agrees_from [] o x h = h
  run-Agrees_from (c ∷ cs) o x h =
      let r = call F target P c o x in run-Agrees_from cs r.0 r.1 (call-Agrees c o x h)

-- Whatever handlers are called, in whatever order and with whatever answers of the flash writer:
-- no method of the writer is called out of turn, and after every call the session is idle,
-- receiving or rebooting, with the flash in the phase that goes with it. In turn is an erase only
-- when nothing is under way, so that a new start in the middle of a session has called `abort`
-- before it; a chunk only after a successful erase, in the order of the indices from 0 on modulo
-- 2^16; `finish` only after a successful erase and the successful chunks since, of which there may
-- be none; `verify` only after a successful `finish`; `activate` only after a successful `verify`;
-- after a failure only `abort`, which is in turn at any time.
pub run-Agrees :
    {W : Type 0} (writer : FlashWriter W) (target : Target) (send : Option (SendProgress W))
    (cs : List Command) (w : W)
    → Agrees (run (watched writer) target (watched_send send) cs new_ota_manager (w, some ready))
unfolding new_ota_manager
run-Agrees writer target send cs w =
    run-Agrees_from writer target send cs new_ota_manager (w, some ready)
      (record { phase = ready; rests = refl; stands = refl })
