-- ===== src/Ota/Examples.antt =====
-- Update sessions on a flash that keeps what it is told.
use midi2pwmv2_libcomm.Common.{
  ℕ, suc, ◌≡◌, refl, arith, true, none, some, List, [], ◌∷◌, ◌++◌, points,
}
use midi2pwmv2_libcomm.Ota.{
  OtaManager, handle_begin, restart, begin_idle, erase, transition_to, report_progress, handle_end,
  finish_image, verify_image, activate_slot, receiving, esp32, stm32, rebooting, FlashWriter,
  SendProgress, new_ota_manager,
}
use midi2pwmv2_libcomm.Ota.Command.{Command, calls_begin, calls_data, calls_end, calls_abort, run}
use midi2pwmv2_libcomm.Ota.Protocol.{ready, active, watched, watched_send, Agrees}
use midi2pwmv2_libcomm.Ota.Discipline.{run-Agrees}
use midi2pwmv2_libcomm.Ota.Activation.{Ending, handle_end-Ending}
use midi2pwmv2_libcomm.Ota.Progress.{last_status, Told, run-Told}
use midi2pwmv2_libcomm.Ota.Session.{IsReliable, flash_side, host_side, data_commands, run-session}

-- The chunks written, the last first; a flash of 100 bytes.
abbrev pub memory : FlashWriter (List (List ℕ))
memory = record {
  begin = λ n w. (true, []);
  write_chunk = λ i bytes w. (true, bytes ∷ w);
  finish = λ w. (true, w);
  verify = λ crc w. (true, w);
  activate = λ w. (true, w);
  abort = λ w. [];
  max_firmware_size = λ w. 100;
}

pub memory-IsReliable : IsReliable memory
memory-IsReliable = record {
  begins = λ n w. refl;
  writes = λ i bytes w. refl;
  finishes = λ w. refl;
  verifies = λ crc w. refl;
  activates = λ w. refl;
}

-- The host counts the reports.
abbrev pub count_report : SendProgress ℕ
count_report target status received total message n = suc n

abbrev pub two_chunks : List (List ℕ)
two_chunks = (1 ∷ 2 ∷ []) ∷ (3 ∷ []) ∷ []

run-session_example :
    let r =
      run
        (flash_side memory)
        esp32
        (host_side (some count_report))
        (calls_begin 3 77 2 ∷ (data_commands 0 two_chunks ++ (calls_end ∷ [])))
        new_ota_manager
        ([], 0) in
    (r.0
      ≡ record { status = rebooting; expected_crc32 = 77; total_chunks = 2; received_chunks = 2 })
    × (r.1.0 ≡ (3 ∷ []) ∷ (1 ∷ 2 ∷ []) ∷ [])
run-session_example =
    run-session memory esp32 (some count_report) 3 77 two_chunks [] 0 memory-IsReliable
      (omega arith) (omega arith) (omega arith) (omega arith, (omega arith, tt))

-- A chunk out of turn, a new start, a chunk and an abort.
abbrev unruly : List Command
unruly =
    calls_begin 3 77 2
    ∷ calls_data 1 (points (5 ∷ []))
    ∷ calls_begin 3 77 2
    ∷ calls_data 0 (points (5 ∷ []))
    ∷ calls_abort none
    ∷ []

run-Agrees_example :
    Agrees (run (watched memory) stm32 (watched_send none) unruly new_ota_manager ([], some ready))
run-Agrees_example = run-Agrees memory stm32 none unruly []

run-Told_example :
    let r =
      run
        (flash_side memory)
        stm32
        (host_side (some last_status))
        unruly
        new_ota_manager
        ([], none) in
    Told r.0.status r.1.1
run-Told_example = run-Told memory stm32 unruly []

abbrev loaded : OtaManager
loaded = record { status = receiving; expected_crc32 = 77; total_chunks = 2; received_chunks = 2 }

handle_end-Ending_example :
    Ending memory loaded ((3 ∷ []) ∷ []) (
      handle_end
        (flash_side memory)
        esp32
        (host_side (some count_report))
        loaded
        ((3 ∷ []) ∷ [], 0))
handle_end-Ending_example =
    handle_end-Ending memory esp32 (some count_report) loaded ((3 ∷ []) ∷ [], 0) refl

-- An update that announces no chunks ends in the phase `active` with none written.
run-no_chunks :
    (run
      (watched memory)
      esp32
      (watched_send none)
      (calls_begin 3 77 0 ∷ calls_end ∷ [])
      new_ota_manager
      ([], some ready)).1
    ≡ ([], some active)
unfolding run handle_begin restart begin_idle erase transition_to report_progress handle_end
    finish_image verify_image activate_slot new_ota_manager
run-no_chunks = refl
