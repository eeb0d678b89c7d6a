-- ===== src/Ota.antt =====
-- include/libcomm/ota_manager.h, include/libcomm/flash_writer.h and src/ota_manager.cpp: the firmware
-- update session. The flash writer and the progress callback act on the state `W` of the device and of
-- the host link; the session's own fields are `OtaManager`.
pub mod Reports
pub mod Command
pub mod Overload
pub mod Protocol
pub mod Keeping
pub mod Discipline
pub mod Session
pub mod Progress
pub mod Activation
pub mod Examples
use midi2pwmv2_libcomm.Common.{
  ℕ, ◌+◌, ◌%◌, ◌^◌, ◌≡◌, ◌==◌, ltb, Bool, true, false, ◌&&◌, ◌||◌, not, if◌then◌else◌, Option, none,
  some, List, [], ◌∷◌, length, Span, null, points,
}

pub data Target : Type 0 where
  stm32 esp32 : Target

pub data OtaStatus : Type 0 where
  idle preparing receiving verifying applying rebooting error : OtaStatus

abbrev pub is_idle : OtaStatus → Bool
is_idle idle = true
is_idle preparing = false
is_idle receiving = false
is_idle verifying = false
is_idle applying = false
is_idle rebooting = false
is_idle error = false

abbrev pub is_receiving : OtaStatus → Bool
is_receiving idle = false
is_receiving preparing = false
is_receiving receiving = true
is_receiving verifying = false
is_receiving applying = false
is_receiving rebooting = false
is_receiving error = false

-- The texts that go with a progress report: a literal of the code, or the host's reason, a C string.
pub data Message : Type 0 where
  begin_while_not_idle firmware_too_large erase_failed empty_chunk unexpected_index write_failed :
      Message
  count_mismatch finalization_failed verification_failed activation_failed aborted_by_host : Message
  reason_given : List ℕ → Message

-- `IFlashWriter`: a Boolean method gives its answer and the state after it.
pub record FlashWriter (W : Type 0) : Type 0 where
  pub begin : ℕ → W → Bool × W
  pub write_chunk : ℕ → List ℕ → W → Bool × W
  pub finish : W → Bool × W
  pub verify : ℕ → W → Bool × W
  pub activate : W → Bool × W
  pub abort : W → W
  pub max_firmware_size : W → ℕ

abbrev pub SendProgress : Type 0 → Type 0
SendProgress W = Target → OtaStatus → ℕ → ℕ → Option Message → W → W

pub record OtaManager : Type 0 where
  pub status : OtaStatus
  pub expected_crc32 : ℕ
  pub total_chunks : ℕ
  pub received_chunks : ℕ

pub new_ota_manager : OtaManager
new_ota_manager = record {
  status = idle;
  expected_crc32 = 0;
  total_chunks = 0;
  received_chunks = 0;
}

-- The fields of the messages that the handlers read.
pub record OtaBegin : Type 0 where
  pub begin_target : Target
  pub firmware_size : ℕ
  pub firmware_crc32 : ℕ
  pub version_string : Option (List ℕ)
  pub chunk_count : ℕ

pub record OtaData : Type 0 where
  pub data_target : Target
  pub chunk_index : ℕ
  pub data_bytes : Option (List ℕ)

pub record OtaEnd : Type 0 where
  pub end_target : Target

pub record OtaAbort : Type 0 where
  pub abort_target : Target
  pub reason : Option (List ℕ)

abbrev progress_report_interval : ℕ
progress_report_interval = 50

module _ {W : Type 0} (writer : FlashWriter W) (target : Target)
    (send_progress : Option (SendProgress W)) where
  pub report_progress : OtaManager → Option Message → W → W
  report_progress o message w = elim send_progress [
    | none ↦ w
    | some send ↦ send target o.status o.received_chunks o.total_chunks message w
  ]

  pub transition_to : OtaManager → OtaStatus → Option Message → W → OtaManager × W
  transition_to o new_status message w =
      let o' = record o { status = new_status } in (o', report_progress o' message w)

  -- The report of an error and the way back to `idle`, which end every failed handler.
  pub fail_with : OtaManager → Message → W → OtaManager × W
  fail_with o message w =
      let (o', w') = transition_to o error (some message) w in (record o' { status = idle }, w')

  -- The same after `abort` of the writer.
  pub abort_with : OtaManager → Message → W → OtaManager × W
  abort_with o message w = fail_with o message (writer.abort w)

  -- The first step of `handleBegin`: a session that is under way is thrown away.
  pub restart : OtaManager → W → OtaManager × W
  restart o w =
      if not (is_idle o.status)
      then (record o { status = idle; received_chunks = 0; total_chunks = 0 }, writer.abort w)
      else (o, w)

  pub erase : OtaManager → ℕ → W → OtaManager × W
  erase o firmware_size w =
      let (preparing', w') = transition_to o preparing none w in
      let (erased, w'') = writer.begin firmware_size w' in
      if not erased
      then abort_with preparing' erase_failed w''
      else transition_to preparing' receiving none w''

  pub begin_idle : OtaManager → ℕ → ℕ → ℕ → W → OtaManager × W
  begin_idle o firmware_size firmware_crc32 total_chunks w =
      if not (is_idle o.status)
      then transition_to o error (some begin_while_not_idle) w
      else if (firmware_size == 0) || ltb (writer.max_firmware_size w) firmware_size
      then fail_with o firmware_too_large w
      else erase
          (record o {
            expected_crc32 = firmware_crc32;
            total_chunks = total_chunks;
            received_chunks = 0;
          })
          firmware_size w

  pub handle_begin : OtaManager → ℕ → ℕ → ℕ → W → OtaManager × W
  handle_begin o firmware_size firmware_crc32 total_chunks w =
      let (o', w') = restart o w in begin_idle o' firmware_size firmware_crc32 total_chunks w'

  pub handle_begin_message : OtaManager → OtaBegin → W → OtaManager × W
  handle_begin_message o msg w =
      handle_begin o msg.firmware_size msg.firmware_crc32 msg.chunk_count w

  -- A chunk that has been written: the 16-bit counter, and the report that may be due.
  pub count_chunk : OtaManager → W → OtaManager × W
  count_chunk o w =
      let o' = record o { received_chunks = (o.received_chunks + 1) % 2 ^ 16 } in
      let is_last_chunk = o'.received_chunks == o'.total_chunks in
      let is_report_due = (o'.received_chunks % progress_report_interval) == 0 in
      if is_last_chunk || is_report_due then (o', report_progress o' none w) else (o', w)

  pub store_chunk : OtaManager → ℕ → List ℕ → W → OtaManager × W
  store_chunk o chunk_index bytes w =
      let (written, w') = writer.write_chunk chunk_index bytes w in
      if not written then abort_with o write_failed w' else count_chunk o w'

  pub accept_chunk : OtaManager → ℕ → Span → W → OtaManager × W
  accept_chunk o chunk_index (null n) w = abort_with o empty_chunk w
  accept_chunk o chunk_index (points bytes) w =
      if length bytes == 0 then abort_with o empty_chunk w else store_chunk o chunk_index bytes w

  pub handle_data : OtaManager → ℕ → Span → W → OtaManager × W
  handle_data o chunk_index chunk w =
      if not (is_receiving o.status)
      then (o, w)
      else if not (chunk_index == o.received_chunks)
      then abort_with o unexpected_index w
      else accept_chunk o chunk_index chunk w

  pub handle_data_message : OtaManager → OtaData → W → OtaManager × W
  handle_data_message o msg w = elim msg.data_bytes [
    | none ↦ abort_with o empty_chunk w
    | some bytes ↦
        if length bytes == 0
        then abort_with o empty_chunk w
        else handle_data o msg.chunk_index (points bytes) w
  ]

  pub activate_slot : OtaManager → W → OtaManager × W
  activate_slot o w =
      let (applying', w') = transition_to o applying none w in
      let (rebooting', w'') = transition_to applying' rebooting none w' in
      let (activated, w''') = writer.activate w'' in
      if not activated then abort_with rebooting' activation_failed w''' else (rebooting', w''')

  pub verify_image : OtaManager → W → OtaManager × W
  verify_image o w =
      let (verifying', w') = transition_to o verifying none w in
      let (verified, w'') = writer.verify verifying'.expected_crc32 w' in
      if not verified
      then abort_with verifying' verification_failed w''
      else activate_slot verifying' w''

  pub finish_image : OtaManager → W → OtaManager × W
  finish_image o w =
      let (finished, w') = writer.finish w in
      if not finished then abort_with o finalization_failed w' else verify_image o w'

  pub handle_end : OtaManager → W → OtaManager × W
  handle_end o w =
      if not (is_receiving o.status)
      then (o, w)
      else if not (o.received_chunks == o.total_chunks)
      then abort_with o count_mismatch w
      else finish_image o w

  pub handle_end_message : OtaManager → OtaEnd → W → OtaManager × W
  handle_end_message o msg w = handle_end o w

  pub handle_abort : OtaManager → Option (List ℕ) → W → OtaManager × W
  handle_abort o reason w = if is_idle o.status then (o, w) else elim reason [
    | none ↦ abort_with o aborted_by_host w
    | some text ↦ abort_with o (reason_given text) w
  ]

  pub handle_abort_message : OtaManager → OtaAbort → W → OtaManager × W
  handle_abort_message o msg w = handle_abort o msg.reason w
