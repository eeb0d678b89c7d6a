-- ===== src/Endpoint/Pwm/Examples.antt =====
-- A fault log through a small encoding that stands for the generated code.
use midi2pwmv2_libcomm.Common.{
  ℕ, ◌^◌, ◌≡◌, refl, arith, ◌==◌, true, if◌then◌else◌, Option, none, some, List, [], ◌∷◌, get_or,
  drop, points,
}
use midi2pwmv2_libcomm.Transport.Frame.{frame}
use midi2pwmv2_libcomm.Endpoint.{Schema, Carries}
use midi2pwmv2_libcomm.Endpoint.Pwm.{
  FaultType, no_fault, over_voltage, under_voltage, over_current, thermal, communication,
  unknown_fault, FaultLogEntry, FaultLog, PwmMessage, batch_telemetry, channel_config, batch_config,
  fault_log, fault_control_command, heart_beat, response, unknown, PwmEndpoint, receive,
}
use midi2pwmv2_libcomm.Endpoint.Pwm.Messages.{FaultLogEntryData}
use midi2pwmv2_libcomm.Endpoint.Pwm.Messages.Built.{
  asks_fault_log, build_pwm_request, receive-build_pwm_request,
}
use midi2pwmv2_libcomm.Endpoint.Pwm.Laws.{first_log}

abbrev fault_code : FaultType → ℕ
fault_code no_fault = 0
fault_code over_voltage = 1
fault_code under_voltage = 2
fault_code over_current = 3
fault_code thermal = 4
fault_code communication = 5
fault_code unknown_fault = 255

abbrev encode_entries : List FaultLogEntry → List ℕ
encode_entries [] = []
encode_entries (x ∷ xs) = x.timestamp_ms ∷ fault_code x.fault_type ∷ encode_entries xs

abbrev decode_entries : List ℕ → List FaultLogEntry
decode_entries [] = []
decode_entries (a ∷ []) = []
decode_entries (a ∷ b ∷ bytes) =
    record { timestamp_ms = a; fault_type = if b == 3 then over_current else thermal }
    ∷ decode_entries bytes

abbrev encode_log : Option (List FaultLogEntry) → List ℕ
encode_log none = []
encode_log (some xs) = encode_entries xs

abbrev encode : PwmMessage Unit Unit → List ℕ
encode (fault_log (some log)) = 4 ∷ log.log_size ∷ encode_log log.entries
encode (fault_log none) = 0 ∷ []
encode (batch_telemetry m) = 0 ∷ []
encode (channel_config m) = 0 ∷ []
encode (batch_config m) = 0 ∷ []
encode (fault_control_command m) = 0 ∷ []
encode (heart_beat m) = 0 ∷ []
encode (response m) = 0 ∷ []
encode (unknown n) = 0 ∷ []

abbrev decode : List ℕ → PwmMessage Unit Unit
decode bytes =
    if get_or bytes 0 0 == 4
    then fault_log (
        some
          (record { log_size = get_or bytes 1 0; entries = some (decode_entries (drop 2 bytes)) }))
    else unknown 0

abbrev log_schema : Schema (PwmMessage Unit Unit)
log_schema = record {
  serialize = encode;
  buffer_has_identifier = λ bytes. true;
  verify_buffer = λ bytes. true;
  get_envelope = λ bytes. some (decode bytes);
}

abbrev two_entries : Option (List FaultLogEntryData)
two_entries = some (
    record { entry_timestamp_ms = 7; entry_fault = over_current }
    ∷ record { entry_timestamp_ms = 8; entry_fault = thermal }
    ∷ [])

log-Carries : Carries log_schema (fault_log (some (first_log 2 two_entries)))
log-Carries = record {
  identified = refl;
  verified = refl;
  read_back = refl;
  written = omega arith;
  bytes = omega arith;
}

abbrev keep_log : FaultLog → List FaultLog → List FaultLog
keep_log log logs = log ∷ logs

abbrev listener : PwmEndpoint Unit Unit (List FaultLog)
listener = record {
  transport = record { write = none; next_sequence = 1 };
  batch_telemetry_handler = none;
  config_handler = none;
  batch_config_handler = none;
  fault_log_handler = some keep_log;
  fault_control_handler = none;
  heartbeat_handler = none;
  response_handler = none;
}

receive-build_pwm_request_example :
    receive
      (2 ^ 64)
      listener
      log_schema
      (points (frame 1 (build_pwm_request log_schema (asks_fault_log 2 two_entries))))
      []
    ≡ (true, first_log 2 two_entries ∷ [])
receive-build_pwm_request_example =
    receive-build_pwm_request log_schema (2 ^ 64) 1 listener (asks_fault_log 2 two_entries) []
      log-Carries (omega arith) (omega arith)
