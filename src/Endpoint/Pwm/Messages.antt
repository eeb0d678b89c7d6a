-- ===== src/Endpoint/Pwm/Messages.antt =====
-- The builders of src/pwm_endpoint.cpp. An array of objects with its count is their list.
pub mod Built
use midi2pwmv2_libcomm.Common.{
  ℕ, zero, suc, min, ltb, Bool, if◌then◌else◌, Option, none, some, List, [], ◌∷◌, ◌++◌, length,
}
use midi2pwmv2_libcomm.Endpoint.{Schema}
use midi2pwmv2_libcomm.Endpoint.Pwm.{
  ChannelConfiguration, forward, active_brake, instant, FaultType, FaultControlOperation,
  ResponseStatus, ChannelTelemetry, ChannelConfig, FaultLogEntry, PwmMessage, batch_telemetry,
  channel_config, batch_config, fault_log, fault_control_command, heart_beat, response,
}

-- A loop over `count` objects that pushes one offset for each.
unfoldable pack_each : {A : Type 0} → ℕ → List A → List A → List A
pack_each zero objects offsets = offsets
pack_each (suc count) [] offsets = offsets
pack_each (suc count) (x ∷ objects) offsets = pack_each count objects (offsets ++ (x ∷ []))

-- `FaultLogEntryData`.
pub record FaultLogEntryData : Type 0 where
  pub entry_timestamp_ms : ℕ
  pub entry_fault : FaultType

abbrev maximum_fault_log_entries_per_message : ℕ
maximum_fault_log_entries_per_message = 64

abbrev pub create_fault_log_entry : FaultLogEntryData → FaultLogEntry
create_fault_log_entry data_entry = record {
  timestamp_ms = data_entry.entry_timestamp_ms;
  fault_type = data_entry.entry_fault;
}

-- The loop of `BuildFaultLogMessage`.
unfoldable pub serialize_entries :
    ℕ → List FaultLogEntryData → List FaultLogEntry → List FaultLogEntry
serialize_entries zero fault_log_entries offsets = offsets
serialize_entries (suc count) [] offsets = offsets
serialize_entries (suc count) (x ∷ fault_log_entries) offsets =
    serialize_entries count fault_log_entries (offsets ++ (create_fault_log_entry x ∷ []))

-- The entries of the message: none for a null pointer, and at most the capacity of the vector.
unfoldable pub serialized_entries : Option (List FaultLogEntryData) → List FaultLogEntry
serialized_entries none = []
serialized_entries (some fault_log_entries) =
    if ltb 0 (length fault_log_entries)
    then serialize_entries (min (length fault_log_entries) maximum_fault_log_entries_per_message)
        fault_log_entries []
    else []

module _ {Float ModeParams : Type 0} (schema : Schema (PwmMessage Float ModeParams)) where
  build_batch_telemetry_message : List (ChannelTelemetry Float ModeParams) → Float → List ℕ
  build_batch_telemetry_message channels input_voltage = schema.serialize (
      batch_telemetry (
        some (record {
          telemetry_channels = some (pack_each (length channels) channels []);
          input_voltage = input_voltage;
        })))

  -- The fields that the call leaves out have the schema's defaults.
  build_channel_config_message : ℕ → ChannelConfiguration → ℕ → Float → Float → Float → List ℕ
  build_channel_config_message channel mode assigned_note midpoint_value minimum_value
        maximum_value =
      schema.serialize (
        channel_config (
          some (record {
            channel_number = channel;
            configuration = mode;
            note = assigned_note;
            midpoint = midpoint_value;
            min_point = minimum_value;
            max_point = maximum_value;
            output_mode = instant;
            mode_params = none;
            polarity = forward;
            release_action = active_brake;
            note_b = 255;
          })))

  build_channel_config_message_from_native : ChannelConfig Float ModeParams → List ℕ
  build_channel_config_message_from_native config = schema.serialize (channel_config (some config))

  build_batch_config_message : List (ChannelConfig Float ModeParams) → List ℕ
  build_batch_config_message configs = schema.serialize (
      batch_config
        (some (record { config_channels = some (pack_each (length configs) configs []) })))

  unfoldable pub build_fault_log_message : ℕ → Option (List FaultLogEntryData) → List ℕ
  build_fault_log_message total_log_size_entries fault_log_entries = schema.serialize (
      fault_log (
        some (record {
          log_size = total_log_size_entries;
          entries = some (serialized_entries fault_log_entries);
        })))

  build_fault_control_command : FaultControlOperation → ℕ → List ℕ
  build_fault_control_command control_operation channel = schema.serialize (
      fault_control_command
        (some (record { operation = control_operation; fault_channel = channel })))

  build_heart_beat_message : Bool → ℕ → List ℕ
  build_heart_beat_message should_request_telemetry epoch =
      schema.serialize
        (heart_beat (some (record { request_telemetry = should_request_telemetry; epoch = epoch })))

  build_response_message : ResponseStatus → ℕ → List ℕ
  build_response_message status error_code =
      schema.serialize
        (response (some (record { response_status = status; error_code = error_code })))
