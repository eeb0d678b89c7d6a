-- ===== src/Endpoint/Pwm/Messages/Built.antt =====
-- What a receiver is told by the messages of the builders of src/pwm_endpoint.cpp.
use midi2pwmv2_libcomm.Common.{
  ℕ, ◌≤◌, ◌≡◌, refl, sym, ap, ◌∙◌, Bool, true, Option, none, some, List, [], ◌∷◌, ◌++◌,
  append_assoc, append-nil, length, points,
}
use midi2pwmv2_libcomm.Transport.{max_frame_size}
use midi2pwmv2_libcomm.Transport.Frame.{frame}
use midi2pwmv2_libcomm.Transport.Receive.{IsSizeModulus}
use midi2pwmv2_libcomm.Endpoint.{Schema, Carries, notify}
use midi2pwmv2_libcomm.Endpoint.Roundtrip.{handle_incoming-serialize}
use midi2pwmv2_libcomm.Endpoint.Pwm.{
  ChannelConfiguration, forward, active_brake, instant, FaultControlOperation, ResponseStatus,
  ChannelTelemetry, ChannelConfig, PwmMessage, batch_telemetry, channel_config, batch_config,
  fault_log, fault_control_command, heart_beat, response, unknown, PwmEndpoint, dispatch,
  handle_frame, receive,
}
use midi2pwmv2_libcomm.Endpoint.Pwm.Messages.{
  pack_each, FaultLogEntryData, build_batch_telemetry_message, build_channel_config_message,
  build_channel_config_message_from_native, build_batch_config_message, build_fault_log_message,
  build_fault_control_command, build_heart_beat_message, build_response_message,
}
use midi2pwmv2_libcomm.Endpoint.Pwm.Laws.{first_log, serialized_entries-first}

pack_each-all :
    {A : Type 0} (xs offsets : List A) → pack_each (length xs) xs offsets ≡ offsets ++ xs
unfolding pack_each
pack_each-all [] offsets = sym (append-nil offsets)
pack_each-all (x ∷ xs) offsets =
    pack_each-all xs (offsets ++ (x ∷ [])) ∙ append_assoc offsets (x ∷ []) xs

-- A call of a builder.
pub data Request (Float ModeParams : Type 0) : Type 0 where
  asks_telemetry : List (ChannelTelemetry Float ModeParams) → Float → Request Float ModeParams
  asks_config : ℕ → ChannelConfiguration → ℕ → Float → Float → Float → Request Float ModeParams
  asks_native_config : ChannelConfig Float ModeParams → Request Float ModeParams
  asks_batch_config : List (ChannelConfig Float ModeParams) → Request Float ModeParams
  asks_fault_log : ℕ → Option (List FaultLogEntryData) → Request Float ModeParams
  asks_fault_control : FaultControlOperation → ℕ → Request Float ModeParams
  asks_heart_beat : Bool → ℕ → Request Float ModeParams
  asks_response : ResponseStatus → ℕ → Request Float ModeParams

module _ {Float ModeParams : Type 0} where
  pub build_pwm_request : Schema (PwmMessage Float ModeParams) → Request Float ModeParams → List ℕ
  build_pwm_request schema (asks_telemetry channels voltage) =
      build_batch_telemetry_message schema channels voltage
  build_pwm_request schema (asks_config channel mode key midpoint least greatest) =
      build_channel_config_message schema channel mode key midpoint least greatest
  build_pwm_request schema (asks_native_config config) =
      build_channel_config_message_from_native schema config
  build_pwm_request schema (asks_batch_config configs) = build_batch_config_message schema configs
  build_pwm_request schema (asks_fault_log total given) = build_fault_log_message schema total given
  build_pwm_request schema (asks_fault_control op channel) =
      build_fault_control_command schema op channel
  build_pwm_request schema (asks_heart_beat wanted number) =
      build_heart_beat_message schema wanted number
  build_pwm_request schema (asks_response answer code) = build_response_message schema answer code

  -- The configuration that `build_channel_config_message` stands for: instant mode without parameters,
  -- forward, active brake and no second note.
  abbrev plain_config :
      ℕ → ChannelConfiguration → ℕ → Float → Float → Float → ChannelConfig Float ModeParams
  plain_config channel mode key middle least greatest = record {
    channel_number = channel;
    configuration = mode;
    note = key;
    midpoint = middle;
    min_point = least;
    max_point = greatest;
    output_mode = instant;
    mode_params = none;
    polarity = forward;
    release_action = active_brake;
    note_b = 255;
  }

  -- The message that is meant: all objects of an array in order, and the first 64 entries of a fault log.
  abbrev pub meant : Request Float ModeParams → PwmMessage Float ModeParams
  meant (asks_telemetry channels voltage) =
      batch_telemetry
        (some (record { telemetry_channels = some channels; input_voltage = voltage }))
  meant (asks_config channel mode key middle least greatest) =
      channel_config (some (plain_config channel mode key middle least greatest))
  meant (asks_native_config config) = channel_config (some config)
  meant (asks_batch_config configs) =
      batch_config (some (record { config_channels = some configs }))
  meant (asks_fault_log total given) = fault_log (some (first_log total given))
  meant (asks_fault_control op channel) =
      fault_control_command (some (record { operation = op; fault_channel = channel }))
  meant (asks_heart_beat wanted number) =
      heart_beat (some (record { request_telemetry = wanted; epoch = number }))
  meant (asks_response answer code) =
      response (some (record { response_status = answer; error_code = code }))

  -- The handler that a message is for, called on it.
  abbrev pub told :
      {S : Type 0} → PwmEndpoint Float ModeParams S → PwmMessage Float ModeParams → S → S
  told e (batch_telemetry m) = notify e.batch_telemetry_handler m
  told e (channel_config m) = notify e.config_handler m
  told e (batch_config m) = notify e.batch_config_handler m
  told e (fault_log m) = notify e.fault_log_handler m
  told e (fault_control_command m) = notify e.fault_control_handler m
  told e (heart_beat m) = notify e.heartbeat_handler m
  told e (response m) = notify e.response_handler m
  told e (unknown n) = λ s. s

  serialize-meant :
      (schema : Schema (PwmMessage Float ModeParams)) (r : Request Float ModeParams)
      → build_pwm_request schema r ≡ schema.serialize (meant r)
  unfolding build_pwm_request build_batch_telemetry_message build_channel_config_message
      build_channel_config_message_from_native build_batch_config_message build_fault_log_message
      build_fault_control_command build_heart_beat_message build_response_message
  serialize-meant schema (asks_telemetry channels voltage) =
      ap
        (λ cs. schema.serialize (
          batch_telemetry
            (some (record { telemetry_channels = some cs; input_voltage = voltage }))))
        (pack_each-all channels [])
  serialize-meant schema (asks_config channel mode key middle least greatest) = refl
  serialize-meant schema (asks_native_config config) = refl
  serialize-meant schema (asks_batch_config configs) =
      ap (λ cs. schema.serialize (batch_config (some (record { config_channels = some cs }))))
        (pack_each-all configs [])
  serialize-meant schema (asks_fault_log total given) =
      ap (λ r. schema.serialize (fault_log (some (record { log_size = total; entries = some r }))))
        (serialized_entries-first given)
  serialize-meant schema (asks_fault_control op channel) = refl
  serialize-meant schema (asks_heart_beat wanted number) = refl
  serialize-meant schema (asks_response answer code) = refl

  dispatch-told :
      {S : Type 0} (e : PwmEndpoint Float ModeParams S) (r : Request Float ModeParams) (s : S)
      → dispatch e (meant r) s ≡ (true, told e (meant r) s)
  unfolding dispatch
  dispatch-told e (asks_telemetry channels voltage) s = refl
  dispatch-told e (asks_config channel mode key middle least greatest) s = refl
  dispatch-told e (asks_native_config config) s = refl
  dispatch-told e (asks_batch_config configs) s = refl
  dispatch-told e (asks_fault_log total given) s = refl
  dispatch-told e (asks_fault_control op channel) s = refl
  dispatch-told e (asks_heart_beat wanted number) s = refl
  dispatch-told e (asks_response answer code) s = refl

  -- Every builder, framed and received: if the generated code reads the message back and it has at most
  -- 4096 bytes, the handler of its type is called once, if it is set, with what was given to the
  -- builder. That is every object of an array of telemetry or configurations, in order; the first 64
  -- entries of a fault log, and none for a null pointer; and for a single configuration also instant
  -- mode without parameters, forward, active brake and no second note.
  pub receive-build_pwm_request :
      {S : Type 0} (schema : Schema (PwmMessage Float ModeParams)) (m n : ℕ)
      (e : PwmEndpoint Float ModeParams S) (r : Request Float ModeParams) (s : S)
      → Carries schema (meant r)
      → IsSizeModulus m
      → length (schema.serialize (meant r)) ≤ max_frame_size
      → receive m e schema (points (frame n (build_pwm_request schema r))) s
        ≡ (true, told e (meant r) s)
  unfolding receive handle_frame
  receive-build_pwm_request schema m n e r s h wide small =
      ap (λ b. receive m e schema (points (frame n b)) s) (serialize-meant schema r)
      ∙ handle_incoming-serialize schema (meant r) h m n (dispatch e) s wide small
      ∙ dispatch-told e r s
