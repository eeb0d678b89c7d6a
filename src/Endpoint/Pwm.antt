-- ===== src/Endpoint/Pwm.antt =====
-- include/libcomm/pwm_endpoint.h and src/pwm_endpoint.cpp, with the types of the schemas/pwm_*.fbs files.
-- `Float` is the type `float`, and `ModeParams` the generated union of the mode parameters, which the
-- endpoint only hands on. The table and the native object of a message are one record.
pub mod Messages
pub mod Laws
mod Examples
use midi2pwmv2_libcomm.Common.{ℕ, Bool, true, false, Option, none, some, List, Span, points}
use midi2pwmv2_libcomm.Transport.{
  WriteCallback, FrameTransport, new_transport, Statics, send, handle_incoming,
}
use midi2pwmv2_libcomm.Endpoint.{Schema, notify, open_frame}

pub data ChannelConfiguration : Type 0 where
  full_bridge half_bridge : ChannelConfiguration

pub data Polarity : Type 0 where
  forward reverse : Polarity

pub data ReleaseAction : Type 0 where
  active_brake free_float : ReleaseAction

pub data ChannelStatus : Type 0 where
  inactive active fault : ChannelStatus

pub data FaultType : Type 0 where
  no_fault over_voltage under_voltage over_current thermal communication unknown_fault : FaultType

pub data OutputModeType : Type 0 where
  instant ramped pulse toggle adsr cc_control pitch_bend : OutputModeType

pub data FaultControlOperation : Type 0 where
  reset_faults fetch enable_auto_reset disable_auto_reset : FaultControlOperation

pub data ResponseStatus : Type 0 where
  ack nack : ResponseStatus

pub record ChannelTelemetry (Float ModeParams : Type 0) : Type 0 where
  pub telemetry_channel : ℕ
  pub telemetry_configuration : ChannelConfiguration
  pub status : ChannelStatus
  pub telemetry_note : ℕ
  pub voltage : Float
  pub current : Float
  pub duty_cycle : Float
  pub telemetry_polarity : Polarity
  pub had_fault : Bool
  pub telemetry_mode : OutputModeType
  pub telemetry_params : Option ModeParams
  pub telemetry_note_b : ℕ
  pub status_a : ChannelStatus
  pub status_b : ChannelStatus

pub record BatchTelemetry (Float ModeParams : Type 0) : Type 0 where
  pub telemetry_channels : Option (List (ChannelTelemetry Float ModeParams))
  pub input_voltage : Float

pub record ChannelConfig (Float ModeParams : Type 0) : Type 0 where
  pub channel_number : ℕ
  pub configuration : ChannelConfiguration
  pub note : ℕ
  pub midpoint : Float
  pub min_point : Float
  pub max_point : Float
  pub output_mode : OutputModeType
  pub mode_params : Option ModeParams
  pub polarity : Polarity
  pub release_action : ReleaseAction
  pub note_b : ℕ

pub record BatchConfig (Float ModeParams : Type 0) : Type 0 where
  pub config_channels : Option (List (ChannelConfig Float ModeParams))

pub record FaultLogEntry : Type 0 where
  pub timestamp_ms : ℕ
  pub fault_type : FaultType

pub record FaultLog : Type 0 where
  pub log_size : ℕ
  pub entries : Option (List FaultLogEntry)

pub record FaultControlCommand : Type 0 where
  pub operation : FaultControlOperation
  pub fault_channel : ℕ

pub record HeartBeat : Type 0 where
  pub request_telemetry : Bool
  pub epoch : ℕ

pub record Response : Type 0 where
  pub response_status : ResponseStatus
  pub error_code : ℕ

-- The message of an envelope: its type, and the table, which may be missing. `unknown` is any other type.
pub data PwmMessage (Float ModeParams : Type 0) : Type 0 where
  batch_telemetry : Option (BatchTelemetry Float ModeParams) → PwmMessage Float ModeParams
  channel_config : Option (ChannelConfig Float ModeParams) → PwmMessage Float ModeParams
  batch_config : Option (BatchConfig Float ModeParams) → PwmMessage Float ModeParams
  fault_log : Option FaultLog → PwmMessage Float ModeParams
  fault_control_command : Option FaultControlCommand → PwmMessage Float ModeParams
  heart_beat : Option HeartBeat → PwmMessage Float ModeParams
  response : Option Response → PwmMessage Float ModeParams
  unknown : ℕ → PwmMessage Float ModeParams

pub record PwmEndpoint (Float ModeParams S : Type 0) : Type 0 where
  pub transport : FrameTransport S
  pub batch_telemetry_handler : Option (BatchTelemetry Float ModeParams → S → S)
  pub config_handler : Option (ChannelConfig Float ModeParams → S → S)
  pub batch_config_handler : Option (BatchConfig Float ModeParams → S → S)
  pub fault_log_handler : Option (FaultLog → S → S)
  pub fault_control_handler : Option (FaultControlCommand → S → S)
  pub heartbeat_handler : Option (HeartBeat → S → S)
  pub response_handler : Option (Response → S → S)

module _ {Float ModeParams S : Type 0} where
  new_pwm_endpoint : Option (WriteCallback S) → PwmEndpoint Float ModeParams S
  new_pwm_endpoint write = record {
    transport = new_transport write;
    batch_telemetry_handler = none;
    config_handler = none;
    batch_config_handler = none;
    fault_log_handler = none;
    fault_control_handler = none;
    heartbeat_handler = none;
    response_handler = none;
  }

  on_batch_telemetry :
      PwmEndpoint Float ModeParams S
      → Option (BatchTelemetry Float ModeParams → S → S)
      → PwmEndpoint Float ModeParams S
  on_batch_telemetry e handler = record e { batch_telemetry_handler = handler }

  on_channel_config :
      PwmEndpoint Float ModeParams S
      → Option (ChannelConfig Float ModeParams → S → S)
      → PwmEndpoint Float ModeParams S
  on_channel_config e handler = record e { config_handler = handler }

  on_batch_config :
      PwmEndpoint Float ModeParams S
      → Option (BatchConfig Float ModeParams → S → S)
      → PwmEndpoint Float ModeParams S
  on_batch_config e handler = record e { batch_config_handler = handler }

  on_fault_log :
      PwmEndpoint Float ModeParams S → Option (FaultLog → S → S) → PwmEndpoint Float ModeParams S
  on_fault_log e handler = record e { fault_log_handler = handler }

  on_fault_control :
      PwmEndpoint Float ModeParams S
      → Option (FaultControlCommand → S → S)
      → PwmEndpoint Float ModeParams S
  on_fault_control e handler = record e { fault_control_handler = handler }

  on_heart_beat :
      PwmEndpoint Float ModeParams S → Option (HeartBeat → S → S) → PwmEndpoint Float ModeParams S
  on_heart_beat e handler = record e { heartbeat_handler = handler }

  on_response :
      PwmEndpoint Float ModeParams S → Option (Response → S → S) → PwmEndpoint Float ModeParams S
  on_response e handler = record e { response_handler = handler }

  -- The switch of `HandleFrame`.
  unfoldable pub dispatch :
      PwmEndpoint Float ModeParams S → PwmMessage Float ModeParams → S → Bool × S
  dispatch e (batch_telemetry m) s = (true, notify e.batch_telemetry_handler m s)
  dispatch e (channel_config m) s = (true, notify e.config_handler m s)
  dispatch e (batch_config m) s = (true, notify e.batch_config_handler m s)
  dispatch e (fault_log m) s = (true, notify e.fault_log_handler m s)
  dispatch e (fault_control_command m) s = (true, notify e.fault_control_handler m s)
  dispatch e (heart_beat m) s = (true, notify e.heartbeat_handler m s)
  dispatch e (response m) s = (true, notify e.response_handler m s)
  dispatch e (unknown type) s = (false, s)

  unfoldable pub handle_frame :
      PwmEndpoint Float ModeParams S → Schema (PwmMessage Float ModeParams) → Span → S → Bool × S
  handle_frame e schema payload s = open_frame schema (dispatch e) payload s

  unfoldable pub receive :
      ℕ
      → PwmEndpoint Float ModeParams S
      → Schema (PwmMessage Float ModeParams)
      → Span
      → S
      → Bool × S
  receive size_modulus e schema received s =
      handle_incoming size_modulus received
        (some (λ payload t. handle_frame e schema (points payload) t)) s

  -- `Send` of a buffer that a builder has released.
  pub send_buffer :
      PwmEndpoint Float ModeParams S
      → List ℕ
      → Statics
      → S
      → Bool × PwmEndpoint Float ModeParams S × Statics × S
  send_buffer e buffer v s =
      let (sent, transport', v', s') = send e.transport (points buffer) v s in
      (sent, record e { transport = transport' }, v', s')
