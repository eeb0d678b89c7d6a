-- ===== src/Endpoint/Midi.antt =====
-- include/libcomm/midi_endpoint.h and src/midi_endpoint.cpp, with the types of
-- schemas/midi_messages.fbs.
pub mod Messages
pub mod Laws
pub mod Examples
use midi2pwmv2_libcomm.Common.{ℕ, Bool, true, false, Option, none, some, List, Span, points}
use midi2pwmv2_libcomm.Transport.{
  WriteCallback, FrameTransport, new_transport, Statics, send, handle_incoming,
}
use midi2pwmv2_libcomm.Endpoint.{Schema, notify, open_frame}

pub record Ping : Type 0 where
  pub sequence : ℕ
  pub timestamp : ℕ

pub data ChannelMessageType : Type 0 where
  note_off note_on polyphonic_key_pressure control_change program_change : ChannelMessageType
  channel_pressure pitch_bend : ChannelMessageType

pub record ChannelMessage : Type 0 where
  pub channel : ℕ
  pub message_type : ChannelMessageType
  pub data1 : ℕ
  pub data2 : ℕ

pub data SystemCommonType : Type 0 where
  time_code_quarter_frame song_position_pointer song_select tune_request : SystemCommonType

pub record SystemCommonMessage : Type 0 where
  pub common_type : SystemCommonType
  pub value : ℕ

pub data SystemRealTimeType : Type 0 where
  timing_clock start_clock continue_clock stop_clock active_sensing system_reset :
      SystemRealTimeType

pub record SystemRealTimeMessage : Type 0 where
  pub real_time_type : SystemRealTimeType

pub record SystemExclusiveMessage : Type 0 where
  pub manufacturer_id : Option (List ℕ)
  pub payload : Option (List ℕ)

-- The packet of an envelope: its type, and the table, which may be missing. `unknown` is any other type.
pub data Packet : Type 0 where
  ping : Option Ping → Packet
  channel_message : Option ChannelMessage → Packet
  system_common : Option SystemCommonMessage → Packet
  system_real_time : Option SystemRealTimeMessage → Packet
  system_exclusive : Option SystemExclusiveMessage → Packet
  unknown : ℕ → Packet

pub record MidiEndpoint (S : Type 0) : Type 0 where
  pub transport : FrameTransport S
  pub ping_handler : Option (Ping → S → S)
  pub channel_handler : Option (ChannelMessage → S → S)
  pub system_common_handler : Option (SystemCommonMessage → S → S)
  pub system_real_time_handler : Option (SystemRealTimeMessage → S → S)
  pub system_exclusive_handler : Option (SystemExclusiveMessage → S → S)

module _ {S : Type 0} where
  new_midi_endpoint : Option (WriteCallback S) → MidiEndpoint S
  new_midi_endpoint write = record {
    transport = new_transport write;
    ping_handler = none;
    channel_handler = none;
    system_common_handler = none;
    system_real_time_handler = none;
    system_exclusive_handler = none;
  }

  on_ping : MidiEndpoint S → Option (Ping → S → S) → MidiEndpoint S
  on_ping e handler = record e { ping_handler = handler }

  on_channel_message : MidiEndpoint S → Option (ChannelMessage → S → S) → MidiEndpoint S
  on_channel_message e handler = record e { channel_handler = handler }

  on_system_common : MidiEndpoint S → Option (SystemCommonMessage → S → S) → MidiEndpoint S
  on_system_common e handler = record e { system_common_handler = handler }

  on_system_real_time : MidiEndpoint S → Option (SystemRealTimeMessage → S → S) → MidiEndpoint S
  on_system_real_time e handler = record e { system_real_time_handler = handler }

  on_system_exclusive : MidiEndpoint S → Option (SystemExclusiveMessage → S → S) → MidiEndpoint S
  on_system_exclusive e handler = record e { system_exclusive_handler = handler }

  -- The switch of `HandleFrame`.
  unfoldable pub dispatch : MidiEndpoint S → Packet → S → Bool × S
  dispatch e (ping m) s = (true, notify e.ping_handler m s)
  dispatch e (channel_message m) s = (true, notify e.channel_handler m s)
  dispatch e (system_common m) s = (true, notify e.system_common_handler m s)
  dispatch e (system_real_time m) s = (true, notify e.system_real_time_handler m s)
  dispatch e (system_exclusive m) s = (true, notify e.system_exclusive_handler m s)
  dispatch e (unknown type) s = (false, s)

  unfoldable pub handle_frame : MidiEndpoint S → Schema Packet → Span → S → Bool × S
  handle_frame e schema payload s = open_frame schema (dispatch e) payload s

  unfoldable pub receive : ℕ → MidiEndpoint S → Schema Packet → Span → S → Bool × S
  receive size_modulus e schema received s =
      handle_incoming size_modulus received
        (some (λ payload t. handle_frame e schema (points payload) t)) s

  -- `Send` of a buffer that a builder has released.
  pub send_buffer : MidiEndpoint S → List ℕ → Statics → S → Bool × MidiEndpoint S × Statics × S
  send_buffer e buffer v s =
      let (sent, transport', v', s') = send e.transport (points buffer) v s in
      (sent, record e { transport = transport' }, v', s')
