-- ===== src/Endpoint/Midi/Messages.antt =====
-- The builders of src/midi_endpoint.cpp. An argument of type `std::uint8_t`, `std::uint16_t`,
-- `std::uint32_t` or `std::uint64_t` is a number of that width.
pub mod Built
use midi2pwmv2_libcomm.Common.{ℕ, ◌/◌, ◌^◌, ◌%◌, bit_and, some, List, Span}
use midi2pwmv2_libcomm.Endpoint.{Schema, vector_of}
use midi2pwmv2_libcomm.Endpoint.Midi.{
  ChannelMessageType, note_off, note_on, polyphonic_key_pressure, control_change, program_change,
  channel_pressure, pitch_bend, SystemCommonType, time_code_quarter_frame, song_position_pointer,
  song_select, tune_request, SystemRealTimeType, Packet, ping, channel_message, system_common,
  system_real_time, system_exclusive,
}

abbrev midi_data_byte_mask : ℕ
midi_data_byte_mask = 0x7F

-- The two data bytes of a pitch bend.
unfoldable pub least_significant_byte : ℕ → ℕ
least_significant_byte pitch_bend_value = bit_and pitch_bend_value midi_data_byte_mask % 2 ^ 8

unfoldable pub most_significant_byte : ℕ → ℕ
most_significant_byte pitch_bend_value =
    bit_and (pitch_bend_value / 2 ^ 7) midi_data_byte_mask % 2 ^ 8

module _ (schema : Schema Packet) where
  build_ping_message : ℕ → ℕ → List ℕ
  build_ping_message sequence_number timestamp_value =
      schema.serialize
        (ping (some (record { sequence = sequence_number; timestamp = timestamp_value })))

  unfoldable pub build_channel_message_envelope : ℕ → ChannelMessageType → ℕ → ℕ → List ℕ
  build_channel_message_envelope channel_number type first_data_byte second_data_byte =
      schema.serialize (
        channel_message (
          some (record {
            channel = channel_number;
            message_type = type;
            data1 = first_data_byte;
            data2 = second_data_byte;
          })))

  build_note_off_message : ℕ → ℕ → ℕ → List ℕ
  build_note_off_message channel_number note_number velocity =
      build_channel_message_envelope channel_number note_off note_number velocity

  build_note_on_message : ℕ → ℕ → ℕ → List ℕ
  build_note_on_message channel_number note_number velocity =
      build_channel_message_envelope channel_number note_on note_number velocity

  build_polyphonic_key_pressure_message : ℕ → ℕ → ℕ → List ℕ
  build_polyphonic_key_pressure_message channel_number note_number pressure =
      build_channel_message_envelope channel_number polyphonic_key_pressure note_number pressure

  build_control_change_message : ℕ → ℕ → ℕ → List ℕ
  build_control_change_message channel_number controller_number controller_value =
      build_channel_message_envelope channel_number control_change controller_number
        controller_value

  build_program_change_message : ℕ → ℕ → List ℕ
  build_program_change_message channel_number program_number =
      build_channel_message_envelope channel_number program_change program_number 0

  build_channel_pressure_message : ℕ → ℕ → List ℕ
  build_channel_pressure_message channel_number pressure =
      build_channel_message_envelope channel_number channel_pressure pressure 0

  unfoldable pub build_pitch_bend_message : ℕ → ℕ → List ℕ
  build_pitch_bend_message channel_number pitch_bend_value =
      build_channel_message_envelope channel_number pitch_bend
        (least_significant_byte pitch_bend_value) (most_significant_byte pitch_bend_value)

  build_system_common_message_envelope : SystemCommonType → ℕ → List ℕ
  build_system_common_message_envelope type message_data_value =
      schema.serialize
        (system_common (some (record { common_type = type; value = message_data_value })))

  build_time_code_quarter_frame_message : ℕ → List ℕ
  build_time_code_quarter_frame_message quarter_frame_value =
      build_system_common_message_envelope time_code_quarter_frame quarter_frame_value

  build_song_position_pointer_message : ℕ → List ℕ
  build_song_position_pointer_message song_position_beats =
      build_system_common_message_envelope song_position_pointer song_position_beats

  build_song_select_message : ℕ → List ℕ
  build_song_select_message song_number =
      build_system_common_message_envelope song_select song_number

  build_tune_request_message : List ℕ
  build_tune_request_message = build_system_common_message_envelope tune_request 0

  build_system_real_time_message : SystemRealTimeType → List ℕ
  build_system_real_time_message type =
      schema.serialize (system_real_time (some (record { real_time_type = type })))

  build_system_exclusive_message : Span → Span → List ℕ
  build_system_exclusive_message manufacturer_id_bytes sysex_payload_bytes = schema.serialize (
      system_exclusive (
        some (record {
          manufacturer_id = vector_of manufacturer_id_bytes;
          payload = vector_of sysex_payload_bytes;
        })))
