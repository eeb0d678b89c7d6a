-- ===== src/Endpoint/Midi/Messages/Built.antt =====
-- What a receiver is told by the messages of the builders of src/midi_endpoint.cpp.
use midi2pwmv2_libcomm.Common.{
  ℕ, ◌/◌, ◌%◌, ◌^◌, ◌≤◌, ◌≡◌, refl, ap, ◌∙◌, arith, ◌==◌, true, false, Option, none, some, List, [],
  ◌∷◌, length, Span, null, points,
}
use midi2pwmv2_libcomm.Common.Digits.{and_127}
use midi2pwmv2_libcomm.Transport.{max_frame_size}
use midi2pwmv2_libcomm.Transport.Frame.{frame}
use midi2pwmv2_libcomm.Transport.Receive.{IsSizeModulus}
use midi2pwmv2_libcomm.Endpoint.{Schema, Carries, notify, vector_of}
use midi2pwmv2_libcomm.Endpoint.Roundtrip.{handle_incoming-serialize}
use midi2pwmv2_libcomm.Endpoint.Midi.{
  ChannelMessageType, note_off, note_on, polyphonic_key_pressure, control_change, program_change,
  channel_pressure, pitch_bend, SystemCommonType, time_code_quarter_frame, song_position_pointer,
  song_select, tune_request, SystemRealTimeType, Packet, ping, channel_message, system_common,
  system_real_time, system_exclusive, unknown, MidiEndpoint, dispatch, handle_frame, receive,
}
use midi2pwmv2_libcomm.Endpoint.Midi.Messages.{
  least_significant_byte, most_significant_byte, build_ping_message, build_channel_message_envelope,
  build_note_off_message, build_note_on_message, build_polyphonic_key_pressure_message,
  build_control_change_message, build_program_change_message, build_channel_pressure_message,
  build_pitch_bend_message, build_system_common_message_envelope,
  build_time_code_quarter_frame_message, build_song_position_pointer_message,
  build_song_select_message, build_tune_request_message, build_system_real_time_message,
  build_system_exclusive_message,
}

-- A call of a builder.
pub data Request : Type 0 where
  asks_ping : ℕ → ℕ → Request
  asks_note_off asks_note_on asks_key_pressure asks_control_change : ℕ → ℕ → ℕ → Request
  asks_program_change asks_channel_pressure asks_pitch_bend : ℕ → ℕ → Request
  asks_quarter_frame asks_song_position asks_song_select : ℕ → Request
  asks_tune : Request
  asks_real_time : SystemRealTimeType → Request
  asks_exclusive : Span → Span → Request

pub build_midi_request : Schema Packet → Request → List ℕ
build_midi_request schema (asks_ping number time) = build_ping_message schema number time
build_midi_request schema (asks_note_off on key speed) = build_note_off_message schema on key speed
build_midi_request schema (asks_note_on on key speed) = build_note_on_message schema on key speed
build_midi_request schema (asks_key_pressure on key pressure) =
    build_polyphonic_key_pressure_message schema on key pressure
build_midi_request schema (asks_control_change on controller to) =
    build_control_change_message schema on controller to
build_midi_request schema (asks_program_change on program) =
    build_program_change_message schema on program
build_midi_request schema (asks_channel_pressure on pressure) =
    build_channel_pressure_message schema on pressure
build_midi_request schema (asks_pitch_bend on bend) = build_pitch_bend_message schema on bend
build_midi_request schema (asks_quarter_frame frame_value) =
    build_time_code_quarter_frame_message schema frame_value
build_midi_request schema (asks_song_position beats) =
    build_song_position_pointer_message schema beats
build_midi_request schema (asks_song_select song) = build_song_select_message schema song
build_midi_request schema asks_tune = build_tune_request_message schema
build_midi_request schema (asks_real_time kind) = build_system_real_time_message schema kind
build_midi_request schema (asks_exclusive manufacturer body) =
    build_system_exclusive_message schema manufacturer body

abbrev on_channel : ℕ → ChannelMessageType → ℕ → ℕ → Packet
on_channel on kind first second =
    channel_message
      (some (record { channel = on; message_type = kind; data1 = first; data2 = second }))

abbrev common : SystemCommonType → ℕ → Packet
common kind number = system_common (some (record { common_type = kind; value = number }))

-- The bytes of a field of a system exclusive message, which is left out when there are none.
abbrev field_of : Span → Option (List ℕ)
field_of (null n) = none
field_of (points []) = none
field_of (points (b ∷ bytes)) = some (b ∷ bytes)

-- The packet that is meant. A pitch bend has the lower seven of its bits in the first data byte and the
-- next seven in the second.
abbrev pub meant : Request → Packet
meant (asks_ping number time) = ping (some (record { sequence = number; timestamp = time }))
meant (asks_note_off on key speed) = on_channel on note_off key speed
meant (asks_note_on on key speed) = on_channel on note_on key speed
meant (asks_key_pressure on key pressure) = on_channel on polyphonic_key_pressure key pressure
meant (asks_control_change on controller to) = on_channel on control_change controller to
meant (asks_program_change on program) = on_channel on program_change program 0
meant (asks_channel_pressure on pressure) = on_channel on channel_pressure pressure 0
meant (asks_pitch_bend on bend) = on_channel on pitch_bend (bend % 128) (bend / 128 % 128)
meant (asks_quarter_frame frame_value) = common time_code_quarter_frame frame_value
meant (asks_song_position beats) = common song_position_pointer beats
meant (asks_song_select song) = common song_select song
meant asks_tune = common tune_request 0
meant (asks_real_time kind) = system_real_time (some (record { real_time_type = kind }))
meant (asks_exclusive manufacturer body) =
    system_exclusive
      (some (record { manufacturer_id = field_of manufacturer; payload = field_of body }))

-- The handler that a packet is for, called on its message.
abbrev pub told : {S : Type 0} → MidiEndpoint S → Packet → S → S
told e (ping m) = notify e.ping_handler m
told e (channel_message m) = notify e.channel_handler m
told e (system_common m) = notify e.system_common_handler m
told e (system_real_time m) = notify e.system_real_time_handler m
told e (system_exclusive m) = notify e.system_exclusive_handler m
told e (unknown n) = λ s. s

bend_bytes :
    (bend : ℕ)
    → (least_significant_byte bend ≡ bend % 128) × (most_significant_byte bend ≡ bend / 128 % 128)
unfolding least_significant_byte most_significant_byte
bend_bytes bend = (omega (arith, and_127 bend), omega (arith, and_127 (bend / 2 ^ 7)))

vector_of-field_of : (bytes : Span) → vector_of bytes ≡ field_of bytes
vector_of-field_of (null n) = refl
vector_of-field_of (points []) = refl
vector_of-field_of (points (b ∷ bytes)) =
    let full : (length (b ∷ bytes) == 0) ≡ false = ground arith in rw full refl

serialize-meant :
    (schema : Schema Packet) (r : Request)
    → build_midi_request schema r ≡ schema.serialize (meant r)
unfolding build_midi_request build_ping_message build_channel_message_envelope
    build_note_off_message build_note_on_message build_polyphonic_key_pressure_message
    build_control_change_message build_program_change_message build_channel_pressure_message
    build_pitch_bend_message build_system_common_message_envelope
    build_time_code_quarter_frame_message build_song_position_pointer_message
    build_song_select_message build_tune_request_message build_system_real_time_message
    build_system_exclusive_message
serialize-meant schema (asks_ping number time) = refl
serialize-meant schema (asks_note_off on key speed) = refl
serialize-meant schema (asks_note_on on key speed) = refl
serialize-meant schema (asks_key_pressure on key pressure) = refl
serialize-meant schema (asks_control_change on controller to) = refl
serialize-meant schema (asks_program_change on program) = refl
serialize-meant schema (asks_channel_pressure on pressure) = refl
serialize-meant schema (asks_pitch_bend on bend) =
    let (low, high) = bend_bytes bend in
    ap (λ l. schema.serialize (on_channel on pitch_bend l (most_significant_byte bend))) low
    ∙ ap (λ h. schema.serialize (on_channel on pitch_bend (bend % 128) h)) high
serialize-meant schema (asks_quarter_frame frame_value) = refl
serialize-meant schema (asks_song_position beats) = refl
serialize-meant schema (asks_song_select song) = refl
serialize-meant schema asks_tune = refl
serialize-meant schema (asks_real_time kind) = refl
serialize-meant schema (asks_exclusive manufacturer body) =
    ap
      (λ f.
        schema.serialize
          (system_exclusive (some (record { manufacturer_id = f; payload = vector_of body }))))
      (vector_of-field_of manufacturer)
    ∙ ap
        (λ f. schema.serialize (
          system_exclusive
            (some (record { manufacturer_id = field_of manufacturer; payload = f }))))
        (vector_of-field_of body)

dispatch-told :
    {S : Type 0} (e : MidiEndpoint S) (r : Request) (s : S)
    → dispatch e (meant r) s ≡ (true, told e (meant r) s)
unfolding dispatch
dispatch-told e (asks_ping number time) s = refl
dispatch-told e (asks_note_off on key speed) s = refl
dispatch-told e (asks_note_on on key speed) s = refl
dispatch-told e (asks_key_pressure on key pressure) s = refl
dispatch-told e (asks_control_change on controller to) s = refl
dispatch-told e (asks_program_change on program) s = refl
dispatch-told e (asks_channel_pressure on pressure) s = refl
dispatch-told e (asks_pitch_bend on bend) s = refl
dispatch-told e (asks_quarter_frame frame_value) s = refl
dispatch-told e (asks_song_position beats) s = refl
dispatch-told e (asks_song_select song) s = refl
dispatch-told e asks_tune s = refl
dispatch-told e (asks_real_time kind) s = refl
dispatch-told e (asks_exclusive manufacturer body) s = refl

-- Every builder, framed and received: if the generated code reads the packet back and it has at most 4096
-- bytes, the handler of its type is called once, if it is set, with the type of the message and the
-- numbers that were given to the builder. A pitch bend comes as its lower and its next seven bits, and
-- an absent or empty field of a system exclusive message is left out.
pub receive-build_midi_request :
    {S : Type 0} (schema : Schema Packet) (m n : ℕ) (e : MidiEndpoint S) (r : Request) (s : S)
    → Carries schema (meant r)
    → IsSizeModulus m
    → length (schema.serialize (meant r)) ≤ max_frame_size
    → receive m e schema (points (frame n (build_midi_request schema r))) s
      ≡ (true, told e (meant r) s)
unfolding receive handle_frame
receive-build_midi_request schema m n e r s h wide small =
    ap (λ b. receive m e schema (points (frame n b)) s) (serialize-meant schema r)
    ∙ handle_incoming-serialize schema (meant r) h m n (dispatch e) s wide small
    ∙ dispatch-told e r s
