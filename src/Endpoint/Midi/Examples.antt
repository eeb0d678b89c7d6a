-- ===== src/Endpoint/Midi/Examples.antt =====
-- A pitch bend through a small encoding that stands for the generated code.
use midi2pwmv2_libcomm.Common.{
  ℕ, ◌+◌, ◌*◌, ◌^◌, ◌<◌, ◌≡◌, refl, ap, ◌∙◌, arith, ◌==◌, true, if◌then◌else◌, none, some, List, [],
  ◌∷◌, append-nil, map, length, length-append, length-replicate, replicate, get_or, points,
}
use midi2pwmv2_libcomm.Transport.{FrameTransport, initial_statics, send, handle_incoming}
use midi2pwmv2_libcomm.Transport.Frame.{frame, length-frame}
use midi2pwmv2_libcomm.Transport.Transmit.{initial_statics-IsStatics}
use midi2pwmv2_libcomm.Transport.Sequence.{send_each, write_each, send_each-frames}
use midi2pwmv2_libcomm.Stream.{StreamProcessor}
use midi2pwmv2_libcomm.Stream.Pending.{pending}
use midi2pwmv2_libcomm.Stream.Refine.{Kept}
use midi2pwmv2_libcomm.Stream.Chunks.{feed_each}
use midi2pwmv2_libcomm.Link.{put_on_wire}
use midi2pwmv2_libcomm.Endpoint.{Schema, Carries, open_frame}
use midi2pwmv2_libcomm.Endpoint.Roundtrip.{wire, send-dispatch}
use midi2pwmv2_libcomm.Endpoint.Wire.{frame_handler, dispatch_each, feed_each-dispatch}
use midi2pwmv2_libcomm.Endpoint.Midi.{
  ChannelMessageType, note_off, note_on, polyphonic_key_pressure, control_change, program_change,
  channel_pressure, pitch_bend, ChannelMessage, Packet, ping, channel_message, system_common,
  system_real_time, system_exclusive, unknown, MidiEndpoint, dispatch, receive,
}
use midi2pwmv2_libcomm.Endpoint.Midi.Messages.{least_significant_byte, most_significant_byte}
use midi2pwmv2_libcomm.Endpoint.Midi.Messages.Built.{
  asks_pitch_bend, build_midi_request, receive-build_midi_request,
}
use midi2pwmv2_libcomm.Endpoint.Midi.Laws.{pitch_bend_split, bend_message, bend_value}

abbrev pub type_code : ChannelMessageType → ℕ
type_code note_off = 0
type_code note_on = 1
type_code polyphonic_key_pressure = 2
type_code control_change = 3
type_code program_change = 4
type_code channel_pressure = 5
type_code pitch_bend = 6

abbrev pub encode : Packet → List ℕ
encode (channel_message (some m)) =
    2 ∷ m.channel ∷ type_code m.message_type ∷ m.data1 ∷ m.data2 ∷ []
encode (channel_message none) = 0 ∷ []
encode (ping m) = 0 ∷ []
encode (system_common m) = 0 ∷ []
encode (system_real_time m) = 0 ∷ []
encode (system_exclusive m) = 0 ∷ []
encode (unknown n) = 0 ∷ []

abbrev pub decode : List ℕ → Packet
decode bytes =
    if get_or bytes 0 0 == 2
    then channel_message (
        some (record {
          channel = get_or bytes 1 0;
          message_type = if get_or bytes 2 0 == 6 then pitch_bend else note_on;
          data1 = get_or bytes 3 0;
          data2 = get_or bytes 4 0;
        }))
    else unknown 0

abbrev pub channel_schema : Schema Packet
channel_schema = record {
  serialize = encode;
  buffer_has_identifier = λ bytes. true;
  verify_buffer = λ bytes. true;
  get_envelope = λ bytes. some (decode bytes);
}

pub bend-Carries :
    (value : ℕ) → Carries channel_schema (channel_message (some (bend_message 3 value)))
bend-Carries value = record {
  identified = refl;
  verified = refl;
  read_back = refl;
  written = omega arith;
  bytes =
      let (low, high, _) = pitch_bend_split value in
      (omega arith, (omega arith, (omega arith, (omega (arith, low), (omega (arith, high), tt)))));
}

-- The values of the pitch bends received, the last first.
abbrev keep_value : ChannelMessage → List ℕ → List ℕ
keep_value m values = bend_value m ∷ values

abbrev listener : MidiEndpoint (List ℕ)
listener = record {
  transport = record { write = none; next_sequence = 1 };
  ping_handler = none;
  channel_handler = some keep_value;
  system_common_handler = none;
  system_real_time_handler = none;
  system_exclusive_handler = none;
}

pitch_bend_split_example :
    (least_significant_byte 8193 < 128)
    × (most_significant_byte 8193 < 128)
    × (least_significant_byte 8193 + 128 * most_significant_byte 8193 ≡ 8193)
pitch_bend_split_example = pitch_bend_split 8193

receive-build_midi_request_example :
    receive
      (2 ^ 64)
      listener
      channel_schema
      (points (frame 1 (build_midi_request channel_schema (asks_pitch_bend 3 8193))))
      []
    ≡ (true, 8193 ∷ [])
receive-build_midi_request_example =
    receive-build_midi_request channel_schema (2 ^ 64) 1 listener (asks_pitch_bend 3 8193) []
      (record {
        identified = refl;
        verified = refl;
        read_back = refl;
        written = omega arith;
        bytes = omega arith;
      })
      (omega arith) (omega arith)

abbrev connected : FrameTransport (List ℕ)
connected = record {
  write = some (
      wire (λ bytes values.
        handle_incoming (2 ^ 64) (points bytes)
          (some (λ payload t. open_frame channel_schema (dispatch listener) (points payload) t))
          values));
  next_sequence = 1;
}

send-dispatch_example :
    ((send connected
        (points (encode (channel_message (some (bend_message 3 8192)))))
        initial_statics
        []).0
      ≡ (dispatch listener (channel_message (some (bend_message 3 8192))) []).0)
    × ((send connected
          (points (encode (channel_message (some (bend_message 3 8192)))))
          initial_statics
          []).3
        ≡ (dispatch listener (channel_message (some (bend_message 3 8192))) []).1)
send-dispatch_example =
    send-dispatch channel_schema (2 ^ 64) (dispatch listener) connected
      (channel_message (some (bend_message 3 8192))) initial_statics [] (bend-Carries 8192)
      (omega arith) refl (record { positive = omega arith; bounded = omega arith })
      initial_statics-IsStatics (omega arith)

abbrev two_bends : List Packet
two_bends =
    channel_message (some (bend_message 3 8192)) ∷ channel_message (some (bend_message 3 77)) ∷ []

abbrev wired : FrameTransport (List ℕ)
wired = record { write = some put_on_wire; next_sequence = 65535 }

abbrev sent_bytes : List ℕ
sent_bytes = (send_each wired (map encode two_bends) initial_statics []).2

length-sent_bytes : length sent_bytes ≡ 34
unfolding write_each
length-sent_bytes =
    let first : List ℕ = encode (channel_message (some (bend_message 3 8192))) in
    let second : List ℕ = encode (channel_message (some (bend_message 3 77))) in
    let (written, _) =
      send_each-frames put_on_wire wired (map encode two_bends) initial_statics [] refl
        (record { positive = omega arith; bounded = omega arith }) initial_statics-IsStatics
        (omega arith, (omega arith, tt)) in
    ap length written
    ∙ omega (
      arith,
      length-append (frame 65535 first) (frame 1 second),
      length-frame 65535 first,
      length-frame 1 second,
    )

abbrev listening : StreamProcessor (List ℕ)
listening = record {
  buffer = replicate 4108 0;
  size = 0;
  frame_callback = some (frame_handler channel_schema (dispatch listener));
  error_callback = none;
  write_callback = none;
}

feed_each-dispatch_example :
    (q : StreamProcessor (List ℕ)) × (feed_each (2 ^ 32) (sent_bytes ∷ []) listening []
      ≡ some (q, dispatch_each channel_schema (dispatch listener) two_bends []))
    × (pending q ≡ [])
    × Kept listening q
feed_each-dispatch_example =
    feed_each-dispatch channel_schema (dispatch listener) (2 ^ 32) 5 wired initial_statics two_bends
      (sent_bytes ∷ []) listening [] (omega arith) (omega arith) refl
      (record { positive = omega arith; bounded = omega arith }) initial_statics-IsStatics
      (
        record { carries = bend-Carries 8192; bounded = omega arith },
        (record { carries = bend-Carries 77; bounded = omega arith }, tt),
      )
      (omega (arith, length-sent_bytes), tt) (append-nil sent_bytes)
      (record { capacity = length-replicate {A = ℕ} 4108 0; within = omega arith }) refl refl
