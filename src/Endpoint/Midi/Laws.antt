-- ===== src/Endpoint/Midi/Laws.antt =====
-- What `MidiEndpoint` promises.
use midi2pwmv2_libcomm.Common.{
  ℕ, ◌+◌, ◌*◌, ◌/◌, ◌%◌, ◌^◌, ◌≤◌, ◌<◌, ◌≡◌, refl, ap, ◌∙◌, arith, true, some, length, points,
}
use midi2pwmv2_libcomm.Common.Digits.{and_127}
use midi2pwmv2_libcomm.Transport.{max_frame_size}
use midi2pwmv2_libcomm.Transport.Frame.{frame}
use midi2pwmv2_libcomm.Transport.Receive.{IsSizeModulus}
use midi2pwmv2_libcomm.Endpoint.{Schema, Carries, notify}
use midi2pwmv2_libcomm.Endpoint.Roundtrip.{handle_incoming-serialize}
use midi2pwmv2_libcomm.Endpoint.Midi.{
  ChannelMessage, pitch_bend, Packet, channel_message, MidiEndpoint, dispatch, handle_frame,
  receive,
}
use midi2pwmv2_libcomm.Endpoint.Midi.Messages.{
  least_significant_byte, most_significant_byte, build_channel_message_envelope,
  build_pitch_bend_message,
}

-- The two data bytes of a pitch bend are 7-bit MIDI data bytes, and together they are the value's lowest
-- fourteen bits, so a 14-bit value is recovered from them.
pub pitch_bend_split :
    (value : ℕ)
    → (least_significant_byte value < 128)
      × (most_significant_byte value < 128)
      × (least_significant_byte value + 128 * most_significant_byte value ≡ value % 2 ^ 14)
unfolding least_significant_byte most_significant_byte
pitch_bend_split value =
    let low = and_127 value in
    let high = and_127 (value / 2 ^ 7) in
    (omega (arith, low), omega (arith, high), omega (arith, low, high))

-- The message of a pitch bend.
abbrev pub bend_message : ℕ → ℕ → ChannelMessage
bend_message channel_number value = record {
  channel = channel_number;
  message_type = pitch_bend;
  data1 = least_significant_byte value;
  data2 = most_significant_byte value;
}

-- The value that a receiver reads out of the message.
abbrev pub bend_value : ChannelMessage → ℕ
bend_value m = m.data1 + 128 * m.data2

module _ {S : Type 0} (schema : Schema Packet) (m n : ℕ) (e : MidiEndpoint S) (s : S) where
  -- A frame with the envelope of a packet, received: the handler of the packet's type, if set, gets the
  -- very message that was built.
  receive-packet :
      (p : Packet)
      → Carries schema p
      → IsSizeModulus m
      → length (schema.serialize p) ≤ max_frame_size
      → receive m e schema (points (frame n (schema.serialize p))) s ≡ dispatch e p s
  unfolding receive handle_frame
  receive-packet p h wide small = handle_incoming-serialize schema p h m n (dispatch e) s wide small

  -- A pitch bend of a 14-bit value, built, framed and received with a channel handler set: the handler is
  -- called once, on a message of that channel whose two data bytes give the value back.
  receive-pitch_bend :
      (handler : ChannelMessage → S → S) (channel_number value : ℕ)
      → Carries schema (channel_message (some (bend_message channel_number value)))
      → IsSizeModulus m
      → e.channel_handler ≡ some handler
      → value < 2 ^ 14
      → length (build_pitch_bend_message schema channel_number value) ≤ max_frame_size
      → (message : ChannelMessage) × (receive m e schema
            (points (frame n (build_pitch_bend_message schema channel_number value)))
            s
          ≡ (true, handler message s))
        × (message.channel ≡ channel_number)
        × (message.message_type ≡ pitch_bend)
        × (bend_value message ≡ value)
  unfolding build_pitch_bend_message build_channel_message_envelope dispatch
  receive-pitch_bend handler channel_number value h wide set small fits =
      let message : ChannelMessage = bend_message channel_number value in
      let (_, _, whole) = pitch_bend_split value in
      (
        message,
        receive-packet (channel_message (some message)) h wide fits
            ∙ ap (λ c. (true, notify c (some message) s)) set,
        refl,
        refl,
        omega (arith, whole),
      )
