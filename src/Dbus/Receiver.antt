-- ===== src/Dbus/Receiver.antt =====
-- The handler of examples/dbus_receiver/main.cpp, which offers a message first to a MidiEndpoint and then
-- to a PwmEndpoint, behind the D-Bus server.
use midi2pwmv2_libcomm.Common.{ℕ, ◌≡◌, Bool, true, false, if◌then◌else◌, List, points}
use midi2pwmv2_libcomm.Endpoint.{Schema, Carries}
use midi2pwmv2_libcomm.Endpoint.Midi
use midi2pwmv2_libcomm.Endpoint.Midi.{Packet, MidiEndpoint}
use midi2pwmv2_libcomm.Endpoint.Pwm
use midi2pwmv2_libcomm.Endpoint.Pwm.{PwmMessage, PwmEndpoint}

-- A message of either kind.
pub data Message (Float ModeParams : Type 0) : Type 0 where
  midi_packet : Packet → Message Float ModeParams
  pwm_message : PwmMessage Float ModeParams → Message Float ModeParams

-- `CombinedHandler`.
module _ {Float ModeParams W : Type 0} (size_modulus : ℕ) (midi : MidiEndpoint W)
    (midi_schema : Schema Packet) (pwm : PwmEndpoint Float ModeParams W)
    (pwm_schema : Schema (PwmMessage Float ModeParams)) where
  pub combined_handler : List ℕ → W → Bool × W
  combined_handler bytes w =
      let (accepted, w1) = Midi.receive size_modulus midi midi_schema (points bytes) w in
      if accepted then (true, w1) else Pwm.receive size_modulus pwm pwm_schema (points bytes) w1

  abbrev pub buffer_of : Message Float ModeParams → List ℕ
  buffer_of (midi_packet p) = midi_schema.serialize p
  buffer_of (pwm_message q) = pwm_schema.serialize q

  -- The switch that is meant to see it.
  abbrev pub switch : Message Float ModeParams → W → Bool × W
  switch (midi_packet p) w = Midi.dispatch midi p w
  switch (pwm_message q) w = Pwm.dispatch pwm q w

  -- The generated code reads the message back, and does not find the other schema's identifier in it:
  -- the file identifiers of the two schemas differ.
  abbrev pub IsTold : Message Float ModeParams → Type 0
  IsTold (midi_packet p) =
      Carries midi_schema p × (pwm_schema.buffer_has_identifier (midi_schema.serialize p) ≡ false)
  IsTold (pwm_message q) =
      Carries pwm_schema q × (midi_schema.buffer_has_identifier (pwm_schema.serialize q) ≡ false)
