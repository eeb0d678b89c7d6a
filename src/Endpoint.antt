-- ===== src/Endpoint.antt =====
-- What the four endpoints share: a frame transport, and payloads that are FlatBuffers envelopes. The
-- code that `flatc` generates is a parameter: `P` is the envelope's message, as `GetEnvelope` and the
-- typed accessors show it.
pub mod Roundtrip
pub mod Wire
pub mod Midi
pub mod Pwm
pub mod Ota
pub mod Log
use midi2pwmv2_libcomm.Common.{
  ℕ, ◌≤◌, ◌<◌, ◌≡◌, ◌==◌, Bool, true, false, not, if◌then◌else◌, Option, none, some, List, length,
  All, IsByte, Span, null, points,
}
use midi2pwmv2_libcomm.Transport.{FrameTransport, Statics, send, handle_incoming}

-- The generated functions of one schema.
pub record Schema (P : Type 0) : Type 0 where
  pub serialize : P → List ℕ
  pub buffer_has_identifier : List ℕ → Bool
  pub verify_buffer : List ℕ → Bool
  pub get_envelope : List ℕ → Option P

-- The documented behaviour of the generated code for one message: the buffer that a builder has finished
-- passes the tests and reads back as it was written.
pub record Carries {P : Type 0} (schema : Schema P) (p : P) : Type 0 where
  pub identified : schema.buffer_has_identifier (schema.serialize p) ≡ true
  pub verified : schema.verify_buffer (schema.serialize p) ≡ true
  pub read_back : schema.get_envelope (schema.serialize p) ≡ some p
  pub written : 0 < length (schema.serialize p)
  pub bytes : All IsByte (schema.serialize p)

-- A callback that may be missing, called on a message that may be missing.
abbrev pub notify : {S M : Type 0} → Option (M → S → S) → Option M → S → S
notify none m s = s
notify (some handler) none s = s
notify (some handler) (some m) s = handler m s

-- The tests that every `HandleFrame` makes before it looks at the message.
unfoldable pub open_frame : {S P : Type 0} → Schema P → (P → S → Bool × S) → Span → S → Bool × S
open_frame schema dispatch (null n) s = (false, s)
open_frame schema dispatch (points payload) s =
    if length payload == 0
    then (false, s)
    else if not (schema.buffer_has_identifier payload)
    then (false, s)
    else if not (schema.verify_buffer payload)
    then (false, s)
    else elim (schema.get_envelope payload) [
      | none ↦ (false, s)
      | some envelope ↦ dispatch envelope s
    ]

-- A vector is written where there are bytes; otherwise the field is left out.
abbrev pub vector_of : Span → Option (List ℕ)
vector_of (null n) = none
vector_of (points bytes) = if length bytes == 0 then none else some bytes
