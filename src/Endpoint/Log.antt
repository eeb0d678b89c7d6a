-- ===== src/Endpoint/Log.antt =====
-- include/libcomm/log_endpoint.h and src/log_endpoint.cpp, with the types of schemas/log_messages.fbs.
pub mod Forward
mod Examples
use midi2pwmv2_libcomm.Common.{ℕ, Bool, true, false, Option, none, some, List, [], Span, points}
use midi2pwmv2_libcomm.Transport.{
  WriteCallback, FrameTransport, new_transport, Statics, send, handle_incoming,
}
use midi2pwmv2_libcomm.Endpoint.{Schema, notify, open_frame}

pub data LogLevel : Type 0 where
  error_level warning_level info_level debug_level : LogLevel

pub record LogForward : Type 0 where
  pub level : LogLevel
  pub tag : Option (List ℕ)
  pub message : Option (List ℕ)

-- The message of an envelope: its type, and the table, which may be missing. `unknown` is any other type.
pub data LogMessage : Type 0 where
  log_forward : Option LogForward → LogMessage
  unknown : ℕ → LogMessage

pub record LogEndpoint (S : Type 0) : Type 0 where
  pub transport : FrameTransport S
  pub log_forward_handler : Option (LogForward → S → S)

module _ {S : Type 0} where
  new_log_endpoint : Option (WriteCallback S) → LogEndpoint S
  new_log_endpoint write = record { transport = new_transport write; log_forward_handler = none }

  on_log_forward : LogEndpoint S → Option (LogForward → S → S) → LogEndpoint S
  on_log_forward e handler = record e { log_forward_handler = handler }

  -- The switch of `HandleFrame`.
  pub dispatch : LogEndpoint S → LogMessage → S → Bool × S
  dispatch e (log_forward m) s = (true, notify e.log_forward_handler m s)
  dispatch e (unknown type) s = (false, s)

  pub handle_frame : LogEndpoint S → Schema LogMessage → Span → S → Bool × S
  handle_frame e schema payload s = open_frame schema (dispatch e) payload s

  pub receive : ℕ → LogEndpoint S → Schema LogMessage → Span → S → Bool × S
  receive size_modulus e schema received s =
      handle_incoming size_modulus received
        (some (λ payload t. handle_frame e schema (points payload) t)) s

  -- `Send` of a buffer that the builder has released.
  pub send_buffer : LogEndpoint S → List ℕ → Statics → S → Bool × LogEndpoint S × Statics × S
  send_buffer e buffer v s =
      let (sent, transport', v', s') = send e.transport (points buffer) v s in
      (sent, record e { transport = transport' }, v', s')

-- A null string is written as an empty one.
abbrev pub string_or_empty : Option (List ℕ) → List ℕ
string_or_empty none = []
string_or_empty (some text) = text

pub build_log_forward_message :
    Schema LogMessage → LogLevel → Option (List ℕ) → Option (List ℕ) → List ℕ
build_log_forward_message schema level tag message = schema.serialize (
    log_forward (
      some (record {
        level = level;
        tag = some (string_or_empty tag);
        message = some (string_or_empty message);
      })))
