-- ===== src/Endpoint/Ota.antt =====
-- include/libcomm/ota_endpoint.h and src/ota_endpoint.cpp, with the types of schemas/ota_messages.fbs.
pub mod Device
pub mod Report
pub mod Update
mod Examples
use midi2pwmv2_libcomm.Common.{
  ℕ, ◌==◌, Bool, true, false, if◌then◌else◌, Option, none, some, List, length, Span, null, points,
}
use midi2pwmv2_libcomm.Transport.{
  WriteCallback, FrameTransport, new_transport, Statics, send, handle_incoming,
}
use midi2pwmv2_libcomm.Ota.{Target, OtaStatus, OtaBegin, OtaData, OtaEnd, OtaAbort}
use midi2pwmv2_libcomm.Endpoint.{Schema, notify, open_frame, vector_of}

pub record OtaProgress : Type 0 where
  pub progress_target : Target
  pub progress_status : OtaStatus
  pub chunks_received : ℕ
  pub progress_total_chunks : ℕ
  pub error_message : Option (List ℕ)

-- The message of an envelope: its type, and the table, which may be missing. `unknown` is any other type.
pub data OtaMessage : Type 0 where
  ota_begin : Option OtaBegin → OtaMessage
  ota_data : Option OtaData → OtaMessage
  ota_end : Option OtaEnd → OtaMessage
  ota_progress : Option OtaProgress → OtaMessage
  ota_abort : Option OtaAbort → OtaMessage
  unknown : ℕ → OtaMessage

pub record OtaEndpoint (S : Type 0) : Type 0 where
  pub transport : FrameTransport S
  pub begin_handler : Option (OtaBegin → S → S)
  pub data_handler : Option (OtaData → S → S)
  pub end_handler : Option (OtaEnd → S → S)
  pub progress_handler : Option (OtaProgress → S → S)
  pub abort_handler : Option (OtaAbort → S → S)

module _ {S : Type 0} where
  new_ota_endpoint : Option (WriteCallback S) → OtaEndpoint S
  new_ota_endpoint write = record {
    transport = new_transport write;
    begin_handler = none;
    data_handler = none;
    end_handler = none;
    progress_handler = none;
    abort_handler = none;
  }

  pub on_begin : OtaEndpoint S → Option (OtaBegin → S → S) → OtaEndpoint S
  on_begin e handler = record e { begin_handler = handler }

  on_data : OtaEndpoint S → Option (OtaData → S → S) → OtaEndpoint S
  on_data e handler = record e { data_handler = handler }

  on_end : OtaEndpoint S → Option (OtaEnd → S → S) → OtaEndpoint S
  on_end e handler = record e { end_handler = handler }

  on_progress : OtaEndpoint S → Option (OtaProgress → S → S) → OtaEndpoint S
  on_progress e handler = record e { progress_handler = handler }

  on_abort : OtaEndpoint S → Option (OtaAbort → S → S) → OtaEndpoint S
  on_abort e handler = record e { abort_handler = handler }

  -- The switch of `HandleFrame`.
  pub dispatch : OtaEndpoint S → OtaMessage → S → Bool × S
  dispatch e (ota_begin m) s = (true, notify e.begin_handler m s)
  dispatch e (ota_data m) s = (true, notify e.data_handler m s)
  dispatch e (ota_end m) s = (true, notify e.end_handler m s)
  dispatch e (ota_progress m) s = (true, notify e.progress_handler m s)
  dispatch e (ota_abort m) s = (true, notify e.abort_handler m s)
  dispatch e (unknown type) s = (false, s)

  pub handle_frame : OtaEndpoint S → Schema OtaMessage → Span → S → Bool × S
  handle_frame e schema payload s = open_frame schema (dispatch e) payload s

  pub receive : ℕ → OtaEndpoint S → Schema OtaMessage → Span → S → Bool × S
  receive size_modulus e schema received s =
      handle_incoming size_modulus received
        (some (λ payload t. handle_frame e schema (points payload) t)) s

  -- `Send` of a buffer that a builder has released.
  pub send_buffer : OtaEndpoint S → List ℕ → Statics → S → Bool × OtaEndpoint S × Statics × S
  send_buffer e buffer v s =
      let (sent, transport', v', s') = send e.transport (points buffer) v s in
      (sent, record e { transport = transport' }, v', s')

-- A string that is null is left out.
module _ (schema : Schema OtaMessage) where
  pub build_ota_begin_message : Target → ℕ → ℕ → Option (List ℕ) → ℕ → List ℕ
  build_ota_begin_message target firmware_size firmware_crc32 version_string total_chunks =
      schema.serialize (
        ota_begin (
          some (record {
            begin_target = target;
            firmware_size = firmware_size;
            firmware_crc32 = firmware_crc32;
            version_string = version_string;
            chunk_count = total_chunks;
          })))

  pub build_ota_data_message : Target → ℕ → Span → List ℕ
  build_ota_data_message target chunk_index bytes = schema.serialize (
      ota_data (
        some (record {
          data_target = target;
          chunk_index = chunk_index;
          data_bytes = vector_of bytes;
        })))

  pub build_ota_end_message : Target → List ℕ
  build_ota_end_message target = schema.serialize (ota_end (some (record { end_target = target })))

  pub build_ota_progress_message : Target → OtaStatus → ℕ → ℕ → Option (List ℕ) → List ℕ
  build_ota_progress_message target status chunks_received total_chunks error_message =
      schema.serialize (
        ota_progress (
          some (record {
            progress_target = target;
            progress_status = status;
            chunks_received = chunks_received;
            progress_total_chunks = total_chunks;
            error_message = error_message;
          })))

  pub build_ota_abort_message : Target → Option (List ℕ) → List ℕ
  build_ota_abort_message target reason =
      schema.serialize (ota_abort (some (record { abort_target = target; reason = reason })))
