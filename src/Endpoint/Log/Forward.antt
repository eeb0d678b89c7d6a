-- ===== src/Endpoint/Log/Forward.antt =====
-- A log line from the firmware to the host.
use midi2pwmv2_libcomm.Common.{ℕ, ◌≤◌, ◌≡◌, ap, ◌∙◌, true, Option, some, List, length}
use midi2pwmv2_libcomm.Transport.{max_frame_size, Statics}
use midi2pwmv2_libcomm.Transport.Transmit.{IsStatics}
use midi2pwmv2_libcomm.Transport.Sequence.{IsSequence}
use midi2pwmv2_libcomm.Transport.Receive.{IsSizeModulus}
use midi2pwmv2_libcomm.Common.{points}
use midi2pwmv2_libcomm.Endpoint.{Schema, Carries, notify}
use midi2pwmv2_libcomm.Endpoint.Roundtrip.{wire, send-dispatch}
use midi2pwmv2_libcomm.Endpoint.Log.{
  LogLevel, LogForward, LogMessage, log_forward, LogEndpoint, dispatch, handle_frame, receive,
  send_buffer, string_or_empty, build_log_forward_message,
}

-- The message of a log line.
abbrev pub log_line : LogLevel → Option (List ℕ) → Option (List ℕ) → LogForward
log_line level tag message = record {
  level = level;
  tag = some (string_or_empty tag);
  message = some (string_or_empty message);
}

-- A log line that one endpoint builds and sends over a write callback that is another endpoint's
-- `HandleIncoming`, with a handler set there: the send succeeds, and the handler is called once, with the
-- level, the tag and the text, a null string coming out empty.
pub send_buffer-log_forward :
    {S : Type 0} (schema : Schema LogMessage) (m : ℕ) (sender receiver : LogEndpoint S)
    (handler : LogForward → S → S) (level : LogLevel) (tag message : Option (List ℕ)) (v : Statics)
    (s : S)
    → Carries schema (log_forward (some (log_line level tag message)))
    → IsSizeModulus m
    → sender.transport.write ≡ some (wire (λ bytes u. receive m receiver schema (points bytes) u))
    → receiver.log_forward_handler ≡ some handler
    → IsSequence sender.transport.next_sequence
    → IsStatics v
    → length (build_log_forward_message schema level tag message) ≤ max_frame_size
    → let r = send_buffer sender (build_log_forward_message schema level tag message) v s in
      (r.0 ≡ true)
      × (r.3
          ≡ handler
              (record {
                level = level;
                tag = some (string_or_empty tag);
                message = some (string_or_empty message);
              })
              s)
unfolding send_buffer build_log_forward_message receive handle_frame
send_buffer-log_forward schema m sender receiver handler level tag message v s h wide wired set
      valid statics small =
    let line : LogForward = log_line level tag message in
    let (answered, delivered) =
      send-dispatch schema m (dispatch receiver) sender.transport (log_forward (some line)) v s h
        wide wired valid statics small in
    let handled : dispatch receiver (log_forward (some line)) s ≡ (true, handler line s) =
      unfold dispatch in ap (λ c. (true, notify c (some line) s)) set in
    (answered ∙ ap (λ r. r.0) handled, delivered ∙ ap (λ r. r.1) handled)
