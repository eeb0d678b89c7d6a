-- ===== src/Endpoint/Log/Examples.antt =====
-- A log line through a small encoding that stands for the generated code.
use midi2pwmv2_libcomm.Common.{
  ℕ, ◌^◌, ◌≡◌, refl, arith, ◌==◌, true, if◌then◌else◌, none, some, List, [], ◌∷◌, ◌++◌, length,
  get_or, take, drop, points,
}
use midi2pwmv2_libcomm.Transport.{initial_statics}
use midi2pwmv2_libcomm.Transport.Transmit.{initial_statics-IsStatics}
use midi2pwmv2_libcomm.Endpoint.{Schema, Carries}
use midi2pwmv2_libcomm.Endpoint.Roundtrip.{wire}
use midi2pwmv2_libcomm.Endpoint.Log.{
  LogLevel, error_level, warning_level, info_level, debug_level, LogForward, LogMessage,
  log_forward, unknown, LogEndpoint, receive, send_buffer, string_or_empty,
  build_log_forward_message,
}
use midi2pwmv2_libcomm.Endpoint.Log.Forward.{log_line, send_buffer-log_forward}

abbrev level_code : LogLevel → ℕ
level_code error_level = 0
level_code warning_level = 1
level_code info_level = 2
level_code debug_level = 3

abbrev encode : LogMessage → List ℕ
encode (log_forward (some line)) =
    1
    ∷ level_code line.level
    ∷ length (string_or_empty line.tag)
    ∷ (string_or_empty line.tag ++ string_or_empty line.message)
encode (log_forward none) = 0 ∷ []
encode (unknown n) = 0 ∷ []

abbrev decode : List ℕ → LogMessage
decode bytes =
    if get_or bytes 0 0 == 1
    then log_forward (
        some (record {
          level =
              if get_or bytes 1 0 == 0
              then error_level
              else if get_or bytes 1 0 == 1
              then warning_level
              else if get_or bytes 1 0 == 2
              then info_level
              else debug_level;
          tag = some (take (get_or bytes 2 0) (drop 3 bytes));
          message = some (drop (get_or bytes 2 0) (drop 3 bytes));
        }))
    else unknown 0

abbrev line_schema : Schema LogMessage
line_schema = record {
  serialize = encode;
  buffer_has_identifier = λ bytes. true;
  verify_buffer = λ bytes. true;
  get_envelope = λ bytes. some (decode bytes);
}

line-Carries :
    Carries line_schema (log_forward (some (log_line warning_level (some (65 ∷ [])) none)))
line-Carries = record {
  identified = refl;
  verified = refl;
  read_back = refl;
  written = omega arith;
  bytes = omega arith;
}

abbrev keep_line : LogForward → List LogForward → List LogForward
keep_line line lines = line ∷ lines

abbrev listener : LogEndpoint (List LogForward)
listener = record {
  transport = record { write = none; next_sequence = 1 };
  log_forward_handler = some keep_line;
}

abbrev speaker : LogEndpoint (List LogForward)
speaker = record {
  transport = record {
    write = some (wire (λ bytes u. receive (2 ^ 64) listener line_schema (points bytes) u));
    next_sequence = 1;
  };
  log_forward_handler = none;
}

send_buffer-log_forward_example :
    let r =
      send_buffer speaker
        (build_log_forward_message line_schema warning_level (some (65 ∷ [])) none)
        initial_statics
        [] in
    (r.0 ≡ true) × (r.3 ≡ log_line warning_level (some (65 ∷ [])) none ∷ [])
unfolding build_log_forward_message
send_buffer-log_forward_example =
    send_buffer-log_forward line_schema (2 ^ 64) speaker listener keep_line warning_level
      (some (65 ∷ [])) none initial_statics [] line-Carries (omega arith) refl refl
      (record { positive = omega arith; bounded = omega arith }) initial_statics-IsStatics
      (omega arith)
