-- ===== src/Logging/Examples.antt =====
-- A program that logs before it sets a sink, to that sink, to another one and to none.
use Prim.Native.String.{String}
use midi2pwmv2_libcomm.Common.{ℕ, ◌≡◌, none, some, List, [], ◌∷◌}
use midi2pwmv2_libcomm.Logging.{LogLevel, LogSink, error, warning, info, debug, default_log_level}
use midi2pwmv2_libcomm.Logging.Deliver.{
  LogEvent, installs, logs, run_log, logging_to, run_log-deliver,
}

-- Each sink writes its number, the level, the format and the argument.
abbrev Line : Type 0
Line = ℕ × LogLevel × String × ℕ

abbrev writers : ℕ → LogSink ℕ (List Line)
writers i level tag format args lines = (i, level, format, args) ∷ lines

abbrev events : List (LogEvent ℕ)
events =
    logs error "FrameTransport" "Write callback not set" 0
    ∷ installs (some 1)
    ∷ logs info "MidiEndpoint" "Received Ping message" 0
    ∷ logs warning "StreamProcessor" "Buffer overflow: %u bytes available" 12
    ∷ installs (some 2)
    ∷ logs debug "OtaManager" "Chunk %u" 3
    ∷ logs error "OtaManager" "Flash erase failed" 0
    ∷ installs none
    ∷ logs error "OtaManager" "Flash erase failed" 1
    ∷ []

run_log-deliver_example :
    run_log writers default_log_level events (logging_to writers none) []
    ≡ (2, error, "Flash erase failed", 0)
      ∷ (1, warning, "Buffer overflow: %u bytes available", 12)
      ∷ []
run_log-deliver_example = run_log-deliver writers default_log_level events none []
