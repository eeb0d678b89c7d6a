-- ===== src/Logging.antt =====
-- include/libcomm/logging.h and src/logging.cpp: the global sink and the macros that call it. `W` is the
-- world that a sink acts on, `Args` what a variadic call passes. The level of the build is a number, as the
-- preprocessor compares it; a macro that it leaves out does nothing.
pub mod Deliver
mod Examples
use Prim.Native.String.{String}
use midi2pwmv2_libcomm.Common.{ℕ, leb, if◌then◌else◌, Option, none, some}

pub data LogLevel : Type 0 where
  error warning info debug : LogLevel

abbrev pub LogSink : Type 0 → Type 0 → Type 0
LogSink Args W = LogLevel → String → String → Args → W → W

abbrev pub log_level_error : ℕ
log_level_error = 1

abbrev pub log_level_warn : ℕ
log_level_warn = 2

abbrev pub log_level_info : ℕ
log_level_info = 3

abbrev pub log_level_debug : ℕ
log_level_debug = 4

-- `LIBCOMM_LOG_LEVEL` where the build does not set it.
abbrev pub default_log_level : ℕ
default_log_level = 2

-- The global variable.
pub record Globals (Args W : Type 0) : Type 0 where
  pub global_logger : Option (LogSink Args W)

module _ {Args W : Type 0} where
  unfoldable pub set_global_logger : Option (LogSink Args W) → Globals Args W → Globals Args W
  set_global_logger sink g = record g { global_logger = sink }

  unfoldable pub get_global_logger : Globals Args W → Option (LogSink Args W)
  get_global_logger g = g.global_logger

  unfoldable pub log_helper : LogSink Args W → LogLevel → String → String → Args → W → W
  log_helper sink level tag format args w = sink level tag format args w

  unfoldable pub log_error : ℕ → Globals Args W → String → String → Args → W → W
  unfolding get_global_logger log_helper
  log_error build g tag format args w =
      if leb log_level_error build
      then elim (get_global_logger g) [
        | none ↦ w
        | some logger ↦ log_helper logger error tag format args w
      ]
      else w

  unfoldable pub log_warn : ℕ → Globals Args W → String → String → Args → W → W
  unfolding get_global_logger log_helper
  log_warn build g tag format args w =
      if leb log_level_warn build
      then elim (get_global_logger g) [
        | none ↦ w
        | some logger ↦ log_helper logger warning tag format args w
      ]
      else w

  unfoldable pub log_info : ℕ → Globals Args W → String → String → Args → W → W
  unfolding get_global_logger log_helper
  log_info build g tag format args w =
      if leb log_level_info build
      then elim (get_global_logger g) [
        | none ↦ w
        | some logger ↦ log_helper logger info tag format args w
      ]
      else w

  unfoldable pub log_debug : ℕ → Globals Args W → String → String → Args → W → W
  unfolding get_global_logger log_helper
  log_debug build g tag format args w =
      if leb log_level_debug build
      then elim (get_global_logger g) [
        | none ↦ w
        | some logger ↦ log_helper logger debug tag format args w
      ]
      else w
