-- ===== src/Logging/Deliver.antt =====
-- Which log calls of a program reach which sink, by the level of the build.
use Prim.Native.String.{String}
use midi2pwmv2_libcomm.Common.{
  ℕ, ◌≡◌, refl, ap, ◌∙◌, arith, Bool-cases, leb, if◌then◌else◌, inl, inr, Option, none, some, List,
  [], ◌∷◌,
}
use midi2pwmv2_libcomm.Logging.{
  LogLevel, error, warning, info, debug, LogSink, Globals, set_global_logger, get_global_logger,
  log_helper, log_error, log_warn, log_info, log_debug,
}

-- What a program does with the log: it sets the sink with a number, or none, or calls a macro.
pub data LogEvent (Args : Type 0) : Type 0 where
  installs : Option ℕ → LogEvent Args
  logs : LogLevel → String → String → Args → LogEvent Args

-- A call that the sink with a number is meant to get.
pub record Heard (Args : Type 0) : Type 0 where
  pub sink : ℕ
  pub level : LogLevel
  pub tag : String
  pub format : String
  pub args : Args

-- The level of the build from which on a call of this level is compiled in.
abbrev threshold : LogLevel → ℕ
threshold error = 1
threshold warning = 2
threshold info = 3
threshold debug = 4

module _ {Args : Type 0} where
  -- The calls that are meant to be heard, in order, when `current` is the sink that is set.
  abbrev pub heard : ℕ → Option ℕ → List (LogEvent Args) → List (Heard Args)
  heard build current [] = []
  heard build current (installs other ∷ events) = heard build other events
  heard build none (logs level tag format args ∷ events) = heard build none events
  heard build (some i) (logs level tag format args ∷ events) =
      let rest = heard build (some i) events in
      if leb (threshold level) build
      then record { sink = i; level = level; tag = tag; format = format; args = args } ∷ rest
      else rest

module _ {Args W : Type 0} (sinks : ℕ → LogSink Args W) where
  -- The sinks called on what they are meant to get.
  abbrev pub deliver : List (Heard Args) → W → W
  deliver [] w = w
  deliver (h ∷ hs) w = deliver hs (sinks h.sink h.level h.tag h.format h.args w)

  -- The macro of a level.
  log_at : LogLevel → ℕ → Globals Args W → String → String → Args → W → W
  log_at error = log_error
  log_at warning = log_warn
  log_at info = log_info
  log_at debug = log_debug

  abbrev sink_of : Option ℕ → Option (LogSink Args W)
  sink_of none = none
  sink_of (some i) = some (sinks i)

  pub run_log : ℕ → List (LogEvent Args) → Globals Args W → W → W
  run_log build [] g w = w
  run_log build (installs other ∷ events) g w =
      run_log build events (set_global_logger (sink_of other) g) w
  run_log build (logs level tag format args ∷ events) g w =
      run_log build events g (log_at level build g tag format args w)

  abbrev pub logging_to : Option ℕ → Globals Args W
  logging_to current = record { global_logger = sink_of current }

  log_at-none :
      (level : LogLevel) (build : ℕ) (tag format : String) (args : Args) (w : W)
      → log_at level build (logging_to none) tag format args w ≡ w
  unfolding log_at log_error log_warn log_info log_debug get_global_logger
  log_at-none error build tag format args w = ground arith
  log_at-none warning build tag format args w = ground arith
  log_at-none info build tag format args w = ground arith
  log_at-none debug build tag format args w = ground arith

  log_at-some :
      (level : LogLevel) (build i : ℕ) (tag format : String) (args : Args) (w : W)
      → log_at level build (logging_to (some i)) tag format args w
        ≡ (if leb (threshold level) build then sinks i level tag format args w else w)
  unfolding log_at log_error log_warn log_info log_debug get_global_logger log_helper
  log_at-some error build i tag format args w = refl
  log_at-some warning build i tag format args w = refl
  log_at-some info build i tag format args w = refl
  log_at-some debug build i tag format args w = refl

  -- Any program that sets sinks, takes them away and calls the four macros, in a build of any level: each
  -- sink is called exactly on the calls that were made while it was set and whose level the build
  -- compiles in (error from 1 on, warning from 2, info from 3, debug from 4), with the level of the
  -- macro, the tag, the format and the arguments of the call, all in the order of the program; nothing
  -- else changes, and without a sink a call does nothing.
  pub run_log-deliver :
      (build : ℕ) (events : List (LogEvent Args)) (current : Option ℕ) (w : W)
      → run_log build events (logging_to current) w ≡ deliver (heard build current events) w
  unfolding run_log set_global_logger
  run_log-deliver build [] current w = refl
  run_log-deliver build (installs other ∷ events) current w = run_log-deliver build events other w
  run_log-deliver build (logs level tag format args ∷ events) none w =
      ap (run_log build events (logging_to none)) (log_at-none level build tag format args w)
      ∙ run_log-deliver build events none w
  run_log-deliver build (logs level tag format args ∷ events) (some i) w =
      ap (run_log build events (logging_to (some i))) (log_at-some level build i tag format args w)
      ∙ run_log-deliver build events (some i) _
      ∙ elim (Bool-cases (leb (threshold level) build)) [
        | inl taken ↦ rw taken refl
        | inr left ↦ rw left refl
      ]
