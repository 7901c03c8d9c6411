-- ===== src/Util/Log/Loggers.antt =====
-- util/log.go: the loggers that pass lines on, and the global standard logger, which all module
-- loggers of the packages share.
pub mod Precedence
pub mod Routing
use restreamer.Prelude.{
  ℕ, Bool, true, false, List, [], ◌∷◌, ◌++◌, Option, none, some, Text, if◌then◌else◌,
}
use restreamer.Util.Log.Keys.{
  Dict, Any, ModuleLogger, log_funnel, module_logd, new_global_module_logger,
}

-- Where a line ends up: on the console, or with a file logger, by its number.
pub data Sink : Type 0 where
  console : Sink
  file : ℕ → Sink

-- The implementations of Logger. `standard` is the slice globalStandardLogger, of which there is one.
mutual
  pub data Logger : Type 0 where
    dummy standard : Logger
    sink : Sink → Logger
    multi : Loggers → Logger
    module_logger : ModuleLogger → Logger → Logger

  pub data Loggers : Type 0 where
    nil : Loggers
    cons : Logger → Loggers → Loggers

-- Logd of one sink.
abbrev pub deliver : Sink → List Dict → List (Sink × Dict)
deliver s [] = []
deliver s (line ∷ lines) = (s, line) ∷ deliver s lines

-- Logd at a time, for what the standard logger does with lines. The lines that reach a sink, in
-- order.
unfoldable mutual
  pub logd_with : (List Dict → List (Sink × Dict)) → Text → Logger → List Dict → List (Sink × Dict)
  logd_with std now dummy lines = []
  logd_with std now standard lines = std lines
  logd_with std now (sink s) lines = deliver s lines
  logd_with std now (multi backers) lines = logd_each std now backers lines
  logd_with std now (module_logger m logger) lines =
      logd_with std now logger (module_logd m now lines)

  pub logd_each : (List Dict → List (Sink × Dict)) → Text → Loggers → List Dict → List (Sink × Dict)
  logd_each std now nil lines = []
  logd_each std now (cons backer backers) lines =
      logd_with std now backer lines ++ logd_each std now backers lines

-- Logkv of any of them.
unfoldable pub logkv_with :
    (List Dict → List (Sink × Dict)) → Text → Logger → List Any → List (Sink × Dict)
logkv_with std now logger key_values = logd_with std now logger (log_funnel key_values ∷ [])

-- The one element of globalStandardLogger. It is no logger that leads back to the slice.
pub record Globals : Type 0 where
  pub backing : Logger

abbrev pub initial_globals : Globals
initial_globals = record { backing = sink console }

-- SetGlobalStandardLogger: the old logger is returned.
unfoldable pub set_global_standard_logger : Logger → Globals → Globals × Logger
set_global_standard_logger logger g = (record { backing = logger }, g.backing)

unfoldable pub logd : Globals → Text → Logger → List Dict → List (Sink × Dict)
logd g now = logd_with (logd_with (λ lines. []) now g.backing) now

-- The backend that main makes global, before it reads the configuration; the log file replaces the
-- console in it.
abbrev pub log_backend : Sink → Logger
log_backend s = module_logger (record { defaults = []; add_timestamp = true }) (sink s)

-- A package's logger, from NewGlobalModuleLogger: it refers to the slice.
abbrev pub package_logger : Text → Dict → Logger
package_logger name dict = module_logger (new_global_module_logger name dict) standard
