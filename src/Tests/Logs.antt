-- ===== src/Tests/Logs.antt =====
-- util/log.go: a logger with one line, and key-value pairs.
use restreamer.Prelude.{assign, lookup, ◌≡◌, refl, true, List, [], ◌∷◌, codes}
use restreamer.Prelude.Channel.{new_channel}
use restreamer.Util.Log.Keys.{Dict, string, any, log_funnel}
use restreamer.Util.Log.{
  FileLogger, open_file, Event, logs_lines, is_closed, takes_signal, takes_line, panicked, run,
}
use restreamer.Util.Log.Loggers
use restreamer.Util.Log.Loggers.{
  file, initial_globals, set_global_standard_logger, log_backend, package_logger,
}
use restreamer.Util.Log.Loggers.Routing.{Logged, package-Logged}
use restreamer.Util.Log.Conservation.{OnRan, Conserves, offered_all, run-Conserves}
use restreamer.Util.Log.Closing.{double_close_panics}

-- A number as a key, and a key without a value, are passed over.
funnel_run :
    log_funnel (string (codes "a") ∷ any 1 ∷ any 2 ∷ any 3 ∷ string (codes "b") ∷ [])
    ≡ (codes "a", any 1) ∷ []
unfolding log_funnel assign
funnel_run = refl

abbrev logger : FileLogger
logger = record {
  signals = new_channel 100;
  log = open_file;
  messages = new_channel 1;
  lines = 0;
  drops = 0;
  errors = 0;
  running = true;
  written = [];
  printed = [];
}

abbrev history : List Event
history =
    logs_lines (((codes "a", any 1) ∷ [], 0) ∷ ([], 0) ∷ [])
    ∷ takes_line true true
    ∷ is_closed
    ∷ takes_signal true true
    ∷ takes_signal true true
    ∷ []

run-Conserves_example : OnRan (Conserves (offered_all history) logger) (run history logger)
run-Conserves_example = run-Conserves history logger

double_close_panics_example :
    run (is_closed ∷ is_closed ∷ takes_signal true true ∷ takes_signal true true ∷ []) logger
    ≡ panicked
double_close_panics_example =
    double_close_panics logger true true true true [] (refl, refl, refl, refl)

abbrev two_lines : List Dict
two_lines = ((codes "event", any 1) ∷ []) ∷ ((codes "time", any 2) ∷ []) ∷ []

package-Logged_example : Logged (file 3) (codes "noon") (codes "streaming") two_lines (
    Loggers.logd
      (set_global_standard_logger (log_backend (file 3)) initial_globals).0
      (codes "noon")
      (package_logger (codes "streaming") [])
      two_lines)
unfolding lookup
package-Logged_example =
    package-Logged initial_globals (file 3) (codes "noon") (codes "streaming") [] two_lines tt refl
      ((refl, tt), ((refl, tt), tt))
