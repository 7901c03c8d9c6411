-- ===== src/Util/Log/Loggers/Routing.antt =====
-- Where the lines of the packages go, and what they say then.
use restreamer.Prelude.{
  ◌≡◌, refl, ap, ◌∙◌, true, List, [], ◌∷◌, Option, none, some, Text, codes, text_eq, text_beq,
  lookup, lookup-assign, lookup-assign_self, if◌then◌else◌, All,
}
use restreamer.Util.Log.Keys.{
  Dict, Any, string, merge, new_global_module_logger, process_line, module_logd,
}
use restreamer.Util.Log.Loggers.{
  Sink, deliver, Globals, set_global_standard_logger, logd, logd_with, log_backend, package_logger,
}
use restreamer.Util.Log.Loggers.Precedence.{
  IsKeyed, or_else, lookup-merge, lookup-process_line, process_line-IsKeyed, IsKeyed-assign,
  IsKeyed-merge,
}

-- A line that a package has logged, as it reaches a sink: it is stamped with the time and with the
-- name of the package, and has what the line says, which goes first.
pub record Stamps (now name : Text) (line stamped : Dict) : Type 0 where
  pub kept : (k : Text) (v : Any) → lookup k line ≡ some v → lookup k stamped ≡ some v
  pub time : lookup (codes "time") line ≡ none → lookup (codes "time") stamped ≡ some (string now)
  pub module_name :
      lookup (codes "module") line ≡ none → lookup (codes "module") stamped ≡ some (string name)

-- The lines that reach a sink, each for the line at its place.
pub data Logged (s : Sink) (now name : Text) : List Dict → List (Sink × Dict) → Type 0 where
  done : Logged s now name [] []
  next :
      {line stamped : Dict} {lines : List Dict} {out : List (Sink × Dict)}
      → Stamps now name line stamped
      → Logged s now name lines out
      → Logged s now name (line ∷ lines) ((s, stamped) ∷ out)

module _ (now name : Text) (dict : Dict) where
  abbrev first : Dict → Dict
  first = process_line (new_global_module_logger name dict) now

  abbrev stamp : Dict → Dict
  stamp line = process_line (record { defaults = []; add_timestamp = true }) now (first line)

  -- The logger of the package, and then the backend of main.
  lookup-first :
      (k : Text) (line : Dict)
      → IsKeyed line
      → lookup k (first line)
        ≡ or_else (lookup k line) (lookup k (new_global_module_logger name dict).defaults)
  unfolding new_global_module_logger
  lookup-first k line h =
      lookup-process_line (new_global_module_logger name dict) now line k h
        (IsKeyed-assign _ _ _ (IsKeyed-merge dict [] tt))

  lookup-stamp :
      (k : Text) (line : Dict)
      → IsKeyed line
      → lookup k (stamp line)
        ≡ or_else
            (or_else (lookup k line) (lookup k (new_global_module_logger name dict).defaults))
            (if text_beq (codes "time") k then some (string now) else none)
  unfolding lookup
  lookup-stamp k line h =
      lookup-process_line _ now (first line) k (process_line-IsKeyed _ now line) tt
      ∙ ap
          (λ (o : Option Any).
            or_else o (if text_beq (codes "time") k then some (string now) else none))
          (lookup-first k line h)

  default_name :
      lookup (codes "module") (new_global_module_logger name dict).defaults ≡ some (string name)
  unfolding new_global_module_logger
  default_name = lookup-assign_self (codes "module") (string name) (merge dict [])

  no_default_time :
      IsKeyed dict
      → lookup (codes "time") dict ≡ none
      → lookup (codes "time") (new_global_module_logger name dict).defaults ≡ none
  unfolding new_global_module_logger
  no_default_time h none_given =
      lookup-assign (codes "module") (codes "time") (string name) (merge dict [])
      ∙ lookup-merge (codes "time") dict [] h
      ∙ rw none_given (unfold lookup in refl)

  module _ (keyed : IsKeyed dict) (untimed : lookup (codes "time") dict ≡ none) where
    stamp-Stamps : (line : Dict) → IsKeyed line → Stamps now name line (stamp line)
    stamp-Stamps line h = record {
      kept = λ k v e. lookup-stamp k line h ∙ rw e refl;
      time = λ e. lookup-stamp (codes "time") line h ∙ rw (e, no_default_time keyed untimed) refl;
      module_name = λ e. lookup-stamp (codes "module") line h ∙ rw (e, default_name) refl;
    }

    lines-Logged :
        (s : Sink) (lines : List Dict)
        → All IsKeyed lines
        → Logged s now name lines (
            deliver s (
              module_logd
                (record { defaults = []; add_timestamp = true })
                now
                (module_logd (new_global_module_logger name dict) now lines)))
    unfolding module_logd
    lines-Logged s [] h = done
    lines-Logged s (line ∷ lines) h = next (stamp-Stamps line h.0) (lines-Logged s lines h.1)

-- A package's logger, made at any time with a dictionary without a time, and any backend of main that
-- is global when the package logs: whatever was global before, each of its lines reaches the sink of
-- this backend once, in their order, and nothing else does. A line keeps what it says, and has the
-- time and the name of the package, unless it gives its own.
pub package-Logged :
    (g : Globals) (s : Sink) (now name : Text) (dict : Dict) (lines : List Dict)
    → IsKeyed dict
    → lookup (codes "time") dict ≡ none
    → All IsKeyed lines
    → Logged s now name lines
        (logd (set_global_standard_logger (log_backend s) g).0 now (package_logger name dict) lines)
unfolding logd logd_with set_global_standard_logger
package-Logged g s now name dict lines keyed untimed h =
    lines-Logged now name dict keyed untimed s lines h
