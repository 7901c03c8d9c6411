-- ===== src/Util/Log/Keys.antt =====
-- util/log.go: key-value pairs as dictionaries, and the loggers that pass lines on.
use restreamer.Prelude.{
  ℕ, Bool, false, List, [], ◌∷◌, Text, codes, text_eq, Map, assign, if◌then◌else◌,
}

-- A value of type interface{}: a string, or any other by its number.
pub data Any : Type 0 where
  string : Text → Any
  any : ℕ → Any

abbrev pub Dict : Type 0
Dict = Map Text Any

abbrev put : Any → Any → Dict → Dict
put (string k) v d = assign k v d
put (any n) v d = d

-- LogFunnel: a key that is not a string is passed over with its value, and so is the last value
-- without a partner.
unfoldable pub funnel : List Any → Dict → Dict
funnel [] d = d
funnel (k ∷ []) d = d
funnel (k ∷ v ∷ rest) d = funnel rest (put k v d)

unfoldable pub log_funnel : List Any → Dict
unfolding funnel
log_funnel key_values = funnel key_values []

-- Assigning all pairs of a dictionary.
unfoldable pub merge : Dict → Dict → Dict
merge [] d = d
merge ((k, v) ∷ rest) d = merge rest (assign k v d)

pub record ModuleLogger : Type 0 where
  pub defaults : Dict
  pub add_timestamp : Bool

-- What ModuleLogger makes of a line at a time: the defaults, the time, and the line itself.
unfoldable pub process_line : ModuleLogger → Text → Dict → Dict
unfolding merge
process_line logger now line =
    let defaults = merge logger.defaults [] in
    merge line
      (if logger.add_timestamp then assign (codes "time") (string now) defaults else defaults)

unfoldable pub module_logd : ModuleLogger → Text → List Dict → List Dict
unfolding process_line
module_logd logger now [] = []
module_logd logger now (line ∷ lines) = process_line logger now line ∷ module_logd logger now lines

-- NewGlobalModuleLogger: the name of the module replaces that of the given dictionary.
unfoldable pub new_global_module_logger : Text → Dict → ModuleLogger
unfolding merge
new_global_module_logger name dict = record {
  defaults = assign (codes "module") (string name) (merge dict []);
  add_timestamp = false;
}
