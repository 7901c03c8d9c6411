-- ===== src/Streaming/Acl.antt =====
-- streaming/acl.go: the connection broker that limits the number of concurrent connections.
-- Each operation is what the source does between Lock and Unlock; a history is the order in which
-- the goroutines took the lock. Logging is left out.
pub mod Limit
pub mod Accounting
use restreamer.Prelude.{
  ℕ, ◌+◌, ◌-◌, ◌%◌, ◌^◌, Bool, true, false, not, ◌&&◌, ◌||◌, List, [], ◌∷◌, ltb, ◌==◌,
  if◌then◌else◌,
}

pub record AccessController : Type 0 where
  pub maxconnections : ℕ
  pub connections : ℕ
  pub inhibit : Bool

-- uint on a 64-bit platform.
abbrev pub uint : ℕ → ℕ
uint n = n % 2 ^ 64

unfoldable pub new_access_controller : ℕ → AccessController
new_access_controller maxconnections = record {
  maxconnections = maxconnections;
  connections = 0;
  inhibit = false;
}

unfoldable pub set_inhibit : Bool → AccessController → AccessController
set_inhibit inhibit control = record control { inhibit = inhibit }

unfoldable pub accept : AccessController → AccessController × Bool
accept control =
    if not control.inhibit
      && (control.maxconnections == 0 || ltb control.connections control.maxconnections)
    then (record control { connections = uint (control.connections + 1) }, true)
    else (control, false)

-- The result tells if there was a connection to remove.
unfoldable pub release : AccessController → AccessController × Bool
release control =
    if ltb 0 control.connections
    then (record control { connections = control.connections - 1 }, true)
    else (control, false)

-- What the goroutines may call.
pub data Call : Type 0 where
  accepts releases : Call
  inhibits : Bool → Call

unfoldable pub step : AccessController → Call → AccessController × Bool
unfolding accept release set_inhibit
step control accepts = accept control
step control releases = release control
step control (inhibits b) = (set_inhibit b control, true)

unfoldable pub run : AccessController → List Call → AccessController
run control [] = control
run control (c ∷ cs) = run (step control c).0 cs
