-- ===== src/Main/Program/Wiring.antt =====
-- What main has set up when it exits or listens, and what its statistics publish.
use mathlib.Core.Path.{subst}
use restreamer.Prelude.{
  ◌<◌, ◌≡◌, refl, sym, ap, ◌∙◌, inl, inr, Bool, Bool-cases, true, false, List, [], ◌∷◌, Option,
  none, some, Text, is_set, nat_eq, ◌==◌, ==_iff, length, All, arith, if◌then◌else◌,
}
use restreamer.Prelude.Channel.{ok, OnOk, OnOk-bind, OnOk-then, OnOk-both, OnOk-self}
use restreamer.Configuration.{Configuration, load_configuration_file}
use restreamer.Metrics.Statistics.{Statistics, new_statistics}
use restreamer.Metrics.Updater.{Updater, Action, absent}
use restreamer.Metrics.Updater.Early.{Early, prepare, registrations}
use restreamer.Metrics.Updater.Kept.{follow, blank, HasKept, follow-IsKept}
use restreamer.Metrics.Updater.Ledger.{Ledger}
use restreamer.Prelude.Word.{uint64}
use restreamer.Streaming.Acl.{AccessController, new_access_controller}
use restreamer.Util.Log.{FileLogger, new_file_logger}
use restreamer.Main.{
  Setup, Stream, Routes, Server, no_streams_available, serves, no_routes, configure_resources,
  serve_resources,
}
use restreamer.Main.Served.{IsRouted}
use restreamer.Main.Routing.{configure_resources-IsRouted}
use restreamer.Main.Notifications.{Notifications, set_up_queue}
use restreamer.Main.Program.{
  Machine, Running, Program, bad_configuration, bad_log, no_streams, listening, config_name,
  make_statistics, listen_or_exit, set_up, with_log, with_configuration, program,
}
use restreamer.Main.Program.Names.{stream_names, Registers, configure_resources-Registers}

-- The end of the loop over the resources.
abbrev Ends : Setup → Configuration → Server → Type 1
Ends env config no_streams_available =
    (m : Routes) × (configure_resources env config config.resources no_routes ≡ ok m)
    × (m.streams ≡ [])
Ends env config (serves m) =
    IsRouted m × (0 < length m.streams) × (m.registered ≡ stream_names config.resources)

length-empty : (streams : List Stream) → length streams ≡ 0 → streams ≡ []
length-empty [] e = refl
length-empty (s ∷ streams) e = cc

abbrev MadeFrom : Setup → Configuration → Routes → Type 1
MadeFrom env config m =
    Registers no_routes (stream_names config.resources) m
    × (configure_resources env config config.resources no_routes ≡ ok m)

serve_resources-Ends :
    (env : Setup) (config : Configuration) → OnOk (Ends env config) (serve_resources env config)
unfolding serve_resources
serve_resources-Ends env config =
    let made = configure_resources env config config.resources no_routes in
    OnOk-bind (λ m. IsRouted m × MadeFrom env config m) (Ends env config) made _
      (OnOk-both IsRouted (MadeFrom env config) made
        (configure_resources-IsRouted env config config.resources no_routes (tt, tt, refl))
        (OnOk-both (Registers no_routes (stream_names config.resources)) (λ m. made ≡ ok m) made
          (configure_resources-Registers env config config.resources no_routes) (OnOk-self made)))
      decide
  where
    decide :
        (m : Routes)
        → IsRouted m × MadeFrom env config m
        → Ends env config (if m.connected == 0 then no_streams_available else serves m)
    decide m (routed, from) = elim (Bool-cases (m.connected == 0)) [
      | inl e ↦ rw e (m, from.1, length-empty m.streams (sym routed.2 ∙ (==_iff m.connected 0).0 e))
      | inr e ↦ rw e (routed, ground (arith, routed.2), from.0)
    ]

abbrev loaded : Machine → List Text → Option Configuration
loaded m args = load_configuration_file m.decode m.open_file (config_name args)

-- What is set up, and why main exits, in terms of main's own steps.
abbrev Wired : Machine → List Text → Program → Type 1
Wired m args bad_configuration = (loaded m args ≡ none) × Unit {1}
Wired m args bad_log =
    (config : Configuration) × (loaded m args ≡ some config)
    × (is_set config.log ≡ true)
    × (m.opens_log config.log ≡ false)
    × Unit {1}
Wired m args no_streams =
    (config : Configuration) × (routes : Routes) × (loaded m args ≡ some config)
    × (configure_resources m.setup config config.resources no_routes ≡ ok routes)
    × (routes.streams ≡ [])
Wired m args (listening r) =
    (loaded m args ≡ some r.configuration)
    × IsRouted r.routes
    × (0 < length r.routes.streams)
    × (r.routes.registered ≡ stream_names r.configuration.resources)
    × (r.statistics ≡ make_statistics r.configuration)
    × (r.controller ≡ new_access_controller r.configuration.max_connections)

-- The statistics have the limits of the configuration and no streams, or are not wanted.
abbrev pub HasStatistics : Configuration → Option Statistics → Type 0
HasStatistics config none = config.no_stats ≡ true
HasStatistics config (some s) =
    (config.no_stats ≡ false)
    × (s.global.max_connections ≡ uint64 config.max_connections)
    × (s.global.full_connections ≡ uint64 config.full_connections)
    × (s.streams ≡ [])
    × (s.internal ≡ [])

-- The controller has the limit of the configuration, and has let in nobody yet.
abbrev pub HasAccess : Configuration → AccessController → Type 0
HasAccess config control =
    (control.maxconnections ≡ config.max_connections)
    × (control.connections ≡ 0)
    × (control.inhibit ≡ false)

-- What is set up, and why main exits.
abbrev pub IsWired : Machine → List Text → Program → Type 1
IsWired m args bad_configuration = (loaded m args ≡ none) × Unit {1}
IsWired m args bad_log =
    (config : Configuration) × (loaded m args ≡ some config)
    × (is_set config.log ≡ true)
    × (m.opens_log config.log ≡ false)
    × Unit {1}
IsWired m args no_streams =
    (config : Configuration) × (routes : Routes) × (loaded m args ≡ some config)
    × (configure_resources m.setup config config.resources no_routes ≡ ok routes)
    × (routes.streams ≡ [])
IsWired m args (listening r) =
    (loaded m args ≡ some r.configuration)
    × IsRouted r.routes
    × (0 < length r.routes.streams)
    × (r.routes.registered ≡ stream_names r.configuration.resources)
    × HasStatistics r.configuration r.statistics
    × HasAccess r.configuration r.controller

module _ (m : Machine) (args : List Text) (config : Configuration)
    (read : loaded m args ≡ some config) where
  listen_or_exit-Wired :
      (file : Option FileLogger) (n : Notifications) (server : Server)
      → Ends m.setup config server
      → Wired m args (listen_or_exit config file n server)
  listen_or_exit-Wired file n no_streams_available (routes, made, empty) =
      (config, routes, read, made, empty)
  listen_or_exit-Wired file n (serves routes) (routed, some_stream, names) =
      (read, routed, some_stream, names, refl, refl)

  set_up-Wired : (file : Option FileLogger) → OnOk (Wired m args) (set_up m config file)
  unfolding set_up
  set_up-Wired file = OnOk-then (Wired m args) (set_up_queue m.setup config) _ (λ n.
      OnOk-bind (Ends m.setup config) (Wired m args) (serve_resources m.setup config) _
        (serve_resources-Ends m.setup config)
        (λ server ends. listen_or_exit-Wired file n server ends))

  with_log-Wired :
      (opens : Bool)
      → is_set config.log ≡ true
      → m.opens_log config.log ≡ opens
      → OnOk (Wired m args) (with_log m config (new_file_logger opens))
  unfolding new_file_logger
  with_log-Wired true wanted e = set_up-Wired _
  with_log-Wired false wanted e = (config, read, wanted, e, tt)

with_configuration-Wired :
    (m : Machine) (args : List Text) (o : Option Configuration)
    → loaded m args ≡ o
    → OnOk (Wired m args) (with_configuration m o)
with_configuration-Wired m args none read = (read, tt)
with_configuration-Wired m args (some config) read = elim (Bool-cases (is_set config.log)) [
  | inl e ↦ rw e (with_log-Wired m args config read (m.opens_log config.log) e refl)
  | inr e ↦ rw e (set_up-Wired m args config read none)
]

program-Wired : (m : Machine) (args : List Text) → OnOk (Wired m args) (program m args)
unfolding program
program-Wired m args = with_configuration-Wired m args (loaded m args) refl

-- Main listens with statistics; while it set up its parts, it registered streams for them one by one,
-- and those that were registered may have counted in between. Then in any history of counts, Start,
-- Stop and steps of the updater no step panics, and the statistics of every stream of the
-- configuration can be fetched and are those of its ledger.
pub program_publishes :
    (m : Machine) (args : List Text) (r : Running) (early : List Early) (actions : List Action)
    → program m args ≡ ok (listening r)
    → r.configuration.no_stats ≡ false
    → registrations early ≡ r.routes.registered
    → (s : Statistics) × (u : Updater) × (ls : Text → Ledger) × (r.statistics ≡ some s)
      × (follow actions (absent, prepare early s) blank ≡ ok (u, ls))
      × All (HasKept ls u.1) (stream_names r.configuration.resources)
unfolding make_statistics
program_publishes m args r early actions e with_stats same =
    let wired : OnOk (Wired m args) (ok (listening r)) =
      subst (OnOk (Wired m args)) e (program-Wired m args) in
    let c = r.configuration in
    let (u, ls, e', kept, has) = follow-IsKept early c.max_connections c.full_connections actions in
    (
      new_statistics c.max_connections c.full_connections,
      u,
      ls,
      wired.4
          ∙ ap
              (λ (b : Bool).
                if b then none else some (new_statistics c.max_connections c.full_connections))
              with_stats,
      e',
      subst (All (HasKept ls u.1)) (same ∙ wired.3) has,
    )
