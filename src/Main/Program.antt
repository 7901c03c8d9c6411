-- ===== src/Main/Program.antt =====
-- cmd/restreamer/restreamer.go: main from its arguments to the server.
pub mod Names
pub mod Wiring
use restreamer.Prelude.{
  ℕ, Bool, true, false, not, List, [], ◌∷◌, ◌++◌, Option, none, some, Text, codes, text_beq, is_set,
  ◌==◌, if◌then◌else◌,
}
use restreamer.Prelude.Channel.{Outcome, ok, panic, ◌>>=◌}
use restreamer.Configuration.{Configuration, Resource, load_configuration_file}
use restreamer.Metrics.Statistics.{Statistics, new_statistics}
use restreamer.Streaming.Acl.{AccessController, new_access_controller}
use restreamer.Util.Log.{FileLogger, new_file_logger}
use restreamer.Main.{
  Setup, Routes, Server, no_streams_available, serves, no_routes, configure_resources,
  serve_resources,
}
use restreamer.Main.Notifications.{Notifications, set_up_queue}

-- What main finds: the parameters of its parts, the files that can be opened, and whether the log
-- file can.
pub record Machine : Type 0 where
  pub setup : Setup
  pub decode : Configuration → Text → Option Configuration
  pub open_file : Text → Option Text
  pub opens_log : Text → Bool

-- The parts when the server starts to listen. `statistics` is as it was made, without the streams in
-- `routes` that were registered in it since; none is DummyStatistics.
pub record Running : Type 1 where
  pub configuration : Configuration
  pub log_file : Option FileLogger
  pub notifications : Notifications
  pub controller : AccessController
  pub statistics : Option Statistics
  pub routes : Routes

-- log.Fatal with one of three reasons, or the server.
pub data Program : Type 1 where
  bad_configuration bad_log no_streams : Program
  listening : Running → Program

unfoldable pub config_name : List Text → Text
config_name [] = codes "restreamer.json"
config_name (name ∷ args) = name

unfoldable pub make_statistics : Configuration → Option Statistics
make_statistics config =
    if config.no_stats
    then none
    else some (new_statistics config.max_connections config.full_connections)

abbrev pub listen_or_exit : Configuration → Option FileLogger → Notifications → Server → Program
listen_or_exit config log_file n no_streams_available = no_streams
listen_or_exit config log_file n (serves m) = listening (record {
  configuration = config;
  log_file = log_file;
  notifications = n;
  controller = new_access_controller config.max_connections;
  statistics = make_statistics config;
  routes = m;
})

-- main behind the log file.
unfoldable pub set_up : Machine → Configuration → Option FileLogger → Outcome Program
set_up m config log_file = do
  n ← set_up_queue m.setup config
  server ← serve_resources m.setup config
  ok (listen_or_exit config log_file n server)

abbrev pub with_log : Machine → Configuration → Option FileLogger → Outcome Program
with_log m config none = ok bad_log
with_log m config (some file) = set_up m config (some file)

abbrev pub with_configuration : Machine → Option Configuration → Outcome Program
with_configuration m none = ok bad_configuration
with_configuration m (some config) =
    if is_set config.log
    then with_log m config (new_file_logger (m.opens_log config.log))
    else set_up m config none

unfoldable pub program : Machine → (args : List Text) → Outcome Program
unfolding set_up
program m args =
    with_configuration m (load_configuration_file m.decode m.open_file (config_name args))
