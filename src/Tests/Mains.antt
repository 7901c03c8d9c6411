-- ===== src/Tests/Mains.antt =====
-- cmd/restreamer: a configuration with a stream, an interface to it, and a bad notification.
use restreamer.Prelude.{
  List, some, true, All, lookup, assign, ◌≡◌, refl, false, [], ◌∷◌, none, Text, codes,
}
use restreamer.Prelude.Channel.{ok, OnOk, panic}
use restreamer.Configuration.{Authentication, Resource, Notification, Configuration}
use restreamer.Event.Queue.{limit_hit, hit, notify, handlers_of}
use restreamer.Main.{Setup, serve_resources}
use restreamer.Main.Notifications.{set_up_queue, call_handlers}
use restreamer.Main.Notifying.{unparsed_notification_panics}
use restreamer.Configuration.{
  load_configuration_file, load_configuration, normalize, fix_resource, fix_notification,
  merge_remote, merge_user,
}
use restreamer.Metrics.Statistics.{Statistics}
use restreamer.Metrics.Statistics.Counting.{sends}
use restreamer.Metrics.Updater.{Updater, Action, absent, starts, begins, counts, ticks}
use restreamer.Metrics.Updater.Early.{Early, registers, precounts, prepare}
use restreamer.Metrics.Updater.Kept.{follow, blank, HasKept}
use restreamer.Metrics.Updater.Ledger.{Ledger}
use restreamer.Main.{
  configure_resources, configure_resource, configure_stream, configure_api, add_stream,
  handle_pattern,
}
use restreamer.Main.Notifications.{configure_notifications, configure_notification}
use restreamer.Main.Program.{
  Machine, Running, listening, program, set_up, config_name, make_statistics,
}
use restreamer.Main.Program.Names.{stream_names}
use restreamer.Main.Program.Wiring.{program_publishes}
use restreamer.Streaming.Client.{new_client, parse_all}
use restreamer.Event.UrlHandler.{new_url_handler}
use restreamer.Util.Shuffle.{shuffle}
use restreamer.Tests.Clients.{parse}

abbrev setup : Setup
setup = record {
  parse = parse;
  interface_by_name = λ t. none;
  read_file = λ t. [];
  intn = λ s n. (s, 0);
  seed = λ t. 1;
}

abbrev no_authentication : Authentication
no_authentication = record { type = []; realm = []; user = []; users = [] }

abbrev resource : Text → Text → Text → Text → Resource
resource type api serve remote = record {
  type = type;
  api = api;
  serve = serve;
  remote = remote;
  remotes = codes "tcp://up:1" ∷ [];
  client_interface = [];
  cache = 0;
  authentication = no_authentication;
  mru = 1500;
  preamble = [];
}

abbrev bad_notification : Notification
bad_notification = record {
  event = codes "limit_hit";
  type = codes "url";
  url = codes ":";
  authentication = no_authentication;
}

abbrev configuration : Configuration
configuration = record {
  listen = codes ":80";
  timeout = 0;
  reconnect = 10;
  read_timeout = 0;
  input_buffer = 1000;
  output_buffer = 400;
  max_connections = 10;
  full_connections = 5;
  no_stats = false;
  heartbeat_interval = 60;
  log = [];
  profile = false;
  user_list = [];
  resources =
      resource (codes "stream") [] (codes "/s") []
      ∷ resource (codes "api") (codes "check") (codes "/c") (codes "/s")
      ∷ [];
  notifications = bad_notification ∷ [];
}

unparsed_notification_panics_example :
    OnOk
      (λ n. call_handlers n.handlers (notify (handlers_of limit_hit n.queue) (hit 4 5 5)) ≡ panic)
      (set_up_queue setup configuration)
unparsed_notification_panics_example =
    unparsed_notification_panics setup configuration [] [] bad_notification limit_hit (hit 4 5 5)
      refl refl refl refl

-- The configuration is what the decoder gives for every file.
abbrev machine : Machine
machine = record {
  setup = setup;
  decode = λ c t. some configuration;
  open_file = λ name. some [];
  opens_log = λ name. true;
}

started : (r : Running) × (program machine [] ≡ ok (listening r))
unfolding program set_up config_name load_configuration_file load_configuration normalize
    fix_resource fix_notification merge_remote merge_user set_up_queue configure_notifications
    configure_notification serve_resources configure_resources configure_resource configure_stream
    configure_api add_stream handle_pattern new_client parse_all shuffle lookup new_url_handler
    assign make_statistics
started = (_, refl)

abbrev early : List Early
early = registers (codes "/s") ∷ precounts (codes "/s") sends ∷ []

abbrev history : List Action
history = starts ∷ begins ∷ counts (codes "/s") sends ∷ ticks (λ n. n) ∷ []

program_publishes_example :
    (s : Statistics) × (u : Updater) × (ls : Text → Ledger) × (started.0.statistics ≡ some s)
    × (follow history (absent, prepare early s) blank ≡ ok (u, ls))
    × All (HasKept ls u.1) (stream_names started.0.configuration.resources)
unfolding started
program_publishes_example = program_publishes machine [] started.0 early history started.1 refl refl
