-- ===== src/Main.antt =====
-- cmd/restreamer/restreamer.go: how main sets up the resources of a configuration.
pub mod Served
pub mod Routing
pub mod Notifications
pub mod Registering
pub mod Notifying
pub mod Program
use restreamer.Prelude.{
  ℕ, zero, suc, get_elem?, ◌&&◌, ◌+◌, ◌*◌, Bool, true, false, ◌||◌, List, [], ◌∷◌, ◌++◌, Option,
  none, some, Text, text_eq, nat_eq, codes, text_beq, is_set, Map, lookup, assign, length, ◌==◌,
  if◌then◌else◌,
}
use restreamer.Prelude.Channel.{Outcome, ok, panic, ◌>>=◌}
use restreamer.Configuration.{
  Configuration, Resource, Notification, Authentication, UserCredentials,
}
use restreamer.Auth.{Authenticator, new_authenticator, new_user_authenticator}
use restreamer.Event.Queue.{
  Queue, EventType, limit_hit, limit_miss, heartbeat, Event, new_queue, register_event_handler,
  start,
}
use restreamer.Event.UrlHandler.{UrlHandler, GetRequest, new_url_handler, handle_event}
use restreamer.Streaming.Client.Sources.{Url}
use restreamer.Streaming.Client.{Client, new_client}
use restreamer.Streaming.Proxy.{Proxy, new_proxy}
use restreamer.Util.Shuffle.{shuffle}

-- The parser of URLs, the network interfaces, what is read of a file, and the random source with its
-- state when a list is shuffled for a stream.
pub record Setup : Type 0 where
  pub parse : Text → Option Url
  pub interface_by_name : Text → Option Text
  pub read_file : Text → Text
  pub intn : ℕ → ℕ → ℕ × ℕ
  pub seed : Text → ℕ

-- A streamer and its client, by the arguments and settings that they are made with.
pub record Stream : Type 1 where
  pub name : Text
  pub queue_size : ℕ
  pub auth : Authenticator
  pub preamble : Text
  pub client : Client

-- What serves a pattern; a client is a pointer, that is the index of its stream.
pub data Endpoint : Type 0 where
  stream : ℕ → Endpoint
  static : Proxy → Endpoint
  health statistics prometheus : Authenticator → Endpoint
  check control : ℕ → Authenticator → Endpoint

-- The local variables of main: the map of clients, the multiplexer, the streams made so far, the
-- names registered for statistics, and the number `i` of connections.
pub record Routes : Type 1 where
  pub clients : Map Text ℕ
  pub mux : Map Text Endpoint
  pub streams : List Stream
  pub registered : List Text
  pub connected : ℕ

abbrev pub no_routes : Routes
no_routes = record { clients = []; mux = []; streams = []; registered = []; connected = 0 }

-- http.ServeMux.Handle panics for an empty pattern and for one that has a handler.
abbrev pub insert_pattern : Text → Endpoint → Routes → Option Endpoint → Outcome Routes
insert_pattern pattern e m (some old) = panic
insert_pattern pattern e m none =
    if is_set pattern then ok (record m { mux = assign pattern e m.mux }) else panic

unfoldable pub handle_pattern : Text → Endpoint → Routes → Outcome Routes
handle_pattern pattern e m = insert_pattern pattern e m (lookup pattern m.mux)

-- The client of a stream was made: it is entered and served. The client is connected, which does not
-- change the maps.
unfoldable pub add_stream : Text → Stream → Routes → Outcome Routes
unfolding handle_pattern
add_stream serve s m = do
  m' ← handle_pattern serve (stream (length m.streams)) (record m {
    clients = assign serve (length m.streams) m.clients;
    streams = m.streams ++ (s ∷ []);
  })
  ok (record m' { connected = m'.connected + 1 })

-- Without a URL that can be parsed there is no client, and the stream is passed over.
abbrev pub add_client :
    Text → Setup → Configuration → Resource → Option Client → Routes → Outcome Routes
add_client serve env config r none m = ok m
add_client serve env config r (some c) m =
    add_stream serve
      (record {
        name = serve;
        queue_size = config.output_buffer;
        auth = new_authenticator r.authentication config.user_list;
        preamble = if is_set r.preamble then env.read_file r.preamble else [];
        client = c;
      })
      m

unfoldable pub configure_stream : Setup → Configuration → Resource → Routes → Outcome Routes
unfolding add_stream
configure_stream env config r m = do
  remotes ← shuffle env.intn (env.seed r.serve) r.remotes
  add_client r.serve env config r
      (new_client env.parse env.interface_by_name r.serve remotes config.reconnect
        config.read_timeout config.input_buffer r.client_interface config.input_buffer r.mru)
      (record m { registered = m.registered ++ (r.serve ∷ []) })

unfoldable pub configure_static : Setup → Configuration → Resource → Routes → Outcome Routes
unfolding handle_pattern
configure_static env config r m = elim (env.parse r.remote) [
  | none ↦ ok m
  | some u ↦
      handle_pattern r.serve
        (static (new_proxy u r.cache (new_authenticator r.authentication config.user_list))) m
]

-- An interface to a stream needs its client.
abbrev pub handle_client : Text → (ℕ → Endpoint) → Option ℕ → Routes → Outcome Routes
handle_client serve e none m = ok m
handle_client serve e (some k) m = handle_pattern serve (e k) m

unfoldable pub configure_api : Configuration → Resource → Routes → Outcome Routes
unfolding handle_pattern
configure_api config r m =
    let auth = new_authenticator r.authentication config.user_list in
    if text_beq r.api (codes "health")
    then handle_pattern r.serve (health auth) m
    else if text_beq r.api (codes "statistics")
    then handle_pattern r.serve (statistics auth) m
    else if text_beq r.api (codes "check")
    then handle_client r.serve (λ k. check k auth) (lookup r.remote m.clients) m
    else if text_beq r.api (codes "control")
    then handle_client r.serve (λ k. control k auth) (lookup r.remote m.clients) m
    else if text_beq r.api (codes "prometheus")
    then handle_pattern r.serve (prometheus auth) m
    else ok m

-- The body of the loop over the resources.
unfoldable pub configure_resource : Setup → Configuration → Resource → Routes → Outcome Routes
unfolding configure_stream configure_static configure_api
configure_resource env config r m =
    if text_beq r.type (codes "stream")
    then configure_stream env config r m
    else if text_beq r.type (codes "static")
    then configure_static env config r m
    else if text_beq r.type (codes "api")
    then configure_api config r m
    else ok m

unfoldable pub configure_resources : Setup → Configuration → List Resource → Routes → Outcome Routes
configure_resources env config [] m = ok m
configure_resources env config (r ∷ rs) m = do
  m' ← configure_resource env config r m
  configure_resources env config rs m'

-- What main ends with: without a connection it exits, else it serves the routes.
pub data Server : Type 1 where
  no_streams_available : Server
  serves : Routes → Server

unfoldable pub serve_resources : Setup → Configuration → Outcome Server
unfolding configure_resources
serve_resources env config = do
  m ← configure_resources env config config.resources no_routes
  ok (if m.connected == 0 then no_streams_available else serves m)
