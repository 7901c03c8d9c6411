-- ===== src/Api.antt =====
-- api/api.go: the HTTP interfaces. A handler gets the header of the request and the response writer;
-- writes succeed, since a failed one is only logged.
pub mod Access
pub mod Status
use restreamer.Prelude.{
  ℕ, ◌/◌, Bool, true, false, not, ◌&&◌, ◌==◌, List, [], ◌∷◌, Option, none, some, Text, codes,
  text_beq, if◌then◌else◌,
}
use restreamer.Prelude.Word.{mul64, ge_int64}
use restreamer.Prelude.Http.{Header, Response, add_header, write_header, write}
use restreamer.Auth.{Authenticator, handle_http_authentication}
use restreamer.Metrics.Statistics.{StreamStatistics}

-- What the health interface reports.
pub record HealthReport : Type 0 where
  pub status : Text
  pub viewer : ℕ
  pub limit : ℕ
  pub max : ℕ
  pub bandwidth : ℕ

-- What the statistics interface reports: a status and the global numbers.
pub record StatisticsReport : Type 0 where
  pub status : Text
  pub connections : ℕ
  pub max_connections : ℕ
  pub full_connections : ℕ
  pub total_packets_received : ℕ
  pub total_packets_sent : ℕ
  pub total_packets_dropped : ℕ
  pub total_bytes_received : ℕ
  pub total_bytes_sent : ℕ
  pub total_bytes_dropped : ℕ
  pub total_stream_time : ℕ
  pub packets_per_second_received : ℕ
  pub packets_per_second_sent : ℕ
  pub packets_per_second_dropped : ℕ
  pub bytes_per_second_received : ℕ
  pub bytes_per_second_sent : ℕ
  pub bytes_per_second_dropped : ℕ

-- A limit that is enabled is reached.
abbrev pub is_reached : (limit connections : ℕ) → Bool
is_reached limit connections = not (limit == 0) && ge_int64 connections limit

unfoldable pub health_status : StreamStatistics → Text
health_status global =
    if is_reached global.max_connections global.connections
    then codes "full"
    else if is_reached global.full_connections global.connections
    then codes "full"
    else codes "ok"

unfoldable pub statistics_status : StreamStatistics → Text
statistics_status global =
    if is_reached global.max_connections global.connections
    then codes "overload"
    else if is_reached global.full_connections global.connections
    then codes "full"
    else codes "ok"

unfoldable pub health_report : StreamStatistics → HealthReport
unfolding health_status
health_report global = record {
  status = health_status global;
  viewer = global.connections;
  limit = global.full_connections;
  max = global.max_connections;
  bandwidth = mul64 global.bytes_per_second_sent 8 / 1024;
}

unfoldable pub statistics_report : StreamStatistics → StatisticsReport
unfolding statistics_status
statistics_report global = record {
  status = statistics_status global;
  connections = global.connections;
  max_connections = global.max_connections;
  full_connections = global.full_connections;
  total_packets_received = global.total_packets_received;
  total_packets_sent = global.total_packets_sent;
  total_packets_dropped = global.total_packets_dropped;
  total_bytes_received = global.total_bytes_received;
  total_bytes_sent = global.total_bytes_sent;
  total_bytes_dropped = global.total_bytes_dropped;
  total_stream_time = global.total_stream_time;
  packets_per_second_received = global.packets_per_second_received;
  packets_per_second_sent = global.packets_per_second_sent;
  packets_per_second_dropped = global.packets_per_second_dropped;
  bytes_per_second_received = global.bytes_per_second_received;
  bytes_per_second_sent = global.bytes_per_second_sent;
  bytes_per_second_dropped = global.bytes_per_second_dropped;
}

-- The answer with the encoded report; json.Marshal may fail.
abbrev pub respond : Option Text → Response → Response
respond (some response) w = write response (write_header 200 w)
respond none w = write (codes "Internal Server Error") (write_header 500 w)

unfoldable pub serve_health :
    (marshal : HealthReport → Option Text)
    → Authenticator
    → StreamStatistics
    → Header
    → Response
    → Response
unfolding health_report
serve_health marshal auth global request writer =
    let (w, may_pass) =
      handle_http_authentication auth request
        (add_header (codes "Content-Type") (codes "application/json") writer) in
    if may_pass then respond (marshal (health_report global)) w else w

unfoldable pub serve_statistics :
    (marshal : StatisticsReport → Option Text)
    → Authenticator
    → StreamStatistics
    → Header
    → Response
    → Response
unfolding statistics_report
serve_statistics marshal auth global request writer =
    let (w, may_pass) =
      handle_http_authentication auth request
        (add_header (codes "Content-Type") (codes "application/json") writer) in
    if may_pass then respond (marshal (statistics_report global)) w else w

-- `connected` is what the client's Connected returns.
unfoldable pub serve_stream_state :
    Authenticator → (connected : Bool) → Header → Response → Response
serve_stream_state auth connected request writer =
    let (w, may_pass) =
      handle_http_authentication auth request
        (add_header (codes "Content-Type") (codes "text/plain") writer) in
    if may_pass
    then if connected
      then write (codes "200 ok") (write_header 200 w)
      else write (codes "404 not found") (write_header 404 w)
    else w

-- len(query[key]) > 0, where the query is its parameters in order.
abbrev pub has_key : Text → List (Text × Text) → Bool
has_key key [] = false
has_key key ((k, v) ∷ query) = if text_beq k key then true else has_key key query

-- With the response comes the argument of SetInhibit, if it is called.
unfoldable pub serve_stream_control :
    Authenticator → (query : List (Text × Text)) → Header → Response → Response × Option Bool
serve_stream_control auth query request writer =
    let (w, may_pass) =
      handle_http_authentication auth request
        (add_header (codes "Content-Type") (codes "text/plain") writer) in
    if may_pass
    then if has_key (codes "offline") query
      then (write (codes "202 accepted") (write_header 202 w), some true)
      else if has_key (codes "online") query
      then (write (codes "202 accepted") (write_header 202 w), some false)
      else (write (codes "400 bad request") (write_header 400 w), none)
    else (w, none)

-- `handler` is the handler of the Prometheus library.
unfoldable pub serve_prometheus :
    (handler : Header → Response → Response) → Authenticator → Header → Response → Response
serve_prometheus handler auth request writer =
    let (w, may_pass) = handle_http_authentication auth request writer in
    if may_pass then handler request w else w
