-- ===== src/Metrics/Statistics.antt =====
-- metrics/stats.go, realStatistics: the statistics of all streams and their updates.
pub mod Rows
pub mod Counting
pub mod Registered
pub mod Late
pub mod Sums
pub mod Tables
pub mod Totals
use restreamer.Prelude.{
  ℕ, Bool, true, false, not, ◌||◌, ◌==◌, List, [], ◌∷◌, Option, none, some, Text, Map, lookup,
  assign, delete, text_eq, if◌then◌else◌, map,
}
use restreamer.Prelude.Word.{uint64, add64, mul64}
use restreamer.Prelude.Channel.{Outcome, ok, panic, ◌>>=◌}
use restreamer.Protocol.Packet.{mpeg_ts_packet_size}
use restreamer.Metrics.Collector.{Collector, new_collector, clone, invsub}

-- Words of 64 bits; the first three and the stream time are signed.
pub record StreamStatistics : Type 0 where
  pub connections : ℕ
  pub max_connections : ℕ
  pub full_connections : ℕ
  pub total_packets_received : ℕ
  pub total_packets_sent : ℕ
  pub total_packets_dropped : ℕ
  pub total_bytes_received : ℕ
  pub total_bytes_sent : ℕ
  pub total_bytes_dropped : ℕ
  pub total_stream_time : ℕ
  pub packets_per_second_received : ℕ
  pub packets_per_second_sent : ℕ
  pub packets_per_second_dropped : ℕ
  pub bytes_per_second_received : ℕ
  pub bytes_per_second_sent : ℕ
  pub bytes_per_second_dropped : ℕ
  pub connected : Bool

-- &StreamStatistics{}, and the same with the two limits.
abbrev pub empty_statistics : ℕ → ℕ → StreamStatistics
empty_statistics max full = record {
  connections = 0;
  max_connections = max;
  full_connections = full;
  total_packets_received = 0;
  total_packets_sent = 0;
  total_packets_dropped = 0;
  total_bytes_received = 0;
  total_bytes_sent = 0;
  total_bytes_dropped = 0;
  total_stream_time = 0;
  packets_per_second_received = 0;
  packets_per_second_sent = 0;
  packets_per_second_dropped = 0;
  bytes_per_second_received = 0;
  bytes_per_second_sent = 0;
  bytes_per_second_dropped = 0;
  connected = false;
}

-- `internal` holds the collectors by the name of their stream, in the place of pointers to them.
pub record Statistics : Type 0 where
  pub running : Bool
  pub internal : Map Text Collector
  pub streams : Map Text StreamStatistics
  pub global : StreamStatistics

unfoldable pub new_statistics : ℕ → ℕ → Statistics
new_statistics maxconns fullcons = record {
  running = false;
  internal = [];
  streams = [];
  global = empty_statistics (uint64 maxconns) (uint64 fullcons);
}

unfoldable pub register_stream : Text → Statistics → Statistics
register_stream name s = record s {
  internal = assign name new_collector s.internal;
  streams = assign name (empty_statistics 0 0) s.streams;
}

unfoldable pub remove_stream : Text → Statistics → Statistics
remove_stream name s = record s {
  internal = delete name s.internal;
  streams = delete name s.streams;
}

-- The name must be registered: a nil pointer is followed otherwise.
unfoldable pub get_stream_statistics : Text → Statistics → Outcome StreamStatistics
get_stream_statistics name s = elim (lookup name s.streams) [
  | none ↦ panic
  | some stream ↦ ok stream
]

-- The reset of the global counters; the limits stay.
unfoldable pub reset : StreamStatistics → StreamStatistics
reset g = empty_statistics g.max_connections g.full_connections

-- The global counters with one more stream.
unfoldable pub add_stream : (stream global : StreamStatistics) → StreamStatistics
add_stream stream global = record {
  connections = add64 global.connections stream.connections;
  max_connections = global.max_connections;
  full_connections = global.full_connections;
  total_packets_received = add64 global.total_packets_received stream.total_packets_received;
  total_packets_sent = add64 global.total_packets_sent stream.total_packets_sent;
  total_packets_dropped = add64 global.total_packets_dropped stream.total_packets_dropped;
  total_bytes_received = add64 global.total_bytes_received stream.total_bytes_received;
  total_bytes_sent = add64 global.total_bytes_sent stream.total_bytes_sent;
  total_bytes_dropped = add64 global.total_bytes_dropped stream.total_bytes_dropped;
  total_stream_time = add64 global.total_stream_time stream.total_stream_time;
  packets_per_second_received =
      add64 global.packets_per_second_received stream.packets_per_second_received;
  packets_per_second_sent = add64 global.packets_per_second_sent stream.packets_per_second_sent;
  packets_per_second_dropped =
      add64 global.packets_per_second_dropped stream.packets_per_second_dropped;
  bytes_per_second_received =
      add64 global.bytes_per_second_received stream.bytes_per_second_received;
  bytes_per_second_sent = add64 global.bytes_per_second_sent stream.bytes_per_second_sent;
  bytes_per_second_dropped = add64 global.bytes_per_second_dropped stream.bytes_per_second_dropped;
  connected = stream.connected || global.connected;
}

-- `rate` is uint64(float64(n) / delta.Seconds()), arithmetic of floating point numbers.
module _ (rate : ℕ → ℕ) where
  -- The update of one stream by the difference of its counters.
  unfoldable pub update_stream : (diff : Collector) → StreamStatistics → StreamStatistics
  update_stream diff stream =
      let received = add64 stream.total_packets_received diff.packets_received in
      let sent = add64 stream.total_packets_sent diff.packets_sent in
      let dropped = add64 stream.total_packets_dropped diff.packets_dropped in
      record {
        connections = add64 stream.connections diff.connections;
        max_connections = stream.max_connections;
        full_connections = stream.full_connections;
        total_packets_received = received;
        total_packets_sent = sent;
        total_packets_dropped = dropped;
        total_bytes_received = mul64 received mpeg_ts_packet_size;
        total_bytes_sent = mul64 sent mpeg_ts_packet_size;
        total_bytes_dropped = mul64 dropped mpeg_ts_packet_size;
        total_stream_time = add64 stream.total_stream_time diff.duration;
        packets_per_second_received = rate diff.packets_received;
        packets_per_second_sent = rate diff.packets_sent;
        packets_per_second_dropped = rate diff.packets_dropped;
        bytes_per_second_received = mul64 (rate diff.packets_received) mpeg_ts_packet_size;
        bytes_per_second_sent = mul64 (rate diff.packets_sent) mpeg_ts_packet_size;
        bytes_per_second_dropped = mul64 (rate diff.packets_dropped) mpeg_ts_packet_size;
        connected = not (diff.connected == 0);
      }

  -- The loop over the streams. A stream without a difference makes it follow a nil pointer.
  unfoldable pub update_all :
      (change : Map Text Collector)
      → Map Text StreamStatistics
      → StreamStatistics
      → Outcome (Map Text StreamStatistics × StreamStatistics)
  unfolding update_stream add_stream
  update_all change [] global = ok ([], global)
  update_all change ((name, stream) ∷ streams) global = elim (lookup name change) [
    | none ↦ panic
    | some diff ↦
        let stream' = update_stream diff stream in
        (do
          (streams', global') ← update_all change streams (add_stream stream' global)
          ok ((name, stream') ∷ streams', global'))
  ]

  unfoldable pub update : (change : Map Text Collector) → Statistics → Outcome Statistics
  unfolding update_all reset
  update change s = do
    (streams, global) ← update_all change s.streams (reset s.global)
    ok (record s { streams = streams; global = global })

-- The loop of `delta` over the collectors: the differences, which replace the content of `previous`,
-- and the current state. A collector that has no previous state makes it follow a nil pointer.
unfoldable pub delta_all :
    (internal previous : Map Text Collector) → Outcome (Map Text Collector × Map Text Collector)
unfolding clone invsub
delta_all [] previous = ok (previous, [])
delta_all ((name, stream) ∷ internal) previous = elim (lookup name previous) [
  | none ↦ panic
  | some old ↦
      let now = clone stream in
      (do
        (differences, current) ← delta_all internal (assign name (invsub old now) previous)
        ok (differences, (name, now) ∷ current))
]

unfoldable pub delta :
    (previous : Map Text Collector) → Statistics → Outcome (Map Text Collector × Map Text Collector)
unfolding delta_all
delta previous s = delta_all s.internal previous

-- What the loop stores before its first tick.
unfoldable pub snapshot : Map Text Collector → Map Text Collector
unfolding clone
snapshot [] = []
snapshot ((name, stream) ∷ internal) = (name, clone stream) ∷ snapshot internal

-- One tick of the loop: the previous state, and the statistics, after it.
unfoldable pub tick :
    (rate : ℕ → ℕ) → Map Text Collector × Statistics → Outcome (Map Text Collector × Statistics)
unfolding delta update
tick rate (previous, s) = do
  (differences, current) ← delta previous s
  s' ← update rate differences s
  ok (current, s')

-- Start: a loop that runs is not started again; the result is what the loop has stored.
unfoldable pub start : Statistics → Map Text Collector × Statistics
unfolding snapshot
start s = (snapshot s.internal, record s { running = true })
