-- ===== src/Metrics/Statistics/Counting.antt =====
-- One stream: the calls of its collector, and what is published of them.
use restreamer.Prelude.{ℕ, ◌≡◌, ◌<◌, ◌^◌, refl, ap, ◌∙◌, not, ◌==◌, text_eq, nat_eq, arith}
use restreamer.Prelude.Word.{add64, sub64, mul64, add64-sub64_cancel}
use restreamer.Util.Atomic.{to_atomic_bool, load_bool}
use restreamer.Protocol.Packet.{mpeg_ts_packet_size}
use restreamer.Metrics.Collector.{
  Collector, new_collector, clone, invsub, connection_added, connection_removed, packet_received,
  packet_sent, packet_dropped, source_connected, source_disconnected, stream_duration,
  is_upstream_connected,
}
use restreamer.Metrics.Statistics.{StreamStatistics, empty_statistics, update_stream}

-- A call of a method of a stream's collector.
pub data Count : Type 0 where
  adds_connection removes_connection receives sends drops connects disconnects : Count
  lasts : ℕ → Count

abbrev pub count : Count → Collector → Collector
count adds_connection = connection_added
count removes_connection = connection_removed
count receives = packet_received
count sends = packet_sent
count drops = packet_dropped
count connects = source_connected
count disconnects = source_disconnected
count (lasts d) = stream_duration d

-- Every counter is a word.
abbrev pub Fits : Collector → Type 0
Fits c =
    (c.connections < 2 ^ 64)
    × (c.packets_received < 2 ^ 64)
    × (c.packets_sent < 2 ^ 64)
    × (c.packets_dropped < 2 ^ 64)
    × (c.duration < 2 ^ 64)

pub count-Fits : (n : Count) (c : Collector) → Fits c → Fits (count n c)
unfolding connection_added connection_removed packet_received packet_sent packet_dropped
    source_connected source_disconnected stream_duration
count-Fits adds_connection c (conns, received, sent, dropped, duration) =
    (omega arith, received, sent, dropped, duration)
count-Fits removes_connection c (conns, received, sent, dropped, duration) =
    (omega arith, received, sent, dropped, duration)
count-Fits receives c (conns, received, sent, dropped, duration) =
    (conns, omega arith, sent, dropped, duration)
count-Fits sends c (conns, received, sent, dropped, duration) =
    (conns, received, omega arith, dropped, duration)
count-Fits drops c (conns, received, sent, dropped, duration) =
    (conns, received, sent, omega arith, duration)
count-Fits connects c h = h
count-Fits disconnects c h = h
count-Fits (lasts d) c (conns, received, sent, dropped, duration) =
    (conns, received, sent, dropped, omega arith)

-- The numbers that are published for a stream are those of a collector.
pub record Agrees (stream : StreamStatistics) (c : Collector) : Type 0 where
  pub connections : stream.connections ≡ c.connections
  pub received : stream.total_packets_received ≡ c.packets_received
  pub sent : stream.total_packets_sent ≡ c.packets_sent
  pub dropped : stream.total_packets_dropped ≡ c.packets_dropped
  pub bytes_received : stream.total_bytes_received ≡ mul64 c.packets_received mpeg_ts_packet_size
  pub bytes_sent : stream.total_bytes_sent ≡ mul64 c.packets_sent mpeg_ts_packet_size
  pub bytes_dropped : stream.total_bytes_dropped ≡ mul64 c.packets_dropped mpeg_ts_packet_size
  pub duration : stream.total_stream_time ≡ c.duration
  pub connected : stream.connected ≡ is_upstream_connected c

abbrev in_bytes : ℕ → ℕ
in_bytes packets = mul64 packets mpeg_ts_packet_size

pub update_stream-Agrees :
    (rate : ℕ → ℕ) (stream : StreamStatistics) (old c : Collector)
    → Fits old
    → Fits c
    → Agrees stream old
    → Agrees (update_stream rate (invsub old (clone c)) stream) c
unfolding update_stream invsub clone is_upstream_connected to_atomic_bool load_bool
update_stream-Agrees rate stream old c p q a =
    let received =
      ap (λ (n : ℕ). add64 n (sub64 c.packets_received old.packets_received)) a.received
      ∙ add64-sub64_cancel old.packets_received c.packets_received p.1 q.1 in
    let sent =
      ap (λ (n : ℕ). add64 n (sub64 c.packets_sent old.packets_sent)) a.sent
      ∙ add64-sub64_cancel old.packets_sent c.packets_sent p.2 q.2 in
    let dropped =
      ap (λ (n : ℕ). add64 n (sub64 c.packets_dropped old.packets_dropped)) a.dropped
      ∙ add64-sub64_cancel old.packets_dropped c.packets_dropped p.3 q.3 in
    record {
      connections = rw a.connections (add64-sub64_cancel old.connections c.connections p.0 q.0);
      received = received;
      sent = sent;
      dropped = dropped;
      bytes_received = ap in_bytes received;
      bytes_sent = ap in_bytes sent;
      bytes_dropped = ap in_bytes dropped;
      duration = rw a.duration (add64-sub64_cancel old.duration c.duration p.4 q.4);
      connected = flag c.connected;
    }
  where
    flag : (w : ℕ) → not (to_atomic_bool (load_bool w) == 0) ≡ load_bool w
    flag w = ground arith

pub new-Agrees : Agrees (empty_statistics 0 0) new_collector
unfolding is_upstream_connected
new-Agrees = record {
  connections = refl;
  received = refl;
  sent = refl;
  dropped = refl;
  bytes_received = refl;
  bytes_sent = refl;
  bytes_dropped = refl;
  duration = refl;
  connected = refl;
}

pub new-Fits : Fits new_collector
new-Fits = (omega arith, omega arith, omega arith, omega arith, omega arith)

pub clone-Agrees :
    (stream : StreamStatistics) (c : Collector) → Agrees stream c → Agrees stream (clone c)
unfolding clone is_upstream_connected to_atomic_bool load_bool
clone-Agrees stream c a = record {
  connections = a.connections;
  received = a.received;
  sent = a.sent;
  dropped = a.dropped;
  bytes_received = a.bytes_received;
  bytes_sent = a.bytes_sent;
  bytes_dropped = a.bytes_dropped;
  duration = a.duration;
  connected = ground (arith, a.connected);
}

pub clone-Fits : (c : Collector) → Fits c → Fits (clone c)
unfolding clone
clone-Fits c h = h
