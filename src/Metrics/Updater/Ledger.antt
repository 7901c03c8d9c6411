-- ===== src/Metrics/Updater/Ledger.antt =====
-- What the updater should publish, told without its states of collectors: the counts that were made
-- while the loop waited for its ticker, as far as a tick has followed.
use restreamer.Prelude.{ℕ, ◌≡◌, refl, ap, Text, text_eq, text_beq, arith, if◌then◌else◌}
use restreamer.Prelude.Word.{add64, sub64, mul64, minus_one}
use restreamer.Protocol.Packet.{mpeg_ts_packet_size}
use restreamer.Metrics.Collector.{
  Collector, clone, invsub, connection_added, connection_removed, packet_received, packet_sent,
  packet_dropped, source_connected, source_disconnected, stream_duration,
}
use restreamer.Metrics.Statistics.{StreamStatistics, update_stream}
use restreamer.Metrics.Statistics.Counting.{
  Count, count, adds_connection, removes_connection, receives, sends, drops, connects, disconnects,
  lasts,
}
use restreamer.Metrics.Updater.{
  Phase, absent, launched, leaving, looping, Action, counts, ticks, starts, begins, stops, finishes,
}

pub record Amounts : Type 0 where
  pub connections : ℕ
  pub received : ℕ
  pub sent : ℕ
  pub dropped : ℕ
  pub duration : ℕ

abbrev pub nothing : Amounts
nothing = record { connections = 0; received = 0; sent = 0; dropped = 0; duration = 0 }

abbrev pub note : Count → Amounts → Amounts
note adds_connection a = record a { connections = add64 a.connections 1 }
note removes_connection a = record a { connections = add64 a.connections minus_one }
note receives a = record a { received = add64 a.received 1 }
note sends a = record a { sent = add64 a.sent 1 }
note drops a = record a { dropped = add64 a.dropped 1 }
note connects a = a
note disconnects a = a
note (lasts d) a = record a { duration = add64 a.duration d }

abbrev pub plus : Amounts → Amounts → Amounts
plus a b = record {
  connections = add64 a.connections b.connections;
  received = add64 a.received b.received;
  sent = add64 a.sent b.sent;
  dropped = add64 a.dropped b.dropped;
  duration = add64 a.duration b.duration;
}

-- Of one stream: what ticks have published, and what the next tick will add.
pub record Ledger : Type 0 where
  pub kept : Amounts
  pub pending : Amounts

abbrev pub settle : Ledger → Ledger
settle l = record { kept = plus l.kept l.pending; pending = nothing }

abbrev pub drop_pending : Ledger → Ledger
drop_pending l = record l { pending = nothing }

-- The ledgers of all streams after an action, in the phase that it found. Counts outside of the loop
-- are not noted, and what is pending when a loop ends is forgotten by the next.
abbrev pub account : Action → Phase → (Text → Ledger) → Text → Ledger
account (counts name n) (looping _) ls m =
    if text_beq m name then record (ls m) { pending = note n ((ls m).pending) } else ls m
account (counts name n) absent ls m = ls m
account (counts name n) launched ls m = ls m
account (counts name n) leaving ls m = ls m
account (ticks rate) (looping _) ls m = settle (ls m)
account (ticks rate) absent ls m = ls m
account (ticks rate) launched ls m = ls m
account (ticks rate) leaving ls m = ls m
account begins launched ls m = drop_pending (ls m)
account begins absent ls m = ls m
account begins leaving ls m = ls m
account begins (looping _) ls m = ls m
account starts phase ls m = ls m
account stops phase ls m = ls m
account finishes phase ls m = ls m

-- The counters that are published for a stream are those amounts.
pub record Shows (stream : StreamStatistics) (a : Amounts) : Type 0 where
  pub connections : stream.connections ≡ a.connections
  pub received : stream.total_packets_received ≡ a.received
  pub sent : stream.total_packets_sent ≡ a.sent
  pub dropped : stream.total_packets_dropped ≡ a.dropped
  pub bytes_received : stream.total_bytes_received ≡ mul64 a.received mpeg_ts_packet_size
  pub bytes_sent : stream.total_bytes_sent ≡ mul64 a.sent mpeg_ts_packet_size
  pub bytes_dropped : stream.total_bytes_dropped ≡ mul64 a.dropped mpeg_ts_packet_size
  pub duration : stream.total_stream_time ≡ a.duration

-- A collector has counted those amounts since a previous state.
abbrev pub Counted : (previous c : Collector) → Amounts → Type 0
Counted previous c a =
    (sub64 c.connections previous.connections ≡ a.connections)
    × (sub64 c.packets_received previous.packets_received ≡ a.received)
    × (sub64 c.packets_sent previous.packets_sent ≡ a.sent)
    × (sub64 c.packets_dropped previous.packets_dropped ≡ a.dropped)
    × (sub64 c.duration previous.duration ≡ a.duration)

add64-sub64_comm : (c p d a : ℕ) → sub64 c p ≡ a → sub64 (add64 c d) p ≡ add64 a d
add64-sub64_comm c p d a h = omega arith

pub note-Counted :
    (n : Count) (previous c : Collector) (a : Amounts)
    → Counted previous c a
    → Counted previous (count n c) (note n a)
unfolding connection_added connection_removed packet_received packet_sent packet_dropped
    source_connected source_disconnected stream_duration
note-Counted adds_connection previous c a (conns, received, sent, dropped, duration) = (
  add64-sub64_comm c.connections previous.connections 1 a.connections conns,
  received,
  sent,
  dropped,
  duration,
)
note-Counted removes_connection previous c a (conns, received, sent, dropped, duration) = (
  add64-sub64_comm c.connections previous.connections minus_one a.connections conns,
  received,
  sent,
  dropped,
  duration,
)
note-Counted receives previous c a (conns, received, sent, dropped, duration) = (
  conns,
  add64-sub64_comm c.packets_received previous.packets_received 1 a.received received,
  sent,
  dropped,
  duration,
)
note-Counted sends previous c a (conns, received, sent, dropped, duration) = (
  conns,
  received,
  add64-sub64_comm c.packets_sent previous.packets_sent 1 a.sent sent,
  dropped,
  duration,
)
note-Counted drops previous c a (conns, received, sent, dropped, duration) = (
  conns,
  received,
  sent,
  add64-sub64_comm c.packets_dropped previous.packets_dropped 1 a.dropped dropped,
  duration,
)
note-Counted connects previous c a h = h
note-Counted disconnects previous c a h = h
note-Counted (lasts d) previous c a (conns, received, sent, dropped, duration) = (
  conns,
  received,
  sent,
  dropped,
  add64-sub64_comm c.duration previous.duration d a.duration duration,
)

sub64_self : (n : ℕ) → sub64 n n ≡ 0
sub64_self n = omega arith

pub clone-Counted : (c : Collector) → Counted (clone c) c nothing
unfolding clone
clone-Counted c = (
  sub64_self c.connections,
  sub64_self c.packets_received,
  sub64_self c.packets_sent,
  sub64_self c.packets_dropped,
  sub64_self c.duration,
)

abbrev in_bytes : ℕ → ℕ
in_bytes packets = mul64 packets mpeg_ts_packet_size

-- An update by the difference adds what was counted.
pub update_stream-Shows :
    (rate : ℕ → ℕ) (stream : StreamStatistics) (previous c : Collector) (a b : Amounts)
    → Shows stream a
    → Counted previous c b
    → Shows (update_stream rate (invsub previous (clone c)) stream) (plus a b)
unfolding update_stream invsub clone
update_stream-Shows rate stream previous c a b h (conns, rcvd, snt, drpd, drtn) =
    let received : add64 stream.total_packets_received
          (sub64 c.packets_received previous.packets_received)
        ≡ add64 a.received b.received =
      rw (h.received, rcvd) refl in
    let sent : add64 stream.total_packets_sent (sub64 c.packets_sent previous.packets_sent)
        ≡ add64 a.sent b.sent =
      rw (h.sent, snt) refl in
    let dropped : add64 stream.total_packets_dropped
          (sub64 c.packets_dropped previous.packets_dropped)
        ≡ add64 a.dropped b.dropped =
      rw (h.dropped, drpd) refl in
    record {
      connections = rw (h.connections, conns) refl;
      received = received;
      sent = sent;
      dropped = dropped;
      bytes_received = ap in_bytes received;
      bytes_sent = ap in_bytes sent;
      bytes_dropped = ap in_bytes dropped;
      duration = rw (h.duration, drtn) refl;
    }
