-- ===== src/Metrics/Collector.antt =====
-- metrics/stats.go, realCollector: the counters of one stream.
use restreamer.Prelude.{ℕ, Bool, true, false}
use restreamer.Prelude.Word.{add64, sub64, minus_one}
use restreamer.Util.Atomic.{AtomicBool, atomic_false, load_bool, store_bool, to_atomic_bool}

-- Words of 64 bits; `connections` and `duration` are signed.
pub record Collector : Type 0 where
  pub connections : ℕ
  pub packets_received : ℕ
  pub packets_sent : ℕ
  pub packets_dropped : ℕ
  pub duration : ℕ
  pub connected : AtomicBool

abbrev pub new_collector : Collector
new_collector = record {
  connections = 0;
  packets_received = 0;
  packets_sent = 0;
  packets_dropped = 0;
  duration = 0;
  connected = atomic_false;
}

unfoldable pub connection_added : Collector → Collector
connection_added c = record c { connections = add64 c.connections 1 }

unfoldable pub connection_removed : Collector → Collector
connection_removed c = record c { connections = add64 c.connections minus_one }

unfoldable pub packet_received : Collector → Collector
packet_received c = record c { packets_received = add64 c.packets_received 1 }

unfoldable pub packet_sent : Collector → Collector
packet_sent c = record c { packets_sent = add64 c.packets_sent 1 }

unfoldable pub packet_dropped : Collector → Collector
packet_dropped c = record c { packets_dropped = add64 c.packets_dropped 1 }

unfoldable pub source_connected : Collector → Collector
unfolding store_bool
source_connected c = record c { connected = store_bool c.connected true }

unfoldable pub source_disconnected : Collector → Collector
unfolding store_bool
source_disconnected c = record c { connected = store_bool c.connected false }

unfoldable pub is_upstream_connected : Collector → Bool
unfolding load_bool
is_upstream_connected c = load_bool c.connected

unfoldable pub stream_duration : ℕ → Collector → Collector
stream_duration duration c = record c { duration = add64 c.duration duration }

-- Only the flag can change here: whatever is set becomes 1.
unfoldable pub clone : Collector → Collector
unfolding to_atomic_bool load_bool
clone c = record c { connected = to_atomic_bool (load_bool c.connected) }

-- The new content of the receiver.
unfoldable pub invsub : (stats to : Collector) → Collector
invsub stats to = record {
  connections = sub64 to.connections stats.connections;
  packets_received = sub64 to.packets_received stats.packets_received;
  packets_sent = sub64 to.packets_sent stats.packets_sent;
  packets_dropped = sub64 to.packets_dropped stats.packets_dropped;
  connected = to.connected;
  duration = sub64 to.duration stats.duration;
}
