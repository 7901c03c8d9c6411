-- ===== src/Streaming/Client/Segments.antt =====
-- A pull in the abstract: packets in a stream of bytes, and what the streamer and the collector are
-- told of them.
use restreamer.Prelude.{ℕ, ◌≡◌, List, [], ◌∷◌, ◌++◌, map, Option, none, some, length}
use restreamer.Protocol.Packet.{mpeg_ts_packet_size, mpeg_ts_sync_byte}
use restreamer.Protocol.Packet.Framing.{HasNoSync}
use restreamer.Streaming.Streamer.{Input}
use restreamer.Streaming.Streamer
use restreamer.Streaming.Client.Pull.{
  SourceReport, source_connected, packet_received, source_disconnected,
}

-- A packet, and the bytes in front of it.
abbrev pub Segment : Type 0
Segment = List ℕ × List ℕ

-- No sync byte is skipped, and a packet is 188 bytes that begin with one.
abbrev pub IsSegment : Segment → Type 0
IsSegment (gap, p) =
    HasNoSync gap
    × (length p ≡ mpeg_ts_packet_size)
    × ((rest : List ℕ) × (p ≡ mpeg_ts_sync_byte ∷ rest))

-- The bytes of the segments, and others behind them.
abbrev pub weave : List Segment → List ℕ → List ℕ
weave [] rest = rest
weave ((gap, p) ∷ xs) rest = gap ++ (p ++ weave xs rest)

-- The queue and the reports.
abbrev pub Journal : Type 0
Journal = Option (List Input) × List SourceReport

abbrev pub enter : List ℕ → Journal → Journal
enter p (none, rs) =
    (some (Streamer.packet p ∷ []), rs ++ (source_connected ∷ packet_received ∷ []))
enter p (some q, rs) = (some (q ++ (Streamer.packet p ∷ [])), rs ++ (packet_received ∷ []))

abbrev pub enter_all : List Segment → Journal → Journal
enter_all [] j = j
enter_all ((gap, p) ∷ xs) j = enter_all xs (enter p j)

-- What the streamer is sent: nothing, or the packets in order and the end of the queue.
abbrev pub sent : List Segment → Option (List Input)
sent [] = none
sent (x ∷ xs) = some (map (λ y. Streamer.packet y.1) (x ∷ xs) ++ (Streamer.end_of_queue ∷ []))

-- What is reported: nothing, or the packets between the two reports on the connection.
abbrev pub reported : List Segment → List SourceReport
reported [] = []
reported (x ∷ xs) =
    source_connected ∷ (map (λ y. packet_received) (x ∷ xs) ++ (source_disconnected ∷ []))
