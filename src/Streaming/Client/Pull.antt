-- ===== src/Streaming/Client/Pull.antt =====
-- streaming/client.go: pull, which reads packets from the upstream into the queue of the streamer.
use restreamer.Prelude.{ℕ, zero, suc, Bool, true, false, List, [], ◌∷◌, ◌++◌, Option, none, some}
use restreamer.Protocol.Reader.{Reader, IoError}
use restreamer.Protocol.Packet.{Result, read_mpeg_ts_packet}
use restreamer.Protocol.Packet
use restreamer.Streaming.Streamer.{Input}
use restreamer.Streaming.Streamer

-- Calls of the statistics collector.
pub data SourceReport : Type 0 where
  source_connected packet_received source_disconnected : SourceReport

-- Rounds of each reading loop inside of ReadMpegTsPacket.
abbrev pub packet_rounds : ℕ
packet_rounds = 189

module _ (r : Reader) where
  -- The fields of the client that change, `running` and the input, and the local variables. The
  -- queue holds all that was sent to it, in order; nil is none.
  pub record Pull : Type 0 where
    pub input : r.State
    pub running : Bool
    pub queue : Option (List Input)
    pub reports : List SourceReport
    pub err : Option IoError

  -- The queue is made, and the connection reported, with the first packet.
  unfoldable pub receive_packet : List ℕ → Pull → Pull
  receive_packet p s = elim s.queue [
    | none ↦ record s {
      queue = some (Streamer.packet p ∷ []);
      reports = s.reports ++ (source_connected ∷ packet_received ∷ []);
    }
    | some q ↦ record s {
      queue = some (q ++ (Streamer.packet p ∷ []));
      reports = s.reports ++ (packet_received ∷ []);
    }
  ]

  -- What is done with the result of ReadMpegTsPacket.
  unfoldable pub handle_result : Result r.State → Pull → Option Pull
  unfolding receive_packet
  handle_result (Packet.packet p t) s = some (receive_packet p (record s { input = t; err = none }))
  handle_result (Packet.no_packet t) s = some (record s { input = t; err = none })
  handle_result (Packet.failed e t) s = some (record s { input = t; err = some e; running = false })
  handle_result Packet.diverged s = none

  unfoldable pub pull_round : Pull → Option Pull
  unfolding handle_result
  pull_round s = handle_result (read_mpeg_ts_packet r packet_rounds s.input) s

  -- `for util.LoadBool(&client.running)`; a test of the condition takes one unit of fuel.
  unfoldable pub pull_loop : ℕ → Pull → Option Pull
  pull_loop zero s = none
  pull_loop (suc fuel) s = elim s.running [
    | false ↦ some s
    | true ↦ elim (pull_round s) [ none ↦ none | some s' ↦ pull_loop fuel s' ]
  ]

  -- What is behind the loop: a queue is closed, and the loss of the connection reported.
  unfoldable pub disconnect : Pull → Pull
  disconnect s = elim s.queue [
    | none ↦ s
    | some q ↦ record s {
      queue = some (q ++ (Streamer.end_of_queue ∷ []));
      reports = s.reports ++ (source_disconnected ∷ []);
    }
  ]

  unfoldable pub pull : ℕ → Pull → Option Pull
  unfolding pull_loop disconnect
  pull fuel s = elim (pull_loop fuel s) [ none ↦ none | some s' ↦ some (disconnect s') ]
