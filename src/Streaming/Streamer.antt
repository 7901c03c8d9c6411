-- ===== src/Streaming/Streamer.antt =====
-- streaming/streamer.go: the loop that distributes packets to the connections of a pool.
pub mod Heap
pub mod Distribute
pub mod Closing
pub mod Panics
use restreamer.Prelude.{
  ℕ, ◌≡◌, Bool, true, false, not, ◌&&◌, List, [], ◌∷◌, ◌++◌, Option, none, some, Text, ◌==◌,
  filter_by, if◌then◌else◌,
}
use restreamer.Prelude.Channel.{Channel, Outcome, ok, panic, ◌>>=◌, try_send, close}
use restreamer.Auth.{Authenticator}
use restreamer.Streaming.Connection.{Packet, Connection}
use Heap.{Conns, update}

pub data Command : Type 0 where
  ignore start add remove inhibit allow : Command

-- `connection` is a pointer. The field `Ok` is the result of handling the request, and the wait
-- group is that the caller continues with this result.
pub record ConnectionRequest : Type 0 where
  pub command : Command
  pub address : Text
  pub connection : ℕ

-- The interface of the connection broker, with its state.
pub record ConnectionBroker : Type 1 where
  pub State : Type 0
  pub accept : Text → State → State × Bool
  pub release : State → State

-- Calls of the statistics collector.
pub data Report : Type 0 where
  connection_added connection_removed packet_sent packet_dropped : Report

-- What the input channel and the request channel hold ready for the loop.
pub data Input : Type 0 where
  packet : Packet → Input
  end_of_queue : Input
  request : ConnectionRequest → Input

-- The loop over the pool for one packet, in the order in which the map gives the connections.
unfoldable pub distribute : Packet → List ℕ → Conns → Outcome (Conns × List Report)
distribute p [] conns = ok (conns, [])
distribute p (c ∷ cs) conns = do
  (queue, sent) ← try_send p (conns c).queue
  (conns', reports) ← distribute p cs (update conns c (record (conns c) { queue = queue }))
  ok (conns', (if sent then packet_sent else packet_dropped) ∷ reports)

-- `for conn := range pool { close(conn.Queue) }`
unfoldable pub close_all : List ℕ → Conns → Outcome Conns
close_all [] conns = ok conns
close_all (c ∷ cs) conns = do
  queue ← close (conns c).queue
  close_all cs (update conns c (record (conns c) { queue = queue }))

-- delete(pool, conn)
abbrev pub delete_conn : ℕ → List ℕ → List ℕ
delete_conn c = filter_by (λ d. not (d == c))

-- pool[conn] = true
abbrev pub add_conn : ℕ → List ℕ → List ℕ
add_conn c pool = c ∷ delete_conn c pool

module _ (broker : ConnectionBroker) where
  -- The fields of the streamer that change, the connections that its pointers lead to, the local
  -- variables `pool` and `inhibit` of the loop, and the calls of the collector so far.
  pub record Streamer : Type 0 where
    pub queue_size : ℕ
    pub preamble : Text
    pub auth : Authenticator
    pub running : Bool
    pub policy : broker.State
    pub conns : Conns
    pub pool : List ℕ
    pub inhibited : Bool
    pub reports : List Report

  unfoldable pub new_streamer : ℕ → broker.State → Authenticator → Streamer
  new_streamer qsize policy auth = record {
    queue_size = qsize;
    preamble = [];
    auth = auth;
    running = false;
    policy = policy;
    conns = λ c. Heap.no_connection;
    pool = [];
    inhibited = false;
    reports = [];
  }

  -- Called before the streamer is used.
  unfoldable pub set_preamble : Text → Streamer → Streamer
  set_preamble preamble s = record s { preamble = preamble }

  -- The interlock at the start: false means ErrAlreadyRunning. The pool and the flag are new.
  unfoldable pub begin_stream : Streamer → Streamer × Bool
  begin_stream s =
      if s.running
      then (s, false)
      else (record s { running = true; pool = []; inhibited = false }, true)

  -- The switch over the command of a request, with the new value of `Ok`.
  unfoldable pub handle_command : Command → ConnectionRequest → Streamer → Outcome (Streamer × Bool)
  handle_command remove r s = do
    conns ←
        (if (s.conns r.connection).closed then ok s.conns else (do
          queue ← close (s.conns r.connection).queue
          ok (update s.conns r.connection (record (s.conns r.connection) { queue = queue }))))
    ok (record s { conns = conns; pool = delete_conn r.connection s.pool }, false)
  handle_command add r s =
      if s.inhibited
      then ok (s, false)
      else let (policy, accepted) = broker.accept r.address s.policy in
        if accepted
        then ok (record s { policy = policy; pool = add_conn r.connection s.pool }, true)
        else ok (record s { policy = policy }, false)
  handle_command inhibit r s = do
    conns ← close_all s.pool s.conns
    ok (record s { inhibited = true; conns = conns }, false)
  handle_command allow r s = ok (record s { inhibited = false }, false)
  handle_command ignore r s = ok (s, false)
  handle_command start r s = ok (s, false)

  unfoldable pub handle_request : ConnectionRequest → Streamer → Outcome (Streamer × Bool)
  unfolding handle_command
  handle_request r s = handle_command r.command r s

  -- One round of the loop.
  unfoldable pub stream_round : Input → Streamer → Outcome Streamer
  unfolding handle_request
  stream_round (packet p) s = do
    (conns, reports) ← distribute p s.pool s.conns
    ok (record s { conns = conns; reports = s.reports ++ reports })
  stream_round end_of_queue s = ok (record s { running = false })
  stream_round (request r) s = do (s', done) ← handle_request r s; ok s'

  -- The loop and the clean-up behind it; the input channel has been drained then. Without an end of
  -- the queue the loop waits for more.
  unfoldable pub stream : List Input → Streamer → Outcome Streamer
  stream [] s = ok s
  stream (end_of_queue ∷ is) s = do
    s' ← stream_round end_of_queue s
    conns ← close_all s'.pool s'.conns
    ok (record s' { conns = conns })
  stream (packet p ∷ is) s = do s' ← stream_round (packet p) s; stream is s'
  stream (request r ∷ is) s = do s' ← stream_round (request r) s; stream is s'
