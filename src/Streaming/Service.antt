-- ===== src/Streaming/Service.antt =====
-- streaming/streamer.go, ServeHTTP: the handlers of many clients beside the streaming loop, with
-- the broker of streaming/acl.go. A schedule is the order in which their steps happen; what two
-- goroutines do over an unbuffered channel is one step.
pub mod Phases
pub mod Invariant
pub mod Handlers
pub mod Removal
pub mod Visiting
pub mod Safety
pub mod Effects
pub mod Slots
pub mod Portions
pub mod Feed
pub mod Served
pub mod Feeding
pub mod Admission
pub mod Turns
pub mod Delivery
use restreamer.Prelude.{
  ℕ, ◌≡◌, Bool, true, false, not, ◌&&◌, List, [], ◌∷◌, ◌++◌, Option, none, some, Text, ◌==◌,
  if◌then◌else◌,
}
use restreamer.Prelude.Int.{pos, negsuc}
use restreamer.Prelude.Http.{Header, new_response}
use restreamer.Prelude.Channel.{Outcome, ok, panic, ◌>>=◌}
use restreamer.Auth.{handle_http_authentication}
use restreamer.Event.Queue.{StateChange, connect}
use restreamer.Streaming.Acl.{AccessController}
use restreamer.Streaming.Acl
use restreamer.Streaming.Connection.{
  Packet, Connection, Ready, new_connection, serve_start, serve_round, serve_stream_error,
}
use restreamer.Streaming.Streamer.{
  ConnectionBroker, ConnectionRequest, Streamer, Command, Input, add, remove, inhibit, allow,
  connection_added, connection_removed, packet, end_of_queue, request, begin_stream, handle_request,
  stream_round, stream,
}
use restreamer.Streaming.Streamer.Heap.{update}

-- The access controller as the streamer's broker.
abbrev pub acl_broker : ConnectionBroker
acl_broker = record {
  State = AccessController;
  accept = λ address control. Acl.accept control;
  release = λ control. (Acl.release control).0;
}

-- Where a handler stands: before its request, sent away, in Serve, about to send the removal,
-- draining the queue, and done.
pub data Phase : Type 0 where
  idle rejected serving leaving draining finished : Phase

-- `notices` are the calls of NotifyConnect.
pub record Service : Type 0 where
  pub streamer : Streamer acl_broker
  pub phase : ℕ → Phase
  pub notices : List StateChange

abbrev pub set_phase : (ℕ → Phase) → ℕ → Phase → ℕ → Phase
set_phase phase c p d = if c == d then p else phase d

-- A request of a client: its number, address and header, the time, and whether the write of the
-- preamble succeeds.
pub record Visit : Type 0 where
  pub client : ℕ
  pub address : Text
  pub header : Header
  pub now : Text
  pub preamble_written : Bool

-- The refusal of a request: the streamer is offline or full.
unfoldable pub refuse : Visit → Streamer acl_broker → Service → Service
refuse v s w =
    let conn = s.conns v.client in
    record w {
      streamer = record s {
        conns =
            update s.conns v.client
              (record conn { writer = serve_stream_error v.now 404 conn.writer });
      };
      phase = set_phase w.phase v.client rejected;
    }

-- The connection was added: reports, and the begin of Serve.
unfoldable pub admit : Visit → Streamer acl_broker → Service → Service
admit v s w =
    let (conn, running) = serve_start v.now s.preamble v.preamble_written (s.conns v.client) in
    record w {
      streamer = record s {
        conns = update s.conns v.client conn;
        reports = s.reports ++ (connection_added ∷ []);
      };
      phase = set_phase w.phase v.client (if running then serving else leaving);
      notices = w.notices ++ (connect (pos 1) ∷ []);
    }

-- From the authentication to the answer of the loop, or of the goroutine that eats requests.
unfoldable pub visit : Visit → Service → Outcome Service
unfolding refuse admit
visit v w =
    let s = w.streamer in
    let (response, may_pass) = handle_http_authentication s.auth v.header new_response in
    let conn = new_connection response s.queue_size v.address in
    let s' = record s { conns = update s.conns v.client conn } in
    if not may_pass
    then ok (record w { streamer = s'; phase = set_phase w.phase v.client rejected })
    else if s.running
    then (do
      (s'', accepted) ←
          handle_request acl_broker
            (record { command = add; address = v.address; connection = v.client }) s'
      ok (if accepted then admit v s'' w else refuse v s'' w))
    else ok (refuse v s' w)

-- One round of Serve.
unfoldable pub serve_step : ℕ → Ready → Service → Service
serve_step c r w =
    let s = w.streamer in
    let (conn, running) = serve_round r (s.conns c) in
    record w {
      streamer = record s { conns = update s.conns c conn };
      phase = set_phase w.phase c (if running then serving else leaving);
    }

-- The removal is handled by the loop, or eaten.
unfoldable pub remove_step : ℕ → Service → Outcome Service
remove_step c w =
    let s = w.streamer in
    let phase = set_phase w.phase c draining in
    if s.running
    then (do
      (s', _) ←
          handle_request acl_broker
            (record { command = remove; address = (s.conns c).client_address; connection = c }) s
      ok (record w { streamer = s'; phase = phase }))
    else ok (record w { phase = phase })

-- `for range conn.Queue` ends when the queue is closed; then come the reports and the release.
unfoldable pub drain_step : ℕ → Service → Service
drain_step c w =
    let s = w.streamer in
    let conn = s.conns c in
    if conn.queue.is_closed
    then record w {
      streamer = record s {
        conns = update s.conns c (record conn { queue = record (conn.queue) { items = [] } });
        reports = s.reports ++ (connection_removed ∷ []);
        policy = (Acl.release s.policy).0;
      };
      phase = set_phase w.phase c finished;
      notices = w.notices ++ (connect (negsuc 0) ∷ []);
    }
    else w

-- The steps of the loop, of its upstream and of the handlers.
pub data Action : Type 0 where
  begins loses inhibits allows : Action
  gets : Packet → Action
  visits : Visit → Action
  serves : ℕ → Ready → Action
  removes drains : ℕ → Action

abbrev pub with_streamer : Service → Streamer acl_broker → Service
with_streamer w s = record w { streamer = s }

-- A step of the loop, which does nothing while it does not run.
loop_step : List Input → Service → Outcome Service
loop_step is w =
    if w.streamer.running
    then (do s ← stream acl_broker is w.streamer; ok (record w { streamer = s }))
    else ok w

command_step : Command → Service → Outcome Service
unfolding loop_step
command_step command =
    loop_step (request (record { command = command; address = []; connection = 0 }) ∷ [])

-- A step that is not possible in the phase of its handler changes nothing.
pub handler_step : Action → Phase → Service → Outcome Service
unfolding visit serve_step remove_step drain_step
handler_step (visits v) idle w = visit v w
handler_step (serves c r) serving w = ok (serve_step c r w)
handler_step (removes c) leaving w = remove_step c w
handler_step (drains c) draining w = ok (drain_step c w)
handler_step _ _ w = ok w

unfoldable pub step : Action → Service → Outcome Service
unfolding loop_step command_step handler_step
step begins w = ok (record w { streamer = (begin_stream acl_broker w.streamer).0 })
step loses w = loop_step (end_of_queue ∷ []) w
step inhibits w = command_step inhibit w
step allows w = command_step allow w
step (gets p) w = loop_step (packet p ∷ []) w
step (visits v) w = handler_step (visits v) (w.phase v.client) w
step (serves c r) w = handler_step (serves c r) (w.phase c) w
step (removes c) w = handler_step (removes c) (w.phase c) w
step (drains c) w = handler_step (drains c) (w.phase c) w

unfoldable pub run : List Action → Service → Outcome Service
run [] w = ok w
run (a ∷ actions) w = do w' ← step a w; run actions w'
