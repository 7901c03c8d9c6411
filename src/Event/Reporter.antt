-- ===== src/Event/Reporter.antt =====
-- event/queue.go: the reporting goroutine of the queue, with the channels through which it is told.
-- A history is a list of calls and of rounds of the goroutine, in the order in which they happen.
pub mod Handling
pub mod Operations
pub mod Steps
pub mod History
use restreamer.Prelude.{
  ℕ, Bool, true, false, ◌&&◌, List, [], ◌∷◌, ◌++◌, Option, none, some, if◌then◌else◌,
}
use restreamer.Prelude.Channel.{
  Channel, Outcome, ok, panic, ◌>>=◌, new_channel, try_send, close, receive, value, at_end, blocks,
}
use restreamer.Event.Queue.{Queue, StateChange, Event, start, handle}

-- queueSize
abbrev pub queue_size : ℕ
queue_size = 10

-- The queue with the channel `notifier`, which is nil before Start; whether the channel `shutdown`
-- is closed; whether the goroutine is in its loop; and the calls of handlers so far.
pub record Reporter : Type 0 where
  pub queue : Queue
  pub notifier : Option (Channel StateChange)
  pub shutdown : Bool
  pub looping : Bool
  pub calls : List (ℕ × Event)

-- A queue with its handlers, before Start.
abbrev pub new_reporter : Queue → Reporter
new_reporter q = record {
  queue = q;
  notifier = none;
  shutdown = false;
  looping = false;
  calls = [];
}

unfoldable pub start_reporter : Reporter → Reporter
unfolding start
start_reporter r = if r.queue.running then r else record r {
  queue = start r.queue;
  notifier = some (new_channel queue_size);
  shutdown = false;
  looping = true;
}

-- NotifyConnect and NotifyHeartbeat; the result tells if the message was sent. If not, the caller
-- waits: for room, or for good if the channel is nil.
unfoldable pub send : StateChange → Reporter → Outcome (Reporter × Bool)
send message r = elim r.notifier [
  | none ↦ ok (r, false)
  | some channel ↦ do
    (channel', sent) ← try_send message channel
    ok (record r { notifier = some channel' }, sent)
]

-- Shutdown, up to the wait for the goroutine.
unfoldable pub shut_down : Reporter → Outcome Reporter
shut_down r =
    if r.queue.running
    then if r.shutdown then panic else ok (record r { shutdown = true })
    else ok r

-- A round of the loop that finds a message.
unfoldable pub take_message : Reporter → Reporter
take_message r = elim r.notifier [
  | none ↦ r
  | some channel ↦ elim (receive channel) [
    | value message rest ↦
        let (queue, calls) = handle r.queue message in
        record r { queue = queue; notifier = some rest; calls = r.calls ++ calls }
    | at_end ↦ r
    | blocks ↦ r
  ]
]

-- A round that sees the shutdown: what waits in the channel is drained.
unfoldable pub end_loop : Reporter → Outcome Reporter
end_loop r = elim r.notifier [
  | none ↦ ok r
  | some channel ↦ do
    closed ← close channel
    ok (record r {
      queue = record (r.queue) { running = false };
      notifier = some (record closed { items = [] });
      looping = false;
    })
]

pub data Action : Type 0 where
  starts shuts_down takes stops : Action
  notifies : StateChange → Action

-- A step, and the message that was sent by it.
unfoldable pub step : Action → Reporter → Outcome (Reporter × List StateChange)
unfolding start_reporter send shut_down take_message end_loop
step starts r = ok (start_reporter r, [])
step shuts_down r = do r' ← shut_down r; ok (r', [])
step (notifies message) r = do
  (r', sent) ← send message r
  ok (r', if sent then message ∷ [] else [])
step takes r = ok (if r.looping then take_message r else r, [])
step stops r = if r.looping && r.shutdown then (do r' ← end_loop r; ok (r', [])) else ok (r, [])

-- A history, with the messages that were sent.
unfoldable pub run : List Action → Reporter → Outcome (Reporter × List StateChange)
run [] r = ok (r, [])
run (a ∷ actions) r = do
  (r', sent) ← step a r
  (r'', later) ← run actions r'
  ok (r'', sent ++ later)
