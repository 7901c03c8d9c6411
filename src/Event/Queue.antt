-- ===== src/Event/Queue.antt =====
-- event/queue.go: the notification queue with its connection counter and its hysteresis.
pub mod Counter
pub mod Hysteresis
pub mod Registry
use restreamer.Prelude.{
  ℕ, suc, ◌+◌, ◌-◌, ◌≡◌, Bool, true, false, not, ◌&&◌, List, [], ◌∷◌, ◌++◌, map, Option, none, some,
  nat_eq, Map, lookup, assign, delete, leb, ltb, ◌==◌, if◌then◌else◌,
}
use restreamer.Prelude.Int.{ℤ, pos, negsuc}

-- math.MaxInt32
abbrev pub max_int32 : ℕ
max_int32 = 2147483647

-- The kinds of event.
pub data EventType : Type 0 where
  limit_hit limit_miss heartbeat : EventType

-- A change of the number of connections, or a heartbeat at a time.
pub data StateChange : Type 0 where
  connect : ℤ → StateChange
  beat : ℕ → StateChange

-- What a handler receives: the kind, and the arguments of HandleEvent.
pub data Event : Type 0 where
  hit miss : ℕ → ℕ → ℕ → Event
  heartbeat_at : ℕ → Event

-- Handlers are numbered; each kind of event has a map of those that are enabled.
pub record Queue : Type 0 where
  pub limit : ℕ
  pub on_hit : Map ℕ Bool
  pub on_miss : Map ℕ Bool
  pub on_heartbeat : Map ℕ Bool
  pub connections : ℕ
  pub running : Bool

-- The first unsigned number that `int` makes negative.
abbrev pub first_negative : ℕ
first_negative = 9223372036854775808

-- For a limit that is not negative. NewQueue panics for a negative one: its only caller tests the
-- limit with `first_negative`, see Main/Notifications.antt.
unfoldable pub new_queue : ℕ → Queue
new_queue limit = record {
  limit = limit;
  on_hit = [];
  on_miss = [];
  on_heartbeat = [];
  connections = 0;
  running = false;
}

-- `for handler, ok := range handlers { if ok { handler.HandleEvent(event) } }`
unfoldable pub notify : Map ℕ Bool → Event → List (ℕ × Event)
notify [] event = []
notify ((handler, ok) ∷ handlers) event =
    if ok then (handler, event) ∷ notify handlers event else notify handlers event

-- The new count: at 0 if it would fall below, at math.MaxInt32 if it would rise above.
unfoldable pub new_count : ℕ → ℤ → ℕ
new_count connections (pos n) =
    if ltb (max_int32 - connections) n then max_int32 else connections + n
new_count connections (negsuc n) = if ltb connections (suc n) then 0 else connections - suc n

-- The calls of handlers when the count changes from one number to another.
unfoldable pub transition : Queue → ℕ → List (ℕ × Event)
transition q newconn =
    if q.limit == 0
    then []
    else if leb q.limit q.connections
    then (if ltb newconn q.limit then notify q.on_miss (miss q.connections newconn q.limit) else [])
    else if leb q.limit newconn
    then notify q.on_hit (hit q.connections newconn q.limit)
    else []

unfoldable pub handle_connect : Queue → ℤ → Queue × List (ℕ × Event)
handle_connect q connected =
    let newconn = new_count q.connections connected in
    (record q { connections = newconn }, transition q newconn)

unfoldable pub handle_heartbeat : Queue → ℕ → List (ℕ × Event)
handle_heartbeat q when = notify q.on_heartbeat (heartbeat_at when)

unfoldable pub handle : Queue → StateChange → Queue × List (ℕ × Event)
unfolding handle_connect handle_heartbeat
handle q (connect n) = handle_connect q n
handle q (beat when) = (q, handle_heartbeat q when)

-- The reporting goroutine: what it does with the messages that it takes from the channel before it
-- sees the shutdown. What is left then is drained unread, and the queue stops running.
unfoldable pub consume : Queue → List StateChange → Queue × List (ℕ × Event)
consume q [] = (q, [])
consume q (m ∷ ms) =
    let (q', calls) = handle q m in let (q'', later) = consume q' ms in (q'', calls ++ later)

unfoldable pub run : Queue → List StateChange → Queue × List (ℕ × Event)
unfolding consume
run q ms = let (q', calls) = consume q ms in (record q' { running = false }, calls)

-- Start does nothing but log if the queue runs already.
unfoldable pub start : Queue → Queue
start q = if q.running then q else record q { running = true }

abbrev pub handlers_of : EventType → Queue → Map ℕ Bool
handlers_of limit_hit q = q.on_hit
handlers_of limit_miss q = q.on_miss
handlers_of heartbeat q = q.on_heartbeat

abbrev pub with_handlers : EventType → Map ℕ Bool → Queue → Queue
with_handlers limit_hit m q = record q { on_hit = m }
with_handlers limit_miss m q = record q { on_miss = m }
with_handlers heartbeat m q = record q { on_heartbeat = m }

unfoldable pub register_event_handler : EventType → ℕ → Queue → Queue
register_event_handler typ handler q =
    if q.running then q else with_handlers typ (assign handler true (handlers_of typ q)) q

unfoldable pub unregister_event_handler : EventType → ℕ → Queue → Queue
unregister_event_handler typ handler q =
    if q.running then q else elim (lookup handler (handlers_of typ q)) [
      | none ↦ q
      | some _ ↦ with_handlers typ (delete handler (handlers_of typ q)) q
    ]
