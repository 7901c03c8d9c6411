-- ===== src/Main/Notifications.antt =====
-- cmd/restreamer/restreamer.go: how main sets up the notification queue and its handlers.
use restreamer.Prelude.{
  leb, ℕ, zero, suc, get_elem?, ◌&&◌, Bool, true, false, ◌||◌, List, [], ◌∷◌, ◌++◌, Option, none,
  some, Text, text_eq, nat_eq, codes, text_beq, length, ◌==◌, if◌then◌else◌,
}
use restreamer.Prelude.Channel.{Outcome, ok, panic, ◌>>=◌}
use restreamer.Configuration.{Configuration, Notification}
use restreamer.Auth.{new_authenticator, new_user_authenticator}
use restreamer.Event.Queue.{
  Queue, EventType, limit_hit, limit_miss, heartbeat, Event, new_queue, first_negative,
  register_event_handler, start,
}
use restreamer.Event.UrlHandler.{UrlHandler, GetRequest, new_url_handler, handle_event}
use restreamer.Main.{Setup}

-- The type of an event; none is an error.
abbrev pub event_type : Text → Option EventType
event_type e =
    if text_beq e (codes "limit_hit")
    then some limit_hit
    else if text_beq e (codes "limit_miss")
    then some limit_miss
    else if text_beq e (codes "heartbeat")
    then some heartbeat
    else none

abbrev is_heartbeat : EventType → Bool
is_heartbeat limit_hit = false
is_heartbeat limit_miss = false
is_heartbeat heartbeat = true

-- The queue, the handlers that were made, and whether the heartbeat is enabled. A handler is
-- registered by its number: 0 is nil, and any other is one more than an index.
pub record Notifications : Type 0 where
  pub queue : Queue
  pub handlers : List UrlHandler
  pub enable_heartbeat : Bool

-- A registration, of a handler that was made or of nil.
abbrev pub register : EventType → Option UrlHandler → Notifications → Notifications
register typ none n = record n {
  queue = register_event_handler typ 0 n.queue;
  enable_heartbeat = n.enable_heartbeat || is_heartbeat typ;
}
register typ (some h) n = record n {
  queue = register_event_handler typ (suc (length n.handlers)) n.queue;
  handlers = n.handlers ++ (h ∷ []);
  enable_heartbeat = n.enable_heartbeat || is_heartbeat typ;
}

-- The body of the loop over the notifications. A URL that cannot be parsed sets another variable
-- `err`, so nil is registered.
unfoldable pub configure_notification :
    Setup → Configuration → Notification → Notifications → Notifications
configure_notification env config note n =
    if text_beq note.type (codes "url")
    then elim (event_type note.event) [
      | none ↦ n
      | some typ ↦
          register typ
            (new_url_handler env.parse note.url (
              new_user_authenticator note.authentication
                (new_authenticator note.authentication config.user_list)))
            n
    ]
    else n

unfoldable pub configure_notifications :
    Setup → Configuration → List Notification → Notifications → Notifications
unfolding configure_notification
configure_notifications env config [] n = n
configure_notifications env config (note ∷ notes) n =
    configure_notifications env config notes (configure_notification env config note n)

-- The queue is started. NewQueue panics for a limit that is negative as an `int`, and time.NewTicker
-- for an interval of 0.
unfoldable pub set_up_queue : Setup → Configuration → Outcome Notifications
unfolding configure_notifications
set_up_queue env config =
    let n = configure_notifications env config config.notifications (record {
      queue = new_queue config.full_connections;
      handlers = [];
      enable_heartbeat = false;
    }) in
    if leb first_negative config.full_connections
    then panic
    else if n.enable_heartbeat && config.heartbeat_interval == 0
    then panic
    else ok (record n { queue = start n.queue })

-- The calls of handlers by the queue: nil has no method.
abbrev pub call_handler : List UrlHandler → ℕ → Outcome GetRequest
call_handler hs zero = panic
call_handler hs (suc i) = elim (get_elem? hs i) [ none ↦ panic | some h ↦ ok (handle_event h) ]

unfoldable pub call_handlers : List UrlHandler → List (ℕ × Event) → Outcome (List GetRequest)
call_handlers hs [] = ok []
call_handlers hs ((h, e) ∷ calls) = do
  request ← call_handler hs h
  rest ← call_handlers hs calls
  ok (request ∷ rest)
