-- ===== src/Event/Queue/Registry.antt =====
-- Registering handlers, and who is called.
use restreamer.Prelude.{
  ℕ, ◌≡◌, refl, Bool, true, false, List, [], ◌∷◌, none, arith, ◌==◌, ◌||◌, nat_eq, Map, lookup,
  assign, delete,
}
use restreamer.Event.Queue.{
  Queue, EventType, limit_hit, limit_miss, heartbeat, Event, handlers_of, notify,
  register_event_handler, unregister_event_handler,
}

-- Is the handler among those called?
unfoldable pub called : ℕ → List (ℕ × Event) → Bool
called handler [] = false
called handler ((h, e) ∷ calls) = h == handler || called handler calls

pub called-assign :
    (handler : ℕ) (m : Map ℕ Bool) (e : Event)
    → called handler (notify (assign handler true m) e) ≡ true
unfolding called notify assign
called-assign handler [] e = ground arith
called-assign handler ((h, ok) ∷ m) e = ground (arith, called-assign handler m e)

called-delete :
    (handler : ℕ) (m : Map ℕ Bool) (e : Event)
    → called handler (notify (delete handler m) e) ≡ false
unfolding called notify delete
called-delete handler [] e = refl
called-delete handler ((h, ok) ∷ m) e = ground (arith, called-delete handler m e)

not_registered :
    (handler : ℕ) (m : Map ℕ Bool) (e : Event)
    → lookup handler m ≡ none
    → called handler (notify m e) ≡ false
unfolding called notify lookup
not_registered handler [] e h = refl
not_registered handler ((h, ok) ∷ m) e n = ground (arith, not_registered handler m e)

-- On a queue that does not run, for every kind of event: after a handler was registered the event
-- is passed to it, and after it was unregistered the event is not.
pub registration :
    (typ : EventType) (handler : ℕ) (q : Queue) (e : Event)
    → q.running ≡ false
    → (called handler (notify (handlers_of typ (register_event_handler typ handler q)) e) ≡ true)
      × (called handler (notify (handlers_of typ (unregister_event_handler typ handler q)) e)
          ≡ false)
unfolding register_event_handler unregister_event_handler
registration limit_hit handler q e r = ground (
  arith,
  called-assign handler q.on_hit e,
  called-delete handler q.on_hit e,
  not_registered handler q.on_hit e,
)
registration limit_miss handler q e r = ground (
  arith,
  called-assign handler q.on_miss e,
  called-delete handler q.on_miss e,
  not_registered handler q.on_miss e,
)
registration heartbeat handler q e r = ground (
  arith,
  called-assign handler q.on_heartbeat e,
  called-delete handler q.on_heartbeat e,
  not_registered handler q.on_heartbeat e,
)
