-- ===== src/Main/Registering.antt =====
-- Registering handlers for the events of a queue, of which nil may be one.
use mathlib.Core.Path.{subst}
use restreamer.Prelude.{
  ℕ, zero, suc, ◌≡◌, refl, ap, ◌∙◌, inl, inr, Bool, true, false, List, [], ◌∷◌, ◌⊎◌, Map, assign,
  nat_eq, ◌==◌, ◌||◌, arith, if◌then◌else◌,
}
use restreamer.Prelude.Channel.{Outcome, ok, panic, ◌>>=◌}
use restreamer.Event.Queue.{
  Queue, EventType, limit_hit, limit_miss, heartbeat, Event, notify, handlers_of, with_handlers,
  register_event_handler,
}
use restreamer.Event.Queue.Registry.{called}
use restreamer.Event.UrlHandler.{UrlHandler, GetRequest}
use restreamer.Main.Notifications.{call_handler, call_handlers}

-- Calling nil among others.
pub called-panics :
    (hs : List UrlHandler) (calls : List (ℕ × Event))
    → called 0 calls ≡ true
    → call_handlers hs calls ≡ panic
unfolding called call_handlers
called-panics hs [] h = cc
called-panics hs ((zero, e) ∷ calls) h = refl
called-panics hs ((suc i, e) ∷ calls) h =
    after (call_handler hs (suc i)) (called-panics hs calls (rest h))
  where
    rest : (suc i == 0 || called 0 calls) ≡ true → called 0 calls ≡ true
    rest h = ground arith

    after :
        (o : Outcome GetRequest)
        → call_handlers hs calls ≡ panic
        → (o >>= (λ request. call_handlers hs calls >>= (λ rest. ok (request ∷ rest)))) ≡ panic
    after (ok request) p =
        ap (λ (x : Outcome (List GetRequest)). x >>= (λ rest. ok (request ∷ rest))) p
    after panic p = refl

pub called-assign_keeps :
    (h k : ℕ) (m : Map ℕ Bool) (e : Event)
    → called h (notify m e) ≡ true
    → called h (notify (assign k true m) e) ≡ true
unfolding called notify assign
called-assign_keeps h k [] e c = cc
called-assign_keeps h k ((j, enabled) ∷ m) e c = ground (arith, called-assign_keeps h k m e)

-- Handlers of one kind are replaced, those of the others are kept.
pub with_handlers-kept :
    (typ typ' : EventType) (m : Map ℕ Bool) (q : Queue)
    → (handlers_of typ (with_handlers typ' m q) ≡ handlers_of typ q)
      ⊎ ((typ ≡ typ') × (handlers_of typ (with_handlers typ' m q) ≡ m))
with_handlers-kept limit_hit limit_hit m q = inr (refl, refl)
with_handlers-kept limit_miss limit_miss m q = inr (refl, refl)
with_handlers-kept heartbeat heartbeat m q = inr (refl, refl)
with_handlers-kept limit_hit limit_miss m q = inl refl
with_handlers-kept limit_hit heartbeat m q = inl refl
with_handlers-kept limit_miss limit_hit m q = inl refl
with_handlers-kept limit_miss heartbeat m q = inl refl
with_handlers-kept heartbeat limit_hit m q = inl refl
with_handlers-kept heartbeat limit_miss m q = inl refl

pub handlers_of-with_handlers :
    (typ : EventType) (m : Map ℕ Bool) (q : Queue) → handlers_of typ (with_handlers typ m q) ≡ m
handlers_of-with_handlers limit_hit m q = refl
handlers_of-with_handlers limit_miss m q = refl
handlers_of-with_handlers heartbeat m q = refl

pub running-with_handlers :
    (typ : EventType) (m : Map ℕ Bool) (q : Queue) → (with_handlers typ m q).running ≡ q.running
running-with_handlers limit_hit m q = refl
running-with_handlers limit_miss m q = refl
running-with_handlers heartbeat m q = refl

-- A registration on a queue that does not run.
pub registers :
    (typ : EventType) (k : ℕ) (q : Queue)
    → q.running ≡ false
    → register_event_handler typ k q ≡ with_handlers typ (assign k true (handlers_of typ q)) q
unfolding register_event_handler
registers typ k q r =
    ap (λ (b : Bool). if b then q else with_handlers typ (assign k true (handlers_of typ q)) q) r

-- Nil is called for an event.
abbrev pub CallsNil : EventType → Event → Queue → Type 0
CallsNil typ e q = called 0 (notify (handlers_of typ q) e) ≡ true

pub CallsNil-registered :
    (typ typ' : EventType) (k : ℕ) (e : Event) (q : Queue)
    → CallsNil typ e q
    → CallsNil typ e (with_handlers typ' (assign k true (handlers_of typ' q)) q)
CallsNil-registered typ typ' k e q c =
    elim (with_handlers-kept typ typ' (assign k true (handlers_of typ' q)) q) [
      | inl same ↦ ap (λ (m : Map ℕ Bool). called 0 (notify m e)) same ∙ c
      | inr (kind, new) ↦
          ap (λ (m : Map ℕ Bool). called 0 (notify m e)) new
          ∙ called-assign_keeps 0 k (handlers_of typ' q) e
              (subst (λ (x : EventType). CallsNil x e q) kind c)
    ]
