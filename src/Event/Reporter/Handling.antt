-- ===== src/Event/Reporter/Handling.antt =====
-- Handling messages one after the other, and starting.
use mathlib.Core.List.{append_assoc, append-nil}
use restreamer.Prelude.{ℕ, ◌≡◌, refl, sym, ap, ◌∙◌, Bool, true, false, List, [], ◌∷◌, ◌++◌, some}
use restreamer.Prelude.Channel.{new_channel}
use restreamer.Event.Queue.{
  transition, Queue, StateChange, connect, beat, Event, handle, consume, start,
}
use restreamer.Event.Reporter.{Reporter, queue_size, start_reporter}

abbrev pub set_running : Bool → Queue → Queue
set_running b q = record q { running = b }

pub consume_queue :
    (q : Queue) (ms : List StateChange) (m : StateChange)
    → (consume q (ms ++ (m ∷ []))).0 ≡ (handle (consume q ms).0 m).0
unfolding consume
consume_queue q [] m = refl
consume_queue q (n ∷ ms) m = consume_queue (handle q n).0 ms m

pub consume_calls :
    (q : Queue) (ms : List StateChange) (m : StateChange)
    → (consume q (ms ++ (m ∷ []))).1 ≡ (consume q ms).1 ++ (handle (consume q ms).0 m).1
unfolding consume
consume_calls q [] m = append-nil (handle q m).1
consume_calls q (n ∷ ms) m =
    ap (λ (l : List (ℕ × Event)). (handle q n).1 ++ l) (consume_calls (handle q n).0 ms m)
    ∙ sym (append_assoc (handle q n).1 _ _)

-- The flag `running` plays no part in handling a message.
pub handle_running :
    (b : Bool) (q : Queue) (m : StateChange)
    → handle (set_running b q) m ≡ (set_running b (handle q m).0, (handle q m).1)
unfolding handle transition
handle_running b q (connect z) = refl
handle_running b q (beat t) = refl

pub handle_same :
    (b : Bool) (q q' : Queue) (m : StateChange)
    → q ≡ set_running b q'
    → ((handle q m).0 ≡ set_running b (handle q' m).0)
      × ((handle q m).1 ≡ (handle q' m).1)
      × ((handle q m).0.running ≡ b)
handle_same b q q' m e =
    let same = ap (λ (k : Queue). handle k m) e ∙ handle_running b q' m in
    (ap (λ x. x.0) same, ap (λ x. x.1) same, ap (λ x. x.0.running) same)

pub nonempty : (m : StateChange) (rest : List StateChange) → m ∷ rest ≡ [] → ⊥
nonempty m rest e = cc

pub start_again : (r : Reporter) → r.queue.running ≡ true → start_reporter r ≡ r
unfolding start_reporter
start_again r on = simp on

pub start_stopped :
    (r : Reporter)
    → r.queue.running ≡ false
    → start_reporter r ≡ record r {
      queue = set_running true r.queue;
      notifier = some (new_channel queue_size);
      shutdown = false;
      looping = true;
    }
unfolding start_reporter start
start_stopped r off = simp off
