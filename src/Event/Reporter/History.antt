-- ===== src/Event/Reporter/History.antt =====
-- Whole histories of calls and rounds, up to a call of Shutdown.
use mathlib.Core.List.Sublist
use mathlib.Core.List.{append_assoc}
use mathlib.Core.Path.{subst}
use restreamer.Prelude.{
  ◌≤◌, ◌≡◌, refl, ap, ◌∙◌, inl, inr, Bool, true, false, ◌&&◌, List, [], ◌∷◌, ◌++◌, Option, none,
  some, length, arith, Bool-cases, if◌then◌else◌, All, ltb,
}
use restreamer.Prelude.Channel.{Channel, Outcome, ok, OnOk, ◌>>=◌}
use restreamer.Event.Queue.{Queue, StateChange, consume}
use restreamer.Event.Reporter.{
  Reporter, queue_size, new_reporter, send, Action, starts, shuts_down, takes, stops, notifies,
  step, run,
}
use restreamer.Event.Reporter.Operations.{waiting, IsBounded, IsOpen, Reports}
use restreamer.Event.Reporter.Steps.{is_kept_up, Goes, silent, step-Goes}

false_right : (a b : Bool) → b ≡ false → (a && b) ≡ false
false_right a b e = ground arith

-- With an open channel, or nil, a send does not panic.
send_ok :
    (m : StateChange) (r : Reporter) (n : Option (Channel StateChange))
    → IsOpen n
    → (x : Reporter × Bool) × (send m (record r { notifier = n }) ≡ ok x)
unfolding send
send_ok m r none o = (_, refl)
send_ok m r (some channel) o = elim (Bool-cases (ltb (length channel.items) channel.capacity)) [
  | inl room ↦ (
    (record r { notifier = some (record channel { items = channel.items ++ (m ∷ []) }) }, true),
    simp (o, room),
  )
  | inr full ↦ ((record r { notifier = some channel }, false), simp (o, full))
]

-- Before a call of Shutdown no step panics.
step_ok :
    (q₀ : Queue) (a : Action) (ms : List StateChange) (r : Reporter)
    → Reports q₀ true ms r
    → is_kept_up a ≡ true
    → (x : Reporter × List StateChange) × (step a r ≡ ok x)
unfolding step
step_ok q₀ starts ms r f k = (_, refl)
step_ok q₀ shuts_down ms r f k = cc
step_ok q₀ takes ms r f k = (_, refl)
step_ok q₀ stops ms r f k =
    ((r, []), rw (false_right r.looping r.shutdown (f.complete refl).1) refl)
step_ok q₀ (notifies m) ms r f k =
    let (x, e) = send_ok m r r.notifier (f.complete refl).2 in
    (_, ap (λ (o : Outcome (Reporter × Bool)). o >>= λ y. ok (y.0, if y.1 then m ∷ [] else [])) e)

run_ok :
    (q₀ : Queue) (actions : List Action) (ms : List StateChange) (r : Reporter)
    → Reports q₀ true ms r
    → All (λ a. is_kept_up a ≡ true) actions
    → (x : Reporter × List StateChange) × (run actions r ≡ ok x) × Reports q₀ true (ms ++ x.1) x.0
unfolding run
run_ok q₀ [] ms r f k = ((r, []), refl, silent q₀ true ms r f)
run_ok q₀ (a ∷ actions) ms r f k =
    let (x, e) = step_ok q₀ a ms r f k.0 in
    let f' : Reports q₀ (is_kept_up a && true) (ms ++ x.1) x.0 =
      subst (OnOk (Goes q₀ (is_kept_up a && true) ms)) e (step-Goes q₀ a true ms r f) in
    let f'' : Reports q₀ true (ms ++ x.1) x.0 =
      subst (λ b. Reports q₀ (b && true) (ms ++ x.1) x.0) k.0 f' in
    let (y, e', g) = run_ok q₀ actions (ms ++ x.1) x.0 f'' k.1 in
    (
      (y.0, x.1 ++ y.1),
      ap (λ (o : Outcome (Reporter × List StateChange)). o >>= after) e
          ∙ ap (λ (o : Outcome (Reporter × List StateChange)). o >>= λ z. ok (z.0, x.1 ++ z.1)) e',
      subst (λ l. Reports q₀ true l y.0) (append_assoc ms x.1 y.1) g,
    )
  where
    after : Reporter × List StateChange → Outcome (Reporter × List StateChange)
    after (r', sent) = run actions r' >>= λ z. ok (z.0, sent ++ z.1)

-- What a reporter has done with the messages that were sent to it.
pub record Reported (q : Queue) (sent : List StateChange) (r : Reporter) : Type 0 where
  pub handled : List StateChange
  pub in_order : handled ++ waiting r.notifier ≡ sent
  pub room : length (waiting r.notifier) ≤ queue_size
  pub calls : r.calls ≡ (consume q handled).1
  pub count : r.queue.connections ≡ (consume q handled).0.connections

bounded_room : (n : Option (Channel StateChange)) → IsBounded n → length (waiting n) ≤ queue_size
bounded_room none b = omega arith
bounded_room (some channel) b = b.1

-- A queue that does not run yet: over any history of calls of Start, NotifyConnect and
-- NotifyHeartbeat and of rounds of the goroutine, there is no panic. The messages that were sent are
-- those that were handled, in this order, and then at most ten that wait in the channel. The handlers
-- were called, and connections were counted, as by handling these messages one after the other.
pub history-Reported :
    (q : Queue) (actions : List Action)
    → q.running ≡ false
    → All (λ a. is_kept_up a ≡ true) actions
    → (r : Reporter) × (sent : List StateChange) × (run actions (new_reporter q) ≡ ok (r, sent))
      × Reported q sent r
unfolding consume
history-Reported q actions off kept =
    let f : Reports q true [] (new_reporter q) = record {
      handled = [];
      queue = refl;
      calls = refl;
      in_order = Sublist.refl [];
      bounded = tt;
      idle = λ e. (refl, tt);
      complete = λ c. (refl, refl, tt);
    } in
    let (x, e, g) = run_ok q actions [] (new_reporter q) f kept in
    (
      x.0,
      x.1,
      e,
      record {
        handled = g.handled;
        in_order = (g.complete refl).0;
        room = bounded_room x.0.notifier g.bounded;
        calls = g.calls;
        count = ap (λ (k : Queue). k.connections) g.queue;
      },
    )
