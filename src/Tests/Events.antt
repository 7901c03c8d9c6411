-- ===== src/Tests/Events.antt =====
-- event: a queue with the limit 2.
use restreamer.Prelude.{◌≡◌, refl, leb, List, [], ◌∷◌, arith, nat_eq, assign}
use restreamer.Prelude.Int.{pos, negsuc}
use restreamer.Event.Queue.{
  Queue, hit, miss, connect, beat, StateChange, new_queue, register_event_handler, limit_hit,
  limit_miss, consume, handle, notify, new_count, transition,
}
use restreamer.Event.Reporter.{Reporter, new_reporter, Action, starts, notifies, takes, stops}
use restreamer.Event.Reporter
use restreamer.Event.Reporter.History.{Reported, history-Reported}
use restreamer.Prelude.Channel.{ok}
use restreamer.Event.Queue.Hysteresis.{Watched, Alternates, consume-Alternates}

abbrev watched : Queue
watched = register_event_handler limit_miss 7 (register_event_handler limit_hit 7 (new_queue 2))

abbrev traffic : List StateChange
traffic = connect (pos 1) ∷ connect (pos 1) ∷ beat 5 ∷ connect (pos 1) ∷ connect (negsuc 3) ∷ []

reports : (consume watched traffic).1 ≡ (7, hit 1 2 2) ∷ (7, miss 3 0 2) ∷ []
unfolding consume handle register_event_handler new_queue assign new_count transition notify
reports = refl

watched-Watched : Watched 7 watched
unfolding register_event_handler new_queue assign
watched-Watched = record {
  on_hit = refl;
  on_miss = refl;
  on_heartbeat = refl;
  enabled = λ e. omega arith;
}

consume-Alternates_example :
    Alternates 7 watched.limit
      (leb watched.limit watched.connections)
      (consume watched traffic).1
      (leb (consume watched traffic).0.limit (consume watched traffic).0.connections)
consume-Alternates_example = consume-Alternates 7 watched traffic watched-Watched

abbrev happenings : List Action
happenings =
    starts
    ∷ notifies (connect (pos 3))
    ∷ notifies (beat 5)
    ∷ takes
    ∷ notifies (connect (negsuc 2))
    ∷ takes
    ∷ stops
    ∷ []

history-Reported_example :
    (r : Reporter) × (sent : List StateChange) × (Reporter.run happenings (new_reporter watched)
      ≡ ok (r, sent))
    × Reported watched sent r
unfolding register_event_handler new_queue
history-Reported_example =
    history-Reported watched happenings refl
      (refl, (refl, (refl, (refl, (refl, (refl, (refl, tt)))))))
