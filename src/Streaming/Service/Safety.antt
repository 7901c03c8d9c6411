-- ===== src/Streaming/Service/Safety.antt =====
-- The invariant over whole schedules.
use restreamer.Prelude.{
  ℕ, ◌≡◌, refl, inl, inr, Bool, true, false, List, [], ◌∷◌, Text, All, nat_eq, Bool-cases,
}
use restreamer.Streaming.Streamer.{new_streamer, begin_stream}
use restreamer.Streaming.Streamer.Heap.{update_self, update_ne}
use restreamer.Streaming.Acl
use restreamer.Streaming.Service.{
  acl_broker, Service, Phase, idle, serving, Action, begins, loses, gets, allows, visits, serves,
  removes, drains, Visit, visit, inhibits, handler_step, step, run,
}
use restreamer.Streaming.Connection.{new_connection}
use restreamer.Auth.{Authenticator}
use restreamer.Streaming.Service.Handlers.{serves_at, drains_at}
use restreamer.Streaming.Service.Removal.{removes_at}
use restreamer.Streaming.Service.Visiting.{
  rejected-Inv, refuse-Inv, admit-Inv, with_fresh-Beside, visit_denied, visit_offline,
  visit_inhibited, visit_full, visit_accepted, fresh, with_fresh, may_pass, policy',
}
use restreamer.Streaming.Service.Invariant.{Inv, Keeps, gets-Keeps, loses-Keeps, allows-Keeps}

new_queue_of :
    (v : Visit) (w : Service) (i : Inv w) (e : w.phase v.client ≡ idle)
    → ((fresh v w i e).queue.is_closed ≡ false) × ((fresh v w i e).closed ≡ false)
unfolding new_connection
new_queue_of v w i e = (refl, refl)

visit-Keeps : (v : Visit) (w : Service) → Inv w → w.phase v.client ≡ idle → Keeps (visit v w)
visit-Keeps v w i e = elim (Bool-cases (may_pass v w i e)) [
  | inr denied ↦ (
    _,
    visit_denied v w i e denied,
    rejected-Inv v w i e w.streamer (fresh v w i e)
        (record { running = refl; pool = refl; others = λ d h. refl }),
  )
  | inl passed ↦ elim (Bool-cases w.streamer.running) [
    | inr stopped ↦ (
      _,
      visit_offline v w i e passed stopped,
      refuse-Inv v w i e (with_fresh v w i e) (with_fresh-Beside v w i e w.streamer.policy),
    )
    | inl running ↦ elim (Bool-cases w.streamer.inhibited) [
      | inl off ↦ (
        _,
        visit_inhibited v w i e passed running off,
        refuse-Inv v w i e (with_fresh v w i e) (with_fresh-Beside v w i e w.streamer.policy),
      )
      | inr on ↦ elim (Bool-cases (Acl.accept w.streamer.policy).1) [
        | inr full ↦ (
          _,
          visit_full v w i e passed running on full,
          refuse-Inv v w i e _ (with_fresh-Beside v w i e (policy' v w i e)),
        )
        | inl taken ↦ (
          _,
          visit_accepted v w i e passed running on taken,
          admit-Inv v w i e _ running refl refl
              (λ d h. update_ne w.streamer.conns v.client d (fresh v w i e) h)
              (rw (update_self w.streamer.conns v.client (fresh v w i e)) (new_queue_of v w i e).0)
              (rw (update_self w.streamer.conns v.client (fresh v w i e)) (new_queue_of v w i e).1),
        )
      ]
    ]
  ]
]

visits_at :
    (v : Visit) (p : Phase) (w : Service)
    → w.phase v.client ≡ p
    → Inv w
    → Keeps (handler_step (visits v) p w)
unfolding handler_step
visits_at v idle w e i = visit-Keeps v w i e
visits_at v serving w e i = (w, refl, i)
visits_at v _ w e i = (w, refl, i)

-- A step that is no inhibit request and no restart of the loop.
abbrev pub is_undisturbed : Action → Bool
is_undisturbed begins = false
is_undisturbed inhibits = false
is_undisturbed _ = true

pub step-Keeps : (a : Action) (w : Service) → is_undisturbed a ≡ true → Inv w → Keeps (step a w)
unfolding step
step-Keeps begins w u i = cc
step-Keeps inhibits w u i = cc
step-Keeps loses w u i = loses-Keeps w i
step-Keeps allows w u i = allows-Keeps w i
step-Keeps (gets p) w u i = gets-Keeps p w i
step-Keeps (visits v) w u i = visits_at v (w.phase v.client) w refl i
step-Keeps (serves c r) w u i = serves_at c r (w.phase c) w refl i
step-Keeps (removes c) w u i = removes_at c (w.phase c) w refl i
step-Keeps (drains c) w u i = drains_at c (w.phase c) w refl i

run-Keeps :
    (actions : List Action) (w : Service)
    → All (λ a. is_undisturbed a ≡ true) actions
    → Inv w
    → Keeps (run actions w)
unfolding run
run-Keeps [] w u i = (w, refl, i)
run-Keeps (a ∷ actions) w u i =
    let (w', e, i') = step-Keeps a w u.0 i in
    let (w'', e', i'') = run-Keeps actions w' u.1 i' in (w'', rw e e', i'')

-- A streamer with the access controller, before its loop and its first client.
abbrev pub new_service : ℕ → ℕ → Authenticator → Text → Service
new_service qsize limit auth preamble = record {
  streamer = record (new_streamer acl_broker qsize (Acl.new_access_controller limit) auth) {
    preamble = preamble;
  };
  phase = λ c. idle;
  notices = [];
}

pub started-Inv :
    (qsize limit : ℕ) (auth : Authenticator) (preamble : Text)
    → Keeps (step begins (new_service qsize limit auth preamble))
unfolding step begin_stream new_streamer
started-Inv qsize limit auth preamble =
    (_, refl, record { distinct = λ r. tt; clients = λ c. refl })

-- A streamer whose loop is started once and which is never inhibited serves any schedule without a
-- panic: packets, the end of the input, requests, rounds of Serve, removals and releases in any
-- order. Afterwards the pool holds no connection twice. While the loop runs, the connections in the
-- pool are exactly those of the handlers in or leaving Serve, and their queues are open; once it has
-- stopped, the queues of these handlers are closed.
pub service_never_panics :
    (qsize limit : ℕ) (auth : Authenticator) (preamble : Text) (actions : List Action)
    → All (λ a. is_undisturbed a ≡ true) actions
    → Keeps (run (begins ∷ actions) (new_service qsize limit auth preamble))
unfolding run
service_never_panics qsize limit auth preamble actions undisturbed =
    let (w, e, i) = started-Inv qsize limit auth preamble in
    let (w', e', i') = run-Keeps actions w undisturbed i in (w', rw e e', i')
