-- ===== src/Streaming/Service/Effects.antt =====
-- What each step does to the counter of the broker and to the phases that hold a connection.
use mathlib.Core.Path.{subst}
use restreamer.Prelude.{
  ℕ, ◌≡◌, refl, sym, ap, ◌∙◌, inl, inr, Bool, true, false, List, [], ◌∷◌, ◌==◌, nat_eq, Eq-cases,
  beq_ne, beq_refl, Bool-cases, arith, if◌then◌else◌,
}
use restreamer.Prelude.Channel.{Outcome, OnOk, OnOk-bind, OnOk-then}
use restreamer.Streaming.Acl.{AccessController}
use restreamer.Streaming.Acl
use restreamer.Streaming.Connection.{Packet, Ready}
use restreamer.Streaming.Streamer.{
  Streamer, Input, packet, end_of_queue, stream, stream_round, handle_request, distribute,
  close_all,
}
use restreamer.Streaming.Streamer.Distribute.{member}
use restreamer.Streaming.Service.{
  acl_broker, Service, Phase, idle, rejected, serving, leaving, draining, finished, set_phase,
  Visit, visit, admit, refuse, serve_step, Action, begins, inhibits, gets, loses, allows, visits,
  serves, removes, drains, loop_step, command_step, handler_step, step,
}
use restreamer.Streaming.Service.Handlers.{client_before, drain_open, drain_closed}
use restreamer.Streaming.Service.Removal.{remove_running, remove_stopped, leaving_flags}
use restreamer.Streaming.Service.Visiting.{
  visit_denied, visit_offline, visit_inhibited, visit_full, visit_accepted, may_pass,
}
use restreamer.Streaming.Service.Phases.{consistent}
use restreamer.Streaming.Service.Safety.{is_undisturbed}
use restreamer.Streaming.Service.Invariant.{Inv}

-- Does a handler in this phase hold a connection that the broker has accepted?
abbrev pub holds : Phase → Bool
holds serving = true
holds leaving = true
holds draining = true
holds _ = false

abbrev pub policy_of : Service → AccessController
policy_of w = w.streamer.policy

-- A step leaves the counter and the holders alone, adds one to both, or takes one from both.
pub data Effect (w w' : Service) : Type 0 where
  keeps :
      policy_of w' ≡ policy_of w → ((d : ℕ) → holds (w'.phase d) ≡ holds (w.phase d)) → Effect w w'
  refuses :
      (Acl.accept (policy_of w)).1 ≡ false
      → policy_of w' ≡ (Acl.accept (policy_of w)).0
      → ((d : ℕ) → holds (w'.phase d) ≡ holds (w.phase d))
      → Effect w w'
  takes :
      (c : ℕ)
      → holds (w.phase c) ≡ false
      → (Acl.accept (policy_of w)).1 ≡ true
      → policy_of w' ≡ (Acl.accept (policy_of w)).0
      → ((d : ℕ) → holds (w'.phase d) ≡ (if c == d then true else holds (w.phase d)))
      → Effect w w'
  gives :
      (c : ℕ)
      → holds (w.phase c) ≡ true
      → policy_of w' ≡ (Acl.release (policy_of w)).0
      → ((d : ℕ) → holds (w'.phase d) ≡ (if c == d then false else holds (w.phase d)))
      → Effect w w'

holds-set_phase :
    (phase : ℕ → Phase) (c : ℕ) (p : Phase) (b : Bool)
    → holds p ≡ b
    → (d : ℕ) → holds (set_phase phase c p d) ≡ (if c == d then b else holds (phase d))
holds-set_phase phase c p b h d = elim (Bool-cases (c == d)) [ inl e ↦ rw e h | inr e ↦ rw e refl ]

-- A move between phases that hold a connection, or between those that do not.
holds-moved :
    (phase : ℕ → Phase) (c : ℕ) (p : Phase)
    → holds p ≡ holds (phase c)
    → (d : ℕ) → holds (set_phase phase c p d) ≡ holds (phase d)
holds-moved phase c p h d = elim (Eq-cases c d) [
  | inl e ↦ subst (λ k. holds (set_phase phase c p k) ≡ holds (phase k)) e (rw (beq_refl c) h)
  | inr e ↦ rw (beq_ne c d e) refl
]

serves_or_leaves : (b : Bool) → holds (if b then serving else leaving) ≡ true
serves_or_leaves b = ground arith

-- The rounds of the loop that do not handle a client leave the policy alone.
abbrev IsSamePolicy : Streamer acl_broker → Streamer acl_broker → Type 0
IsSamePolicy s s' = s'.policy ≡ s.policy

packet_policy :
    (p : Packet) (s : Streamer acl_broker)
    → OnOk (IsSamePolicy s) (stream acl_broker (packet p ∷ []) s)
unfolding stream stream_round
packet_policy p s =
    OnOk-bind (IsSamePolicy s) (IsSamePolicy s) (stream_round acl_broker (packet p) s) _
      (OnOk-then (IsSamePolicy s) (distribute p s.pool s.conns) _ (λ a. refl)) (λ s' e. e)

end_policy :
    (s : Streamer acl_broker) → OnOk (IsSamePolicy s) (stream acl_broker (end_of_queue ∷ []) s)
unfolding stream stream_round
end_policy s = OnOk-then (IsSamePolicy s) (close_all s.pool s.conns) _ (λ a. refl)

loop_step-Effect :
    (is : List Input) (w : Service)
    → OnOk (IsSamePolicy w.streamer) (stream acl_broker is w.streamer)
    → OnOk (Effect w) (loop_step is w)
unfolding loop_step
loop_step-Effect is w h =
    either _ _ w.streamer.running
      (OnOk-bind (IsSamePolicy w.streamer) (Effect w) (stream acl_broker is w.streamer) _ h
        (λ s e. keeps e (λ d. refl)))
      (keeps refl (λ d. refl))
  where
    either :
        (o o' : Outcome Service) (b : Bool)
        → OnOk (Effect w) o
        → OnOk (Effect w) o'
        → OnOk (Effect w) (if b then o else o')
    either o o' true h k = h
    either o o' false h k = k

visit-Effect :
    (v : Visit) (w : Service) → Inv w → w.phase v.client ≡ idle → OnOk (Effect w) (visit v w)
unfolding refuse admit
visit-Effect v w i e =
    let sent_away = holds-moved w.phase v.client rejected (sym (ap holds e)) in
    elim (Bool-cases (may_pass v w i e)) [
      | inr denied ↦ rw (visit_denied v w i e denied) (keeps refl sent_away)
      | inl passed ↦ elim (Bool-cases w.streamer.running) [
        | inr stopped ↦ rw (visit_offline v w i e passed stopped) (keeps refl sent_away)
        | inl running ↦ elim (Bool-cases w.streamer.inhibited) [
          | inl off ↦ rw (visit_inhibited v w i e passed running off) (keeps refl sent_away)
          | inr on ↦ elim (Bool-cases (Acl.accept w.streamer.policy).1) [
            | inr full ↦
                rw (visit_full v w i e passed running on full) (refuses full refl sent_away)
            | inl taken ↦ rw (visit_accepted v w i e passed running on taken) (
                takes v.client (ap holds e) taken refl
                  (holds-set_phase w.phase v.client _ true (serves_or_leaves _)))
          ]
        ]
      ]
    ]

visits-Effect :
    (v : Visit) (p : Phase) (w : Service)
    → w.phase v.client ≡ p
    → Inv w
    → OnOk (Effect w) (handler_step (visits v) p w)
unfolding handler_step
visits-Effect v idle w e i = visit-Effect v w i e
visits-Effect v _ w e i = keeps refl (λ d. refl)

serves-Effect :
    (c : ℕ) (r : Ready) (p : Phase) (w : Service)
    → w.phase c ≡ p
    → OnOk (Effect w) (handler_step (serves c r) p w)
unfolding handler_step serve_step
serves-Effect c r serving w e =
    keeps refl (holds-moved w.phase c _ (serves_or_leaves _ ∙ sym (ap holds e)))
serves-Effect c r idle w e = keeps refl (λ d. refl)
serves-Effect c r _ w e = keeps refl (λ d. refl)

removes-Effect :
    (c : ℕ) (p : Phase) (w : Service)
    → w.phase c ≡ p
    → Inv w
    → OnOk (Effect w) (handler_step (removes c) p w)
unfolding handler_step
removes-Effect c leaving w e i =
    let conn = w.streamer.conns c in
    let moved = holds-moved w.phase c draining (sym (ap holds e)) in
    elim (Bool-cases w.streamer.running) [
      | inr stopped ↦ rw (remove_stopped c w stopped) (keeps refl moved)
      | inl running ↦
          let (o, f) = leaving_flags (member c w.streamer.pool) conn.queue.is_closed conn.closed (
            subst
              (λ b.
                consistent b (member c w.streamer.pool) leaving conn.queue.is_closed conn.closed
                ≡ true)
              running (client_before w i c leaving e)) in
          rw (remove_running c w running o f) (keeps refl moved)
    ]
removes-Effect c idle w e i = keeps refl (λ d. refl)
removes-Effect c _ w e i = keeps refl (λ d. refl)

drains-Effect :
    (c : ℕ) (p : Phase) (w : Service)
    → w.phase c ≡ p
    → OnOk (Effect w) (handler_step (drains c) p w)
unfolding handler_step
drains-Effect c draining w e = elim (Bool-cases (w.streamer.conns c).queue.is_closed) [
  | inr o ↦ rw (drain_open c w o) (keeps refl (λ d. refl))
  | inl closed ↦
      rw (drain_closed c w closed)
        (gives c (ap holds e) refl (holds-set_phase w.phase c finished false refl))
]
drains-Effect c idle w e = keeps refl (λ d. refl)
drains-Effect c _ w e = keeps refl (λ d. refl)

-- The steps of a schedule without restarts and inhibit requests.
pub step-Effect :
    (a : Action) (w : Service) → is_undisturbed a ≡ true → Inv w → OnOk (Effect w) (step a w)
unfolding step command_step
step-Effect begins w u i = cc
step-Effect inhibits w u i = cc
step-Effect loses w u i = loop_step-Effect (end_of_queue ∷ []) w (end_policy w.streamer)
step-Effect allows w u i = loop_step-Effect _ w (unfold stream stream_round handle_request in refl)
step-Effect (gets p) w u i = loop_step-Effect (packet p ∷ []) w (packet_policy p w.streamer)
step-Effect (visits v) w u i = visits-Effect v (w.phase v.client) w refl i
step-Effect (serves c r) w u i = serves-Effect c r (w.phase c) w refl
step-Effect (removes c) w u i = removes-Effect c (w.phase c) w refl i
step-Effect (drains c) w u i = drains-Effect c (w.phase c) w refl
