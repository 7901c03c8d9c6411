-- ===== src/Streaming/Fleet/Limit.antt =====
-- All streamers together, and the limit on connections.
use mathlib.Core.Path.{subst}
use restreamer.Prelude.{
  ℕ, zero, suc, ◌+◌, ◌^◌, ◌≤◌, ◌<◌, ◌≡◌, ◌≢◌, refl, sym, ap, ◌∙◌, inl, inr, true, List, [], ◌∷◌,
  length, All, Text, nat_eq, Eq-cases, beq_ne, beq_refl, arith,
}
use restreamer.Prelude.Channel.{Outcome, ok, OnOk, ◌>>=◌}
use restreamer.Auth.{Authenticator}
use restreamer.Streaming.Acl.{AccessController, accepts, releases, new_access_controller}
use restreamer.Streaming.Acl
use restreamer.Streaming.Acl.Limit.{WithinLimit, step-WithinLimit}
use restreamer.Streaming.Streamer.{new_streamer, begin_stream, set_preamble}
use restreamer.Streaming.Service.{Service, Action}
use restreamer.Streaming.Service.Invariant.{Inv}
use restreamer.Streaming.Service.Effects.{
  policy_of, Effect, keeps, refuses, takes, gives, step-Effect,
}
use restreamer.Streaming.Service.Safety.{is_undisturbed, step-Keeps}
use restreamer.Streaming.Service.Slots.{Holds, Effect-Holds}
use restreamer.Streaming.Fleet.{
  Fleet, with_controller, replace, begun, new_fleet, fleet_step, run_fleet,
}
use restreamer.Streaming.Fleet.Totals.{total, lengths, relisted, total-relisted, le-total}

-- The handlers of the first `n` streamers that hold a connection are as many as the controller has
-- counted, and no more than the limit.
pub record IsLimited (n limit : ℕ) (f : Fleet) : Type 0 where
  pub holders : ℕ → List ℕ
  pub exactly : (i : ℕ) → Holds (f.services i) (holders i)
  pub counted : f.controller.connections ≡ total (lengths holders) n
  pub within : total (lengths holders) n ≤ limit

-- What a step does to the controller keeps the limit.
Effect-WithinLimit :
    (limit : ℕ) (w w' : Service)
    → 0 < limit
    → Effect w w'
    → WithinLimit limit (policy_of w)
    → WithinLimit limit (policy_of w')
unfolding Acl.step
Effect-WithinLimit limit w w' h (keeps p same) l = subst (WithinLimit limit) (sym p) l
Effect-WithinLimit limit w w' h (refuses full p same) l =
    subst (WithinLimit limit) (sym p) (step-WithinLimit limit (policy_of w) accepts h l)
Effect-WithinLimit limit w w' h (takes c before taken p changed) l =
    subst (WithinLimit limit) (sym p) (step-WithinLimit limit (policy_of w) accepts h l)
Effect-WithinLimit limit w w' h (gives c before p changed) l =
    subst (WithinLimit limit) (sym p) (step-WithinLimit limit (policy_of w) releases h l)

-- What holds between two steps.
record Sound (n limit : ℕ) (f : Fleet) : Type 0 where
  each : (i : ℕ) → Inv (f.services i)
  control : WithinLimit limit f.controller
  holders : ℕ → List ℕ
  exactly : (i : ℕ) → Holds (f.services i) (holders i)
  counted : f.controller.connections ≡ total (lengths holders) n

with_controller-Inv : (k : AccessController) (w : Service) → Inv w → Inv (with_controller k w)
with_controller-Inv k w i = record { distinct = i.distinct; clients = i.clients }

with_controller-Holds :
    (k : AccessController) (w : Service) (hs : List ℕ) → Holds w hs → Holds (with_controller k w) hs
with_controller-Holds k w hs h = record { distinct = h.distinct; exactly = h.exactly }

-- A statement about each streamer, after one was replaced.
replaced :
    (P : ℕ → Service → Type 0) (services : ℕ → Service) (i : ℕ) (w : Service)
    → ((j : ℕ) → i ≢ j → P j (services j))
    → P i w
    → (j : ℕ) → P j (replace services i w j)
replaced P services i w others here j = elim (Eq-cases i j) [
  | inl e ↦ subst (λ k. P k (replace services i w k)) e (rw (beq_refl i) here)
  | inr e ↦ rw (beq_ne i j e) (others j e)
]

step-Sound :
    (n limit rest : ℕ) (i : ℕ) (a : Action) (f : Fleet)
    → 0 < limit
    → i < n
    → is_undisturbed a ≡ true
    → Sound n limit f
    → f.controller.connections + suc rest < 2 ^ 64
    → (f' : Fleet) × (fleet_step i a f ≡ ok f')
      × Sound n limit f'
      × (f'.controller.connections + rest < 2 ^ 64)
unfolding fleet_step
step-Sound n limit rest i a f h in_range u s fits =
    let w = with_controller f.controller (f.services i) in
    let inv : Inv w = with_controller-Inv f.controller (f.services i) (s.each i) in
    let (w', e, inv') = step-Keeps a w u inv in
    let effect : Effect w w' = subst (OnOk (Effect w)) e (step-Effect a w u inv) in
    let old = s.holders i in
    let low = le-total (lengths s.holders) i n in_range in
    let (new, holds, same, few) =
      Effect-Holds w w' old (with_controller-Holds f.controller (f.services i) old (s.exactly i))
        effect (omega (arith, low, s.counted)) (omega arith) in
    let holders = relisted s.holders i new in
    (
      record { services = replace f.services i w'; controller = policy_of w' },
      ap
          (λ (o : Outcome Service). o >>= (λ w''.
            ok (record { services = replace f.services i w''; controller = policy_of w'' })))
          e,
      record {
        each = replaced (λ j. Inv) f.services i w' (λ j d. s.each j) inv';
        control = Effect-WithinLimit limit w w' h effect s.control;
        holders = holders;
        exactly =
            replaced (λ j v. Holds v (holders j)) f.services i w'
              (λ j d. rw (beq_ne i j d) (s.exactly j)) (rw (beq_refl i) holds);
        counted = omega (arith, same, s.counted, total-relisted s.holders i new n in_range);
      },
      omega (arith, same, few),
    )

run-Sound :
    (n limit : ℕ) (schedule : List (ℕ × Action)) (f : Fleet)
    → 0 < limit
    → All (λ (s : ℕ × Action). (s.0 < n) × (is_undisturbed s.1 ≡ true)) schedule
    → Sound n limit f
    → f.controller.connections + length schedule < 2 ^ 64
    → (f' : Fleet) × (run_fleet schedule f ≡ ok f') × Sound n limit f'
unfolding run_fleet
run-Sound n limit [] f h u s fits = (f, refl, s)
run-Sound n limit ((i, a) ∷ schedule) f h u s fits =
    let (f', e, s', fits') = step-Sound n limit (length schedule) i a f h u.0.0 u.0.1 s fits in
    let (f'', e', s'') = run-Sound n limit schedule f' h u.1 s' fits' in
    (f'', ap (λ (o : Outcome Fleet). o >>= run_fleet schedule) e ∙ e', s'')

begun-Inv :
    (qsize limit : ℕ) (auth : Authenticator) (preamble : Text)
    → Inv (begun qsize limit auth preamble)
unfolding begin_stream new_streamer set_preamble
begun-Inv qsize limit auth preamble = record { distinct = λ r. tt; clients = λ c. refl }

new_fleet-Sound :
    (n qsize limit : ℕ) (auth : ℕ → Authenticator) (preamble : ℕ → Text)
    → Sound n limit (new_fleet qsize limit auth preamble)
unfolding new_fleet new_access_controller begin_stream new_streamer set_preamble
new_fleet-Sound n qsize limit auth preamble = record {
  each = λ i. begun-Inv qsize limit (auth i) (preamble i);
  control = record { same = refl; within = omega arith };
  holders = λ i. [];
  exactly = λ i. record { distinct = tt; exactly = λ c. refl };
  counted = sym (nothing n);
}
  where
    nothing : (m : ℕ) → total (λ i. 0) m ≡ 0
    nothing zero = refl
    nothing (suc m) = omega (arith, nothing m)

-- Any number of streamers share an access controller with a limit above 0; their loops are started
-- once and never inhibited. Over any schedule of fewer than 2 ^ 64 - 1 steps of all of them, no step
-- panics, and at the end the handlers of all streamers that hold a connection, from their acceptance
-- to their release, are together as many as the controller has counted, and at most the limit.
pub fleet_limit :
    (n qsize limit : ℕ) (auth : ℕ → Authenticator) (preamble : ℕ → Text)
    (schedule : List (ℕ × Action))
    → 0 < limit
    → All (λ (s : ℕ × Action). (s.0 < n) × (is_undisturbed s.1 ≡ true)) schedule
    → length schedule + 1 < 2 ^ 64
    → (f : Fleet) × (run_fleet schedule (new_fleet qsize limit auth preamble) ≡ ok f)
      × IsLimited n limit f
unfolding new_fleet new_access_controller
fleet_limit n qsize limit auth preamble schedule h undisturbed fits =
    let (f, e, s) =
      run-Sound n limit schedule (new_fleet qsize limit auth preamble) h undisturbed
        (new_fleet-Sound n qsize limit auth preamble) (omega arith) in
    (
      f,
      e,
      record {
        holders = s.holders;
        exactly = s.exactly;
        counted = s.counted;
        within = omega (arith, s.counted, s.control.within);
      },
    )
