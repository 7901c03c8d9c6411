-- ===== src/Streaming/Acl/Limit.antt =====
-- The limit on the number of connections over any history of calls.
use restreamer.Prelude.{ℕ, ◌≤◌, ◌<◌, ◌≡◌, List, [], ◌∷◌, arith, refl}
use restreamer.Streaming.Acl.{
  AccessController, Call, accepts, releases, inhibits, new_access_controller, step, run,
}

-- The counter never exceeds a limit that is set, and the limit itself does not change.
pub record WithinLimit (limit : ℕ) (control : AccessController) : Type 0 where
  pub same : control.maxconnections ≡ limit
  pub within : control.connections ≤ limit

pub step-WithinLimit :
    (limit : ℕ) (control : AccessController) (c : Call)
    → 0 < limit
    → WithinLimit limit control
    → WithinLimit limit (step control c).0
unfolding step
step-WithinLimit limit control accepts h w = ground arith
step-WithinLimit limit control releases h w = ground arith
step-WithinLimit limit control (inhibits b) h w = ground arith

run-WithinLimit :
    (limit : ℕ) (control : AccessController) (cs : List Call)
    → 0 < limit
    → WithinLimit limit control
    → WithinLimit limit (run control cs)
unfolding run
run-WithinLimit limit control [] h w = w
run-WithinLimit limit control (c ∷ cs) h w =
    run-WithinLimit limit (step control c).0 cs h (step-WithinLimit limit control c h w)

-- With a limit above 0, every history of accepts, releases and inhibits, from a new controller on,
-- leaves the counter at or below the limit and the limit as it was.
pub run_limit :
    (limit : ℕ) (cs : List Call)
    → 0 < limit
    → WithinLimit limit (run (new_access_controller limit) cs)
unfolding new_access_controller
run_limit limit cs h = run-WithinLimit limit _ cs h (record { same = refl; within = omega arith })
