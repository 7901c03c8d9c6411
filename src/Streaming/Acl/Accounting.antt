-- ===== src/Streaming/Acl/Accounting.antt =====
-- The counter and the accepted connections that have not been removed.
use restreamer.Prelude.{ℕ, ◌+◌, ◌^◌, ◌<◌, ◌≡◌, List, [], ◌∷◌, length, arith, if◌then◌else◌}
use restreamer.Streaming.Acl.{
  AccessController, Call, accepts, releases, inhibits, new_access_controller, step, run,
}

-- How many calls of a history were accepted, and how many removed a connection.
accepted : AccessController → List Call → ℕ
accepted control [] = 0
accepted control (accepts ∷ cs) =
    (if (step control accepts).1 then 1 else 0) + accepted (step control accepts).0 cs
accepted control (c ∷ cs) = accepted (step control c).0 cs

removed : AccessController → List Call → ℕ
removed control [] = 0
removed control (releases ∷ cs) =
    (if (step control releases).1 then 1 else 0) + removed (step control releases).0 cs
removed control (c ∷ cs) = removed (step control c).0 cs

accounting_from :
    (control : AccessController) (cs : List Call)
    → control.connections + length cs < 2 ^ 64
    → (run control cs).connections + removed control cs ≡ control.connections + accepted control cs
unfolding run accepted removed step
accounting_from control [] h = omega arith
accounting_from control (accepts ∷ cs) h =
    ground (arith, accounting_from (step control accepts).0 cs)
accounting_from control (releases ∷ cs) h =
    ground (arith, accounting_from (step control releases).0 cs)
accounting_from control (inhibits b ∷ cs) h =
    ground (arith, accounting_from (step control (inhibits b)).0 cs)

-- From a new controller, over a history of fewer than 2 ^ 64 calls, the counter plus the number of
-- successful removals is the number of accepted connections.
run_accounting :
    (limit : ℕ) (cs : List Call)
    → length cs < 2 ^ 64
    → (run (new_access_controller limit) cs).connections + removed (new_access_controller limit) cs
      ≡ accepted (new_access_controller limit) cs
unfolding new_access_controller
run_accounting limit cs h =
    ground (arith, accounting_from (new_access_controller limit) cs (omega arith))
