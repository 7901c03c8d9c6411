-- ===== src/Tests/Acl.antt =====
-- streaming/acl.go: two connections are let in, a third is not.
use restreamer.Prelude.{◌≡◌, refl, true, [], ◌∷◌, arith, List}
use restreamer.Streaming.Acl.{Call, accepts, releases, inhibits, new_access_controller, step, run}
use restreamer.Streaming.Acl.Limit.{WithinLimit, run_limit}

abbrev busy : List Call
busy = accepts ∷ accepts ∷ accepts ∷ releases ∷ inhibits true ∷ accepts ∷ []

busy-run : (run (new_access_controller 2) busy).connections ≡ 1
unfolding run new_access_controller step
busy-run = refl

run_limit_example : WithinLimit 2 (run (new_access_controller 2) busy)
run_limit_example = run_limit 2 busy (omega arith)
