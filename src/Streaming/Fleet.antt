-- ===== src/Streaming/Fleet.antt =====
-- cmd/restreamer/restreamer.go: the streamers of all resources, which share one access controller.
-- Each is the streamer of Streaming/Service, with handlers of its own; a schedule says whose step
-- comes next.
pub mod Totals
pub mod Limit
use restreamer.Prelude.{ℕ, List, [], ◌∷◌, Text, ◌==◌, if◌then◌else◌}
use restreamer.Prelude.Channel.{Outcome, ok, ◌>>=◌}
use restreamer.Auth.{Authenticator}
use restreamer.Streaming.Acl.{AccessController, new_access_controller}
use restreamer.Streaming.Streamer.{begin_stream, new_streamer, set_preamble}
use restreamer.Streaming.Service.{acl_broker, Service, Action, idle, step}

-- The streamers by their number, and the controller that all of them point to.
pub record Fleet : Type 0 where
  pub services : ℕ → Service
  pub controller : AccessController

abbrev pub with_controller : AccessController → Service → Service
with_controller control w = record w { streamer = record (w.streamer) { policy = control } }

abbrev pub replace : (ℕ → Service) → ℕ → Service → ℕ → Service
replace services i w j = if i == j then w else services j

-- A streamer that was made in the loop over the resources, and whose loop was started.
abbrev pub begun : ℕ → ℕ → Authenticator → Text → Service
begun qsize limit auth preamble = record {
  streamer =
      (begin_stream acl_broker (
        set_preamble acl_broker preamble
          (new_streamer acl_broker qsize (new_access_controller limit) auth))).0;
  phase = λ c. idle;
  notices = [];
}

unfoldable pub new_fleet : ℕ → ℕ → (ℕ → Authenticator) → (ℕ → Text) → Fleet
new_fleet qsize limit auth preamble = record {
  services = λ i. begun qsize limit (auth i) (preamble i);
  controller = new_access_controller limit;
}

unfoldable pub fleet_step : ℕ → Action → Fleet → Outcome Fleet
fleet_step i a f = do
  w ← step a (with_controller f.controller (f.services i))
  ok (record { services = replace f.services i w; controller = w.streamer.policy })

unfoldable pub run_fleet : List (ℕ × Action) → Fleet → Outcome Fleet
run_fleet [] f = ok f
run_fleet ((i, a) ∷ schedule) f = do f' ← fleet_step i a f; run_fleet schedule f'
