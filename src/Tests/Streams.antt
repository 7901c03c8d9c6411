-- ===== src/Tests/Streams.antt =====
-- streaming: a connection with two packets, a pool of two, and clients of a streamer.
use restreamer.Prelude.{
  All, arith, ℕ, ◌≡◌, refl, true, false, List, [], ◌∷◌, codes, nat_eq, if◌then◌else◌, ◌==◌,
}
use restreamer.Prelude.Channel.{ok, panic}
use restreamer.Prelude.Http.{new_response}
use restreamer.Auth.{pass}
use restreamer.Streaming.Connection.{Connection, Ready, queue_ready, context_done, serve_loop}
use restreamer.Streaming.Connection.Order.{Delivers, serve_loop-Delivers}
use restreamer.Streaming.Streamer.{
  Streamer, begin_stream, Report, packet, end_of_queue, request, distribute, stream, new_streamer,
  stream_round,
}
use restreamer.Streaming.Streamer.Heap.{Conns}
use restreamer.Streaming.Streamer.Distribute.{Distributed, distribute-Distributed}
use restreamer.Streaming.Streamer.Panics.{
  inhibits, removes, inhibit_panics, remove_after_restart_panics,
}
use restreamer.Streaming.Service.{
  acl_broker, Action, begins, gets, loses, visits, serves, drains, run,
}
use restreamer.Streaming.Service
use restreamer.Streaming.Service.Invariant.{Keeps}
use restreamer.Streaming.Service.Slots.{IsBalanced, slots_balance}
use restreamer.Streaming.Service.Delivery.{Delivered, distributed, visit-Delivered}
use restreamer.Streaming.Service.Safety.{is_undisturbed, new_service, service_never_panics}
use restreamer.Streaming.Fleet.{Fleet, new_fleet, run_fleet}
use restreamer.Streaming.Fleet.Limit.{IsLimited, fleet_limit}
use restreamer.Streaming.Acl.{new_access_controller}

abbrev client : Connection
client = record {
  queue = record { items = (1 ∷ 2 ∷ []) ∷ (3 ∷ []) ∷ []; capacity = 2; is_closed = true };
  client_address = [];
  writer = new_response;
  closed = false;
}

abbrev ready_rounds : List Ready
ready_rounds = queue_ready true ∷ queue_ready true ∷ queue_ready true ∷ []

serve_loop-Delivers_example : Delivers client (serve_loop ready_rounds client)
serve_loop-Delivers_example = serve_loop-Delivers ready_rounds client

-- Client 0 has room for one packet and client 1 for none.
abbrev two_clients : Conns
two_clients c = record {
  queue = record { items = []; capacity = if c == 0 then 1 else 0; is_closed = false };
  client_address = [];
  writer = new_response;
  closed = false;
}

distribute-Distributed_example :
    (conns' : Conns) × (reports : List Report) × (distribute (9 ∷ []) (0 ∷ 1 ∷ []) two_clients
      ≡ ok (conns', reports))
    × Distributed (9 ∷ []) (0 ∷ 1 ∷ []) two_clients conns' reports
distribute-Distributed_example =
    distribute-Distributed (9 ∷ []) (0 ∷ 1 ∷ []) two_clients (refl, (refl, tt)) (refl, (refl, tt))

abbrev pub busy : Streamer acl_broker
busy = record {
  queue_size = 1;
  preamble = [];
  auth = pass;
  running = true;
  policy = new_access_controller 2;
  conns = two_clients;
  pool = 0 ∷ 1 ∷ [];
  inhibited = false;
  reports = [];
}

inhibit_panics_example :
    (stream acl_broker (request (inhibits acl_broker) ∷ packet (9 ∷ []) ∷ []) busy ≡ panic)
    × (stream acl_broker (request (inhibits acl_broker) ∷ end_of_queue ∷ []) busy ≡ panic)
    × (stream acl_broker (request (inhibits acl_broker) ∷ request (inhibits acl_broker) ∷ []) busy
        ≡ panic)
inhibit_panics_example = inhibit_panics acl_broker busy 0 (1 ∷ []) (9 ∷ []) [] refl

remove_after_restart_panics_example :
    (s' : Streamer acl_broker) × (stream acl_broker (end_of_queue ∷ []) busy ≡ ok s')
    × ((begin_stream acl_broker s').1 ≡ true)
    × (stream acl_broker (request (removes acl_broker 1) ∷ []) (begin_stream acl_broker s').0
        ≡ panic)
remove_after_restart_panics_example =
    remove_after_restart_panics acl_broker busy 1 [] (refl, (refl, tt)) (refl, (refl, tt)) refl refl

abbrev visitor : ℕ → Service.Visit
visitor c = record { client = c; address = []; header = []; now = []; preamble_written = true }

-- Client 0 is served a packet and leaves while the loop runs; client 1 is there at the end.
abbrev after_visit : List Action
after_visit =
    visits (visitor 1)
    ∷ gets (9 ∷ [])
    ∷ serves 0 (queue_ready true)
    ∷ serves 0 context_done
    ∷ Service.removes 0
    ∷ drains 0
    ∷ loses
    ∷ serves 1 (queue_ready true)
    ∷ Service.removes 1
    ∷ drains 1
    ∷ []

abbrev schedule : List Action
schedule = visits (visitor 0) ∷ after_visit

after_visit-is_undisturbed : All (λ a. is_undisturbed a ≡ true) after_visit
after_visit-is_undisturbed =
    ((refl, (refl, (refl, (refl, (refl, (refl, (refl, (refl, (refl, (refl, tt)))))))))))

schedule-is_undisturbed : All (λ a. is_undisturbed a ≡ true) schedule
schedule-is_undisturbed = (refl, after_visit-is_undisturbed)

service_never_panics_example :
    Keeps (run (begins ∷ schedule) (new_service 4 2 pass (codes "intro")))
service_never_panics_example =
    service_never_panics 4 2 pass (codes "intro") schedule schedule-is_undisturbed

slots_balance_example :
    (w : Service.Service) × (run (begins ∷ schedule) (new_service 4 2 pass (codes "intro")) ≡ ok w)
    × IsBalanced w
slots_balance_example =
    slots_balance 4 2 pass (codes "intro") schedule schedule-is_undisturbed (omega arith)

-- The service when its loop runs, and one packet has come.
abbrev begun : Service.Service
begun = record (new_service 4 2 pass (codes "intro")) {
  streamer = record ((new_service 4 2 pass (codes "intro")).streamer) { running = true };
}

begun_lem : run (begins ∷ gets (7 ∷ []) ∷ []) (new_service 4 2 pass (codes "intro")) ≡ ok begun
unfolding run Service.step begin_stream new_streamer stream stream_round distribute
begun_lem = refl

visit-Delivered_example :
    (w : Service.Service) × (run schedule begun ≡ ok w)
    × Delivered 4 (codes "intro") (distributed true schedule) (w.phase 0) (w.streamer.conns 0)
unfolding new_streamer
visit-Delivered_example =
    visit-Delivered 4 2 pass (codes "intro") (gets (7 ∷ []) ∷ []) (visitor 0) after_visit begun
      (refl, tt) after_visit-is_undisturbed begun_lem refl

-- Two streamers share a limit of one connection: the second client is turned away.
abbrev two_streams : List (ℕ × Action)
two_streams =
    (0, visits (visitor 0)) ∷ (1, visits (visitor 0)) ∷ (0, gets (9 ∷ [])) ∷ (1, gets (8 ∷ [])) ∷ []

fleet_limit_example :
    (f : Fleet) × (run_fleet two_streams (new_fleet 4 1 (λ i. pass) (λ i. [])) ≡ ok f)
    × IsLimited 2 1 f
fleet_limit_example =
    fleet_limit 2 4 1 (λ i. pass) (λ i. []) two_streams (omega arith)
      ((omega arith, refl), ((omega arith, refl), ((omega arith, refl), ((omega arith, refl), tt))))
      (omega arith)
