-- ===== src/Streaming/Proxy/Exchange.antt =====
-- streaming/proxy.go: many calls of ServeHTTP at a time, the queue of their requests, and the
-- goroutine of the fetcher between Start and Shutdown.
pub mod Turns
pub mod Steps
pub mod Pending
pub mod Linear
use restreamer.Prelude.{ℕ, Bool, true, false, List, [], ◌∷◌, ◌++◌, ltb, ◌==◌, length, if◌then◌else◌}
use restreamer.Prelude.Http.{Header, Response, new_response}
use restreamer.Prelude.Channel.{Outcome, ok, panic, ◌>>=◌}
use restreamer.Auth.{handle_http_authentication}
use restreamer.Streaming.Proxy.{Proxy, FetchableResource, Arrival, fetch, reply}

abbrev pub fetch_queue : ℕ
fetch_queue = 10

-- A return channel, named by the call of ServeHTTP that made it and reads it, with that call's
-- request and writer.
pub record Request : Type 0 where
  pub client : ℕ
  pub header : Header
  pub writer : Response

-- Where a call of ServeHTTP is: not made, before the send to the queue, before the read of its
-- channel, returned, or returned with the refusal of the authenticator. It keeps its request.
pub data Stage : Type 0 where
  outside waiting : Stage
  asking : Header → Response → Stage
  done : Header → Response → Stage
  refused : Response → Stage

-- Where the fetcher is: not started, in its select, before the send to a return channel, or at its
-- end.
pub data Fetcher : Type 0 where
  unstarted selecting offline : Fetcher
  returning : Request → FetchableResource → Fetcher

pub record Exchange : Type 0 where
  pub proxy : Proxy
  pub queue : List Request
  pub is_shut : Bool
  pub fetcher : Fetcher
  pub stages : ℕ → Stage

unfoldable pub new_exchange : Proxy → Exchange
new_exchange p = record {
  proxy = p;
  queue = [];
  is_shut = false;
  fetcher = unstarted;
  stages = λ c. outside;
}

abbrev pub move : ℕ → Stage → (ℕ → Stage) → ℕ → Stage
move c stage stages d = if c == d then stage else stages d

-- The authentication, at the start of a call.
unfoldable pub come : ℕ → Header → Stage → Exchange → Exchange
come c h outside e =
    let (w, passed) = handle_http_authentication e.proxy.auth h new_response in
    record e { stages = move c (if passed then asking h w else refused w) e.stages }
come c h waiting e = e
come c h (asking _ _) e = e
come c h (done _ _) e = e
come c h (refused _) e = e

-- `proxy.fetcher <- fetchable`, which waits while the queue is full.
unfoldable pub ask : ℕ → Stage → Exchange → Exchange
ask c (asking h w) e =
    if ltb (length e.queue) fetch_queue
    then record e {
      queue = e.queue ++ ((record { client = c; header = h; writer = w }) ∷ []);
      stages = move c waiting e.stages;
    }
    else e
ask c outside e = e
ask c waiting e = e
ask c (done _ _) e = e
ask c (refused _) e = e

-- The fetcher takes a request, and has its resource ready.
unfoldable pub take_request : Arrival → Fetcher → List Request → Exchange → Outcome Exchange
take_request a selecting (r ∷ rest) e = do
  (p, resource, fetched) ← fetch a e.proxy
  ok (record e { proxy = p; queue = rest; fetcher = returning r resource })
take_request a selecting [] e = ok e
take_request a unstarted rs e = ok e
take_request a offline rs e = ok e
take_request a (returning _ _) rs e = ok e

-- The return channel is unbuffered: its send and its read are one step. The call then answers.
unfoldable pub hand : Fetcher → Exchange → Exchange
hand (returning r resource) e = record e {
  fetcher = selecting;
  stages = move r.client (done r.header (reply e.proxy.stale r.header resource r.writer)) e.stages;
}
hand unstarted e = e
hand selecting e = e
hand offline e = e

unfoldable pub start_fetcher : Fetcher → Exchange → Exchange
start_fetcher unstarted e = record e { fetcher = selecting }
start_fetcher selecting e = e
start_fetcher offline e = e
start_fetcher (returning _ _) e = e

-- A second close panics.
unfoldable pub shutdown : Exchange → Outcome Exchange
shutdown e = if e.is_shut then panic else ok (record e { is_shut = true })

unfoldable pub leave : Fetcher → Exchange → Exchange
leave selecting e = if e.is_shut then record e { fetcher = offline } else e
leave unstarted e = e
leave offline e = e
leave (returning _ _) e = e

pub data Action : Type 1 where
  comes : ℕ → Header → Action
  asks : ℕ → Action
  takes : Arrival → Action
  hands starts shuts leaves : Action

unfoldable pub step : Action → Exchange → Outcome Exchange
step (comes c h) e = ok (come c h (e.stages c) e)
step (asks c) e = ok (ask c (e.stages c) e)
step (takes a) e = take_request a e.fetcher e.queue e
step hands e = ok (hand e.fetcher e)
step starts e = ok (start_fetcher e.fetcher e)
step shuts e = shutdown e
step leaves e = ok (leave e.fetcher e)

unfoldable pub run : List Action → Exchange → Outcome Exchange
run [] e = ok e
run (a ∷ schedule) e = do e' ← step a e; run schedule e'
