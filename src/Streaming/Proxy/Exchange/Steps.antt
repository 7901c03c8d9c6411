-- ===== src/Streaming/Proxy/Exchange/Steps.antt =====
-- Each step of the exchange, and the answers in turn.
use restreamer.Prelude.{
  ℕ, ◌≡◌, nat_eq, refl, sym, ap, ◌∙◌, inl, inr, Bool, true, false, Bool-cases, List, [], ◌∷◌, ltb,
  length, All, All-append, if◌then◌else◌,
}
use restreamer.Prelude.Http.{Header, Response, new_response}
use restreamer.Prelude.Channel.{ok, OnOk, OnOk-bind}
use restreamer.Auth.{Authenticator, handle_http_authentication}
use restreamer.Streaming.Proxy.{Proxy, FetchableResource, Arrival, fetch, reply}
use restreamer.Streaming.Proxy.Exchange.{
  fetch_queue, Request, Stage, outside, waiting, asking, done, refused, Fetcher, unstarted,
  selecting, offline, returning, Exchange, come, ask, take_request, hand, start_fetcher, shutdown,
  leave,
}
use restreamer.Streaming.Proxy.Exchange.Turns.{
  Log, take_logged, served, Passed, IsRightStage, IsRightFetcher, Linear, move-IsRightStage,
  more-IsRightStage, Fetches, fetch-Fetches, serve_proxy-reply, IsLinear, moved-Linear,
  fetcher-Linear,
}

pub come-Linear :
    (p : Proxy) (log : Log) (answers : List (ℕ × Header × Response)) (e : Exchange) (c : ℕ)
    (h : Header) (stage : Stage)
    → Linear p log answers e
    → Linear p log answers (come c h stage e)
unfolding come
come-Linear p log answers e c h outside l =
    let passing = handle_http_authentication e.proxy.auth h new_response in
    moved-Linear p log answers e c _ (entered (passing.1) refl) l
  where
    entered :
        (b : Bool)
        → (handle_http_authentication e.proxy.auth h new_response).1 ≡ b
        → IsRightStage p.auth answers c (
            if b
            then asking h ((handle_http_authentication e.proxy.auth h new_response).0)
            else refused ((handle_http_authentication e.proxy.auth h new_response).0))
    entered true is =
        sym (
          ap (λ (auth : Authenticator). handle_http_authentication auth h new_response) l.same_auth)
        ∙ ap (λ (b : Bool). ((handle_http_authentication e.proxy.auth h new_response).0, b)) is
    entered false is = tt
come-Linear p log answers e c h waiting l = l
come-Linear p log answers e c h (asking _ _) l = l
come-Linear p log answers e c h (done _ _) l = l
come-Linear p log answers e c h (refused _) l = l

pub ask-Linear :
    (p : Proxy) (log : Log) (answers : List (ℕ × Header × Response)) (e : Exchange) (c : ℕ)
    (stage : Stage)
    → IsRightStage p.auth answers c stage
    → Linear p log answers e
    → Linear p log answers (ask c stage e)
unfolding ask
ask-Linear p log answers e c (asking h w) passed l =
    elim (Bool-cases (ltb (length e.queue) fetch_queue)) [
      | inl room ↦ rw room (record {
        serves = l.serves;
        same_auth = l.same_auth;
        same_stale = l.same_stale;
        queued =
            All-append (λ (r : Request). Passed p.auth r.header r.writer) e.queue _ l.queued
              (passed, tt);
        fetcher = l.fetcher;
        stages = move-IsRightStage p.auth answers c waiting e.stages tt l.stages;
      })
      | inr full ↦ rw full l
    ]
ask-Linear p log answers e c outside h l = l
ask-Linear p log answers e c waiting h l = l
ask-Linear p log answers e c (done _ _) h l = l
ask-Linear p log answers e c (refused _) h l = l

-- The point at which a call takes its place in the order.
taken-Linear :
    (p : Proxy) (log : Log) (answers : List (ℕ × Header × Response)) (e : Exchange) (a : Arrival)
    (r : Request) (rest : List Request) (x : Proxy × FetchableResource × Bool)
    → Fetches a e.proxy x
    → Passed p.auth r.header r.writer
    → All (λ (r : Request). Passed p.auth r.header r.writer) rest
    → Linear p log answers e
    → Linear p
        ((r, a) ∷ log)
        ((r.client, r.header, reply p.stale r.header x.1 r.writer) ∷ answers)
        (record e { proxy = x.0; queue = rest; fetcher = returning r x.1 })
taken-Linear p log answers e a r rest x (keeps, fetched) passed queued l = record {
  serves = served a r (reply p.stale r.header x.1 r.writer) l.serves (
      serve_proxy-reply a e.proxy r.header r.writer x
        (ap (λ (auth : Authenticator). handle_http_authentication auth r.header new_response)
            l.same_auth
          ∙ passed)
        fetched
      ∙ ap (λ (n : ℕ). ok (x.0, reply n r.header x.1 r.writer)) l.same_stale);
  same_auth = keeps.0 ∙ l.same_auth;
  same_stale = keeps.1 ∙ l.same_stale;
  queued = queued;
  fetcher = inl refl;
  stages = λ c. more-IsRightStage p.auth answers _ c (e.stages c) (l.stages c);
}

pub take_request-Linear :
    (p : Proxy) (log : Log) (answers : List (ℕ × Header × Response)) (e : Exchange) (a : Arrival)
    (f : Fetcher) (queue : List Request)
    → All (λ (r : Request). Passed p.auth r.header r.writer) queue
    → Linear p log answers e
    → OnOk (IsLinear p (take_logged a f queue log)) (take_request a f queue e)
unfolding take_request
take_request-Linear p log answers e a selecting (r ∷ rest) queued l =
    OnOk-bind (Fetches a e.proxy) (IsLinear p ((r, a) ∷ log)) (fetch a e.proxy) _
      (fetch-Fetches a e.proxy)
      (λ x fetches. (_, taken-Linear p log answers e a r rest x fetches queued.0 queued.1 l))
take_request-Linear p log answers e a selecting [] queued l = (answers, l)
take_request-Linear p log answers e a unstarted queue queued l = (answers, l)
take_request-Linear p log answers e a offline queue queued l = (answers, l)
take_request-Linear p log answers e a (returning _ _) queue queued l = (answers, l)

pub hand-Linear :
    (p : Proxy) (log : Log) (answers : List (ℕ × Header × Response)) (e : Exchange) (f : Fetcher)
    → IsRightFetcher p.stale answers f
    → Linear p log answers e
    → Linear p log answers (hand f e)
unfolding hand
hand-Linear p log answers e (returning r resource) h l =
    fetcher-Linear p log answers _ selecting tt
      (moved-Linear p log answers e r.client _ (rw l.same_stale h) l)
hand-Linear p log answers e unstarted h l = l
hand-Linear p log answers e selecting h l = l
hand-Linear p log answers e offline h l = l

pub start_fetcher-Linear :
    (p : Proxy) (log : Log) (answers : List (ℕ × Header × Response)) (e : Exchange) (f : Fetcher)
    → Linear p log answers e
    → Linear p log answers (start_fetcher f e)
unfolding start_fetcher
start_fetcher-Linear p log answers e unstarted l = fetcher-Linear p log answers e selecting tt l
start_fetcher-Linear p log answers e selecting l = l
start_fetcher-Linear p log answers e offline l = l
start_fetcher-Linear p log answers e (returning _ _) l = l

pub shutdown-Linear :
    (p : Proxy) (log : Log) (answers : List (ℕ × Header × Response)) (e : Exchange)
    → Linear p log answers e
    → OnOk (IsLinear p log) (shutdown e)
unfolding shutdown
shutdown-Linear p log answers e l = elim (Bool-cases e.is_shut) [
  | inl shut ↦ rw shut tt
  | inr not_shut ↦ rw not_shut (
    answers,
    record {
      serves = l.serves;
      same_auth = l.same_auth;
      same_stale = l.same_stale;
      queued = l.queued;
      fetcher = l.fetcher;
      stages = l.stages;
    },
  )
]

left-Linear :
    (p : Proxy) (log : Log) (answers : List (ℕ × Header × Response)) (e : Exchange) (is_shut : Bool)
    → Linear p log answers e
    → Linear p log answers (if is_shut then record e { fetcher = offline } else e)
left-Linear p log answers e true l = fetcher-Linear p log answers e offline tt l
left-Linear p log answers e false l = l

pub leave-Linear :
    (p : Proxy) (log : Log) (answers : List (ℕ × Header × Response)) (e : Exchange) (f : Fetcher)
    → Linear p log answers e
    → Linear p log answers (leave f e)
unfolding leave
leave-Linear p log answers e selecting l = left-Linear p log answers e e.is_shut l
leave-Linear p log answers e unstarted l = l
leave-Linear p log answers e offline l = l
leave-Linear p log answers e (returning _ _) l = l
