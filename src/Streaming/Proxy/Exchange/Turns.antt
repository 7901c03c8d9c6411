-- ===== src/Streaming/Proxy/Exchange/Turns.antt =====
-- Calls of ServeHTTP in turn, and what the calls that overlap have to do with them.
use mathlib.Core.Path.{subst}
use restreamer.Prelude.{
  ℕ, ◌≡◌, ◌⊎◌, ==_iff, nat_eq, refl, inl, inr, Bool, true, Bool-cases, List, [], ◌∷◌, Option, none,
  some, ◌==◌, All,
}
use restreamer.Prelude.Http.{Header, Response, new_response}
use restreamer.Prelude.Channel.{OnOk-both, OnOk-self, ok, panic, OnOk, OnOk-then}
use restreamer.Auth.{Authenticator, handle_http_authentication}
use restreamer.Streaming.Proxy.{
  Proxy, FetchableResource, Arrival, cache, refetch, is_stale, fetch_with, fetch, reply,
  serve_proxy,
}
use restreamer.Streaming.Proxy.Exchange.{
  Request, Stage, outside, waiting, asking, done, refused, Fetcher, unstarted, selecting, offline,
  returning, Exchange, move, Action, comes, asks, takes, hands, starts, shuts, leaves, step,
}

-- The requests that the fetcher has taken, the latest first, each with what it met.
abbrev pub Log : Type 1
Log = List (Request × Arrival)

-- The log after the fetcher takes, if it does.
abbrev pub take_logged : Arrival → Fetcher → List Request → Log → Log
take_logged a selecting (r ∷ rest) log = (r, a) ∷ log
take_logged a selecting [] log = log
take_logged a unstarted queue log = log
take_logged a offline queue log = log
take_logged a (returning _ _) queue log = log

abbrev pub logged : Action → Exchange → Log → Log
logged (comes c h) e log = log
logged (asks c) e log = log
logged (takes a) e log = take_logged a e.fetcher e.queue log
logged hands e log = log
logged starts e log = log
logged shuts e log = log
logged leaves e log = log

-- The log of a schedule.
abbrev pub log_of : List Action → Exchange → Log → Log
log_of [] e log = log
log_of (a ∷ schedule) e log = elim (step a e) [
  | ok e' ↦ log_of schedule e' (logged a e log)
  | panic ↦ log
]

-- From a proxy, one call of ServeHTTP for each request of a log, the latest first, gives these
-- answers, and this proxy.
pub data Serves (p : Proxy) : Log → List (ℕ × Header × Response) → Proxy → Type 1 where
  none_served : Serves p [] [] p
  served :
      {log : Log} {answers : List (ℕ × Header × Response)} {q q' : Proxy} (a : Arrival)
      (r : Request) (w : Response)
      → Serves p log answers q
      → serve_proxy a r.header q ≡ ok (q', w)
      → Serves p ((r, a) ∷ log) ((r.client, r.header, w) ∷ answers) q'

abbrev pub IsAnswer : ℕ × Header × Response → List (ℕ × Header × Response) → Type 0
IsAnswer x [] = ⊥
IsAnswer x (y ∷ ys) = (x ≡ y) ⊎ IsAnswer x ys

abbrev pub Passed : Authenticator → Header → Response → Type 0
Passed auth h w = handle_http_authentication auth h new_response ≡ (w, true)

abbrev pub IsRightStage : Authenticator → List (ℕ × Header × Response) → ℕ → Stage → Type 0
IsRightStage auth answers c (asking h w) = Passed auth h w
IsRightStage auth answers c (done h w) = IsAnswer (c, h, w) answers
IsRightStage auth answers c outside = Unit {0}
IsRightStage auth answers c waiting = Unit {0}
IsRightStage auth answers c (refused w) = Unit {0}

abbrev pub IsRightFetcher : ℕ → List (ℕ × Header × Response) → Fetcher → Type 0
IsRightFetcher stale answers (returning r resource) =
    IsAnswer (r.client, r.header, reply stale r.header resource r.writer) answers
IsRightFetcher stale answers unstarted = Unit {0}
IsRightFetcher stale answers selecting = Unit {0}
IsRightFetcher stale answers offline = Unit {0}

-- What holds at any time.
pub record Linear (p : Proxy) (log : Log) (answers : List (ℕ × Header × Response)) (e : Exchange)
    : Type 1 where
  pub serves : Serves p log answers e.proxy
  pub same_auth : e.proxy.auth ≡ p.auth
  pub same_stale : e.proxy.stale ≡ p.stale
  pub queued : All (λ (r : Request). Passed p.auth r.header r.writer) e.queue
  pub fetcher : IsRightFetcher p.stale answers e.fetcher
  pub stages : (c : ℕ) → IsRightStage p.auth answers c (e.stages c)

pub move-IsRightStage :
    (auth : Authenticator) (answers : List (ℕ × Header × Response)) (c : ℕ) (stage : Stage)
    (stages : ℕ → Stage)
    → IsRightStage auth answers c stage
    → ((d : ℕ) → IsRightStage auth answers d (stages d))
    → (d : ℕ) → IsRightStage auth answers d (move c stage stages d)
move-IsRightStage auth answers c stage stages h k d = elim (Bool-cases (c == d)) [
  | inl e ↦ rw e (subst (λ n. IsRightStage auth answers n stage) ((==_iff c d).0 e) h)
  | inr e ↦ rw e (k d)
]

-- More answers change nothing.
pub more-IsRightStage :
    (auth : Authenticator) (answers : List (ℕ × Header × Response)) (x : ℕ × Header × Response)
    (c : ℕ) (stage : Stage)
    → IsRightStage auth answers c stage
    → IsRightStage auth (x ∷ answers) c stage
more-IsRightStage auth answers x c (asking h w) r = r
more-IsRightStage auth answers x c (done h w) r = inr r
more-IsRightStage auth answers x c outside r = r
more-IsRightStage auth answers x c waiting r = r
more-IsRightStage auth answers x c (refused w) r = r

abbrev KeepsSettings : Proxy → Proxy × FetchableResource × Bool → Type 0
KeepsSettings p x = (x.0.auth ≡ p.auth) × (x.0.stale ≡ p.stale)

refetch-KeepsSettings : (a : Arrival) (p : Proxy) → OnOk (KeepsSettings p) (refetch a p)
refetch-KeepsSettings a p =
    OnOk-then (KeepsSettings p) (cache a.upstream a.later p) _ (λ r. (refl, refl))

fetch_with-KeepsSettings :
    (a : Arrival) (p : Proxy) (o : Option FetchableResource)
    → OnOk (KeepsSettings p) (fetch_with a p o)
fetch_with-KeepsSettings a p none = refetch-KeepsSettings a p
fetch_with-KeepsSettings a p (some r) = elim (Bool-cases (is_stale a.now p.stale r)) [
  | inl old ↦ rw old (refetch-KeepsSettings a p)
  | inr young ↦ rw young (refl, refl)
]

-- A fetch, with the call of ServeHTTP that it belongs to.
abbrev pub Fetches : Arrival → Proxy → Proxy × FetchableResource × Bool → Type 0
Fetches a p x = KeepsSettings p x × (fetch a p ≡ ok x)

pub fetch-Fetches : (a : Arrival) (p : Proxy) → OnOk (Fetches a p) (fetch a p)
unfolding fetch
fetch-Fetches a p =
    OnOk-both (KeepsSettings p) (λ x. fetch a p ≡ ok x) (fetch a p)
      (fetch_with-KeepsSettings a p p.resource) (OnOk-self (fetch a p))

pub serve_proxy-reply :
    (a : Arrival) (p : Proxy) (h : Header) (w : Response) (x : Proxy × FetchableResource × Bool)
    → Passed p.auth h w
    → fetch a p ≡ ok x
    → serve_proxy a h p ≡ ok (x.0, reply p.stale h x.1 w)
unfolding serve_proxy
serve_proxy-reply a p h w x passed e = rw (passed, e) refl

-- The exchange after a step, with the answers that it may have added.
abbrev pub IsLinear : Proxy → Log → Exchange → Type 1
IsLinear p log e = (answers : List (ℕ × Header × Response)) × Linear p log answers e

-- What all steps but those of the fetcher do: a call gets to another stage.
pub moved-Linear :
    (p : Proxy) (log : Log) (answers : List (ℕ × Header × Response)) (e : Exchange) (c : ℕ)
    (stage : Stage)
    → IsRightStage p.auth answers c stage
    → Linear p log answers e
    → Linear p log answers (record e { stages = move c stage e.stages })
moved-Linear p log answers e c stage h l = record {
  serves = l.serves;
  same_auth = l.same_auth;
  same_stale = l.same_stale;
  queued = l.queued;
  fetcher = l.fetcher;
  stages = move-IsRightStage p.auth answers c stage e.stages h l.stages;
}

-- The fetcher gets to another place.
pub fetcher-Linear :
    (p : Proxy) (log : Log) (answers : List (ℕ × Header × Response)) (e : Exchange) (f : Fetcher)
    → IsRightFetcher p.stale answers f
    → Linear p log answers e
    → Linear p log answers (record e { fetcher = f })
fetcher-Linear p log answers e f h l = record {
  serves = l.serves;
  same_auth = l.same_auth;
  same_stale = l.same_stale;
  queued = l.queued;
  fetcher = h;
  stages = l.stages;
}
