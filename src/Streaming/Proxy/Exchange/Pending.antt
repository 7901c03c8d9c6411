-- ===== src/Streaming/Proxy/Exchange/Pending.antt =====
-- Where the request of a call is that waits for its resource.
use restreamer.Prelude.{
  ℕ, ◌≡◌, ◌≢◌, ◌⊎◌, nat_eq, refl, inl, inr, Bool, true, false, Bool-cases, List, [], ◌∷◌, ◌++◌, ltb,
  length, if◌then◌else◌, beq_ne, Eq-cases, beq_refl,
}
use mathlib.Core.Path.{subst}
use restreamer.Prelude.Http.{Header, Response, new_response}
use restreamer.Prelude.Channel.{OnOk, OnOk-bind, OnOk-then}
use restreamer.Auth.{handle_http_authentication}
use restreamer.Streaming.Proxy.{FetchableResource, Arrival, fetch}
use restreamer.Streaming.Proxy.Exchange.{
  fetch_queue, Request, Stage, outside, waiting, asking, done, refused, Fetcher, unstarted,
  selecting, offline, returning, Exchange, move, come, ask, take_request, hand, start_fetcher,
  shutdown, leave, Action, comes, asks, takes, hands, starts, shuts, leaves, step, run,
}

abbrev IsQueued : ℕ → List Request → Type 0
IsQueued c [] = ⊥
IsQueued c (r ∷ rs) = (r.client ≡ c) ⊎ IsQueued c rs

abbrev IsHeld : ℕ → Fetcher → Type 0
IsHeld c (returning r resource) = r.client ≡ c
IsHeld c unstarted = ⊥
IsHeld c selecting = ⊥
IsHeld c offline = ⊥

abbrev IsPendingAt : Fetcher → List Request → ℕ → Stage → Type 0
IsPendingAt f queue c waiting = IsHeld c f ⊎ IsQueued c queue
IsPendingAt f queue c outside = Unit {0}
IsPendingAt f queue c (asking _ _) = Unit {0}
IsPendingAt f queue c (done _ _) = Unit {0}
IsPendingAt f queue c (refused _) = Unit {0}

-- Every call that waits.
abbrev pub IsPending : Exchange → Type 0
IsPending e = (c : ℕ) → IsPendingAt e.fetcher e.queue c (e.stages c)

module _ (f f' : Fetcher) (queue queue' : List Request) where
  IsPendingAt-imp :
      (c : ℕ) (stage : Stage)
      → (IsHeld c f ⊎ IsQueued c queue → IsHeld c f' ⊎ IsQueued c queue')
      → IsPendingAt f queue c stage
      → IsPendingAt f' queue' c stage
  IsPendingAt-imp c waiting h p = h p
  IsPendingAt-imp c outside h p = tt
  IsPendingAt-imp c (asking _ _) h p = tt
  IsPendingAt-imp c (done _ _) h p = tt
  IsPendingAt-imp c (refused _) h p = tt

module _ (f : Fetcher) (queue : List Request) where
  move-IsPendingAt :
      (c : ℕ) (stage : Stage) (stages : ℕ → Stage)
      → IsPendingAt f queue c stage
      → ((d : ℕ) → c ≢ d → IsPendingAt f queue d (stages d))
      → (d : ℕ) → IsPendingAt f queue d (move c stage stages d)
  move-IsPendingAt c stage stages h k d = elim (Eq-cases c d) [
    | inl e ↦ (subst (λ n. IsPendingAt f queue n (move c stage stages n)) e (rw (beq_refl c) h))
    | inr e ↦ rw (beq_ne c d e) (k d e)
  ]

IsQueued-left : (c : ℕ) (rs ss : List Request) → IsQueued c rs → IsQueued c (rs ++ ss)
IsQueued-left c [] ss h = absurd h
IsQueued-left c (r ∷ rs) ss (inl h) = inl h
IsQueued-left c (r ∷ rs) ss (inr h) = inr (IsQueued-left c rs ss h)

IsQueued-last : (r : Request) (rs : List Request) → IsQueued r.client (rs ++ (r ∷ []))
IsQueued-last r [] = inl refl
IsQueued-last r (s ∷ rs) = inr (IsQueued-last r rs)

entered-IsPendingAt :
    (f : Fetcher) (queue : List Request) (c : ℕ) (h : Header) (w : Response) (passed : Bool)
    → IsPendingAt f queue c (if passed then asking h w else refused w)
entered-IsPendingAt f queue c h w true = tt
entered-IsPendingAt f queue c h w false = tt

come-IsPending :
    (e : Exchange) (c : ℕ) (h : Header) (stage : Stage) → IsPending e → IsPending (come c h stage e)
unfolding come
come-IsPending e c h outside p =
    let (w, passed) = handle_http_authentication e.proxy.auth h new_response in
    move-IsPendingAt e.fetcher e.queue c _ e.stages
      (entered-IsPendingAt e.fetcher e.queue c h w passed) (λ d other. p d)
come-IsPending e c h waiting p = p
come-IsPending e c h (asking _ _) p = p
come-IsPending e c h (done _ _) p = p
come-IsPending e c h (refused _) p = p

ask-IsPending : (e : Exchange) (c : ℕ) (stage : Stage) → IsPending e → IsPending (ask c stage e)
unfolding ask
ask-IsPending e c (asking h w) p = elim (Bool-cases (ltb (length e.queue) fetch_queue)) [
  | inl room ↦
      let r : Request = record { client = c; header = h; writer = w } in
      rw room (
        move-IsPendingAt e.fetcher (e.queue ++ (r ∷ [])) c waiting e.stages
          (inr (IsQueued-last r e.queue))
          (λ d other.
            IsPendingAt-imp e.fetcher e.fetcher e.queue (e.queue ++ (r ∷ [])) d (e.stages d)
              (λ q. elim q [
                | inl held ↦ inl held
                | inr queued ↦ inr (IsQueued-left d e.queue _ queued)
              ])
              (p d)))
  | inr full ↦ rw full p
]
ask-IsPending e c outside p = p
ask-IsPending e c waiting p = p
ask-IsPending e c (done _ _) p = p
ask-IsPending e c (refused _) p = p

taken_from :
    (r : Request) (rest : List Request) (resource : FetchableResource) (d : ℕ)
    → IsHeld d selecting ⊎ IsQueued d (r ∷ rest)
    → IsHeld d (returning r resource) ⊎ IsQueued d rest
taken_from r rest resource d (inl held) = absurd held
taken_from r rest resource d (inr (inl first)) = inl first
taken_from r rest resource d (inr (inr later)) = inr later

-- The fetcher and the queue that the exchange has are also arguments here.
take_request-IsPending :
    (e : Exchange) (a : Arrival) (f : Fetcher) (queue : List Request)
    → ((c : ℕ) → IsPendingAt f queue c (e.stages c))
    → IsPending e
    → OnOk IsPending (take_request a f queue e)
unfolding take_request
take_request-IsPending e a selecting (r ∷ rest) h p =
    OnOk-then IsPending (fetch a e.proxy) _ (λ x d.
      IsPendingAt-imp selecting (returning r x.1) (r ∷ rest) rest d (e.stages d)
        (taken_from r rest x.1 d) (h d))
take_request-IsPending e a selecting [] h p = p
take_request-IsPending e a unstarted queue h p = p
take_request-IsPending e a offline queue h p = p
take_request-IsPending e a (returning _ _) queue h p = p

hand-IsPending :
    (e : Exchange) (f : Fetcher)
    → ((c : ℕ) → IsPendingAt f e.queue c (e.stages c))
    → IsPending e
    → IsPending (hand f e)
unfolding hand
hand-IsPending e (returning r resource) h p =
    move-IsPendingAt selecting e.queue r.client _ e.stages tt (λ d other.
      IsPendingAt-imp (returning r resource) selecting e.queue e.queue d (e.stages d)
        (λ q. elim q [ inl held ↦ absurd (other held) | inr queued ↦ inr queued ]) (h d))
hand-IsPending e unstarted h p = p
hand-IsPending e selecting h p = p
hand-IsPending e offline h p = p

-- A fetcher without a request gets to another place.
idle-IsPending :
    (e : Exchange) (f f' : Fetcher)
    → ((d : ℕ) → IsHeld d f → ⊥)
    → ((c : ℕ) → IsPendingAt f e.queue c (e.stages c))
    → (c : ℕ) → IsPendingAt f' e.queue c (e.stages c)
idle-IsPending e f f' none_held h c =
    IsPendingAt-imp f f' e.queue e.queue c (e.stages c)
      (λ q. elim q [ inl held ↦ absurd (none_held c held) | inr queued ↦ inr queued ]) (h c)

start_fetcher-IsPending :
    (e : Exchange) (f : Fetcher)
    → ((c : ℕ) → IsPendingAt f e.queue c (e.stages c))
    → IsPending e
    → IsPending (start_fetcher f e)
unfolding start_fetcher
start_fetcher-IsPending e unstarted h p = idle-IsPending e unstarted selecting (λ d x. x) h
start_fetcher-IsPending e selecting h p = p
start_fetcher-IsPending e offline h p = p
start_fetcher-IsPending e (returning _ _) h p = p

left-IsPending :
    (e : Exchange) (is_shut : Bool)
    → ((c : ℕ) → IsPendingAt selecting e.queue c (e.stages c))
    → IsPending e
    → IsPending (if is_shut then record e { fetcher = offline } else e)
left-IsPending e true h p = idle-IsPending e selecting offline (λ d x. x) h
left-IsPending e false h p = p

leave-IsPending :
    (e : Exchange) (f : Fetcher)
    → ((c : ℕ) → IsPendingAt f e.queue c (e.stages c))
    → IsPending e
    → IsPending (leave f e)
unfolding leave
leave-IsPending e selecting h p = left-IsPending e e.is_shut h p
leave-IsPending e unstarted h p = p
leave-IsPending e offline h p = p
leave-IsPending e (returning _ _) h p = p

shutdown-IsPending : (e : Exchange) → IsPending e → OnOk IsPending (shutdown e)
unfolding shutdown
shutdown-IsPending e p = elim (Bool-cases e.is_shut) [
  | inl shut ↦ rw shut tt
  | inr not_shut ↦ rw not_shut p
]

step-IsPending : (a : Action) (e : Exchange) → IsPending e → OnOk IsPending (step a e)
unfolding step
step-IsPending (comes c h) e p = come-IsPending e c h (e.stages c) p
step-IsPending (asks c) e p = ask-IsPending e c (e.stages c) p
step-IsPending (takes a) e p = take_request-IsPending e a e.fetcher e.queue p p
step-IsPending hands e p = hand-IsPending e e.fetcher p p
step-IsPending starts e p = start_fetcher-IsPending e e.fetcher p p
step-IsPending shuts e p = shutdown-IsPending e p
step-IsPending leaves e p = leave-IsPending e e.fetcher p p

pub run-IsPending :
    (schedule : List Action) (e : Exchange) → IsPending e → OnOk IsPending (run schedule e)
unfolding run
run-IsPending [] e p = p
run-IsPending (a ∷ schedule) e p =
    OnOk-bind IsPending IsPending (step a e) _ (step-IsPending a e p)
      (λ e' p'. run-IsPending schedule e' p')
