-- ===== src/Streaming/Proxy/Exchange/Linear.antt =====
-- Calls of ServeHTTP that overlap, and the same calls one after the other.
use mathlib.Core.Path.{subst}
use restreamer.Prelude.{ℕ, ◌≡◌, nat_eq, refl, List, [], ◌∷◌}
use restreamer.Prelude.Http.{Header, Response}
use restreamer.Prelude.Channel.{ok, OnOk-both, OnOk-imp, OnOk-self, OnOk, OnOk-bind}
use restreamer.Streaming.Proxy.{Proxy}
use restreamer.Streaming.Proxy.Exchange.{
  done, Exchange, new_exchange, Action, comes, asks, takes, hands, starts, shuts, leaves, step, run,
}
use restreamer.Streaming.Proxy.Exchange.Pending.{IsPending, run-IsPending}
use restreamer.Streaming.Proxy.Exchange.Turns.{
  Log, logged, log_of, Serves, none_served, IsAnswer, IsRightStage, IsLinear,
}
use restreamer.Streaming.Proxy.Exchange.Steps.{
  come-Linear, ask-Linear, take_request-Linear, hand-Linear, start_fetcher-Linear, shutdown-Linear,
  leave-Linear,
}

step-Linear :
    (p : Proxy) (log : Log) (a : Action) (e : Exchange)
    → IsLinear p log e
    → OnOk (IsLinear p (logged a e log)) (step a e)
unfolding step
step-Linear p log (comes c h) e (answers, l) =
    (answers, come-Linear p log answers e c h (e.stages c) l)
step-Linear p log (asks c) e (answers, l) =
    (answers, ask-Linear p log answers e c (e.stages c) (l.stages c) l)
step-Linear p log (takes a) e (answers, l) =
    take_request-Linear p log answers e a e.fetcher e.queue l.queued l
step-Linear p log hands e (answers, l) =
    (answers, hand-Linear p log answers e e.fetcher l.fetcher l)
step-Linear p log starts e (answers, l) =
    (answers, start_fetcher-Linear p log answers e e.fetcher l)
step-Linear p log shuts e (answers, l) = shutdown-Linear p log answers e l
step-Linear p log leaves e (answers, l) = (answers, leave-Linear p log answers e e.fetcher l)

run-Linear :
    (p : Proxy) (log : Log) (schedule : List Action) (e : Exchange)
    → IsLinear p log e
    → OnOk (IsLinear p (log_of schedule e log)) (run schedule e)
unfolding run
run-Linear p log [] e l = l
run-Linear p log (a ∷ schedule) e l =
    OnOk-bind (λ e'. IsLinear p (logged a e log) e' × (step a e ≡ ok e'))
      (IsLinear p (log_of (a ∷ schedule) e log)) (step a e) _
      (OnOk-both (IsLinear p (logged a e log)) (λ e'. step a e ≡ ok e') (step a e)
        (step-Linear p log a e l) (OnOk-self (step a e)))
      (λ e' (l', is). rw (is, log_of) (run-Linear p (logged a e log) schedule e' l'))

-- The requests of the log, served in turn by a proxy, give what the exchange answers.
abbrev pub IsServedInTurn : Proxy → Log → Exchange → Type 1
IsServedInTurn p log e =
    (answers : List (ℕ × Header × Response)) × Serves p log answers e.proxy
    × ((c : ℕ) (h : Header) (w : Response) → e.stages c ≡ done h w → IsAnswer (c, h, w) answers)

served-IsServedInTurn :
    (p : Proxy) (schedule : List Action)
    → OnOk (IsServedInTurn p (log_of schedule (new_exchange p) [])) (run schedule (new_exchange p))
unfolding new_exchange
served-IsServedInTurn p schedule =
    let log = log_of schedule (new_exchange p) [] in
    OnOk-imp {P = IsLinear p log} {Q = IsServedInTurn p log} (run schedule (new_exchange p))
      (run-Linear p [] schedule (new_exchange p) (
        [],
        record {
          serves = none_served;
          same_auth = refl;
          same_stale = refl;
          queued = tt;
          fetcher = tt;
          stages = λ c. tt;
        },
      ))
      (λ e (answers, l).
        (answers, l.serves, λ c h w at. subst (IsRightStage p.auth answers c) at (l.stages c)))

-- In every schedule of calls of ServeHTTP, steps of the fetcher, Start and Shutdown, unless it panics:
-- calls of ServeHTTP one after the other on the proxy that was made at first, one for each request
-- that the fetcher takes in the schedule, in the order in which it takes them and with the times and
-- the upstream that it meets then, give every call that has got a resource its answer, and bring the
-- proxy to its present state. A call that waits for its resource has its request in the queue or with
-- the fetcher.
pub run-IsServedInTurn :
    (p : Proxy) (schedule : List Action)
    → OnOk
        (λ e. IsServedInTurn p (log_of schedule (new_exchange p) []) e × IsPending e)
        (run schedule (new_exchange p))
unfolding new_exchange
run-IsServedInTurn p schedule =
    OnOk-both (IsServedInTurn p (log_of schedule (new_exchange p) [])) IsPending
      (run schedule (new_exchange p)) (served-IsServedInTurn p schedule)
      (run-IsPending schedule (new_exchange p) (λ c. tt))
