-- ===== src/Event/Reporter/Steps.antt =====
-- What each step keeps, and any history, also with calls of Shutdown.
use mathlib.Core.List.{append_assoc, append-nil}
use mathlib.Core.Path.{subst}
use restreamer.Prelude.{
  ◌≡◌, refl, sym, Bool, true, false, ◌&&◌, List, [], ◌∷◌, ◌++◌, arith, if◌then◌else◌,
}
use restreamer.Prelude.Channel.{Outcome, ok, OnOk, OnOk-bind}
use restreamer.Event.Queue.{Queue, StateChange}
use restreamer.Event.Reporter.{
  Reporter, start_reporter, send, shut_down, take_message, end_loop, Action, starts, shuts_down,
  takes, stops, notifies, step, run,
}
use restreamer.Event.Reporter.Operations.{
  Reports, start-Reports, take-Reports, send-Reports, end-Reports, Sends,
}

-- Is this no call of Shutdown?
abbrev pub is_kept_up : Action → Bool
is_kept_up shuts_down = false
is_kept_up _ = true

-- No call of Shutdown so far, and none among the actions?
abbrev pub kept_up : Bool → List Action → Bool
kept_up clean [] = clean
kept_up clean (a ∷ actions) = kept_up (is_kept_up a && clean) actions

and_right : (a b : Bool) → (a && b) ≡ true → b ≡ true
and_right a b e = ground arith

module _ (q₀ : Queue) where
  -- After a step, with the messages that it sent.
  abbrev pub Goes : Bool → List StateChange → Reporter × List StateChange → Type 0
  Goes clean ms (r, sent) = Reports q₀ clean (ms ++ sent) r

  pub silent :
      (clean : Bool) (ms : List StateChange) (r : Reporter)
      → Reports q₀ clean ms r
      → Goes clean ms (r, [])
  silent clean ms r f = subst (λ l. Reports q₀ clean l r) (sym (append-nil ms)) f

  unclean :
      (clean : Bool) (ms : List StateChange) (r : Reporter)
      → Reports q₀ clean ms r
      → Reports q₀ false ms r
  unclean clean ms r f = record {
    handled = f.handled;
    queue = f.queue;
    calls = f.calls;
    in_order = f.in_order;
    bounded = f.bounded;
    idle = f.idle;
    complete = λ c. cc;
  }

  -- The ways through a test whose branches succeed or panic.
  either :
      {A : Type 0} (P : A → Type 0) (b : Bool) (o o' : Outcome A)
      → (b ≡ true → OnOk P o)
      → (b ≡ false → OnOk P o')
      → OnOk P (if b then o else o')
  either P true o o' yes' no' = yes' refl
  either P false o o' yes' no' = no' refl

  shut_down-Reports :
      (clean : Bool) (ms : List StateChange) (r : Reporter)
      → Reports q₀ clean ms r
      → OnOk (Reports q₀ false ms) (shut_down r)
  unfolding shut_down
  shut_down-Reports clean ms r f =
      either (Reports q₀ false ms) r.queue.running _ _
        (λ on.
          either (Reports q₀ false ms) r.shutdown _ _ (λ again. tt)
            (λ first. record {
              handled = f.handled;
              queue = f.queue;
              calls = f.calls;
              in_order = f.in_order;
              bounded = f.bounded;
              idle = f.idle;
              complete = λ c. cc;
            }))
        (λ off. unclean clean ms r f)

  stops-Goes :
      (clean : Bool) (ms : List StateChange) (r : Reporter)
      → Reports q₀ clean ms r
      → OnOk (Goes clean ms) (step stops r)
  unfolding step
  stops-Goes true ms r f =
      let (all, unshut, is_open) = f.complete refl in
      either (Goes true ms) (r.looping && r.shutdown) _ _
        (λ e. cc (unshut, and_right r.looping r.shutdown e)) (λ e. silent true ms r f)
  stops-Goes false ms r f =
      either (Goes false ms) (r.looping && r.shutdown) _ _
        (λ e.
          OnOk-bind (Reports q₀ false ms) (Goes false ms) (end_loop r) (λ r'. ok (r', []))
            (end-Reports q₀ false ms r.queue r.shutdown r.looping r.calls r.notifier f)
            (λ r' f'. silent false ms r' f'))
        (λ e. silent false ms r f)

  takes-Goes :
      (clean : Bool) (ms : List StateChange) (r : Reporter)
      → Reports q₀ clean ms r
      → (looping : Bool) → Reports q₀ clean ms (if looping then take_message r else r)
  takes-Goes clean ms r f true =
      take-Reports q₀ clean ms r.queue r.shutdown r.looping r.calls r.notifier f
  takes-Goes clean ms r f false = f

  pub step-Goes :
      (a : Action) (clean : Bool) (ms : List StateChange) (r : Reporter)
      → Reports q₀ clean ms r
      → OnOk (Goes (is_kept_up a && clean) ms) (step a r)
  unfolding step
  step-Goes starts clean ms r f = silent clean ms (start_reporter r) (start-Reports q₀ clean ms r f)
  step-Goes shuts_down clean ms r f =
      OnOk-bind (Reports q₀ false ms) (Goes false ms) (shut_down r) (λ r'. ok (r', []))
        (shut_down-Reports clean ms r f) (λ r' f'. silent false ms r' f')
  step-Goes takes clean ms r f = silent clean ms _ (takes-Goes clean ms r f r.looping)
  step-Goes stops clean ms r f = stops-Goes clean ms r f
  step-Goes (notifies m) clean ms r f =
      OnOk-bind (Sends q₀ clean ms r.queue r.shutdown r.looping r.calls m) (Goes clean ms)
        (send m r) _ (send-Reports q₀ clean ms r.queue r.shutdown r.looping r.calls m r.notifier f)
        (λ x f'. f')

  run-Reports :
      (actions : List Action) (clean : Bool) (ms : List StateChange) (r : Reporter)
      → Reports q₀ clean ms r
      → OnOk (Goes (kept_up clean actions) ms) (run actions r)
  unfolding run
  run-Reports [] clean ms r f = silent clean ms r f
  run-Reports (a ∷ actions) clean ms r f =
      let clean' = is_kept_up a && clean in
      OnOk-bind (Goes clean' ms) (Goes (kept_up clean' actions) ms) (step a r) _
        (step-Goes a clean ms r f)
        (λ x f'.
          OnOk-bind (Goes (kept_up clean' actions) (ms ++ x.1)) (Goes (kept_up clean' actions) ms)
            (run actions x.0) _ (run-Reports actions clean' (ms ++ x.1) x.0 f')
            (λ y g.
              subst (λ l. Reports q₀ (kept_up clean' actions) l y.0) (append_assoc ms x.1 y.1) g))
