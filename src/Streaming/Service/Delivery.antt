-- ===== src/Streaming/Service/Delivery.antt =====
-- Whole schedules: which packets each client is sent.
use mathlib.Core.Path.{subst}
use restreamer.Prelude.{
  ℕ, ◌≡◌, refl, sym, ap, ◌∙◌, inl, Bool, true, false, List, [], ◌∷◌, ◌++◌, Text, All, nat_eq,
}
use restreamer.Prelude.Channel.{Outcome, ◌>>=◌, ok, OnOk}
use restreamer.Auth.{Authenticator}
use restreamer.Streaming.Connection.{Packet, Connection}
use restreamer.Streaming.Service.Portions.{IsPart, IsWhole, IsWhole-IsPart}
use mathlib.Core.List.{append_assoc, append-nil}
use restreamer.Streaming.Service.{
  Service, Phase, idle, rejected, serving, Visit, Action, begins, visits, visit, handler_step, gets,
  loses, step, run,
}
use restreamer.Streaming.Service.Invariant.{Inv}
use restreamer.Streaming.Service.Safety.{
  is_undisturbed, step-Keeps, new_service, service_never_panics,
}
use restreamer.Streaming.Service.Feed.{IsContent, Fed}
use restreamer.Streaming.Service.Feeding.{IsSetUp, IsFed}
use restreamer.Streaming.Service.Admission.{visit-IsFed}
use restreamer.Streaming.Service.Turns.{fed, runs_on, step-IsFed}

ok-injective : {w w' : Service} → ok w ≡ ok w' → w ≡ w'
ok-injective e = cc

-- The packets that come before the end of the input.
abbrev pub streamed : List Action → List Packet
streamed [] = []
streamed (gets p ∷ actions) = p ∷ streamed actions
streamed (loses ∷ actions) = []
streamed (_ ∷ actions) = streamed actions

-- The packets that the loop is given, if it runs when the actions begin.
abbrev pub distributed : Bool → List Action → List Packet
distributed true actions = streamed actions
distributed false actions = []

-- What a client has been sent of some packets: nothing if it was not let in; else the preamble and
-- packets in their order. If a queue has room for all, then these are the first ones, and all of
-- them if the client has seen the end of its queue.
pub record Receipt (qsize : ℕ) (preamble : Text) (ps : List Packet) (conn : Connection)
    : Type 0 where
  pub sent : List Packet
  pub content : IsContent preamble sent conn.writer.body
  pub part : IsPart qsize ps sent
  pub complete : conn.closed ≡ true → IsWhole qsize ps sent

abbrev pub Delivered : ℕ → Text → List Packet → Phase → Connection → Type 0
Delivered qsize preamble ps idle conn = ⊥
Delivered qsize preamble ps rejected conn = conn.writer.body ≡ []
Delivered qsize preamble ps _ conn = Receipt qsize preamble ps conn

module _ (qsize : ℕ) (preamble : Text) (k : ℕ) where
  fed-distributed :
      (a : Action) (actions : List Action) (ps : List Packet) (r : Bool)
      → fed qsize preamble k a ps r ++ distributed (runs_on qsize preamble k a r) actions
        ≡ ps ++ distributed r (a ∷ actions)
  fed-distributed (gets p) actions ps true = append_assoc ps (p ∷ []) (streamed actions)
  fed-distributed (gets p) actions ps false = refl
  fed-distributed loses actions ps true = refl
  fed-distributed loses actions ps false = refl
  fed-distributed a actions ps true = refl
  fed-distributed a actions ps false = refl

  run-IsFed :
      (actions : List Action) (ps : List Packet) (r : Bool) (w : Service)
      → All (λ a. is_undisturbed a ≡ true) actions
      → Inv w
      → IsFed qsize preamble k ps r w
      → (w' : Service) × (r' : Bool) × (run actions w ≡ ok w')
        × IsFed qsize preamble k (ps ++ distributed r actions) r' w'
  unfolding run
  run-IsFed [] ps true w u i f = (w, true, refl, rw (append-nil ps) f)
  run-IsFed [] ps false w u i f = (w, false, refl, rw (append-nil ps) f)
  run-IsFed (a ∷ actions) ps r w u i f =
      let (w', e, i') = step-Keeps a w u.0 i in
      let ps' = fed qsize preamble k a ps r in
      let r' = runs_on qsize preamble k a r in
      let f' : IsFed qsize preamble k ps' r' w' =
        subst (OnOk (IsFed qsize preamble k ps' r')) e
          (step-IsFed qsize preamble k a ps r w u.0 i f) in
      let (w'', r'', e', f'') = run-IsFed actions ps' r' w' u.1 i' f' in
      (
        w'',
        r'',
        rw e e',
        subst (λ qs. IsFed qsize preamble k qs r'' w'') (fed-distributed a actions ps r) f'',
      )

  Fed-Delivered :
      (ps : List Packet) (r : Bool) (phase : Phase) (conn : Connection)
      → Fed qsize preamble ps r phase conn
      → Delivered qsize preamble ps phase conn
  Fed-Delivered ps r serving conn f = record {
    sent = f.sent;
    content = inl f.content;
    part = IsWhole-IsPart qsize ps f.sent conn.queue.items f.whole;
    complete = λ e. cc (f.unflagged);
  }
  Fed-Delivered ps r idle conn f = f
  Fed-Delivered ps r rejected conn f = f
  Fed-Delivered ps r phase conn f = record {
    sent = f.sent;
    content = f.content;
    part = f.part;
    complete = λ e. (f.complete e).1;
  }

first_visit : (v : Visit) (w : Service) → w.phase v.client ≡ idle → step (visits v) w ≡ visit v w
unfolding step handler_step
first_visit v w e = ap (λ p. handler_step (visits v) p w) e

-- Let a streamer be started once and never inhibited, and let a client come for the first time after
-- any schedule. After any further one, the client has been sent nothing if it was not let in.
-- Otherwise it has been sent the preamble, or nothing at all, and then packets that the loop was
-- given since the client came and before the end of the input, in their order. If a queue has room
-- for all of these, the client has been sent the first ones without a gap, and each of them if it
-- has seen the end of its queue. No step panics.
pub visit-Delivered :
    (qsize limit : ℕ) (auth : Authenticator) (preamble : Text) (earlier : List Action) (v : Visit)
    (later : List Action) (w : Service)
    → All (λ a. is_undisturbed a ≡ true) earlier
    → All (λ a. is_undisturbed a ≡ true) later
    → run (begins ∷ earlier) (new_service qsize limit auth preamble) ≡ ok w
    → w.phase v.client ≡ idle
    → (w' : Service) × (run (visits v ∷ later) w ≡ ok w')
      × Delivered w.streamer.queue_size w.streamer.preamble
          (distributed w.streamer.running later)
          (w'.phase v.client)
          (w'.streamer.conns v.client)
unfolding run
visit-Delivered qsize limit auth preamble earlier v later w before after e first =
    let (w₁, e₁, i₁) = service_never_panics qsize limit auth preamble earlier before in
    let i : Inv w = subst Inv (ok-injective (sym e₁ ∙ e)) i₁ in
    let k = v.client in
    let s = w.streamer in
    let (w₂, e₂, i₂) = step-Keeps (visits v) w refl i in
    let set_up : IsSetUp s.queue_size s.preamble k s.running w = record {
      runs = refl;
      same_size = refl;
      same_preamble = refl;
    } in
    let f : IsFed s.queue_size s.preamble k [] s.running w₂ =
      subst (OnOk (IsFed s.queue_size s.preamble k [] s.running)) (sym (first_visit v w first) ∙ e₂)
        (visit-IsFed s.queue_size s.preamble k v [] s.running w i first set_up
          (λ other. absurd (other refl)) (λ same. refl)) in
    let (w₃, r, e₃, f₃) = run-IsFed s.queue_size s.preamble k later [] s.running w₂ after i₂ f in
    (
      w₃,
      ap (λ (o : Outcome Service). o >>= run later) e₂ ∙ e₃,
      Fed-Delivered s.queue_size s.preamble k (distributed s.running later) r (w₃.phase k)
          (w₃.streamer.conns k) f₃.client,
    )
