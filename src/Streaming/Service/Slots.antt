-- ===== src/Streaming/Service/Slots.antt =====
-- The counter of the broker and the handlers that hold a connection.
use mathlib.Core.Path.{subst}
use restreamer.Prelude.{
  ℕ, suc, ◌+◌, ◌-◌, ◌^◌, ◌≤◌, ◌<◌, ◌≡◌, refl, sym, ap, ◌∙◌, inl, inr, Bool, true, false, ◌||◌, List,
  [], ◌∷◌, length, All, Text, ◌==◌, nat_eq, Eq-cases, beq_ne, beq_refl, arith,
}
use restreamer.Prelude.Channel.{ok, OnOk}
use restreamer.Auth.{Authenticator}
use restreamer.Streaming.Acl.{AccessController, new_access_controller, accept, release}
use restreamer.Streaming.Streamer.{delete_conn, new_streamer, begin_stream}
use restreamer.Streaming.Streamer.Distribute.{member, IsDistinct}
use restreamer.Streaming.Service.{Service, Action, begins, step, run}
use restreamer.Streaming.Service.Phases.{member-delete, delete-IsDistinct}
use restreamer.Streaming.Service.Invariant.{Inv}
use restreamer.Streaming.Service.Effects.{
  holds, policy_of, Effect, keeps, refuses, takes, gives, step-Effect,
}
use restreamer.Streaming.Service.Safety.{is_undisturbed, step-Keeps, new_service, started-Inv}

-- The handlers that hold a connection, each once, and the counter is their number.
pub record IsBalanced (w : Service) : Type 0 where
  pub holders : List ℕ
  pub distinct : IsDistinct holders
  pub exactly : (c : ℕ) → member c holders ≡ holds (w.phase c)
  pub counted : (policy_of w).connections ≡ length holders

accept_taken :
    (p : AccessController)
    → (accept p).1 ≡ true
    → p.connections + 1 < 2 ^ 64
    → (accept p).0.connections ≡ p.connections + 1
unfolding accept
accept_taken p t h = ground arith

accept_full : (p : AccessController) → (accept p).1 ≡ false → (accept p).0 ≡ p
unfolding accept
accept_full p t = ground arith

release_taken :
    (p : AccessController) → 0 < p.connections → (release p).0.connections ≡ p.connections - 1
unfolding release
release_taken p h = ground arith

delete_absent : (c : ℕ) (cs : List ℕ) → member c cs ≡ false → length (delete_conn c cs) ≡ length cs
delete_absent c [] h = refl
delete_absent c (d ∷ ds) h = ground (arith, delete_absent c ds)

delete_present :
    (c : ℕ) (cs : List ℕ)
    → IsDistinct cs
    → member c cs ≡ true
    → suc (length (delete_conn c cs)) ≡ length cs
delete_present c [] h m = cc
delete_present c (d ∷ ds) h m = elim (Eq-cases d c) [
  | inl e ↦
      rw (ap (λ (k : ℕ). k == c) e ∙ beq_refl c)
        (ap suc (delete_absent c ds (subst (λ k. member k ds ≡ false) e h.0)))
  | inr e ↦ rw (beq_ne d c e) (
      ap suc
        (delete_present c ds h.1 (ap (λ (b : Bool). b || member c ds) (sym (beq_ne d c e)) ∙ m)))
]

-- The handlers of a service that hold a connection, each once.
pub record Holds (w : Service) (holders : List ℕ) : Type 0 where
  pub distinct : IsDistinct holders
  pub exactly : (c : ℕ) → member c holders ≡ holds (w.phase c)

-- A step changes the counter as it changes the number of these handlers, which it changes by one at
-- most.
pub Effect-Holds :
    (w w' : Service) (holders : List ℕ)
    → Holds w holders
    → Effect w w'
    → length holders ≤ (policy_of w).connections
    → (policy_of w).connections + 1 < 2 ^ 64
    → (holders' : List ℕ) × Holds w' holders'
      × ((policy_of w').connections + length holders ≡ (policy_of w).connections + length holders')
      × (length holders' ≤ length holders + 1)
Effect-Holds w w' hs h (keeps p same) low fits = (
  hs,
  record { distinct = h.distinct; exactly = λ c. h.exactly c ∙ sym (same c) },
  ap (λ (k : AccessController). k.connections + length hs) p,
  omega arith,
)
Effect-Holds w w' hs h (refuses full p same) low fits = (
  hs,
  record { distinct = h.distinct; exactly = λ c. h.exactly c ∙ sym (same c) },
  ap (λ (k : AccessController). k.connections + length hs) (p ∙ accept_full (policy_of w) full),
  omega arith,
)
Effect-Holds w w' hs h (takes c before taken p changed) low fits = (
  c ∷ hs,
  record {
    distinct = (h.exactly c ∙ before, h.distinct);
    exactly = λ d. ground (arith, h.exactly d, changed d);
  },
  ap (λ (k : AccessController). k.connections + length hs) p
      ∙ omega (arith, accept_taken (policy_of w) taken fits),
  omega arith,
)
Effect-Holds w w' hs h (gives c before p changed) low fits =
    let fewer = delete_present c hs h.distinct (h.exactly c ∙ before) in
    (
      delete_conn c hs,
      record {
        distinct = delete-IsDistinct c hs h.distinct;
        exactly = λ d. ground (arith, member-delete c d hs, h.exactly d, changed d);
      },
      ap (λ (k : AccessController). k.connections + length hs) p
          ∙ omega (arith, release_taken (policy_of w) (omega (arith, fewer)), fewer),
      omega (arith, fewer),
    )

Effect-IsBalanced :
    (n : ℕ) (w w' : Service) (b : IsBalanced w)
    → Effect w w'
    → length b.holders + suc n < 2 ^ 64
    → (b' : IsBalanced w') × (length b'.holders + n < 2 ^ 64)
Effect-IsBalanced n w w' b effect fits =
    let (holders, h, same, few) =
      Effect-Holds w w' b.holders (record { distinct = b.distinct; exactly = b.exactly }) effect
        (omega (arith, b.counted)) (omega (arith, b.counted)) in
    (
      record {
        holders = holders;
        distinct = h.distinct;
        exactly = h.exactly;
        counted = omega (arith, same, b.counted);
      },
      omega (arith, few),
    )

run-IsBalanced :
    (actions : List Action) (w : Service) (b : IsBalanced w)
    → All (λ a. is_undisturbed a ≡ true) actions
    → Inv w
    → length b.holders + length actions < 2 ^ 64
    → (w' : Service) × (run actions w ≡ ok w') × IsBalanced w'
unfolding run
run-IsBalanced [] w b u i fits = (w, refl, b)
run-IsBalanced (a ∷ actions) w b u i fits =
    let (w', e, i') = step-Keeps a w u.0 i in
    let effect : Effect w w' = subst (OnOk (Effect w)) e (step-Effect a w u.0 i) in
    let (b', fits') = Effect-IsBalanced (length actions) w w' b effect fits in
    let (w'', e', b'') = run-IsBalanced actions w' b' u.1 i' fits' in (w'', rw e e', b'')

begins-Effect : (w : Service) → w.streamer.running ≡ false → OnOk (Effect w) (step begins w)
unfolding step begin_stream
begins-Effect w r = rw r (keeps refl (λ d. refl))

-- Over a schedule of fewer than 2 ^ 64 - 1 steps, on a streamer that is started once and never
-- inhibited: there is no panic, and at the end the counter of the access controller is the number
-- of handlers between their acceptance and their release.
pub slots_balance :
    (qsize limit : ℕ) (auth : Authenticator) (preamble : Text) (actions : List Action)
    → All (λ a. is_undisturbed a ≡ true) actions
    → length actions + 1 < 2 ^ 64
    → (w : Service) × (run (begins ∷ actions) (new_service qsize limit auth preamble) ≡ ok w)
      × IsBalanced w
unfolding run new_streamer new_access_controller
slots_balance qsize limit auth preamble actions undisturbed fits =
    let (w, e, i) = started-Inv qsize limit auth preamble in
    let w₀ = new_service qsize limit auth preamble in
    let b₀ : IsBalanced w₀ = record {
      holders = [];
      distinct = tt;
      exactly = λ c. refl;
      counted = refl;
    } in
    let effect : Effect w₀ w = subst (OnOk (Effect w₀)) e (begins-Effect w₀ refl) in
    let (b, less) = Effect-IsBalanced (length actions) w₀ w b₀ effect (omega (arith, fits)) in
    let (w', e', b') = run-IsBalanced actions w b undisturbed i less in (w', rw e e', b')
