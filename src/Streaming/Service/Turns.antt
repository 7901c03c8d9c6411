-- ===== src/Streaming/Service/Turns.antt =====
-- What the clients have after a step of a handler, and after any step.
use mathlib.Core.Path.{subst}
use restreamer.Prelude.{
  ℕ, ◌≡◌, refl, inl, inr, Bool, true, false, List, [], ◌∷◌, ◌++◌, Text, Bool-cases, nat_eq,
}
use restreamer.Prelude.Channel.{OnOk}
use restreamer.Streaming.Connection.{Packet, Ready, serve_round}
use restreamer.Streaming.Streamer.Heap.{update_self, update_ne}
use restreamer.Streaming.Streamer.Distribute.{member}
use restreamer.Streaming.Service.{
  Service, Phase, idle, serving, leaving, draining, finished, serve_step, Action, begins, inhibits,
  gets, loses, allows, visits, serves, removes, drains, handler_step, step,
}
use restreamer.Streaming.Service.Invariant.{Inv, gets_stopped, loses_stopped}
use restreamer.Streaming.Service.Handlers.{client_before, drain_open, drain_closed, emptied}
use restreamer.Streaming.Service.Phases.{consistent}
use restreamer.Streaming.Streamer.Closing.{shut}
use restreamer.Streaming.Service.Removal.{remove_running, remove_stopped, leaving_flags}
use restreamer.Streaming.Service.Safety.{is_undisturbed}
use restreamer.Streaming.Service.Served.{Fed-round}
use restreamer.Streaming.Service.Feeding.{
  IsFed, gets-IsFed, loses-IsFed, allows-IsFed, client-IsFed, Fed-before,
}
use restreamer.Streaming.Service.Admission.{visits-IsFed}

module _ (qsize : ℕ) (preamble : Text) (k : ℕ) where
  serves-IsFed :
      (c : ℕ) (round : Ready) (p : Phase) (ps : List Packet) (r : Bool) (w : Service)
      → w.phase c ≡ p
      → Inv w
      → IsFed qsize preamble k ps r w
      → OnOk (IsFed qsize preamble k ps r) (handler_step (serves c round) p w)
  unfolding handler_step serve_step
  serves-IsFed c round serving ps r w e i f =
      let conn = w.streamer.conns c in
      let consistent_before =
        subst
          (λ b.
            consistent b (member c w.streamer.pool) serving conn.queue.is_closed conn.closed ≡ true)
          f.set_up.runs (client_before w i c serving e) in
      client-IsFed qsize preamble k ps r w c _ (serve_round round conn).0 _ f.set_up
        (λ other. f.client)
        (λ same.
          Fed-round qsize preamble ps r (member c w.streamer.pool) round conn consistent_before
            (Fed-before qsize preamble k ps r w c serving f e same))
        refl refl refl (update_self w.streamer.conns c _)
        (λ d h. update_ne w.streamer.conns c d _ h) refl
  serves-IsFed c round idle ps r w e i f = f
  serves-IsFed c round _ ps r w e i f = f

  removes-IsFed :
      (c : ℕ) (p : Phase) (ps : List Packet) (r : Bool) (w : Service)
      → w.phase c ≡ p
      → Inv w
      → IsFed qsize preamble k ps r w
      → OnOk (IsFed qsize preamble k ps r) (handler_step (removes c) p w)
  unfolding handler_step
  removes-IsFed c leaving ps r w e i f =
      let conn = w.streamer.conns c in
      elim (Bool-cases w.streamer.running) [
        | inr stopped ↦ rw (remove_stopped c w stopped) (
            client-IsFed qsize preamble k ps r w c draining conn _ f.set_up (λ other. f.client)
              (Fed-before qsize preamble k ps r w c leaving f e) refl refl refl refl (λ d h. refl)
              refl)
        | inl running ↦
            let (o, flag) =
              leaving_flags (member c w.streamer.pool) conn.queue.is_closed conn.closed (
                subst
                  (λ b.
                    consistent b (member c w.streamer.pool) leaving conn.queue.is_closed conn.closed
                    ≡ true)
                  running (client_before w i c leaving e)) in
            rw (remove_running c w running o flag) (
              client-IsFed qsize preamble k ps r w c draining (shut conn) _ f.set_up
                (λ other. f.client) (Fed-before qsize preamble k ps r w c leaving f e) refl refl
                refl (update_self w.streamer.conns c (shut conn))
                (λ d h. update_ne w.streamer.conns c d (shut conn) h) refl)
      ]
  removes-IsFed c idle ps r w e i f = f
  removes-IsFed c _ ps r w e i f = f

  drains-IsFed :
      (c : ℕ) (p : Phase) (ps : List Packet) (r : Bool) (w : Service)
      → w.phase c ≡ p
      → IsFed qsize preamble k ps r w
      → OnOk (IsFed qsize preamble k ps r) (handler_step (drains c) p w)
  unfolding handler_step
  drains-IsFed c draining ps r w e f = elim (Bool-cases (w.streamer.conns c).queue.is_closed) [
    | inr o ↦ rw (drain_open c w o) f
    | inl closed ↦
        let conn = emptied (w.streamer.conns c) in
        rw (drain_closed c w closed) (
          client-IsFed qsize preamble k ps r w c finished conn _ f.set_up (λ other. f.client)
            (Fed-before qsize preamble k ps r w c draining f e) refl refl refl
            (update_self w.streamer.conns c conn) (λ d h. update_ne w.streamer.conns c d conn h)
            refl)
  ]
  drains-IsFed c idle ps r w e f = f
  drains-IsFed c _ ps r w e f = f

  -- The packets that are distributed, and whether the loop runs, after a step.
  abbrev pub fed : Action → List Packet → Bool → List Packet
  fed (gets p) ps true = ps ++ (p ∷ [])
  fed _ ps r = ps

  abbrev pub runs_on : Action → Bool → Bool
  runs_on loses r = false
  runs_on _ r = r

  pub step-IsFed :
      (a : Action) (ps : List Packet) (r : Bool) (w : Service)
      → is_undisturbed a ≡ true
      → Inv w
      → IsFed qsize preamble k ps r w
      → OnOk (IsFed qsize preamble k (fed a ps r) (runs_on a r)) (step a w)
  unfolding step
  step-IsFed begins ps r w u i f = cc
  step-IsFed inhibits ps r w u i f = cc
  step-IsFed loses ps true w u i f = loses-IsFed qsize preamble k ps w i f
  step-IsFed loses ps false w u i f = rw (loses_stopped w f.set_up.runs) f
  step-IsFed allows ps r w u i f = allows-IsFed qsize preamble k ps r w f
  step-IsFed (gets p) ps true w u i f = gets-IsFed qsize preamble k p ps w i f
  step-IsFed (gets p) ps false w u i f = rw (gets_stopped p w f.set_up.runs) f
  step-IsFed (visits v) ps r w u i f =
      visits-IsFed qsize preamble k v (w.phase v.client) ps r w refl i f
  step-IsFed (serves c round) ps r w u i f = serves-IsFed c round (w.phase c) ps r w refl i f
  step-IsFed (removes c) ps r w u i f = removes-IsFed c (w.phase c) ps r w refl i f
  step-IsFed (drains c) ps r w u i f = drains-IsFed c (w.phase c) ps r w refl f
