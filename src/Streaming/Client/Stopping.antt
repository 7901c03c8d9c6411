-- ===== src/Streaming/Client/Stopping.antt =====
-- The state of the client when a pull returns.
use mathlib.Core.Path.{subst}
use restreamer.Prelude.{
  ℕ, zero, suc, ◌≡◌, refl, sym, ◌∙◌, ◌⊎◌, inl, inr, false, true, Option, none, some, arith,
}
use restreamer.Protocol.Reader.{Reader, IoError}
use restreamer.Protocol.Packet.{Result, read_mpeg_ts_packet}
use restreamer.Protocol.Packet
use restreamer.Streaming.Client.Pull.{
  Pull, pull, pull_loop, pull_round, packet_rounds, handle_result, disconnect,
}
use restreamer.Streaming.Client.Rounds.{stopped, stepped, rest-receive_packet}
use restreamer.Streaming.Client.Ending.{rest-disconnect}

-- A pull stops running before it returns.
abbrev pub Stopped : (r : Reader) → Option (Pull r) → Type 0
Stopped r none = Unit
Stopped r (some t) = (t.running ≡ false) × ((e : IoError) × (t.err ≡ some e))

module _ (r : Reader) where
  -- Before each test of the condition, the client is running or there is an error.
  abbrev Alive : Pull r → Type 0
  Alive s = (s.running ≡ true) ⊎ (Stopped r (some s))

  abbrev Going : Option (Pull r) → Type 0
  Going none = Unit
  Going (some t) = Alive t

  handle_result-Alive :
      (x : Result r.State) (s : Pull r) → s.running ≡ true → Going (handle_result r x s)
  unfolding handle_result
  handle_result-Alive (Packet.packet p t) s h =
      inl ((rest-receive_packet r p (record s { input = t; err = none })).0 ∙ h)
  handle_result-Alive (Packet.no_packet t) s h = inl h
  handle_result-Alive (Packet.failed e t) s h = inr (refl, (e, refl))
  handle_result-Alive Packet.diverged s h = tt

  pull_on :
      (fuel : ℕ) (ih : (s : Pull r) → Alive s → Stopped r (pull_loop r fuel s))
      (o : Option (Pull r))
      → Going o
      → Stopped r (elim o [ none ↦ none | some s' ↦ pull_loop r fuel s' ])
  pull_on fuel ih none h = tt
  pull_on fuel ih (some t) h = ih t h

  pull_loop-Stopped : (fuel : ℕ) (s : Pull r) → Alive s → Stopped r (pull_loop r fuel s)
  unfolding pull_loop pull_round
  pull_loop-Stopped zero s h = tt
  pull_loop-Stopped (suc fuel) s (inr h) =
      subst (Stopped r) (sym (stopped r (suc fuel) s (omega arith) h.0)) h
  pull_loop-Stopped (suc fuel) s (inl h) = subst (Stopped r) (sym (stepped r fuel s h)) (
      pull_on fuel (pull_loop-Stopped fuel)
        (handle_result r (read_mpeg_ts_packet r packet_rounds s.input) s)
        (handle_result-Alive _ s h))

  disconnect-Stopped :
      (o : Option (Pull r))
      → Stopped r o
      → Stopped r (elim o [ none ↦ none | some s' ↦ some (disconnect r s') ])
  disconnect-Stopped none h = tt
  disconnect-Stopped (some t) (down, (e, err)) =
      let (input, running, same) = rest-disconnect r t in (running ∙ down, (e, same ∙ err))

  pub pull-Stopped : (fuel : ℕ) (s : Pull r) → s.running ≡ true → Stopped r (pull r fuel s)
  unfolding pull
  pull-Stopped fuel s up = disconnect-Stopped _ (pull_loop-Stopped fuel s (inl up))
