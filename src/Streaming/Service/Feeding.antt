-- ===== src/Streaming/Service/Feeding.antt =====
-- What a client is due, and the steps of the loop.
use mathlib.Core.Path.{subst}
use restreamer.Prelude.{
  ℕ, ◌≡◌, ◌≢◌, refl, sym, ◌∙◌, inl, inr, Bool, true, false, List, [], ◌∷◌, ◌++◌, Text, Eq-cases,
  beq_ne, beq_refl, nat_eq,
}
use restreamer.Prelude.Channel.{OnOk}
use restreamer.Streaming.Connection.{Packet, Connection}
use restreamer.Streaming.Streamer.Distribute.{member}
use restreamer.Streaming.Service.{Service, Phase, set_phase, gets, loses, allows, step}
use restreamer.Streaming.Service.Invariant.{
  Inv, client_running, gets_running, loses_running, allows_running, allows_stopped,
}
use restreamer.Streaming.Service.Feed.{Fed, Fed-packet, Fed-closing}

-- A client `k` that was let in, in a service whose connections have a given size and preamble.
module _ (qsize : ℕ) (preamble : Text) (k : ℕ) where
  pub record IsSetUp (running : Bool) (w : Service) : Type 0 where
    pub runs : w.streamer.running ≡ running
    pub same_size : w.streamer.queue_size ≡ qsize
    pub same_preamble : w.streamer.preamble ≡ preamble

  -- After the packets `ps`, which came since then.
  pub record IsFed (ps : List Packet) (running : Bool) (w : Service) : Type 0 where
    pub set_up : IsSetUp running w
    pub client : Fed qsize preamble ps running (w.phase k) (w.streamer.conns k)

  IsSetUp-same :
      (r : Bool) (w w' : Service)
      → IsSetUp r w
      → w'.streamer.running ≡ w.streamer.running
      → w'.streamer.queue_size ≡ w.streamer.queue_size
      → w'.streamer.preamble ≡ w.streamer.preamble
      → IsSetUp r w'
  IsSetUp-same r w w' u run size pre = record {
    runs = run ∙ u.runs;
    same_size = size ∙ u.same_size;
    same_preamble = pre ∙ u.same_preamble;
  }

  -- A step that concerns a client `c`, which may be `k`.
  pub client-IsFed :
      (ps : List Packet) (r : Bool) (w : Service) (c : ℕ) (p : Phase) (conn : Connection)
      (w' : Service)
      → IsSetUp r w
      → (c ≢ k → Fed qsize preamble ps r (w.phase k) (w.streamer.conns k))
      → (c ≡ k → Fed qsize preamble ps r p conn)
      → w'.streamer.running ≡ w.streamer.running
      → w'.streamer.queue_size ≡ w.streamer.queue_size
      → w'.streamer.preamble ≡ w.streamer.preamble
      → w'.streamer.conns c ≡ conn
      → ((d : ℕ) → c ≢ d → w'.streamer.conns d ≡ w.streamer.conns d)
      → w'.phase ≡ set_phase w.phase c p
      → IsFed ps r w'
  client-IsFed ps r w c p conn w' u before here run size pre at_c others phase = record {
    set_up = IsSetUp-same r w w' u run size pre;
    client = rw phase (elim (Eq-cases c k) [
      | inl same ↦
          subst (λ e. Fed qsize preamble ps r (set_phase w.phase c p e) (w'.streamer.conns e)) same
            (rw (beq_refl c, at_c) (here same))
      | inr other ↦ rw (beq_ne c k other, others k other) (before other)
    ]);
  }

  pub gets-IsFed :
      (p : Packet) (ps : List Packet) (w : Service)
      → Inv w
      → IsFed ps true w
      → OnOk (IsFed (ps ++ (p ∷ [])) true) (step (gets p) w)
  gets-IsFed p ps w i f =
      let (conns', reports, e, at) = gets_running p w i f.set_up.runs in
      rw e (record {
        set_up = IsSetUp-same true w _ f.set_up refl refl refl;
        client =
            Fed-packet qsize preamble p ps (w.phase k) (member k w.streamer.pool)
              (w.streamer.conns k) (conns' k) (at k) (client_running w k i f.set_up.runs) f.client;
      })

  pub loses-IsFed :
      (ps : List Packet) (w : Service)
      → Inv w
      → IsFed ps true w
      → OnOk (IsFed ps false) (step loses w)
  loses-IsFed ps w i f =
      let (conns', e, at) = loses_running w i f.set_up.runs in
      rw e (record {
        set_up = record {
          runs = refl;
          same_size = f.set_up.same_size;
          same_preamble = f.set_up.same_preamble;
        };
        client =
            Fed-closing qsize preamble ps (w.phase k) (member k w.streamer.pool)
              (w.streamer.conns k) (conns' k) (at k) f.client;
      })

  pub allows-IsFed :
      (ps : List Packet) (r : Bool) (w : Service) → IsFed ps r w → OnOk (IsFed ps r) (step allows w)
  allows-IsFed ps true w f =
      rw (allows_running w f.set_up.runs)
        (record { set_up = IsSetUp-same true w _ f.set_up refl refl refl; client = f.client })
  allows-IsFed ps false w f = rw (allows_stopped w f.set_up.runs) f

  -- What client `k` had, where it is the client of a step.
  pub Fed-before :
      (ps : List Packet) (r : Bool) (w : Service) (c : ℕ) (p : Phase)
      → IsFed ps r w
      → w.phase c ≡ p
      → c ≡ k
      → Fed qsize preamble ps r p (w.streamer.conns c)
  Fed-before ps r w c p f e same =
      subst (λ q. Fed qsize preamble ps r q (w.streamer.conns c)) e
        (subst (λ d. Fed qsize preamble ps r (w.phase d) (w.streamer.conns d)) (sym same) f.client)
