-- ===== src/Streaming/Service/Handlers.antt =====
-- The invariant and the steps of Serve and of the draining.
use mathlib.Core.Path.{subst}
use restreamer.Prelude.{
  ℕ, ◌≡◌, ◌≢◌, refl, ap, inl, inr, Bool, true, false, List, [], ◌∷◌, ◌++◌, Text, arith,
  if◌then◌else◌, nat_eq, Eq-cases, beq_ne, beq_refl, Bool-cases,
}
use restreamer.Prelude.Http.{Response}
use restreamer.Prelude.Channel.{ok}
use restreamer.Streaming.Connection.{
  Packet, Connection, Ready, queue_ready, context_done, serve_round,
}
use restreamer.Streaming.Streamer.{connection_removed}
use restreamer.Streaming.Streamer.Heap.{Conns, update, update_self, update_ne}
use restreamer.Streaming.Streamer.Distribute.{member}
use restreamer.Streaming.Acl
use restreamer.Event.Queue.{connect}
use restreamer.Prelude.Int.{negsuc}
use restreamer.Streaming.Service.{
  Service, Phase, idle, serving, leaving, draining, finished, serves, drains, set_phase, serve_step,
  drain_step, handler_step,
}
use restreamer.Streaming.Service.Phases.{consistent}
use restreamer.Streaming.Service.Invariant.{Inv, Keeps}

-- What a step that concerns one client has to show.
module _ (w : Service) (i : Inv w) (c : ℕ) where
  pub client_step :
      (conns' : Conns) (conn : Connection) (pool' : List ℕ) (p : Phase)
      → conns' c ≡ conn
      → ((d : ℕ) → c ≢ d → conns' d ≡ w.streamer.conns d)
      → ((d : ℕ) → c ≢ d → member d pool' ≡ member d w.streamer.pool)
      → consistent w.streamer.running (member c pool') p conn.queue.is_closed conn.closed ≡ true
      → (d : ℕ)
      → consistent w.streamer.running
          (member d pool')
          (set_phase w.phase c p d)
          (conns' d).queue.is_closed
          (conns' d).closed
        ≡ true
  client_step conns' conn pool' p at_c same_conn same_member here d = elim (Eq-cases c d) [
    | inl same ↦
        subst
          (λ e.
            consistent w.streamer.running (member e pool') (set_phase w.phase c p e)
              (conns' e).queue.is_closed (conns' e).closed
            ≡ true)
          same here_c
    | inr other ↦ rw (same_conn d other, same_member d other, beq_ne c d other) (i.clients d)
  ]
    where
      here_c :
          consistent w.streamer.running
            (member c pool')
            (set_phase w.phase c p c)
            (conns' c).queue.is_closed
            (conns' c).closed
          ≡ true
      here_c = rw (at_c, beq_refl c) here

  -- What held of the client before.
  pub client_before :
      (p : Phase)
      → w.phase c ≡ p
      → consistent w.streamer.running
          (member c w.streamer.pool)
          p
          (w.streamer.conns c).queue.is_closed
          (w.streamer.conns c).closed
        ≡ true
  client_before p e =
      subst
        (λ q.
          consistent w.streamer.running (member c w.streamer.pool) q
            (w.streamer.conns c).queue.is_closed (w.streamer.conns c).closed
          ≡ true)
        e (i.clients c)

round_consistent :
    (running in_pool : Bool) (r : Ready) (items : List Packet) (is_closed flag : Bool)
    (capacity : ℕ) (address : Text) (writer : Response)
    → consistent running in_pool serving is_closed flag ≡ true
    → let conn : Connection = record {
      queue = record { items = items; capacity = capacity; is_closed = is_closed };
      client_address = address;
      writer = writer;
      closed = flag;
    } in
      let (conn', goes_on) = serve_round r conn in
      consistent running in_pool
        (if goes_on then serving else leaving)
        conn'.queue.is_closed
        conn'.closed
      ≡ true
unfolding serve_round
round_consistent running m context_done items closed flag n a w h = ground arith
round_consistent running m (queue_ready written) [] closed flag n a w h = ground arith
round_consistent running m (queue_ready written) (p ∷ ps) closed flag n a w h = ground arith

pub serves_at :
    (c : ℕ) (r : Ready) (p : Phase) (w : Service)
    → w.phase c ≡ p
    → Inv w
    → Keeps (handler_step (serves c r) p w)
unfolding handler_step
serves_at c r serving w e i =
    let conn = w.streamer.conns c in
    let (conn', goes_on) = serve_round r conn in
    let conns' : Conns = update w.streamer.conns c conn' in
    let p : Phase = if goes_on then serving else leaving in
    (
      serve_step c r w,
      refl,
      record {
        distinct = i.distinct;
        clients =
            client_step w i c conns' conn' w.streamer.pool p (update_self w.streamer.conns c conn')
              (λ d h. update_ne w.streamer.conns c d conn' h) (λ d h. refl)
              (round_consistent w.streamer.running (member c w.streamer.pool) r conn.queue.items
                conn.queue.is_closed conn.closed conn.queue.capacity conn.client_address conn.writer
                (client_before w i c serving e));
      },
    )
serves_at c r idle w e i = (w, refl, i)
serves_at c r _ w e i = (w, refl, i)

pub drain_open :
    (c : ℕ) (w : Service) → (w.streamer.conns c).queue.is_closed ≡ false → drain_step c w ≡ w
unfolding drain_step
drain_open c w o = rw o

abbrev pub emptied : Connection → Connection
emptied conn = record conn { queue = record (conn.queue) { items = [] } }

abbrev pub drained : ℕ → Service → Service
drained c w =
    let s = w.streamer in
    record w {
      streamer = record s {
        conns = update s.conns c (emptied (s.conns c));
        reports = s.reports ++ (connection_removed ∷ []);
        policy = (Acl.release s.policy).0;
      };
      phase = set_phase w.phase c finished;
      notices = w.notices ++ (connect (negsuc 0) ∷ []);
    }

pub drain_closed :
    (c : ℕ) (w : Service)
    → (w.streamer.conns c).queue.is_closed ≡ true
    → drain_step c w ≡ drained c w
unfolding drain_step
drain_closed c w o = rw o

finished_consistent :
    (running in_pool is_closed flag : Bool)
    → consistent running in_pool draining is_closed flag ≡ true
    → consistent running in_pool finished is_closed flag ≡ true
finished_consistent running in_pool is_closed flag h = ground arith

pub drains_at :
    (c : ℕ) (p : Phase) (w : Service) → w.phase c ≡ p → Inv w → Keeps (handler_step (drains c) p w)
unfolding handler_step
drains_at c draining w e i = elim (Bool-cases (w.streamer.conns c).queue.is_closed) [
  | inr o ↦ (w, ap ok (drain_open c w o), i)
  | inl closed ↦
      let s = w.streamer in
      (
        drained c w,
        ap ok (drain_closed c w closed),
        record {
          distinct = i.distinct;
          clients =
              client_step w i c (update s.conns c (emptied (s.conns c))) (emptied (s.conns c))
                s.pool finished (update_self s.conns c (emptied (s.conns c)))
                (λ d h. update_ne s.conns c d (emptied (s.conns c)) h) (λ d h. refl)
                (finished_consistent s.running (member c s.pool) (s.conns c).queue.is_closed
                  (s.conns c).closed (client_before w i c draining e));
        },
      )
]
drains_at c idle w e i = (w, refl, i)
drains_at c _ w e i = (w, refl, i)
