-- ===== src/Streaming/Service/Removal.antt =====
-- The invariant and the step of a removal.
use mathlib.Core.Path.{subst}
use restreamer.Prelude.{
  ℕ, ◌≡◌, refl, ◌∙◌, inl, inr, Bool, true, false, List, arith, nat_eq, beq_ne, beq_refl, Bool-cases,
}
use restreamer.Prelude.Channel.{ok}
use restreamer.Streaming.Streamer.{Streamer, delete_conn, handle_request}
use restreamer.Streaming.Streamer.Heap.{update, update_self, update_ne}
use restreamer.Streaming.Streamer.Distribute.{member}
use restreamer.Streaming.Streamer.Closing.{shut}
use restreamer.Streaming.Service.{
  acl_broker, Service, Phase, idle, leaving, draining, removes, set_phase, remove_step,
  handler_step,
}
use restreamer.Streaming.Service.Phases.{consistent, member-delete, delete-IsDistinct}
use restreamer.Streaming.Service.Invariant.{Inv, Keeps}
use restreamer.Streaming.Service.Handlers.{client_step, client_before}

-- What a removal does to a running loop: the queue is closed, and the connection leaves the pool.
abbrev pub removed_from : ℕ → Service → Streamer acl_broker
removed_from c w =
    let s = w.streamer in
    record s { conns = update s.conns c (shut (s.conns c)); pool = delete_conn c s.pool }

pub remove_running :
    (c : ℕ) (w : Service)
    → w.streamer.running ≡ true
    → (w.streamer.conns c).queue.is_closed ≡ false
    → (w.streamer.conns c).closed ≡ false
    → remove_step c w
      ≡ ok (record w { streamer = removed_from c w; phase = set_phase w.phase c draining })
unfolding remove_step handle_request
remove_running c w r o f = simp (r, f, o)

pub remove_stopped :
    (c : ℕ) (w : Service)
    → w.streamer.running ≡ false
    → remove_step c w ≡ ok (record w { phase = set_phase w.phase c draining })
unfolding remove_step
remove_stopped c w r = simp r

pub leaving_flags :
    (in_pool is_closed flag : Bool)
    → consistent true in_pool leaving is_closed flag ≡ true
    → (is_closed ≡ false) × (flag ≡ false)
leaving_flags in_pool is_closed flag h = ground arith

leaving_closed :
    (running in_pool is_closed flag : Bool)
    → running ≡ false
    → consistent running in_pool leaving is_closed flag ≡ true
    → consistent running in_pool draining is_closed flag ≡ true
leaving_closed running in_pool is_closed flag r h = ground arith

removed_here :
    (c : ℕ) (pool : List ℕ) (running flag : Bool)
    → running ≡ true
    → consistent running (member c (delete_conn c pool)) draining true flag ≡ true
removed_here c pool running flag r = rw r (rw (member-delete c c pool) (rw (beq_refl c)))

pub removes_at :
    (c : ℕ) (p : Phase) (w : Service) → w.phase c ≡ p → Inv w → Keeps (handler_step (removes c) p w)
unfolding handler_step
removes_at c leaving w e i =
    let s = w.streamer in
    let conn = s.conns c in
    let before = client_before w i c leaving e in
    elim (Bool-cases s.running) [
      | inr stopped ↦ (
        record w { phase = set_phase w.phase c draining },
        remove_stopped c w stopped,
        record {
          distinct = i.distinct;
          clients =
              client_step w i c s.conns conn s.pool draining refl (λ d h. refl) (λ d h. refl)
                (leaving_closed s.running (member c s.pool) conn.queue.is_closed conn.closed stopped
                  before);
        },
      )
      | inl running ↦
          let (o, f) = leaving_flags (member c s.pool) conn.queue.is_closed conn.closed (
            subst
              (λ b. consistent b (member c s.pool) leaving conn.queue.is_closed conn.closed ≡ true)
              running before) in
          (
            record w { streamer = removed_from c w; phase = set_phase w.phase c draining },
            remove_running c w running o f,
            record {
              distinct = λ r. delete-IsDistinct c s.pool (i.distinct r);
              clients =
                  client_step w i c (update s.conns c (shut conn)) (shut conn)
                    (delete_conn c s.pool) draining (update_self s.conns c (shut conn))
                    (λ d h. update_ne s.conns c d (shut conn) h)
                    (λ d h. member-delete c d s.pool ∙ rw (beq_ne c d h))
                    (removed_here c s.pool s.running conn.closed running);
            },
          )
    ]
removes_at c idle w e i = (w, refl, i)
removes_at c _ w e i = (w, refl, i)
