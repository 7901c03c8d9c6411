-- ===== src/Streaming/Service/Visiting.antt =====
-- The invariant and the request of a client, on each of its ways through ServeHTTP.
use restreamer.Prelude.{
  ℕ, ◌≡◌, ◌≢◌, refl, sym, ap, ◌∙◌, Bool, true, false, Text, arith, if◌then◌else◌, nat_eq, beq_ne,
  beq_refl,
}
use restreamer.Prelude.Channel.{Channel, ok}
use restreamer.Streaming.Connection.{Packet, Connection}
use restreamer.Streaming.Streamer.{Streamer, add_conn, handle_request}
use restreamer.Streaming.Streamer.Heap.{update, update_self, update_ne}
use restreamer.Streaming.Streamer.Distribute.{member}
use restreamer.Streaming.Acl
use restreamer.Streaming.Service.{
  acl_broker, Service, idle, rejected, serving, leaving, set_phase, Visit, visit, refuse, admit,
}
use restreamer.Streaming.Connection.{new_connection, serve_start}
use restreamer.Auth.{handle_http_authentication}
use restreamer.Prelude.Http.{new_response}
use restreamer.Streaming.Service.Handlers.{client_step, client_before}
use restreamer.Streaming.Service.Phases.{consistent, member-add, add-IsDistinct}
use restreamer.Streaming.Service.Invariant.{Inv}

-- Serve's header and preamble leave the queue and the flag alone.
serve_start_flags :
    (now preamble : Text) (b : Bool) (conn : Connection)
    → ((serve_start now preamble b conn).0.queue ≡ conn.queue)
      × ((serve_start now preamble b conn).0.closed ≡ conn.closed)
unfolding serve_start
serve_start_flags now preamble b conn = ground arith

rejected_consistent :
    (running in_pool is_closed flag : Bool)
    → in_pool ≡ false
    → consistent running in_pool rejected is_closed flag ≡ true
rejected_consistent running in_pool is_closed flag h = ground arith

serving_consistent :
    (running goes_on is_closed flag in_pool : Bool)
    → running ≡ true
    → is_closed ≡ false
    → flag ≡ false
    → in_pool ≡ true
    → consistent running in_pool (if goes_on then serving else leaving) is_closed flag ≡ true
serving_consistent running goes_on is_closed flag in_pool r o f m = ground arith

idle_outside :
    (running in_pool is_closed flag : Bool)
    → running ≡ true
    → consistent running in_pool idle is_closed flag ≡ true
    → in_pool ≡ false
idle_outside running in_pool is_closed flag r h = ground arith

rejected_before :
    (running in_pool is_closed flag is_closed' flag' : Bool)
    → consistent running in_pool idle is_closed flag ≡ true
    → consistent running in_pool rejected is_closed' flag' ≡ true
rejected_before running in_pool is_closed flag is_closed' flag' h = ground arith

module _ (v : Visit) (w : Service) (i : Inv w) (e : w.phase v.client ≡ idle) where
  -- A streamer that differs from the service's in the client's connection, the policy and no more.
  pub record Beside (s : Streamer acl_broker) : Type 0 where
    pub running : s.running ≡ w.streamer.running
    pub pool : s.pool ≡ w.streamer.pool
    pub others : (d : ℕ) → v.client ≢ d → s.conns d ≡ w.streamer.conns d

  -- The client is sent away with some connection left behind.
  pub rejected-Inv :
      (s : Streamer acl_broker) (conn : Connection)
      → Beside s
      → Inv (record w {
        streamer = record s { conns = update s.conns v.client conn };
        phase = set_phase w.phase v.client rejected;
      })
  rejected-Inv s conn b = record {
    distinct = λ r. rw b.pool (i.distinct (sym b.running ∙ r));
    clients = λ d.
        rw (b.running, b.pool)
          (client_step w i v.client (update s.conns v.client conn) conn w.streamer.pool rejected
            (update_self s.conns v.client conn)
            (λ d h. update_ne s.conns v.client d conn h ∙ b.others d h) (λ d h. refl)
            (rejected_before w.streamer.running (member v.client w.streamer.pool) _ _
              conn.queue.is_closed conn.closed (client_before w i v.client idle e))
            d);
  }

  pub refuse-Inv : (s : Streamer acl_broker) → Beside s → Inv (refuse v s w)
  unfolding refuse
  refuse-Inv s b = rejected-Inv s _ b

  pub admit-Inv :
      (s : Streamer acl_broker)
      → w.streamer.running ≡ true
      → s.running ≡ w.streamer.running
      → s.pool ≡ add_conn v.client w.streamer.pool
      → ((d : ℕ) → v.client ≢ d → s.conns d ≡ w.streamer.conns d)
      → (s.conns v.client).queue.is_closed ≡ false
      → (s.conns v.client).closed ≡ false
      → Inv (admit v s w)
  unfolding admit
  admit-Inv s r running pool others o f =
      let c = v.client in
      let (conn, goes_on) = serve_start v.now s.preamble v.preamble_written (s.conns c) in
      let (same_queue, same_flag) =
        serve_start_flags v.now s.preamble v.preamble_written (s.conns c) in
      record {
        distinct = λ t. rw pool (add-IsDistinct c w.streamer.pool (i.distinct r));
        clients = λ d.
            rw (running, pool)
              (client_step w i c (update s.conns c conn) conn (add_conn c w.streamer.pool)
                (if goes_on then serving else leaving) (update_self s.conns c conn)
                (λ d h. update_ne s.conns c d conn h ∙ others d h)
                (λ d h. member-add c d w.streamer.pool ∙ rw (beq_ne c d h))
                (serving_consistent w.streamer.running goes_on conn.queue.is_closed conn.closed
                  (member c (add_conn c w.streamer.pool)) r
                  (ap (λ (q : Channel Packet). q.is_closed) same_queue ∙ o) (same_flag ∙ f)
                  (member-add c c w.streamer.pool ∙ rw (beq_refl c)))
                d);
      }

  -- The connection that the request is given, and the streamer with it.
  abbrev pub fresh : Connection
  fresh =
      new_connection (handle_http_authentication w.streamer.auth v.header new_response).0
        w.streamer.queue_size v.address

  abbrev pub with_fresh : Streamer acl_broker
  with_fresh = record (w.streamer) { conns = update w.streamer.conns v.client fresh }

  abbrev pub may_pass : Bool
  may_pass = (handle_http_authentication w.streamer.auth v.header new_response).1

  pub with_fresh-Beside :
      (policy : Acl.AccessController) → Beside (record with_fresh { policy = policy })
  with_fresh-Beside policy = record {
    running = refl;
    pool = refl;
    others = λ d h. update_ne w.streamer.conns v.client d fresh h;
  }

  pub visit_denied :
      may_pass ≡ false
      → visit v w
        ≡ ok (record w { streamer = with_fresh; phase = set_phase w.phase v.client rejected })
  unfolding visit
  visit_denied a = simp a

  pub visit_offline :
      may_pass ≡ true → w.streamer.running ≡ false → visit v w ≡ ok (refuse v with_fresh w)
  unfolding visit
  visit_offline a r = simp (a, r)

  pub visit_inhibited :
      may_pass ≡ true
      → w.streamer.running ≡ true
      → w.streamer.inhibited ≡ true
      → visit v w ≡ ok (refuse v with_fresh w)
  unfolding visit handle_request
  visit_inhibited a r b = simp (a, r, b)

  abbrev pub policy' : Acl.AccessController
  policy' = (Acl.accept w.streamer.policy).0

  pub visit_full :
      may_pass ≡ true
      → w.streamer.running ≡ true
      → w.streamer.inhibited ≡ false
      → (Acl.accept w.streamer.policy).1 ≡ false
      → visit v w ≡ ok (refuse v (record with_fresh { policy = policy' }) w)
  unfolding visit handle_request
  visit_full a r b full = simp (a, r, b, full)

  pub visit_accepted :
      may_pass ≡ true
      → w.streamer.running ≡ true
      → w.streamer.inhibited ≡ false
      → (Acl.accept w.streamer.policy).1 ≡ true
      → visit v w
        ≡ ok (
            admit v
              (record with_fresh { policy = policy'; pool = add_conn v.client w.streamer.pool })
              w)
  unfolding visit handle_request
  visit_accepted a r b taken = simp (a, r, b, taken)
