-- ===== src/Streaming/Service/Admission.antt =====
-- What a client has after its request, and what the others have then.
use mathlib.Core.Path.{subst}
use restreamer.Prelude.{
  ℕ, ◌≡◌, ◌≢◌, refl, sym, ap, ◌∙◌, inl, inr, Bool, false, List, [], Text, Bool-cases, nat_eq, arith,
  if◌then◌else◌,
}
use restreamer.Prelude.Channel.{OnOk}
use restreamer.Auth.{handle_http_authentication}
use restreamer.Streaming.Acl
use restreamer.Streaming.Connection.{
  new_connection, serve_start, Packet, Connection, serve_stream_error,
}
use restreamer.Streaming.Streamer.{Streamer, add_conn}
use restreamer.Streaming.Streamer.Heap.{update, update_self, update_ne}
use restreamer.Streaming.Service.{
  acl_broker, Service, Phase, idle, rejected, serving, leaving, set_phase, Visit, visit, admit,
  refuse, visits, handler_step,
}
use restreamer.Streaming.Service.Invariant.{Inv}
use restreamer.Streaming.Service.Visiting.{
  visit_denied, visit_offline, visit_inhibited, visit_full, visit_accepted, may_pass, fresh,
  with_fresh, policy',
}
use restreamer.Streaming.Service.Feed.{Fed}
use restreamer.Streaming.Service.Served.{Fed-start}
use restreamer.Streaming.Service.Feeding.{IsSetUp, IsFed, client-IsFed, Fed-before}

module _ (qsize : ℕ) (preamble : Text) (k : ℕ) where
  -- The request of a client, which may be `k` if there are no packets yet.
  module _ (v : Visit) (ps : List Packet) (r : Bool) (w : Service) (i : Inv w)
      (e : w.phase v.client ≡ idle) (u : IsSetUp qsize preamble k r w)
      (before : v.client ≢ k → Fed qsize preamble ps r (w.phase k) (w.streamer.conns k))
      (none_yet : v.client ≡ k → ps ≡ []) where
    fresh_empty : (fresh v w i e).writer.body ≡ []
    unfolding handle_http_authentication new_connection
    fresh_empty = ground arith

    fresh_queue :
        ((fresh v w i e).queue.items ≡ [])
        × ((fresh v w i e).queue.capacity ≡ w.streamer.queue_size)
        × ((fresh v w i e).closed ≡ false)
    unfolding new_connection
    fresh_queue = (refl, refl, refl)

    others_fresh : (d : ℕ) → v.client ≢ d → (with_fresh v w i e).conns d ≡ w.streamer.conns d
    others_fresh d h = update_ne w.streamer.conns v.client d (fresh v w i e) h

    -- A client is sent away: it gets no content.
    sent_away :
        (s : Streamer acl_broker) (conn : Connection)
        → s.running ≡ w.streamer.running
        → s.queue_size ≡ w.streamer.queue_size
        → s.preamble ≡ w.streamer.preamble
        → ((d : ℕ) → v.client ≢ d → s.conns d ≡ w.streamer.conns d)
        → conn.writer.body ≡ []
        → IsFed qsize preamble k ps r (record w {
          streamer = record s { conns = update s.conns v.client conn };
          phase = set_phase w.phase v.client rejected;
        })
    sent_away s conn run size pre others empty =
        client-IsFed qsize preamble k ps r w v.client rejected conn _ u before (λ same. empty) run
          size pre (update_self s.conns v.client conn)
          (λ d h. update_ne s.conns v.client d conn h ∙ others d h) refl

    refuse-IsFed :
        (s : Streamer acl_broker)
        → s.running ≡ w.streamer.running
        → s.queue_size ≡ w.streamer.queue_size
        → s.preamble ≡ w.streamer.preamble
        → s.conns ≡ (with_fresh v w i e).conns
        → IsFed qsize preamble k ps r (refuse v s w)
    unfolding refuse serve_stream_error
    refuse-IsFed s run size pre conns =
        sent_away s _ run size pre (λ d h. rw conns (others_fresh d h))
          (rw conns (rw (update_self w.streamer.conns v.client (fresh v w i e)) fresh_empty))

    started :
        (conn : Connection)
        → conn ≡ fresh v w i e
        → v.client ≡ k
        → let (conn', goes_on) = serve_start v.now w.streamer.preamble v.preamble_written conn in
          Fed qsize preamble ps r (if goes_on then serving else leaving) conn'
    started conn is_fresh same =
        subst
          (λ (t : Text).
            let (conn', goes_on) = serve_start v.now t v.preamble_written conn in
            Fed qsize preamble ps r (if goes_on then serving else leaving) conn')
          (sym u.same_preamble)
          (Fed-start qsize preamble v.now v.preamble_written r ps conn (none_yet same)
            (ap (λ (c : Connection). c.writer.body) is_fresh ∙ fresh_empty)
            (ap (λ (c : Connection). c.queue.items) is_fresh ∙ fresh_queue.0)
            (ap (λ (c : Connection). c.queue.capacity) is_fresh ∙ fresh_queue.1 ∙ u.same_size)
            (ap (λ (c : Connection). c.closed) is_fresh ∙ fresh_queue.2))

    admit-IsFed :
        (policy : Acl.AccessController)
        → IsFed qsize preamble k ps r (
            admit v
              (record (with_fresh v w i e) {
                policy = policy;
                pool = add_conn v.client w.streamer.pool;
              })
              w)
    unfolding admit
    admit-IsFed policy =
        let c = v.client in
        let conns = (with_fresh v w i e).conns in
        let (conn', goes_on) = serve_start v.now w.streamer.preamble v.preamble_written (conns c) in
        client-IsFed qsize preamble k ps r w c (if goes_on then serving else leaving) conn' _ u
          before (started (conns c) (update_self w.streamer.conns c (fresh v w i e))) refl refl refl
          (update_self conns c conn') (λ d h. update_ne conns c d conn' h ∙ others_fresh d h) refl

    pub visit-IsFed : OnOk (IsFed qsize preamble k ps r) (visit v w)
    visit-IsFed = elim (Bool-cases (may_pass v w i e)) [
      | inr denied ↦
          rw (visit_denied v w i e denied)
            (sent_away w.streamer (fresh v w i e) refl refl refl (λ d h. refl) fresh_empty)
      | inl passed ↦ elim (Bool-cases w.streamer.running) [
        | inr stopped ↦
            rw (visit_offline v w i e passed stopped) (refuse-IsFed _ refl refl refl refl)
        | inl running ↦ elim (Bool-cases w.streamer.inhibited) [
          | inl off ↦
              rw (visit_inhibited v w i e passed running off) (refuse-IsFed _ refl refl refl refl)
          | inr on ↦ elim (Bool-cases (Acl.accept w.streamer.policy).1) [
            | inr full ↦
                rw (visit_full v w i e passed running on full) (refuse-IsFed _ refl refl refl refl)
            | inl taken ↦
                rw (visit_accepted v w i e passed running on taken) (admit-IsFed (policy' v w i e))
          ]
        ]
      ]
    ]

  -- Another client's request; `k` itself does not come twice.
  pub visits-IsFed :
      (v : Visit) (p : Phase) (ps : List Packet) (r : Bool) (w : Service)
      → w.phase v.client ≡ p
      → Inv w
      → IsFed qsize preamble k ps r w
      → OnOk (IsFed qsize preamble k ps r) (handler_step (visits v) p w)
  unfolding handler_step
  visits-IsFed v idle ps r w e i f =
      visit-IsFed v ps r w i e f.set_up (λ other. f.client)
        (λ same. absurd (Fed-before qsize preamble k ps r w v.client idle f e same))
  visits-IsFed v serving ps r w e i f = f
  visits-IsFed v _ ps r w e i f = f
