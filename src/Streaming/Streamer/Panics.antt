-- ===== src/Streaming/Streamer/Panics.antt =====
-- Sends to closed queues and second closes, after the stream was inhibited or restarted.
use restreamer.Prelude.{
  ℕ, ◌≡◌, refl, sym, ap, ◌∙◌, inl, inr, true, false, List, [], ◌∷◌, All, nat_eq,
}
use restreamer.Prelude.Channel.{ok, panic, ◌>>=◌}
use restreamer.Streaming.Connection.{Packet, Connection}
use restreamer.Streaming.Streamer.{
  ConnectionBroker, ConnectionRequest, Streamer, inhibit, remove, Input, packet, end_of_queue,
  request, distribute, close_all, begin_stream, handle_request, stream_round, stream,
}
use restreamer.Streaming.Streamer.Heap.{Conns}
use restreamer.Streaming.Streamer.Distribute.{member, IsDistinct, IsOpen}
use restreamer.Streaming.Streamer.Closing.{
  IsClosed, shut, close_all_closed, distribute_closed, close_all_head, close_all_lem, Outcome-cases,
}

module _ (broker : ConnectionBroker) where
  abbrev pub inhibits : ConnectionRequest
  inhibits = record { command = inhibit; address = []; connection = 0 }

  packet_panics :
      (p : Packet) (s : Streamer broker) (is : List Input)
      → distribute p s.pool s.conns ≡ panic
      → stream broker (packet p ∷ is) s ≡ panic
  unfolding stream stream_round
  packet_panics p s is e = rw e

  end_panics :
      (s : Streamer broker) (is : List Input)
      → close_all s.pool s.conns ≡ panic
      → stream broker (end_of_queue ∷ is) s ≡ panic
  unfolding stream stream_round
  end_panics s is e = rw e

  inhibit_round :
      (s : Streamer broker) (is : List Input)
      → stream broker (request inhibits ∷ is) s ≡ (
          close_all s.pool s.conns >>= λ conns.
          stream broker is (record s { inhibited = true; conns = conns }))
  unfolding stream stream_round handle_request
  inhibit_round s is = elim (Outcome-cases (close_all s.pool s.conns)) [
    | inl e ↦ rw e
    | inr (conns, e) ↦ rw e
  ]

  -- What comes after the stream was inhibited: the queues of the pool are closed, and the pool is as
  -- it was; so whatever panics then panics.
  after_inhibit :
      (s : Streamer broker) (c : ℕ) (cs : List ℕ) (is : List Input)
      → s.pool ≡ c ∷ cs
      → ((conns : Conns)
          → IsClosed conns c
          → stream broker is (record s { inhibited = true; conns = conns }) ≡ panic)
      → stream broker (request inhibits ∷ is) s ≡ panic
  after_inhibit s c cs is at fails =
      inhibit_round s is ∙ elim (Outcome-cases (close_all s.pool s.conns)) [
        | inl e ↦ rw e
        | inr (conns, e) ↦ rw e (
            fails conns (
              close_all_head c cs s.conns conns (ap (λ pool. close_all pool s.conns) (sym at) ∙ e)))
      ]

  -- Whatever the state, if the pool is not empty: an inhibit request that is followed at once by a
  -- packet, by the end of the input or by a second inhibit request makes the loop panic.
  pub inhibit_panics :
      (s : Streamer broker) (c : ℕ) (cs : List ℕ) (p : Packet) (is : List Input)
      → s.pool ≡ c ∷ cs
      → (stream broker (request inhibits ∷ packet p ∷ is) s ≡ panic)
        × (stream broker (request inhibits ∷ end_of_queue ∷ is) s ≡ panic)
        × (stream broker (request inhibits ∷ request inhibits ∷ is) s ≡ panic)
  inhibit_panics s c cs p is at = (
    after_inhibit s c cs (packet p ∷ is) at λ conns closed.
        packet_panics p (record s { inhibited = true; conns = conns }) is
          (ap (λ pool. distribute p pool conns) at ∙ distribute_closed p c cs conns closed),
    after_inhibit s c cs (end_of_queue ∷ is) at λ conns closed.
        end_panics (record s { inhibited = true; conns = conns }) is
          (ap (λ pool. close_all pool conns) at ∙ close_all_closed c cs conns closed),
    after_inhibit s c cs (request inhibits ∷ is) at λ conns closed.
        inhibit_round (record s { inhibited = true; conns = conns }) is
        ∙ (let e : close_all s.pool conns ≡ panic =
              ap (λ pool. close_all pool conns) at ∙ close_all_closed c cs conns closed in
            rw e),
  )

  abbrev pub removes : ℕ → ConnectionRequest
  removes c = record { command = remove; address = []; connection = c }

  remove_panics :
      (s : Streamer broker) (c : ℕ) (is : List Input)
      → (s.conns c).closed ≡ false
      → IsClosed s.conns c
      → stream broker (request (removes c) ∷ is) s ≡ panic
  unfolding stream stream_round handle_request
  remove_panics s c is still closed = rw (still, closed)

  -- A stream ends while a connection is in its pool, and is started again. If the connection's
  -- handler has not seen the end (its flag `Closed` is not set), as after a failed write, then its
  -- request to be removed makes the new loop panic. The pool's connections are distinct and open.
  pub remove_after_restart_panics :
      (s : Streamer broker) (c : ℕ) (is : List Input)
      → IsDistinct s.pool
      → All (IsOpen s.conns) s.pool
      → member c s.pool ≡ true
      → (s.conns c).closed ≡ false
      → (s' : Streamer broker) × (stream broker (end_of_queue ∷ []) s ≡ ok s')
        × ((begin_stream broker s').1 ≡ true)
        × (stream broker (request (removes c) ∷ is) (begin_stream broker s').0 ≡ panic)
  unfolding stream stream_round begin_stream
  remove_after_restart_panics s c is distinct all inside still =
      let (conns', e, at) = close_all_lem s.pool s.conns distinct all in
      let at_c : conns' c ≡ shut (s.conns c) = at c ∙ rw inside in
      let stopped : Streamer broker = record s { running = false; conns = conns' } in
      (
        stopped,
        rw e,
        refl,
        remove_panics (begin_stream broker stopped).0 c is
            (ap (λ (k : Connection). k.closed) at_c ∙ still)
            (ap (λ (k : Connection). k.queue.is_closed) at_c),
      )
