-- ===== src/Streaming/Service/Invariant.antt =====
-- The invariant of the service, and the steps of the loop.
use mathlib.Core.Path.{subst}
use restreamer.Prelude.{
  ℕ, ◌≡◌, refl, inl, inr, Bool, true, false, List, [], ◌∷◌, ◌++◌, arith, All, if◌then◌else◌, nat_eq,
  Bool-cases,
}
use restreamer.Prelude.Channel.{Outcome, ok}
use restreamer.Streaming.Connection.{Packet, Connection}
use restreamer.Streaming.Streamer.Heap.{Conns}
use restreamer.Streaming.Streamer.{
  Report, Streamer, Input, packet, end_of_queue, request, allow, stream, stream_round,
  handle_request,
}
use restreamer.Streaming.Streamer.Distribute.{
  member, IsDistinct, IsOpen, offered, distribute-Distributed,
}
use restreamer.Streaming.Streamer.Closing.{shut, close_all_lem}
use restreamer.Streaming.Service.{
  acl_broker, Service, Phase, loses, gets, allows, loop_step, command_step, with_streamer, step,
}
use restreamer.Streaming.Service.Phases.{consistent, All-of_member, consistent-open}

pub record Inv (w : Service) : Type 0 where
  pub distinct : w.streamer.running ≡ true → IsDistinct w.streamer.pool
  pub clients :
      (c : ℕ)
      → consistent w.streamer.running
          (member c w.streamer.pool)
          (w.phase c)
          (w.streamer.conns c).queue.is_closed
          (w.streamer.conns c).closed
        ≡ true

-- A step that succeeds, and keeps the invariant.
abbrev pub Keeps : Outcome Service → Type 0
Keeps o = (w' : Service) × (o ≡ ok w') × Inv w'

loop_running :
    (is : List Input) (w : Service) (s : Streamer acl_broker)
    → w.streamer.running ≡ true
    → stream acl_broker is w.streamer ≡ ok s
    → loop_step is w ≡ ok (with_streamer w s)
unfolding loop_step
loop_running is w s r e = ground arith

loop_stopped : (is : List Input) (w : Service) → w.streamer.running ≡ false → loop_step is w ≡ ok w
unfolding loop_step
loop_stopped is w r = ground arith

-- What holds of a client while the loop runs.
pub client_running :
    (w : Service) (c : ℕ)
    → Inv w
    → w.streamer.running ≡ true
    → consistent true
        (member c w.streamer.pool)
        (w.phase c)
        (w.streamer.conns c).queue.is_closed
        (w.streamer.conns c).closed
      ≡ true
client_running w c i running =
    subst
      (λ b.
        consistent b (member c w.streamer.pool) (w.phase c) (w.streamer.conns c).queue.is_closed
          (w.streamer.conns c).closed
        ≡ true)
      running (i.clients c)

-- The connections of a running loop are distinct and open.
All-IsOpen :
    (w : Service)
    → Inv w
    → w.streamer.running ≡ true
    → All (IsOpen w.streamer.conns) w.streamer.pool
All-IsOpen w i r = All-of_member w.streamer.conns w.streamer.pool λ c m.
    (consistent-open (member c w.streamer.pool) (w.phase c) (w.streamer.conns c).queue.is_closed
      (w.streamer.conns c).closed (client_running w c i r) m).0

offered_flags :
    (b : Bool) (p : Packet) (conn conn' : Connection)
    → conn' ≡ (if b then offered p conn else conn)
    → (conn'.queue.is_closed ≡ conn.queue.is_closed) × (conn'.closed ≡ conn.closed)
offered_flags b p conn conn' e = ground arith

-- A packet in a running loop, and what it does to each connection.
pub gets_running :
    (p : Packet) (w : Service)
    → Inv w
    → w.streamer.running ≡ true
    → (conns' : Conns) × (reports : List Report) × (step (gets p) w
        ≡ ok (
            with_streamer w
              (record (w.streamer) { conns = conns'; reports = w.streamer.reports ++ reports })))
      × ((c : ℕ)
          → conns' c ≡ (
              if member c w.streamer.pool
              then offered p (w.streamer.conns c)
              else w.streamer.conns c))
unfolding step
gets_running p w i running =
    let (conns', reports, e, d) =
      distribute-Distributed p w.streamer.pool w.streamer.conns (i.distinct running)
        (All-IsOpen w i running) in
    (
      conns',
      reports,
      loop_running (packet p ∷ []) w _ running (unfold stream stream_round in rw e),
      d.connections,
    )

pub gets_stopped : (p : Packet) (w : Service) → w.streamer.running ≡ false → step (gets p) w ≡ ok w
unfolding step
gets_stopped p w stopped = loop_stopped (packet p ∷ []) w stopped

pub gets-Keeps : (p : Packet) (w : Service) → Inv w → Keeps (step (gets p) w)
gets-Keeps p w i = elim (Bool-cases w.streamer.running) [
  | inr stopped ↦ (w, gets_stopped p w stopped, i)
  | inl running ↦
      let (conns', reports, e, at) = gets_running p w i running in
      (
        _,
        e,
        record {
          distinct = i.distinct;
          clients = λ c.
              let (same_closed, same_flag) =
                offered_flags (member c w.streamer.pool) p (w.streamer.conns c) (conns' c) (at c) in
              rw (same_closed, same_flag) (i.clients c);
        },
      )
]

shut_flags :
    (b : Bool) (p : Phase) (conn conn' : Connection)
    → consistent true b p conn.queue.is_closed conn.closed ≡ true
    → conn' ≡ (if b then shut conn else conn)
    → consistent false b p conn'.queue.is_closed conn'.closed ≡ true
shut_flags b p conn conn' h e = ground arith

-- The end of the input in a running loop.
pub loses_running :
    (w : Service)
    → Inv w
    → w.streamer.running ≡ true
    → (conns' : Conns) × (step loses w
        ≡ ok (with_streamer w (record (w.streamer) { running = false; conns = conns' })))
      × ((c : ℕ)
          → conns' c
            ≡ (if member c w.streamer.pool then shut (w.streamer.conns c) else w.streamer.conns c))
unfolding step
loses_running w i running =
    let (conns', e, at) =
      close_all_lem w.streamer.pool w.streamer.conns (i.distinct running)
        (All-IsOpen w i running) in
    (conns', loop_running (end_of_queue ∷ []) w _ running (unfold stream stream_round in rw e), at)

pub loses_stopped : (w : Service) → w.streamer.running ≡ false → step loses w ≡ ok w
unfolding step
loses_stopped w stopped = loop_stopped (end_of_queue ∷ []) w stopped

pub loses-Keeps : (w : Service) → Inv w → Keeps (step loses w)
loses-Keeps w i = elim (Bool-cases w.streamer.running) [
  | inr stopped ↦ (w, loses_stopped w stopped, i)
  | inl running ↦
      let (conns', e, at) = loses_running w i running in
      (
        _,
        e,
        record {
          distinct = λ r. cc;
          clients = λ c.
              shut_flags (member c w.streamer.pool) (w.phase c) (w.streamer.conns c) (conns' c)
                (client_running w c i running) (at c);
        },
      )
]

abbrev allowing : List Input
allowing = request (record { command = allow; address = []; connection = 0 }) ∷ []

pub allows_running :
    (w : Service)
    → w.streamer.running ≡ true
    → step allows w ≡ ok (with_streamer w (record (w.streamer) { inhibited = false }))
unfolding step command_step
allows_running w running =
    loop_running allowing w _ running (unfold stream stream_round handle_request in refl)

pub allows_stopped : (w : Service) → w.streamer.running ≡ false → step allows w ≡ ok w
unfolding step command_step
allows_stopped w stopped = loop_stopped allowing w stopped

pub allows-Keeps : (w : Service) → Inv w → Keeps (step allows w)
allows-Keeps w i = elim (Bool-cases w.streamer.running) [
  | inr stopped ↦ (w, allows_stopped w stopped, i)
  | inl running ↦
      (_, allows_running w running, record { distinct = i.distinct; clients = i.clients })
]
