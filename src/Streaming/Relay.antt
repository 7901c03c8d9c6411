-- ===== src/Streaming/Relay.antt =====
-- streaming/client.go and streaming/streamer.go together: what comes from the upstream, and what
-- the connections of the pool are given.
use mathlib.Core.List.{append_assoc, append-nil}
use restreamer.Prelude.{
  All-imp, ℕ, suc, ◌+◌, ◌*◌, ◌≤◌, ◌<◌, ◌≡◌, refl, sym, ap, ◌∙◌, inl, inr, Bool, true, false, List,
  [], ◌∷◌, ◌++◌, map, Option, some, ◌⊎◌, length, length-append, All, arith, if◌then◌else◌,
}
use restreamer.Prelude.Channel.{Outcome, ok, ◌>>=◌}
use restreamer.Protocol.Reader.{IoError, IsProgressive}
use restreamer.Protocol.Packet.Framing.{Breaks}
use restreamer.Streaming.Connection.{Packet, Connection}
use restreamer.Streaming.Streamer.{
  ConnectionBroker, Streamer, Input, Report, packet, end_of_queue, distribute, close_all,
  stream_round, stream,
}
use restreamer.Streaming.Streamer.Heap.{Conns}
use restreamer.Streaming.Streamer.Distribute.{
  member, IsDistinct, IsOpen, has_room, offered, distribute-Distributed,
}
use restreamer.Streaming.Streamer.Closing.{shut, close_all_lem}
use restreamer.Streaming.Client.Sources.{Url, Source, Network, other}
use restreamer.Streaming.Client.{Client, ready, returned, open_input, start}
use restreamer.Streaming.Client.Segments.{Segment, IsSegment, weave}
use restreamer.Streaming.Client.Start.{IsIdle, start-Streams, inputs}

-- A connection that was offered one packet after the other.
abbrev pub offered_all : List Packet → Connection → Connection
offered_all [] conn = conn
offered_all (p ∷ ps) conn = offered_all ps (offered p conn)

-- The packets and the end of the queue.
abbrev pub packets : List Packet → List Input
packets [] = end_of_queue ∷ []
packets (p ∷ ps) = packet p ∷ packets ps

offered-open :
    (p : Packet) (conn : Connection) → (offered p conn).queue.is_closed ≡ conn.queue.is_closed
offered-open p conn = ground arith

module _ (broker : ConnectionBroker) where
  -- What the loop comes to: each connection of the pool was offered all packets, and is closed then.
  abbrev pub Relays : List Packet → Streamer broker → Outcome (Streamer broker) → Type 0
  Relays ps s o =
      (s' : Streamer broker) × (o ≡ ok s')
      × ((c : ℕ)
          → s'.conns c ≡ (if member c s.pool then shut (offered_all ps (s.conns c)) else s.conns c))
      × (s'.running ≡ false)

  -- The end of the queue, and one packet, for what the lemmas give.
  stream-end :
      (s : Streamer broker) (conns' : Conns)
      → close_all s.pool s.conns ≡ ok conns'
      → stream broker (end_of_queue ∷ []) s ≡ ok (record s { running = false; conns = conns' })
  unfolding stream stream_round
  stream-end s conns' e =
      ap (λ (o : Outcome Conns). o >>= (λ conns. ok (record s { running = false; conns = conns })))
        e

  stream-packet :
      (p : Packet) (is : List Input) (s : Streamer broker) (conns' : Conns) (reports : List Report)
      → distribute p s.pool s.conns ≡ ok (conns', reports)
      → stream broker (packet p ∷ is) s
        ≡ stream broker is (record s { conns = conns'; reports = s.reports ++ reports })
  unfolding stream stream_round
  stream-packet p is s conns' reports e =
      ap
        (λ (o : Outcome (Conns × List Report)).
          (o >>= (λ x. ok (record s { conns = x.0; reports = s.reports ++ x.1 })))
          >>= (λ s'. stream broker is s'))
        e

  stream-Relays :
      (ps : List Packet) (s : Streamer broker)
      → IsDistinct s.pool
      → All (IsOpen s.conns) s.pool
      → Relays ps s (stream broker (packets ps) s)
  stream-Relays [] s distinct all =
      let (conns', e, at) = close_all_lem s.pool s.conns distinct all in
      (record s { running = false; conns = conns' }, stream-end s conns' e, at, refl)
  stream-Relays (p ∷ ps) s distinct all =
      let (conns', reports, e, d) = distribute-Distributed p s.pool s.conns distinct all in
      let s1 : Streamer broker = record s { conns = conns'; reports = s.reports ++ reports } in
      let (s', returns, at, down) = stream-Relays ps s1 distinct (
        All-imp (IsOpen s.conns) (IsOpen conns') s.pool
          (λ c o.
            ap (λ (conn : Connection). conn.queue.is_closed) (d.connections c)
            ∙ still_open (member c s.pool) (s.conns c) o)
          all) in
      (
        s',
        stream-packet p (packets ps) s conns' reports e ∙ returns,
        (λ c. at c ∙ one_more c (member c s.pool) (conns' c) (d.connections c)),
        down,
      )
    where
      still_open :
          (b : Bool) (conn : Connection)
          → conn.queue.is_closed ≡ false
          → (if b then offered p conn else conn).queue.is_closed ≡ false
      still_open true conn o = offered-open p conn ∙ o
      still_open false conn o = o

      one_more :
          (c : ℕ) (b : Bool) (conn : Connection)
          → conn ≡ (if b then offered p (s.conns c) else s.conns c)
          → (if b then shut (offered_all ps conn) else conn)
            ≡ (if b then shut (offered_all ps (offered p (s.conns c))) else s.conns c)
      one_more c true conn e = ap (λ (x : Connection). shut (offered_all ps x)) e
      one_more c false conn e = e

-- A queue with room for all packets has them all.
offered_all-room :
    (ps : List Packet) (conn : Connection)
    → length conn.queue.items + length ps ≤ conn.queue.capacity
    → (offered_all ps conn).queue.items ≡ conn.queue.items ++ ps
offered_all-room [] conn h = sym (append-nil conn.queue.items)
offered_all-room (p ∷ ps) conn h =
    let room : has_room conn ≡ true = ground arith in
    let conn1 : Connection = record conn {
      queue = record (conn.queue) { items = conn.queue.items ++ (p ∷ []) };
    } in
    let accepted : offered p conn ≡ conn1 =
      ap
        (λ (b : Bool). record conn {
          queue =
              if b
              then record (conn.queue) { items = conn.queue.items ++ (p ∷ []) }
              else conn.queue;
        })
        room in
    ap (λ (x : Connection). (offered_all ps x).queue.items) accepted
    ∙ offered_all-room ps conn1 (omega (arith, h, length-append conn.queue.items (p ∷ [])))
    ∙ append_assoc conn.queue.items (p ∷ []) ps

abbrev pub packets_of : List Segment → List Packet
packets_of [] = []
packets_of ((gap, p) ∷ xs) = p ∷ packets_of xs

length-packets_of : (xs : List Segment) → length (packets_of xs) ≡ length xs
length-packets_of [] = refl
length-packets_of ((gap, p) ∷ xs) = ap suc (length-packets_of xs)

packets-packets_of :
    (xs : List Segment) → map (λ y. packet y.1) xs ++ (end_of_queue ∷ []) ≡ packets (packets_of xs)
packets-packets_of [] = refl
packets-packets_of ((gap, p) ∷ xs) = ap (◌∷◌ (packet p)) (packets-packets_of xs)

-- What a loop with the inputs of an attempt does for a connection that has room.
abbrev pub Reaches : (broker : ConnectionBroker) → List Segment → Streamer broker → Type 0
Reaches broker xs s =
    (s' : Streamer broker) × (stream broker (inputs xs) s ≡ ok s')
    × ((k : ℕ)
        → member k s.pool ≡ true
        → length (s.conns k).queue.items + length xs ≤ (s.conns k).queue.capacity
        → ((s'.conns k).queue.items ≡ (s.conns k).queue.items ++ packets_of xs)
          × ((s'.conns k).queue.is_closed ≡ true))

inputs-Reaches :
    (broker : ConnectionBroker) (x : Segment) (xs : List Segment) (s : Streamer broker)
    → IsDistinct s.pool
    → All (IsOpen s.conns) s.pool
    → Reaches broker (x ∷ xs) s
inputs-Reaches broker x xs s distinct all =
    let (s', returns, at, down) = stream-Relays broker (packets_of (x ∷ xs)) s distinct all in
    (
      s',
      ap (λ (is : List Input). stream broker is s) (packets-packets_of (x ∷ xs)) ∙ returns,
      λ k here room.
          let now =
            at k
            ∙ ap
                (λ (b : Bool).
                  if b then shut (offered_all (packets_of (x ∷ xs)) (s.conns k)) else s.conns k)
                here in
          (
            ap (λ (conn : Connection). conn.queue.items) now
                ∙ offered_all-room (packets_of (x ∷ xs)) (s.conns k)
                    (omega (arith, room, length-packets_of (x ∷ xs))),
            ap (λ (conn : Connection). conn.queue.is_closed) now,
          ),
    )

-- For a client without a connection, and a network that opens a source for the URL whose reader
-- stores a byte or errs at each call, with a fuel that is more than one above a 188th of the bytes
-- that the source still has; and for a streamer in whose pool no connection is twice and no queue
-- closed: the attempt is over, with the error of a call of the source's reader that failed. The bytes
-- of the source in front of this call are packets, each 188 bytes from a sync byte on, with no sync
-- byte skipped in front of any; behind the last one are some with no sync byte and then fewer than
-- 188. If there is a packet, the loop of the streamer over what the client has sent it does not
-- panic, and each connection of the pool that has room for all the packets has exactly them, in
-- order, behind what was queued, and its queue is closed.
pub upstream-Reaches :
    (broker : ConnectionBroker) (s : Streamer broker) (fuel : ℕ) (net : Network) (u : Url)
    (c : Client) (status : Option ℕ) (i : Source)
    → IsIdle c
    → open_input net u c ≡ ready status i
    → IsProgressive i.reader
    → length (i.reader.content i.state) + 188 < 188 * fuel
    → IsDistinct s.pool
    → All (IsOpen s.conns) s.pool
    → (c' : Client) × (e : IoError) × (xs : List Segment) × (rest : List ℕ) × (end : i.reader.State)
      × (start fuel net u c ≡ returned c' (some (other e)))
      × Breaks i.reader rest e end
      × (i.reader.content i.state ≡ weave xs rest)
      × All IsSegment xs
      × (c'.sent ≡ c.sent ++ inputs xs)
      × ((xs ≡ []) ⊎ Reaches broker xs s)
upstream-Reaches broker s fuel net u c status i idle opens progress enough distinct all =
    let (c', e, xs, rest, end, ended, breaks, _, read, segments, sent, _) =
      start-Streams fuel net u c status i idle opens progress enough in
    (c', e, xs, rest, end, ended, breaks, read, segments, sent, reached xs)
  where
    reached : (xs : List Segment) → (xs ≡ []) ⊎ Reaches broker xs s
    reached [] = inl refl
    reached (x ∷ xs) = inr (inputs-Reaches broker x xs s distinct all)
