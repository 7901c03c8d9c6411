-- ===== src/Streaming/Service/Feed.antt =====
-- What a client of the service has got, from its admission to its end.
use mathlib.Core.List.{append_assoc}
use mathlib.Core.Path.{subst}
use restreamer.Prelude.{
  ℕ, ◌≡◌, ◌⊎◌, inl, inr, refl, sym, ◌∙◌, Bool, true, false, List, [], ◌∷◌, ◌++◌, arith, Text,
  if◌then◌else◌, Bool-cases,
}
use restreamer.Streaming.Connection.{Packet, Connection}
use restreamer.Streaming.Connection.Order.{concat}
use restreamer.Streaming.Streamer.Distribute.{has_room, offered}
use restreamer.Streaming.Streamer.Closing.{shut}
use restreamer.Streaming.Service.{Phase, idle, rejected, serving, leaving, draining, finished}
use restreamer.Streaming.Service.Phases.{consistent}
use restreamer.Streaming.Service.Portions.{
  IsPart, IsWhole, IsWhole-IsPart, IsPart-more, IsWhole-got, IsWhole-missed,
}

-- A content is the preamble and then the given packets; or it is empty, without a packet.
abbrev pub IsContent : Text → List Packet → Text → Type 0
IsContent preamble sent body = (body ≡ preamble ++ concat sent) ⊎ ((body ≡ []) × (sent ≡ []))

module _ (qsize : ℕ) (preamble : Text) where
  -- A client in Serve has everything since its admission, but what waits in its queue.
  pub record Serves (ps : List Packet) (conn : Connection) : Type 0 where
    pub sent : List Packet
    pub content : conn.writer.body ≡ preamble ++ concat sent
    pub capacity : conn.queue.capacity ≡ qsize
    pub unflagged : conn.closed ≡ false
    pub whole : IsWhole qsize ps (sent ++ conn.queue.items)

  -- A client that was in Serve has got packets in order. If it left at the end of the queue, it has
  -- everything up to the end of the stream.
  pub record Left (ps : List Packet) (running : Bool) (body : Text) (closed : Bool) : Type 0 where
    pub sent : List Packet
    pub content : IsContent preamble sent body
    pub part : IsPart qsize ps sent
    pub complete : closed ≡ true → (running ≡ false) × IsWhole qsize ps sent

  abbrev pub Fed : List Packet → Bool → Phase → Connection → Type 0
  Fed ps running idle conn = ⊥
  Fed ps running rejected conn = conn.writer.body ≡ []
  Fed ps running serving conn = Serves ps conn
  Fed ps running leaving conn = Left ps running conn.writer.body conn.closed
  Fed ps running draining conn = Left ps running conn.writer.body conn.closed
  Fed ps running finished conn = Left ps running conn.writer.body conn.closed

  -- A handler stops serving, with its flag not set.
  pub Serves-Left :
      (ps : List Packet) (running : Bool) (conn : Connection)
      → Serves ps conn
      → Left ps running conn.writer.body conn.closed
  Serves-Left ps running conn s = record {
    sent = s.sent;
    content = inl s.content;
    part = IsWhole-IsPart qsize ps s.sent conn.queue.items s.whole;
    complete = λ e. cc (s.unflagged);
  }

  -- One more packet for a client that is not in Serve any more.
  Left-more :
      (p : Packet) (ps : List Packet) (body : Text) (closed : Bool)
      → Left ps true body closed
      → Left (ps ++ (p ∷ [])) true body closed
  Left-more p ps body closed l = record {
    sent = l.sent;
    content = l.content;
    part = IsPart-more qsize ps p l.sent l.part;
    complete = λ e. let (off, _) = l.complete e in cc off;
  }

  -- One more packet for a client in Serve: it is queued, or the queue is full.
  Serves-more :
      (p : Packet) (ps : List Packet) (conn : Connection)
      → Serves ps conn
      → Serves (ps ++ (p ∷ [])) (offered p conn)
  Serves-more p ps conn s = elim (Bool-cases (has_room conn)) [
    | inl room ↦ rw room (record {
      sent = s.sent;
      content = s.content;
      capacity = s.capacity;
      unflagged = s.unflagged;
      whole =
          subst (IsWhole qsize (ps ++ (p ∷ []))) (append_assoc s.sent conn.queue.items (p ∷ []))
            (IsWhole-got qsize ps p (s.sent ++ conn.queue.items) s.whole);
    })
    | inr full ↦ rw full (record {
      sent = s.sent;
      content = s.content;
      capacity = s.capacity;
      unflagged = s.unflagged;
      whole =
          IsWhole-missed qsize ps p s.sent conn.queue.items (ground (arith, s.capacity)) s.whole;
    })
  ]

  offered_fields :
      (p : Packet) (b : Bool) (conn conn' : Connection)
      → conn' ≡ (if b then offered p conn else conn)
      → (conn'.writer ≡ conn.writer) × (conn'.closed ≡ conn.closed)
  offered_fields p b conn conn' e = ground arith

  serving_member :
      (in_pool is_closed flag : Bool)
      → consistent true in_pool serving is_closed flag ≡ true
      → in_pool ≡ true
  serving_member in_pool is_closed flag h = ground arith

  -- A packet is distributed over the pool.
  pub Fed-packet :
      (p : Packet) (ps : List Packet) (phase : Phase) (in_pool : Bool) (conn conn' : Connection)
      → conn' ≡ (if in_pool then offered p conn else conn)
      → consistent true in_pool phase conn.queue.is_closed conn.closed ≡ true
      → Fed ps true phase conn
      → Fed (ps ++ (p ∷ [])) true phase conn'
  Fed-packet p ps serving m conn conn' e h f =
      let in_pool = serving_member m conn.queue.is_closed conn.closed h in
      subst (Serves (ps ++ (p ∷ []))) (sym (e ∙ rw in_pool refl)) (Serves-more p ps conn f)
  Fed-packet p ps idle m conn conn' e h f = f
  Fed-packet p ps rejected m conn conn' e h f = rw (offered_fields p m conn conn' e).0 f
  Fed-packet p ps phase m conn conn' e h f =
      let (same_writer, same_flag) = offered_fields p m conn conn' e in
      rw (same_writer, same_flag) (Left-more p ps conn.writer.body conn.closed f)

  -- The end of the stream.
  Fed-ended :
      (ps : List Packet) (phase : Phase) (conn : Connection)
      → Fed ps true phase conn
      → Fed ps false phase conn
  Fed-ended ps serving conn f = f
  Fed-ended ps idle conn f = f
  Fed-ended ps rejected conn f = f
  Fed-ended ps phase conn f = record {
    sent = f.sent;
    content = f.content;
    part = f.part;
    complete = λ e. let (off, _) = f.complete e in cc off;
  }

  -- The queue is closed, which takes nothing from it.
  Fed-shut :
      (ps : List Packet) (running : Bool) (phase : Phase) (conn : Connection)
      → Fed ps running phase conn
      → Fed ps running phase (shut conn)
  Fed-shut ps running serving conn f = record {
    sent = f.sent;
    content = f.content;
    capacity = f.capacity;
    unflagged = f.unflagged;
    whole = f.whole;
  }
  Fed-shut ps running idle conn f = f
  Fed-shut ps running phase conn f = f

  pub Fed-closing :
      (ps : List Packet) (phase : Phase) (in_pool : Bool) (conn conn' : Connection)
      → conn' ≡ (if in_pool then shut conn else conn)
      → Fed ps true phase conn
      → Fed ps false phase conn'
  Fed-closing ps phase true conn conn' e f =
      subst (Fed ps false phase) (sym e)
        (Fed-ended ps phase (shut conn) (Fed-shut ps true phase conn f))
  Fed-closing ps phase false conn conn' e f =
      subst (Fed ps false phase) (sym e) (Fed-ended ps phase conn f)
