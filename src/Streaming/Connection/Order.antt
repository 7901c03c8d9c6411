-- ===== src/Streaming/Connection/Order.antt =====
-- What a client receives of the packets of its queue.
use mathlib.Core.List.{append_assoc, append-nil}
use restreamer.Prelude.{
  ℕ, ◌≡◌, ◌≤◌, refl, sym, ap, ◌∙◌, Bool, true, false, List, [], ◌∷◌, ◌++◌, Text, length, arith,
  if◌then◌else◌,
}
use restreamer.Prelude.Http.{Response, write}
use restreamer.Streaming.Connection.{
  Packet, Connection, Ready, queue_ready, context_done, serve_round, serve_loop,
}

-- The bytes of packets, one after the other.
unfoldable pub concat : List Packet → Text
concat [] = []
concat (p ∷ ps) = p ++ concat ps

pub concat-snoc : (ps : List Packet) (p : Packet) → concat (ps ++ (p ∷ [])) ≡ concat ps ++ p
unfolding concat
concat-snoc [] p = append-nil p
concat-snoc (q ∷ qs) p =
    ap (λ (t : Text). q ++ t) (concat-snoc qs p) ∙ sym (append_assoc q (concat qs) p)

-- The ways a round may go. The indices say what becomes of the connection.
pub data Round (conn : Connection) : Connection → Bool → Type 0 where
  waits : Round conn conn true
  leaves : Round conn conn false
  ends :
      conn.queue.items ≡ []
      → conn.queue.is_closed ≡ true
      → Round conn (record conn { closed = true }) false
  delivers :
      (p : Packet) (rest : List Packet)
      → conn.queue.items ≡ p ∷ rest
      → Round conn
          (record conn {
            queue = record (conn.queue) { items = rest };
            writer = write p conn.writer;
          })
          true
  fails :
      (p : Packet) (rest : List Packet)
      → conn.queue.items ≡ p ∷ rest
      → Round conn (record conn { queue = record (conn.queue) { items = rest } }) false

-- The fields that a round looks at come first, so that they can be split on.
queue-Round :
    (items : List Packet) (is_closed write_succeeds : Bool) (capacity : ℕ) (address : Text)
    (writer : Response) (closed : Bool)
    → let conn : Connection = record {
      queue = record { items = items; capacity = capacity; is_closed = is_closed };
      client_address = address;
      writer = writer;
      closed = closed;
    } in
      let (conn', running) = serve_round (queue_ready write_succeeds) conn in
      Round conn conn' running
unfolding serve_round
queue-Round [] true ok n a w c = ends refl refl
queue-Round [] false ok n a w c = waits
queue-Round (p ∷ rest) closed true n a w c = delivers p rest refl
queue-Round (p ∷ rest) closed false n a w c = fails p rest refl

pub serve_round-Round :
    (r : Ready) (conn : Connection) → Round conn (serve_round r conn).0 (serve_round r conn).1
unfolding serve_round
serve_round-Round context_done conn = leaves
serve_round-Round (queue_ready ok) conn =
    queue-Round conn.queue.items conn.queue.is_closed ok conn.queue.capacity conn.client_address
      conn.writer conn.closed

-- From one connection to a later one, which still serves or not: the packets taken from the queue
-- are those sent, in order, and one at most that was lost to a failed write at the end. The flag
-- `Closed` is set only when the queue was closed and all of it was sent.
pub record Delivers (conn : Connection) (result : Connection × Bool) : Type 0 where
  pub sent : List Packet
  pub lost : List Packet
  pub taken : conn.queue.items ≡ sent ++ (lost ++ result.0.queue.items)
  pub written : result.0.writer.body ≡ conn.writer.body ++ concat sent
  pub at_most_one : length lost ≤ 1
  pub serving : result.1 ≡ true → lost ≡ []
  pub complete :
      conn.closed ≡ false
      → result.0.closed ≡ true
      → (conn.queue.is_closed ≡ true) × (lost ≡ []) × (result.0.queue.items ≡ [])

Delivers-nothing : (conn : Connection) (b : Bool) → Delivers conn (conn, b)
unfolding concat
Delivers-nothing conn b = record {
  sent = [];
  lost = [];
  taken = refl;
  written = sym (append-nil conn.writer.body);
  at_most_one = omega arith;
  serving = λ e. refl;
  complete = λ fresh shut. cc;
}

-- A round in front of what follows it.
Delivers-Round :
    {conn conn' : Connection} {running : Bool} (later : Connection × Bool)
    → Round conn conn' running
    → Delivers conn' later
    → Delivers conn (if running then later else (conn', false))
unfolding concat
Delivers-Round later waits d = d
Delivers-Round {conn} later leaves d = Delivers-nothing conn false
Delivers-Round {conn} later (ends empty shut) d = record {
  sent = [];
  lost = [];
  taken = refl;
  written = sym (append-nil conn.writer.body);
  at_most_one = omega arith;
  serving = λ e. refl;
  complete = λ fresh closed. (shut, refl, empty);
}
Delivers-Round {conn} later (delivers p rest e) d = record {
  sent = p ∷ d.sent;
  lost = d.lost;
  taken = e ∙ ap (◌∷◌ p) d.taken;
  written = d.written ∙ append_assoc conn.writer.body p (concat d.sent);
  at_most_one = d.at_most_one;
  serving = d.serving;
  complete = d.complete;
}
Delivers-Round {conn} later (fails p rest e) d = record {
  sent = [];
  lost = p ∷ [];
  taken = e;
  written = sym (append-nil conn.writer.body);
  at_most_one = omega arith;
  serving = λ t. cc;
  complete = λ fresh shut. cc;
}

-- Whatever the loop finds ready, round by round: what the client has received is the beginning of
-- the queue, in order, and all of the queue if the loop ended because the queue was closed.
pub serve_loop-Delivers : (rs : List Ready) (conn : Connection) → Delivers conn (serve_loop rs conn)
unfolding serve_loop
serve_loop-Delivers [] conn = Delivers-nothing conn true
serve_loop-Delivers (r ∷ rs) conn =
    let (conn', running) = serve_round r conn in
    Delivers-Round (serve_loop rs conn') (serve_round-Round r conn) (serve_loop-Delivers rs conn')
