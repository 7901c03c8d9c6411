-- ===== src/Streaming/Streamer/Distribute.antt =====
-- One packet for all connections of the pool: who gets it, and what is reported.
use mathlib.Core.Path.{ap₂, subst}
use restreamer.Prelude.{
  nat_eq, Eq-cases, beq_ne, ℕ, ◌≡◌, ◌≢◌, refl, sym, ap, ◌∙◌, inl, inr, Bool, false, ◌||◌, List, [],
  ◌∷◌, ◌++◌, map, length, arith, All, ltb, ◌==◌, if◌then◌else◌,
}
use restreamer.Prelude.Channel.{ok, try_send}
use restreamer.Streaming.Connection.{Packet, Connection}
use restreamer.Streaming.Streamer.{Report, packet_sent, packet_dropped, distribute}
use restreamer.Streaming.Streamer.Heap.{Conns, update, update_self, update_ne}

abbrev pub member : ℕ → List ℕ → Bool
member c [] = false
member c (d ∷ ds) = d == c || member c ds

-- No connection stands in the pool twice.
abbrev pub IsDistinct : List ℕ → Type 0
IsDistinct [] = Unit {0}
IsDistinct (c ∷ cs) = (member c cs ≡ false) × IsDistinct cs

abbrev pub IsOpen : Conns → ℕ → Type 0
IsOpen conns c = (conns c).queue.is_closed ≡ false

abbrev pub has_room : Connection → Bool
has_room conn = ltb (length conn.queue.items) conn.queue.capacity

-- A connection that was offered a packet: it is queued last, if there is room.
abbrev pub offered : Packet → Connection → Connection
offered p conn = record conn {
  queue =
      if has_room conn
      then record (conn.queue) { items = conn.queue.items ++ (p ∷ []) }
      else conn.queue;
}

abbrev pub report_of : Connection → Report
report_of conn = if has_room conn then packet_sent else packet_dropped

-- The heap and the reports after a packet was distributed.
pub record Distributed (p : Packet) (pool : List ℕ) (conns conns' : Conns) (reports : List Report)
    : Type 0 where
  pub connections : (c : ℕ) → conns' c ≡ (if member c pool then offered p (conns c) else conns c)
  pub reported : reports ≡ map (λ c. report_of (conns c)) pool

pub update-IsOpen :
    (conns : Conns) (c : ℕ) (conn : Connection) (pool : List ℕ)
    → conn.queue.is_closed ≡ false
    → All (IsOpen conns) pool
    → All (IsOpen (update conns c conn)) pool
update-IsOpen conns c conn [] o all = tt
update-IsOpen conns c conn (d ∷ ds) o all = (ground arith, update-IsOpen conns c conn ds o all.1)

pub member-cons :
    (c d : ℕ) (ds : List ℕ) → member c (d ∷ ds) ≡ false → (d ≢ c) × (member c ds ≡ false)
member-cons c d ds h = (λ e. ground arith, ground arith)

map_reports :
    (conns : Conns) (c : ℕ) (conn : Connection) (pool : List ℕ)
    → member c pool ≡ false
    → map (λ d. report_of (update conns c conn d)) pool ≡ map (λ d. report_of (conns d)) pool
map_reports conns c conn [] h = refl
map_reports conns c conn (d ∷ ds) h =
    let (other, rest) = member-cons c d ds h in
    ap₂ ◌∷◌ (ap report_of (update_ne conns c d conn (λ e. other (sym e))))
      (map_reports conns c conn ds rest)

try_send-open :
    (p : Packet) (conn : Connection)
    → conn.queue.is_closed ≡ false
    → try_send p conn.queue ≡ ok ((offered p conn).queue, has_room conn)
try_send-open p conn o = ground arith

distribute-cons :
    (p : Packet) (c : ℕ) (cs : List ℕ) (conns conns' : Conns) (reports : List Report)
    → IsOpen conns c
    → distribute p cs (update conns c (offered p (conns c))) ≡ ok (conns', reports)
    → distribute p (c ∷ cs) conns ≡ ok (conns', report_of (conns c) ∷ reports)
unfolding distribute
distribute-cons p c cs conns conns' reports o e = rw (try_send-open p (conns c) o) (rw e)

-- A function applied to one connection and then to those of a pool without it.
module _ (f : Connection → Connection) (c : ℕ) (cs : List ℕ) (conns conns' : Conns) where
  pub pool-cons :
      member c cs ≡ false
      → ((e : ℕ)
          → conns' e ≡ (
              if member e cs
              then f (update conns c (f (conns c)) e)
              else update conns c (f (conns c)) e))
      → (e : ℕ) → conns' e ≡ (if member e (c ∷ cs) then f (conns e) else conns e)
  pool-cons new later e = elim (Eq-cases c e) [
    | inl same ↦
        subst (λ d. conns' d ≡ (if member d (c ∷ cs) then f (conns d) else conns d)) same at_c
    | inr other ↦ later e ∙ rw (update_ne conns c e (f (conns c)) other) (rw (beq_ne c e other))
  ]
    where
      at_c : conns' c ≡ (if member c (c ∷ cs) then f (conns c) else conns c)
      at_c = later c ∙ rw (new, update_self conns c (f (conns c))) (ground arith)

-- If no connection is in the pool twice and no queue in it is closed, a packet is distributed with
-- no panic: each connection of the pool with room in its queue gets it behind what was queued, no
-- other connection changes, and one packet is reported sent or dropped for each of the pool.
pub distribute-Distributed :
    (p : Packet) (pool : List ℕ) (conns : Conns)
    → IsDistinct pool
    → All (IsOpen conns) pool
    → (conns' : Conns) × (reports : List Report) × (distribute p pool conns ≡ ok (conns', reports))
      × Distributed p pool conns conns' reports
distribute-Distributed p [] conns distinct all =
    (conns, [], unfold distribute in refl, record { connections = λ c. refl; reported = refl })
distribute-Distributed p (c ∷ cs) conns distinct all =
    let conn = offered p (conns c) in
    let still_open : conn.queue.is_closed ≡ false = ground (arith, all.0) in
    let (conns', reports, e, d) =
      distribute-Distributed p cs (update conns c conn) distinct.1
        (update-IsOpen conns c conn cs still_open all.1) in
    (
      conns',
      report_of (conns c) ∷ reports,
      distribute-cons p c cs conns conns' reports all.0 e,
      record {
        connections = pool-cons (offered p) c cs conns conns' distinct.0 d.connections;
        reported =
            ap (◌∷◌ (report_of (conns c))) (d.reported ∙ map_reports conns c conn cs distinct.0);
      },
    )
