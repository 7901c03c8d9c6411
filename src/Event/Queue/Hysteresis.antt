-- ===== src/Event/Queue/Hysteresis.antt =====
-- Which crossings of the limit are reported.
use restreamer.Prelude.{
  ℕ, ◌≡◌, ◌≢◌, ◌≤◌, ◌<◌, Bool, true, false, List, [], ◌∷◌, ◌++◌, arith, leb, Bool-cases, inl, inr,
}
use restreamer.Event.Queue.{
  Queue, Event, hit, miss, StateChange, connect, beat, new_count, transition, handle,
  handle_connect, handle_heartbeat, notify, consume,
}

-- A list of calls that fits a count which is at the limit or above (`above`) at its start, and
-- is so (`after`) at its end: hits and misses alternate, each with a count on either side of the
-- limit.
pub data Alternates (handler limit : ℕ) : Bool → List (ℕ × Event) → Bool → Type 0 where
  done : (b : Bool) → Alternates handler limit b [] b
  rises :
      {after : Bool} {calls : List (ℕ × Event)} (old new : ℕ)
      → old < limit
      → limit ≤ new
      → Alternates handler limit true calls after
      → Alternates handler limit false ((handler, hit old new limit) ∷ calls) after
  falls :
      {after : Bool} {calls : List (ℕ × Event)} (old new : ℕ)
      → limit ≤ old
      → new < limit
      → Alternates handler limit false calls after
      → Alternates handler limit true ((handler, miss old new limit) ∷ calls) after

-- The queue reports the limit to one handler, and heartbeats to none.
pub record Watched (handler : ℕ) (q : Queue) : Type 0 where
  pub on_hit : q.on_hit ≡ (handler, true) ∷ []
  pub on_miss : q.on_miss ≡ (handler, true) ∷ []
  pub on_heartbeat : q.on_heartbeat ≡ []
  pub enabled : q.limit ≢ 0

abbrev above : Queue → Bool
above q = leb q.limit q.connections

-- What a change of the count reports, on each of the ways across or beside the limit.
data Crossing (handler : ℕ) (q : Queue) (newconn : ℕ) : Type 0 where
  stays :
      transition q newconn ≡ []
      → leb q.limit newconn ≡ leb q.limit q.connections
      → Crossing handler q newconn
  up :
      transition q newconn ≡ (handler, hit q.connections newconn q.limit) ∷ []
      → leb q.limit q.connections ≡ false
      → leb q.limit newconn ≡ true
      → Crossing handler q newconn
  down :
      transition q newconn ≡ (handler, miss q.connections newconn q.limit) ∷ []
      → leb q.limit q.connections ≡ true
      → leb q.limit newconn ≡ false
      → Crossing handler q newconn

crossing : (handler : ℕ) (q : Queue) (newconn : ℕ) → Watched handler q → Crossing handler q newconn
unfolding transition notify
crossing handler q newconn w = elim (Bool-cases (leb q.limit q.connections)) [
  | inl high ↦ elim (Bool-cases (leb q.limit newconn)) [
    | inl still ↦ stays (ground arith) (ground arith)
    | inr fell ↦ down (ground arith) high fell
  ]
  | inr low ↦ elim (Bool-cases (leb q.limit newconn)) [
    | inl rose ↦ up (ground arith) low rose
    | inr still ↦ stays (ground arith) (ground arith)
  ]
]

prepend :
    (handler : ℕ) (q : Queue) (newconn : ℕ) {calls : List (ℕ × Event)} {after : Bool}
    → Crossing handler q newconn
    → Alternates handler q.limit (leb q.limit newconn) calls after
    → Alternates handler q.limit (above q) (transition q newconn ++ calls) after
prepend handler q newconn (stays none_called same) a = rw (none_called, ← same) a
prepend handler q newconn (up called low rose) a =
    rw (called, low) (rises q.connections newconn (ground arith) (ground arith) (rw rose at a))
prepend handler q newconn (down called high fell) a =
    rw (called, high) (falls q.connections newconn (ground arith) (ground arith) (rw fell at a))

heartbeat_silent : (handler : ℕ) (q : Queue) (t : ℕ) → Watched handler q → handle_heartbeat q t ≡ []
unfolding handle_heartbeat notify
heartbeat_silent handler q t w = ground arith

-- A queue with a limit, which reports hits and misses to one handler: whatever messages it handles,
-- the calls of the handler alternate between hits and misses, each with the old count and the new
-- one on either side of the limit. The first is a hit if the count was below the limit, and the
-- last one tells on which side the count is now.
pub consume-Alternates :
    (handler : ℕ) (q : Queue) (ms : List StateChange)
    → Watched handler q
    → Alternates handler q.limit
        (leb q.limit q.connections)
        (consume q ms).1
        (leb (consume q ms).0.limit (consume q ms).0.connections)
unfolding consume handle
consume-Alternates handler q [] w = done (above q)
consume-Alternates handler q (connect z ∷ ms) w =
    prepend handler q (new_count q.connections z) (crossing handler q _ w) (
      consume-Alternates handler (handle_connect q z).0 ms (record {
        on_hit = w.on_hit;
        on_miss = w.on_miss;
        on_heartbeat = w.on_heartbeat;
        enabled = w.enabled;
      }))
consume-Alternates handler q (beat t ∷ ms) w =
    rw (heartbeat_silent handler q t w) (consume-Alternates handler q ms w)
