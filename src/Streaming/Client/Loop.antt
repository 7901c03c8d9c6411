-- ===== src/Streaming/Client/Loop.antt =====
-- streaming/client.go: the connection loop, which tries the URLs in turn.
use restreamer.Prelude.{
  ℕ, ◌+◌, ◌%◌, Bool, true, false, not, ◌||◌, List, [], ◌∷◌, none, some, ltb, ◌==◌, length,
  get_elem?, if◌then◌else◌,
}
use restreamer.Streaming.Client.Sources.{Network}
use restreamer.Streaming.Client.{Client, returned, pulling, start, log_error}

-- What an attempt meets: how long after the last deadline was set the clock is read, by how much
-- later than it should the next deadline is set, and what the network does.
pub record Moment : Type 1 where
  pub elapsed : ℕ
  pub overslept : ℕ
  pub network : Network
  pub fuel : ℕ

-- The local variables of `loop`, the client, and the time when the deadline was set last. `set_at`
-- and `visited` hold, newest first, all such times, and the indices of the
-- URLs that were tried.
pub record Loop : Type 1 where
  pub first : Bool
  pub deadline : ℕ
  pub next : ℕ
  pub client : Client
  pub clock : ℕ
  pub set_at : List ℕ
  pub visited : List ℕ

unfoldable pub begin_loop : ℕ → Client → Loop
begin_loop now c = record {
  first = true;
  deadline = now + c.wait;
  next = 0;
  client = c;
  clock = now;
  set_at = now ∷ [];
  visited = [];
}

-- The first half of a round: sleep up to the deadline, and set the next one.
unfoldable pub await_deadline : Moment → Loop → Loop
await_deadline m s =
    let now = s.clock + m.elapsed in
    let woken = (if ltb now s.deadline then s.deadline else now) + m.overslept in
    if s.first
    then record s { first = false }
    else record s { deadline = woken + s.client.wait; clock = woken; set_at = woken ∷ s.set_at }

-- `crashed` is the use of a nil pointer.
pub data Looped : Type 1 where
  going : Loop → Looped
  finished : Loop → Looped
  crashed : Looped
  in_pull : Looped

-- The second half: the next URL, `start`, whose error is logged.
unfoldable pub connect_next : Moment → Loop → Looped
unfolding start
connect_next m s =
    let index = (s.next + 1) % length s.client.urls in
    elim (get_elem? s.client.urls s.next) [
      | some (some u) ↦ elim (start m.fuel m.network u s.client) [
        | returned c err ↦
            going
              (record s { next = index; client = log_error err c; visited = s.next ∷ s.visited })
        | pulling ↦ in_pull
      ]
      | some none ↦ crashed
      | none ↦ crashed
    ]

unfoldable pub loop_round : Moment → Loop → Looped
unfolding await_deadline connect_next
loop_round m s = connect_next m (await_deadline m s)

-- `for first || client.Wait != 0`; the loop is going as long as there are moments.
unfoldable pub loop : List Moment → Loop → Looped
loop [] s = going s
loop (m ∷ ms) s = elim (s.first || not (s.client.wait == 0)) [
  | false ↦ finished s
  | true ↦ elim (loop_round m s) [
    | going s' ↦ loop ms s'
    | finished s' ↦ finished s'
    | crashed ↦ crashed
    | in_pull ↦ in_pull
  ]
]
