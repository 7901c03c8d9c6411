-- ===== src/Streaming/Service/Phases.antt =====
-- What holds of one client's handler, its connection and its place in the pool.
use restreamer.Prelude.{
  ℕ, ◌≡◌, Bool, true, false, not, ◌&&◌, List, [], ◌∷◌, arith, All, ◌==◌, if◌then◌else◌, nat_eq,
}
use restreamer.Streaming.Streamer.{delete_conn, add_conn}
use restreamer.Streaming.Streamer.Heap.{Conns}
use restreamer.Streaming.Streamer.Distribute.{member, IsDistinct, IsOpen}
use restreamer.Streaming.Service.{Phase, serving, leaving, draining}

-- While the loop runs: exactly the handlers in Serve, and those about to leave it, have a connection
-- in the pool, and its queue is open. While it does not run, the queues of these are closed. The
-- flag `Closed` is set on closed queues only.
abbrev pub consistent : (running in_pool : Bool) → Phase → (is_closed flag : Bool) → Bool
consistent true in_pool serving is_closed flag = in_pool && not is_closed && not flag
consistent true in_pool leaving is_closed flag = in_pool && not is_closed && not flag
consistent true in_pool draining is_closed flag = not in_pool && is_closed
consistent true in_pool _ is_closed flag = not in_pool
consistent false in_pool serving is_closed flag = is_closed
consistent false in_pool leaving is_closed flag = is_closed
consistent false in_pool draining is_closed flag = is_closed
consistent false in_pool _ is_closed flag = true

pub member-delete :
    (c d : ℕ) (pool : List ℕ)
    → member d (delete_conn c pool) ≡ (if c == d then false else member d pool)
member-delete c d [] = ground arith
member-delete c d (e ∷ es) = ground (arith, member-delete c d es)

pub delete-IsDistinct : (c : ℕ) (pool : List ℕ) → IsDistinct pool → IsDistinct (delete_conn c pool)
delete-IsDistinct c [] h = tt
delete-IsDistinct c (e ∷ es) h = ground (arith, delete-IsDistinct c es h.1, member-delete c e es)

pub member-add :
    (c d : ℕ) (pool : List ℕ)
    → member d (add_conn c pool) ≡ (if c == d then true else member d pool)
member-add c d pool = ground (arith, member-delete c d pool)

pub add-IsDistinct : (c : ℕ) (pool : List ℕ) → IsDistinct pool → IsDistinct (add_conn c pool)
add-IsDistinct c pool h = (ground (arith, member-delete c c pool), delete-IsDistinct c pool h)

-- A fact about each connection of the pool, gathered along it.
pub All-of_member :
    (conns : Conns) (pool : List ℕ)
    → ((c : ℕ) → member c pool ≡ true → IsOpen conns c)
    → All (IsOpen conns) pool
All-of_member conns [] h = tt
All-of_member conns (d ∷ ds) h =
    (h d (ground arith), All-of_member conns ds (λ c m. h c (ground arith)))

-- In a running loop a connection of the pool is open.
pub consistent-open :
    (in_pool : Bool) (p : Phase) (is_closed flag : Bool)
    → consistent true in_pool p is_closed flag ≡ true
    → in_pool ≡ true
    → (is_closed ≡ false) × (flag ≡ false)
consistent-open in_pool p is_closed flag h m = ground arith
