-- ===== src/Event/Queue/Counter.antt =====
-- The connection counter and the sum of the changes.
use restreamer.Prelude.{ℕ, ◌≡◌, ◌≤◌, List, [], ◌∷◌, arith, ltb, if◌then◌else◌}
use restreamer.Prelude.Int.{ℤ, pos, negsuc, ◌+ℤ◌, pos_part}
use restreamer.Event.Queue.{
  Queue, StateChange, connect, beat, max_int32, new_queue, new_count, handle, handle_connect,
  consume, run,
}

-- An integer moved into the range from 0 to math.MaxInt32.
abbrev clamp : ℤ → ℕ
clamp z = if ltb max_int32 (pos_part z) then max_int32 else pos_part z

new_count-clamp : (c : ℕ) (z : ℤ) → c ≤ max_int32 → new_count c z ≡ clamp (pos c +ℤ z)
unfolding new_count ◌+ℤ◌
new_count-clamp c (pos n) h = ground arith
new_count-clamp c (negsuc n) h = ground arith

-- The count by the integers alone, over a history of messages.
count_from : ℕ → List StateChange → ℕ
count_from c [] = c
count_from c (connect z ∷ ms) = count_from (clamp (pos c +ℤ z)) ms
count_from c (beat t ∷ ms) = count_from c ms

clamp-le : (z : ℤ) → clamp z ≤ max_int32
clamp-le z = ground arith

consume-count :
    (q : Queue) (ms : List StateChange)
    → q.connections ≤ max_int32
    → ((consume q ms).0.connections ≡ count_from q.connections ms)
      × ((consume q ms).0.connections ≤ max_int32)
unfolding consume count_from handle
consume-count q [] h = ground arith
consume-count q (connect z ∷ ms) h = ground (
  arith,
  new_count-clamp q.connections z h,
  clamp-le (pos q.connections +ℤ z),
  consume-count (handle_connect q z).0 ms,
)
consume-count q (beat t ∷ ms) h = consume-count q ms h

-- After any messages, a new queue's count is that of the integers, clamped at each change to the
-- range from 0 to math.MaxInt32, and it lies in that range.
run_count :
    (limit : ℕ) (ms : List StateChange)
    → ((run (new_queue limit) ms).0.connections ≡ count_from 0 ms)
      × ((run (new_queue limit) ms).0.connections ≤ max_int32)
unfolding run new_queue
run_count limit ms = consume-count (new_queue limit) ms (omega arith)
