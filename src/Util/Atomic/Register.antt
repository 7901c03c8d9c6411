-- ===== src/Util/Atomic/Register.antt =====
-- The word as a register that holds a Boolean.
use restreamer.Prelude.{◌≡◌, refl, Bool, true, false, not, List, [], ◌∷◌, arith, if◌then◌else◌}
use restreamer.Util.Atomic.{
  AtomicBool, to_atomic_bool, compare_and_swap_bool, load_bool, store_bool, swap_bool,
}

-- A call of one of the operations.
data Operation : Type 0 where
  load : Operation
  store swap : Bool → Operation
  compare_and_swap : (old new : Bool) → Operation

-- The word after a call, and its result; a store has none, and gives true.
on_word : Operation → AtomicBool → AtomicBool × Bool
unfolding load_bool store_bool swap_bool compare_and_swap_bool
on_word load w = (w, load_bool w)
on_word (store b) w = (store_bool w b, true)
on_word (swap b) w = swap_bool w b
on_word (compare_and_swap old new) w = compare_and_swap_bool w old new

-- The same for a Boolean.
same_bool : Bool → Bool → Bool
same_bool true b = b
same_bool false b = not b

on_bool : Operation → Bool → Bool × Bool
unfolding same_bool
on_bool load b = (b, b)
on_bool (store c) b = (c, true)
on_bool (swap c) b = (c, b)
on_bool (compare_and_swap old new) b = if same_bool old b then (new, true) else (b, false)

results_on_word : List Operation → AtomicBool → List Bool
results_on_word [] w = []
results_on_word (o ∷ os) w = (on_word o w).1 ∷ results_on_word os (on_word o w).0

results_on_bool : List Operation → Bool → List Bool
results_on_bool [] b = []
results_on_bool (o ∷ os) b = (on_bool o b).1 ∷ results_on_bool os (on_bool o b).0

on_word-on_bool :
    (o : Operation) (b : Bool)
    → ((on_word o (to_atomic_bool b)).0 ≡ to_atomic_bool (on_bool o b).0)
      × ((on_word o (to_atomic_bool b)).1 ≡ (on_bool o b).1)
unfolding on_word on_bool to_atomic_bool
on_word-on_bool o b = ground arith

-- Whatever operations follow each other on a word that was made from a Boolean, their results are
-- those of a register that holds the Boolean itself.
results_agree :
    (os : List Operation) (b : Bool) → results_on_word os (to_atomic_bool b) ≡ results_on_bool os b
unfolding results_on_word results_on_bool
results_agree [] b = refl
results_agree (o ∷ os) b =
    let (word, result) = on_word-on_bool o b in rw (word, result, results_agree os (on_bool o b).0)
