-- ===== src/Util/Atomic.antt =====
-- util/atomic.go: Booleans in a word, on which the operations of sync/atomic work.
pub mod Register
use restreamer.Prelude.{ℕ, Bool, true, false, not, ◌==◌, if◌then◌else◌}

-- AtomicBool is an int32.
abbrev pub AtomicBool : Type 0
AtomicBool = ℕ

abbrev pub atomic_false : AtomicBool
atomic_false = 0

abbrev pub atomic_true : AtomicBool
atomic_true = 1

unfoldable pub to_atomic_bool : Bool → AtomicBool
to_atomic_bool value = if value then atomic_true else atomic_false

-- The new content of the address, and the result.
unfoldable pub compare_and_swap_bool : AtomicBool → Bool → Bool → AtomicBool × Bool
compare_and_swap_bool content old new =
    let o = if old then atomic_true else 0 in
    let n = if new then atomic_true else 0 in if content == o then (n, true) else (content, false)

unfoldable pub load_bool : AtomicBool → Bool
load_bool content = not (content == atomic_false)

unfoldable pub store_bool : AtomicBool → Bool → AtomicBool
store_bool content val = if val then atomic_true else 0

unfoldable pub swap_bool : AtomicBool → Bool → AtomicBool × Bool
swap_bool content new = (if new then atomic_true else 0, not (content == atomic_false))
