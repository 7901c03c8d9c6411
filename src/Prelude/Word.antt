-- ===== src/Prelude/Word.antt =====
-- uint64 and int64 as words: numbers below 2 ^ 64, with wrap-around. An int64 is its two's
-- complement.
use Prim.Native.Nat.{ℕ, ◌+◌, ◌-◌, ◌*◌, ◌^◌, ◌%◌, ◌<◌}
use mathlib.Core.Path.{◌≡◌}
use mathlib.Core.Bool.{Bool}
use native.Mathlib.Omega.{arith}
use restreamer.Prelude.Tests.{leb}

abbrev pub uint64 : ℕ → ℕ
uint64 n = n % 2 ^ 64

abbrev pub add64 : ℕ → ℕ → ℕ
add64 a b = uint64 (a + b)

abbrev pub sub64 : ℕ → ℕ → ℕ
sub64 a b = uint64 (a + (2 ^ 64 - uint64 b))

abbrev pub mul64 : ℕ → ℕ → ℕ
mul64 a b = uint64 (a * b)

-- -1
abbrev pub minus_one : ℕ
minus_one = 2 ^ 64 - 1

-- a >= b of int64: the order of the words with the sign bit flipped.
abbrev pub ge_int64 : ℕ → ℕ → Bool
ge_int64 a b = leb (add64 b (2 ^ 63)) (add64 a (2 ^ 63))

pub add64_assoc : (a b c : ℕ) → add64 (add64 a b) c ≡ add64 a (add64 b c)
add64_assoc a b c = omega arith

pub add64-sub64_cancel : (a b : ℕ) → a < 2 ^ 64 → b < 2 ^ 64 → add64 a (sub64 b a) ≡ b
add64-sub64_cancel a b p q = omega arith
