-- ===== src/Streaming/Proxy/Etag.antt =====
-- streaming/proxy.go: Etag, and how fmt and strconv write the numbers of the proxy's headers.
use Prim.Native.Nat.{bit_xor}
use restreamer.Prelude.{
  ℕ, zero, suc, ◌+◌, ◌/◌, ◌%◌, ◌-◌, List, [], ◌∷◌, ◌++◌, Text, ltb, if◌then◌else◌,
}
use restreamer.Prelude.Word.{mul64}

abbrev pub fnv_offset : ℕ
fnv_offset = 14695981039346656037

abbrev fnv_prime : ℕ
fnv_prime = 1099511628211

-- hash/fnv.New64a: each byte is xored into the hash, which is then multiplied by the prime.
unfoldable pub fnv1a : ℕ → List ℕ → ℕ
fnv1a hash [] = hash
fnv1a hash (b ∷ bs) = fnv1a (mul64 (bit_xor hash b) fnv_prime) bs

abbrev pub hex_digit : ℕ → ℕ
hex_digit d = if ltb d 10 then b'0' + d else b'a' + (d - 10)

-- The last n hexadecimal digits of a number.
unfoldable pub hex : ℕ → ℕ → Text
hex zero x = []
hex (suc n) x = hex n (x / 16) ++ (hex_digit (x % 16) ∷ [])

-- The format %016x on a uint64, which has at most 16 digits.
unfoldable pub etag : List ℕ → Text
unfolding fnv1a hex
etag bytes = hex 16 (fnv1a fnv_offset bytes)

-- strconv.Itoa on a number that is not negative; a digit takes one unit of fuel.
unfoldable pub digits : ℕ → ℕ → Text
digits zero n = []
digits (suc fuel) n =
    let rest = digits fuel (n / 10) in
    if ltb n 10 then (b'0' + n) ∷ [] else rest ++ ((b'0' + n % 10) ∷ [])

unfoldable pub itoa : ℕ → Text
unfolding digits
itoa n = digits (suc n) n
