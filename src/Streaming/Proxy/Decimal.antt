-- ===== src/Streaming/Proxy/Decimal.antt =====
-- Reading back the numbers in the proxy's headers.
use restreamer.Prelude.{
  ℕ, zero, suc, ◌+◌, ◌*◌, ◌/◌, ◌%◌, ◌-◌, ◌≡◌, ◌<◌, refl, ◌∙◌, inl, inr, List, [], ◌∷◌, ◌++◌,
  Bool-cases, Text, ltb, is_set, arith, true, length, length-append,
}
use restreamer.Streaming.Proxy.Etag.{hex, hex_digit, fnv1a, fnv_offset, etag, digits, itoa}

-- The value of a decimal numeral, behind digits whose value is known.
abbrev pub read_on : ℕ → Text → ℕ
read_on n [] = n
read_on n (c ∷ cs) = read_on (10 * n + (c - b'0')) cs

abbrev pub read_decimal : Text → ℕ
read_decimal = read_on 0

read_on-append : (n c : ℕ) (cs : Text) → read_on n (cs ++ (c ∷ [])) ≡ 10 * read_on n cs + (c - b'0')
read_on-append n c [] = refl
read_on-append n c (d ∷ ds) = read_on-append (10 * n + (d - b'0')) c ds

read_decimal-digits : (fuel n : ℕ) → n < fuel → read_decimal (digits fuel n) ≡ n
unfolding digits
read_decimal-digits zero n h = absurd (omega arith)
read_decimal-digits (suc fuel) n h = elim (Bool-cases (ltb n 10)) [
  | inl e ↦ rw e (omega arith)
  | inr e ↦ rw e (
      read_on-append 0 (b'0' + n % 10) (digits fuel (n / 10))
      ∙ (let big : 9 < n = ground arith in
          omega (arith, read_decimal-digits fuel (n / 10) (omega arith))))
]

pub read_decimal-itoa : (n : ℕ) → read_decimal (itoa n) ≡ n
unfolding itoa
read_decimal-itoa n = read_decimal-digits (suc n) n (omega arith)

length-hex : (n x : ℕ) → length (hex n x) ≡ n
unfolding hex
length-hex zero x = refl
length-hex (suc n) x =
    omega (arith, length-append (hex n (x / 16)) (hex_digit (x % 16) ∷ []), length-hex n (x / 16))

-- A tag has 16 characters.
pub length-etag : (bytes : List ℕ) → length (etag bytes) ≡ 16
unfolding etag
length-etag bytes = length-hex 16 (fnv1a fnv_offset bytes)

pub etag-is_set : (bytes : List ℕ) → is_set (etag bytes) ≡ true
etag-is_set bytes = not_empty (etag bytes) (length-etag bytes)
  where
    not_empty : (t : Text) → length t ≡ 16 → is_set t ≡ true
    not_empty [] h = ground arith
    not_empty (c ∷ cs) h = refl
