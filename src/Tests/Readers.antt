-- ===== src/Tests/Readers.antt =====
-- A reader of a list of bytes, which gives at most three at a time.
use Prim.Native.Nat.{min}
use restreamer.Prelude.{
  ℕ, ◌≡◌, ◌≤◌, refl, sym, List, [], ◌∷◌, ◌++◌, none, some, length, take, drop, take-append-drop,
  length-take, arith,
}
use restreamer.Protocol.Reader.{Reader, IsProgressive, Count, eof}

abbrev pub chunk : List ℕ → ℕ → List ℕ × Count
chunk [] n = ([], record { bytes = []; err = some eof })
chunk (b ∷ bs) n = (drop (min 3 n) (b ∷ bs), record { bytes = take (min 3 n) (b ∷ bs); err = none })

pub chunk_bounded : (s : List ℕ) (n : ℕ) → length (chunk s n).1.bytes ≤ n
chunk_bounded [] n = omega arith
chunk_bounded (b ∷ bs) n = omega (arith, length-take (min 3 n) (b ∷ bs))

pub chunk_content : (s : List ℕ) (n : ℕ) → s ≡ (chunk s n).1.bytes ++ (chunk s n).0
chunk_content [] n = refl
chunk_content (b ∷ bs) n = sym (take-append-drop (min 3 n) (b ∷ bs))

abbrev pub list_reader : Reader
list_reader = record {
  State = List ℕ;
  read = chunk;
  content = λ s. s;
  read_bounded = chunk_bounded;
  read_content = chunk_content;
}

pub list_reader-IsProgressive : IsProgressive list_reader
list_reader-IsProgressive [] n h e = ground arith
list_reader-IsProgressive (b ∷ bs) n h e = omega (arith, length-take (min 3 n) (b ∷ bs))
