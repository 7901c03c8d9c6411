-- ===== src/Protocol/Reader.antt =====
-- io.Reader as an interface: the source calls it and does not implement it. A reader has a state,
-- and stands for a stream of bytes still to come.
use restreamer.Prelude.{ℕ, ◌≤◌, ◌<◌, ◌≡◌, List, ◌++◌, Option, none, length}

-- io.EOF, and any other error by its number.
pub data IoError : Type 0 where
  eof : IoError
  io_error : ℕ → IoError

pub record Count : Type 0 where
  pub bytes : List ℕ
  pub err : Option IoError

-- The laws are those that io.Reader documents: a call stores at most the bytes asked for, and they
-- are the next ones of the stream.
pub record Reader : Type 1 where
  pub State : Type 0
  pub read : State → ℕ → State × Count
  pub content : State → List ℕ
  pub read_bounded : (s : State) (n : ℕ) → length (read s n).1.bytes ≤ n
  pub read_content : (s : State) (n : ℕ) → content s ≡ (read s n).1.bytes ++ content (read s n).0

-- A call with room for a byte stores one or returns an error. io.Reader only recommends this: a
-- socket returns no byte and no error for an empty datagram.
abbrev pub IsProgressive : Reader → Type 0
IsProgressive r =
    (s : r.State) (n : ℕ) → 0 < n → (r.read s n).1.err ≡ none → 0 < length (r.read s n).1.bytes
