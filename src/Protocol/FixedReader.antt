-- ===== src/Protocol/FixedReader.antt =====
-- protocol/reader.go: the buffered reader that turns datagrams into a stream.
pub mod Stream
use restreamer.Prelude.{ℕ, List, [], ◌∷◌, ◌++◌, Option, none, some, ◌==◌, take, drop, if◌then◌else◌}
use restreamer.Protocol.Reader.{Reader, Count, IoError, eof}

-- bytes.Buffer.Read: an empty buffer gives io.EOF, unless no byte is asked for.
abbrev buffer_read : List ℕ → ℕ → List ℕ × Count
buffer_read [] n = ([], record { bytes = []; err = if n == 0 then none else some eof })
buffer_read (b ∷ bs) n = (drop n (b ∷ bs), record { bytes = take n (b ∷ bs); err = none })

module _ (r : Reader) (packet_size : ℕ) where
  -- The reader's state and the buffer.
  pub record FixedReader : Type 0 where
    pub reader : r.State
    pub buffer : List ℕ

  -- A call of the underlying reader for one packet, made on an empty buffer only. All that was
  -- received is buffered, and the error is passed on.
  unfoldable pub refill : FixedReader → FixedReader × Option IoError
  refill b = elim b.buffer [
    | [] ↦
        let (s, count) = r.read b.reader packet_size in
        (record { reader = s; buffer = count.bytes }, count.err)
    | _ ∷ _ ↦ (b, none)
  ]

  -- An error of the underlying reader takes precedence over one of the buffer.
  unfoldable pub deliver : FixedReader → Option IoError → ℕ → FixedReader × Count
  deliver b err n =
      let (rest, count) = buffer_read b.buffer n in
      (
        record b { buffer = rest },
        elim err [ none ↦ count | some e ↦ record { bytes = count.bytes; err = some e } ],
      )

  unfoldable pub read : FixedReader → ℕ → FixedReader × Count
  unfolding refill deliver
  read b n = let (b', err) = refill b in deliver b' err n

  -- The bytes still to come: those buffered, and those of the underlying reader.
  abbrev pub pending : FixedReader → List ℕ
  pending b = b.buffer ++ r.content b.reader
