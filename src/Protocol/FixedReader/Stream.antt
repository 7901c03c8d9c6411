-- ===== src/Protocol/FixedReader/Stream.antt =====
-- The buffered reader as a reader: its bytes, and when it returns none.
use mathlib.Core.List.{append_assoc}
use restreamer.Prelude.{
  ℕ, zero, suc, ◌≤◌, ◌<◌, ◌≡◌, ◌⊎◌, inl, inr, refl, sym, ◌∙◌, ap, List, [], ◌∷◌, ◌++◌, Option, none,
  some, length, take, drop, take-append-drop, length-take, arith,
}
use restreamer.Protocol.Reader.{Reader, Count, IsProgressive, IoError, eof}
use restreamer.Protocol.FixedReader.{FixedReader, refill, deliver, read, pending}

module _ (r : Reader) (packet_size : ℕ) where
  abbrev B : Type 0
  B = FixedReader r packet_size

  refill_split :
      (s : r.State) (buffer : List ℕ)
      → let b : B = record { reader = s; buffer = buffer } in
        pending r packet_size b ≡ pending r packet_size (refill r packet_size b).0
  unfolding refill
  refill_split s [] = r.read_content s packet_size
  refill_split s (x ∷ xs) = refl

  -- What a call delivers, and what stays in the buffer.
  deliver_bytes :
      (s : r.State) (buffer : List ℕ) (err : Option IoError) (n : ℕ)
      → let b : B = record { reader = s; buffer = buffer } in
        ((deliver r packet_size b err n).1.bytes ≡ take n buffer)
        × ((deliver r packet_size b err n).0 ≡ record { reader = s; buffer = drop n buffer })
  unfolding deliver
  deliver_bytes s [] none zero = (refl, refl)
  deliver_bytes s [] none (suc n) = (refl, refl)
  deliver_bytes s [] (some e) zero = (refl, refl)
  deliver_bytes s [] (some e) (suc n) = (refl, refl)
  deliver_bytes s (b ∷ bs) none n = (refl, refl)
  deliver_bytes s (b ∷ bs) (some e) n = (refl, refl)

  deliver_progress :
      (s : r.State) (buffer : List ℕ) (err : Option IoError) (n : ℕ)
      → let b : B = record { reader = s; buffer = buffer } in
        0 < n
        → (deliver r packet_size b err n).1.err ≡ none
        → 0 < length (deliver r packet_size b err n).1.bytes
  unfolding deliver
  deliver_progress s [] none n h e = ground arith
  deliver_progress s [] (some x) n h e = cc
  deliver_progress s (b ∷ bs) none (suc n) h e = omega arith
  deliver_progress s (b ∷ bs) none zero h e = omega arith
  deliver_progress s (b ∷ bs) (some x) n h e = cc

  -- A byte came; or the buffer was empty, and the underlying reader's call failed with this error.
  abbrev pub Delivers : B → Count → Type 0
  Delivers b c =
      (0 < length c.bytes)
      ⊎ ((b.buffer ≡ [])
          × ((e : IoError) × ((r.read b.reader packet_size).1.err ≡ some e) × (c.err ≡ some e)))

  deliver_split :
      (b : B) (err : Option IoError) (n : ℕ)
      → pending r packet_size b
        ≡ (deliver r packet_size b err n).1.bytes
          ++ pending r packet_size (deliver r packet_size b err n).0
  deliver_split b err n =
      let (bytes, left) = deliver_bytes b.reader b.buffer err n in
      rw (bytes, left)
        (ap (λ (xs : List ℕ). xs ++ r.content b.reader) (sym (take-append-drop n b.buffer))
          ∙ append_assoc (take n b.buffer) (drop n b.buffer) (r.content b.reader))

  -- No byte is lost, made up or reordered: what a call returns, then the bytes still to come, are
  -- the bytes that were to come before it, also when it returns an error.
  pub read_content :
      (b : B) (n : ℕ)
      → pending r packet_size b
        ≡ (read r packet_size b n).1.bytes ++ pending r packet_size (read r packet_size b n).0
  unfolding read
  read_content b n =
      refill_split b.reader b.buffer
      ∙ deliver_split (refill r packet_size b).0 (refill r packet_size b).1 n

  pub read_bounded : (b : B) (n : ℕ) → length (read r packet_size b n).1.bytes ≤ n
  unfolding read
  read_bounded b n =
      let c = (refill r packet_size b).0 in
      rw ((deliver_bytes c.reader c.buffer (refill r packet_size b).1 n).0)
        (omega (arith, length-take n c.buffer))

  read_progress :
      (b : B) (n : ℕ)
      → 0 < n
      → (read r packet_size b n).1.err ≡ none
      → 0 < length (read r packet_size b n).1.bytes
  unfolding read
  read_progress b n h e =
      let c = (refill r packet_size b).0 in
      deliver_progress c.reader c.buffer (refill r packet_size b).1 n h e

  refill-Delivers :
      (s : r.State) (buffer : List ℕ) (n : ℕ)
      → let b : B = record { reader = s; buffer = buffer } in
        IsProgressive r → 0 < packet_size → 0 < n → Delivers b (read r packet_size b n).1
  unfolding read refill deliver
  refill-Delivers s [] (suc n) progress room asked =
      filled (r.read s packet_size).1.bytes (r.read s packet_size).1.err refl
        (progress s packet_size room)
    where
      filled :
          (bytes : List ℕ) (err : Option IoError)
          → (r.read s packet_size).1.err ≡ err
          → (err ≡ none → 0 < length bytes)
          → Delivers
              (record { reader = s; buffer = [] })
              (deliver r packet_size
                (record { reader = (r.read s packet_size).0; buffer = bytes })
                err
                (suc n)).1
      filled (b ∷ bs) none e h = inl (omega arith)
      filled (b ∷ bs) (some x) e h = inl (omega arith)
      filled [] (some x) e h = inr (refl, (x, e, refl))
      filled [] none e h = omega (arith, h refl)
  refill-Delivers s (x ∷ xs) (suc n) progress room asked = inl (omega arith)
  refill-Delivers s buffer zero progress room asked = omega arith

  -- So it can stand wherever a reader is asked for.
  abbrev pub fixed_reader : Reader
  fixed_reader = record {
    State = B;
    read = read r packet_size;
    content = pending r packet_size;
    read_bounded = read_bounded;
    read_content = read_content;
  }

  -- It never comes back empty-handed: with room for a byte it returns one, or an error.
  fixed_reader-IsProgressive : IsProgressive fixed_reader
  fixed_reader-IsProgressive s n h e = read_progress s n h e

-- Over a reader that stores a byte or errs at each call, and with packets that have room for a byte,
-- a call that asks for a byte returns one at least; or the buffer was empty, and the call returns the
-- error with which the underlying reader's call for this packet failed.
pub fixed_reader-Delivers :
    (r : Reader) (packet_size : ℕ) (b : FixedReader r packet_size) (n : ℕ)
    → IsProgressive r
    → 0 < packet_size
    → 0 < n
    → Delivers r packet_size b (read r packet_size b n).1
fixed_reader-Delivers r packet_size b n progress room asked =
    refill-Delivers r packet_size b.reader b.buffer n progress room asked

-- A packet with no byte in it, which the underlying reader returns without an error, ends the
-- stream: with an empty buffer and room for a byte, the call returns io.EOF and no byte.
pub read_empty_datagram :
    (r : Reader) (packet_size : ℕ) (b : FixedReader r packet_size) (n : ℕ)
    → b.buffer ≡ []
    → (r.read b.reader packet_size).1 ≡ record { bytes = []; err = none }
    → 0 < n
    → (read r packet_size b n).1 ≡ record { bytes = []; err = some eof }
unfolding read
read_empty_datagram r packet_size b n empty datagram h = ground arith
