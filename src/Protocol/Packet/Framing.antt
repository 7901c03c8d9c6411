-- ===== src/Protocol/Packet/Framing.antt =====
-- What reading a packet gives, in terms of the bytes of the stream.
use mathlib.Core.List.{append_assoc}
use restreamer.Prelude.{
  ℕ, suc, ◌<◌, ◌≡◌, ◌≢◌, refl, sym, ◌∙◌, ap, inl, inr, List, [], ◌∷◌, ◌++◌, Option, none, some,
  true, ◌==◌, ==_iff, length, take, drop, take-append-drop, length-take, length-drop, All, arith,
  Bool-cases,
}
use restreamer.Protocol.Reader.{Reader, IoError, IsProgressive}
use restreamer.Protocol.Packet.{
  Filled, full, broken, out_of_fuel, fill, mpeg_ts_packet_size, mpeg_ts_sync_byte, find_sync,
  Result, packet, no_packet, failed, diverged, starts_in_sync, whole_packet, resync, check_sync,
  read_mpeg_ts_packet,
}
use restreamer.Protocol.Packet.Fill.{FailsAt, Fills, fill-Fills}

-- No byte is the sync byte.
abbrev pub HasNoSync : List ℕ → Type 0
HasNoSync = All (λ b. b ≢ mpeg_ts_sync_byte)

-- The scan gives the first sync byte, or none if there is none.
abbrev pub FindsSync : List ℕ → Option ℕ → Type 0
FindsSync bs none = HasNoSync bs
FindsSync bs (some i) =
    HasNoSync (take i bs)
    × (i < length bs)
    × ((rest : List ℕ) × (drop i bs ≡ mpeg_ts_sync_byte ∷ rest))

FindsSync-cons :
    (b : ℕ) (bs : List ℕ) (o : Option ℕ)
    → b ≢ mpeg_ts_sync_byte
    → FindsSync bs o
    → FindsSync (b ∷ bs) (elim o [ none ↦ none | some i ↦ some (suc i) ])
FindsSync-cons b bs none h f = (h, f)
FindsSync-cons b bs (some i) h f = ((h, f.0), omega arith, f.2)

find_sync-FindsSync : (bs : List ℕ) → FindsSync bs (find_sync bs)
unfolding find_sync
find_sync-FindsSync [] = tt
find_sync-FindsSync (b ∷ bs) = elim (Bool-cases (b == mpeg_ts_sync_byte)) [
  | inl e ↦ rw e (tt, omega arith, (bs, ap (λ (x : ℕ). x ∷ bs) ((==_iff _ _).0 e)))
  | inr e ↦ rw e (FindsSync-cons b bs (find_sync bs) (ground arith) (find_sync-FindsSync bs))
]

-- The bytes ahead of a call that failed: none is the sync byte, and then fewer than 188.
pub record Breaks (r : Reader) (ahead : List ℕ) (e : IoError) (s' : r.State) : Type 0 where
  pub gap : List ℕ
  pub partial : List ℕ
  pub state : r.State
  pub bytes : ahead ≡ gap ++ (partial ++ r.content state)
  pub clean : HasNoSync gap
  pub few : length partial < mpeg_ts_packet_size
  pub at : FailsAt r state e s'

-- A packet is 188 bytes of the stream, starts with the sync byte, and fewer than 188 bytes with no
-- sync byte among them stand before it. If there is no packet, 188 such bytes have been read.
abbrev pub Framed : (r : Reader) → r.State → Result r.State → Type 0
Framed r s (packet p s') =
    (skipped : List ℕ) × (r.content s ≡ skipped ++ (p ++ r.content s'))
    × HasNoSync skipped
    × (length skipped < mpeg_ts_packet_size)
    × (length p ≡ mpeg_ts_packet_size)
    × ((rest : List ℕ) × (p ≡ mpeg_ts_sync_byte ∷ rest))
Framed r s (no_packet s') =
    (garbage : List ℕ) × (r.content s ≡ garbage ++ r.content s')
    × HasNoSync garbage
    × (length garbage ≡ mpeg_ts_packet_size)
Framed r s (failed e s') = Breaks r (r.content s) e s'
Framed r s diverged = ⊥

starts_in_sync-head :
    (bs : List ℕ) → starts_in_sync bs ≡ true → (rest : List ℕ) × (bs ≡ mpeg_ts_sync_byte ∷ rest)
starts_in_sync-head [] h = cc
starts_in_sync-head (b ∷ bs) h = (bs, ap (λ (x : ℕ). x ∷ bs) ((==_iff _ _).0 h))

module _ (r : Reader) (progress : IsProgressive r) (s : r.State) (garbage : List ℕ) (s' : r.State)
    (read : r.content s ≡ garbage ++ r.content s')
    (size : length garbage ≡ mpeg_ts_packet_size) where
  -- The second loop completes the packet that begins at index i of the buffer.
  second_loop-Framed :
      (i : ℕ) (f : Filled r.State)
      → FindsSync garbage (some i)
      → Fills r (drop i garbage) s' f
      → Framed r s (whole_packet f)
  second_loop-Framed i (full p t) (clean, inside, (rest, at)) (more, is_p, consumed, psize) = (
    take i garbage,
    read
        ∙ ap (λ (g : List ℕ). g ++ r.content s') (sym (take-append-drop i garbage))
        ∙ append_assoc (take i garbage) (drop i garbage) (r.content s')
        ∙ ap (◌++◌ (take i garbage)) (
            ap (◌++◌ (drop i garbage)) consumed
            ∙ sym (append_assoc (drop i garbage) more (r.content t))
            ∙ ap (λ (q : List ℕ). q ++ r.content t) (sym is_p)),
    clean,
    omega (arith, length-take i garbage),
    psize,
    (rest ++ more, is_p ∙ ap (λ (q : List ℕ). q ++ more) at),
  )
  second_loop-Framed i (broken e t) found (more, u, consumed, few, at) = record {
    gap = take i garbage;
    partial = drop i garbage ++ more;
    state = u;
    bytes =
        read
        ∙ ap (λ (g : List ℕ). g ++ r.content s') (sym (take-append-drop i garbage))
        ∙ append_assoc (take i garbage) (drop i garbage) (r.content s')
        ∙ ap (◌++◌ (take i garbage)) (
            ap (◌++◌ (drop i garbage)) consumed
            ∙ sym (append_assoc (drop i garbage) more (r.content u)));
    clean = found.0;
    few = few;
    at = at;
  }
  second_loop-Framed i out_of_fuel found h = elim h [ ]

  resync-Framed :
      (fuel : ℕ) (o : Option ℕ)
      → find_sync garbage ≡ o
      → FindsSync garbage o
      → mpeg_ts_packet_size < fuel
      → Framed r s (resync r fuel garbage s')
  unfolding resync
  resync-Framed fuel none e found enough = rw (e, resync) (garbage, read, found, size)
  resync-Framed fuel (some i) e found enough =
      rw (e, resync)
        (second_loop-Framed i (fill r fuel (drop i garbage) s') found (
          fill-Fills r progress fuel (drop i garbage) s' (omega (arith, length-drop i garbage))
            (omega (arith, length-drop i garbage))))

check_sync-Framed :
    (r : Reader) (progress : IsProgressive r) (s : r.State) (fuel : ℕ) (f : Filled r.State)
    → mpeg_ts_packet_size < fuel
    → Fills r [] s f
    → Framed r s (check_sync r fuel f)
unfolding check_sync
check_sync-Framed r progress s fuel (full p s') enough (more, is_p, consumed, size) =
    let read : r.content s ≡ p ++ r.content s' = rw is_p consumed in
    elim (Bool-cases (starts_in_sync p)) [
      | inl e ↦ rw e ([], read, tt, omega arith, size, starts_in_sync-head p e)
      | inr e ↦ rw e (
          resync-Framed r progress s p s' read size fuel (find_sync p) refl (find_sync-FindsSync p)
            enough)
    ]
check_sync-Framed r progress s fuel (broken e s') enough (more, u, consumed, few, at) = record {
  gap = [];
  partial = more;
  state = u;
  bytes = consumed;
  clean = tt;
  few = few;
  at = at;
}
check_sync-Framed r progress s fuel out_of_fuel enough h = elim h [ ]

-- With a fuel above 188, for every reader that stores a byte or errs at each call, and every state
-- of it: reading a packet returns, and gives either 188 bytes of the stream from the next sync byte
-- on, which lies fewer than 188 bytes ahead; or nil, after 188 bytes with no sync byte; or the error
-- of a call of the reader that failed, in the state that this call left: the bytes of the stream in
-- front of this call, which are dropped, are some with no sync byte and then fewer than 188.
pub read_mpeg_ts_packet-Framed :
    (r : Reader) (progress : IsProgressive r) (fuel : ℕ) (s : r.State)
    → mpeg_ts_packet_size < fuel
    → Framed r s (read_mpeg_ts_packet r fuel s)
unfolding read_mpeg_ts_packet
read_mpeg_ts_packet-Framed r progress fuel s enough =
    check_sync-Framed r progress s fuel _ enough
      (fill-Fills r progress fuel [] s (omega arith) (omega arith))
