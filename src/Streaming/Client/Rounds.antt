-- ===== src/Streaming/Client/Rounds.antt =====
-- The rounds of a pull: what each adds to the packets found and to the reports.
use mathlib.Core.Path.{subst}
use mathlib.Core.List.{append_assoc}
use restreamer.Prelude.{
  All-append, ℕ, zero, suc, ◌+◌, ◌*◌, ◌<◌, ◌≡◌, refl, sym, ap, ◌∙◌, Bool, true, false, List, [],
  ◌∷◌, ◌++◌, Option, none, some, Option-cases, inl, inr, length, length-append, All, arith,
}
use restreamer.Protocol.Reader.{Reader, IsProgressive, IoError}
use restreamer.Protocol.Packet.{Result, mpeg_ts_packet_size, mpeg_ts_sync_byte, read_mpeg_ts_packet}
use restreamer.Protocol.Packet
use restreamer.Protocol.Packet.Framing.{HasNoSync, Breaks, Framed, read_mpeg_ts_packet-Framed}
use restreamer.Streaming.Client.Pull.{
  packet_rounds, Pull, receive_packet, handle_result, pull_round, pull_loop,
}
use restreamer.Streaming.Client.Segments.{Segment, IsSegment, weave, Journal, enter, enter_all}

module _ (r : Reader) where
  abbrev pub journal : Pull r → Journal
  journal s = (s.queue, s.reports)

  -- The end of the loop.
  abbrev pub Runs : r.State → Journal → Option (Pull r) → Type 0
  Runs s j none = ⊥
  Runs s j (some t) =
      (xs : List Segment) × (rest : List ℕ) × (r.content s ≡ weave xs rest)
      × All IsSegment xs
      × (journal t ≡ enter_all xs j)
      × (t.running ≡ false)
      × ((e : IoError) × (t.err ≡ some e) × Breaks r rest e t.input)

  journal-receive_packet :
      (p : List ℕ) (s : Pull r) → journal (receive_packet r p s) ≡ enter p (journal s)
  unfolding receive_packet
  journal-receive_packet p s = elim (Option-cases s.queue) [
    | inl e ↦ rw e refl
    | inr (q, e) ↦ rw e refl
  ]

  pub rest-receive_packet :
      (p : List ℕ) (s : Pull r)
      → ((receive_packet r p s).running ≡ s.running) × ((receive_packet r p s).input ≡ s.input)
  unfolding receive_packet
  rest-receive_packet p s = elim (Option-cases s.queue) [
    | inl e ↦ rw e (refl, refl)
    | inr (q, e) ↦ rw e (refl, refl)
  ]

  -- Bytes without a sync byte in front of what the loop reads.
  Runs-skip :
      (s s' : r.State) (garbage : List ℕ) (j : Journal) (o : Option (Pull r))
      → r.content s ≡ garbage ++ r.content s'
      → HasNoSync garbage
      → Runs s' j o
      → Runs s j o
  Runs-skip s s' garbage j none e clean h = h
  Runs-skip s s' garbage j (some t) e clean ([], rest, read, all, made, down, (x, err, b)) = (
    [],
    r.content s,
    refl,
    all,
    made,
    down,
    (
      x,
      err,
      record {
        gap = garbage ++ b.gap;
        partial = b.partial;
        state = b.state;
        bytes =
            e
            ∙ ap (◌++◌ garbage) (read ∙ b.bytes)
            ∙ sym (append_assoc garbage b.gap (b.partial ++ r.content b.state));
        clean = All-append _ garbage b.gap clean b.clean;
        few = b.few;
        at = b.at;
      },
    ),
  )
  Runs-skip s s' garbage j (some t) e clean ((gap, p) ∷ xs, rest, read, all, made, down, err) = (
    (garbage ++ gap, p) ∷ xs,
    rest,
    e ∙ ap (◌++◌ garbage) read ∙ sym (append_assoc garbage gap (p ++ weave xs rest)),
    ((All-append _ garbage gap clean all.0.0, all.0.1, all.0.2), all.1),
    made,
    down,
    err,
  )

  Runs-packet :
      (s s' : r.State) (gap p : List ℕ) (j : Journal) (o : Option (Pull r))
      → r.content s ≡ gap ++ (p ++ r.content s')
      → IsSegment (gap, p)
      → Runs s' (enter p j) o
      → Runs s j o
  Runs-packet s s' gap p j none e is h = h
  Runs-packet s s' gap p j (some t) e is (xs, rest, read, all, made, down, err) = (
    (gap, p) ∷ xs,
    rest,
    e ∙ ap (λ (x : List ℕ). gap ++ (p ++ x)) read,
    (is, all),
    made,
    down,
    err,
  )

  Runs-cast :
      {i i' : r.State} {j j' : Journal} (o : Option (Pull r))
      → i ≡ i'
      → j ≡ j'
      → Runs i j o
      → Runs i' j' o
  Runs-cast {i} {i'} {j} {j'} o e f h = subst (λ x. Runs x j' o) e (subst (λ x. Runs i x o) f h)

  pub stepped :
      (fuel : ℕ) (s : Pull r)
      → s.running ≡ true
      → pull_loop r (suc fuel) s
        ≡ elim (handle_result r (read_mpeg_ts_packet r packet_rounds s.input) s) [
          | none ↦ none
          | some s' ↦ pull_loop r fuel s'
        ]
  unfolding pull_loop pull_round
  stepped fuel s e =
      ap
        (λ (b : Bool). elim b [
          | false ↦ some s
          | true ↦ elim (pull_round r s) [ none ↦ none | some s' ↦ pull_loop r fuel s' ]
        ])
        e

  pub stopped : (fuel : ℕ) (s : Pull r) → 0 < fuel → s.running ≡ false → pull_loop r fuel s ≡ some s
  unfolding pull_loop
  stopped zero s h e = absurd (omega arith)
  stopped (suc fuel) s h e = rw e refl

  module _ (progress : IsProgressive r) where
    abbrev Pulls : ℕ → Type 0
    Pulls fuel =
        (s : Pull r)
        → s.running ≡ true
        → length (r.content s.input) + 188 < 188 * fuel
        → Runs s.input (journal s) (pull_loop r fuel s)

    after_result :
        (fuel : ℕ) (ih : Pulls fuel) (s : Pull r) (x : Result r.State)
        → s.running ≡ true
        → length (r.content s.input) < 188 * fuel
        → Framed r s.input x
        → Runs s.input
            (journal s)
            (elim (handle_result r x s) [ none ↦ none | some s' ↦ pull_loop r fuel s' ])
    unfolding handle_result
    after_result fuel ih s (Packet.packet p t) up enough (skipped, read, clean, few, size, head) =
        let s1 : Pull r = record s { input = t; err = none } in
        let (same, at) = rest-receive_packet p s1 in
        Runs-packet s.input t skipped p (journal s) _ read (clean, size, head)
          (Runs-cast _ at (journal-receive_packet p s1) (
            ih (receive_packet r p s1) (same ∙ up) (
              rw at (
                omega (
                  arith,
                  ap length read,
                  length-append skipped (p ++ r.content t),
                  length-append p (r.content t),
                )))))
    after_result fuel ih s (Packet.no_packet t) up enough (garbage, read, clean, size) =
        Runs-skip s.input t garbage (journal s) _ read clean (
          ih (record s { input = t; err = none }) up
            (omega (arith, ap length read, length-append garbage (r.content t))))
    after_result fuel ih s (Packet.failed e t) up enough breaks =
        rw (stopped fuel (record s { input = t; running = false; err = some e }) (omega arith) refl)
          ([], r.content s.input, refl, tt, refl, refl, (e, refl, breaks))
    after_result fuel ih s Packet.diverged up enough h = elim h [ ]

    pub loop-Runs : (fuel : ℕ) → Pulls fuel
    loop-Runs zero s up enough = absurd (omega arith)
    loop-Runs (suc fuel) s up enough = rw (stepped fuel s up) (
        after_result fuel (loop-Runs fuel) s (read_mpeg_ts_packet r packet_rounds s.input) up
          (omega arith) (read_mpeg_ts_packet-Framed r progress packet_rounds s.input (omega arith)))
