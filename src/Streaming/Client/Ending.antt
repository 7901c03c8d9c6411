-- ===== src/Streaming/Client/Ending.antt =====
-- How a pull ends.
use mathlib.Core.Path.{ap₂}
use mathlib.Core.List.{append_assoc, append-nil}
use restreamer.Prelude.{
  ℕ, ◌+◌, ◌*◌, ◌<◌, ◌≡◌, refl, sym, ap, ◌∙◌, true, false, List, [], ◌∷◌, ◌++◌, map, Option, none,
  some, Option-cases, inl, inr, length, All,
}
use restreamer.Protocol.Reader.{Reader, IsProgressive, IoError}
use restreamer.Protocol.Packet.Framing.{Breaks}
use restreamer.Streaming.Streamer.{Input}
use restreamer.Streaming.Streamer
use restreamer.Streaming.Client.Pull.{
  SourceReport, source_connected, packet_received, source_disconnected, Pull, pull_loop, disconnect,
  pull,
}
use restreamer.Streaming.Client.Segments.{
  Segment, IsSegment, weave, Journal, enter_all, sent, reported,
}
use restreamer.Streaming.Client.Rounds.{loop-Runs, journal, Runs}

-- What pull returns: the reader's error, with the client not running.
abbrev pub Ended : (r : Reader) → Pull r → Option (Pull r) → Type 0
Ended r s none = ⊥
Ended r s (some t) =
    (xs : List Segment) × (rest : List ℕ) × (r.content s.input ≡ weave xs rest)
    × All IsSegment xs
    × (t.queue ≡ sent xs)
    × (t.reports ≡ s.reports ++ reported xs)
    × (t.running ≡ false)
    × ((e : IoError) × (t.err ≡ some e) × Breaks r rest e t.input)

enter_all-some :
    (xs : List Segment) (q : List Input) (rs : List SourceReport)
    → enter_all xs (some q, rs)
      ≡ (some (q ++ map (λ y. Streamer.packet y.1) xs), rs ++ map (λ y. packet_received) xs)
enter_all-some [] q rs =
    ap₂ (λ (x : List Input) (y : List SourceReport). (some x, y)) (sym (append-nil q))
      (sym (append-nil rs))
enter_all-some ((gap, p) ∷ xs) q rs =
    enter_all-some xs (q ++ (Streamer.packet p ∷ [])) (rs ++ (packet_received ∷ []))
    ∙ ap₂ (λ (x : List Input) (y : List SourceReport). (some x, y))
        (append_assoc q (Streamer.packet p ∷ []) _) (append_assoc rs (packet_received ∷ []) _)

module _ (r : Reader) where
  -- The queue is closed, if there is one.
  disconnected :
      (xs : List Segment) (rs : List SourceReport) (t : Pull r)
      → (t.queue, t.reports) ≡ enter_all xs (none, rs)
      → ((disconnect r t).queue ≡ sent xs) × ((disconnect r t).reports ≡ rs ++ reported xs)
  unfolding disconnect
  disconnected [] rs t e =
      rw (ap (λ (j : Journal). j.0) e) (refl, ap (λ (j : Journal). j.1) e ∙ sym (append-nil rs))
  disconnected ((gap, p) ∷ xs) rs t e =
      let f =
        e
        ∙ enter_all-some xs (Streamer.packet p ∷ [])
            (rs ++ (source_connected ∷ packet_received ∷ [])) in
      rw (ap (λ (j : Journal). j.0) f) (
        refl,
        ap (λ (j : Journal). j.1 ++ (source_disconnected ∷ [])) f
            ∙ append_assoc (rs ++ (source_connected ∷ packet_received ∷ [])) _ _
            ∙ append_assoc rs (source_connected ∷ packet_received ∷ []) _,
      )

  pub rest-disconnect :
      (t : Pull r)
      → ((disconnect r t).input ≡ t.input)
        × ((disconnect r t).running ≡ t.running)
        × ((disconnect r t).err ≡ t.err)
  unfolding disconnect
  rest-disconnect t = elim (Option-cases t.queue) [
    | inl e ↦ rw e (refl, refl, refl)
    | inr (q, e) ↦ rw e (refl, refl, refl)
  ]

  disconnect-Ended :
      (s : Pull r) (o : Option (Pull r))
      → s.queue ≡ none
      → Runs r s.input (journal r s) o
      → Ended r s (elim o [ none ↦ none | some t ↦ some (disconnect r t) ])
  disconnect-Ended s none new h = h
  disconnect-Ended s (some t) new (xs, rest, read, all, made, down, (e, err, breaks)) =
      let (queued, told) =
        disconnected xs s.reports t
          (made ∙ ap (λ (q : Option (List Input)). enter_all xs (q, s.reports)) new) in
      let (input, running, same) = rest-disconnect t in
      (xs, rest, read, all, queued, told, running ∙ down, (e, same ∙ err, rw input breaks))

-- For a reader that stores a byte or errs at each call, a client that is running and a queue that
-- is not made yet: with a fuel that is more than one above a 188th of the bytes that the reader
-- still has, pull returns. It returns the error of a call of the reader that failed, and stops
-- running. The bytes in front of this call are packets, each 188 bytes from a sync byte on, with no
-- sync byte skipped in front of any; behind the last one are some with no sync byte and then fewer
-- than 188. The streamer is sent these packets in order and then the end of the queue, and the
-- collector is told of the connection, of each packet, and of the disconnection; without a packet
-- there is neither a queue nor a report.
pub pull_ends :
    (r : Reader) (progress : IsProgressive r) (fuel : ℕ) (s : Pull r)
    → s.running ≡ true
    → s.queue ≡ none
    → length (r.content s.input) + 188 < 188 * fuel
    → Ended r s (pull r fuel s)
unfolding pull
pull_ends r progress fuel s up new enough =
    disconnect-Ended r s (pull_loop r fuel s) new (loop-Runs r progress fuel s up enough)
