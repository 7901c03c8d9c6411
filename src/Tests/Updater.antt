-- ===== src/Tests/Updater.antt =====
-- metrics: the updater of two streams, over its whole life.
use restreamer.Prelude.{All, ℕ, ◌≡◌, refl, List, [], ◌∷◌, Text, codes, lookup, assign, map}
use restreamer.Prelude.Channel.{ok}
use restreamer.Metrics.Statistics.{
  StreamStatistics, new_statistics, snapshot, register_stream, update, delta, tick,
}
use restreamer.Metrics.Collector.{packet_sent}
use restreamer.Metrics.Statistics.Counting.{sends}
use restreamer.Metrics.Updater.{
  Updater, Action, absent, counts, ticks, starts, begins, stops, finishes, act, launch, begin, fire,
  stop, finish,
}
use restreamer.Metrics.Updater.Ledger.{Ledger}
use restreamer.Metrics.Updater.Early.{
  Early, registers, precounts, registrations, prepare, prepare_one,
}
use restreamer.Metrics.Updater.Kept.{HasKept, follow, blank, IsKept, follow-IsKept}

-- Nothing is counted as a rate.
abbrev no_rate : ℕ → ℕ
no_rate n = 0

-- A stream counts before the other is registered.
abbrev early : List Early
early = registers (codes "a") ∷ precounts (codes "a") sends ∷ registers (codes "b") ∷ []

-- A packet is sent before the start, one before and one after the only tick, and one after the end.
abbrev lifetime : List Action
lifetime =
    counts (codes "a") sends
    ∷ starts
    ∷ begins
    ∷ counts (codes "a") sends
    ∷ ticks no_rate
    ∷ counts (codes "a") sends
    ∷ stops
    ∷ finishes
    ∷ counts (codes "a") sends
    ∷ []

follow-IsKept_example :
    (u : Updater) × (ls : Text → Ledger) × (follow lifetime
        (absent, prepare early (new_statistics 9 5))
        blank
      ≡ ok (u, ls))
    × IsKept ls u.1.streams
    × All (HasKept ls u.1) (registrations early)
follow-IsKept_example = follow-IsKept early 9 5 lifetime

lived :
    (end : Updater × (Text → Ledger)) × (follow lifetime
        (absent, prepare early (new_statistics 9 5))
        blank
      ≡ ok end)
unfolding snapshot follow act launch begin fire stop finish tick delta update prepare prepare_one
    register_stream new_statistics assign lookup
lived = (_, refl)

-- Five packets are counted, of which one is published.
one_is_published :
    map (λ (e : Text × StreamStatistics). e.1.total_packets_sent) (lived.0.0.1.streams) ≡ 1 ∷ 0 ∷ []
unfolding lived packet_sent
one_is_published = refl
