-- ===== src/Tests/Metrics.antt =====
-- metrics: the update of one stream.
use restreamer.Prelude.{ℕ, ◌≡◌, refl, [], ◌∷◌, Text, Map, codes, lookup, assign}
use restreamer.Prelude.Channel.{ok}
use restreamer.Metrics.Collector.{Collector, new_collector, packet_sent}
use restreamer.Metrics.Statistics.{Statistics, new_statistics, register_stream, update}
use restreamer.Metrics.Statistics.Sums.{IsGlobal, update-IsGlobal}

-- Nothing is counted as a rate.
abbrev no_rate : ℕ → ℕ
no_rate n = 0

abbrev one_stream : Statistics
one_stream = register_stream (codes "a") (new_statistics 9 5)

abbrev change : Map Text Collector
change = (codes "a", packet_sent new_collector) ∷ []

updated : (s : Statistics) × (update no_rate change one_stream ≡ ok s)
unfolding update register_stream new_statistics assign lookup
updated = (_, refl)

update-IsGlobal_example : IsGlobal one_stream updated.0
update-IsGlobal_example = update-IsGlobal no_rate change one_stream updated.1
