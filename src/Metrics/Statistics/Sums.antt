-- ===== src/Metrics/Statistics/Sums.antt =====
-- The global numbers and those of the streams.
use restreamer.Prelude.{
  ℕ, ◌≡◌, ◌<◌, ◌^◌, refl, ◌∙◌, inl, inr, Bool, false, ◌||◌, List, [], ◌∷◌, Text, Map, lookup,
  text_eq, arith, All, Option-cases,
}
use mathlib.Core.Path.{subst}
use restreamer.Prelude.Word.{add64, add64_assoc}
use restreamer.Prelude.Channel.{ok, OnOk, OnOk-bind}
use restreamer.Metrics.Collector.{Collector}
use restreamer.Metrics.Statistics.{
  StreamStatistics, Statistics, add_stream, update_stream, update_all, update, reset,
}

-- The sum of a number over the streams, as words.
pub sum : (StreamStatistics → ℕ) → Map Text StreamStatistics → ℕ
sum f [] = 0
sum f ((name, stream) ∷ streams) = add64 (f stream) (sum f streams)

-- The numbers that are summed.
abbrev pub counters : List (StreamStatistics → ℕ)
counters =
    (λ s. s.connections)
    ∷ (λ s. s.total_packets_received)
    ∷ (λ s. s.total_packets_sent)
    ∷ (λ s. s.total_packets_dropped)
    ∷ (λ s. s.total_bytes_received)
    ∷ (λ s. s.total_bytes_sent)
    ∷ (λ s. s.total_bytes_dropped)
    ∷ (λ s. s.total_stream_time)
    ∷ (λ s. s.packets_per_second_received)
    ∷ (λ s. s.packets_per_second_sent)
    ∷ (λ s. s.packets_per_second_dropped)
    ∷ (λ s. s.bytes_per_second_received)
    ∷ (λ s. s.bytes_per_second_sent)
    ∷ (λ s. s.bytes_per_second_dropped)
    ∷ []

-- Is a stream connected?
pub any_connected : Map Text StreamStatistics → Bool
any_connected [] = false
any_connected ((name, stream) ∷ streams) = stream.connected || any_connected streams

-- From the global numbers before a loop over streams to those after it.
record Summed (streams : Map Text StreamStatistics) (g g' : StreamStatistics) : Type 0 where
  numbers :
      (f : StreamStatistics → ℕ)
      → ((s h : StreamStatistics) → f (add_stream s h) ≡ add64 (f h) (f s))
      → f g < 2 ^ 64
      → f g' ≡ add64 (f g) (sum f streams)
  connected : g'.connected ≡ (any_connected streams || g.connected)
  max_connections : g'.max_connections ≡ g.max_connections
  full_connections : g'.full_connections ≡ g.full_connections

Summed-cons :
    (name : Text) (stream : StreamStatistics) (streams : Map Text StreamStatistics)
    (g g' : StreamStatistics)
    → Summed streams (add_stream stream g) g'
    → Summed ((name, stream) ∷ streams) g g'
unfolding add_stream sum any_connected
Summed-cons name stream streams g g' s = record {
  numbers = λ f adds fits.
      s.numbers f adds (ground (arith, adds stream g))
      ∙ rw (adds stream g) (add64_assoc (f g) (f stream) (sum f streams));
  connected = ground (arith, s.connected);
  max_connections = s.max_connections;
  full_connections = s.full_connections;
}

update_all-Summed :
    (rate : ℕ → ℕ) (change : Map Text Collector) (streams : Map Text StreamStatistics)
    (g : StreamStatistics)
    → OnOk
        (λ (r : Map Text StreamStatistics × StreamStatistics). Summed r.0 g r.1)
        (update_all rate change streams g)
unfolding update_all sum any_connected
update_all-Summed rate change [] g = record {
  numbers = λ f adds fits. omega arith;
  connected = refl;
  max_connections = refl;
  full_connections = refl;
}
update_all-Summed rate change ((name, stream) ∷ streams) g =
    elim (Option-cases (lookup name change)) [
      | inl e ↦ rw (update_all, e) tt
      | inr (diff, e) ↦
          let stream' = update_stream rate diff stream in
          rw (update_all, e)
            (OnOk-bind
              (λ (r : Map Text StreamStatistics × StreamStatistics).
                Summed r.0 (add_stream stream' g) r.1)
              (λ (r : Map Text StreamStatistics × StreamStatistics). Summed r.0 g r.1)
              (update_all rate change streams (add_stream stream' g)) _
              (update_all-Summed rate change streams (add_stream stream' g))
              (λ (r : Map Text StreamStatistics × StreamStatistics) s.
                Summed-cons name stream' r.0 g r.1 s))
    ]

sum_fits : (f : StreamStatistics → ℕ) (streams : Map Text StreamStatistics) → sum f streams < 2 ^ 64
unfolding sum
sum_fits f [] = omega arith
sum_fits f ((name, stream) ∷ streams) = omega arith

-- The global statistics for the streams, with the limits that were there before.
pub record IsGlobal (before s : Statistics) : Type 0 where
  pub numbers : All (λ f. f s.global ≡ sum f s.streams) counters
  pub connected : s.global.connected ≡ any_connected s.streams
  pub max_connections : s.global.max_connections ≡ before.global.max_connections
  pub full_connections : s.global.full_connections ≡ before.global.full_connections

Summed-IsGlobal :
    (s : Statistics) (streams : Map Text StreamStatistics) (g : StreamStatistics)
    → Summed streams (reset s.global) g
    → IsGlobal s (record s { streams = streams; global = g })
unfolding reset add_stream
Summed-IsGlobal s streams g h =
    let total : (f : StreamStatistics → ℕ)
        → ((t k : StreamStatistics) → f (add_stream t k) ≡ add64 (f k) (f t))
        → f (reset s.global) ≡ 0
        → f g ≡ sum f streams =
      λ f adds zero. h.numbers f adds (omega arith) ∙ omega (arith, sum_fits f streams) in
    record {
      numbers = (
        total (λ k. k.connections) (λ t k. refl) refl,
        (
          total (λ k. k.total_packets_received) (λ t k. refl) refl,
          (
            total (λ k. k.total_packets_sent) (λ t k. refl) refl,
            (
              total (λ k. k.total_packets_dropped) (λ t k. refl) refl,
              (
                total (λ k. k.total_bytes_received) (λ t k. refl) refl,
                (
                  total (λ k. k.total_bytes_sent) (λ t k. refl) refl,
                  (
                    total (λ k. k.total_bytes_dropped) (λ t k. refl) refl,
                    (
                      total (λ k. k.total_stream_time) (λ t k. refl) refl,
                      (
                        total (λ k. k.packets_per_second_received) (λ t k. refl) refl,
                        (
                          total (λ k. k.packets_per_second_sent) (λ t k. refl) refl,
                          (
                            total (λ k. k.packets_per_second_dropped) (λ t k. refl) refl,
                            (
                              total (λ k. k.bytes_per_second_received) (λ t k. refl) refl,
                              (
                                total (λ k. k.bytes_per_second_sent) (λ t k. refl) refl,
                                (total (λ k. k.bytes_per_second_dropped) (λ t k. refl) refl, tt),
                              ),
                            ),
                          ),
                        ),
                      ),
                    ),
                  ),
                ),
              ),
            ),
          ),
        ),
      );
      connected = ground (arith, h.connected);
      max_connections = h.max_connections;
      full_connections = h.full_connections;
    }

-- An update that succeeds leaves each of the fourteen global numbers at the sum, modulo 2 ^ 64, of
-- this number over the streams, the global flag set if one of the streams is connected, and the two
-- limits as they were.
pub update-IsGlobal :
    (rate : ℕ → ℕ) (change : Map Text Collector) (s : Statistics) {s' : Statistics}
    → update rate change s ≡ ok s'
    → IsGlobal s s'
unfolding update
update-IsGlobal rate change s e = subst (OnOk (IsGlobal s)) e (
    OnOk-bind
      (λ (r : Map Text StreamStatistics × StreamStatistics). Summed r.0 (reset s.global) r.1)
      (IsGlobal s) (update_all rate change s.streams (reset s.global)) _
      (update_all-Summed rate change s.streams (reset s.global))
      (λ (r : Map Text StreamStatistics × StreamStatistics) h. Summed-IsGlobal s r.0 r.1 h))
