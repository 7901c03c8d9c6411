-- ===== src/Metrics/Statistics/Totals.antt =====
-- The totals after a tick, and what the collectors have counted.
use restreamer.Prelude.{
  ℕ, ◌≡◌, refl, Bool, true, false, List, [], ◌∷◌, Text, Map, text_eq, text_beq, nat_eq, All,
  if◌then◌else◌,
}
use restreamer.Prelude.Channel.{Outcome, ok, ◌>>=◌}
use restreamer.Metrics.Collector.{Collector}
use restreamer.Metrics.Statistics.{StreamStatistics, Statistics, new_statistics, tick, start}
use restreamer.Metrics.Statistics.Counting.{
  Count, count, Fits, Agrees, count-Fits, update_stream-Agrees, new-Agrees, new-Fits, clone-Agrees,
  clone-Fits,
}
use restreamer.Metrics.Statistics.Registered.{Registered, register_all, register_all-Registered}
use restreamer.Metrics.Statistics.Tables.{
  begin_row, flagged-Table, begun-Table, Registered-Table, Table, count_in, count_row, tick_row,
  counted-Table, ticked-Table,
}
use restreamer.Metrics.Statistics.Rows.{Row, entries, change_rows}

-- The calls of streams, and the ticks, each with its elapsed time.
data Action : Type 0 where
  counts : Text → Count → Action
  ticks : (ℕ → ℕ) → Action

step : Action → Map Text Collector × Statistics → Outcome (Map Text Collector × Statistics)
step (counts name n) (previous, s) =
    ok (previous, record s { internal = count_in name n s.internal })
step (ticks rate) state = tick rate state

run : List Action → Map Text Collector × Statistics → Outcome (Map Text Collector × Statistics)
unfolding step
run [] state = ok state
run (a ∷ actions) state = do state' ← step a state; run actions state'

-- What holds of a row at any time, and after a tick.
abbrev IsSound : Row → Type 0
IsSound r = Fits r.collector × Fits r.previous × Agrees r.stream r.previous

abbrev IsFresh : Row → Type 0
IsFresh r = Agrees r.stream r.collector

count_row-Fits : (b : Bool) (n : Count) (c : Collector) → Fits c → Fits (if b then count n c else c)
count_row-Fits true n c h = count-Fits n c h
count_row-Fits false n c h = h

counted-IsSound : (name : Text) (n : Count) (r : Row) → IsSound r → IsSound (count_row name n r)
unfolding count_row
counted-IsSound name n r h = (count_row-Fits (text_beq r.name name) n r.collector h.0, h.1, h.2)

-- A tick publishes the counters.
ticked-IsSound :
    (rate : ℕ → ℕ) (r : Row) → IsSound r → IsSound (tick_row rate r) × IsFresh (tick_row rate r)
unfolding tick_row
ticked-IsSound rate r h =
    let fresh = update_stream-Agrees rate r.stream r.previous r.collector h.1 h.0 h.2 in
    ((h.0, clone-Fits r.collector h.0, clone-Agrees _ r.collector fresh), fresh)

run-Table :
    (actions : List Action) (rows : List Row) (state : Map Text Collector × Statistics)
    → Table IsSound rows state
    → (rows' : List Row) × (state' : Map Text Collector × Statistics) × (run actions state
        ≡ ok state')
      × Table IsSound rows' state'
unfolding run step
run-Table [] rows state t = (rows, state, refl, t)
run-Table (counts name n ∷ actions) rows (previous, s) t =
    run-Table actions _ _
      (counted-Table IsSound IsSound name n rows previous s (counted-IsSound name n) t)
run-Table (ticks rate ∷ actions) rows (previous, s) t =
    let (state, e, t') =
      ticked-Table IsSound IsSound rate rows previous s (λ r h. (ticked-IsSound rate r h).0) t in
    let (rows', state', e', t'') = run-Table actions _ state t' in (rows', state', rw e e', t'')

-- For each stream, and in the same order, the published numbers are those of its collector.
abbrev IsPublished : Map Text StreamStatistics → Map Text Collector → Type 0
IsPublished [] [] = Unit {0}
IsPublished ((n, stream) ∷ streams) ((m, c) ∷ cs) =
    (n ≡ m) × Agrees stream c × IsPublished streams cs
IsPublished _ _ = ⊥

fresh-IsPublished :
    (rows : List Row)
    → All IsFresh rows
    → IsPublished (entries (λ r. r.stream) rows) (entries (λ r. r.collector) rows)
fresh-IsPublished [] h = tt
fresh-IsPublished (r ∷ rs) h = (refl, h.0, fresh-IsPublished rs h.1)

started-IsSound : (r : Row) → Fits r.collector × IsFresh r → IsSound (begin_row r)
unfolding begin_row
started-IsSound r h = (h.0, clone-Fits r.collector h.0, clone-Agrees r.stream r.collector h.1)

started-Table :
    (rows : List Row) (s : Statistics)
    → Registered (λ r. Fits r.collector × IsFresh r) rows s
    → (rows' : List Row) × Table IsSound rows' (start s)
unfolding start
started-Table rows s r = (
  change_rows begin_row rows,
  flagged-Table IsSound IsSound _ _ s true (λ r h. h)
      (begun-Table _ IsSound rows _ s started-IsSound (Registered-Table _ rows s r)),
)

-- Streams are registered, the updater is started, and then the streams count and the updater ticks
-- in any order. No tick fails, and after a tick every stream publishes exactly what its collector
-- has counted, modulo 2 ^ 64: connections, packets, bytes of 188 a packet, the stream time, and
-- whether its source is connected.
tick_publishes :
    (names : List Text) (max full : ℕ) (actions : List Action) (rate : ℕ → ℕ)
    → (before after : Map Text Collector × Statistics) × (run actions
          (start (register_all names (new_statistics max full)))
        ≡ ok before)
      × (tick rate before ≡ ok after)
      × IsPublished after.1.streams after.1.internal
unfolding new_statistics
tick_publishes names max full actions rate =
    let (rows, r) =
      register_all-Registered (λ r. Fits r.collector × IsFresh r) names [] (new_statistics max full)
        (λ n. (new-Fits, new-Agrees))
        (record { internal = refl; streams = refl; distinct = tt; sound = tt }) in
    let (rows₁, t₁) = started-Table rows _ r in
    let (rows₂, before, e, t₂) = run-Table actions rows₁ _ t₁ in
    let (after, e', t₃) =
      ticked-Table IsSound IsFresh rate rows₂ before.0 before.1 (λ r h. (ticked-IsSound rate r h).1)
        t₂ in
    (before, after, e, e', rw (t₃.streams, t₃.internal) (fresh-IsPublished _ t₃.sound))
