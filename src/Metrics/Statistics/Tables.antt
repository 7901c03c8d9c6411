-- ===== src/Metrics/Statistics/Tables.antt =====
-- The statistics and the previous state of the collectors as one table, and what a count and a tick
-- do with its rows.
use restreamer.Prelude.{
  ℕ, ◌≡◌, refl, sym, ap, ◌∙◌, Bool, List, [], ◌∷◌, Text, Map, text_eq, text_beq, All, All-imp,
  if◌then◌else◌,
}
use restreamer.Prelude.Channel.{ok}
use restreamer.Metrics.Collector.{Collector, clone}
use restreamer.Metrics.Statistics.{Statistics, update_stream, snapshot, tick, delta, update, reset}
use restreamer.Metrics.Statistics.Counting.{Count, count}
use restreamer.Metrics.Statistics.Registered.{Registered}
use restreamer.Metrics.Statistics.Rows.{
  Row, entries, change_rows, HasDistinctNames, difference, lookup-entries, entries-change_rows,
  snapshot-entries, change_rows-HasDistinctNames, delta_all-Differences, update_all-entries,
}

abbrev pub count_in : Text → Count → Map Text Collector → Map Text Collector
count_in name n [] = []
count_in name n ((m, c) ∷ cs) = (m, if text_beq m name then count n c else c) ∷ count_in name n cs

-- The rows show the collectors, their state at the last tick, and what is published, and each is
-- sound.
pub record Table (IsSound : Row → Type 0) (rows : List Row)
    (state : Map Text Collector × Statistics) : Type 0 where
  pub internal : state.1.internal ≡ entries (λ r. r.collector) rows
  pub previous : state.0 ≡ entries (λ r. r.previous) rows
  pub streams : state.1.streams ≡ entries (λ r. r.stream) rows
  pub distinct : HasDistinctNames rows
  pub sound : All IsSound rows

unfoldable pub count_row : Text → Count → Row → Row
count_row name n r = record r {
  collector = if text_beq r.name name then count n r.collector else r.collector;
}

count_in-entries :
    (name : Text) (n : Count) (rows : List Row)
    → count_in name n (entries (λ r. r.collector) rows)
      ≡ entries (λ r. (count_row name n r).collector) rows
unfolding count_row
count_in-entries name n [] = refl
count_in-entries name n (r ∷ rs) =
    ap (◌∷◌ (r.name, (count_row name n r).collector)) (count_in-entries name n rs)

unfoldable pub tick_row : (ℕ → ℕ) → Row → Row
tick_row rate r = record r {
  previous = clone r.collector;
  stream = update_stream rate (difference r) r.stream;
}

-- A property of the changed rows follows from one of the rows.
pub All-change_rows :
    (P Q : Row → Type 0) (f : Row → Row)
    → ((r : Row) → P r → Q (f r))
    → (rows : List Row) → All P rows
    → All Q (change_rows f rows)
All-change_rows P Q f h [] p = tt
All-change_rows P Q f h (r ∷ rs) p = (h r p.0, All-change_rows P Q f h rs p.1)

unfoldable pub begin_row : Row → Row
begin_row r = record r { previous = clone r.collector }

-- Rows sound by P become rows sound by Q.
module _ (P Q : Row → Type 0) where
  pub counted-Table :
      (name : Text) (n : Count) (rows : List Row) (previous : Map Text Collector) (s : Statistics)
      → ((r : Row) → P r → Q (count_row name n r))
      → Table P rows (previous, s)
      → Table Q
          (change_rows (count_row name n) rows)
          (previous, record s { internal = count_in name n s.internal })
  unfolding count_row
  counted-Table name n rows previous s keeps t = record {
    internal =
        ap (count_in name n) t.internal
        ∙ count_in-entries name n rows
        ∙ sym (entries-change_rows (count_row name n) (λ r. refl) (λ r. r.collector) rows);
    previous =
        t.previous
        ∙ sym (entries-change_rows (count_row name n) (λ r. refl) (λ r. r.previous) rows);
    streams =
        t.streams ∙ sym (entries-change_rows (count_row name n) (λ r. refl) (λ r. r.stream) rows);
    distinct = change_rows-HasDistinctNames (count_row name n) (λ r. refl) rows t.distinct;
    sound = All-change_rows P Q (count_row name n) keeps rows t.sound;
  }

  -- A tick succeeds.
  pub ticked-Table :
      (rate : ℕ → ℕ) (rows : List Row) (previous : Map Text Collector) (s : Statistics)
      → ((r : Row) → P r → Q (tick_row rate r))
      → Table P rows (previous, s)
      → (state : Map Text Collector × Statistics) × (tick rate (previous, s) ≡ ok state)
        × Table Q (change_rows (tick_row rate) rows) state
  unfolding tick delta update tick_row
  ticked-Table rate rows previous s keeps t =
      let found = lookup-entries (λ r. r.previous) rows t.distinct in
      let (d, e, ds) =
        delta_all-Differences rows (entries (λ r. r.previous) rows) t.distinct found in
      let (g, e') = update_all-entries rate rows d (reset s.global) ds.inside in
      (
        (
          entries (λ r. clone r.collector) rows,
          record s {
            streams = entries (λ r. update_stream rate (difference r) r.stream) rows;
            global = g;
          },
        ),
        rw (t.internal, t.previous, e, t.streams, e') refl,
        record {
          internal =
              t.internal
              ∙ sym (entries-change_rows (tick_row rate) (λ r. refl) (λ r. r.collector) rows);
          previous = sym (entries-change_rows (tick_row rate) (λ r. refl) (λ r. r.previous) rows);
          streams = sym (entries-change_rows (tick_row rate) (λ r. refl) (λ r. r.stream) rows);
          distinct = change_rows-HasDistinctNames (tick_row rate) (λ r. refl) rows t.distinct;
          sound = All-change_rows P Q (tick_row rate) keeps rows t.sound;
        },
      )

  -- The flag of a loop does not matter.
  pub flagged-Table :
      (rows : List Row) (previous : Map Text Collector) (s : Statistics) (running : Bool)
      → ((r : Row) → P r → Q r)
      → Table P rows (previous, s)
      → Table Q rows (previous, record s { running = running })
  flagged-Table rows previous s running keeps t = record {
    internal = t.internal;
    previous = t.previous;
    streams = t.streams;
    distinct = t.distinct;
    sound = All-imp P Q rows keeps t.sound;
  }

  -- A loop begins with a snapshot.
  pub begun-Table :
      (rows : List Row) (previous : Map Text Collector) (s : Statistics)
      → ((r : Row) → P r → Q (begin_row r))
      → Table P rows (previous, s)
      → Table Q (change_rows begin_row rows) (snapshot s.internal, s)
  unfolding begin_row
  begun-Table rows previous s keeps t = record {
    internal = t.internal ∙ sym (entries-change_rows begin_row (λ q. refl) (λ q. q.collector) rows);
    previous =
        ap snapshot t.internal
        ∙ snapshot-entries rows
        ∙ sym (entries-change_rows begin_row (λ q. refl) (λ q. q.previous) rows);
    streams = t.streams ∙ sym (entries-change_rows begin_row (λ q. refl) (λ q. q.stream) rows);
    distinct = change_rows-HasDistinctNames begin_row (λ q. refl) rows t.distinct;
    sound = All-change_rows P Q begin_row keeps rows t.sound;
  }

-- Streams that were registered, whatever is taken for their previous state.
pub Registered-Table :
    (P : Row → Type 0) (rows : List Row) (s : Statistics)
    → Registered P rows s
    → Table P rows (entries (λ r. r.previous) rows, s)
Registered-Table P rows s r = record {
  internal = r.internal;
  previous = refl;
  streams = r.streams;
  distinct = r.distinct;
  sound = r.sound;
}
