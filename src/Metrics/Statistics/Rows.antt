-- ===== src/Metrics/Statistics/Rows.antt =====
-- The three maps of the statistics as one table, with a row for each stream.
use restreamer.Prelude.{
  ℕ, ◌≡◌, ◌≢◌, ◌⊎◌, inl, inr, refl, sym, ap, ◌∙◌, List, [], ◌∷◌, Text, Map, some, lookup, assign,
  text_eq, beq_refl, beq_ne, lookup-assign_self, lookup-assign_ne, All, All-zip,
}
use restreamer.Prelude.Channel.{ok}
use restreamer.Metrics.Collector.{Collector, clone, invsub}
use restreamer.Metrics.Statistics.{
  StreamStatistics, add_stream, update_stream, update_all, delta_all, snapshot,
}

pub record Row : Type 0 where
  pub name : Text
  pub collector : Collector
  pub previous : Collector
  pub stream : StreamStatistics

-- One column, as a map.
abbrev pub entries : {V : Type 0} → (Row → V) → List Row → Map Text V
entries g [] = []
entries g (r ∷ rs) = (r.name, g r) ∷ entries g rs

abbrev pub change_rows : (Row → Row) → List Row → List Row
change_rows f [] = []
change_rows f (r ∷ rs) = f r ∷ change_rows f rs

-- The name is that of no row.
abbrev pub IsOutside : Text → List Row → Type 0
IsOutside n = All (λ r. n ≢ r.name)

-- The name is that of a row.
abbrev pub IsRow : Text → List Row → Type 0
IsRow n [] = ⊥
IsRow n (r ∷ rs) = (n ≡ r.name) ⊎ IsRow n rs

abbrev pub HasDistinctNames : List Row → Type 0
HasDistinctNames [] = Unit {0}
HasDistinctNames (r ∷ rs) = IsOutside r.name rs × HasDistinctNames rs

pub lookup-entries :
    {V : Type 0} (g : Row → V) (rows : List Row)
    → HasDistinctNames rows
    → All (λ r. lookup r.name (entries g rows) ≡ some (g r)) rows
unfolding lookup
lookup-entries g [] h = tt
lookup-entries g (r ∷ rs) h = (
  rw (beq_refl r.name) refl,
  All-zip {P = λ q. r.name ≢ q.name} {Q = λ q. lookup q.name (entries g rs) ≡ some (g q)}
      {R = λ q. lookup q.name (entries g (r ∷ rs)) ≡ some (g q)}
      (λ (q : Row) other found. rw (beq_ne r.name q.name other) found) rs h.0
      (lookup-entries g rs h.1),
)

pub snapshot-entries :
    (rows : List Row)
    → snapshot (entries (λ r. r.collector) rows) ≡ entries (λ r. clone r.collector) rows
unfolding snapshot
snapshot-entries [] = refl
snapshot-entries (r ∷ rs) = ap (◌∷◌ (r.name, clone r.collector)) (snapshot-entries rs)

-- A change of each row that keeps its name.
module _ (f : Row → Row) (keeps : (r : Row) → (f r).name ≡ r.name) where
  pub entries-change_rows :
      {V : Type 0} (g : Row → V) (rows : List Row)
      → entries g (change_rows f rows) ≡ entries (λ r. g (f r)) rows
  entries-change_rows g [] = refl
  entries-change_rows g (r ∷ rs) = rw (keeps r, entries-change_rows g rs)

  pub IsRow-change_rows : (rows : List Row) (n : Text) → IsRow n rows → IsRow n (change_rows f rows)
  IsRow-change_rows [] n h = h
  IsRow-change_rows (r ∷ rs) n (inl e) = inl (e ∙ sym (keeps r))
  IsRow-change_rows (r ∷ rs) n (inr h) = inr (IsRow-change_rows rs n h)

  IsOutside-change_rows :
      (n : Text) (rows : List Row) → IsOutside n rows → IsOutside n (change_rows f rows)
  IsOutside-change_rows n [] h = tt
  IsOutside-change_rows n (r ∷ rs) h = ((λ e. h.0 (e ∙ keeps r)), IsOutside-change_rows n rs h.1)

  pub change_rows-HasDistinctNames :
      (rows : List Row) → HasDistinctNames rows → HasDistinctNames (change_rows f rows)
  change_rows-HasDistinctNames [] h = tt
  change_rows-HasDistinctNames (r ∷ rs) h =
      (rw (keeps r) (IsOutside-change_rows r.name rs h.0), change_rows-HasDistinctNames rs h.1)

-- The difference between a row's collector and its previous state.
abbrev pub difference : Row → Collector
difference r = invsub r.previous (clone r.collector)

pub record Differences (rows : List Row) (previous d : Map Text Collector) : Type 0 where
  pub inside : All (λ r. lookup r.name d ≡ some (difference r)) rows
  pub outside : (n : Text) → IsOutside n rows → lookup n d ≡ lookup n previous

pub delta_all-Differences :
    (rows : List Row) (previous : Map Text Collector)
    → HasDistinctNames rows
    → All (λ r. lookup r.name previous ≡ some r.previous) rows
    → (d : Map Text Collector) × (delta_all (entries (λ r. r.collector) rows) previous
        ≡ ok (d, entries (λ r. clone r.collector) rows))
      × Differences rows previous d
unfolding delta_all
delta_all-Differences [] previous h found =
    (previous, refl, record { inside = tt; outside = λ n o. refl })
delta_all-Differences (r ∷ rs) previous h found =
    let previous' = assign r.name (difference r) previous in
    let (d, e, ds) = delta_all-Differences rs previous' h.1 (
      All-zip
        (λ (q : Row) other is. lookup-assign_ne r.name q.name (difference r) previous other ∙ is) rs
        h.0 found.1) in
    (
      d,
      rw (delta_all, found.0, e) refl,
      record {
        inside =
            (ds.outside r.name h.0 ∙ lookup-assign_self r.name (difference r) previous, ds.inside);
        outside = λ n o.
            ds.outside n o.1 ∙ lookup-assign_ne r.name n (difference r) previous (λ e. o.0 (sym e));
      },
    )

-- The loop over the streams finds each difference, and succeeds.
pub update_all-entries :
    (rate : ℕ → ℕ) (rows : List Row) (d : Map Text Collector) (g : StreamStatistics)
    → All (λ r. lookup r.name d ≡ some (difference r)) rows
    → (g' : StreamStatistics) × (update_all rate d (entries (λ r. r.stream) rows) g
        ≡ ok (entries (λ r. update_stream rate (difference r) r.stream) rows, g'))
unfolding update_all
update_all-entries rate [] d g h = (g, refl)
update_all-entries rate (r ∷ rs) d g h =
    let (g', e) =
      update_all-entries rate rs d (add_stream (update_stream rate (difference r) r.stream) g)
        h.1 in
    (g', rw (update_all, h.0, e) refl)
