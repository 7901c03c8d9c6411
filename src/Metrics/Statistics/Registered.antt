-- ===== src/Metrics/Statistics/Registered.antt =====
-- Registering streams: the row of each.
use restreamer.Prelude.{
  sym, ◌≡◌, ◌≢◌, refl, ap, ◌∙◌, inl, inr, List, [], ◌∷◌, Text, assign, text_eq, text_beq, beq_ne,
  beq_refl, All, if◌then◌else◌, Bool-cases, Eq-cases,
}
use restreamer.Metrics.Collector.{new_collector}
use restreamer.Metrics.Statistics.{Statistics, empty_statistics, register_stream}
use restreamer.Metrics.Statistics.Rows.{Row, IsRow, entries, HasDistinctNames, IsOutside}

unfoldable pub register_all : List Text → Statistics → Statistics
register_all [] s = s
register_all (name ∷ names) s = register_all names (register_stream name s)

abbrev pub new_row : Text → Row
new_row name = record {
  name = name;
  collector = new_collector;
  previous = new_collector;
  stream = empty_statistics 0 0;
}

-- A name that is registered again starts again.
pub assign_row : Text → List Row → List Row
assign_row name [] = new_row name ∷ []
assign_row name (r ∷ rs) =
    if text_beq r.name name then new_row r.name ∷ rs else r ∷ assign_row name rs

assign-entries :
    {V : Type 0} (g : Row → V) (v : V) (name : Text) (rows : List Row)
    → ((n : Text) → g (new_row n) ≡ v)
    → assign name v (entries g rows) ≡ entries g (assign_row name rows)
unfolding assign assign_row
assign-entries g v name [] h = rw (h name) refl
assign-entries g v name (r ∷ rs) h = elim (Bool-cases (text_beq r.name name)) [
  | inl e ↦ rw e (rw (h r.name) refl)
  | inr e ↦ rw e (ap (◌∷◌ (r.name, g r)) (assign-entries g v name rs h))
]

assign_row-IsOutside :
    (n name : Text) (rows : List Row)
    → n ≢ name
    → IsOutside n rows
    → IsOutside n (assign_row name rows)
unfolding assign_row
assign_row-IsOutside n name [] h o = (h, tt)
assign_row-IsOutside n name (r ∷ rs) h o = elim (Bool-cases (text_beq r.name name)) [
  | inl e ↦ rw e o
  | inr e ↦ rw e (o.0, assign_row-IsOutside n name rs h o.1)
]

assign_row-HasDistinctNames :
    (name : Text) (rows : List Row)
    → HasDistinctNames rows
    → HasDistinctNames (assign_row name rows)
unfolding assign_row
assign_row-HasDistinctNames name [] h = (tt, tt)
assign_row-HasDistinctNames name (r ∷ rs) h = elim (Eq-cases r.name name) [
  | inl e ↦ rw (ap (λ (t : Text). text_beq t name) e ∙ beq_refl name) h
  | inr e ↦
      rw (beq_ne r.name name e)
        (assign_row-IsOutside r.name name rs e h.0, assign_row-HasDistinctNames name rs h.1)
]

assign_row-All :
    (P : Row → Type 0) (name : Text) (rows : List Row)
    → ((n : Text) → P (new_row n))
    → All P rows
    → All P (assign_row name rows)
unfolding assign_row
assign_row-All P name [] new p = (new name, tt)
assign_row-All P name (r ∷ rs) new p = elim (Bool-cases (text_beq r.name name)) [
  | inl e ↦ rw e (new r.name, p.1)
  | inr e ↦ rw e (p.0, assign_row-All P name rs new p.1)
]

pub assign_row-IsRow : (name : Text) (rows : List Row) → IsRow name (assign_row name rows)
unfolding assign_row
assign_row-IsRow name [] = inl refl
assign_row-IsRow name (r ∷ rs) = elim (Eq-cases r.name name) [
  | inl e ↦ rw (ap (λ (t : Text). text_beq t name) e ∙ beq_refl name) (inl (sym e))
  | inr e ↦ rw (beq_ne r.name name e) (inr (assign_row-IsRow name rs))
]

pub IsRow-assign_row :
    (name n : Text) (rows : List Row) → IsRow n rows → IsRow n (assign_row name rows)
unfolding assign_row
IsRow-assign_row name n [] h = absurd h
IsRow-assign_row name n (r ∷ rs) h = elim (Bool-cases (text_beq r.name name)) [
  | inl e ↦ rw e h
  | inr e ↦ rw e (elim h [ inl at ↦ inl at | inr later ↦ inr (IsRow-assign_row name n rs later) ])
]

pub record Registered (P : Row → Type 0) (rows : List Row) (s : Statistics) : Type 0 where
  pub internal : s.internal ≡ entries (λ r. r.collector) rows
  pub streams : s.streams ≡ entries (λ r. r.stream) rows
  pub distinct : HasDistinctNames rows
  pub sound : All P rows

pub register-Registered :
    (P : Row → Type 0) (name : Text) (rows : List Row) (s : Statistics)
    → ((n : Text) → P (new_row n))
    → Registered P rows s
    → Registered P (assign_row name rows) (register_stream name s)
unfolding register_stream
register-Registered P name rows s new r = record {
  internal =
      ap (assign name new_collector) r.internal
      ∙ assign-entries (λ q. q.collector) new_collector name rows (λ n. refl);
  streams =
      ap (assign name (empty_statistics 0 0)) r.streams
      ∙ assign-entries (λ q. q.stream) (empty_statistics 0 0) name rows (λ n. refl);
  distinct = assign_row-HasDistinctNames name rows r.distinct;
  sound = assign_row-All P name rows new r.sound;
}

pub register_all-Registered :
    (P : Row → Type 0) (names : List Text) (rows : List Row) (s : Statistics)
    → ((n : Text) → P (new_row n))
    → Registered P rows s
    → (rows' : List Row) × Registered P rows' (register_all names s)
unfolding register_all
register_all-Registered P [] rows s new r = (rows, r)
register_all-Registered P (name ∷ names) rows s new r =
    register_all-Registered P names (assign_row name rows) (register_stream name s) new
      (register-Registered P name rows s new r)
