-- ===== src/Metrics/Updater/Early.antt =====
-- Before the updater is started: streams are registered one by one, and those that are registered
-- may count already.
use restreamer.Prelude.{refl, List, [], ◌∷◌, Text, All, All-imp}
use restreamer.Metrics.Statistics.{Statistics, register_stream}
use restreamer.Metrics.Statistics.Counting.{Count}
use restreamer.Metrics.Statistics.Registered.{
  Registered, assign_row, new_row, register-Registered, assign_row-IsRow, IsRow-assign_row,
}
use restreamer.Metrics.Statistics.Rows.{Row, IsRow, change_rows, IsRow-change_rows}
use restreamer.Metrics.Statistics.Tables.{count_in, count_row, counted-Table, Registered-Table}

pub data Early : Type 0 where
  registers : Text → Early
  precounts : Text → Count → Early

unfoldable pub prepare_one : Early → Statistics → Statistics
prepare_one (registers name) s = register_stream name s
prepare_one (precounts name n) s = record s { internal = count_in name n s.internal }

unfoldable pub prepare : List Early → Statistics → Statistics
prepare [] s = s
prepare (e ∷ es) s = prepare es (prepare_one e s)

-- The streams that are registered, in this order.
abbrev pub registrations : List Early → List Text
registrations [] = []
registrations (registers name ∷ es) = name ∷ registrations es
registrations (precounts name n ∷ es) = registrations es

-- A property of rows that looks at nothing that a count changes.
module _ (P : Row → Type 0) (new : (n : Text) → P (new_row n))
    (keeps : (name : Text) (n : Count) (r : Row) → P r → P (count_row name n r)) where
  counted-Registered :
      (name : Text) (n : Count) (rows : List Row) (s : Statistics)
      → Registered P rows s
      → Registered P
          (change_rows (count_row name n) rows)
          (record s { internal = count_in name n s.internal })
  counted-Registered name n rows s r =
      let t = counted-Table P P name n rows _ s (keeps name n) (Registered-Table P rows s r) in
      record { internal = t.internal; streams = t.streams; distinct = t.distinct; sound = t.sound }

  -- All names that were registered are names of rows.
  pub prepare-Registered :
      (es : List Early) (before : List Text) (rows : List Row) (s : Statistics)
      → Registered P rows s
      → All (λ n. IsRow n rows) before
      → (rows' : List Row) × Registered P rows' (prepare es s)
        × All (λ n. IsRow n rows') before
        × All (λ n. IsRow n rows') (registrations es)
  unfolding prepare prepare_one count_row
  prepare-Registered [] before rows s r h = (rows, r, h, tt)
  prepare-Registered (registers name ∷ es) before rows s r h =
      let (rows', r', (at, h'), later) =
        prepare-Registered es (name ∷ before) (assign_row name rows) (register_stream name s)
          (register-Registered P name rows s new r)
          (assign_row-IsRow name rows, All-imp _ _ before (λ n. IsRow-assign_row name n rows) h) in
      (rows', r', h', (at, later))
  prepare-Registered (precounts name n ∷ es) before rows s r h =
      prepare-Registered es before (change_rows (count_row name n) rows)
        (record s { internal = count_in name n s.internal }) (counted-Registered name n rows s r)
        (All-imp _ _ before (IsRow-change_rows (count_row name n) (λ r. refl) rows) h)
