-- ===== src/Metrics/Updater/Following.antt =====
-- The table of the statistics in each phase of the goroutine, and what each action does with it.
use restreamer.Prelude.{
  All, All-imp, ℕ, ◌≡◌, refl, ap, ◌∙◌, inl, inr, Bool, true, false, List, Text, Map, text_beq,
  Bool-cases,
}
use restreamer.Prelude.Channel.{ok}
use restreamer.Metrics.Collector.{Collector}
use restreamer.Metrics.Statistics.{Statistics, tick, snapshot}
use restreamer.Metrics.Statistics.Counting.{Count}
use restreamer.Metrics.Statistics.Rows.{IsRow, IsRow-change_rows, change_rows, Row}
use restreamer.Metrics.Statistics.Tables.{
  Table, count_in, count_row, tick_row, begin_row, counted-Table, ticked-Table, flagged-Table,
  begun-Table,
}
use restreamer.Metrics.Updater.{
  Phase, absent, launched, leaving, looping, Updater, Action, counts, ticks, starts, begins, stops,
  finishes, act, launch, begin, fire, stop, finish,
}
use restreamer.Metrics.Updater.Ledger.{
  Ledger, account, settle, drop_pending, Shows, Counted, note-Counted, clone-Counted,
  update_stream-Shows,
}

-- A row in a phase: a loop also knows the state at its last tick.
abbrev pub IsPending : Phase → (Text → Ledger) → Row → Type 0
IsPending (looping _) ls r = Counted r.previous r.collector ((ls r.name).pending)
IsPending absent ls r = Unit {0}
IsPending launched ls r = Unit {0}
IsPending leaving ls r = Unit {0}

abbrev pub IsSound : Phase → (Text → Ledger) → Row → Type 0
IsSound phase ls r = Shows r.stream ((ls r.name).kept) × IsPending phase ls r

abbrev pub Knows : Phase → Map Text Collector → Type 0
Knows (looping p) previous = p ≡ previous
Knows absent previous = Unit {0}
Knows launched previous = Unit {0}
Knows leaving previous = Unit {0}

note-IsSound :
    (name : Text) (n : Count) (previous : Map Text Collector) (ls : Text → Ledger) (r : Row)
    → IsSound (looping previous) ls r
    → IsSound
        (looping previous)
        (account (counts name n) (looping previous) ls)
        (count_row name n r)
unfolding count_row
note-IsSound name n previous ls r (h, c) = elim (Bool-cases (text_beq r.name name)) [
  | inl e ↦ rw e (h, note-Counted n r.previous r.collector ((ls r.name).pending) c)
  | inr e ↦ rw e (h, c)
]

settle-IsSound :
    (rate : ℕ → ℕ) (p p' : Map Text Collector) (ls : Text → Ledger) (r : Row)
    → IsSound (looping p) ls r
    → IsSound (looping p') (account (ticks rate) (looping p) ls) (tick_row rate r)
unfolding tick_row
settle-IsSound rate p p' ls r (h, c) =
    (update_stream-Shows rate r.stream r.previous r.collector _ _ h c, clone-Counted r.collector)

begin-IsSound :
    (p : Map Text Collector) (ls : Text → Ledger) (r : Row)
    → IsSound launched ls r
    → IsSound (looping p) (account begins launched ls) (begin_row r)
unfolding begin_row
begin-IsSound p ls r h = (h.0, clone-Counted r.collector)

-- Some names, which stay those of rows.
module _ (names : List Text) where
  pub record Ruled (u : Updater) (ls : Text → Ledger) : Type 0 where
    pub rows : List Row
    pub previous : Map Text Collector
    pub table : Table (IsSound u.0 ls) rows (previous, u.1)
    pub knows : Knows u.0 previous
    pub has : All (λ n. IsRow n rows) names

  -- The updater as it was, or with another flag in a phase without a loop.
  flagged-Ruled :
      (s : Statistics) (ls : Text → Ledger) (running : Bool) (from phase : Phase)
      → ((r : Row) → IsSound from ls r → IsSound phase ls r)
      → ((p : Map Text Collector) → Knows from p → Knows phase p)
      → Ruled (from, s) ls
      → Ruled (phase, record s { running = running }) ls
  flagged-Ruled s ls running from phase keeps known u = record {
    rows = u.rows;
    previous = u.previous;
    table =
        flagged-Table (IsSound from ls) (IsSound phase ls) u.rows u.previous s running keeps
          u.table;
    knows = known u.previous u.knows;
    has = u.has;
  }

  -- Every action succeeds, and the ledgers follow it.
  abbrev pub Follows : Action → Updater → (Text → Ledger) → Type 0
  Follows a u ls = (u' : Updater) × (act a u ≡ ok u') × Ruled u' (account a u.0 ls)

  counted-Ruled :
      (name : Text) (n : Count) (phase : Phase) (s : Statistics) (ls ls' : Text → Ledger)
      → ((r : Row) → IsSound phase ls r → IsSound phase ls' (count_row name n r))
      → Ruled (phase, s) ls
      → Ruled (phase, record s { internal = count_in name n s.internal }) ls'
  unfolding count_row
  counted-Ruled name n phase s ls ls' keeps u = record {
    rows = change_rows (count_row name n) u.rows;
    previous = u.previous;
    table =
        counted-Table (IsSound phase ls) (IsSound phase ls') name n u.rows u.previous s keeps
          u.table;
    knows = u.knows;
    has = All-imp _ _ names (IsRow-change_rows (count_row name n) (λ r. refl) u.rows) u.has;
  }

  counts-Follows :
      (name : Text) (n : Count) (phase : Phase) (s : Statistics) (ls : Text → Ledger)
      → Ruled (phase, s) ls
      → Follows (counts name n) (phase, s) ls
  unfolding act count_row
  counts-Follows name n (looping p) s ls u =
      (_, refl, counted-Ruled name n (looping p) s ls _ (note-IsSound name n p ls) u)
  counts-Follows name n absent s ls u = (_, refl, counted-Ruled name n absent s ls ls (λ r h. h) u)
  counts-Follows name n launched s ls u =
      (_, refl, counted-Ruled name n launched s ls ls (λ r h. h) u)
  counts-Follows name n leaving s ls u =
      (_, refl, counted-Ruled name n leaving s ls ls (λ r h. h) u)

  looping-fire :
      (rate : ℕ → ℕ) (p : Map Text Collector) (s : Statistics)
      (state : Map Text Collector × Statistics)
      → tick rate (p, s) ≡ ok state
      → fire rate (looping p, s) ≡ ok (looping state.0, state.1)
  unfolding fire
  looping-fire rate p s state e = rw e refl

  ticks-Follows :
      (rate : ℕ → ℕ) (phase : Phase) (s : Statistics) (ls : Text → Ledger)
      → Ruled (phase, s) ls
      → Follows (ticks rate) (phase, s) ls
  unfolding act fire tick_row
  ticks-Follows rate (looping p) s ls u =
      let (state, e, t) =
        ticked-Table (IsSound (looping p) ls) (IsSound (looping p) (λ m. settle (ls m))) rate u.rows
          u.previous s (settle-IsSound rate p p ls) u.table in
      (
        (looping state.0, state.1),
        looping-fire rate p s state (ap (λ q. tick rate (q, s)) u.knows ∙ e),
        record {
          rows = change_rows (tick_row rate) u.rows;
          previous = state.0;
          table = t;
          knows = refl;
          has = All-imp _ _ names (IsRow-change_rows (tick_row rate) (λ r. refl) u.rows) u.has;
        },
      )
  ticks-Follows rate absent s ls u = (_, refl, u)
  ticks-Follows rate launched s ls u = (_, refl, u)
  ticks-Follows rate leaving s ls u = (_, refl, u)

  begins-Follows :
      (phase : Phase) (s : Statistics) (ls : Text → Ledger)
      → Ruled (phase, s) ls
      → Follows begins (phase, s) ls
  unfolding act begin begin_row
  begins-Follows launched s ls u = (
    _,
    refl,
    record {
      rows = change_rows begin_row u.rows;
      previous = _;
      table =
          begun-Table (IsSound launched ls)
            (IsSound (looping (snapshot s.internal)) (λ m. drop_pending (ls m))) u.rows u.previous s
            (begin-IsSound (snapshot s.internal) ls) u.table;
      knows = refl;
      has = All-imp _ _ names (IsRow-change_rows begin_row (λ r. refl) u.rows) u.has;
    },
  )
  begins-Follows absent s ls u = (_, refl, u)
  begins-Follows leaving s ls u = (_, refl, u)
  begins-Follows (looping p) s ls u = (_, refl, u)

  starts-Follows :
      (phase : Phase) (s : Statistics) (ls : Text → Ledger)
      → Ruled (phase, s) ls
      → Follows starts (phase, s) ls
  unfolding act launch
  starts-Follows phase s ls u = elim (Bool-cases s.running) [
    | inl e ↦ (_, rw e refl, u)
    | inr e ↦
        (_, rw e refl, flagged-Ruled s ls true phase launched (λ r h. (h.0, tt)) (λ p k. tt) u)
  ]

  stops-Follows :
      (phase : Phase) (s : Statistics) (ls : Text → Ledger)
      → Ruled (phase, s) ls
      → Follows stops (phase, s) ls
  unfolding act stop
  stops-Follows (looping p) s ls u = elim (Bool-cases s.running) [
    | inl e ↦ (
      _,
      rw e refl,
      flagged-Ruled s ls s.running (looping p) leaving (λ r h. (h.0, tt)) (λ q k. tt) u,
    )
    | inr e ↦ (_, rw e refl, u)
  ]
  stops-Follows absent s ls u = (_, refl, u)
  stops-Follows launched s ls u = (_, refl, u)
  stops-Follows leaving s ls u = (_, refl, u)

  finishes-Follows :
      (phase : Phase) (s : Statistics) (ls : Text → Ledger)
      → Ruled (phase, s) ls
      → Follows finishes (phase, s) ls
  unfolding act finish
  finishes-Follows leaving s ls u =
      (_, refl, flagged-Ruled s ls false leaving absent (λ r h. h) (λ p k. tt) u)
  finishes-Follows absent s ls u = (_, refl, u)
  finishes-Follows launched s ls u = (_, refl, u)
  finishes-Follows (looping p) s ls u = (_, refl, u)

  pub act-Follows : (a : Action) (u : Updater) (ls : Text → Ledger) → Ruled u ls → Follows a u ls
  act-Follows (counts name n) (phase, s) ls = counts-Follows name n phase s ls
  act-Follows (ticks rate) (phase, s) ls = ticks-Follows rate phase s ls
  act-Follows starts (phase, s) ls = starts-Follows phase s ls
  act-Follows begins (phase, s) ls = begins-Follows phase s ls
  act-Follows stops (phase, s) ls = stops-Follows phase s ls
  act-Follows finishes (phase, s) ls = finishes-Follows phase s ls
