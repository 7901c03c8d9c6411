-- ===== src/Metrics/Updater/Kept.antt =====
-- What the updater publishes over a history of calls, counts and steps of its goroutine.
use mathlib.Core.Path.{subst}
use restreamer.Prelude.{
  sym, inl, inr, All-imp, some, lookup, text_eq, ℕ, ◌≡◌, refl, List, [], ◌∷◌, Text, Map, All,
}
use restreamer.Prelude.Channel.{Outcome, ok, ◌>>=◌}
use restreamer.Metrics.Statistics.{
  StreamStatistics, empty_statistics, new_statistics, get_stream_statistics, Statistics,
}
use restreamer.Metrics.Updater.Early.{Early, prepare, registrations, prepare-Registered}
use restreamer.Metrics.Statistics.Counting.{Count}
use restreamer.Metrics.Statistics.Registered.{new_row}
use restreamer.Metrics.Statistics.Rows.{Row, IsRow, entries, lookup-entries}
use restreamer.Metrics.Statistics.Tables.{count_row, Registered-Table}
use restreamer.Metrics.Updater.{Phase, absent, Updater, Action, act}
use restreamer.Metrics.Updater.Following.{IsSound, Ruled, act-Follows}
use restreamer.Metrics.Updater.Ledger.{Ledger, nothing, account, Shows}

-- The actions in their order, with the ledgers beside the updater.
unfoldable pub follow :
    List Action → Updater → (Text → Ledger) → Outcome (Updater × (Text → Ledger))
follow [] u ls = ok (u, ls)
follow (a ∷ actions) u ls = do u' ← act a u; follow actions u' (account a u.0 ls)

abbrev pub blank : Text → Ledger
blank m = record { kept = nothing; pending = nothing }

-- Every stream shows what its ledger has kept.
abbrev pub IsKept : (Text → Ledger) → Map Text StreamStatistics → Type 0
IsKept ls = All (λ (e : Text × StreamStatistics). Shows e.1 ((ls e.0).kept))

follow-Ruled :
    (names : List Text) (actions : List Action) (u : Updater) (ls : Text → Ledger)
    → Ruled names u ls
    → (end : Updater × (Text → Ledger)) × (follow actions u ls ≡ ok end) × Ruled names end.0 end.1
unfolding follow
follow-Ruled names [] u ls r = ((u, ls), refl, r)
follow-Ruled names (a ∷ actions) u ls r =
    let (u', e, r') = act-Follows names a u ls r in
    let (end, e', r'') = follow-Ruled names actions u' (account a u.0 ls) r' in
    (end, rw (e, e') refl, r'')

rows-IsKept :
    (phase : Phase) (ls : Text → Ledger) (rows : List Row)
    → All (IsSound phase ls) rows
    → IsKept ls (entries (λ r. r.stream) rows)
rows-IsKept phase ls [] h = tt
rows-IsKept phase ls (r ∷ rs) h = (h.0.0, rows-IsKept phase ls rs h.1)

new-Shows : Shows (empty_statistics 0 0) nothing
new-Shows = record {
  connections = refl;
  received = refl;
  sent = refl;
  dropped = refl;
  bytes_received = refl;
  bytes_sent = refl;
  bytes_dropped = refl;
  duration = refl;
}

-- The statistics of a name can be fetched, and show what its ledger has kept.
abbrev pub HasKept : (Text → Ledger) → Statistics → Text → Type 0
HasKept ls s n =
    (stream : StreamStatistics) × (get_stream_statistics n s ≡ ok stream)
    × Shows stream ((ls n).kept)

lookup-fetches :
    (n : Text) (s : Statistics) (stream : StreamStatistics)
    → lookup n s.streams ≡ some stream
    → get_stream_statistics n s ≡ ok stream
unfolding get_stream_statistics
lookup-fetches n s stream e = rw (get_stream_statistics, e) refl

row-HasKept :
    (phase : Phase) (ls : Text → Ledger) (s : Statistics) (rows : List Row)
    → All (λ r. lookup r.name s.streams ≡ some r.stream) rows
    → All (IsSound phase ls) rows
    → (n : Text) → IsRow n rows
    → HasKept ls s n
row-HasKept phase ls s [] found sound n h = absurd h
row-HasKept phase ls s (r ∷ rs) found sound n (inl e) =
    subst (HasKept ls s) (sym e) (r.stream, lookup-fetches r.name s r.stream found.0, sound.0.0)
row-HasKept phase ls s (r ∷ rs) found sound n (inr h) =
    row-HasKept phase ls s rs found.1 sound.1 n h

Ruled-HasKept :
    (names : List Text) (u : Updater) (ls : Text → Ledger)
    → Ruled names u ls
    → All (HasKept ls u.1) names
Ruled-HasKept names u ls q =
    All-imp _ _ names
      (row-HasKept u.0 ls u.1 q.rows
        (subst
          (λ (m : Map Text StreamStatistics). All (λ r. lookup r.name m ≡ some r.stream) q.rows)
          (sym q.table.streams) (lookup-entries (λ r. r.stream) q.rows q.table.distinct))
        q.table.sound)
      q.has

new-IsSound : (n : Text) → IsSound absent blank (new_row n)
new-IsSound n = (new-Shows, tt)

precount-IsSound :
    (name : Text) (n : Count) (r : Row)
    → IsSound absent blank r
    → IsSound absent blank (count_row name n r)
unfolding count_row
precount-IsSound name n r h = h

-- Streams are registered, and those that are may count; then streams count, and the updater is
-- started and stopped and its goroutine takes its steps, in any order. No action fails, and at any
-- time every stream publishes exactly its ledger, modulo 2 ^ 64: the connections, packets, bytes and
-- the time that were counted while the loop waited for its ticker, as far as a tick followed before
-- it ended. What is counted before the loop begins, or after its last tick, is never published. The
-- statistics of every stream that was registered can be fetched.
pub follow-IsKept :
    (early : List Early) (max full : ℕ) (actions : List Action)
    → (u : Updater) × (ls : Text → Ledger) × (follow actions
          (absent, prepare early (new_statistics max full))
          blank
        ≡ ok (u, ls))
      × IsKept ls u.1.streams
      × All (HasKept ls u.1) (registrations early)
unfolding new_statistics
follow-IsKept early max full actions =
    let (rows, r, before, has) =
      prepare-Registered (IsSound absent blank) new-IsSound precount-IsSound early [] []
        (new_statistics max full)
        (record { internal = refl; streams = refl; distinct = tt; sound = tt }) tt in
    let ((u, ls), e, q) =
      follow-Ruled (registrations early) actions (absent, prepare early (new_statistics max full))
        blank
        (record {
          rows = rows;
          previous = _;
          table = Registered-Table (IsSound absent blank) rows _ r;
          knows = tt;
          has = has;
        }) in
    (
      u,
      ls,
      e,
      rw q.table.streams (rows-IsKept u.0 ls q.rows q.table.sound),
      Ruled-HasKept (registrations early) u ls q,
    )
