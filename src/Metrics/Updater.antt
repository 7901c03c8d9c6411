-- ===== src/Metrics/Updater.antt =====
-- metrics/stats.go, realStatistics: Start and Stop, and the goroutine that they start and end. Each
-- step of the goroutine is a step of its own, so a call of Start or Stop, or a count of a stream, can
-- come between any two of them.
pub mod Ledger
pub mod Following
pub mod Early
pub mod Kept
use restreamer.Prelude.{ℕ, true, false, Text, Map, List, [], ◌∷◌, if◌then◌else◌}
use restreamer.Prelude.Channel.{Outcome, ok, ◌>>=◌}
use restreamer.Metrics.Collector.{Collector}
use restreamer.Metrics.Statistics.{Statistics, snapshot, tick}
use restreamer.Metrics.Statistics.Counting.{Count}
use restreamer.Metrics.Statistics.Tables.{count_in}

-- The goroutine: there is none; it has not yet stored its first state; it waits in its select, with
-- `previous`; it has received the signal and has yet to reset `running`.
pub data Phase : Type 0 where
  absent launched leaving : Phase
  looping : (previous : Map Text Collector) → Phase

abbrev pub Updater : Type 0
Updater = Phase × Statistics

unfoldable pub launch : Updater → Updater
launch (phase, s) = if s.running then (phase, s) else (launched, record s { running = true })

-- The first lines of the loop.
unfoldable pub begin : Updater → Updater
begin (absent, s) = (absent, s)
begin (launched, s) = (looping (snapshot s.internal), s)
begin (leaving, s) = (leaving, s)
begin (looping previous, s) = (looping previous, s)

-- The case of the ticker.
unfoldable pub fire : (rate : ℕ → ℕ) → Updater → Outcome Updater
fire rate (absent, s) = ok (absent, s)
fire rate (launched, s) = ok (launched, s)
fire rate (leaving, s) = ok (leaving, s)
fire rate (looping previous, s) = do
  (previous', s') ← tick rate (previous, s)
  ok (looping previous', s')

-- Stop, when its signal is received. Until then it waits and changes nothing.
unfoldable pub stop : Updater → Updater
stop (absent, s) = (absent, s)
stop (launched, s) = (launched, s)
stop (leaving, s) = (leaving, s)
stop (looping previous, s) = if s.running then (leaving, s) else (looping previous, s)

-- The lines behind the loop.
unfoldable pub finish : Updater → Updater
finish (absent, s) = (absent, s)
finish (launched, s) = (launched, s)
finish (leaving, s) = (absent, record s { running = false })
finish (looping previous, s) = (looping previous, s)

pub data Action : Type 0 where
  counts : Text → Count → Action
  ticks : (rate : ℕ → ℕ) → Action
  starts begins stops finishes : Action

unfoldable pub act : Action → Updater → Outcome Updater
act (counts name n) (phase, s) = ok (phase, record s { internal = count_in name n s.internal })
act (ticks rate) u = fire rate u
act starts u = ok (launch u)
act begins u = ok (begin u)
act stops u = ok (stop u)
act finishes u = ok (finish u)
