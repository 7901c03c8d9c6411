-- ===== src/Util/Log/Closing.antt =====
-- Closing a file logger, and a log that cannot be opened again.
use restreamer.Prelude.{◌≡◌, refl, sym, ap, ◌∙◌, Bool, true, false, List, [], ◌∷◌}
use restreamer.Prelude.Word.{add64}
use restreamer.Util.Log.Keys.{Dict}
use restreamer.Util.Log.{
  FileLogger, no_log, open_file, Event, is_closed, is_notified, takes_signal, takes_line, ran,
  panicked, reopen_log, close_log, write_log, step, run, queue_length,
}

-- A loop that runs, with an open file and no signal to take.
abbrev pub IsOpen : FileLogger → Type 0
IsOpen s =
    (s.running ≡ true)
    × (s.log ≡ open_file)
    × (s.signals.items ≡ [])
    × (s.signals.capacity ≡ queue_length)

abbrev opened : FileLogger → FileLogger
opened s = record s {
  running = true;
  log = open_file;
  signals = record (s.signals) { items = []; capacity = queue_length };
}

IsOpen-opened : (s : FileLogger) → IsOpen s → opened s ≡ s
IsOpen-opened s (up, file, none_waits, room) = sym (λ i. record s {
  running = up i;
  log = file i;
  signals = record (s.signals) { items = none_waits i; capacity = room i };
})

opened_crashes :
    (s : FileLogger) (a b c d : Bool) (es : List Event)
    → run (is_closed ∷ is_closed ∷ takes_signal a b ∷ takes_signal c d ∷ es) (opened s) ≡ panicked
unfolding run step close_log
opened_crashes s a b c d es = refl

-- For a logger whose loop runs, with an open file and no signal to take: if Close is called twice
-- before the loop takes a signal, then the loop uses a nil pointer when it takes the second one, and
-- the program crashes.
pub double_close_panics :
    (s : FileLogger) (a b c d : Bool) (es : List Event)
    → IsOpen s
    → run (is_closed ∷ is_closed ∷ takes_signal a b ∷ takes_signal c d ∷ es) s ≡ panicked
double_close_panics s a b c d es h =
    sym (
      ap (run (is_closed ∷ is_closed ∷ takes_signal a b ∷ takes_signal c d ∷ es))
        (IsOpen-opened s h))
    ∙ opened_crashes s a b c d es

-- For such a logger with a line to write: if the file cannot be opened again after it was closed,
-- then the line is counted but not written, and the next signal to reopen the file closes it.
failed_reopen_loses :
    (s : FileLogger) (d : Dict) (rest : List Dict)
    → s.messages.items ≡ d ∷ rest
    → (t : FileLogger) × (run
          (is_notified
            ∷ takes_signal true false
            ∷ takes_line true true
            ∷ is_notified
            ∷ takes_signal true true
            ∷ [])
          (opened s)
        ≡ ran t)
      × (t.lines ≡ add64 s.lines 1)
      × (t.written ≡ s.written)
      × (t.log ≡ no_log)
unfolding run step reopen_log write_log
failed_reopen_loses s d rest e = rw e (_, refl, refl, refl, refl)
