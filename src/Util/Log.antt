-- ===== src/Util/Log.antt =====
-- util/log.go: the file logger, its queue of lines and the signals that close and reopen its file.
pub mod Keys
pub mod Loggers
pub mod Conservation
pub mod Closing
use restreamer.Prelude.{
  ℕ, ◌+◌, Bool, true, false, Option, none, some, List, [], ◌∷◌, ◌++◌, length, ltb, if◌then◌else◌,
}
use restreamer.Prelude.Word.{add64}
use restreamer.Prelude.Channel.{Channel, new_channel}
use Keys.{Dict}

-- The signal of the system and the two that the logger sends to itself.
pub data Signal : Type 0 where
  user_signal hup_signal shutdown_signal : Signal

-- The field `log`: nil; the nil *os.File that a failed open leaves in the interface, which is not
-- nil; or an open file.
pub data Handle : Type 0 where
  no_log nil_file open_file : Handle

-- `running` is the variable of the loop, `written` the lines that are in the file, and `printed` those
-- that Logd has printed as dropped, each in order.
pub record FileLogger : Type 0 where
  pub signals : Channel Signal
  pub log : Handle
  pub messages : Channel Dict
  pub lines : ℕ
  pub drops : ℕ
  pub errors : ℕ
  pub running : Bool
  pub written : List Dict
  pub printed : List Dict

abbrev pub queue_length : ℕ
queue_length = 100

-- What a call of the logger or a round of its loop comes to: Go panics for a nil pointer, and the
-- loop waits forever if it sends to its own full channel.
pub data Ran : Type 0 where
  ran : FileLogger → Ran
  panicked : Ran
  stuck : Ran

-- Close and OpenFile in reopenLog, and whether they succeed. Close fails for a nil file.
abbrev close_handle : Bool → Handle → Bool
close_handle succeeds no_log = true
close_handle succeeds nil_file = false
close_handle succeeds open_file = succeeds

unfoldable pub reopen_log : (closes opens : Bool) → FileLogger → FileLogger
reopen_log closes opens s =
    if close_handle closes s.log
    then record s { log = if opens then open_file else nil_file }
    else record s { log = no_log }

-- The signal of shutdown is sent first, then the log is closed.
abbrev close_file : Channel Signal → FileLogger → Handle → Ran
close_file signals s no_log = panicked
close_file signals s nil_file = ran (record s { signals = signals; log = no_log })
close_file signals s open_file = ran (record s { signals = signals; log = no_log })

-- Sending waits for room.
unfoldable pub close_log : FileLogger → Ran
close_log s =
    if ltb (length s.signals.items) s.signals.capacity
    then close_file (record (s.signals) { items = s.signals.items ++ (shutdown_signal ∷ []) }) s
        s.log
    else stuck

-- One line; whether it can be encoded, and whether the write succeeds. A failed write counts as a
-- line, and a nil file cannot be written to.
abbrev write_encoded : Bool → Dict → FileLogger → Handle → FileLogger
write_encoded writes line s no_log = record s { errors = add64 s.errors 1 }
write_encoded writes line s nil_file = record s { lines = add64 s.lines 1 }
write_encoded writes line s open_file = record s {
  lines = add64 s.lines 1;
  written = if writes then s.written ++ (line ∷ []) else s.written;
}

unfoldable pub write_log : (encodes writes : Bool) → Dict → FileLogger → FileLogger
write_log encodes writes line s =
    if encodes then write_encoded writes line s s.log else record s { errors = add64 s.errors 1 }

-- A line is printed as dropped if there is no room in the queue. Many goroutines call Logd, and
-- `drops++` is not synchronised: the number with the line is what the increment reads, which need not
-- be the value that it overwrites.
abbrev pub offer : Dict × ℕ → FileLogger → FileLogger
offer (line, loaded) s =
    if ltb (length s.messages.items) s.messages.capacity
    then record s { messages = record (s.messages) { items = s.messages.items ++ (line ∷ []) } }
    else record s { drops = add64 loaded 1; printed = s.printed ++ (line ∷ []) }

unfoldable pub logd : List (Dict × ℕ) → FileLogger → FileLogger
logd [] s = s
logd (line ∷ rest) s = logd rest (offer line s)

-- A signal that arrives; it is lost if there is no room. Close waits for room instead, and is
-- repeated until there is some.
abbrev notify : Signal → FileLogger → FileLogger
notify signal s =
    if ltb (length s.signals.items) s.signals.capacity
    then record s { signals = record (s.signals) { items = s.signals.items ++ (signal ∷ []) } }
    else s

-- The switch over the signal.
abbrev handle_signal : (closes opens : Bool) → Signal → FileLogger → Ran
handle_signal closes opens user_signal s = ran (reopen_log closes opens s)
handle_signal closes opens hup_signal s = close_log s
handle_signal closes opens shutdown_signal s = ran (record s { running = false })

-- What happens to the logger: calls, an arriving signal, and rounds of the loop, which take a signal
-- or a line, with what the file system and the encoder do.
pub data Event : Type 0 where
  logs_lines : List (Dict × ℕ) → Event
  is_closed is_notified : Event
  takes_signal takes_line : Bool → Bool → Event

abbrev take_signal : (closes opens : Bool) → FileLogger → List Signal → Ran
take_signal closes opens s [] = ran s
take_signal closes opens s (signal ∷ rest) =
    handle_signal closes opens signal (record s { signals = record (s.signals) { items = rest } })

abbrev take_line : (encodes writes : Bool) → FileLogger → List Dict → Ran
take_line encodes writes s [] = ran s
take_line encodes writes s (line ∷ rest) =
    ran
      (write_log encodes writes line (record s { messages = record (s.messages) { items = rest } }))

-- A loop that has ended takes nothing, and one that has nothing to take waits.
unfoldable pub step : Event → FileLogger → Ran
unfolding logd write_log close_log reopen_log
step (logs_lines ds) s = ran (logd ds s)
step is_closed s = ran (notify hup_signal s)
step is_notified s = ran (notify user_signal s)
step (takes_signal c o) s = if s.running then take_signal c o s s.signals.items else ran s
step (takes_line e w) s = if s.running then take_line e w s s.messages.items else ran s

abbrev pub and_then : Ran → (FileLogger → Ran) → Ran
and_then (ran s) f = f s
and_then panicked f = panicked
and_then stuck f = stuck

unfoldable pub run : List Event → FileLogger → Ran
run [] s = ran s
run (e ∷ es) s = and_then (step e s) (λ s'. run es s')

-- NewFileLogger: none is an error. The file is opened first, from a log that is nil.
unfoldable pub new_file_logger : (opens : Bool) → Option FileLogger
unfolding reopen_log
new_file_logger opens =
    let s = reopen_log true opens (record {
      signals = new_channel queue_length;
      log = no_log;
      messages = new_channel queue_length;
      lines = 0;
      drops = 0;
      errors = 0;
      running = true;
      written = [];
      printed = [];
    }) in
    if opens then some s else none
