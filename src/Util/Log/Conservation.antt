-- ===== src/Util/Log/Conservation.antt =====
-- Where the lines go that a file logger is given.
use restreamer.Prelude.{
  ℕ, ◌+◌, ◌≤◌, ◌≡◌, refl, ap, ◌∙◌, inl, inr, Bool, Bool-cases, true, false, List, [], ◌∷◌, length,
  length-append, ltb, arith, if◌then◌else◌,
}
use restreamer.Prelude.Word.{uint64}
use restreamer.Prelude.Channel.{Channel}
use restreamer.Util.Log.Keys.{Dict}
use restreamer.Util.Log.{
  FileLogger, Handle, no_log, nil_file, open_file, Signal, user_signal, hup_signal, shutdown_signal,
  Event, logs_lines, is_closed, is_notified, takes_signal, takes_line, Ran, ran, panicked, stuck,
  offer, logd, notify, reopen_log, close_log, close_file, close_handle, handle_signal, take_signal,
  take_line, write_log, write_encoded, step, run, and_then,
}

-- The lines that were printed as dropped, those that were counted, and those that wait.
abbrev pub accounted : FileLogger → ℕ
accounted s = length s.printed + s.lines + s.errors + length s.messages.items

abbrev pub offered : Event → ℕ
offered (logs_lines ds) = length ds
offered is_closed = 0
offered is_notified = 0
offered (takes_signal c o) = 0
offered (takes_line e w) = 0

abbrev pub offered_all : List Event → ℕ
offered_all [] = 0
offered_all (e ∷ es) = offered e + offered_all es

-- From one state to another, so many lines were offered, and the queue keeps to its capacity.
abbrev pub Conserves : ℕ → FileLogger → FileLogger → Type 0
Conserves n s t =
    (uint64 (accounted t) ≡ uint64 (accounted s + n))
    × (t.messages.capacity ≡ s.messages.capacity)
    × (length s.messages.items ≤ s.messages.capacity
        → length t.messages.items ≤ t.messages.capacity)

abbrev pub OnRan {ℓ} : (FileLogger → Type ℓ) → Ran → Type ℓ
OnRan P (ran s) = P s
OnRan P panicked = Unit
OnRan P stuck = Unit

Conserves-trans :
    (m n k : ℕ) (s t u : FileLogger)
    → m + n ≡ k
    → Conserves m s t
    → Conserves n t u
    → Conserves k s u
Conserves-trans m n p s t u sum (e, c, h) (f, d, k) = (omega arith, d ∙ c, λ b. k (h b))

Conserves-refl : (s : FileLogger) → Conserves 0 s s
Conserves-refl s = (ap uint64 (omega arith), refl, λ h. h)

offer-Conserves : (line : Dict × ℕ) (s : FileLogger) → Conserves 1 s (offer line s)
offer-Conserves line s = elim (Bool-cases (ltb (length s.messages.items) s.messages.capacity)) [
  | inl e ↦ rw e (
    omega (arith, length-append s.messages.items (line.0 ∷ [])),
    refl,
    λ h. ground (arith, length-append s.messages.items (line.0 ∷ [])),
  )
  | inr e ↦ rw e (omega (arith, length-append s.printed (line.0 ∷ [])), refl, λ h. h)
]

logd-Conserves : (ds : List (Dict × ℕ)) (s : FileLogger) → Conserves (length ds) s (logd ds s)
unfolding logd
logd-Conserves [] s = Conserves-refl s
logd-Conserves (d ∷ ds) s =
    Conserves-trans 1 (length ds) _ s (offer d s) (logd ds (offer d s)) (omega arith)
      (offer-Conserves d s) (logd-Conserves ds (offer d s))

-- What touches neither the lines that are dropped or counted nor the queue.
abbrev Untouched : FileLogger → FileLogger → Type 0
Untouched s t =
    (t.printed ≡ s.printed)
    × (t.lines ≡ s.lines)
    × (t.errors ≡ s.errors)
    × (t.messages ≡ s.messages)

Untouched-Conserves : (s t : FileLogger) → Untouched s t → Conserves 0 s t
Untouched-Conserves s t (d, l, e, m) =
    let dropped = ap (λ (x : List Dict). length x) d in
    let size : length t.messages.items ≡ length s.messages.items =
      ap (λ (c : Channel Dict). length c.items) m in
    let room : t.messages.capacity ≡ s.messages.capacity =
      ap (λ (c : Channel Dict). c.capacity) m in
    (omega (arith, dropped, l, e, size), room, λ h. omega (arith, size, room, h))

notify-Untouched : (signal : Signal) (s : FileLogger) → Untouched s (notify signal s)
notify-Untouched signal s = elim (Bool-cases (ltb (length s.signals.items) s.signals.capacity)) [
  | inl e ↦ rw e (refl, refl, refl, refl)
  | inr e ↦ rw e (refl, refl, refl, refl)
]

reopen_log-Untouched : (c o : Bool) (s : FileLogger) → Untouched s (reopen_log c o s)
unfolding reopen_log
reopen_log-Untouched c o s = elim (Bool-cases (close_handle c s.log)) [
  | inl e ↦ rw e (refl, refl, refl, refl)
  | inr e ↦ rw e (refl, refl, refl, refl)
]

close_file-Untouched :
    (signals : Channel Signal) (s : FileLogger) (h : Handle)
    → OnRan (Untouched s) (close_file signals s h)
close_file-Untouched signals s no_log = tt
close_file-Untouched signals s nil_file = (refl, refl, refl, refl)
close_file-Untouched signals s open_file = (refl, refl, refl, refl)

close_log-Untouched : (s : FileLogger) → OnRan (Untouched s) (close_log s)
unfolding close_log
close_log-Untouched s = elim (Bool-cases (ltb (length s.signals.items) s.signals.capacity)) [
  | inl e ↦ rw e (close_file-Untouched _ s s.log)
  | inr e ↦ rw e tt
]

handle_signal-Untouched :
    (c o : Bool) (g : Signal) (s : FileLogger) → OnRan (Untouched s) (handle_signal c o g s)
handle_signal-Untouched c o user_signal s = reopen_log-Untouched c o s
handle_signal-Untouched c o hup_signal s = close_log-Untouched s
handle_signal-Untouched c o shutdown_signal s = (refl, refl, refl, refl)

-- What writing a line does: it is counted once.
abbrev Counts : FileLogger → FileLogger → Type 0
Counts s t =
    (t.printed ≡ s.printed)
    × (uint64 (t.lines + t.errors) ≡ uint64 (s.lines + s.errors + 1))
    × (t.messages ≡ s.messages)

write_encoded-Counts :
    (w : Bool) (line : Dict) (s : FileLogger) (h : Handle) → Counts s (write_encoded w line s h)
write_encoded-Counts w line s no_log = (refl, omega arith, refl)
write_encoded-Counts w line s nil_file = (refl, omega arith, refl)
write_encoded-Counts w line s open_file = (refl, omega arith, refl)

write_log-Counts : (c w : Bool) (line : Dict) (s : FileLogger) → Counts s (write_log c w line s)
unfolding write_log
write_log-Counts true w line s = write_encoded-Counts w line s s.log
write_log-Counts false w line s = (refl, omega arith, refl)

OnRan-map :
    (P Q : FileLogger → Type 0) (o : Ran) → ((t : FileLogger) → P t → Q t) → OnRan P o → OnRan Q o
OnRan-map P Q (ran t) f h = f t h
OnRan-map P Q panicked f h = tt
OnRan-map P Q stuck f h = tt

OnRan-bind :
    (P Q : FileLogger → Type 0) (o : Ran) (f : FileLogger → Ran)
    → OnRan P o
    → ((t : FileLogger) → P t → OnRan Q (f t))
    → OnRan Q (and_then o f)
OnRan-bind P Q (ran t) f h k = k t h
OnRan-bind P Q panicked f h k = tt
OnRan-bind P Q stuck f h k = tt

OnRan-if :
    (P : FileLogger → Type 0) (x y : Ran) (b : Bool)
    → OnRan P x
    → OnRan P y
    → OnRan P (if b then x else y)
OnRan-if P x y true h k = h
OnRan-if P x y false h k = k

take_signal-Conserves :
    (c o : Bool) (s : FileLogger) (gs : List Signal) → OnRan (Conserves 0 s) (take_signal c o s gs)
take_signal-Conserves c o s [] = Conserves-refl s
take_signal-Conserves c o s (g ∷ rest) =
    OnRan-map _ _ (handle_signal c o g taken) (λ t h. Untouched-Conserves s t h)
      (handle_signal-Untouched c o g taken)
  where
    taken : FileLogger
    taken = record s { signals = record (s.signals) { items = rest } }

take_line-Conserves :
    (c w : Bool) (s : FileLogger) (ds : List Dict)
    → s.messages.items ≡ ds
    → OnRan (Conserves 0 s) (take_line c w s ds)
take_line-Conserves c w s [] e = Conserves-refl s
take_line-Conserves c w s (d ∷ rest) e =
    let (printed, counted, messages) =
      write_log-Counts c w d (record s { messages = record (s.messages) { items = rest } }) in
    let dropped = ap (λ (x : List Dict). length x) printed in
    let size = ap (λ (m : Channel Dict). length m.items) messages in
    let room = ap (λ (m : Channel Dict). m.capacity) messages in
    let before = ap (λ (x : List Dict). length x) e in
    (omega (arith, dropped, counted, size, before), room, λ h. omega (arith, size, room, before, h))

step-Conserves : (e : Event) (s : FileLogger) → OnRan (Conserves (offered e) s) (step e s)
unfolding step
step-Conserves (logs_lines ds) s = logd-Conserves ds s
step-Conserves is_closed s =
    Untouched-Conserves s (notify hup_signal s) (notify-Untouched hup_signal s)
step-Conserves is_notified s =
    Untouched-Conserves s (notify user_signal s) (notify-Untouched user_signal s)
step-Conserves (takes_signal c o) s =
    OnRan-if (Conserves 0 s) _ (ran s) s.running (take_signal-Conserves c o s s.signals.items)
      (Conserves-refl s)
step-Conserves (takes_line c w) s =
    OnRan-if (Conserves 0 s) _ (ran s) s.running (take_line-Conserves c w s s.messages.items refl)
      (Conserves-refl s)

-- For a logger whose queue keeps to its capacity, and every history of calls, signals and rounds of
-- its loop, whatever the encoder and the file system do, and whatever the increments of the counter of
-- the drops read: unless the loop panics or waits for itself, the lines that were printed as dropped,
-- the counters of the lines and of the errors, and the lines that wait in the queue are together as
-- many more as lines were offered, up to the wrap-around of the two counters at 2 ^ 64, and the queue
-- keeps to its capacity.
pub run-Conserves :
    (es : List Event) (s : FileLogger) → OnRan (Conserves (offered_all es) s) (run es s)
unfolding run
run-Conserves [] s = Conserves-refl s
run-Conserves (e ∷ es) s =
    OnRan-bind (Conserves (offered e) s) (Conserves (offered_all (e ∷ es)) s) (step e s)
      (λ t. run es t) (step-Conserves e s)
      (λ t h.
        OnRan-map (Conserves (offered_all es) t) (Conserves (offered_all (e ∷ es)) s) (run es t)
          (λ u k. Conserves-trans (offered e) (offered_all es) _ s t u refl h k)
          (run-Conserves es t))
