-- ===== src/Event/Reporter/Operations.antt =====
-- Each operation of the reporter, and the order in which messages are handled.
use mathlib.Core.List.Sublist
use mathlib.Core.List.{append_assoc, append-nil, Sublist, sublist-append_left}
use mathlib.Core.Path.{subst}
use restreamer.Prelude.{
  ℕ, ◌≤◌, ◌≡◌, refl, sym, ap, ◌∙◌, inl, inr, Bool, true, false, List, [], ◌∷◌, ◌++◌, Option, none,
  some, length, length-append, arith, Bool-cases, if◌then◌else◌, ltb,
}
use restreamer.Prelude.Channel.{Channel, OnOk}
use restreamer.Event.Queue.{Queue, StateChange, Event, handle, consume}
use restreamer.Event.Reporter.{Reporter, queue_size, start_reporter, send, take_message, end_loop}
use restreamer.Event.Reporter.Handling.{
  set_running, consume_queue, consume_calls, handle_same, nonempty, start_again, start_stopped,
}

abbrev pub waiting : Option (Channel StateChange) → List StateChange
waiting none = []
waiting (some channel) = channel.items

-- The channel has the capacity that Start gave it, and keeps to it.
abbrev pub IsBounded : Option (Channel StateChange) → Type 0
IsBounded none = Unit {0}
IsBounded (some channel) = (channel.capacity ≡ queue_size) × (length channel.items ≤ queue_size)

abbrev pub IsShut : Option (Channel StateChange) → Type 0
IsShut none = Unit {0}
IsShut (some channel) = channel.is_closed ≡ true

abbrev pub IsOpen : Option (Channel StateChange) → Type 0
IsOpen none = Unit {0}
IsOpen (some channel) = channel.is_closed ≡ false

-- What holds of a reporter that began with a queue, after some messages were sent. `clean` tells
-- that Shutdown was not called yet.
module _ (q₀ : Queue) where
  pub record Reports (clean : Bool) (ms : List StateChange) (r : Reporter) : Type 0 where
    pub handled : List StateChange
    pub queue : r.queue ≡ set_running r.queue.running (consume q₀ handled).0
    pub calls : r.calls ≡ (consume q₀ handled).1
    pub in_order : Sublist (handled ++ waiting r.notifier) ms
    pub bounded : IsBounded r.notifier
    pub idle : r.queue.running ≡ false → (waiting r.notifier ≡ []) × IsShut r.notifier
    pub complete :
        clean ≡ true
        → (handled ++ waiting r.notifier ≡ ms) × (r.shutdown ≡ false) × IsOpen r.notifier

  pub start-Reports :
      (clean : Bool) (ms : List StateChange) (r : Reporter)
      → Reports clean ms r
      → Reports clean ms (start_reporter r)
  start-Reports clean ms r f = elim (Bool-cases r.queue.running) [
    | inl on ↦ subst (Reports clean ms) (sym (start_again r on)) f
    | inr off ↦ subst (Reports clean ms) (sym (start_stopped r off)) (record {
      handled = f.handled;
      queue = ap (set_running true) f.queue;
      calls = f.calls;
      in_order = subst (λ l. Sublist (f.handled ++ l) ms) (f.idle off).0 f.in_order;
      bounded = (refl, omega arith);
      idle = λ e. cc;
      complete =
          λ c. (subst (λ l. f.handled ++ l ≡ ms) (f.idle off).0 (f.complete c).0, refl, refl);
    })
  ]

  -- The fields of a reporter one by one, so that they can be split on.
  module _ (clean : Bool) (ms : List StateChange) (q : Queue) (shut looping : Bool)
      (calls : List (ℕ × Event)) where
    abbrev pub at : Option (Channel StateChange) → Reporter
    at n = record { queue = q; notifier = n; shutdown = shut; looping = looping; calls = calls }

    taken :
        (items : List StateChange) (capacity : ℕ) (is_closed : Bool)
        → let r =
            at (some (record { items = items; capacity = capacity; is_closed = is_closed })) in
          Reports clean ms r → Reports clean ms (take_message r)
    unfolding take_message
    taken [] capacity true f = f
    taken [] capacity false f = f
    taken (m ∷ rest) capacity is_closed f =
        let b = q.running in
        let (same_queue, same_calls, same_running) =
          handle_same b q (consume q₀ f.handled).0 m f.queue in
        let moved = append_assoc f.handled (m ∷ []) rest in
        record {
          handled = f.handled ++ (m ∷ []);
          queue =
              same_queue
              ∙ ap (λ (k : Queue). set_running b k) (sym (consume_queue q₀ f.handled m))
              ∙ ap (λ (c : Bool). set_running c (consume q₀ (f.handled ++ (m ∷ []))).0)
                  (sym same_running);
          calls =
              ap (λ (l : List (ℕ × Event)). l ++ (handle q m).1) f.calls
              ∙ ap (λ (l : List (ℕ × Event)). (consume q₀ f.handled).1 ++ l) same_calls
              ∙ sym (consume_calls q₀ f.handled m);
          in_order = subst (λ l. Sublist l ms) (sym moved) f.in_order;
          bounded = (f.bounded.0, omega (arith, f.bounded.1));
          idle = λ e. absurd (nonempty m rest (f.idle (sym same_running ∙ e)).0);
          complete = λ c. let (all, u, o) = f.complete c in (moved ∙ all, u, o);
        }

    pub take-Reports :
        (n : Option (Channel StateChange))
        → Reports clean ms (at n)
        → Reports clean ms (take_message (at n))
    take-Reports none f = unfold take_message in f
    take-Reports (some channel) f = taken channel.items channel.capacity channel.is_closed f

    -- After a send, with the messages that were sent up to then.
    abbrev pub Sends : StateChange → Reporter × Bool → Type 0
    Sends m (r, sent) = Reports clean (ms ++ (if sent then m ∷ [] else [])) r

    unsent : (r : Reporter) → Reports clean ms r → Reports clean (ms ++ []) r
    unsent r f = subst (λ l. Reports clean l r) (sym (append-nil ms)) f

    abbrev open_channel : List StateChange → ℕ → Channel StateChange
    open_channel items capacity = record { items = items; capacity = capacity; is_closed = false }

    send_open :
        (m : StateChange) (items : List StateChange) (capacity : ℕ)
        → Reports clean ms (at (some (open_channel items capacity)))
        → OnOk (Sends m) (send m (at (some (open_channel items capacity))))
    unfolding send
    send_open m items capacity f = elim (Bool-cases (ltb (length items) capacity)) [
      | inr full ↦ rw full (unsent (at (some (open_channel items capacity))) f)
      | inl room ↦
          let moved = sym (append_assoc f.handled items (m ∷ [])) in
          rw room (record {
            handled = f.handled;
            queue = f.queue;
            calls = f.calls;
            in_order =
                subst (λ l. Sublist l (ms ++ (m ∷ []))) (sym moved)
                  (Sublist.append f.in_order (Sublist.refl (m ∷ [])));
            bounded = (f.bounded.0, ground (arith, length-append items (m ∷ []), f.bounded.0));
            idle = λ off. let (empty, shut) = f.idle off in cc shut;
            complete = λ c.
                let (all, u, o) = f.complete c in
                (moved ∙ ap (λ (l : List StateChange). l ++ (m ∷ [])) all, u, o);
          })
    ]

    pub send-Reports :
        (m : StateChange) (n : Option (Channel StateChange))
        → Reports clean ms (at n)
        → OnOk (Sends m) (send m (at n))
    send-Reports m none f = unfold send in unsent (at none) f
    send-Reports m (some channel) f = cases channel.items channel.capacity channel.is_closed f
      where
        cases :
            (items : List StateChange) (capacity : ℕ) (is_closed : Bool)
            → let r =
                at (some (record { items = items; capacity = capacity; is_closed = is_closed })) in
              Reports clean ms r → OnOk (Sends m) (send m r)
        cases items capacity true f = unfold send in tt
        cases items capacity false f = send_open m items capacity f

    -- The loop ends: what waits is dropped.
    pub end-Reports :
        (n : Option (Channel StateChange))
        → Reports false ms (at n)
        → OnOk (Reports false ms) (end_loop (at n))
    end-Reports none f = unfold end_loop in f
    end-Reports (some channel) f = cases channel.items channel.capacity channel.is_closed f
      where
        cases :
            (items : List StateChange) (capacity : ℕ) (is_closed : Bool)
            → let r =
                at (some (record { items = items; capacity = capacity; is_closed = is_closed })) in
              Reports false ms r → OnOk (Reports false ms) (end_loop r)
        cases items capacity true f = unfold end_loop in tt
        cases items capacity false f =
            unfold end_loop in
            record {
              handled = f.handled;
              queue = ap (set_running false) f.queue;
              calls = f.calls;
              in_order =
                  subst (λ l. Sublist l ms) (sym (append-nil f.handled))
                    (Sublist.trans (sublist-append_left f.handled items) f.in_order);
              bounded = (f.bounded.0, omega arith);
              idle = λ e. (refl, refl);
              complete = λ c. cc;
            }
