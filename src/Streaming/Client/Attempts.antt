-- ===== src/Streaming/Client/Attempts.antt =====
-- The connection loop: in which order the URLs are tried, and how long it waits between attempts.
use mathlib.Core.Path.{subst}
use native.Mathlib.Nat.{mod-add-mod}
use restreamer.Prelude.{
  ℕ, ◌+◌, ◌%◌, ◌≤◌, ◌≡◌, refl, sym, ap, ◌∙◌, inl, inr, Bool-cases, false, true, not, ◌||◌, ltb,
  ◌==◌, List, [], ◌∷◌, Option, none, some, length, get_elem?, arith, if◌then◌else◌,
}
use restreamer.Streaming.Client.Sources.{Url}
use restreamer.Streaming.Client.{Client, Started, returned, pulling, start, log_error}
use restreamer.Streaming.Client.Loop.{
  Moment, Loop, begin_loop, Looped, going, finished, crashed, in_pull, await_deadline, connect_next,
  loop_round, loop,
}
use restreamer.Streaming.Client.Start.{IsIdle, Settles, start-Settles}
use restreamer.Streaming.Client.Regular.{
  Rotates, Tries, tried, IsSpaced, IsRegular, LoopsRegularly, continues, ends, log_error-Idle,
  begin_loop-Regular, go_on, loop_step, loop_end,
}

module _ (c : Client) where
  abbrev woken : Moment → Loop → ℕ
  woken m s =
      (if ltb (s.clock + m.elapsed) s.deadline then s.deadline else s.clock + m.elapsed)
      + m.overslept

  -- What holds between the halves of a round.
  record IsAwaited (s : Loop) : Type 1 where
    pub underway : s.first ≡ false
    pub idle : IsIdle s.client
    pub same_urls : s.client.urls ≡ c.urls
    pub same_wait : s.client.wait ≡ c.wait
    pub rotates : Rotates (length c.urls) s.visited
    pub in_turn : s.next ≡ length s.visited % length c.urls
    pub spaced : IsSpaced c.wait s.set_at
    pub tries : Tries c (length s.visited) s.client
    pub once : c.wait ≡ 0 → s.visited ≡ []
    pub latest : (ts : List ℕ) × (s.set_at ≡ s.clock ∷ ts)
    pub due : s.deadline ≡ s.clock + c.wait

  IsSpaced-cons :
      (t : ℕ) (ts us : List ℕ) (u : ℕ)
      → us ≡ u ∷ ts
      → u + c.wait ≤ t
      → IsSpaced c.wait us
      → IsSpaced c.wait (t ∷ us)
  IsSpaced-cons t ts us u e h k =
      subst (λ (x : List ℕ). IsSpaced c.wait (t ∷ x)) (sym e) (h, subst (IsSpaced c.wait) e k)

  await_deadline-Awaited :
      (m : Moment) (s : Loop)
      → IsRegular c s
      → (s.first || not (s.client.wait == 0)) ≡ true
      → IsAwaited (await_deadline m s)
  unfolding await_deadline
  await_deadline-Awaited m s h go = elim (Bool-cases s.first) [
    | inl e ↦ simp e (record {
      underway = refl;
      idle = h.idle;
      same_urls = h.same_urls;
      same_wait = h.same_wait;
      rotates = h.rotates;
      in_turn = h.in_turn;
      spaced = h.spaced;
      once = λ z. h.fresh e;
      tries = h.tries;
      latest = h.latest;
      due = h.due;
    })
    | inr e ↦ simp e (record {
      underway = refl;
      idle = h.idle;
      same_urls = h.same_urls;
      same_wait = h.same_wait;
      rotates = h.rotates;
      in_turn = h.in_turn;
      spaced =
          IsSpaced-cons _ h.latest.0 s.set_at s.clock h.latest.1 (ground (arith, h.due)) h.spaced;
      once = λ z. absurd (waits e z);
      tries = h.tries;
      latest = (s.set_at, refl);
      due = ap (λ (w : ℕ). woken m s + w) h.same_wait;
    })
  ]
    where
      waits : s.first ≡ false → c.wait ≡ 0 → ⊥
      waits e z = continues s.first (s.client.wait == 0) go e (ground (arith, h.same_wait))

  connected-Regular :
      (m : Moment) (s : Loop) (u : Url) (o : Started)
      → IsAwaited s
      → get_elem? s.client.urls s.next ≡ some (some u)
      → start m.fuel m.network u s.client ≡ o
      → Settles s.client o
      → LoopsRegularly c (elim o [
        | returned c' err ↦ going (record s {
          next = (s.next + 1) % length s.client.urls;
          client = log_error err c';
          visited = s.next ∷ s.visited;
        })
        | pulling ↦ in_pull
      ])
  connected-Regular m s u pulling h at run k = tt
  connected-Regular m s u (returned c' err) h at run (idle, code, down, (urls, wait), failed) =
      let (idle', urls', wait') = log_error-Idle c' err idle in
      record {
        idle = idle';
        same_urls = urls' ∙ urls ∙ h.same_urls;
        same_wait = wait' ∙ wait ∙ h.same_wait;
        rotates = (h.in_turn, h.rotates);
        in_turn =
            ap (λ (us : List (Option Url)). (s.next + 1) % length us) h.same_urls
            ∙ ap (λ (k : ℕ). (k + 1) % length c.urls) h.in_turn
            ∙ mod-add-mod (length s.visited) (length c.urls) 1
            ∙ ap (λ (k : ℕ). k % length c.urls) (omega arith);
        spaced = h.spaced;
        once = λ z. omega (arith, ap length (h.once z));
        fresh = λ f. cc;
        started = λ f. omega arith;
        tries = tried m u err h.tries (turn h at) run;
        latest = h.latest;
        due = h.due;
      }
    where
      turn :
          IsAwaited s
          → get_elem? s.client.urls s.next ≡ some (some u)
          → get_elem? c.urls (length s.visited % length c.urls) ≡ some (some u)
      turn h at =
          ap (λ (us : List (Option Url)). get_elem? us (length s.visited % length c.urls))
            (sym h.same_urls)
          ∙ ap (λ (k : ℕ). get_elem? s.client.urls k) (sym h.in_turn)
          ∙ at

  connect_next-Regular : (m : Moment) (s : Loop) → IsAwaited s → LoopsRegularly c (connect_next m s)
  unfolding connect_next
  connect_next-Regular m s h = visit (get_elem? s.client.urls s.next) refl
    where
      visit :
          (o : Option (Option Url))
          → get_elem? s.client.urls s.next ≡ o
          → LoopsRegularly c (elim o [
            | some (some u) ↦ elim (start m.fuel m.network u s.client) [
              | returned c err ↦ going (record s {
                next = (s.next + 1) % length s.client.urls;
                client = log_error err c;
                visited = s.next ∷ s.visited;
              })
              | pulling ↦ in_pull
            ]
            | some none ↦ crashed
            | none ↦ crashed
          ])
      visit (some (some u)) at =
          connected-Regular m s u _ h at refl (start-Settles m.fuel m.network u s.client h.idle)
      visit (some none) at = tt
      visit none at = tt

  go_on-Regular :
      (ms : List Moment) (ih : (s : Loop) → IsRegular c s → LoopsRegularly c (loop ms s))
      (o : Looped)
      → LoopsRegularly c o
      → LoopsRegularly c (go_on ms o)
  go_on-Regular ms ih (going s) h = ih s h
  go_on-Regular ms ih (finished s) h = h
  go_on-Regular ms ih crashed h = tt
  go_on-Regular ms ih in_pull h = tt

  loop-Regular : (ms : List Moment) (s : Loop) → IsRegular c s → LoopsRegularly c (loop ms s)
  unfolding loop_round
  loop-Regular [] s h = subst (LoopsRegularly c) (loop_end s) h
  loop-Regular (m ∷ ms) s h = elim (Bool-cases (s.first || not (s.client.wait == 0))) [
    | inl e ↦ subst (LoopsRegularly c) (sym (loop_step m ms s true e)) (
        go_on-Regular ms (loop-Regular ms) (loop_round m s)
          (connect_next-Regular m _ (await_deadline-Awaited m s h e)))
    | inr e ↦ subst (LoopsRegularly c) (sym (loop_step m ms s false e)) (
        let (f, z) = ends s.first (s.client.wait == 0) e in
        let none_left : c.wait ≡ 0 = ground (arith, h.same_wait) in
        (h, none_left, omega (arith, h.once none_left, h.started f)))
  ]

pub loop-LoopsRegularly :
    (c : Client) (now : ℕ) (ms : List Moment)
    → IsIdle c
    → LoopsRegularly c (loop ms (begin_loop now c))
loop-LoopsRegularly c now ms idle =
    loop-Regular c ms (begin_loop now c) (begin_loop-Regular now c idle)
