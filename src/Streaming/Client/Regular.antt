-- ===== src/Streaming/Client/Regular.antt =====
-- What a regular connection loop is, and the steps of the loop.
use native.Mathlib.Nat.{zero-mod}
use restreamer.Prelude.{
  ℕ, ◌+◌, ◌%◌, ◌≤◌, ◌≡◌, refl, sym, ap, ◌∙◌, Bool, false, true, not, ◌||◌, ◌==◌, List, [], ◌∷◌,
  Option, none, some, length, get_elem?, suc, zero, arith,
}
use restreamer.Streaming.Client.Sources.{ClientError, Url}
use restreamer.Streaming.Client.{Client, returned, start, log_error}
use restreamer.Streaming.Client.Loop.{
  Moment, Loop, begin_loop, Looped, going, finished, crashed, in_pull, loop_round, loop,
}
use restreamer.Streaming.Client.Start.{IsIdle}

-- The URLs were tried in turn; newest first.
abbrev pub Rotates : ℕ → List ℕ → Type 0
Rotates n [] = Unit
Rotates n (i ∷ is) = (i ≡ length is % n) × Rotates n is

-- The first attempts of a client's loop, and the client after them: attempt number `k` called `start`
-- with the URL number `k`, counted around the list of the URLs.
pub data Tries (c : Client) : ℕ → Client → Type 1 where
  none_tried : Tries c zero c
  tried :
      {k : ℕ} {d d' : Client} (m : Moment) (u : Url) (err : Option ClientError)
      → Tries c k d
      → get_elem? c.urls (k % length c.urls) ≡ some (some u)
      → start m.fuel m.network u d ≡ returned d' err
      → Tries c (suc k) (log_error err d')

-- Between two times that follow each other lies the given time at least; newest first.
abbrev pub IsSpaced : ℕ → List ℕ → Type 0
IsSpaced wait [] = Unit
IsSpaced wait (t ∷ []) = Unit
IsSpaced wait (t ∷ u ∷ ts) = (u + wait ≤ t) × IsSpaced wait (u ∷ ts)

-- What holds between the rounds, for a client with the given URLs and waiting time.
pub record IsRegular (c : Client) (s : Loop) : Type 1 where
  pub idle : IsIdle s.client
  pub same_urls : s.client.urls ≡ c.urls
  pub same_wait : s.client.wait ≡ c.wait
  pub rotates : Rotates (length c.urls) s.visited
  pub in_turn : s.next ≡ length s.visited % length c.urls
  pub spaced : IsSpaced c.wait s.set_at
  pub once : c.wait ≡ 0 → length s.visited ≤ 1
  pub fresh : s.first ≡ true → s.visited ≡ []
  pub started : s.first ≡ false → 1 ≤ length s.visited
  pub tries : Tries c (length s.visited) s.client
  pub latest : (ts : List ℕ) × (s.set_at ≡ s.clock ∷ ts)
  pub due : s.deadline ≡ s.clock + c.wait

-- The loop is regular as long as it goes on, and it ends only for a waiting time of 0 and after
-- one attempt.
abbrev pub LoopsRegularly : Client → Looped → Type 1
LoopsRegularly c (going s) = IsRegular c s
LoopsRegularly c (finished s) = IsRegular c s × (c.wait ≡ 0) × (length s.visited ≡ 1)
LoopsRegularly c crashed = Unit
LoopsRegularly c in_pull = Unit

-- The loop's condition.
pub continues : (a b : Bool) → (a || not b) ≡ true → a ≡ false → b ≡ true → ⊥
continues true b h e f = cc
continues false true h e f = cc
continues false false h e f = cc

pub ends : (a b : Bool) → (a || not b) ≡ false → (a ≡ false) × (b ≡ true)
ends true b h = cc
ends false true h = (refl, refl)
ends false false h = cc

pub log_error-Idle :
    (c : Client) (e : Option ClientError)
    → IsIdle c
    → IsIdle (log_error e c) × ((log_error e c).urls ≡ c.urls) × ((log_error e c).wait ≡ c.wait)
log_error-Idle c none h = (h, refl, refl)
log_error-Idle c (some e) h = (h, refl, refl)

pub begin_loop-Regular : (now : ℕ) (c : Client) → IsIdle c → IsRegular c (begin_loop now c)
unfolding begin_loop
begin_loop-Regular now c idle = record {
  idle = idle;
  same_urls = refl;
  same_wait = refl;
  rotates = tt;
  in_turn = sym (zero-mod (length c.urls));
  spaced = tt;
  once = λ h. omega arith;
  fresh = λ h. refl;
  started = λ h. ground arith;
  tries = none_tried;
  latest = ([], refl);
  due = refl;
}

-- The rest of the loop after a round.
abbrev pub go_on : List Moment → Looped → Looped
go_on ms (going s') = loop ms s'
go_on ms (finished s') = finished s'
go_on ms crashed = crashed
go_on ms in_pull = in_pull

pub loop_step :
    (m : Moment) (ms : List Moment) (s : Loop) (b : Bool)
    → (s.first || not (s.client.wait == 0)) ≡ b
    → loop (m ∷ ms) s ≡ elim b [ false ↦ finished s | true ↦ go_on ms (loop_round m s) ]
unfolding loop
loop_step m ms s b e =
    loop_body (loop_round m s)
    ∙ ap (λ (b : Bool). elim b [ false ↦ finished s | true ↦ go_on ms (loop_round m s) ]) e
  where
    loop_body :
        (o : Looped)
        → elim (s.first || not (s.client.wait == 0)) [
          | false ↦ finished s
          | true ↦ elim o [
            | going s' ↦ loop ms s'
            | finished s' ↦ finished s'
            | crashed ↦ crashed
            | in_pull ↦ in_pull
          ]
        ]
          ≡ elim (s.first || not (s.client.wait == 0)) [ false ↦ finished s | true ↦ go_on ms o ]
    loop_body (going s') = refl
    loop_body (finished s') = refl
    loop_body crashed = refl
    loop_body in_pull = refl

pub loop_end : (s : Loop) → going s ≡ loop [] s
unfolding loop
loop_end s = refl
