-- ===== src/Streaming/Client/Urls.antt =====
-- The list of URLs that a client is made with.
use mathlib.Core.Path.{subst}
use native.Mathlib.Nat.{mod-eq_of_lt}
use restreamer.Prelude.{
  ℕ, suc, ◌%◌, ◌≤◌, ◌<◌, ◌≡◌, ◌≢◌, refl, sym, ap, ◌∙◌, inl, inr, Bool, Bool-cases, false, true, not,
  ◌||◌, ltb, ◌==◌, List, [], ◌∷◌, ◌++◌, Option, none, some, length, get_elem?, arith, if◌then◌else◌,
  Text, is_set,
}
use restreamer.Streaming.Client.Sources.{Url}
use restreamer.Streaming.Client.{Client, unconnected, parse_all, fill_urls, new_client}
use restreamer.Streaming.Client.Loop.{
  Moment, Loop, begin_loop, Looped, going, finished, crashed, in_pull, await_deadline, connect_next,
  loop_round, loop,
}
use restreamer.Streaming.Client.Start.{IsIdle}
use restreamer.Streaming.Client.Regular.{IsRegular, LoopsRegularly, go_on, loop_step, loop_end}
use restreamer.Streaming.Client.Attempts.{loop-LoopsRegularly}

length-fill_urls : (ts : List Text) (us : List Url) → length (fill_urls ts us) ≡ length ts
length-fill_urls [] us = refl
length-fill_urls (t ∷ ts) [] = ap suc (length-fill_urls ts [])
length-fill_urls (t ∷ ts) (u ∷ us) = ap suc (length-fill_urls ts us)

-- Behind the URLs that were parsed stands nil.
nil_behind :
    (ts : List Text) (us : List Url)
    → length us < length ts
    → get_elem? (fill_urls ts us) (length us) ≡ some none
nil_behind [] us h = absurd (omega arith)
nil_behind (t ∷ ts) [] h = refl
nil_behind (t ∷ ts) (u ∷ us) h = nil_behind ts us (omega arith)

going_inj : (s t : Loop) → going s ≡ going t → s ≡ t
going_inj s t e = cc

loop-append :
    (ms ns : List Moment) (s t : Loop) → loop ms s ≡ going t → loop (ms ++ ns) s ≡ loop ns t
loop-append [] ns s t e = ap (loop ns) (going_inj s t (loop_end s ∙ e))
loop-append (m ∷ ms) ns s t e = elim (Bool-cases (s.first || not (s.client.wait == 0))) [
  | inl b ↦
      loop_step m (ms ++ ns) s true b
      ∙ after (loop_round m s) (λ u. loop-append ms ns u t) (sym (loop_step m ms s true b) ∙ e)
  | inr b ↦ absurd (stuck (sym (loop_step m ms s false b) ∙ e))
]
  where
    after :
        (o : Looped) (ih : (u : Loop) → loop ms u ≡ going t → loop (ms ++ ns) u ≡ loop ns t)
        → go_on ms o ≡ going t
        → go_on (ms ++ ns) o ≡ loop ns t
    after (going u) ih h = ih u h
    after (finished u) ih h = cc
    after crashed ih h = cc
    after in_pull ih h = cc

    stuck : finished s ≡ going t → ⊥
    stuck h = cc

-- An attempt with a nil URL.
connect_next-crashes :
    (m : Moment) (s : Loop)
    → get_elem? s.client.urls s.next ≡ some none
    → connect_next m s ≡ crashed
unfolding connect_next
connect_next-crashes m s e = rw (connect_next, e) refl

await_deadline-same :
    (m : Moment) (s : Loop)
    → ((await_deadline m s).client ≡ s.client) × ((await_deadline m s).next ≡ s.next)
unfolding await_deadline
await_deadline-same m s = elim (Bool-cases s.first) [
  | inl e ↦ simp e (refl, refl)
  | inr e ↦ simp e (refl, refl)
]

loop_round-crashes :
    (m : Moment) (s : Loop) → get_elem? s.client.urls s.next ≡ some none → loop_round m s ≡ crashed
unfolding loop_round
loop_round-crashes m s e =
    let (same, at) = await_deadline-same m s in
    connect_next-crashes m (await_deadline m s) (
      ap (λ (d : Client). get_elem? d.urls (await_deadline m s).next) same
      ∙ ap (get_elem? s.client.urls) at
      ∙ e)

module _ (parse : Text → Option Url) (interface_by_name : Text → Option Text) (name : Text)
    (uris : List Text) (reconnect readtimeout qsize : ℕ) (intf : Text) (buffer_size packet_size : ℕ)
    (c : Client)
    (made : new_client parse interface_by_name name uris reconnect readtimeout qsize intf
        buffer_size packet_size
      ≡ some c) where
  abbrev count : ℕ
  count = length (parse_all parse uris)

  abbrev built : Client
  built =
      unconnected name (fill_urls uris (parse_all parse uris))
        (if is_set intf then interface_by_name intf else none) reconnect readtimeout qsize
        buffer_size packet_size

  built_as :
      (b : Bool)
      → ltb count 1 ≡ b
      → new_client parse interface_by_name name uris reconnect readtimeout qsize intf buffer_size
          packet_size
        ≡ (if b then none else some built)
  unfolding new_client
  built_as b e = ap (λ (b : Bool). if b then none else some built) e

  made_with : (c ≡ built) × (1 ≤ count)
  made_with = elim (Bool-cases (ltb count 1)) [
    | inl e ↦ absurd (none_made (sym (built_as true e) ∙ made))
    | inr e ↦ (some_inj (sym made ∙ built_as false e), ground arith)
  ]
    where
      none_made : ◌≡◌ {A = Option Client} none (some c) → ⊥
      none_made h = cc

      some_inj : ◌≡◌ {A = Option Client} (some c) (some built) → c ≡ built
      some_inj h = cc

  -- For a client that was made with URLs of which one at least cannot be parsed: whenever its loop
  -- is begun and whatever the network does, when the loop goes on until each URL that can be parsed
  -- was tried once and the waiting time is not 0, then the next attempt uses a nil pointer, and the
  -- program crashes.
  pub unparsed_url_panics :
      (now : ℕ) (ms ns : List Moment) (m : Moment) (s : Loop)
      → length (parse_all parse uris) < length uris
      → c.wait ≢ 0
      → loop ms (begin_loop now c) ≡ going s
      → length s.visited ≡ length (parse_all parse uris)
      → loop (ms ++ (m ∷ ns)) (begin_loop now c) ≡ crashed
  unparsed_url_panics now ms ns m s few waits reached tried =
      loop-append ms (m ∷ ns) (begin_loop now c) s reached
      ∙ loop_step m ns s true
          (goes_on s.first (s.client.wait == 0) (ground (arith, waits, regular.same_wait)))
      ∙ ap (go_on ns) (loop_round-crashes m s nil_next)
    where
      idle : IsIdle c
      idle = subst IsIdle (sym made_with.0) (refl, refl, refl)

      urls : c.urls ≡ fill_urls uris (parse_all parse uris)
      urls = ap (λ (d : Client). d.urls) made_with.0

      regular : IsRegular c s
      regular = subst (LoopsRegularly c) reached (loop-LoopsRegularly c now ms idle)

      at_count : s.next ≡ count
      at_count =
          regular.in_turn
          ∙ ap (λ (k : ℕ). k % length c.urls) tried
          ∙ mod-eq_of_lt
              (omega (arith, few, ap length urls, length-fill_urls uris (parse_all parse uris)))

      goes_on : (a b : Bool) → b ≡ false → (a || not b) ≡ true
      goes_on true b h = refl
      goes_on false true h = cc
      goes_on false false h = refl

      nil_next : get_elem? s.client.urls s.next ≡ some none
      nil_next =
          ap (λ (us : List (Option Url)). get_elem? us s.next) (regular.same_urls ∙ urls)
          ∙ ap (get_elem? (fill_urls uris (parse_all parse uris))) at_count
          ∙ nil_behind uris (parse_all parse uris) few
