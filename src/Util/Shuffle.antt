-- ===== src/Util/Shuffle.antt =====
-- util/shuffle.go: Shuffle and ShuffleStrings, which are one function for two types.
pub mod Permutation
use restreamer.Prelude.{ℕ, zero, suc, ◌+◌, ◌-◌, List, Option, none, some, length, get_elem?, set}
use restreamer.Prelude.Channel.{Outcome, ok, panic, ◌>>=◌}

-- ret[r], ret[i] = ret[i], ret[r]
unfoldable pub swap {ℓ} : {A : Type ℓ} → ℕ → ℕ → List A → Outcome (List A)
swap r i ret = elim (get_elem? ret i) [
  | none ↦ panic
  | some x ↦ elim (get_elem? ret r) [ none ↦ panic | some y ↦ ok (set (set ret r x) i y) ]
]

-- `intn` is rnd.Intn, on the state of the random source.
module _ {ℓ} {A : Type ℓ} {S : Type 0} (intn : S → ℕ → S × ℕ) where
  -- The rounds from `i` on; `left` is N - i.
  unfoldable pub rounds : (left i : ℕ) → S → List A → Outcome (List A)
  unfolding swap
  rounds zero i rnd ret = ok ret
  rounds (suc left) i rnd ret =
      let (rnd', k) = intn rnd (suc left) in
      (do ret' ← swap (i + k) i ret; rounds left (i + 1) rnd' ret')

  unfoldable pub shuffle : S → List A → Outcome (List A)
  unfolding rounds
  shuffle rnd list = rounds (length list) 0 rnd list
