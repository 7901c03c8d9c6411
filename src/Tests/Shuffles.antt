-- ===== src/Tests/Shuffles.antt =====
-- util/shuffle: a source that always draws the greatest number.
use restreamer.Prelude.{ℕ, ◌-◌, ◌<◌, ◌≡◌, refl, List, [], ◌∷◌, arith}
use restreamer.Prelude.Channel.{ok}
use restreamer.Util.Shuffle.{shuffle}
use restreamer.Util.Shuffle.Permutation.{IsPermutation, shuffle-IsPermutation}

abbrev greatest : ℕ → ℕ → ℕ × ℕ
greatest rnd n = (rnd, n - 1)

abbrev cards : List ℕ
cards = 7 ∷ 8 ∷ 9 ∷ []

rotated : shuffle greatest 0 cards ≡ ok (9 ∷ 7 ∷ 8 ∷ [])
unfolding shuffle
rotated = refl

greatest-bounded : (rnd n : ℕ) → 0 < n → (greatest rnd n).1 < n
greatest-bounded rnd n h = omega arith

shuffle-IsPermutation_example :
    (ys : List ℕ) × (shuffle greatest 0 cards ≡ ok ys) × IsPermutation cards ys
shuffle-IsPermutation_example = shuffle-IsPermutation greatest greatest-bounded 0 cards
