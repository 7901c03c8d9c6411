-- ===== src/Util/Shuffle/Permutation.antt =====
-- The elements of a shuffled list.
use restreamer.Prelude.{
  ℕ, zero, suc, ◌+◌, ◌<◌, ◌≡◌, refl, ap, ◌∙◌, Bool, true, false, List, [], ◌∷◌, some, length,
  get_elem?, set, arith,
}
use restreamer.Prelude.Channel.{ok}
use restreamer.Util.Shuffle.{swap, rounds, shuffle}

one : Bool → ℕ
one true = 1
one false = 0

-- How many elements pass a test.
pub count {ℓ} : {A : Type ℓ} → (A → Bool) → List A → ℕ
count p [] = 0
count p (x ∷ xs) = one (p x) + count p xs

module _ {ℓ} {A : Type ℓ} where
  length-set : (xs : List A) (i : ℕ) (v : A) → length (set xs i v) ≡ length xs
  length-set [] i v = refl
  length-set (x ∷ xs) zero v = refl
  length-set (x ∷ xs) (suc i) v = ap suc (length-set xs i v)

  in_bounds : (xs : List A) (i : ℕ) → i < length xs → (x : A) × (get_elem? xs i ≡ some x)
  in_bounds [] i h = absurd (omega arith)
  in_bounds (x ∷ xs) zero h = (x, refl)
  in_bounds (x ∷ xs) (suc i) h = in_bounds xs i (omega arith)

  count-set :
      (p : A → Bool) (xs : List A) (i : ℕ) (v x : A)
      → get_elem? xs i ≡ some x
      → count p (set xs i v) + one (p x) ≡ count p xs + one (p v)
  unfolding count
  count-set p [] i v x e = cc
  count-set p (y ∷ ys) zero v x e =
      let same : y ≡ x = cc in omega (arith, ap (λ (z : A). one (p z)) same)
  count-set p (y ∷ ys) (suc i) v x e = omega (arith, count-set p ys i v x e)

  -- What stands at `i` after `x`, which was there before, was put at `r`.
  get_elem?-set :
      (xs : List A) (r i : ℕ) (x : A) → get_elem? xs i ≡ some x → get_elem? (set xs r x) i ≡ some x
  get_elem?-set [] r i x e = e
  get_elem?-set (y ∷ ys) zero zero x e = refl
  get_elem?-set (y ∷ ys) zero (suc i) x e = e
  get_elem?-set (y ∷ ys) (suc r) zero x e = e
  get_elem?-set (y ∷ ys) (suc r) (suc i) x e = get_elem?-set ys r i x e

  -- The same elements, as often.
  pub record IsPermutation (xs ys : List A) : Type ℓ where
    pub same_length : length ys ≡ length xs
    pub same_count : (p : A → Bool) → count p ys ≡ count p xs

  swap-IsPermutation :
      (r i : ℕ) (xs : List A)
      → r < length xs
      → i < length xs
      → (ys : List A) × (swap r i xs ≡ ok ys) × IsPermutation xs ys
  unfolding swap
  swap-IsPermutation r i xs hr hi =
      let (x, at_i) = in_bounds xs i hi in
      let (y, at_r) = in_bounds xs r hr in
      (
        set (set xs r x) i y,
        rw (swap, at_i, at_r) refl,
        record {
          same_length = length-set (set xs r x) i y ∙ length-set xs r x;
          same_count = λ p. omega (
            arith,
            count-set p xs r x y at_r,
            count-set p (set xs r x) i y x (get_elem?-set xs r i x at_i),
          );
        },
      )

  module _ {S : Type 0} (intn : S → ℕ → S × ℕ) where
    rounds-IsPermutation :
        ((rnd : S) (n : ℕ) → 0 < n → (intn rnd n).1 < n)
        → (left i : ℕ) (rnd : S) (xs : List A) → i + left ≡ length xs
        → (ys : List A) × (rounds intn left i rnd xs ≡ ok ys) × IsPermutation xs ys
    unfolding rounds
    rounds-IsPermutation bounded zero i rnd xs h =
        (xs, refl, record { same_length = refl; same_count = λ p. refl })
    rounds-IsPermutation bounded (suc left) i rnd xs h =
        let (rnd', k) = intn rnd (suc left) in
        let small = bounded rnd (suc left) (omega arith) in
        let (ys, e, s) = swap-IsPermutation (i + k) i xs (omega (arith, small)) (omega arith) in
        let (zs, e', t) =
          rounds-IsPermutation bounded left (i + 1) rnd' ys (omega (arith, s.same_length)) in
        (
          zs,
          rw e e',
          record {
            same_length = t.same_length ∙ s.same_length;
            same_count = λ p. t.same_count p ∙ s.same_count p;
          },
        )

    -- If every draw below a positive n is below n, as rnd.Intn promises, then a shuffle never reads
    -- or writes out of bounds, and its result has the same elements, each as often.
    pub shuffle-IsPermutation :
        ((rnd : S) (n : ℕ) → 0 < n → (intn rnd n).1 < n)
        → (rnd : S) (xs : List A)
        → (ys : List A) × (shuffle intn rnd xs ≡ ok ys) × IsPermutation xs ys
    unfolding shuffle
    shuffle-IsPermutation bounded rnd xs =
        rounds-IsPermutation bounded (length xs) 0 rnd xs (omega arith)
