-- ===== src/Streaming/Fleet/Totals.antt =====
-- Sums over the first streams of a fleet.
use mathlib.Core.Path.{subst, fun_ext}
use restreamer.Prelude.{
  ℕ, zero, suc, ◌+◌, ◌≤◌, ◌<◌, ◌≡◌, refl, sym, ap, ◌∙◌, List, length, inl, inr, ◌==◌, Eq-cases,
  beq_ne, beq_refl, nat_eq, arith, if◌then◌else◌,
}

abbrev pub total : (ℕ → ℕ) → ℕ → ℕ
total g zero = 0
total g (suc n) = total g n + g n

-- One term is replaced.
abbrev pub revalued : (ℕ → ℕ) → ℕ → ℕ → ℕ → ℕ
revalued g i v j = if i == j then v else g j

total-above : (g : ℕ → ℕ) (i v n : ℕ) → n ≤ i → total (revalued g i v) n ≡ total g n
total-above g i v zero h = refl
total-above g i v (suc n) h =
    rw (beq_ne i n (λ e. absurd (omega (arith, e))))
      (omega (arith, total-above g i v n (omega arith)))

pub total-revalued :
    (g : ℕ → ℕ) (i v n : ℕ) → i < n → total (revalued g i v) n + g i ≡ total g n + v
total-revalued g i v zero h = absurd (omega arith)
total-revalued g i v (suc n) h = elim (Eq-cases i n) [
  | inl e ↦ subst (λ k. total (revalued g k v) (suc n) + g k ≡ total g (suc n) + v) (sym e) last
  | inr e ↦ rw (beq_ne i n e) (omega (arith, total-revalued g i v n (omega arith)))
]
  where
    last : total (revalued g n v) (suc n) + g n ≡ total g (suc n) + v
    last = rw (beq_refl n) (omega (arith, total-above g n v n (omega arith)))

pub le-total : (g : ℕ → ℕ) (i n : ℕ) → i < n → g i ≤ total g n
le-total g i zero h = absurd (omega arith)
le-total g i (suc n) h = elim (Eq-cases i n) [
  | inl e ↦ subst (λ k. g k ≤ total g (suc n)) (sym e) (omega arith)
  | inr e ↦ omega (arith, le-total g i n (omega arith))
]

-- The lengths of lists of which one is replaced.
abbrev pub lengths : (ℕ → List ℕ) → ℕ → ℕ
lengths lists j = length (lists j)

abbrev pub relisted : (ℕ → List ℕ) → ℕ → List ℕ → ℕ → List ℕ
relisted lists i new j = if i == j then new else lists j

pub total-relisted :
    (lists : ℕ → List ℕ) (i : ℕ) (new : List ℕ) (n : ℕ)
    → i < n
    → total (lengths (relisted lists i new)) n + length (lists i)
      ≡ total (lengths lists) n + length new
total-relisted lists i new n h =
    ap (λ (g : ℕ → ℕ). total g n + length (lists i)) (fun_ext λ j. lengths_at j)
    ∙ total-revalued (lengths lists) i (length new) n h
  where
    lengths_at :
        (j : ℕ) → lengths (relisted lists i new) j ≡ revalued (lengths lists) i (length new) j
    lengths_at j = ground arith
