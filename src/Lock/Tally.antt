-- ===== src/Lock/Tally.antt =====
-- Sums of a weight over a list, when one element changes.
use membridge.Common.{
  ℕ, zero, suc, ◌+◌, ◌≤◌, ◌<◌, ◌≡◌, ◌≢◌, refl, ap, List, [], ◌∷◌, arith, length, get_or, set,
  replicate,
}

module _ {ℓ} {A : Type ℓ} (weight : A → ℕ) where
  unfoldable pub tally : List A → ℕ
  tally [] = 0
  tally (x ∷ xs) = weight x + tally xs

  pub tally-set :
      (xs : List A) (i : ℕ) (a d : A)
      → i < length xs
      → tally (set xs i a) + weight (get_or xs i d) ≡ tally xs + weight a
  unfolding tally
  tally-set [] i a d h = absurd (omega arith)
  tally-set (x ∷ xs) zero a d h = omega arith
  tally-set (x ∷ xs) (suc i) a d h = omega (arith, tally-set xs i a d (omega arith))

  pub weight-le-tally :
      (xs : List A) (i : ℕ) (d : A) → i < length xs → weight (get_or xs i d) ≤ tally xs
  unfolding tally
  weight-le-tally [] i d h = absurd (omega arith)
  weight-le-tally (x ∷ xs) zero d h = omega arith
  weight-le-tally (x ∷ xs) (suc i) d h = omega (arith, weight-le-tally xs i d (omega arith))

  pub two-le-tally :
      (xs : List A) (i j : ℕ) (d : A)
      → i < length xs
      → j < length xs
      → i ≢ j
      → weight (get_or xs i d) + weight (get_or xs j d) ≤ tally xs
  unfolding tally
  two-le-tally [] i j d hi hj ne = absurd (omega arith)
  two-le-tally (x ∷ xs) zero zero d hi hj ne = absurd (ne refl)
  two-le-tally (x ∷ xs) zero (suc j) d hi hj ne =
      omega (arith, weight-le-tally xs j d (omega arith))
  two-le-tally (x ∷ xs) (suc i) zero d hi hj ne =
      omega (arith, weight-le-tally xs i d (omega arith))
  two-le-tally (x ∷ xs) (suc i) (suc j) d hi hj ne =
      omega (arith, two-le-tally xs i j d (omega arith) (omega arith) (λ e. ne (ap suc e)))

  pub tally-le-length : ((a : A) → weight a ≤ 1) → (xs : List A) → tally xs ≤ length xs
  unfolding tally
  tally-le-length small [] = omega arith
  tally-le-length small (x ∷ xs) = omega (arith, small x, tally-le-length small xs)

  pub tally-replicate : (n : ℕ) (a : A) → weight a ≡ 0 → tally (replicate n a) ≡ 0
  unfolding tally
  tally-replicate zero a h = refl
  tally-replicate (suc n) a h = omega (arith, tally-replicate n a h)
