-- ===== src/Base/Sums.antt =====
-- Sums of a measure over a list.
use Prim.Native.Nat.{ℕ, ◌+◌, ◌≤◌}
use mathlib.Core.Path.{◌≡◌, refl}
use mathlib.Core.List.{List, [], ◌∷◌, ◌++◌, map}
use native.Mathlib.Omega.{arith}
use bgex_backend.Base.Lists.{All}

module _ {ℓ} {A : Type ℓ} where
  abbrev pub sum_by : (A → ℕ) → List A → ℕ
  sum_by f [] = 0
  sum_by f (x ∷ xs) = f x + sum_by f xs

  pub sum_by-append : (f : A → ℕ) (xs ys : List A) → sum_by f (xs ++ ys) ≡ sum_by f xs + sum_by f ys
  sum_by-append f [] ys = omega arith
  sum_by-append f (x ∷ xs) ys = omega (arith, sum_by-append f xs ys)

  pub sum_by-add :
      (f g : A → ℕ) (xs : List A) → sum_by (λ x. f x + g x) xs ≡ sum_by f xs + sum_by g xs
  sum_by-add f g [] = omega arith
  sum_by-add f g (x ∷ xs) = omega (arith, sum_by-add f g xs)

  pub sum_by_zero : (xs : List A) → sum_by (λ _. 0) xs ≡ 0
  sum_by_zero [] = omega arith
  sum_by_zero (x ∷ xs) = omega (arith, sum_by_zero xs)

  -- Two measures that agree on the elements have one sum.
  pub sum_by_congr :
      (f g : A → ℕ) (xs : List A) → All (λ x. f x ≡ g x) xs → sum_by f xs ≡ sum_by g xs
  sum_by_congr f g [] h = refl
  sum_by_congr f g (x ∷ xs) h = omega (arith, h.0, sum_by_congr f g xs h.1)

  pub sum_by_mono :
      (f g : A → ℕ) (xs : List A) → All (λ x. f x ≤ g x) xs → sum_by f xs ≤ sum_by g xs
  sum_by_mono f g [] h = omega arith
  sum_by_mono f g (x ∷ xs) h = omega (arith, h.0, sum_by_mono f g xs h.1)

pub sum_by-map {ℓ κ} :
    {A : Type ℓ} {B : Type κ} (f : B → ℕ) (g : A → B) (xs : List A)
    → sum_by f (map g xs) ≡ sum_by (λ x. f (g x)) xs
sum_by-map f g [] = refl
sum_by-map f g (x ∷ xs) = omega (arith, sum_by-map f g xs)
