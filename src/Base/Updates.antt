-- ===== src/Base/Updates.antt =====
-- A write through a pointer that a search loop returned: the first element that passes the test.
use Prim.Native.Nat.{ℕ, ◌+◌}
use mathlib.Core.Path.{◌≡◌, refl, subst}
use mathlib.Core.Bool.{Bool, true}
use mathlib.Core.Option.{Option, none, some}
use mathlib.Core.Logic.{inl, inr}
use mathlib.Core.List.{List, [], ◌∷◌, map}
use native.Mathlib.Omega.{arith}
use bgex_backend.Base.Tests.{if◌then◌else◌, Bool-cases}
use bgex_backend.Base.Lists.{All, length}
use bgex_backend.Base.Sums.{sum_by}

module _ {ℓ} {A : Type ℓ} where
  unfoldable pub find_first : (A → Bool) → List A → Option A
  find_first p [] = none
  find_first p (x ∷ xs) = if p x then some x else find_first p xs

  unfoldable pub update_first : (A → Bool) → (A → A) → List A → List A
  update_first p f [] = []
  update_first p f (x ∷ xs) = if p x then f x ∷ xs else x ∷ update_first p f xs

  pub find_first-holds :
      (p : A → Bool) (xs : List A) (a : A) → find_first p xs ≡ some a → p a ≡ true
  unfolding find_first
  find_first-holds p [] a e = cc
  find_first-holds p (x ∷ xs) a e = ground (arith, find_first-holds p xs a)

  -- The write changes a sum by what it changes the element found.
  pub sum_by-update_first :
      (m : A → ℕ) (p : A → Bool) (f : A → A) (xs : List A) (a : A)
      → find_first p xs ≡ some a
      → sum_by m (update_first p f xs) + m a ≡ sum_by m xs + m (f a)
  unfolding find_first update_first
  sum_by-update_first m p f [] a e = cc
  sum_by-update_first m p f (x ∷ xs) a e = ground (arith, sum_by-update_first m p f xs a)

  pub update_first_absent :
      (p : A → Bool) (f : A → A) (xs : List A) → find_first p xs ≡ none → update_first p f xs ≡ xs
  unfolding find_first update_first
  update_first_absent p f [] e = refl
  update_first_absent p f (x ∷ xs) e = ground (arith, update_first_absent p f xs)

  -- What is found after the write is what was written, if it passes the test.
  pub find_first-update_first :
      (p : A → Bool) (new : A) (xs : List A) (a : A)
      → find_first p xs ≡ some a
      → p new ≡ true
      → find_first p (update_first p (λ _. new) xs) ≡ some new
  unfolding find_first update_first
  find_first-update_first p new [] a e passes = absurd (cc)
  find_first-update_first p new (x ∷ xs) a e passes =
      ground (arith, find_first-update_first p new xs a)

  pub length-update_first :
      (p : A → Bool) (f : A → A) (xs : List A) → length (update_first p f xs) ≡ length xs
  unfolding update_first
  length-update_first p f [] = refl
  length-update_first p f (x ∷ xs) = ground (arith, length-update_first p f xs)

  pub All-update_first {κ} :
      (P : A → Type κ) (p : A → Bool) (f : A → A)
      → ((a : A) → P a → P (f a))
      → (xs : List A) → All P xs
      → All P (update_first p f xs)
  unfolding update_first
  All-update_first P p f keep [] h = tt
  All-update_first P p f keep (x ∷ xs) h = elim (Bool-cases (p x)) [
    | inl e ↦ rw e (keep x h.0, h.1)
    | inr e ↦ rw e (h.0, All-update_first P p f keep xs h.1)
  ]

  pub find_first-All {κ} :
      (P : A → Type κ) (p : A → Bool) (xs : List A) (a : A)
      → find_first p xs ≡ some a
      → All P xs
      → P a
  unfolding find_first
  find_first-All P p [] a e h = absurd (cc)
  find_first-All P p (x ∷ xs) a e h = elim (Bool-cases (p x)) [
    | inl t ↦ subst P (ground (arith, t)) h.0
    | inr t ↦ find_first-All P p xs a (ground (arith, t)) h.1
  ]

  -- A projection that the write leaves alone.
  pub map-update_first {κ} :
      {B : Type κ} (g : A → B) (p : A → Bool) (f : A → A)
      → ((a : A) → g (f a) ≡ g a)
      → (xs : List A) → map g (update_first p f xs) ≡ map g xs
  unfolding update_first
  map-update_first g p f keep [] = refl
  map-update_first g p f keep (x ∷ xs) = elim (Bool-cases (p x)) [
    | inl e ↦ rw (e, keep x)
    | inr e ↦ rw (e, map-update_first g p f keep xs)
  ]
