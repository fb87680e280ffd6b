-- ===== src/Base/Sorting.antt =====
-- Sorting by a Boolean order, as `sort.Slice` and `slices.Sort` are used: the orders that the
-- program passes leave at most one result.
use Prim.Native.Nat.{ℕ, suc, ◌+◌}
use mathlib.Core.Path.{◌≡◌, refl, subst}
use mathlib.Core.Logic.{inl, inr}
use mathlib.Core.Bool.{Bool, true, false}
use mathlib.Core.List.{List, [], ◌∷◌}
use native.Mathlib.Omega.{arith}
use bgex_backend.Base.Tests.{if◌then◌else◌, Bool-cases}
use bgex_backend.Base.Lists.{All, All-map_of, length}
use bgex_backend.Base.Sums.{sum_by}

module _ {ℓ} {A : Type ℓ} (less : A → A → Bool) where
  unfoldable pub insert_by : A → List A → List A
  insert_by a [] = a ∷ []
  insert_by a (x ∷ xs) = if less x a then x ∷ insert_by a xs else a ∷ x ∷ xs

  -- Insertion from the right keeps equal elements in their order.
  unfoldable pub sort_by : List A → List A
  unfolding insert_by
  sort_by [] = []
  sort_by (x ∷ xs) = insert_by x (sort_by xs)

  sum_by-insert_by :
      (f : A → ℕ) (a : A) (xs : List A) → sum_by f (insert_by a xs) ≡ f a + sum_by f xs
  unfolding insert_by
  sum_by-insert_by f a [] = refl
  sum_by-insert_by f a (x ∷ xs) = ground (arith, sum_by-insert_by f a xs)

  pub sum_by-sort_by : (f : A → ℕ) (xs : List A) → sum_by f (sort_by xs) ≡ sum_by f xs
  unfolding sort_by
  sum_by-sort_by f [] = refl
  sum_by-sort_by f (x ∷ xs) = omega (arith, sum_by-insert_by f x (sort_by xs), sum_by-sort_by f xs)

  length-insert_by : (a : A) (xs : List A) → length (insert_by a xs) ≡ suc (length xs)
  unfolding insert_by
  length-insert_by a [] = refl
  length-insert_by a (x ∷ xs) = ground (arith, length-insert_by a xs)

  pub length-sort_by : (xs : List A) → length (sort_by xs) ≡ length xs
  unfolding sort_by
  length-sort_by [] = refl
  length-sort_by (x ∷ xs) = omega (arith, length-insert_by x (sort_by xs), length-sort_by xs)

  pub All-insert_by {κ} :
      (P : A → Type κ) (a : A) (xs : List A) → P a → All P xs → All P (insert_by a xs)
  unfolding insert_by
  All-insert_by P a [] p h = (p, tt)
  All-insert_by P a (x ∷ xs) p h = elim (Bool-cases (less x a)) [
    | inl e ↦ rw e (h.0, All-insert_by P a xs p h.1)
    | inr e ↦ rw e (p, (h.0, h.1))
  ]

  pub All-sort_by {κ} : (P : A → Type κ) (xs : List A) → All P xs → All P (sort_by xs)
  unfolding sort_by
  All-sort_by P [] h = tt
  All-sort_by P (x ∷ xs) h = All-insert_by P x (sort_by xs) h.0 (All-sort_by P xs h.1)

  insert_by-All {κ} :
      (P : A → Type κ) (a : A) (xs : List A) → All P (insert_by a xs) → P a × All P xs
  unfolding insert_by
  insert_by-All P a [] h = (h.0, tt)
  insert_by-All P a (x ∷ xs) h = elim (Bool-cases (less x a)) [
    | inl e ↦
        let split : All P (x ∷ insert_by a xs) =
          subst (All P) {y = x ∷ insert_by a xs} (rw (e, insert_by) refl) h in
        let rest = insert_by-All P a xs split.1 in (rest.0, (split.0, rest.1))
    | inr e ↦
        let split : All P (a ∷ x ∷ xs) =
          subst (All P) {y = a ∷ x ∷ xs} (rw (e, insert_by) refl) h in
        (split.0, split.1)
  ]

  pub sort_by-All {κ} : (P : A → Type κ) (xs : List A) → All P (sort_by xs) → All P xs
  unfolding sort_by
  sort_by-All P [] h = tt
  sort_by-All P (x ∷ xs) h =
      let parts = insert_by-All P x (sort_by xs) h in (parts.0, sort_by-All P xs parts.1)

  -- No element stands behind one that it is less than.
  abbrev pub IsChain : List A → Type 0
  IsChain [] = Unit
  IsChain (x ∷ xs) = All (λ y. less y x ≡ false) xs × IsChain xs

  module _ (asymm : (a b : A) → less a b ≡ true → less b a ≡ false)
      (trans : (a b c : A) → less b a ≡ false → less c b ≡ false → less c a ≡ false) where
    insert_by-IsChain : (a : A) (xs : List A) → IsChain xs → IsChain (insert_by a xs)
    unfolding insert_by
    insert_by-IsChain a [] h = (tt, tt)
    insert_by-IsChain a (x ∷ xs) h = elim (Bool-cases (less x a)) [
      | inl e ↦
          rw e (
            All-insert_by (λ y. less y x ≡ false) a xs (asymm x a e) h.0,
            insert_by-IsChain a xs h.1,
          )
      | inr e ↦ rw e ((e, All-map_of _ _ (λ y g. trans a x y e g) xs h.0), (h.0, h.1))
    ]

    pub sort_by-IsChain : (xs : List A) → IsChain (sort_by xs)
    unfolding sort_by
    sort_by-IsChain [] = tt
    sort_by-IsChain (x ∷ xs) = insert_by-IsChain x (sort_by xs) (sort_by-IsChain xs)
