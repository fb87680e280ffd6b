-- ===== src/Ttr/Scoring/UnionFind/Forest.antt =====
-- The parents that `find` and `union` write form a forest: every chain of parents ends in a root,
-- within as many steps as there are entries that are not roots, so that `find` does not run out of
-- its fuel and returns the root; compression shortens chains and moves no root.
use bgex_backend.Base.{
  ℕ, zero, suc, ◌≡◌, ◌≢◌, refl, none, some, List, [], ◌∷◌, ◌==◌, arith, ◌≤◌, ◌<◌, sym, ◌∙◌,
  Bool-cases, inl, inr, ==_iff, subst,
}
use bgex_backend.Ttr.State.{lookup, set_entry}
use bgex_backend.Ttr.Scoring.UnionFind.{set_entry, find_from, children}

-- The chain of parents from a city to its root, and its length.
pub data Climb (parent : List (ℕ × ℕ)) : ℕ → ℕ → ℕ → Type 0 where
  root : {x : ℕ} → lookup parent x ≡ some x → Climb parent x x 0
  up :
      {x y r d : ℕ}
      → lookup parent x ≡ some y
      → y ≢ x
      → Climb parent y r d
      → Climb parent x r (suc d)

pub lookup-set_entry_same : (x r : ℕ) (p : List (ℕ × ℕ)) → lookup (set_entry x r p) x ≡ some r
unfolding set_entry
lookup-set_entry_same x r [] = ground arith
lookup-set_entry_same x r (e ∷ es) = ground (arith, lookup-set_entry_same x r es)

pub lookup-set_entry_other :
    (x r z : ℕ) (p : List (ℕ × ℕ)) → z ≢ x → lookup (set_entry x r p) z ≡ lookup p z
unfolding set_entry
lookup-set_entry_other x r z [] apart = ground arith
lookup-set_entry_other x r z (e ∷ es) apart = ground (arith, lookup-set_entry_other x r z es apart)

pub Climb-root : {p : List (ℕ × ℕ)} {x r d : ℕ} → Climb p x r d → lookup p r ≡ some r
Climb-root (root e) = e
Climb-root (up e apart c) = Climb-root c

-- A city has one root.
pub Climb-unique : {p : List (ℕ × ℕ)} {x r s d e : ℕ} → Climb p x r d → Climb p x s e → r ≡ s
Climb-unique (root a) (root b) = refl
Climb-unique (root a) (up b apart c) = absurd (apart (cc))
Climb-unique (up a apart c) (root b) = absurd (apart (cc))
Climb-unique {p} {s = s} (up {y = y} a apart c) (up {y = z} {d = k} b apart' c') =
    let same : z ≡ y = cc in Climb-unique c (subst (λ v. Climb p v s k) same c')

-- A city below another one is an entry that is not a root.
Climb-child :
    {p : List (ℕ × ℕ)} {x r d : ℕ}
    → Climb p x r d
    → r ≢ x
    → (y : ℕ) × (lookup p x ≡ some y) × (y ≢ x)
Climb-child (root e) apart = absurd (apart refl)
Climb-child (up {y = y} e other c) apart = (y, e, other)

-- What compression may do to a map: chains get no longer and keep their roots, the entries that
-- are not roots stay as many, and no city is added.
pub record Compresses (p q : List (ℕ × ℕ)) : Type 0 where
  pub shorter : {z s e : ℕ} → Climb p z s e → (k : ℕ) × Climb q z s k × (k ≤ e)
  pub same_children : children q ≡ children p
  pub absent : (z : ℕ) → lookup p z ≡ none → lookup q z ≡ none

pub Compresses-refl : (p : List (ℕ × ℕ)) → Compresses p p
Compresses-refl p = record {
  shorter = λ {z} {s} {e} c. (e, c, omega arith);
  same_children = refl;
  absent = λ z none_there. none_there;
}

Compresses-trans : {p q m : List (ℕ × ℕ)} → Compresses p q → Compresses q m → Compresses p m
Compresses-trans f g = record {
  shorter = λ {z} {s} {e} c.
      (let once = f.shorter c in
        let twice = g.shorter once.1 in (twice.0, twice.1, omega (arith, once.2, twice.2)));
  same_children = g.same_children ∙ f.same_children;
  absent = λ z none_there. g.absent z (f.absent z none_there);
}

-- How many entries are no roots, after a write.
children_moved :
    (x r y : ℕ) (p : List (ℕ × ℕ))
    → lookup p x ≡ some y
    → y ≢ x
    → r ≢ x
    → children (set_entry x r p) ≡ children p
unfolding set_entry
children_moved x r y [] at apart other = absurd (cc)
children_moved x r y (e ∷ es) at apart other = ground (arith, children_moved x r y es)

pub children_linked :
    (x r : ℕ) (p : List (ℕ × ℕ))
    → lookup p x ≡ some x
    → r ≢ x
    → children (set_entry x r p) ≡ suc (children p)
unfolding set_entry
children_linked x r [] at other = absurd (cc)
children_linked x r (e ∷ es) at other = ground (arith, children_linked x r es)

pub children_fresh :
    (x : ℕ) (p : List (ℕ × ℕ)) → lookup p x ≡ none → children (set_entry x x p) ≡ children p
unfolding set_entry
children_fresh x [] at = ground arith
children_fresh x (e ∷ es) at = ground (arith, children_fresh x es)

module _ (p : List (ℕ × ℕ)) (x r : ℕ) where
  -- A city that is moved to its root.
  moved_shorter :
      {y d : ℕ}
      → lookup p x ≡ some y
      → y ≢ x
      → Climb p x r d
      → {z s e : ℕ} → Climb p z s e
      → (k : ℕ) × Climb (set_entry x r p) z s k × (k ≤ e)
  moved_shorter at apart climb (root {x = z} e) =
      (0, root (lookup-set_entry_other x r z p (λ same. apart (cc)) ∙ e), omega arith)
  moved_shorter at apart climb (up {x = z} {r = s} {d = n} e other c) = elim (Bool-cases (z == x)) [
    | inl same ↦
        let is_x : z ≡ x = (==_iff z x).0 same in
        let is_r : s ≡ r =
          Climb-unique (subst (λ v. Climb p v s (suc n)) is_x (up e other c)) climb in
        let below : r ≢ x = λ same_root. apart (ground (arith, Climb-root climb)) in
        let root_stays = lookup-set_entry_other x r r p below ∙ Climb-root climb in
        let one : Climb (set_entry x r p) x r 1 =
          up (lookup-set_entry_same x r p) below (root root_stays) in
        (1, rw (is_x, is_r) one, omega arith)
    | inr differ ↦
        let rest = moved_shorter at apart climb c in
        (
          suc rest.0,
          up (lookup-set_entry_other x r z p (ground (arith, differ)) ∙ e) other rest.1,
          omega (arith, rest.2),
        )
  ]

  -- Compression of one city under its root.
  moved-Compresses :
      {y d : ℕ}
      → lookup p x ≡ some y
      → y ≢ x
      → r ≢ x
      → Climb p x r d
      → Compresses p (set_entry x r p)
  moved-Compresses {y} at apart below climb = record {
    shorter = moved_shorter at apart climb;
    same_children = children_moved x r y p at apart below;
    absent = λ z none_there.
        lookup-set_entry_other x r z p
          (λ same. let here : lookup p x ≡ none = rw (sym same) none_there in cc)
        ∙ none_there;
  }

-- The branches of the recursion of `find`.
find_from-at_root :
    (fuel x : ℕ) (p : List (ℕ × ℕ)) → lookup p x ≡ some x → find_from (suc fuel) x p ≡ (p, x)
unfolding find_from
find_from-at_root fuel x p e = ground arith

pub find_from-fresh :
    (fuel x : ℕ) (p : List (ℕ × ℕ))
    → lookup p x ≡ none
    → find_from (suc fuel) x p ≡ (set_entry x x p, x)
unfolding find_from
find_from-fresh fuel x p e = ground arith

find_from-below :
    (fuel x y : ℕ) (p : List (ℕ × ℕ))
    → lookup p x ≡ some y
    → y ≢ x
    → find_from (suc fuel) x p
      ≡ (set_entry x (find_from fuel y p).1 (find_from fuel y p).0, (find_from fuel y p).1)
unfolding find_from
find_from-below fuel x y p e apart = ground arith

-- The recursion of `find` on a city of the forest, with enough fuel.
pub find_from-Compresses :
    (fuel x : ℕ) {p : List (ℕ × ℕ)} {r d : ℕ}
    → Climb p x r d
    → d < fuel
    → ((find_from fuel x p).1 ≡ r) × Compresses p (find_from fuel x p).0
find_from-Compresses zero x c enough = absurd (omega arith)
find_from-Compresses (suc fuel) x {p} (root e) enough =
    rw (find_from-at_root fuel x p e) (refl, Compresses-refl p)
find_from-Compresses (suc fuel) x {p} {r} (up {y = y} {d = d} e apart c) enough =
    let rest = find_from-Compresses fuel y c (omega arith) in
    let q : List (ℕ × ℕ) = (find_from fuel y p).0 in
    let below : r ≢ x = λ same. apart (ground (arith, Climb-root c)) in
    let climb = rest.1.shorter (up e apart c) in
    let child = Climb-child climb.1 below in
    let moved = moved-Compresses q x r child.1 child.2 below climb.1 in
    rw (find_from-below fuel x y p e apart, rest.0) (refl, Compresses-trans rest.1 moved)
