-- ===== src/Ttr/Scoring/UnionFind/Joined.antt =====
-- What it means that edges join two cities, and what `union` does to the sets of a forest of
-- parents.
use bgex_backend.Base.{
  ℕ, ◌≡◌, ◌≢◌, refl, none, some, List, ◌==◌, arith, sym, ◌∙◌, Bool-cases, inl, inr, ==_iff, ==_refl,
  ==_false, false, subst, get_elem?,
}
use bgex_backend.Ttr.State.{lookup, set_entry}
use bgex_backend.Ttr.Scoring.UnionFind.{set_entry, find, union}
use bgex_backend.Ttr.Scoring.UnionFind.Forest.{
  Climb, Climb-unique, Climb-root, root, up, lookup-set_entry_other,
}
use bgex_backend.Ttr.Scoring.UnionFind.Roots.{
  IsForest, SameSet, Finds, find-Finds, new_root, linked_climbs, linked-IsForest,
}

-- The equivalence that a list of edges generates.
pub data Joined (es : List (ℕ × ℕ)) : ℕ → ℕ → Type 0 where
  same : {a : ℕ} → Joined es a a
  edge : {a b : ℕ} (i : ℕ) → get_elem? es i ≡ some (a, b) → Joined es a b
  turn : {a b : ℕ} → Joined es a b → Joined es b a
  via : {a b c : ℕ} → Joined es a b → Joined es b c → Joined es a c

pub Climb-some : {p : List (ℕ × ℕ)} {z s d : ℕ} → Climb p z s d → (lookup p z ≡ none) → ⊥
Climb-some (root e) none_there = cc
Climb-some (up e apart c) none_there = cc

-- Every city is joined to its root.
abbrev pub Roots : (ℕ → ℕ → Type 0) → List (ℕ × ℕ) → Type 0
Roots R p = (z s d : ℕ) → Climb p z s d → R z s

module _ (es : List (ℕ × ℕ)) where
  find-Roots :
      (p : List (ℕ × ℕ)) (x : ℕ) (out : List (ℕ × ℕ) × ℕ)
      → IsForest p
      → Finds p x out
      → Roots (Joined es) p
      → Roots (Joined es) out.0
  find-Roots p x out forest found roots z s d c = elim (forest z) [
    | inl none_z ↦ elim (found.fresh z none_z) [
      | inl still ↦ absurd (Climb-some c still)
      | inr own ↦ subst (Joined es z) (Climb-unique (root own) c) same
    ]
    | inr tree ↦
        subst (Joined es z) (Climb-unique (found.stays tree.2).1 c) (roots z tree.0 tree.1 tree.2)
  ]

  linked-Roots :
      (q : List (ℕ × ℕ)) (x r : ℕ) (at_x : lookup q x ≡ some x) (at_r : lookup q r ≡ some r)
      (apart : r ≢ x)
      → IsForest q
      → Joined es x r
      → Roots (Joined es) q
      → Roots (Joined es) (set_entry x r q)
  linked-Roots q x r at_x at_r apart forest joined roots z s d c = elim (forest z) [
    | inl none_z ↦
        let away : z ≢ x = λ at. (let here : lookup q z ≡ some x = rw at at_x in cc) in
        absurd (Climb-some c (lookup-set_entry_other x r z q away ∙ none_z))
    | inr tree ↦
        let moved = Climb-unique (linked_climbs q x r at_x at_r apart tree.2).1 c in
        subst (Joined es z) moved (elim (Bool-cases (tree.0 == x)) [
          | inl is_x ↦ rw is_x (
              via (subst (Joined es z) ((==_iff tree.0 x).0 is_x) (roots z tree.0 tree.1 tree.2))
                joined)
          | inr differ ↦ rw differ (roots z tree.0 tree.1 tree.2)
        ])
  ]

-- What `union` of two cities gives.
pub record Unites (p : List (ℕ × ℕ)) (a b : ℕ) (q : List (ℕ × ℕ)) : Type 0 where
  pub forest : IsForest q
  pub stays : (z w : ℕ) → SameSet p z w → SameSet q z w
  pub linked : SameSet q a b
  pub roots : (es : List (ℕ × ℕ)) → Joined es a b → Roots (Joined es) p → Roots (Joined es) q

union_joined :
    (a b : ℕ) (p : List (ℕ × ℕ))
    → (find a p).1 ≡ (find b (find a p).0).1
    → union a b p ≡ (find b (find a p).0).0
unfolding union
union_joined a b p e = ground (arith, e, ==_iff (find a p).1 (find b (find a p).0).1)

union_apart :
    (a b : ℕ) (p : List (ℕ × ℕ))
    → ((find a p).1 == (find b (find a p).0).1) ≡ false
    → union a b p ≡ set_entry (find a p).1 (find b (find a p).0).1 (find b (find a p).0).0
unfolding union
union_apart a b p e = ground (arith, e)

-- The two calls of `find` that `union` and `connected` start with.
pub record FindsBoth (p : List (ℕ × ℕ)) (a b : ℕ) (q : List (ℕ × ℕ)) (x r : ℕ) : Type 0 where
  pub forest : IsForest q
  pub stays : (z s d : ℕ) → Climb p z s d → (k : ℕ) × Climb q z s k
  pub left : (d : ℕ) × Climb q a x d
  pub right : (d : ℕ) × Climb q b r d
  pub roots : (es : List (ℕ × ℕ)) → Roots (Joined es) p → Roots (Joined es) q

pub find-FindsBoth :
    (p : List (ℕ × ℕ)) (a b : ℕ)
    → IsForest p
    → FindsBoth p a b (find b (find a p).0).0 (find a p).1 (find b (find a p).0).1
find-FindsBoth p a b forest =
    let one = find-Finds p a forest in
    let two = find-Finds (find a p).0 b one.forest in
    record {
      forest = two.forest;
      stays = λ z s d c. two.stays (one.stays c).1;
      left = two.stays one.climbs;
      right = (two.depth, two.climbs);
      roots = λ es h.
          find-Roots es (find a p).0 b (find b (find a p).0) one.forest two
            (find-Roots es p a (find a p) forest one h);
    }

pub SameSet-stays :
    (p q : List (ℕ × ℕ)) (f : ℕ → ℕ)
    → ((z s d : ℕ) → Climb p z s d → (k : ℕ) × Climb q z (f s) k)
    → (z w : ℕ) → SameSet p z w
    → SameSet q z w
SameSet-stays p q f keeps z w h =
    let left = keeps z h.0 h.1 h.3 in
    let right = keeps w h.0 h.2 h.4 in (f h.0, left.0, right.0, left.1, right.1)

linked-Unites :
    (p q : List (ℕ × ℕ)) (a b x r : ℕ)
    → FindsBoth p a b q x r
    → r ≢ x
    → Unites p a b (set_entry x r q)
linked-Unites p q a b x r both apart =
    let at_x = Climb-root both.left.1 in
    let at_r = Climb-root both.right.1 in
    let moves : (z s d : ℕ)
        → Climb q z s d
        → (k : ℕ) × Climb (set_entry x r q) z (new_root x r s) k =
      λ z s d c. (let l = linked_climbs q x r at_x at_r apart c in (l.0, l.1)) in
    let left = moves a x both.left.0 both.left.1 in
    let right = moves b r both.right.0 both.right.1 in
    record {
      forest = linked-IsForest q x r at_x at_r apart both.forest;
      stays = λ z w h.
          SameSet-stays q (set_entry x r q) (new_root x r) moves z w
            (SameSet-stays p q (λ s. s) both.stays z w h);
      linked = (
        r,
        left.0,
        right.0,
        subst (λ v. Climb (set_entry x r q) a v left.0) (rw (==_refl x) refl) left.1,
        subst (λ v. Climb (set_entry x r q) b v right.0) (rw (==_false r x apart) refl) right.1,
      );
      roots = λ es joined h.
          (let known = both.roots es h in
            let cross =
              via (turn (known a x both.left.0 both.left.1))
                (via joined (known b r both.right.0 both.right.1)) in
            linked-Roots es q x r at_x at_r apart both.forest cross known);
    }

pub union-Unites : (p : List (ℕ × ℕ)) (a b : ℕ) → IsForest p → Unites p a b (union a b p)
union-Unites p a b forest =
    let x = (find a p).1 in
    let r = (find b (find a p).0).1 in
    let q = (find b (find a p).0).0 in
    let both : FindsBoth p a b q x r = find-FindsBoth p a b forest in
    elim (Bool-cases (x == r)) [
      | inl equal ↦
          let met : x ≡ r = (==_iff x r).0 equal in
          subst (Unites p a b) (sym (union_joined a b p met)) (record {
            forest = both.forest;
            stays = SameSet-stays p q (λ s. s) both.stays;
            linked = (
              r,
              both.left.0,
              both.right.0,
              subst (λ v. Climb q a v both.left.0) met both.left.1,
              both.right.1,
            );
            roots = λ es joined h. both.roots es h;
          })
      | inr differ ↦
          let at_x = Climb-root both.left.1 in
          let at_r = Climb-root both.right.1 in
          let apart : r ≢ x = λ met. absurd (ground (arith, differ, met, ==_iff x r)) in
          subst (Unites p a b) (sym (union_apart a b p differ))
            (linked-Unites p q a b x r both apart)
    ]
