-- ===== src/Ttr/Scoring/UnionFind/Roots.antt =====
-- What `find` does to the roots of a forest of parents, and what the write of `union` does: a root
-- linked below another.
use bgex_backend.Base.{
  ℕ, suc, ◌≡◌, ◌≢◌, none, some, List, ◌==◌, if◌then◌else◌, arith, ◌≤◌, sym, ◌∙◌, Bool-cases, inl,
  inr, ==_iff, ==_refl, subst, ◌⊎◌,
}
use bgex_backend.Ttr.State.{lookup, set_entry}
use bgex_backend.Ttr.Scoring.UnionFind.{set_entry, find, children}
use bgex_backend.Ttr.Scoring.UnionFind.Forest.{
  Climb, root, up, Compresses, find_from-Compresses, find_from-fresh, lookup-set_entry_same,
  lookup-set_entry_other, children_linked, children_fresh,
}

-- A city is in no set yet, or its chain of parents ends, in time, in a root.
abbrev pub HasRoot : List (ℕ × ℕ) → ℕ → Type 0
HasRoot p z = (r : ℕ) × (d : ℕ) × Climb p z r d × (d ≤ children p)

abbrev pub IsForest : List (ℕ × ℕ) → Type 0
IsForest p = (z : ℕ) → (lookup p z ≡ none) ⊎ HasRoot p z

-- Two cities with one root.
abbrev pub SameSet : List (ℕ × ℕ) → ℕ → ℕ → Type 0
SameSet p a b = (r : ℕ) × (d : ℕ) × (e : ℕ) × Climb p a r d × Climb p b r e

-- What `find` may give for a city: a root of it, in a forest in which no root moved, and where a
-- city that was in no set has none still, or is its own root.
pub record Finds (p : List (ℕ × ℕ)) (x : ℕ) (out : List (ℕ × ℕ) × ℕ) : Type 0 where
  pub depth : ℕ
  pub climbs : Climb out.0 x out.1 depth
  pub stays : {z s d : ℕ} → Climb p z s d → (k : ℕ) × Climb out.0 z s k
  pub forest : IsForest out.0
  pub fresh : (z : ℕ) → lookup p z ≡ none → (lookup out.0 z ≡ none) ⊎ (lookup out.0 z ≡ some z)

Compresses-IsForest : {p q : List (ℕ × ℕ)} → Compresses p q → IsForest p → IsForest q
Compresses-IsForest c forest z = elim (forest z) [
  | inl none_there ↦ inl (c.absent z none_there)
  | inr tree ↦
      let short = c.shorter tree.2 in
      inr (tree.0, short.0, short.1, omega (arith, short.2, tree.3, c.same_children))
]

-- A city that is met for the first time.
module _ (p : List (ℕ × ℕ)) (x : ℕ) (none_there : lookup p x ≡ none) where
  absent_apart : {z y : ℕ} → z ≡ x → lookup p z ≡ some y → ⊥
  absent_apart {z} same e = let here : lookup p z ≡ none = rw same none_there in cc

  fresh_stays : {z s d : ℕ} → Climb p z s d → Climb (set_entry x x p) z s d
  fresh_stays (root {x = z} e) =
      root (lookup-set_entry_other x x z p (λ same. absent_apart same e) ∙ e)
  fresh_stays (up {x = z} e apart c) =
      up (lookup-set_entry_other x x z p (λ same. absent_apart same e) ∙ e) apart (fresh_stays c)

  fresh-IsForest : IsForest p → IsForest (set_entry x x p)
  fresh-IsForest forest z = elim (Bool-cases (z == x)) [
    | inl same ↦
        let is_x : z ≡ x = (==_iff z x).0 same in
        rw is_x (inr (x, 0, root (lookup-set_entry_same x x p), omega arith))
    | inr differ ↦ elim (forest z) [
      | inl none_z ↦ inl (lookup-set_entry_other x x z p (ground (arith, differ)) ∙ none_z)
      | inr tree ↦
          inr (
            tree.0,
            tree.1,
            fresh_stays tree.2,
            omega (arith, tree.3, children_fresh x p none_there),
          )
    ]
  ]

  fresh-Finds : IsForest p → Finds p x (set_entry x x p, x)
  fresh-Finds forest = record {
    depth = 0;
    climbs = root (lookup-set_entry_same x x p);
    stays = λ {z} {s} {d} c. (d, fresh_stays c);
    forest = fresh-IsForest forest;
    fresh = λ z none_z. elim (Bool-cases (z == x)) [
      | inl same ↦
          let is_x : z ≡ x = (==_iff z x).0 same in inr (rw is_x (lookup-set_entry_same x x p))
      | inr differ ↦ inl (lookup-set_entry_other x x z p (ground (arith, differ)) ∙ none_z)
    ];
  }

-- `find`
pub find-Finds : (p : List (ℕ × ℕ)) (x : ℕ) → IsForest p → Finds p x (find x p)
unfolding find
find-Finds p x forest = elim (forest x) [
  | inl none_x ↦
      subst (Finds p x) (sym (find_from-fresh (children p) x p none_x))
        (fresh-Finds p x none_x forest)
  | inr tree ↦
      let found = find_from-Compresses (suc (children p)) x tree.2 (omega (arith, tree.3)) in
      let short = found.1.shorter tree.2 in
      record {
        depth = short.0;
        climbs = rw found.0 short.1;
        stays = λ {z} {s} {d} c. (let kept = found.1.shorter c in (kept.0, kept.1));
        forest = Compresses-IsForest found.1 forest;
        fresh = λ z none_z. inl (found.1.absent z none_z);
      }
]

abbrev pub new_root : ℕ → ℕ → ℕ → ℕ
new_root x r s = if s == x then r else s

-- A root that is linked below another one.
module _ (q : List (ℕ × ℕ)) (x r : ℕ) (at_x : lookup q x ≡ some x) (at_r : lookup q r ≡ some r)
    (apart : r ≢ x) where
  pub linked_climbs :
      {z s d : ℕ}
      → Climb q z s d
      → (k : ℕ) × Climb (set_entry x r q) z (new_root x r s) k × (k ≤ suc d)
  linked_climbs (root {x = z} e) = elim (Bool-cases (z == x)) [
    | inl same ↦
        let is_x : z ≡ x = (==_iff z x).0 same in
        let top = root (lookup-set_entry_other x r r q apart ∙ at_r) in
        (1, rw (is_x, ==_refl x) (up (lookup-set_entry_same x r q) apart top), omega arith)
    | inr differ ↦
        let top = root (lookup-set_entry_other x r z q (ground (arith, differ)) ∙ e) in
        (0, rw differ top, omega arith)
  ]
  linked_climbs (up {x = z} {y = y} e other c) =
      let rest = linked_climbs c in
      let away : z ≢ x = λ same. (let here : lookup q z ≡ some z = rw same at_x in other (cc)) in
      (suc rest.0, up (lookup-set_entry_other x r z q away ∙ e) other rest.1, omega (arith, rest.2))

  pub linked-IsForest : IsForest q → IsForest (set_entry x r q)
  linked-IsForest forest z = elim (forest z) [
    | inl none_z ↦
        let away : z ≢ x = λ same. (let here : lookup q z ≡ some z = rw same at_x in cc) in
        inl (lookup-set_entry_other x r z q away ∙ none_z)
    | inr tree ↦
        let linked = linked_climbs tree.2 in
        inr (
          new_root x r tree.0,
          linked.0,
          linked.1,
          omega (arith, linked.2, tree.3, children_linked x r q at_x apart),
        )
  ]
