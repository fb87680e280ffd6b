-- ===== src/Ttr/Scoring/UnionFind/Connected.antt =====
-- `connected`: after the unions of a list of edges, two cities are connected exactly when the edges
-- join them.
use bgex_backend.Base.{
  ℕ, ◌≡◌, refl, List, [], ◌∷◌, sym, ◌∙◌, inl, inr, ==_iff, true, subst, ◌⊎◌, ◌↔◌, All, All-map_of,
  get_elem?-All, All_of_get_elem?,
}
use bgex_backend.Ttr.Scoring.UnionFind.{find, union, connected, unite_all}
use bgex_backend.Ttr.Scoring.UnionFind.Forest.{Climb, Climb-unique}
use bgex_backend.Ttr.Scoring.UnionFind.Roots.{IsForest, SameSet}
use bgex_backend.Ttr.Scoring.UnionFind.Joined.{
  Joined, same, edge, turn, via, Roots, find-FindsBoth, SameSet-stays, union-Unites, Climb-some,
}

-- A map of parents that stands for a list of edges.
pub record Represents (es : List (ℕ × ℕ)) (p : List (ℕ × ℕ)) : Type 0 where
  pub forest : IsForest p
  pub roots : Roots (Joined es) p
  pub linked : All (λ e. SameSet p e.0 e.1) es

-- `connected`, whose own calls of `find` leave the map standing for the same edges.
module _ (es : List (ℕ × ℕ)) (p : List (ℕ × ℕ)) (rep : Represents es p) where
  Joined-SameSet : {a b : ℕ} → Joined es a b → (a ≡ b) ⊎ SameSet p a b
  Joined-SameSet same = inl refl
  Joined-SameSet (edge {a} {b} i at) =
      inr (get_elem?-All (λ e. SameSet p e.0 e.1) es i rep.linked at)
  Joined-SameSet (turn {a} {b} j) = elim (Joined-SameSet j) [
    | inl e ↦ inl (sym e)
    | inr s ↦ inr (s.0, s.2, s.1, s.4, s.3)
  ]
  Joined-SameSet (via {a} {b} {c} j k) = elim (Joined-SameSet j) [
    | inl e ↦ subst (λ v. (v ≡ c) ⊎ SameSet p v c) (sym e) (Joined-SameSet k)
    | inr s ↦ elim (Joined-SameSet k) [
      | inl e ↦ inr (subst (λ v. SameSet p a v) e s)
      | inr t ↦
          let met : t.0 ≡ s.0 = Climb-unique t.3 s.4 in
          inr (s.0, s.1, t.2, s.3, subst (λ v. Climb p c v t.2) met t.4)
    ]
  ]

  module _ (a b : ℕ) where
    pub connected-Represents : Represents es (connected a b p).0
    unfolding connected
    connected-Represents =
        let both = find-FindsBoth p a b rep.forest in
        record {
          forest = both.forest;
          roots = both.roots es rep.roots;
          linked =
              All-map_of _ _
                (λ e h. SameSet-stays p (find b (find a p).0).0 (λ s. s) both.stays e.0 e.1 h) es
                rep.linked;
        }

    -- Two cities are connected exactly when the edges join them.
    pub connected-Joined : ((connected a b p).1 ≡ true) ↔ Joined es a b
    unfolding connected
    connected-Joined =
        let both = find-FindsBoth p a b rep.forest in
        let x = (find a p).1 in
        let r = (find b (find a p).0).1 in
        let q = (find b (find a p).0).0 in
        let known = both.roots es rep.roots in
        (
          λ equal.
              (let met : x ≡ r = (==_iff x r).0 equal in
                let right = turn (known b r both.right.0 both.right.1) in
                via (known a x both.left.0 both.left.1)
                  (subst (λ v. Joined es v b) (sym met) right)),
          λ joined. (==_iff x r).1 (elim (Joined-SameSet joined) [
            | inl e ↦
                Climb-unique both.left.1
                  (subst (λ v. Climb q v r both.right.0) (sym e) both.right.1)
            | inr s ↦
                let kept = SameSet-stays p q (λ v. v) both.stays a b s in
                Climb-unique both.left.1 kept.3 ∙ Climb-unique kept.4 both.right.1
          ]),
        )

-- The map before the first union.
empty-IsForest : IsForest []
empty-IsForest z = inl refl

empty-Roots : (es : List (ℕ × ℕ)) → Roots (Joined es) []
empty-Roots es z s d c = absurd (Climb-some c refl)

unite_all-keeps :
    (all es : List (ℕ × ℕ)) (p : List (ℕ × ℕ))
    → IsForest p
    → Roots (Joined all) p
    → All (λ e. Joined all e.0 e.1) es
    → IsForest (unite_all es p)
      × Roots (Joined all) (unite_all es p)
      × ((z w : ℕ) → SameSet p z w → SameSet (unite_all es p) z w)
      × All (λ e. SameSet (unite_all es p) e.0 e.1) es
unite_all-keeps all [] p forest roots joined = (forest, roots, λ z w h. h, tt)
unite_all-keeps all (e ∷ es) p forest roots joined =
    let one = union-Unites p e.0 e.1 forest in
    let rest =
      unite_all-keeps all es (union e.0 e.1 p) one.forest (one.roots all joined.0 roots) joined.1 in
    (rest.0, rest.1, λ z w h. rest.2 z w (one.stays z w h), (rest.2 e.0 e.1 one.linked, rest.3))

-- The unions of a list of edges, from a new map, stand for these edges.
pub unite_all-Represents : (es : List (ℕ × ℕ)) → Represents es (unite_all es [])
unite_all-Represents es =
    let each = All_of_get_elem? (λ e. Joined es e.0 e.1) es (λ i e at. edge i at) in
    let built = unite_all-keeps es es [] empty-IsForest (empty-Roots es) each in
    record { forest = built.0; roots = built.1; linked = built.3 }
