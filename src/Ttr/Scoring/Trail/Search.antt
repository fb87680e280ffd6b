-- ===== src/Ttr/Scoring/Trail/Search.antt =====
-- The search without the memo finds the longest trail over the free edges.
use bgex_backend.Base.{
  ◌∙◌, leb, ℕ, zero, suc, ◌+◌, ◌≤◌, ◌<◌, ◌≡◌, ◌⊎◌, inl, inr, sym, subst, Bool, true, false, some,
  List, [], ◌∷◌, ◌==◌, get_elem?, set, contains, All, All-map_of, arith, Bool-cases, Option-cases,
  ==_iff,
}
use bgex_backend.Ttr.Scoring.Trail.{TrailEdge, TrailGraph, other_end, is_used}
use bgex_backend.Ttr.Scoring.Trail.Walks.{
  IsTrail, here, step, best_edge, best_edges, longest_from, IsGraph, unused, unused-set,
  is_used-set, Joins-other_end, other_end-Joins, Joins-touches, free_after, some_eq,
}

-- The loop over the edges at a city.
module _ (go : ℕ → List Bool → ℕ) (edges : List TrailEdge) (v : ℕ) (used : List Bool) where
  best_edge-le : (i best : ℕ) → best ≤ best_edge go edges v used i best
  unfolding best_edge
  best_edge-le i best = elim (Bool-cases (is_used used i)) [
    | inl taken ↦ ground (arith, taken)
    | inr free ↦ elim (Option-cases (get_elem? edges i)) [
      | inl absent ↦ ground (arith, free, absent)
      | inr there ↦ ground (arith, free, there.1)
    ]
  ]

  best_edge-reaches :
      (i best : ℕ) (e : TrailEdge)
      → is_used used i ≡ false
      → get_elem? edges i ≡ some e
      → e.length + go (other_end e v) (set used i true) ≤ best_edge go edges v used i best
  unfolding best_edge
  best_edge-reaches i best e free at = ground (arith, free, at)

  best_edges-le : (is : List ℕ) (best : ℕ) → best ≤ best_edges go edges v used is best
  unfolding best_edges
  best_edges-le [] best = omega arith
  best_edges-le (i ∷ is) best =
      omega (arith, best_edge-le i best, best_edges-le is (best_edge go edges v used i best))

  best_edges-reaches :
      (is : List ℕ) (best i : ℕ) (e : TrailEdge)
      → contains is i ≡ true
      → is_used used i ≡ false
      → get_elem? edges i ≡ some e
      → e.length + go (other_end e v) (set used i true) ≤ best_edges go edges v used is best
  unfolding best_edges
  best_edges-reaches [] best i e listed free at = absurd (cc)
  best_edges-reaches (j ∷ is) best i e listed free at = elim (Bool-cases (j == i)) [
    | inl met ↦
        let found : j ≡ i = (==_iff j i).0 met in
        rw found (
          omega (
            arith,
            best_edge-reaches i best e free at,
            best_edges-le is (best_edge go edges v used i best),
          ))
    | inr other ↦
        best_edges-reaches is (best_edge go edges v used j best) i e (ground (arith, listed, other))
          free at
  ]

  best_edge-Holds :
      (P : ℕ → Type 0) (i best : ℕ)
      → ((e : TrailEdge)
          → is_used used i ≡ false
          → get_elem? edges i ≡ some e
          → P (e.length + go (other_end e v) (set used i true)))
      → P best
      → P (best_edge go edges v used i best)
  unfolding best_edge
  best_edge-Holds P i best each h = elim (Bool-cases (is_used used i)) [
    | inl taken ↦ subst P (ground (arith, taken)) h
    | inr free ↦ elim (Option-cases (get_elem? edges i)) [
      | inl absent ↦ subst P (ground (arith, free, absent)) h
      | inr there ↦
          let e : TrailEdge = there.0 in
          let cand : ℕ = e.length + go (other_end e v) (set used i true) in
          elim (Bool-cases (leb best cand)) [
            | inl more ↦ subst P (ground (arith, free, there.1, more)) (each e free there.1)
            | inr less ↦ subst P (ground (arith, free, there.1, less)) h
          ]
    ]
  ]

  best_edges-Holds :
      (P : ℕ → Type 0) (is : List ℕ) (best : ℕ)
      → ((i : ℕ) (e : TrailEdge)
          → contains is i ≡ true
          → is_used used i ≡ false
          → get_elem? edges i ≡ some e
          → P (e.length + go (other_end e v) (set used i true)))
      → P best
      → P (best_edges go edges v used is best)
  unfolding best_edges
  best_edges-Holds P [] best each h = h
  best_edges-Holds P (i ∷ is) best each h =
      best_edges-Holds P is _ (λ j e listed. each j e (ground (arith, listed)))
        (best_edge-Holds P i best (λ e. each i e (ground arith)) h)

module _ (g : TrailGraph) (graph : IsGraph g) where
  -- No trail over free edges is longer than what the search finds.
  pub longest_from-bounds :
      (fuel : ℕ) {v n : ℕ} {path : List ℕ} (used : List Bool)
      → IsTrail g.edges v path n
      → All (λ i. is_used used i ≡ false) path
      → unused used < fuel
      → n ≤ longest_from fuel g v used
  unfolding longest_from
  longest_from-bounds zero used trail free enough = absurd (omega arith)
  longest_from-bounds (suc fuel) used here free enough = omega arith
  longest_from-bounds (suc fuel) {v} used
        (step {w = w} {n = n} {path = path} i e at joins apart rest) free enough =
      let end : other_end e v ≡ w = Joins-other_end e v w joins in
      let still = free_after used i path apart free.1 in
      let further : n ≤ longest_from fuel g w (set used i true) =
        longest_from-bounds fuel (set used i true) rest still
          (omega (arith, unused-set used i free.0, enough)) in
      let listed = graph.complete v i e at (Joins-touches e v w joins) in
      let reached =
        best_edges-reaches (longest_from fuel g) g.edges v used (g.adjacency v) 0 i e listed free.0
          at in
      omega (
        arith,
        further,
        subst
            (λ x.
              e.length + longest_from fuel g x (set used i true) ≤ longest_from (suc fuel) g v used)
            end reached,
      )

  -- What the search finds is the length of a trail over free edges.
  pub longest_from-attains :
      (fuel v : ℕ) (used : List Bool)
      → (path : List ℕ) × IsTrail g.edges v path (longest_from fuel g v used)
        × All (λ i. is_used used i ≡ false) path
  unfolding longest_from
  longest_from-attains zero v used = ([], here, tt)
  longest_from-attains (suc fuel) v used =
      best_edges-Holds (longest_from fuel g) g.edges v used
        (λ n. (path : List ℕ) × IsTrail g.edges v path n × All (λ i. is_used used i ≡ false) path)
        (g.adjacency v) 0
        (λ i e listed free at.
          (let rest = longest_from-attains fuel (other_end e v) (set used i true) in
            let parts = All-map_of _ _ (λ j h. is_used-set used i j h) rest.0 rest.2 in
            let ends = graph.sound v i listed in
            let found : ends.0 ≡ e = some_eq ends.0 e (sym ends.1 ∙ at) in
            let touches : (v ≡ e.a) ⊎ (v ≡ e.b) = subst (λ x. (v ≡ x.a) ⊎ (v ≡ x.b)) found ends.2 in
            (
              i ∷ rest.0,
              step i e at (other_end-Joins e v touches) (All-map_of _ _ (λ j h. h.0) rest.0 parts)
                  rest.1,
              (free, All-map_of _ _ (λ j h. h.1) rest.0 parts),
            )))
        ([], here, tt)
