-- ===== src/Ttr/Scoring/Trail/Graph.antt =====
-- `buildTrailGraph`: the edges are the routes of the player that the map has, in order, and the
-- adjacency lists each at its two cities.
use bgex_backend.Base.{
  ==_refl, ◌&&◌, ℕ, zero, suc, ◌≡◌, ◌⊎◌, inl, inr, refl, sym, ◌∙◌, subst, Bool, true, false, none,
  some, List, [], ◌∷◌, ◌++◌, ◌==◌, ◌||◌, length, get_elem?, contains, arith, Bool-cases,
  Option-cases, ==_iff, append_assoc, append-nil,
}
use bgex_backend.Ttr.State.{Map, Route}
use bgex_backend.Ttr.Claim.{route_by_id}
use bgex_backend.Ttr.Scoring.Trail.{TrailEdge, TrailGraph, add_edge, add_edges, build_trail_graph}
use bgex_backend.Ttr.Scoring.Trail.Walks.{IsGraph}

abbrev pub edge_of : Route → TrailEdge
edge_of r = record { a = r.a; b = r.b; length = r.length }

-- The edges of the routes that the map has.
abbrev pub edges_of : Map → List ℕ → List TrailEdge
edges_of m [] = []
edges_of m (rid ∷ rids) =
    elim (route_by_id m rid) [ none ↦ [] | some r ↦ edge_of r ∷ [] ] ++ edges_of m rids

contains-last : (xs : List ℕ) (i j : ℕ) → contains (xs ++ i ∷ []) j ≡ (contains xs j || (i == j))
contains-last [] i j = ground arith
contains-last (x ∷ xs) i j = ground (arith, contains-last xs i j)

or_false : (b : Bool) → b ≡ (b || false)
or_false true = refl
or_false false = refl

or_true : (b : Bool) → (b || true) ≡ true
or_true true = refl
or_true false = refl

or_last : (b c : Bool) → (b || ((c || true) && true)) ≡ true
or_last true c = refl
or_last false true = refl
or_last false false = refl

module _ {ℓ} {A : Type ℓ} where
  get_elem?-left :
      (xs ys : List A) (i : ℕ) {a : A} → get_elem? xs i ≡ some a → get_elem? (xs ++ ys) i ≡ some a
  get_elem?-left [] ys i at = absurd (cc)
  get_elem?-left (x ∷ xs) ys zero at = at
  get_elem?-left (x ∷ xs) ys (suc i) at = get_elem?-left xs ys i at

  get_elem?-last : (xs : List A) (y : A) → get_elem? (xs ++ y ∷ []) (length xs) ≡ some y
  get_elem?-last [] y = refl
  get_elem?-last (x ∷ xs) y = get_elem?-last xs y

  get_elem?-one_more :
      (xs : List A) (y : A) (i : ℕ) (a : A)
      → get_elem? (xs ++ y ∷ []) i ≡ some a
      → (get_elem? xs i ≡ some a) ⊎ ((i ≡ length xs) × (y ≡ a))
  get_elem?-one_more [] y zero a at = inr (refl, (cc))
  get_elem?-one_more [] y (suc i) a at = absurd (cc)
  get_elem?-one_more (x ∷ xs) y zero a at = inl at
  get_elem?-one_more (x ∷ xs) y (suc i) a at = elim (get_elem?-one_more xs y i a at) [
    | inl old ↦ inl old
    | inr new ↦ inr (omega (arith, new.0), new.1)
  ]

-- The list at a city after the two appends of an edge.
listed_after :
    (r : Route) (g : TrailGraph) (v i : ℕ)
    → contains ((add_edge r g).adjacency v) i
      ≡ (contains (g.adjacency v) i || (((v == r.a) || (v == r.b)) && (length g.edges == i)))
unfolding add_edge
listed_after r g v i = elim (Bool-cases (v == r.a)) [
  | inl at_a ↦ elim (Bool-cases (v == r.b)) [
    | inl at_b ↦
        rw (at_a, at_b)
          (ground (
            arith,
            contains-last (g.adjacency v ++ length g.edges ∷ []) (length g.edges) i,
            contains-last (g.adjacency v) (length g.edges) i,
          ))
    | inr off_b ↦ rw (at_a, off_b) (contains-last (g.adjacency v) (length g.edges) i)
  ]
  | inr off_a ↦ elim (Bool-cases (v == r.b)) [
    | inl at_b ↦ rw (off_a, at_b) (contains-last (g.adjacency v) (length g.edges) i)
    | inr off_b ↦ rw (off_a, off_b) (or_false (contains (g.adjacency v) i))
  ]
]

add_edge-edges : (r : Route) (g : TrailGraph) → (add_edge r g).edges ≡ g.edges ++ edge_of r ∷ []
unfolding add_edge
add_edge-edges r g = refl

second_of :
    (x y z w : Bool)
    → (x || ((y || z) && w)) ≡ true
    → x ≡ false
    → ((y ≡ true) ⊎ (z ≡ true)) × (w ≡ true)
second_of x true z w h off = (inl refl, ground (arith, h, off))
second_of x false true w h off = (inr refl, ground (arith, h, off))
second_of x false false w h off = absurd (ground (arith, h, off))

touched :
    (r : Route) (g : TrailGraph) (v i : ℕ)
    → (contains (g.adjacency v) i || (((v == r.a) || (v == r.b)) && (length g.edges == i))) ≡ true
    → contains (g.adjacency v) i ≡ false
    → ((v ≡ r.a) ⊎ (v ≡ r.b)) × (length g.edges ≡ i)
touched r g v i listed new =
    let parts =
      second_of (contains (g.adjacency v) i) (v == r.a) (v == r.b) (length g.edges == i) listed
        new in
    (
      elim parts.0 [ inl a ↦ inl ((==_iff v r.a).0 a) | inr b ↦ inr ((==_iff v r.b).0 b) ],
      (==_iff (length g.edges) i).0 parts.1,
    )

add_edge-IsGraph : (r : Route) (g : TrailGraph) → IsGraph g → IsGraph (add_edge r g)
add_edge-IsGraph r g graph = record {
  sound = λ v i listed. elim (Bool-cases (contains (g.adjacency v) i)) [
    | inl old ↦
        let e = graph.sound v i old in
        (e.0, rw (add_edge-edges r g) (get_elem?-left g.edges (edge_of r ∷ []) i e.1), e.2)
    | inr new ↦
        let both : ((v ≡ r.a) ⊎ (v ≡ r.b)) × (length g.edges ≡ i) =
          touched r g v i (sym (listed_after r g v i) ∙ listed) new in
        (
          edge_of r,
          rw (add_edge-edges r g, sym both.1) (get_elem?-last g.edges (edge_of r)),
          both.0,
        )
  ];
  complete = λ v i e at touches.
      listed_after r g v i
      ∙ elim (get_elem?-one_more g.edges (edge_of r) i e (rw (sym (add_edge-edges r g)) at)) [
        | inl old ↦ rw (graph.complete v i e old touches) refl
        | inr new ↦
            let last : (length g.edges == i) ≡ true = rw new.0 (==_refl (length g.edges)) in
            let ends : (v ≡ r.a) ⊎ (v ≡ r.b) =
              subst (λ x. (v ≡ x.a) ⊎ (v ≡ x.b)) (sym new.1) touches in
            elim ends [
              | inl a ↦ rw (last, (==_iff v r.a).1 a) (or_true (contains (g.adjacency v) i))
              | inr b ↦
                  rw (last, (==_iff v r.b).1 b) (or_last (contains (g.adjacency v) i) (v == r.a))
            ]
      ];
}

add_edges-IsGraph :
    (m : Map) (ids : List ℕ) (g : TrailGraph) → IsGraph g → IsGraph (add_edges m ids g)
unfolding add_edges
add_edges-IsGraph m [] g graph = graph
add_edges-IsGraph m (rid ∷ ids) g graph = elim (Option-cases (route_by_id m rid)) [
  | inl absent ↦ rw (absent, add_edges) (add_edges-IsGraph m ids g graph)
  | inr there ↦
      rw (there.1, add_edges)
        (add_edges-IsGraph m ids (add_edge there.0 g) (add_edge-IsGraph there.0 g graph))
]

add_edges-edges :
    (m : Map) (ids : List ℕ) (g : TrailGraph)
    → (add_edges m ids g).edges ≡ g.edges ++ edges_of m ids
unfolding add_edges
add_edges-edges m [] g = sym (append-nil g.edges)
add_edges-edges m (rid ∷ ids) g = elim (Option-cases (route_by_id m rid)) [
  | inl absent ↦ rw (absent, add_edges) (add_edges-edges m ids g)
  | inr there ↦
      rw (there.1, add_edges)
        (add_edges-edges m ids (add_edge there.0 g)
          ∙ rw (add_edge-edges there.0 g)
              (append_assoc g.edges (edge_of there.0 ∷ []) (edges_of m ids)))
]

pub build_trail_graph-IsGraph : (m : Map) (ids : List ℕ) → IsGraph (build_trail_graph m ids)
unfolding build_trail_graph
build_trail_graph-IsGraph m ids =
    add_edges-IsGraph m ids (record { edges = []; adjacency = λ v. [] })
      (record { sound = λ v i listed. absurd (cc); complete = λ v i e at touches. absurd (cc) })

pub build_trail_graph-edges :
    (m : Map) (ids : List ℕ) → (build_trail_graph m ids).edges ≡ edges_of m ids
unfolding build_trail_graph
build_trail_graph-edges m ids = add_edges-edges m ids (record { edges = []; adjacency = λ v. [] })
