-- ===== src/Ttr/Scoring/Trail/Walks.antt =====
-- Trails as an inductive relation, and a search without the memo, which finds the longest: the
-- search of scoring.go is compared with it.
use bgex_backend.Base.{
  ◌∙◌, ℕ, zero, suc, ◌+◌, ◌≡◌, ◌≢◌, ◌⊎◌, inl, inr, refl, Bool, true, false, none, some, List, [],
  ◌∷◌, ◌==◌, if◌then◌else◌, get_elem?, set, contains, max, All, arith, Bool-cases, ==_iff,
}
use bgex_backend.Ttr.Scoring.Trail.{TrailEdge, TrailGraph, other_end, is_used}

abbrev pub Joins : TrailEdge → ℕ → ℕ → Type 0
Joins e v w = ((v ≡ e.a) × (w ≡ e.b)) ⊎ ((v ≡ e.b) × (w ≡ e.a))

-- The trails from a city: the edges walked, each once, and their length.
pub data IsTrail (edges : List TrailEdge) : ℕ → List ℕ → ℕ → Type 0 where
  here : {v : ℕ} → IsTrail edges v [] 0
  step :
      {v w n : ℕ} {path : List ℕ} (i : ℕ) (e : TrailEdge)
      → get_elem? edges i ≡ some e
      → Joins e v w
      → All (λ j. j ≢ i) path
      → IsTrail edges w path n
      → IsTrail edges v (i ∷ path) (e.length + n)

-- The search of `dfs` without the memo.
unfoldable pub best_edge : (ℕ → List Bool → ℕ) → List TrailEdge → ℕ → List Bool → ℕ → ℕ → ℕ
best_edge go edges v used i best = if is_used used i then best else (elim (get_elem? edges i) [
  | none ↦ best
  | some e ↦ max best (e.length + go (other_end e v) (set used i true))
])

unfoldable pub best_edges : (ℕ → List Bool → ℕ) → List TrailEdge → ℕ → List Bool → List ℕ → ℕ → ℕ
best_edges go edges v used [] best = best
best_edges go edges v used (i ∷ is) best =
    best_edges go edges v used is (best_edge go edges v used i best)

unfoldable pub longest_from : ℕ → TrailGraph → ℕ → List Bool → ℕ
longest_from zero g v used = 0
longest_from (suc fuel) g v used = best_edges (longest_from fuel g) g.edges v used (g.adjacency v) 0

-- The adjacency lists each edge at its two ends, and nothing else.
pub record IsGraph (g : TrailGraph) : Type 0 where
  pub sound :
      (v i : ℕ)
      → contains (g.adjacency v) i ≡ true
      → (e : TrailEdge) × (get_elem? g.edges i ≡ some e) × ((v ≡ e.a) ⊎ (v ≡ e.b))
  pub complete :
      (v i : ℕ) (e : TrailEdge)
      → get_elem? g.edges i ≡ some e
      → (v ≡ e.a) ⊎ (v ≡ e.b)
      → contains (g.adjacency v) i ≡ true

-- How many edges are not used.
abbrev pub unused : List Bool → ℕ
unused [] = 0
unused (u ∷ used) = (if u then 0 else 1) + unused used

pub unused-set :
    (used : List Bool) (i : ℕ)
    → is_used used i ≡ false
    → suc (unused (set used i true)) ≡ unused used
unused-set [] i free = absurd (cc)
unused-set (u ∷ used) zero free = ground (arith, free)
unused-set (u ∷ used) (suc i) free = omega (arith, unused-set used i free)

is_used-set_other :
    (used : List Bool) (i j : ℕ) → j ≢ i → is_used (set used i true) j ≡ is_used used j
is_used-set_other [] i j apart = refl
is_used-set_other (u ∷ used) zero zero apart = absurd (apart refl)
is_used-set_other (u ∷ used) zero (suc j) apart = refl
is_used-set_other (u ∷ used) (suc i) zero apart = refl
is_used-set_other (u ∷ used) (suc i) (suc j) apart =
    is_used-set_other used i j (λ same. apart (omega (arith, same)))

-- An edge that is free after the write was free before, and is another one.
pub is_used-set :
    (used : List Bool) (i j : ℕ)
    → is_used (set used i true) j ≡ false
    → (j ≢ i) × (is_used used j ≡ false)
is_used-set [] i j free = absurd (cc)
is_used-set (u ∷ used) zero zero free = absurd (cc)
is_used-set (u ∷ used) zero (suc j) free = (omega arith, free)
is_used-set (u ∷ used) (suc i) zero free = (omega arith, free)
is_used-set (u ∷ used) (suc i) (suc j) free =
    let rest = is_used-set used i j free in (λ same. rest.0 (omega (arith, same)), rest.1)

pub Joins-other_end : (e : TrailEdge) (v w : ℕ) → Joins e v w → other_end e v ≡ w
Joins-other_end e v w joins = ground arith

pub other_end-Joins : (e : TrailEdge) (v : ℕ) → (v ≡ e.a) ⊎ (v ≡ e.b) → Joins e v (other_end e v)
other_end-Joins e v (inl at) = elim (Bool-cases (v == e.b)) [
  | inl met ↦ inr ((==_iff v e.b).0 met, rw met refl)
  | inr other ↦ inl (at, rw other refl)
]
other_end-Joins e v (inr at) = inr (at, ground arith)

pub Joins-touches : (e : TrailEdge) (v w : ℕ) → Joins e v w → (v ≡ e.a) ⊎ (v ≡ e.b)
Joins-touches e v w (inl joins) = inl joins.0
Joins-touches e v w (inr joins) = inr joins.0

pub free_after :
    (used : List Bool) (i : ℕ) (path : List ℕ)
    → All (λ j. j ≢ i) path
    → All (λ j. is_used used j ≡ false) path
    → All (λ j. is_used (set used i true) j ≡ false) path
free_after used i [] apart free = tt
free_after used i (j ∷ path) apart free =
    (is_used-set_other used i j apart.0 ∙ free.0, free_after used i path apart.1 free.1)

pub some_eq : (d e : TrailEdge) → some d ≡ some e → d ≡ e
some_eq d e same = cc
