-- ===== src/Ttr/Scoring/Trail/Longest.antt =====
-- `longestTrail` gives the length of the longest trail over the player's routes.
use bgex_backend.Base.{
  get_elem?-All, ltb, ==_refl, max, some, ℕ, zero, suc, ◌≤◌, ◌≡◌, inl, inr, refl, sym, ap, subst,
  true, false, List, [], ◌∷◌, ◌==◌, if◌then◌else◌, length, get_elem?, contains, replicate, All,
  arith, Bool-cases, ==_iff,
}
use bgex_backend.Ttr.State.{Map}
use bgex_backend.Ttr.Scoring.Trail.{
  TrailEdge, TrailGraph, Memo, is_used, dfs, Starts, start_at, start_all, longest_trail,
  build_trail_graph,
}
use bgex_backend.Ttr.Scoring.Trail.Walks.{IsTrail, here, step, IsGraph, longest_from, unused}
use bgex_backend.Ttr.Scoring.Trail.Search.{longest_from-bounds, longest_from-attains}
use bgex_backend.Ttr.Scoring.Trail.Graph.{
  edges_of, build_trail_graph-IsGraph, build_trail_graph-edges,
}
use bgex_backend.Ttr.Scoring.Trail.Memoized.{IsMemo, dfs-Agrees}

unused-replicate : (n : ℕ) → unused (replicate n false) ≡ n
unused-replicate zero = refl
unused-replicate (suc n) = omega (arith, unused-replicate n)

length-replicate : (n : ℕ) → length (replicate n false) ≡ n
length-replicate zero = refl
length-replicate (suc n) = ap suc (length-replicate n)

is_used-replicate :
    {A : Type 0} (xs : List A) (i : ℕ) {a : A}
    → get_elem? xs i ≡ some a
    → is_used (replicate (length xs) false) i ≡ false
is_used-replicate [] i at = absurd (cc)
is_used-replicate (x ∷ xs) zero at = refl
is_used-replicate (x ∷ xs) (suc i) at = is_used-replicate xs i at

-- All edges of a trail are free before the search.
trail_free :
    {edges : List TrailEdge} {v n : ℕ} {path : List ℕ}
    → IsTrail edges v path n
    → All (λ i. is_used (replicate (length edges) false) i ≡ false) path
trail_free here = tt
trail_free {edges} (step i e at joins apart rest) = (is_used-replicate edges i at, trail_free rest)

module _ (g : TrailGraph) (graph : IsGraph g) where
  -- The length of the longest trail from a city.
  abbrev reach : ℕ → ℕ
  reach v = longest_from (suc (length g.edges)) g v (replicate (length g.edges) false)

  -- What holds between the starts: `best` is attained, and covers the cities seen.
  record Covers (s : Starts) : Type 0 where
    memo : IsMemo g s.memo
    attained : (v : ℕ) × (path : List ℕ) × IsTrail g.edges v path s.best
    covered : (v : ℕ) → contains s.seen v ≡ true → reach v ≤ s.best

  -- A city that was not seen yet.
  abbrev searched : ℕ → Starts → ℕ × Memo
  searched v s = dfs (suc (length g.edges)) g v (replicate (length g.edges) false) s.memo

  abbrev started : ℕ → Starts → Starts
  started v s = record {
    seen = v ∷ s.seen;
    best = if ltb s.best (searched v s).0 then (searched v s).0 else s.best;
    memo = (searched v s).1;
  }

  start_at-known : (v : ℕ) (s : Starts) → contains s.seen v ≡ true → start_at g v s ≡ s
  unfolding start_at
  start_at-known v s known = ground (arith, known)

  start_at-new : (v : ℕ) (s : Starts) → contains s.seen v ≡ false → start_at g v s ≡ started v s
  unfolding start_at
  start_at-new v s new = ground (arith, new)

  started-Covers : (v : ℕ) (s : Starts) → Covers s → Covers (started v s)
  started-Covers v s h =
      let n = length g.edges in
      let found =
        dfs-Agrees g (suc n) v (replicate n false) s.memo (ap suc (sym (unused-replicate n)))
          (length-replicate n) h.memo in
      let trail = longest_from-attains g graph (suc n) v (replicate n false) in
      let top : (started v s).best ≡ max s.best (reach v) = ground (arith, found.0) in
      record {
        memo = found.1;
        attained = elim (Bool-cases (ltb s.best (searched v s).0)) [
          | inl more ↦ rw more (v, trail.0, rw found.0 trail.1)
          | inr less ↦ rw less h.attained
        ];
        covered = λ w seen. elim (Bool-cases (v == w)) [
          | inl here_now ↦
              let is_w : v ≡ w = (==_iff v w).0 here_now in
              subst (λ x. reach x ≤ (started v s).best) is_w (omega (arith, top))
          | inr before ↦
              let old = h.covered w (ground (arith, seen, before)) in omega (arith, top, old)
        ];
      }

  start_at-Covers : (v : ℕ) (s : Starts) → Covers s → Covers (start_at g v s)
  start_at-Covers v s h = elim (Bool-cases (contains s.seen v)) [
    | inl known ↦ subst Covers (sym (start_at-known v s known)) h
    | inr new ↦ subst Covers (sym (start_at-new v s new)) (started-Covers v s h)
  ]

  -- A start marks its city, and leaves the marks before it.
  start_at-seen :
      (v : ℕ) (s : Starts)
      → (contains (start_at g v s).seen v ≡ true)
        × ((w : ℕ) → contains s.seen w ≡ true → contains (start_at g v s).seen w ≡ true)
  start_at-seen v s = elim (Bool-cases (contains s.seen v)) [
    | inl known ↦ rw (start_at-known v s known) (known, λ w h. h)
    | inr new ↦ rw (start_at-new v s new) (ground (arith, ==_refl v), λ w h. ground (arith, h))
  ]

  start_all-Covers :
      (es : List TrailEdge) (s : Starts)
      → Covers s
      → Covers (start_all g es s)
        × ((w : ℕ) → contains s.seen w ≡ true → contains (start_all g es s).seen w ≡ true)
        × All
            (λ e.
              (contains (start_all g es s).seen e.a ≡ true)
              × (contains (start_all g es s).seen e.b ≡ true))
            es
  unfolding start_all
  start_all-Covers [] s h = (h, λ w seen. seen, tt)
  start_all-Covers (e ∷ es) s h =
      let one = start_at g e.a s in
      let two = start_at g e.b one in
      let rest = start_all-Covers es two (start_at-Covers e.b one (start_at-Covers e.a s h)) in
      let first = start_at-seen e.a s in
      let second = start_at-seen e.b one in
      (
        rest.0,
        λ w seen. rest.1 w (second.1 w (first.1 w seen)),
        ((rest.1 e.a (second.1 e.a first.0), rest.1 e.b second.0), rest.2),
      )

  no_starts : Covers (record { seen = []; best = 0; memo = [] })
  no_starts = record { memo = tt; attained = (0, [], here); covered = λ v seen. absurd (cc) }

  -- The best of all starts is as long as any trail.
  start_all-bounds :
      {v n : ℕ} {path : List ℕ}
      → IsTrail g.edges v path n
      → n ≤ (start_all g g.edges (record { seen = []; best = 0; memo = [] })).best
  start_all-bounds here = omega arith
  start_all-bounds {v} (step {n = n} i e at joins apart rest) =
      let trail = step i e at joins apart rest in
      let all = start_all-Covers g.edges (record { seen = []; best = 0; memo = [] }) no_starts in
      let ends = get_elem?-All _ g.edges i all.2 at in
      let seen : contains (start_all g g.edges (record { seen = []; best = 0; memo = [] })).seen v
          ≡ true =
        elim joins [ inl a ↦ rw a.0 ends.0 | inr b ↦ rw b.0 ends.1 ] in
      let free = trail_free trail in
      let bound =
        longest_from-bounds g graph (suc (length g.edges)) (replicate (length g.edges) false) trail
          free (omega (arith, unused-replicate (length g.edges))) in
      omega (arith, bound, all.0.covered v seen)

-- The length of the longest trail over the routes: some trail has it, and none is longer.
pub record IsLongest (edges : List TrailEdge) (n : ℕ) : Type 0 where
  pub start : ℕ
  pub path : List ℕ
  pub attained : IsTrail edges start path n
  pub longest : (v k : ℕ) (walk : List ℕ) → IsTrail edges v walk k → k ≤ n

-- The length that the memoized search finds is that of a trail over the routes on the map, each
-- walked at most once, and no trail is longer.
pub longest_trail-IsLongest :
    (m : Map) (route_ids : List ℕ) → IsLongest (edges_of m route_ids) (longest_trail m route_ids)
unfolding longest_trail
longest_trail-IsLongest m route_ids =
    let g = build_trail_graph m route_ids in
    let graph = build_trail_graph-IsGraph m route_ids in
    let all =
      start_all-Covers g graph g.edges (record { seen = []; best = 0; memo = [] })
        (no_starts g graph) in
    subst (λ es. IsLongest es (longest_trail m route_ids)) (build_trail_graph-edges m route_ids)
      (record {
        start = all.0.attained.0;
        path = all.0.attained.1;
        attained = all.0.attained.2;
        longest = λ v k walk trail. start_all-bounds g graph trail;
      })
