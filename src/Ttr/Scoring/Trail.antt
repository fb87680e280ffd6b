-- ===== src/Ttr/Scoring/Trail.antt =====
-- `longestTrail` of internal/games/ttr/scoring.go: the graph of a player's routes and the memoized
-- search of its trails. The adjacency is the Go map as a function. The recursion has fuel, of which
-- each step takes an edge that is not used yet; `used` and the edges are read in range only.
pub mod Walks
pub mod Search
pub mod Graph
pub mod Memoized
pub mod Longest
use bgex_backend.Base.{
  ℕ, zero, suc, ◌+◌, ◌*◌, ◌%◌, ◌^◌, Bool, true, false, Option, none, some, List, [], ◌∷◌, ◌++◌,
  ◌==◌, ◌&&◌, if◌then◌else◌, ltb, leb, length, get_elem?, set, replicate, contains,
}
use bgex_backend.Ttr.State.{Map, Route}
use bgex_backend.Ttr.Claim.{route_by_id}

-- `trailEdge`
pub record TrailEdge : Type 0 where
  pub a : ℕ
  pub b : ℕ
  pub length : ℕ

pub record TrailGraph : Type 0 where
  pub edges : List TrailEdge
  pub adjacency : ℕ → List ℕ

-- An index appended at a city.
abbrev pub append_at : ℕ → ℕ → (ℕ → List ℕ) → ℕ → List ℕ
append_at city i adjacency v = if v == city then adjacency v ++ i ∷ [] else adjacency v

unfoldable pub add_edge : Route → TrailGraph → TrailGraph
add_edge r g =
    let i = length g.edges in
    record {
      edges = g.edges ++ record { a = r.a; b = r.b; length = r.length } ∷ [];
      adjacency = append_at r.b i (append_at r.a i g.adjacency);
    }

unfoldable pub add_edges : Map → List ℕ → TrailGraph → TrailGraph
unfolding add_edge
add_edges m [] g = g
add_edges m (rid ∷ rids) g = elim (route_by_id m rid) [
  | none ↦ add_edges m rids g
  | some r ↦ add_edges m rids (add_edge r g)
]

-- `buildTrailGraph`
unfoldable pub build_trail_graph : Map → List ℕ → TrailGraph
build_trail_graph m route_ids = add_edges m route_ids (record { edges = []; adjacency = λ v. [] })

-- The entries of the memo: vertex and bitset, and the length.
abbrev pub Memo : Type 0
Memo = List ((ℕ × ℕ) × ℕ)

abbrev pub memo_get : Memo → ℕ → ℕ → Option ℕ
memo_get [] v bits = none
memo_get (e ∷ memo) v bits =
    if (e.0.0 == v) && (e.0.1 == bits) then some e.1 else memo_get memo v bits

-- The bits of the edges that are used, the first edge's lowest.
abbrev pub pack : List Bool → ℕ
pack [] = 0
pack (u ∷ used) = (if u then 1 else 0) + 2 * pack used

-- `bitsetOf`: a bit from the 65th on is shifted out.
abbrev pub bitset_of : List Bool → ℕ
bitset_of used = pack used % 2 ^ 64

-- `useMemo`
abbrev pub use_memo : List TrailEdge → Bool
use_memo edges = ltb 20 (length edges) && leb (length edges) 64

abbrev pub other_end : TrailEdge → ℕ → ℕ
other_end e v = if v == e.b then e.a else e.b

-- `used[eIdx]`
abbrev pub is_used : List Bool → ℕ → Bool
is_used [] i = true
is_used (u ∷ used) zero = u
is_used (u ∷ used) (suc i) = is_used used i

-- The body of the loop over the edges at a vertex; the state is `best` and the memo.
unfoldable pub take_edge :
    (ℕ → List Bool → Memo → ℕ × Memo) → List TrailEdge → ℕ → List Bool → ℕ → ℕ × Memo → ℕ × Memo
take_edge go edges v used i s = if is_used used i then s else (elim (get_elem? edges i) [
  | none ↦ s
  | some e ↦
      let further = go (other_end e v) (set used i true) s.1 in
      let cand = e.length + further.0 in (if ltb s.0 cand then cand else s.0, further.1)
])

unfoldable pub take_edges :
    (ℕ → List Bool → Memo → ℕ × Memo)
    → List TrailEdge
    → ℕ
    → List Bool
    → List ℕ
    → ℕ × Memo
    → ℕ × Memo
take_edges go edges v used [] s = s
take_edges go edges v used (i ∷ is) s =
    take_edges go edges v used is (take_edge go edges v used i s)

-- `dfs`
unfoldable pub dfs : ℕ → TrailGraph → ℕ → List Bool → Memo → ℕ × Memo
dfs zero g v used memo = (0, memo)
dfs (suc fuel) g v used memo =
    elim (if use_memo g.edges then memo_get memo v (bitset_of used) else none) [
      | some n ↦ (n, memo)
      | none ↦
          let found = take_edges (dfs fuel g) g.edges v used (g.adjacency v) (0, memo) in
          if use_memo g.edges then (found.0, ((v, bitset_of used), found.0) ∷ found.1) else found
    ]

-- The loops of `longestTrail`; the state is `seen`, `best` and the memo.
pub record Starts : Type 0 where
  pub seen : List ℕ
  pub best : ℕ
  pub memo : Memo

unfoldable pub start_at : TrailGraph → ℕ → Starts → Starts
start_at g v s =
    let edges = length g.edges in
    let found = dfs (suc edges) g v (replicate edges false) s.memo in
    if contains s.seen v then s else (record {
      seen = v ∷ s.seen;
      best = if ltb s.best found.0 then found.0 else s.best;
      memo = found.1;
    })

unfoldable pub start_all : TrailGraph → List TrailEdge → Starts → Starts
start_all g [] s = s
start_all g (e ∷ es) s = start_all g es (start_at g e.b (start_at g e.a s))

-- `longestTrail`
unfoldable pub longest_trail : Map → List ℕ → ℕ
longest_trail m route_ids =
    let g = build_trail_graph m route_ids in
    (start_all g g.edges (record { seen = []; best = 0; memo = [] })).best
