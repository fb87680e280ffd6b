-- ===== src/Ttr/Scoring/UnionFind.antt =====
-- `unionFind` of internal/games/ttr/scoring.go. `parent` is the Go map as an association list, which
-- `find` both reads and compresses; its recursion has as fuel the number of entries that are not
-- roots, which bounds the height of the forest (see `Forest`).
pub mod Forest
pub mod Roots
pub mod Joined
pub mod Connected
use bgex_backend.Base.{
  ℕ, zero, suc, Bool, Option, none, some, List, [], ◌∷◌, ◌==◌, if◌then◌else◌, keep, not, length,
}
use bgex_backend.Ttr.State.{lookup, set_entry}

abbrev pub is_child : ℕ × ℕ → Bool
is_child e = not (e.0 == e.1)

abbrev pub children : List (ℕ × ℕ) → ℕ
children parent = length (keep is_child parent)

-- The recursion of `find`: the map after it, and the representative.
unfoldable pub find_from : ℕ → ℕ → List (ℕ × ℕ) → List (ℕ × ℕ) × ℕ
unfolding set_entry
find_from zero x parent = (parent, x)
find_from (suc fuel) x parent = elim (lookup parent x) [
  | none ↦ (set_entry x x parent, x)
  | some y ↦
      if y == x
      then (parent, x)
      else (let root = find_from fuel y parent in (set_entry x root.1 root.0, root.1))
]

-- `find`
unfoldable pub find : ℕ → List (ℕ × ℕ) → List (ℕ × ℕ) × ℕ
find x parent = find_from (suc (children parent)) x parent

-- `union`
unfoldable pub union : ℕ → ℕ → List (ℕ × ℕ) → List (ℕ × ℕ)
unfolding set_entry
union a b parent =
    let ra = find a parent in
    let rb = find b ra.0 in if ra.1 == rb.1 then rb.0 else set_entry ra.1 rb.1 rb.0

-- `connected`
unfoldable pub connected : ℕ → ℕ → List (ℕ × ℕ) → List (ℕ × ℕ) × Bool
connected a b parent = let ra = find a parent in let rb = find b ra.0 in (rb.0, ra.1 == rb.1)

-- The unions of a list of edges, one after the other.
abbrev pub unite_all : List (ℕ × ℕ) → List (ℕ × ℕ) → List (ℕ × ℕ)
unite_all [] parent = parent
unite_all (e ∷ es) parent = unite_all es (union e.0 e.1 parent)
