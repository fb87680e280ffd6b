-- ===== src/Ttr/Scoring/Stations/Links.antt =====
-- The unions of `evaluateAssignment` are those of a list of links: the player's own routes, then the
-- borrowed ones.
use bgex_backend.Base.{
  if◌then◌else◌, ◌==◌, ℕ, ◌≡◌, refl, none, some, List, [], ◌∷◌, ◌++◌, sym, Bool-cases, inl, inr,
  Option-cases, append_assoc,
}
use bgex_backend.Ttr.State.{Map, Player}
use bgex_backend.Ttr.Claim.{route_by_id}
use bgex_backend.Ttr.Scoring.UnionFind.{unite_all}
use bgex_backend.Ttr.Scoring.Stations.{
  StationOption, unite_claimed, borrow, borrow_all, Borrowing, no_borrow,
}

-- The pairs of cities that a list of route ids links.
abbrev pub links : Map → List ℕ → List (ℕ × ℕ)
links m [] = []
links m (rid ∷ rids) =
    elim (route_by_id m rid) [ none ↦ [] | some r ↦ (r.a, r.b) ∷ [] ] ++ links m rids

-- The ids of the routes that a choice borrows.
abbrev pub borrowed_ids : List StationOption → List ℕ
borrowed_ids [] = []
borrowed_ids (opt ∷ combo) =
    (if opt.route_id == no_borrow then [] else opt.route_id ∷ []) ++ borrowed_ids combo

-- The links of a player under a choice.
abbrev pub links_under : Map → Player → List StationOption → List (ℕ × ℕ)
links_under m p combo = links m p.claimed_route_ids ++ links m (borrowed_ids combo)

pub unite_claimed-links :
    (m : Map) (ids : List ℕ) (parent : List (ℕ × ℕ))
    → unite_claimed m ids parent ≡ unite_all (links m ids) parent
unfolding unite_claimed
unite_claimed-links m [] parent = refl
unite_claimed-links m (rid ∷ rids) parent = elim (Option-cases (route_by_id m rid)) [
  | inl absent ↦ rw (absent, unite_claimed) (unite_claimed-links m rids parent)
  | inr there ↦ rw (there.1, unite_claimed) (unite_claimed-links m rids _)
]

pub unite_all-append :
    (es more : List (ℕ × ℕ)) (parent : List (ℕ × ℕ))
    → unite_all (es ++ more) parent ≡ unite_all more (unite_all es parent)
unite_all-append [] more parent = refl
unite_all-append (e ∷ es) more parent = unite_all-append es more _

borrow-links :
    (m : Map) (opt : StationOption) (s : Borrowing)
    → (borrow m opt s).parent
      ≡ unite_all (links m (if opt.route_id == no_borrow then [] else opt.route_id ∷ [])) s.parent
unfolding borrow
borrow-links m opt s = elim (Bool-cases (opt.route_id == no_borrow)) [
  | inl idle ↦ rw idle refl
  | inr borrows ↦ elim (Option-cases (route_by_id m opt.route_id)) [
    | inl absent ↦ rw (borrows, absent) refl
    | inr there ↦ rw (borrows, there.1) refl
  ]
]

links-append : (m : Map) (ids more : List ℕ) → links m (ids ++ more) ≡ links m ids ++ links m more
links-append m [] more = refl
links-append m (rid ∷ ids) more =
    rw (links-append m ids more) (sym (append_assoc _ (links m ids) (links m more)))

pub borrow_all-links :
    (m : Map) (combo : List StationOption) (s : Borrowing)
    → (borrow_all m combo s).parent ≡ unite_all (links m (borrowed_ids combo)) s.parent
unfolding borrow_all
borrow_all-links m [] s = refl
borrow_all-links m (opt ∷ combo) s =
    rw
      (
        links-append m (if opt.route_id == no_borrow then [] else opt.route_id ∷ [])
            (borrowed_ids combo),
        unite_all-append (links m (if opt.route_id == no_borrow then [] else opt.route_id ∷ []))
            (links m (borrowed_ids combo)) s.parent,
        sym (borrow-links m opt s),
      )
      (borrow_all-links m combo (borrow m opt s))
