-- ===== src/Ttr/Scoring/Ranks.antt =====
-- `rankable` and `assignRanks` of internal/games/ttr/scoring.go. The writes through the pointers in
-- `results` are writes at an index, which FinalScore keeps in range.
pub mod Order
pub mod Numbered
pub mod Shared
pub mod Competition
use bgex_backend.Base.{
  ℕ, zero, suc, Bool, true, false, not, ◌&&◌, Option, none, some, List, [], ◌∷◌, ◌==◌,
  if◌then◌else◌, keep, length, ltb, get_elem?, sort_by,
}
use bgex_backend.Base.Int.{ℤ, eq_ℤ, less_ℤ}
use bgex_backend.Ttr.State.{ScoreBreakdown}

-- `rankable`
pub record Rankable : Type 0 where
  pub idx : ℕ
  pub total : ℤ
  pub completed : ℕ
  pub built_stations : ℕ
  pub has_longest : Bool

abbrev pub eq_Bool : Bool → Bool → Bool
eq_Bool true b = b
eq_Bool false b = not b

-- `rankLess`
unfoldable pub rank_less : Rankable → Rankable → Bool
rank_less a b =
    if not (eq_ℤ a.total b.total)
    then less_ℤ b.total a.total
    else if not (a.completed == b.completed)
    then ltb b.completed a.completed
    else if not (a.built_stations == b.built_stations)
    then ltb a.built_stations b.built_stations
    else if not (eq_Bool a.has_longest b.has_longest)
    then a.has_longest
    else false

-- `rankTie`
unfoldable pub rank_tie : Rankable → Rankable → Bool
rank_tie a b =
    eq_ℤ a.total b.total
    && (a.completed == b.completed)
    && (a.built_stations == b.built_stations)
    && eq_Bool a.has_longest b.has_longest

-- A write through the pointer at an index.
unfoldable pub modify_at :
    ℕ → (ScoreBreakdown → ScoreBreakdown) → List ScoreBreakdown → List ScoreBreakdown
modify_at i f [] = []
modify_at zero f (sb ∷ results) = f sb ∷ results
modify_at (suc i) f (sb ∷ results) = sb ∷ modify_at i f results

abbrev pub rank_of : Option ScoreBreakdown → ℕ
rank_of none = 0
rank_of (some sb) = sb.rank

abbrev pub rank_at : List ScoreBreakdown → ℕ → ℕ
rank_at results i = rank_of (get_elem? results i)

abbrev pub set_rank : ℕ → ScoreBreakdown → ScoreBreakdown
set_rank n sb = record sb { rank = n }

abbrev pub set_shared : ScoreBreakdown → ScoreBreakdown
set_shared sb = record sb { shared_victory = true }

-- The rank of the entry at position `i` of the sorted list, after the entry before it.
unfoldable pub next_rank : ℕ → Option Rankable → Rankable → List ScoreBreakdown → ℕ
next_rank i none r results = suc i
next_rank i (some prev) r results = if rank_tie prev r then rank_at results prev.idx else suc i

-- The first loop of `assignRanks`.
unfoldable pub number_ranks :
    ℕ → Option Rankable → List Rankable → List ScoreBreakdown → List ScoreBreakdown
number_ranks i prev [] results = results
number_ranks i prev (r ∷ ranked) results =
    number_ranks (suc i) (some r) ranked
      (modify_at r.idx (set_rank (next_rank i prev r results)) results)

abbrev pub is_first : List ScoreBreakdown → Rankable → Bool
is_first results r = rank_at results r.idx == 1

-- The last loop.
unfoldable pub share_all : List Rankable → List ScoreBreakdown → List ScoreBreakdown
share_all [] results = results
share_all (r ∷ firsts) results = share_all firsts (modify_at r.idx set_shared results)

-- `assignRanks`
unfoldable pub assign_ranks : List ScoreBreakdown → List Rankable → List ScoreBreakdown
assign_ranks results ranked =
    let sorted = sort_by rank_less ranked in
    let numbered = number_ranks 0 none sorted results in
    let first_place = keep (is_first numbered) sorted in
    if ltb 1 (length first_place) then share_all first_place numbered else numbered
