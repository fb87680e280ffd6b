-- ===== src/Ttr/Scoring/Success.antt =====
-- When `FinalScore` fails: it succeeds where every claimed route is on the map, with a length that
-- has points.
use bgex_backend.Base.{
  >>=-ok, ℕ, suc, ◌+◌, ◌≡◌, refl, some, List, [], ◌∷◌, All, Bool-cases, inl, inr, ok,
}
use bgex_backend.Ttr.State.{Map, Route, GameState, Player, ScoreBreakdown}
use bgex_backend.Ttr.Colors.{points_for_length}
use bgex_backend.Ttr.Claim.{route_by_id}
use bgex_backend.Ttr.Scoring.{
  Longest, longest_of, sum_route_points, build_breakdown, breakdown_of, score_players, final_score,
}
use bgex_backend.Ttr.Scoring.Final.{left_branch, stay_branch, no_players}
use bgex_backend.Ttr.Scoring.Ranks.{Rankable}

-- A route of the map whose length has points.
abbrev pub IsScorable : Map → ℕ → Type 0
IsScorable m rid =
    (r : Route) × (pts : ℕ) × (route_by_id m rid ≡ some r) × (points_for_length r.length ≡ ok pts)

abbrev pub HasScorable : Map → Player → Type 0
HasScorable m p = All (IsScorable m) p.claimed_route_ids

sum_route_points-ok :
    (m : Map) (ids : List ℕ) (total : ℕ)
    → All (IsScorable m) ids
    → (n : ℕ) × (sum_route_points m ids total ≡ ok n)
unfolding sum_route_points
sum_route_points-ok m [] total h = (total, refl)
sum_route_points-ok m (rid ∷ ids) total h =
    let rest = sum_route_points-ok m ids (total + h.0.1) h.1 in
    (rest.0, rw (h.0.2, h.0.3, sum_route_points) rest.1)

breakdown_of-ok :
    (m : Map) (gs : GameState) (l : Longest) (p : Player)
    → HasScorable m p
    → (sb : ScoreBreakdown) × (breakdown_of m gs l p ≡ ok sb)
unfolding breakdown_of build_breakdown
breakdown_of-ok m gs l p h =
    let points = sum_route_points-ok m p.claimed_route_ids 0 h in
    >>=-ok (sum_route_points m p.claimed_route_ids 0) _ points.1 (_, refl)

score_players-ok :
    (m : Map) (gs : GameState) (l : Longest) (i : ℕ) (ps : List Player)
    → All (HasScorable m) ps
    → (scored : List ScoreBreakdown × List Rankable) × (score_players m gs l i ps ≡ ok scored)
score_players-ok m gs l i [] h = (([], []), no_players m gs l i)
score_players-ok m gs l i (p ∷ ps) h =
    let rest = score_players-ok m gs l (suc i) ps h.1 in
    let own = breakdown_of-ok m gs l p h.0 in
    elim (Bool-cases p.resigned) [
      | inl gone ↦
          rw (left_branch m gs l i p ps gone)
            (>>=-ok (score_players m gs l (suc i) ps) _ rest.1 (_, refl))
      | inr stays ↦ rw (stay_branch m gs l i p ps stays) (
          >>=-ok (breakdown_of m gs l p) _ own.1
            (>>=-ok (score_players m gs l (suc i) ps) _ rest.1 (_, refl)))
    ]

-- FinalScore succeeds if every route that a player has claimed is on the map and has a length with
-- points.
pub final_score-ok :
    (m : Map) (gs : GameState)
    → All (HasScorable m) gs.players
    → (results : List ScoreBreakdown) × (final_score m gs ≡ ok results)
unfolding final_score
final_score-ok m gs h =
    let scored = score_players-ok m gs (longest_of m gs) 0 gs.players h in
    >>=-ok (score_players m gs (longest_of m gs) 0 gs.players) _ scored.1 (_, refl)
