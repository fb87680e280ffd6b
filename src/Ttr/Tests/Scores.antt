-- ===== src/Ttr/Tests/Scores.antt =====
-- The end of a game of three players, one of whom resigned, on a map of four cities.
use bgex_backend.Ttr.Scoring.UnionFind.{find_from, find, connected, union}
use bgex_backend.Ttr.Scoring.Final.{final_score-Outcome, Outcome}
use bgex_backend.Ttr.Scoring.Stations.Best.{best_station_assignment-IsBest, IsBest}
use bgex_backend.Ttr.Scoring.Trail.Graph.{edges_of}
use bgex_backend.Ttr.Scoring.Ranks.{
  rank_tie, rank_less, modify_at, share_all, next_rank, number_ranks, assign_ranks, Rankable,
}
use bgex_backend.Ttr.Scoring.Stations.Fair.{evaluate_assignment-IsFair, IsFair}
use bgex_backend.Ttr.Scoring.Trail.Longest.{longest_trail-IsLongest, IsLongest}
use bgex_backend.Ttr.Scoring.Success.{final_score-ok, HasScorable}
use bgex_backend.Ttr.Scoring.{
  longest_trails_by_active_seat, longest_bonus, sum_ticket_points, sum_route_points, longest_of,
  score_players, build_breakdown, resigned_breakdown, breakdown_of, final_score,
}
use bgex_backend.Ttr.Scoring.Stations.{
  ticket_by_id, routes_by_city, is_opponents, options_of, station_option_sets, sorted_ticket_ids,
  unite_claimed, borrow, borrow_all, score_ticket, score_tickets, offer, try_options, recurse,
  evaluate_assignment, best_station_assignment, option_of, Evaluation,
}
use bgex_backend.Ttr.Scoring.Bonus.{breakdown_of-bonus, IsWithin, trail_of, IsSeated}
use bgex_backend.Base.{
  ℕ, ◌<◌, ◌≡◌, ◌↔◌, ◌⊎◌, refl, true, false, none, some, List, [], ◌∷◌, ok, arith, All, get_elem?,
  find_first, sort_by, insert_by,
}
use bgex_backend.Base.Int.{pos, to_int32}
use bgex_backend.Ttr.State.{Player, GameState, Map, Route, ScoreBreakdown, set_entry}
use bgex_backend.Ttr.Colors.{points_for_length}
use bgex_backend.Ttr.Claim.{route_by_id}
use bgex_backend.Ttr.Tests.{board, seated, game}
use bgex_backend.Ttr.Scoring.Trail.{
  longest_trail, build_trail_graph, add_edges, add_edge, start_all, start_at, dfs, take_edges,
  take_edge,
}

abbrev link : ℕ → ℕ → ℕ → ℕ → Route
link i a b len = record {
  id = i;
  a = a;
  b = b;
  color = 1;
  length = len;
  tunnel = false;
  locos = 0;
  pair = none;
}

abbrev lines : Map
lines = record board {
  routes = link 1 1 2 2 ∷ link 2 2 3 3 ∷ link 3 3 1 1 ∷ link 4 3 4 4 ∷ [];
  tickets =
      record { id = 5; a = 1; b = 4; points = pos 8 }
      ∷ record { id = 6; a = 1; b = 3; points = pos 5 }
      ∷ record { id = 7; a = 2; b = 9; points = pos 6 }
      ∷ [];
}

-- The trail 1 - 2 - 3 - 1 of the length 6 is the longest of the triangle.
triangle : longest_trail lines (1 ∷ 2 ∷ 3 ∷ []) ≡ 6
unfolding longest_trail build_trail_graph add_edges add_edge start_all start_at dfs take_edges
    take_edge route_by_id find_first
triangle = refl

-- The first player holds two routes, and a station in city 3, from where the second one's route
-- leads on to city 4.
abbrev builder : Player
builder = record (seated 0 7) {
  stations_left = 2;
  station_cities = 3 ∷ [];
  claimed_route_ids = 1 ∷ 2 ∷ [];
  ticket_ids = 7 ∷ 5 ∷ 6 ∷ [];
}

abbrev rival : Player
rival = record (seated 1 8) { claimed_route_ids = 4 ∷ [] }

abbrev quitter : Player
quitter = record (seated 2 9) { resigned = true }

abbrev over : GameState
over = record game {
  players = builder ∷ rival ∷ quitter ∷ [];
  route_owner = (1, 0) ∷ (2, 0) ∷ (4, 1) ∷ [];
}

abbrev builder_score : ScoreBreakdown
builder_score = record {
  seat_index = 0;
  route_points = 6;
  tickets_completed_points = pos 13;
  tickets_missed_points = pos 6;
  station_bonus = pos 8;
  longest_path_bonus = 10;
  longest_path_length = 5;
  total = pos 31;
  rank = 0;
  completed_ticket_ids = 5 ∷ 6 ∷ [];
  missed_ticket_ids = 7 ∷ [];
  borrowed_routes = (3, 4) ∷ [];
  shared_victory = false;
}

abbrev rival_score : ScoreBreakdown
rival_score = record {
  seat_index = 1;
  route_points = 7;
  tickets_completed_points = pos 0;
  tickets_missed_points = pos 0;
  station_bonus = pos 12;
  longest_path_bonus = 0;
  longest_path_length = 4;
  total = pos 19;
  rank = 0;
  completed_ticket_ids = [];
  missed_ticket_ids = [];
  borrowed_routes = [];
  shared_victory = false;
}

abbrev final_results : List ScoreBreakdown
final_results =
    record builder_score { rank = 1 }
    ∷ record rival_score { rank = 2 }
    ∷ resigned_breakdown 3 quitter
    ∷ []

builder_scored : breakdown_of lines over (longest_of lines over) builder ≡ ok builder_score
unfolding breakdown_of build_breakdown sum_route_points points_for_length sum_ticket_points
    longest_bonus longest_trails_by_active_seat set_entry longest_trail build_trail_graph add_edges
    add_edge start_all start_at dfs take_edges take_edge route_by_id find_first
    best_station_assignment recurse try_options offer evaluate_assignment score_tickets score_ticket
    borrow_all borrow unite_claimed sorted_ticket_ids station_option_sets options_of is_opponents
    routes_by_city ticket_by_id sort_by insert_by union connected find find_from to_int32
builder_scored = refl

scored_ok : final_score lines over ≡ ok final_results
unfolding final_score score_players assign_ranks number_ranks next_rank share_all modify_at
    rank_less rank_tie breakdown_of build_breakdown sum_route_points points_for_length
    sum_ticket_points longest_bonus longest_trails_by_active_seat set_entry longest_trail
    build_trail_graph add_edges add_edge start_all start_at dfs take_edges take_edge route_by_id
    find_first best_station_assignment recurse try_options offer evaluate_assignment score_tickets
    score_ticket borrow_all borrow unite_claimed sorted_ticket_ids station_option_sets options_of
    is_opponents routes_by_city ticket_by_id sort_by insert_by union connected find find_from
    to_int32
scored_ok = refl

longest_trail-IsLongest_example :
    IsLongest (edges_of lines (1 ∷ 2 ∷ 3 ∷ [])) (longest_trail lines (1 ∷ 2 ∷ 3 ∷ []))
longest_trail-IsLongest_example = longest_trail-IsLongest lines (1 ∷ 2 ∷ 3 ∷ [])

best_station_assignment-IsBest_example :
    (ev : Evaluation) × (best_station_assignment lines over builder ≡ some ev)
    × IsBest lines over builder ev
best_station_assignment-IsBest_example = best_station_assignment-IsBest lines over builder

evaluate_assignment-IsFair_example :
    IsFair lines builder
      (option_of 3 4 ∷ [])
      (5 ∷ 6 ∷ 7 ∷ [])
      (evaluate_assignment lines builder (option_of 3 4 ∷ []) (5 ∷ 6 ∷ 7 ∷ []))
evaluate_assignment-IsFair_example =
    evaluate_assignment-IsFair lines builder (option_of 3 4 ∷ []) (5 ∷ 6 ∷ 7 ∷ [])

final_score-Outcome_example :
    (scored : List ScoreBreakdown × List Rankable) × (score_players lines over
        (longest_of lines over)
        0
        over.players
      ≡ ok scored)
    × ((i : ℕ) (p : Player)
        → get_elem? over.players i ≡ some p
        → Outcome lines over scored.1 final_results i p)
final_score-Outcome_example = final_score-Outcome lines over final_results scored_ok

all-IsSeated : IsSeated over.players
all-IsSeated = ((omega arith, (omega arith, tt)), ((omega arith, tt), (tt, tt)))

breakdown_of-bonus_example :
    (builder_score.longest_path_length ≡ trail_of lines builder)
    × ((builder_score.longest_path_bonus ≡ 10) ↔ (
        (0 < trail_of lines builder) × All (IsWithin lines (trail_of lines builder)) over.players))
    × ((builder_score.longest_path_bonus ≡ 10) ⊎ (builder_score.longest_path_bonus ≡ 0))
breakdown_of-bonus_example =
    breakdown_of-bonus lines over 0 builder builder_score all-IsSeated refl refl builder_scored

all_scorable : All (HasScorable lines) over.players
unfolding route_by_id find_first points_for_length
all_scorable = (
  ((link 1 1 2 2, 2, refl, refl), ((link 2 2 3 3, 4, refl, refl), tt)),
  (((link 4 3 4 4, 7, refl, refl), tt), (tt, tt)),
)

final_score-ok_example : (results : List ScoreBreakdown) × (final_score lines over ≡ ok results)
final_score-ok_example = final_score-ok lines over all_scorable
