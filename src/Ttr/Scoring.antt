-- ===== src/Ttr/Scoring.antt =====
-- internal/games/ttr/scoring.go: FinalScore over the parts of its children. The points of tickets,
-- the station bonus and the total are converted to 32 bits as in the source; the route points and
-- the length of the longest trail, of at most 64 trains, stay far below 2^31 and are not.
pub mod Trail
pub mod UnionFind
pub mod Stations
pub mod Ranks
pub mod Final
pub mod Bonus
pub mod Success
use bgex_backend.Base.{
  ℕ, zero, suc, ◌+◌, ◌*◌, Bool, true, false, ◌&&◌, Option, none, some, List, [], ◌∷◌, ◌==◌, ltb,
  if◌then◌else◌, length, Result, ok, ◌>>=◌, or_raise,
}
use bgex_backend.Base.Int.{ℤ, pos, ◌+ℤ◌, opposite, to_int32}
use bgex_backend.Engine.{Error, invalid_route_length}
use bgex_backend.Ttr.State.{
  Map, Route, Ticket, GameState, Player, ScoreBreakdown, lookup, set_entry,
}
use bgex_backend.Ttr.Colors.{points_for_length}
use bgex_backend.Ttr.Claim.{route_by_id}
use bgex_backend.Ttr.Scoring.Trail.{longest_trail}
use bgex_backend.Ttr.Scoring.Stations.{Evaluation, ticket_by_id, best_station_assignment}
use bgex_backend.Ttr.Scoring.Ranks.{Rankable, assign_ranks}

-- `unbuiltStationPoints`
abbrev pub unbuilt_station_points : ℕ
unbuilt_station_points = 4

-- `longestPathBonusPoints`
abbrev pub longest_path_bonus_points : ℕ
longest_path_bonus_points = 10

-- `sumRoutePoints`; `total` is the sum so far.
unfoldable pub sum_route_points : Map → List ℕ → ℕ → Result Error ℕ
sum_route_points m [] total = ok total
sum_route_points m (rid ∷ rids) total = do
  r ← or_raise (route_by_id m rid) invalid_route_length
  pts ← points_for_length r.length
  sum_route_points m rids (total + pts)

-- `sumTicketPoints`
unfoldable pub sum_ticket_points : Map → List ℕ → ℤ → ℤ
sum_ticket_points m [] total = total
sum_ticket_points m (id ∷ ids) total = elim (ticket_by_id m id) [
  | none ↦ sum_ticket_points m ids total
  | some tk ↦ sum_ticket_points m ids (total +ℤ tk.points)
]

pub record Longest : Type 0 where
  pub by_seat : List (ℕ × ℕ)
  pub max_longest : ℕ

-- `longestTrailsByActiveSeat`
unfoldable pub longest_trails_by_active_seat : Map → List Player → Longest → Longest
longest_trails_by_active_seat m [] s = s
longest_trails_by_active_seat m (p ∷ players) s =
    let l = longest_trail m p.claimed_route_ids in
    let seen : Longest = record {
      by_seat = set_entry p.seat_index l s.by_seat;
      max_longest = if ltb s.max_longest l then l else s.max_longest;
    } in
    longest_trails_by_active_seat m players (if p.resigned then s else seen)

-- The Go map's read of an int.
abbrev pub or_zero : Option ℕ → ℕ
or_zero none = 0
or_zero (some n) = n

-- The zero value that `bestStationAssignment` returns where nothing was evaluated.
abbrev pub or_nothing : Option Evaluation → Evaluation
or_nothing none = record { assignment = []; net = pos 0; completed = []; missed = [] }
or_nothing (some ev) = ev

-- The bonus test of `buildBreakdown`.
unfoldable pub longest_bonus : ℕ → ℕ → ℕ
longest_bonus len max_longest =
    if ltb 0 max_longest && (len == max_longest) then longest_path_bonus_points else 0

-- `buildBreakdown`
unfoldable pub build_breakdown : Map → GameState → Player → ℕ → ℕ → Result Error ScoreBreakdown
build_breakdown m gs p len max_longest = do
  route_pts ← sum_route_points m p.claimed_route_ids 0
  let best = or_nothing (best_station_assignment m gs p)
  let completed_pts = to_int32 (sum_ticket_points m best.completed (pos 0))
  let missed_pts = to_int32 (sum_ticket_points m best.missed (pos 0))
  let bonus = longest_bonus len max_longest
  let stations = to_int32 (pos (p.stations_left * unbuilt_station_points))
  ok (record {
    seat_index = p.seat_index;
    route_points = route_pts;
    tickets_completed_points = completed_pts;
    tickets_missed_points = missed_pts;
    station_bonus = stations;
    longest_path_bonus = bonus;
    longest_path_length = len;
    total =
        to_int32 (pos route_pts +ℤ completed_pts +ℤ opposite missed_pts +ℤ stations +ℤ pos bonus);
    rank = 0;
    completed_ticket_ids = best.completed;
    missed_ticket_ids = best.missed;
    borrowed_routes = best.assignment;
    shared_victory = false;
  })

-- `rankableFor`
abbrev pub rankable_for : ℕ → ScoreBreakdown → Player → Rankable
rankable_for i sb p = record {
  idx = i;
  total = sb.total;
  completed = length sb.completed_ticket_ids;
  built_stations = length p.station_cities;
  has_longest = ltb 0 sb.longest_path_bonus;
}

-- The breakdown of a player who resigned, in a game of `n` players.
abbrev pub resigned_breakdown : ℕ → Player → ScoreBreakdown
resigned_breakdown n p = record {
  seat_index = p.seat_index;
  route_points = 0;
  tickets_completed_points = pos 0;
  tickets_missed_points = pos 0;
  station_bonus = pos 0;
  longest_path_bonus = 0;
  longest_path_length = 0;
  total = pos 0;
  rank = n;
  completed_ticket_ids = [];
  missed_ticket_ids = [];
  borrowed_routes = [];
  shared_victory = false;
}

-- The breakdown of an active player, for the lengths that FinalScore found.
unfoldable pub breakdown_of : Map → GameState → Longest → Player → Result Error ScoreBreakdown
breakdown_of m gs l p =
    build_breakdown m gs p (or_zero (lookup l.by_seat p.seat_index)) l.max_longest

-- The loop of `FinalScore` from index `i` on: `results` and `ranked`.
unfoldable pub score_players :
    Map → GameState → Longest → ℕ → List Player → Result Error (List ScoreBreakdown × List Rankable)
score_players m gs l i [] = ok ([], [])
score_players m gs l i (p ∷ players) =
    let rest = score_players m gs l (suc i) players in
    if p.resigned
    then (rest >>= λ s. ok (resigned_breakdown (length gs.players) p ∷ s.0, s.1))
    else (breakdown_of m gs l p >>= λ sb. rest >>= λ s. ok (sb ∷ s.0, rankable_for i sb p ∷ s.1))

-- The lengths of the longest trails in a game.
abbrev pub longest_of : Map → GameState → Longest
longest_of m gs =
    longest_trails_by_active_seat m gs.players (record { by_seat = []; max_longest = 0 })

-- `FinalScore`
unfoldable pub final_score : Map → GameState → Result Error (List ScoreBreakdown)
final_score m gs = do
  scored ← score_players m gs (longest_of m gs) 0 gs.players
  ok (assign_ranks scored.0 scored.1)
