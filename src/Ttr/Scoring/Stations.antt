-- ===== src/Ttr/Scoring/Stations.antt =====
-- The station assignment of internal/games/ttr/scoring.go: the options of each station city, the
-- score of one choice of borrowed routes, and the search over all choices.
pub mod Best
pub mod Links
pub mod Tickets
pub mod Fair
use bgex_backend.Base.{
  false, ℕ, Bool, Option, none, some, List, [], ◌∷◌, ◌++◌, ◌==◌, ◌||◌, if◌then◌else◌, keep, map,
  not, find_first, sort_by, ltb,
}
use bgex_backend.Base.Int.{ℤ, pos, ◌+ℤ◌, opposite, less_ℤ}
use bgex_backend.Ttr.State.{Map, Route, Ticket, GameState, Player, lookup, set_entry}
use bgex_backend.Ttr.Claim.{route_by_id}
use bgex_backend.Ttr.Scoring.UnionFind.{union, connected}

-- `noBorrow`
abbrev pub no_borrow : ℕ
no_borrow = 0

-- `stationOption`
pub record StationOption : Type 0 where
  pub city : ℕ
  pub route_id : ℕ

abbrev pub is_ticket : ℕ → Ticket → Bool
is_ticket i tk = tk.id == i

-- `m.TicketByID`; the loader rejects a map with one ticket id twice.
unfoldable pub ticket_by_id : Map → ℕ → Option Ticket
ticket_by_id m i = find_first (is_ticket i) m.tickets

abbrev pub touches : ℕ → Route → Bool
touches city r = (r.a == city) || (r.b == city)

-- `m.RoutesByCity`; the loader rejects a route from a city to itself.
unfoldable pub routes_by_city : Map → ℕ → List ℕ
routes_by_city m city = map (λ r. r.id) (keep (touches city) m.routes)

-- The owner test of `stationOptionSets`.
unfoldable pub is_opponents : GameState → Player → ℕ → Bool
is_opponents gs p rid = elim (lookup gs.route_owner rid) [
  | none ↦ false
  | some owner ↦ not (owner == p.seat_index)
]

abbrev pub option_of : ℕ → ℕ → StationOption
option_of city rid = record { city = city; route_id = rid }

unfoldable pub options_of : Map → GameState → Player → ℕ → List StationOption
options_of m gs p city =
    option_of city no_borrow
    ∷ map (option_of city) (keep (is_opponents gs p) (sort_by ltb (routes_by_city m city)))

-- `stationOptionSets`
unfoldable pub station_option_sets : Map → GameState → Player → List (List StationOption)
station_option_sets m gs p = map (options_of m gs p) p.station_cities

-- `sortedTicketIDs`
unfoldable pub sorted_ticket_ids : Player → List ℕ
sorted_ticket_ids p = sort_by ltb p.ticket_ids

-- The first loop of `evaluateAssignment`: the player's own routes.
unfoldable pub unite_claimed : Map → List ℕ → List (ℕ × ℕ) → List (ℕ × ℕ)
unite_claimed m [] parent = parent
unite_claimed m (rid ∷ rids) parent = elim (route_by_id m rid) [
  | none ↦ unite_claimed m rids parent
  | some r ↦ unite_claimed m rids (union r.a r.b parent)
]

pub record Borrowing : Type 0 where
  pub parent : List (ℕ × ℕ)
  pub assignment : List (ℕ × ℕ)

unfoldable pub borrow : Map → StationOption → Borrowing → Borrowing
borrow m opt s = if opt.route_id == no_borrow then s else (elim (route_by_id m opt.route_id) [
  | none ↦ s
  | some r ↦ record {
    parent = union r.a r.b s.parent;
    assignment = set_entry opt.city opt.route_id s.assignment;
  }
])

-- Its second loop: the routes that the combination borrows.
unfoldable pub borrow_all : Map → List StationOption → Borrowing → Borrowing
borrow_all m [] s = s
borrow_all m (opt ∷ combo) s = borrow_all m combo (borrow m opt s)

pub record Tally : Type 0 where
  pub parent : List (ℕ × ℕ)
  pub net : ℤ
  pub completed : List ℕ
  pub missed : List ℕ

unfoldable pub score_ticket : Map → ℕ → Tally → Tally
score_ticket m tid t = elim (ticket_by_id m tid) [
  | none ↦ t
  | some tk ↦
      let linked = connected tk.a tk.b t.parent in
      if linked.1
      then (record {
        parent = linked.0;
        net = t.net +ℤ tk.points;
        completed = t.completed ++ tid ∷ [];
        missed = t.missed;
      })
      else (record {
        parent = linked.0;
        net = t.net +ℤ opposite tk.points;
        completed = t.completed;
        missed = t.missed ++ tid ∷ [];
      })
]

-- Its third loop: the tickets.
unfoldable pub score_tickets : Map → List ℕ → Tally → Tally
score_tickets m [] t = t
score_tickets m (tid ∷ tids) t = score_tickets m tids (score_ticket m tid t)

pub record Evaluation : Type 0 where
  pub assignment : List (ℕ × ℕ)
  pub net : ℤ
  pub completed : List ℕ
  pub missed : List ℕ

-- `evaluateAssignment`
unfoldable pub evaluate_assignment : Map → Player → List StationOption → List ℕ → Evaluation
evaluate_assignment m p combo ticket_ids =
    let own = unite_claimed m p.claimed_route_ids [] in
    let borrowed = borrow_all m combo (record { parent = own; assignment = [] }) in
    let t =
      score_tickets m ticket_ids
        (record { parent = borrowed.parent; net = pos 0; completed = []; missed = [] }) in
    record {
      assignment = borrowed.assignment;
      net = t.net;
      completed = t.completed;
      missed = t.missed;
    }

-- The leaf of `recurse`: the first of the best combinations is kept.
unfoldable pub offer : Evaluation → Option Evaluation → Option Evaluation
offer ev none = some ev
offer ev (some best) = if less_ℤ best.net ev.net then some ev else some best

-- The loop of `recurse` over the options of one city.
unfoldable pub try_options :
    (StationOption → Option Evaluation → Option Evaluation)
    → List StationOption
    → Option Evaluation
    → Option Evaluation
try_options go [] best = best
try_options go (opt ∷ opts) best = try_options go opts (go opt best)

-- `recurse`
unfoldable pub recurse :
    Map
    → Player
    → List ℕ
    → List (List StationOption)
    → List StationOption
    → Option Evaluation
    → Option Evaluation
recurse m p ticket_ids [] combo best = offer (evaluate_assignment m p combo ticket_ids) best
recurse m p ticket_ids (opts ∷ options) combo best =
    try_options (λ opt. recurse m p ticket_ids options (combo ++ opt ∷ [])) opts best

-- `bestStationAssignment`; the result stays `none` only where some city has no option.
unfoldable pub best_station_assignment : Map → GameState → Player → Option Evaluation
best_station_assignment m gs p =
    recurse m p (sorted_ticket_ids p) (station_option_sets m gs p) [] none
