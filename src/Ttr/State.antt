-- ===== src/Ttr/State.antt =====
-- internal/games/ttr: the messages of ttr.proto, the map of mapmodel.go, the payloads of actions.go
-- and the lookups of state.go. City ids and user ids are only compared, so they are numbers; a Go
-- map from colours to counts is a function that is 0 where there is no entry, and any other Go map
-- an association list. A color is its number in color.go. Broadcast events are left out.
use bgex_backend.Base.{
  ℕ, Bool, not, Option, none, some, List, [], ◌∷◌, keep, ◌==◌, if◌then◌else◌, find_first,
  update_first, Result,
}
use bgex_backend.Base.Int.{ℤ}
use bgex_backend.Engine.{Error}

pub data Phase : Type 0 where
  unspecified setup_tickets normal awaiting_second_draw awaiting_tunnel awaiting_ticket_keep : Phase
  scoring finished : Phase

pub record Player : Type 0 where
  pub seat_index : ℕ
  pub user_id : ℕ
  pub hand : ℕ → ℕ
  pub trains_left : ℕ
  pub stations_left : ℕ
  pub station_cities : List ℕ
  pub claimed_route_ids : List ℕ
  pub ticket_ids : List ℕ
  pub setup_ticket_offer : List ℕ
  pub setup_done : Bool
  pub route_score : ℕ
  pub resigned : Bool

-- The three card piles that share the shuffler; `shuffles` counts the shuffles made so far.
pub record Piles : Type 0 where
  pub draw_pile : List ℕ
  pub discard_pile : List ℕ
  pub face_up : List ℕ
  pub shuffles : ℕ

pub record DrawProgress : Type 0 where
  pub cards_taken : ℕ
  pub face_up_loco_locked : Bool

pub record PendingTunnel : Type 0 where
  pub route_id : ℕ
  pub base_payment : ℕ → ℕ
  pub payment_color : ℕ
  pub revealed : List ℕ
  pub surcharge : ℕ

pub record ScoreBreakdown : Type 0 where
  pub seat_index : ℕ
  pub route_points : ℕ
  pub tickets_completed_points : ℤ
  pub tickets_missed_points : ℤ
  pub station_bonus : ℤ
  pub longest_path_bonus : ℕ
  pub longest_path_length : ℕ
  pub total : ℤ
  pub rank : ℕ
  pub completed_ticket_ids : List ℕ
  pub missed_ticket_ids : List ℕ
  pub borrowed_routes : List (ℕ × ℕ)
  pub shared_victory : Bool

-- `final_turns_left` is `none` for -1, `pending_ticket_draw` the tickets on offer.
pub record GameState : Type 0 where
  pub map_id : ℕ
  pub map_version : ℕ
  pub phase : Phase
  pub players : List Player
  pub current_seat : ℕ
  pub piles : Piles
  pub ticket_deck : List ℕ
  pub route_owner : List (ℕ × ℕ)
  pub closed_routes : List ℕ
  pub station_owner : List (ℕ × ℕ)
  pub final_turns_left : Option ℕ
  pub draw : Option DrawProgress
  pub pending_tunnel : Option PendingTunnel
  pub pending_ticket_draw : Option (List ℕ)
  pub results : List ScoreBreakdown
  pub seq : ℕ
  pub turn_no : ℕ

-- The parts of a map that the engine and the scoring read.
pub record Route : Type 0 where
  pub id : ℕ
  pub a : ℕ
  pub b : ℕ
  pub color : ℕ
  pub length : ℕ
  pub tunnel : Bool
  pub locos : ℕ
  pub pair : Option ℕ

-- The loader does not bound the points of a ticket, from either side.
pub record Ticket : Type 0 where
  pub id : ℕ
  pub a : ℕ
  pub b : ℕ
  pub points : ℤ

pub record Map : Type 0 where
  pub players_min : ℕ
  pub players_max : ℕ
  pub trains_per_player : ℕ
  pub stations_per_player : ℕ
  pub cities : List ℕ
  pub routes : List Route
  pub tickets : List Ticket
  pub long_ticket_ids : List ℕ
  pub regular_ticket_ids : List ℕ

-- What an engine is built from: the shuffler, whose n-th shuffle and n-th number are its own, the
-- map provider, the order in which a Go map is ranged over, and the final scoring of scoring.go.
pub record Engine : Type 0 where
  pub shuffle : ℕ → List ℕ → List ℕ
  pub int_n : ℕ → ℕ → ℕ
  pub get_map : ℕ → ℕ → Result Error Map
  pub range_order : List ℕ
  pub final_score : Map → GameState → Result Error (List ScoreBreakdown)

pub data DrawSource : Type 0 where
  deck face_up unknown_source : DrawSource

pub data DecisionKind : Type 0 where
  setup_tickets ticket_keep tunnel end_draw unknown_kind : DecisionKind

-- Entries of a wire payment: what a color's name parses to, and the count.
abbrev pub WirePayment : Type 0
WirePayment = List (Option ℕ × ℤ)

pub record ResolveDecisionPayload : Type 0 where
  pub kind : DecisionKind
  pub keep_ticket_ids : List ℕ
  pub accept : Option Bool
  pub extra_payment : WirePayment

-- An action with its decoded payload.
pub data Action : Type 0 where
  draw_card : DrawSource → ℤ → Action
  claim_route : ℕ → WirePayment → Action
  build_station : ℕ → WirePayment → Action
  draw_tickets : Action
  resolve_decision : ResolveDecisionPayload → Action
  resign : Action
  unknown_action : Action

abbrev pub color_gray : ℕ
color_gray = 9

abbrev pub color_loco : ℕ
color_loco = 10

abbrev pub has_user : ℕ → Player → Bool
has_user u p = p.user_id == u

abbrev pub has_seat : ℕ → Player → Bool
has_seat i p = p.seat_index == i

-- `playerByUser`
unfoldable pub player_by_user : GameState → ℕ → Option Player
player_by_user gs u = find_first (has_user u) gs.players

-- `playerBySeat`
unfoldable pub player_by_seat : GameState → ℕ → Option Player
player_by_seat gs i = find_first (has_seat i) gs.players

abbrev pub is_playing : Player → Bool
is_playing p = not p.resigned

-- `activePlayers`
unfoldable pub active_players : GameState → List Player
active_players gs = keep is_playing gs.players

-- A write through the pointer to a player.
unfoldable pub write_player : Player → GameState → GameState
write_player p gs = record gs { players = update_first (has_user p.user_id) (λ _. p) gs.players }

-- The value of a Go map at a key.
abbrev pub lookup : List (ℕ × ℕ) → ℕ → Option ℕ
lookup [] k = none
lookup (e ∷ es) k = if e.0 == k then some e.1 else lookup es k

-- A write to a Go map, which adds the key where it is absent.
unfoldable pub set_entry : ℕ → ℕ → List (ℕ × ℕ) → List (ℕ × ℕ)
set_entry x r [] = (x, r) ∷ []
set_entry x r (e ∷ es) = if e.0 == x then (x, r) ∷ es else e ∷ set_entry x r es
