-- ===== src/Ttr/Apply.antt =====
-- engine.go: `Apply`, the phase gate and the dispatch, on the decoded state and payload.
pub mod Conservation
pub mod Permission
use bgex_backend.Base.{
  ℕ, suc, Bool, true, false, not, ◌||◌, ◌==◌, if◌then◌else◌, Option, none, some, Result, ok, err,
  ◌>>=◌, ◌>>◌, raise_if, or_raise,
}
use bgex_backend.Engine.{Error, illegal_action, not_your_turn, game_over, not_seated, wrong_phase}
use bgex_backend.Ttr.State.{
  Phase, setup_tickets, normal, awaiting_second_draw, awaiting_tunnel, awaiting_ticket_keep,
  scoring, finished, Player, GameState, Map, Engine, Action, draw_card, claim_route, build_station,
  draw_tickets, resolve_decision, resign, unknown_action, ResolveDecisionPayload, DecisionKind,
  ticket_keep, tunnel, end_draw, unknown_kind, player_by_seat, player_by_user,
}
use bgex_backend.Ttr.TurnFlow.{apply_resign}
use bgex_backend.Ttr.Draw.{apply_draw_card, apply_end_draw_decision}
use bgex_backend.Ttr.Tickets.{apply_draw_tickets, resolve_ticket_keep, apply_setup_tickets_decision}
use bgex_backend.Ttr.Claim.{apply_claim_route, resolve_tunnel}
use bgex_backend.Ttr.Station.{apply_build_station}

-- `isTurnAction`
abbrev pub is_turn_action : Action → Bool
is_turn_action (draw_card source slot) = true
is_turn_action (claim_route id payment) = true
is_turn_action (build_station id payment) = true
is_turn_action draw_tickets = true
is_turn_action _ = false

abbrev pub is_decision : Action → Bool
is_decision (resolve_decision pl) = true
is_decision _ = false

abbrev pub is_draw : Action → Bool
is_draw (draw_card source slot) = true
is_draw _ = false

abbrev pub is_resign : Action → Bool
is_resign resign = true
is_resign _ = false

abbrev pub is_finished : Phase → Bool
is_finished finished = true
is_finished _ = false

-- `requireCurrentSeat`
unfoldable pub require_current_seat : GameState → Player → Result Error (Unit {0})
require_current_seat gs p = elim (player_by_seat gs gs.current_seat) [
  | none ↦ err not_your_turn
  | some cur ↦ raise_if (not (cur.user_id == p.user_id)) not_your_turn
]

-- A phase whose actions are for the current seat.
abbrev pub current_seat_only : GameState → Player → Bool → Result Error (Unit {0})
current_seat_only gs p legal = do raise_if (not legal) wrong_phase; require_current_seat gs p

-- The part of the gate that the phase decides.
unfoldable pub gate_phase : GameState → Player → Action → Phase → Result Error (Unit {0})
gate_phase gs p a Phase.setup_tickets = raise_if (not (is_decision a)) wrong_phase
gate_phase gs p a awaiting_second_draw = current_seat_only gs p (is_draw a || is_decision a)
gate_phase gs p a awaiting_tunnel = current_seat_only gs p (is_decision a)
gate_phase gs p a awaiting_ticket_keep = current_seat_only gs p (is_decision a)
gate_phase gs p a normal = current_seat_only gs p (is_turn_action a)
gate_phase gs p a Phase.unspecified = err wrong_phase
gate_phase gs p a scoring = err wrong_phase
gate_phase gs p a finished = err wrong_phase

-- `checkPhaseGate`
unfoldable pub check_phase_gate : GameState → Player → Action → Result Error (Unit {0})
check_phase_gate gs p a = do
  raise_if (is_finished gs.phase) game_over
  if is_resign a then ok tt else (do raise_if p.resigned illegal_action; gate_phase gs p a gs.phase)

-- `applyResolveDecision`: the phase and the kind of the decision have to agree.
unfoldable pub resolve_in :
    Engine
    → GameState
    → Player
    → ResolveDecisionPayload
    → Phase
    → DecisionKind
    → Result Error GameState
resolve_in e gs p pl Phase.setup_tickets DecisionKind.setup_tickets =
    apply_setup_tickets_decision gs p pl.keep_ticket_ids
resolve_in e gs p pl awaiting_ticket_keep ticket_keep = do
  m ← e.get_map gs.map_id gs.map_version
  resolve_ticket_keep e m gs p pl.keep_ticket_ids
resolve_in e gs p pl awaiting_tunnel tunnel = do
  m ← e.get_map gs.map_id gs.map_version
  resolve_tunnel e m gs p pl
resolve_in e gs p pl awaiting_second_draw end_draw = do
  m ← e.get_map gs.map_id gs.map_version
  apply_end_draw_decision e m gs p
resolve_in e gs p pl _ _ = err wrong_phase

-- `dispatch`
unfoldable pub dispatch : Engine → GameState → Player → Action → Result Error GameState
dispatch e gs p (resolve_decision pl) = resolve_in e gs p pl gs.phase pl.kind
dispatch e gs p (draw_card source slot) = do
  m ← e.get_map gs.map_id gs.map_version
  apply_draw_card e m gs p source slot
dispatch e gs p (claim_route id payment) = apply_claim_route e gs p id payment
dispatch e gs p (build_station id payment) = do
  m ← e.get_map gs.map_id gs.map_version
  apply_build_station e m gs p id payment
dispatch e gs p draw_tickets = apply_draw_tickets gs
dispatch e gs p resign = do m ← e.get_map gs.map_id gs.map_version; apply_resign e m gs p
dispatch e gs p unknown_action = err illegal_action

-- `Apply`
unfoldable pub apply : Engine → GameState → ℕ → Action → Result Error GameState
apply e gs user_id a = do
  p ← or_raise (player_by_user gs user_id) not_seated
  check_phase_gate gs p a
  moved ← dispatch e gs p a
  ok (record moved { seq = suc moved.seq })
