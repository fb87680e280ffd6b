-- ===== src/Ttr/Apply/Permission.antt =====
-- engine.go: who may act, as `checkPhaseGate` decides it.
use bgex_backend.Base.{
  ℕ, ◌≡◌, Bool, true, false, some, Option-cases, ok, >>=-eq-ok, raise_if-eq-ok, or_raise-eq-ok,
  subst, Bool-cases, arith, inl, inr,
}
use bgex_backend.Engine.{illegal_action, game_over, not_seated}
use bgex_backend.Ttr.State.{
  Phase, normal, awaiting_second_draw, awaiting_tunnel, awaiting_ticket_keep, scoring, finished,
  Player, GameState, Engine, Action, resign, player_by_user, player_by_seat,
}
use bgex_backend.Ttr.TurnFlow.{is_current_player, apply_resign}
use bgex_backend.Ttr.Apply.{
  is_resign, is_finished, require_current_seat, gate_phase, check_phase_gate, dispatch, apply,
}

abbrev pub is_setup : Phase → Bool
is_setup Phase.setup_tickets = true
is_setup _ = false

require_current_seat-current :
    (gs : GameState) (p : Player) (passed : Unit {0})
    → require_current_seat gs p ≡ ok passed
    → is_current_player gs p ≡ true
unfolding require_current_seat is_current_player
require_current_seat-current gs p passed gate =
    elim (Option-cases (player_by_seat gs gs.current_seat)) [
      | inl empty ↦ ground (arith, gate, empty)
      | inr (cur, seated) ↦ ground (arith, gate, seated)
    ]

gate_phase-current :
    (gs : GameState) (p : Player) (a : Action) (ph : Phase) (passed : Unit {0})
    → is_setup ph ≡ false
    → gate_phase gs p a ph ≡ ok passed
    → is_current_player gs p ≡ true
unfolding gate_phase
gate_phase-current gs p a Phase.unspecified passed turn gate = absurd (cc)
gate_phase-current gs p a Phase.setup_tickets passed turn gate = absurd (cc)
gate_phase-current gs p a awaiting_second_draw passed turn gate =
    require_current_seat-current gs p passed (raise_if-eq-ok _ _ _ gate).1
gate_phase-current gs p a awaiting_tunnel passed turn gate =
    require_current_seat-current gs p passed (raise_if-eq-ok _ _ _ gate).1
gate_phase-current gs p a awaiting_ticket_keep passed turn gate =
    require_current_seat-current gs p passed (raise_if-eq-ok _ _ _ gate).1
gate_phase-current gs p a normal passed turn gate =
    require_current_seat-current gs p passed (raise_if-eq-ok _ _ _ gate).1
gate_phase-current gs p a scoring passed turn gate = absurd (cc)
gate_phase-current gs p a finished passed turn gate = absurd (cc)

-- An action that succeeds has passed the gate and was dispatched.
apply_steps :
    (e : Engine) (gs : GameState) (p : Player) (user_id : ℕ) (a : Action) (moved : GameState)
    → player_by_user gs user_id ≡ some p
    → apply e gs user_id a ≡ ok moved
    → (passed : Unit {0}) × (check_phase_gate gs p a ≡ ok passed)
      × ((after : GameState) × (dispatch e gs p a ≡ ok after))
unfolding apply
apply_steps e gs p user_id a moved seated done =
    let (q, found, step1) = or_raise-eq-ok (player_by_user gs user_id) not_seated _ done in
    let same : q ≡ p = ground (arith, found, seated) in
    let (passed, gate, step2) = >>=-eq-ok (check_phase_gate gs q a) _ step1 in
    let (after, acted, out) = >>=-eq-ok (dispatch e gs q a) _ step2 in
    (
      passed,
      subst (λ r. check_phase_gate gs r a ≡ ok passed) same gate,
      (after, subst (λ r. dispatch e gs r a ≡ ok after) same acted),
    )

gate-playing :
    (gs : GameState) (p : Player) (a : Action) (passed : Unit {0})
    → is_resign a ≡ false
    → check_phase_gate gs p a ≡ ok passed
    → (p.resigned ≡ false) × (gate_phase gs p a gs.phase ≡ ok passed)
unfolding check_phase_gate
gate-playing gs p a passed stays gate =
    let (running, step1) = raise_if-eq-ok (is_finished gs.phase) game_over _ gate in
    raise_if-eq-ok p.resigned illegal_action (gate_phase gs p a gs.phase)
      (ground (arith, step1, stays))

resign-playing :
    (e : Engine) (gs : GameState) (p : Player) (a : Action) (after : GameState)
    → is_resign a ≡ true
    → dispatch e gs p a ≡ ok after
    → p.resigned ≡ false
unfolding dispatch apply_resign
resign-playing e gs p resign after leaves done =
    let (m, mapped, left) = >>=-eq-ok (e.get_map gs.map_id gs.map_version) _ done in
    (raise_if-eq-ok p.resigned illegal_action _ left).0
resign-playing e gs p _ after leaves done = absurd (cc)

-- An action succeeds only for a player who has not resigned.
pub apply-playing :
    (e : Engine) (gs : GameState) (p : Player) (user_id : ℕ) (a : Action) (moved : GameState)
    → player_by_user gs user_id ≡ some p
    → apply e gs user_id a ≡ ok moved
    → p.resigned ≡ false
apply-playing e gs p user_id a moved seated done =
    let (passed, gate, (after, acted)) = apply_steps e gs p user_id a moved seated done in
    elim (Bool-cases (is_resign a)) [
      | inl leaves ↦ resign-playing e gs p a after leaves acted
      | inr stays ↦ (gate-playing gs p a passed stays gate).0
    ]

-- Outside the setup, an action other than a resignation succeeds only for the player at the
-- current seat.
pub apply-current :
    (e : Engine) (gs : GameState) (p : Player) (user_id : ℕ) (a : Action) (moved : GameState)
    → player_by_user gs user_id ≡ some p
    → is_resign a ≡ false
    → is_setup gs.phase ≡ false
    → apply e gs user_id a ≡ ok moved
    → is_current_player gs p ≡ true
apply-current e gs p user_id a moved seated stays turn done =
    let (passed, gate, (after, acted)) = apply_steps e gs p user_id a moved seated done in
    gate_phase-current gs p a gs.phase passed turn (gate-playing gs p a passed stays gate).1
