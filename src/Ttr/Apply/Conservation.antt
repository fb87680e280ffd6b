-- ===== src/Ttr/Apply/Conservation.antt =====
-- engine.go: the train cards over `Apply`.
use bgex_backend.Base.{
  ℕ, suc, ◌≡◌, refl, true, false, some, find_first, find_first-holds, ok, >>=-eq-ok, raise_if-eq-ok,
  or_raise-eq-ok, arith, subst,
}
use bgex_backend.Engine.{illegal_action, game_over, not_seated}
use bgex_backend.Ttr.State.{
  Phase, normal, awaiting_second_draw, awaiting_tunnel, awaiting_ticket_keep, scoring, finished,
  Player, GameState, Engine, Action, draw_card, claim_route, build_station, draw_tickets,
  resolve_decision, resign, unknown_action, ResolveDecisionPayload, DecisionKind, ticket_keep,
  tunnel, end_draw, has_user, player_by_user,
}
use bgex_backend.Ttr.Colors.{is_card_color}
use bgex_backend.Ttr.Piles.Counts.{KeepsCards}
use bgex_backend.Ttr.Cards.{
  needs_no_tunnel, free_cards, total_cards, Settled, Conserves, done_injective,
}
use bgex_backend.Ttr.TurnFlow.Cards.{apply_resign-Conserves}
use bgex_backend.Ttr.Draw.Cards.{apply_draw_card-Conserves, apply_end_draw_decision-Conserves}
use bgex_backend.Ttr.Tickets.Cards.{
  apply_draw_tickets-Conserves, resolve_ticket_keep-Conserves,
  apply_setup_tickets_decision-Conserves,
}
use bgex_backend.Ttr.Claim.Conservation.{
  HasBoundedMaps, RangesAll, apply_claim_route-Conserves, resolve_tunnel-Conserves,
}
use bgex_backend.Ttr.Station.Cards.{apply_build_station-Conserves}
use bgex_backend.Ttr.Apply.{
  is_turn_action, is_resign, is_finished, check_phase_gate, gate_phase, resolve_in, dispatch, apply,
}

-- The gate lets a turn action through only where no tunnel is pending.
gate_phase-tunnel :
    (gs : GameState) (p : Player) (a : Action) (ph : Phase) (passed : Unit {0})
    → is_turn_action a ≡ true
    → gate_phase gs p a ph ≡ ok passed
    → needs_no_tunnel ph ≡ true
unfolding gate_phase
gate_phase-tunnel gs p a Phase.setup_tickets passed turn gate = refl
gate_phase-tunnel gs p a Phase.unspecified passed turn gate = refl
gate_phase-tunnel gs p a normal passed turn gate = refl
gate_phase-tunnel gs p a awaiting_second_draw passed turn gate = refl
gate_phase-tunnel gs p a awaiting_ticket_keep passed turn gate = refl
gate_phase-tunnel gs p a scoring passed turn gate = refl
gate_phase-tunnel gs p a finished passed turn gate = absurd (cc)
gate_phase-tunnel gs p (draw_card s i) awaiting_tunnel passed turn gate = absurd (cc)
gate_phase-tunnel gs p (claim_route i w) awaiting_tunnel passed turn gate = absurd (cc)
gate_phase-tunnel gs p (build_station i w) awaiting_tunnel passed turn gate = absurd (cc)
gate_phase-tunnel gs p draw_tickets awaiting_tunnel passed turn gate = absurd (cc)
gate_phase-tunnel gs p (resolve_decision pl) awaiting_tunnel passed turn gate = absurd (cc)
gate_phase-tunnel gs p resign awaiting_tunnel passed turn gate = absurd (cc)
gate_phase-tunnel gs p unknown_action awaiting_tunnel passed turn gate = absurd (cc)

gated_phase :
    (gs : GameState) (p : Player) (a : Action) (passed : Unit {0})
    → is_turn_action a ≡ true
    → is_resign a ≡ false
    → check_phase_gate gs p a ≡ ok passed
    → needs_no_tunnel gs.phase ≡ true
unfolding check_phase_gate
gated_phase gs p a passed turn stays gate =
    let (running, step1) = raise_if-eq-ok (is_finished gs.phase) game_over _ gate in
    let (playing, step2) =
      raise_if-eq-ok p.resigned illegal_action (gate_phase gs p a gs.phase)
        (ground (arith, step1, stays)) in
    gate_phase-tunnel gs p a gs.phase passed turn step2

-- The state as `Apply` returns it.
abbrev counted_up : GameState → GameState
counted_up gs = record gs { seq = suc gs.seq }

module _ (e : Engine) (keeps : KeepsCards e) (ranges : RangesAll e) (bounded : HasBoundedMaps e)
    (c : ℕ) (card : is_card_color c ≡ true) where
  resolve_in-Conserves :
      (gs : GameState) (p : Player) (pl : ResolveDecisionPayload) (moved : GameState)
      → find_first (has_user p.user_id) gs.players ≡ some p
      → Settled gs
      → (ph : Phase) → gs.phase ≡ ph
      → (kind : DecisionKind) → resolve_in e gs p pl ph kind ≡ ok moved
      → Conserves c gs moved
  unfolding resolve_in
  resolve_in-Conserves gs p pl moved found settled Phase.setup_tickets at DecisionKind.setup_tickets
        done =
      apply_setup_tickets_decision-Conserves c gs p pl.keep_ticket_ids moved found
        (settled (rw at refl)) done
  resolve_in-Conserves gs p pl moved found settled awaiting_ticket_keep at ticket_keep done =
      let (m, mapped, kept) = >>=-eq-ok (e.get_map gs.map_id gs.map_version) _ done in
      resolve_ticket_keep-Conserves c e m gs p pl.keep_ticket_ids moved found (settled (rw at refl))
        kept
  resolve_in-Conserves gs p pl moved found settled awaiting_tunnel at tunnel done =
      let (m, mapped, resolved) = >>=-eq-ok (e.get_map gs.map_id gs.map_version) _ done in
      resolve_tunnel-Conserves e keeps c card ranges m gs p pl moved found resolved
  resolve_in-Conserves gs p pl moved found settled awaiting_second_draw at end_draw done =
      let (m, mapped, ended) = >>=-eq-ok (e.get_map gs.map_id gs.map_version) _ done in
      apply_end_draw_decision-Conserves e keeps c m gs p moved (settled (rw at refl)) ended
  resolve_in-Conserves gs p pl moved found settled _ at _ done = absurd (cc)

  dispatch-Conserves :
      (gs : GameState) (p : Player) (a : Action) (moved : GameState) (passed : Unit {0})
      → find_first (has_user p.user_id) gs.players ≡ some p
      → Settled gs
      → check_phase_gate gs p a ≡ ok passed
      → dispatch e gs p a ≡ ok moved
      → Conserves c gs moved
  unfolding dispatch
  dispatch-Conserves gs p (resolve_decision pl) moved passed found settled gate done =
      resolve_in-Conserves gs p pl moved found settled gs.phase refl pl.kind done
  dispatch-Conserves gs p (draw_card source slot) moved passed found settled gate done =
      let (m, mapped, drawn) = >>=-eq-ok (e.get_map gs.map_id gs.map_version) _ done in
      apply_draw_card-Conserves e keeps c m gs p source slot moved found
        (settled (gated_phase gs p (draw_card source slot) passed refl refl gate)) drawn
  dispatch-Conserves gs p (claim_route id payment) moved passed found settled gate done =
      apply_claim_route-Conserves e keeps c card bounded gs p id payment moved found
        (settled (gated_phase gs p (claim_route id payment) passed refl refl gate)) done
  dispatch-Conserves gs p (build_station id payment) moved passed found settled gate done =
      let (m, mapped, built) = >>=-eq-ok (e.get_map gs.map_id gs.map_version) _ done in
      apply_build_station-Conserves e c card m gs p id payment moved found
        (settled (gated_phase gs p (build_station id payment) passed refl refl gate))
        (bounded gs.map_id gs.map_version m mapped).1 built
  dispatch-Conserves gs p draw_tickets moved passed found settled gate done =
      apply_draw_tickets-Conserves c gs moved
        (settled (gated_phase gs p draw_tickets passed refl refl gate)) done
  dispatch-Conserves gs p resign moved passed found settled gate done =
      let (m, mapped, left) = >>=-eq-ok (e.get_map gs.map_id gs.map_version) _ done in
      apply_resign-Conserves e m c gs p moved card found settled left
  dispatch-Conserves gs p unknown_action moved passed found settled gate done = absurd (cc)

  counted_up-Conserves :
      (gs moved : GameState) → Conserves c gs moved → Conserves c gs (counted_up moved)
  unfolding total_cards free_cards
  counted_up-Conserves gs moved kept = record {
    same_total = kept.same_total;
    still_settled = kept.still_settled;
  }

  -- An action that succeeds keeps the number of train cards of each card color, over the piles, the
  -- hands and a pending tunnel, if no tunnel is pending except in its own phase and in a finished
  -- game, a shuffle keeps the cards, a range over a Go map visits every card color, and the map has
  -- no route of length 2^31 or more and fewer than 2^31 - 1 stations for each player. Afterwards no
  -- tunnel is pending elsewhere either.
  pub apply-Conserves :
      (gs : GameState) (user_id : ℕ) (a : Action) (moved : GameState)
      → Settled gs
      → apply e gs user_id a ≡ ok moved
      → Conserves c gs moved
  unfolding apply player_by_user
  apply-Conserves gs user_id a moved settled done =
      let (p, seated, step1) = or_raise-eq-ok (player_by_user gs user_id) not_seated _ done in
      let (passed, gate, step2) = >>=-eq-ok (check_phase_gate gs p a) _ step1 in
      let (after, acted, out) = >>=-eq-ok (dispatch e gs p a) _ step2 in
      let same_user : p.user_id ≡ user_id =
        ground (arith, find_first-holds (has_user user_id) gs.players p seated) in
      let found : find_first (has_user p.user_id) gs.players ≡ some p = rw same_user seated in
      subst (Conserves c gs) (done_injective (counted_up after) moved out) (
        counted_up-Conserves gs after
          (dispatch-Conserves gs p a after passed found settled gate acted))
