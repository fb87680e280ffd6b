-- ===== src/Ttr/Tickets/Cards.antt =====
-- tickets.go: the train cards over the ticket operations.
use bgex_backend.Base.{
  ℕ, ◌≡◌, ◌∙◌, ◌++◌, refl, sym, subst, true, not, some, none, List, [], ltb, length, find_first, ok,
  >>=-eq-ok, raise_if-eq-ok, or_raise-eq-ok, arith, Bool-cases, inl, inr,
}
use bgex_backend.Engine.{illegal_action}
use bgex_backend.Ttr.State.{Player, GameState, Map, Engine, has_user, write_player}
use bgex_backend.Ttr.Piles.{is_nonempty}
use bgex_backend.Ttr.TurnFlow.Cards.{end_turn-Conserves}
use bgex_backend.Ttr.Cards.{
  free_cards, Conserves, free_cards-write_player, total_cards_free, free_Conserves, done_injective,
}
use bgex_backend.Ttr.Tickets.{
  apply_draw_tickets, resolve_ticket_keep, check_keep, rejected_of, min_tickets_kept_in_game,
  min_tickets_kept_at_setup, complete_setup, all_setup_done, apply_setup_tickets_decision,
}

module _ (c : ℕ) where
  pub apply_draw_tickets-Conserves :
      (gs moved : GameState)
      → gs.pending_tunnel ≡ none
      → apply_draw_tickets gs ≡ ok moved
      → Conserves c gs moved
  unfolding apply_draw_tickets free_cards
  apply_draw_tickets-Conserves gs moved no_tunnel done =
      let (offered, dealt) =
        raise_if-eq-ok (not (is_nonempty gs.ticket_deck)) illegal_action _ done in
      subst (Conserves c gs) (done_injective _ moved dealt)
        (free_Conserves c gs _ no_tunnel (sym (total_cards_free c gs no_tunnel)))

  pub resolve_ticket_keep-Conserves :
      (e : Engine) (m : Map) (gs : GameState) (p : Player) (kept : List ℕ) (moved : GameState)
      → find_first (has_user p.user_id) gs.players ≡ some p
      → gs.pending_tunnel ≡ none
      → resolve_ticket_keep e m gs p kept ≡ ok moved
      → Conserves c gs moved
  unfolding resolve_ticket_keep
  resolve_ticket_keep-Conserves e m gs p kept moved found no_tunnel done =
      let (offered, pending, step1) = or_raise-eq-ok gs.pending_ticket_draw illegal_action _ done in
      let (enough, step2) =
        raise_if-eq-ok (ltb (length kept) min_tickets_kept_in_game) illegal_action _ step1 in
      let (checked, fine, ended) = >>=-eq-ok (check_keep offered [] kept) _ step2 in
      let keeper = record p { ticket_ids = p.ticket_ids ++ kept } in
      let dealt = record gs {
        ticket_deck = gs.ticket_deck ++ rejected_of kept offered;
        pending_ticket_draw = none;
      } in
      let same : free_cards c dealt ≡ free_cards c gs = unfold free_cards in refl in
      end_turn-Conserves e m c keeper gs (write_player keeper dealt) moved ended (
        omega (
          arith,
          free_cards-write_player c keeper p dealt found,
          same,
          total_cards_free c gs no_tunnel,
        ))

  complete_setup-free :
      (gs : GameState)
      → (free_cards c (complete_setup gs) ≡ free_cards c gs)
        × ((complete_setup gs).pending_tunnel ≡ gs.pending_tunnel)
  unfolding complete_setup free_cards
  complete_setup-free gs = elim (Bool-cases (all_setup_done gs)) [
    | inl complete ↦ rw complete (refl, refl)
    | inr waits ↦ rw waits (refl, refl)
  ]

  pub apply_setup_tickets_decision-Conserves :
      (gs : GameState) (p : Player) (kept : List ℕ) (moved : GameState)
      → find_first (has_user p.user_id) gs.players ≡ some p
      → gs.pending_tunnel ≡ none
      → apply_setup_tickets_decision gs p kept ≡ ok moved
      → Conserves c gs moved
  unfolding apply_setup_tickets_decision
  apply_setup_tickets_decision-Conserves gs p kept moved found no_tunnel done =
      let (fresh, step1) = raise_if-eq-ok p.setup_done illegal_action _ done in
      let (enough, step2) =
        raise_if-eq-ok (ltb (length kept) min_tickets_kept_at_setup) illegal_action _ step1 in
      let (checked, fine, out) = >>=-eq-ok (check_keep p.setup_ticket_offer [] kept) _ step2 in
      let keeper = record p {
        ticket_ids = p.ticket_ids ++ kept;
        setup_ticket_offer = [];
        setup_done = true;
      } in
      let (same, tunnel) = complete_setup-free (write_player keeper gs) in
      subst (Conserves c gs) (done_injective _ moved out) (
        free_Conserves c gs _ (tunnel ∙ (unfold write_player in no_tunnel)) (
          omega (
            arith,
            same,
            free_cards-write_player c keeper p gs found,
            total_cards_free c gs no_tunnel,
          )))
