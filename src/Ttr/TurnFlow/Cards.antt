-- ===== src/Ttr/TurnFlow/Cards.antt =====
-- turnflow.go: where the train cards are at the end of a turn and at a resignation.
use bgex_backend.Base.{
  ℕ, zero, suc, ◌≡◌, ◌∙◌, refl, ap, subst, Bool, true, false, Option, none, some, ltb, length,
  find_first, ok, >>=-eq-ok, raise_if-eq-ok, arith, Bool-cases, Option-cases, inl, inr,
}
use bgex_backend.Engine.{illegal_action}
use bgex_backend.Ttr.State.{
  Player, PendingTunnel, GameState, Map, Engine, scoring, has_user, write_player, active_players,
}
use bgex_backend.Ttr.Colors.{is_card_color, count_color, cards_of, canonical_discard_order}
use bgex_backend.Ttr.Piles.Counts.{piles_count, count_color-append}
use bgex_backend.Ttr.Cards.{
  free_cards, held_by_tunnel, total_cards, Conserves, Settled, count_color-discarded,
  free_cards-discard, done_injective, free_cards-write_player,
}
use bgex_backend.Ttr.TurnFlow.{
  finalize_game, advance_or_finish, end_turn, discard, held_cards,
  release_pending_decision_on_resign, holds_turn, leave, pass_on_resign, after_leaving,
  apply_resign, clamp,
}

-- The cards stay where they are, and the pending tunnel too.
pub record Stays (gs moved : GameState) : Type 0 where
  pub same_piles : moved.piles ≡ gs.piles
  pub same_players : moved.players ≡ gs.players
  pub same_tunnel : moved.pending_tunnel ≡ gs.pending_tunnel

module _ (e : Engine) (m : Map) where
  finalize_game-Stays : (gs moved : GameState) → finalize_game e m gs ≡ ok moved → Stays gs moved
  unfolding finalize_game
  finalize_game-Stays gs moved done =
      let (results, scored, closed) =
        >>=-eq-ok (e.final_score m (record gs { phase = scoring })) _ done in
      ground (arith, closed)

  pub advance_or_finish-Stays :
      (gs moved : GameState) → advance_or_finish e m gs ≡ ok moved → Stays gs moved
  unfolding advance_or_finish
  advance_or_finish-Stays gs moved done = elim (Option-cases gs.final_turns_left) [
    | inl unarmed ↦ ground (arith, done)
    | inr (zero, armed) ↦ finalize_game-Stays gs moved (ground (arith, done))
    | inr (suc k, armed) ↦ ground (arith, done)
  ]

  -- The end of a turn leaves the cards where they are and no tunnel pending.
  pub end_turn-Stays :
      (p : Player) (gs moved : GameState)
      → end_turn e m p gs ≡ ok moved
      → (moved.piles ≡ gs.piles) × (moved.players ≡ gs.players) × (moved.pending_tunnel ≡ none)
  unfolding end_turn
  end_turn-Stays p gs moved done =
      let s = advance_or_finish-Stays _ moved done in (s.same_piles, s.same_players, s.same_tunnel)

  pass_on_resign-Stays :
      (holds : Bool) (gs moved : GameState)
      → pass_on_resign e m holds gs ≡ ok moved
      → Stays gs moved
  unfolding pass_on_resign
  pass_on_resign-Stays false gs moved done = ground (arith, done)
  pass_on_resign-Stays true gs moved done =
      let s = advance_or_finish-Stays _ moved done in
      record {
        same_piles = s.same_piles;
        same_players = s.same_players;
        same_tunnel = s.same_tunnel;
      }

  abbrev clamped : GameState → GameState
  clamped gs = record gs {
    final_turns_left = clamp gs.final_turns_left (length (active_players gs));
  }

  after_leaving-Stays :
      (holds : Bool) (gs moved : GameState) → after_leaving e m holds gs ≡ ok moved → Stays gs moved
  unfolding after_leaving
  after_leaving-Stays holds gs moved done = elim (Bool-cases (ltb (length (active_players gs)) 2)) [
    | inl few ↦ finalize_game-Stays gs moved (ground (arith, done))
    | inr enough ↦
        let s = pass_on_resign-Stays holds (clamped gs) moved (ground (arith, done)) in
        record {
          same_piles = s.same_piles;
          same_players = s.same_players;
          same_tunnel = s.same_tunnel;
        }
  ]

  finalize_game-finished : (gs moved : GameState) → finalize_game e m gs ≡ ok moved → Settled moved
  unfolding finalize_game
  finalize_game-finished gs moved done =
      let (results, scored, closed) =
        >>=-eq-ok (e.final_score m (record gs { phase = scoring })) _ done in
      ground (arith, closed)

  -- Who resigns out of turn leaves the phase alone, or the game is over.
  after_leaving-Settled :
      (gs moved : GameState) → Settled gs → after_leaving e m false gs ≡ ok moved → Settled moved
  unfolding after_leaving pass_on_resign
  after_leaving-Settled gs moved settled done =
      elim (Bool-cases (ltb (length (active_players gs)) 2)) [
        | inl few ↦ finalize_game-finished gs moved (ground (arith, done))
        | inr enough ↦
            subst Settled (done_injective (clamped gs) moved (ground (arith, done))) settled
      ]

  module _ (c : ℕ) where
    -- The end of the turn of a move that has dealt with the tunnel.
    pub end_turn-Conserves :
        (p : Player) (gs mid moved : GameState)
        → end_turn e m p mid ≡ ok moved
        → free_cards c mid ≡ total_cards c gs
        → Conserves c gs moved
    unfolding free_cards total_cards
    end_turn-Conserves p gs mid moved done same =
        let (piles, players, no_tunnel) = end_turn-Stays p mid moved done in
        record {
          same_total = rw (piles, players, no_tunnel) (omega (arith, same));
          still_settled = λ _. no_tunnel;
        }

    count_color-held_cards :
        (pt : Option PendingTunnel)
        → is_card_color c ≡ true
        → count_color c (held_cards pt) ≡ held_by_tunnel c pt
    count_color-held_cards none card = refl
    count_color-held_cards (some pt) card = omega (
      arith,
      count_color-append c (cards_of pt.base_payment canonical_discard_order) pt.revealed,
      count_color-discarded c pt.base_payment card,
    )

    free_cards-release :
        (gs : GameState)
        → is_card_color c ≡ true
        → free_cards c (release_pending_decision_on_resign gs) ≡ total_cards c gs
    unfolding release_pending_decision_on_resign total_cards free_cards discard piles_count
    free_cards-release gs card =
        let held = count_color-held_cards gs.pending_tunnel card in
        free_cards-discard c (held_cards gs.pending_tunnel) gs ∙ omega (arith, held)

    free_cards-leave :
        (p : Player) (gs : GameState)
        → is_card_color c ≡ true
        → find_first (has_user p.user_id) gs.players ≡ some p
        → free_cards c (leave p gs) ≡ free_cards c gs
    unfolding leave
    free_cards-leave p gs card found =
        let cards = cards_of p.hand canonical_discard_order in
        let gone = record p { hand = λ _. 0; resigned = true } in
        let written =
          free_cards-write_player c gone p (discard cards gs) (unfold discard in found) in
        omega (arith, written, free_cards-discard c cards gs, count_color-discarded c p.hand card)

    Stays-total : (gs moved : GameState) → Stays gs moved → total_cards c moved ≡ total_cards c gs
    unfolding total_cards free_cards
    Stays-total gs moved s = rw (s.same_piles, s.same_players, s.same_tunnel) refl

    pending_tunnel-leave :
        (p : Player) (gs : GameState) → (leave p gs).pending_tunnel ≡ gs.pending_tunnel
    unfolding leave write_player discard
    pending_tunnel-leave p gs = refl

    leave-Settled : (p : Player) (gs : GameState) → Settled gs → Settled (leave p gs)
    unfolding leave write_player discard
    leave-Settled p gs settled = settled

    total_cards-leave :
        (p : Player) (gs : GameState)
        → is_card_color c ≡ true
        → find_first (has_user p.user_id) gs.players ≡ some p
        → total_cards c (leave p gs) ≡ total_cards c gs
    unfolding total_cards
    total_cards-leave p gs card found =
        omega (
          arith,
          free_cards-leave p gs card found,
          ap (held_by_tunnel c) (pending_tunnel-leave p gs),
        )

    leave-Conserves :
        (holds : Bool) (p : Player) (gs mid moved : GameState)
        → is_card_color c ≡ true
        → find_first (has_user p.user_id) mid.players ≡ some p
        → total_cards c mid ≡ total_cards c gs
        → Settled moved
        → after_leaving e m holds (leave p mid) ≡ ok moved
        → Conserves c gs moved
    leave-Conserves holds p gs mid moved card found same settled done =
        let s = after_leaving-Stays holds (leave p mid) moved done in
        record {
          same_total = Stays-total _ moved s ∙ total_cards-leave p mid card found ∙ same;
          still_settled = settled;
        }

    held_released : (gs : GameState) → (release_pending_decision_on_resign gs).pending_tunnel ≡ none
    unfolding release_pending_decision_on_resign
    held_released gs = refl

    found_released :
        (p : Player) (gs : GameState)
        → find_first (has_user p.user_id) gs.players ≡ some p
        → find_first (has_user p.user_id) (release_pending_decision_on_resign gs).players ≡ some p
    unfolding release_pending_decision_on_resign discard
    found_released p gs found = found

    released_total :
        (gs : GameState)
        → is_card_color c ≡ true
        → total_cards c (release_pending_decision_on_resign gs) ≡ total_cards c gs
    released_total gs card =
        let kept = free_cards-release gs card in
        let no_tunnel = held_released gs in
        let opened : total_cards c (release_pending_decision_on_resign gs)
            ≡ free_cards c (release_pending_decision_on_resign gs) =
          unfold total_cards in omega (arith, ap (held_by_tunnel c) no_tunnel) in
        opened ∙ kept

    -- A resignation keeps the cards: the hand and what a tunnel held are discarded.
    pub apply_resign-Conserves :
        (gs : GameState) (p : Player) (moved : GameState)
        → is_card_color c ≡ true
        → find_first (has_user p.user_id) gs.players ≡ some p
        → Settled gs
        → apply_resign e m gs p ≡ ok moved
        → Conserves c gs moved
    unfolding apply_resign
    apply_resign-Conserves gs p moved card found settled done =
        let (playing, left) = raise_if-eq-ok p.resigned illegal_action _ done in
        elim (Bool-cases (holds_turn gs p)) [
          | inr waits ↦
              let out : after_leaving e m false (leave p gs) ≡ ok moved =
                ground (arith, left, waits) in
              leave-Conserves false p gs gs moved card found refl
                (after_leaving-Settled (leave p gs) moved (leave-Settled p gs settled) out) out
          | inl holds ↦
              let released = release_pending_decision_on_resign gs in
              let out : after_leaving e m true (leave p released) ≡ ok moved =
                ground (arith, left, holds) in
              let s = after_leaving-Stays true (leave p released) moved out in
              leave-Conserves true p gs released moved card (found_released p gs found)
                (released_total gs card)
                (λ _. s.same_tunnel ∙ pending_tunnel-leave p released ∙ held_released gs) out
        ]
