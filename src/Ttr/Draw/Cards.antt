-- ===== src/Ttr/Draw/Cards.antt =====
-- draw.go: the train cards as a card is drawn.
use bgex_backend.Base.{
  ℕ, ◌+◌, ◌≡◌, ◌∙◌, sym, subst, Bool, true, false, not, ◌&&◌, Option, none, some, [], ◌∷◌, ltb,
  ◌==◌, get_elem?, find_first, Result, ok, >>=-eq-ok, raise_if-eq-ok, or_raise-eq-ok, arith,
}
use bgex_backend.Base.Int.{ℤ, pos, negsuc}
use bgex_backend.Engine.{Error, illegal_action}
use bgex_backend.Ttr.State.{
  Player, Piles, GameState, Map, Engine, DrawSource, deck, face_up, unknown_source, color_loco,
  has_user, write_player,
}
use bgex_backend.Ttr.Colors.{count_color}
use bgex_backend.Ttr.Piles.{face_up_slots, second_draw_available}
use bgex_backend.Ttr.Piles.Counts.{
  piles_count, KeepsCards, piles_count-pop_draw_pile, piles_count-take_face_up,
}
use bgex_backend.Ttr.Cards.{
  free_cards, total_cards, Conserves, free_cards-write_player, total_cards_free, free_Conserves,
  done_injective,
}
use bgex_backend.Ttr.TurnFlow.Cards.{end_turn-Conserves}
use bgex_backend.Ttr.Draw.{
  add_to_hand, is_loco_locked, resolve_slot, resolve_deck, resolve_draw_source, remove_drawn,
  finish_draw, apply_draw_card, apply_end_draw_decision,
}

abbrev drawn_as : ℕ → Option ℕ → Piles → Result Error (ℕ × Option ℕ × Piles)
drawn_as card from piles = ok (card, from, piles)

module _ (e : Engine) (keeps : KeepsCards e) (c : ℕ) where
  -- A draw that resolves takes the card that it names out of the piles, and no other.
  abbrev Takes : GameState → ℕ → Option ℕ → Piles → Type 0
  Takes gs card from piles =
      piles_count c (remove_drawn e from piles) + count_color c (card ∷ []) ≡ piles_count c gs.piles

  resolve_deck-Takes :
      (gs : GameState) (card : ℕ) (from : Option ℕ) (piles : Piles)
      → resolve_deck e gs ≡ drawn_as card from piles
      → Takes gs card from piles
  unfolding resolve_deck remove_drawn
  resolve_deck-Takes gs card from piles done =
      let counted = piles_count-pop_draw_pile e keeps c gs.piles in ground (arith, done, counted)

  resolve_slot-Takes :
      (gs : GameState) (slot card : ℕ) (from : Option ℕ) (piles : Piles)
      → resolve_slot gs slot ≡ drawn_as card from piles
      → Takes gs card from piles
  unfolding resolve_slot remove_drawn
  resolve_slot-Takes gs slot card from piles done =
      let (low, found) = raise_if-eq-ok (not (ltb slot face_up_slots)) illegal_action _ done in
      let (d, at_slot, checked) =
        or_raise-eq-ok (get_elem? gs.piles.face_up slot) illegal_action _ found in
      let (free, out) =
        raise_if-eq-ok (is_loco_locked gs.draw && (d == color_loco)) illegal_action _ checked in
      let counted = piles_count-take_face_up e keeps c gs.piles slot d at_slot in
      ground (arith, out, counted)

  pub resolve_draw_source-Takes :
      (gs : GameState) (source : DrawSource) (slot : ℤ) (card : ℕ) (from : Option ℕ) (piles : Piles)
      → resolve_draw_source e gs source slot ≡ drawn_as card from piles
      → Takes gs card from piles
  unfolding resolve_draw_source
  resolve_draw_source-Takes gs deck slot card from piles done =
      resolve_deck-Takes gs card from piles done
  resolve_draw_source-Takes gs face_up (pos i) card from piles done =
      resolve_slot-Takes gs i card from piles done
  resolve_draw_source-Takes gs face_up (negsuc n) card from piles done = absurd (cc)
  resolve_draw_source-Takes gs unknown_source slot card from piles done = absurd (cc)

  hand-add_to_hand :
      (card : ℕ) (p : Player) → (add_to_hand card p).hand c ≡ p.hand c + count_color c (card ∷ [])
  unfolding add_to_hand
  hand-add_to_hand card p = ground arith

  abbrev drawn : GameState → Player → ℕ → Option ℕ → Piles → GameState
  drawn gs p card from piles =
      write_player (add_to_hand card p) (record gs { piles = remove_drawn e from piles })

  free_cards-drawn :
      (gs : GameState) (p : Player) (card : ℕ) (from : Option ℕ) (piles : Piles)
      → find_first (has_user p.user_id) gs.players ≡ some p
      → Takes gs card from piles
      → free_cards c (drawn gs p card from piles) ≡ free_cards c gs
  free_cards-drawn gs p card from piles found taken =
      let mid = record gs { piles = remove_drawn e from piles } in
      let written =
        free_cards-write_player c (add_to_hand card p) p mid (unfold add_to_hand in found) in
      let counted : free_cards c mid + count_color c (card ∷ []) ≡ free_cards c gs =
        unfold free_cards in omega (arith, taken) in
      omega (arith, written, counted, hand-add_to_hand card p)

  module _ (m : Map) where
    finish_draw-Conserves :
        (p : Player) (ends : Bool) (gs mid moved : GameState)
        → mid.pending_tunnel ≡ none
        → free_cards c mid ≡ total_cards c gs
        → finish_draw e m p ends mid ≡ ok moved
        → Conserves c gs moved
    unfolding finish_draw
    finish_draw-Conserves p true gs mid moved no_tunnel same done =
        end_turn-Conserves e m c p gs (record mid { draw = none }) moved done
          (unfold free_cards in same)
    finish_draw-Conserves p false gs mid moved no_tunnel same done =
        subst (Conserves c gs) (done_injective _ moved done)
          (free_Conserves c gs _ no_tunnel (unfold free_cards in same))

    -- Drawing a card keeps the cards, if no tunnel is pending.
    pub apply_draw_card-Conserves :
        (gs : GameState) (p : Player) (source : DrawSource) (slot : ℤ) (moved : GameState)
        → find_first (has_user p.user_id) gs.players ≡ some p
        → gs.pending_tunnel ≡ none
        → apply_draw_card e m gs p source slot ≡ ok moved
        → Conserves c gs moved
    unfolding apply_draw_card
    apply_draw_card-Conserves gs p source slot moved found no_tunnel done =
        let ((card, from, piles), resolved, finished) =
          >>=-eq-ok (resolve_draw_source e gs source slot) _ done in
        finish_draw-Conserves (add_to_hand card p) _ gs (drawn gs p card from piles) moved
          (unfold write_player in no_tunnel)
          (free_cards-drawn gs p card from piles found
              (resolve_draw_source-Takes gs source slot card from piles resolved)
            ∙ sym (total_cards_free c gs no_tunnel))
          finished

    pub apply_end_draw_decision-Conserves :
        (gs : GameState) (p : Player) (moved : GameState)
        → gs.pending_tunnel ≡ none
        → apply_end_draw_decision e m gs p ≡ ok moved
        → Conserves c gs moved
    unfolding apply_end_draw_decision free_cards
    apply_end_draw_decision-Conserves gs p moved no_tunnel done =
        let (impossible, ended) =
          raise_if-eq-ok (second_draw_available gs.piles) illegal_action _ done in
        end_turn-Conserves e m c p gs (record gs { draw = none }) moved ended
          (sym (total_cards_free c gs no_tunnel))
