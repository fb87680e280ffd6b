-- ===== src/Ttr/Draw.antt =====
-- draw.go: drawing train cards.
pub mod Cards
use bgex_backend.Base.{
  ℕ, ◌+◌, Bool, true, false, ◌&&◌, ◌||◌, Option, none, some, ltb, ◌==◌, if◌then◌else◌, not,
  get_elem?, Result, ok, err, ◌>>=◌, ◌>>◌, raise_if, or_raise,
}
use bgex_backend.Base.Int.{ℤ, pos, negsuc}
use bgex_backend.Engine.{Error, illegal_action}
use bgex_backend.Ttr.State.{
  awaiting_second_draw, Player, Piles, DrawProgress, GameState, Map, Engine, DrawSource, deck,
  face_up, unknown_source, color_loco, write_player,
}
use bgex_backend.Ttr.Piles.{pop_draw_pile, take_face_up, face_up_slots, second_draw_available}
use bgex_backend.Ttr.TurnFlow.{end_turn}

-- `addToHand`
unfoldable pub add_to_hand : ℕ → Player → Player
add_to_hand card p = record p { hand = λ c. if c == card then p.hand c + 1 else p.hand c }

abbrev pub is_second_draw : Option DrawProgress → Bool
is_second_draw none = false
is_second_draw (some d) = ltb 0 d.cards_taken

abbrev pub is_loco_locked : Option DrawProgress → Bool
is_loco_locked none = false
is_loco_locked (some d) = d.face_up_loco_locked

-- The card at a face-up slot.
unfoldable pub resolve_slot : GameState → ℕ → Result Error (ℕ × Option ℕ × Piles)
resolve_slot gs slot = do
  raise_if (not (ltb slot face_up_slots)) illegal_action
  c ← or_raise (get_elem? gs.piles.face_up slot) illegal_action
  raise_if (is_loco_locked gs.draw && (c == color_loco)) illegal_action
  ok (c, some slot, gs.piles)

unfoldable pub resolve_deck : Engine → GameState → Result Error (ℕ × Option ℕ × Piles)
resolve_deck e gs =
    let popped = pop_draw_pile e gs.piles in
    elim popped.0 [ none ↦ err illegal_action | some c ↦ ok (c, none, popped.1) ]

-- `resolveDrawSource`: the card, its face-up slot, and the piles, which a pop has changed.
unfoldable pub resolve_draw_source :
    Engine → GameState → DrawSource → ℤ → Result Error (ℕ × Option ℕ × Piles)
resolve_draw_source e gs deck slot = resolve_deck e gs
resolve_draw_source e gs face_up (pos slot) = resolve_slot gs slot
resolve_draw_source e gs face_up (negsuc n) = err illegal_action
resolve_draw_source e gs unknown_source slot = err illegal_action

abbrev pub is_face_up : Option ℕ → Bool
is_face_up none = false
is_face_up (some slot) = true

unfoldable pub remove_drawn : Engine → Option ℕ → Piles → Piles
remove_drawn e none ps = ps
remove_drawn e (some slot) ps = take_face_up e slot ps

-- The second card, or a face-up locomotive, ends the turn.
unfoldable pub finish_draw : Engine → Map → Player → Bool → GameState → Result Error GameState
finish_draw e m p true gs = end_turn e m p (record gs { draw = none })
finish_draw e m p false gs = ok (record gs {
  draw = some (record { cards_taken = 1; face_up_loco_locked = true });
  phase = awaiting_second_draw;
})

-- `applyDrawCard`
unfoldable pub apply_draw_card :
    Engine → Map → GameState → Player → DrawSource → ℤ → Result Error GameState
apply_draw_card e m gs p source slot = do
  (card, from, piles) ← resolve_draw_source e gs source slot
  let drawer = add_to_hand card p
  finish_draw e m drawer (is_second_draw gs.draw || (is_face_up from && (card == color_loco)))
      (write_player drawer (record gs { piles = remove_drawn e from piles }))

-- `applyEndDrawDecision`
unfoldable pub apply_end_draw_decision : Engine → Map → GameState → Player → Result Error GameState
apply_end_draw_decision e m gs p = do
  raise_if (second_draw_available gs.piles) illegal_action
  end_turn e m p (record gs { draw = none })
