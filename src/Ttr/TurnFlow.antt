-- ===== src/Ttr/TurnFlow.antt =====
-- turnflow.go: the end of a turn, resignation and the end of the game. A final score that fails ends
-- the action with its error.
pub mod Cards
pub mod Order
use bgex_backend.Base.{
  ℕ, zero, suc, ◌+◌, ◌%◌, Bool, true, false, ◌&&◌, ◌||◌, Option, none, some, List, [], ◌∷◌, ◌++◌,
  ltb, leb, ◌==◌, if◌then◌else◌, length, get_elem?, min, Result, ok, ◌>>=◌, ◌>>◌, raise_if,
}
use bgex_backend.Engine.{Error, illegal_action}
use bgex_backend.Ttr.State.{
  Phase, normal, awaiting_second_draw, awaiting_tunnel, awaiting_ticket_keep, scoring, finished,
  Player, PendingTunnel, GameState, Map, Engine, player_by_seat, active_players, write_player,
}
use bgex_backend.Ttr.Colors.{canonical_discard_order, cards_of}

abbrev pub end_trigger_trains : ℕ
end_trigger_trains = 2

-- Where the loop finds the seat among the active players.
unfoldable pub position_of_seat : ℕ → List Player → Option ℕ
position_of_seat seat [] = none
position_of_seat seat (p ∷ ps) =
    let later = position_of_seat seat ps in
    if p.seat_index == seat then some 0 else elim later [ none ↦ none | some i ↦ some (suc i) ]

-- The seat of the player at a position, which is in range wherever this is called.
unfoldable pub seat_at : ℕ → List Player → ℕ → ℕ
seat_at seat active i = elim (get_elem? active i) [ none ↦ seat | some p ↦ p.seat_index ]

abbrev pub next_among : ℕ → List Player → ℕ
next_among seat active = elim (position_of_seat seat active) [
  | none ↦ seat_at seat active 0
  | some i ↦ seat_at seat active ((i + 1) % length active)
]

-- `nextActiveSeat`
unfoldable pub next_active_seat : GameState → ℕ → ℕ
next_active_seat gs seat = elim (active_players gs) [
  | [] ↦ seat
  | (p ∷ ps) ↦ next_among seat (p ∷ ps)
]

-- `isCurrentPlayer`
unfoldable pub is_current_player : GameState → Player → Bool
is_current_player gs p = elim (player_by_seat gs gs.current_seat) [
  | none ↦ false
  | some cur ↦ cur.user_id == p.user_id
]

-- `finalizeGame`
unfoldable pub finalize_game : Engine → Map → GameState → Result Error GameState
finalize_game e m gs = do
  results ← e.final_score m (record gs { phase = scoring })
  ok (record gs { results = results; phase = finished })

abbrev pub pass_turn : GameState → GameState
pass_turn gs = record gs { phase = normal; current_seat = next_active_seat gs gs.current_seat }

-- `advanceOrFinish`
unfoldable pub advance_or_finish : Engine → Map → GameState → Result Error GameState
advance_or_finish e m gs = elim gs.final_turns_left [
  | none ↦ ok (pass_turn gs)
  | some zero ↦ finalize_game e m gs
  | some (suc k) ↦ ok (pass_turn gs)
]

abbrev pub decrement : Option ℕ → Option ℕ
decrement none = none
decrement (some zero) = none
decrement (some (suc k)) = some k

-- Arm the countdown of the last round, or count it down; never both.
unfoldable pub count_down : Option ℕ → ℕ → ℕ → Option ℕ
count_down none trains_left active =
    if leb trains_left end_trigger_trains then some active else none
count_down (some k) trains_left active = decrement (some k)

-- `endTurn`, with the player as written in the state.
unfoldable pub end_turn : Engine → Map → Player → GameState → Result Error GameState
end_turn e m p gs = advance_or_finish e m (record gs {
  draw = none;
  pending_tunnel = none;
  pending_ticket_draw = none;
  turn_no = suc gs.turn_no;
  final_turns_left = count_down gs.final_turns_left p.trains_left (length (active_players gs));
})

unfoldable pub discard : List ℕ → GameState → GameState
discard cards gs = record gs {
  piles = record gs.piles { discard_pile = gs.piles.discard_pile ++ cards };
}

abbrev pub held_cards : Option PendingTunnel → List ℕ
held_cards none = []
held_cards (some pt) = cards_of pt.base_payment canonical_discard_order ++ pt.revealed

abbrev pub offered_tickets : Option (List ℕ) → List ℕ
offered_tickets none = []
offered_tickets (some ids) = ids

-- `releasePendingDecisionOnResign`
unfoldable pub release_pending_decision_on_resign : GameState → GameState
release_pending_decision_on_resign gs = record (discard (held_cards gs.pending_tunnel) gs) {
  pending_tunnel = none;
  ticket_deck = gs.ticket_deck ++ offered_tickets gs.pending_ticket_draw;
  pending_ticket_draw = none;
  draw = none;
}

-- `isAwaitingPhase`
abbrev pub is_awaiting_phase : Phase → Bool
is_awaiting_phase awaiting_second_draw = true
is_awaiting_phase awaiting_tunnel = true
is_awaiting_phase awaiting_ticket_keep = true
is_awaiting_phase _ = false

abbrev pub is_normal : Phase → Bool
is_normal normal = true
is_normal _ = false

unfoldable pub holds_turn : GameState → Player → Bool
holds_turn gs p = (is_normal gs.phase || is_awaiting_phase gs.phase) && is_current_player gs p

-- The hand goes to the discard pile and the player is out.
unfoldable pub leave : Player → GameState → GameState
leave p gs =
    write_player (record p { hand = λ _. 0; resigned = true })
      (discard (cards_of p.hand canonical_discard_order) gs)

abbrev pub clamp : Option ℕ → ℕ → Option ℕ
clamp none active = none
clamp (some k) active = some (min k active)

-- A resignation in turn passes the turn on.
unfoldable pub pass_on_resign : Engine → Map → Bool → GameState → Result Error GameState
pass_on_resign e m false gs = ok gs
pass_on_resign e m true gs =
    advance_or_finish e m
      (record gs { turn_no = suc gs.turn_no; final_turns_left = decrement gs.final_turns_left })

-- After the player has left: end the game, or play on with a clamped countdown.
unfoldable pub after_leaving : Engine → Map → Bool → GameState → Result Error GameState
after_leaving e m holds gs =
    let active = length (active_players gs) in
    if ltb active 2
    then finalize_game e m gs
    else pass_on_resign e m holds
        (record gs { final_turns_left = clamp gs.final_turns_left active })

-- `applyResign`
unfoldable pub apply_resign : Engine → Map → GameState → Player → Result Error GameState
apply_resign e m gs p = do
  raise_if p.resigned illegal_action
  let holds = holds_turn gs p
  let released = if holds then release_pending_decision_on_resign gs else gs
  after_leaving e m holds (leave p released)
