-- ===== src/Ttr/Tickets.antt =====
-- tickets.go, and the setup keep of engine.go: tickets drawn, kept and rejected.
pub mod Cards
use bgex_backend.Base.{
  ℕ, zero, suc, ◌+◌, Bool, true, false, not, ◌&&◌, ◌||◌, Option, none, some, List, [], ◌∷◌, ◌++◌,
  ltb, ◌==◌, if◌then◌else◌, length, take, drop, keep, contains, Result, ok, ◌>>=◌, ◌>>◌, raise_if,
  or_raise,
}
use bgex_backend.Engine.{Error, illegal_action}
use bgex_backend.Ttr.State.{
  normal, awaiting_ticket_keep, Player, GameState, Map, Engine, player_by_seat, active_players,
  write_player,
}
use bgex_backend.Ttr.Piles.{is_nonempty}
use bgex_backend.Ttr.TurnFlow.{end_turn, next_active_seat}

abbrev pub ticket_draw_count : ℕ
ticket_draw_count = 3

abbrev pub min_tickets_kept_in_game : ℕ
min_tickets_kept_in_game = 1

abbrev pub min_tickets_kept_at_setup : ℕ
min_tickets_kept_at_setup = 2

-- `applyDrawTickets`
unfoldable pub apply_draw_tickets : GameState → Result Error GameState
apply_draw_tickets gs = do
  raise_if (not (is_nonempty gs.ticket_deck)) illegal_action
  ok (record gs {
    ticket_deck = drop ticket_draw_count gs.ticket_deck;
    pending_ticket_draw = some (take ticket_draw_count gs.ticket_deck);
    phase = awaiting_ticket_keep;
  })

-- The loop over the tickets to keep: each was offered, and none comes twice.
unfoldable pub check_keep : List ℕ → List ℕ → List ℕ → Result Error (Unit {0})
check_keep offered kept [] = ok tt
check_keep offered kept (id ∷ ids) = do
  raise_if (not (contains offered id)) illegal_action
  raise_if (contains kept id) illegal_action
  check_keep offered (id ∷ kept) ids

unfoldable pub rejected_of : List ℕ → List ℕ → List ℕ
rejected_of kept offered = keep (λ id. not (contains kept id)) offered

-- `resolveTicketKeep`
unfoldable pub resolve_ticket_keep :
    Engine → Map → GameState → Player → List ℕ → Result Error GameState
resolve_ticket_keep e m gs p kept = do
  offered ← or_raise gs.pending_ticket_draw illegal_action
  raise_if (ltb (length kept) min_tickets_kept_in_game) illegal_action
  check_keep offered [] kept
  let keeper = record p { ticket_ids = p.ticket_ids ++ kept }
  end_turn e m keeper (
      write_player keeper (record gs {
        ticket_deck = gs.ticket_deck ++ rejected_of kept offered;
        pending_ticket_draw = none;
      }))

abbrev pub all_done : List Player → Bool
all_done [] = true
all_done (p ∷ ps) = p.setup_done && all_done ps

-- `allSetupDone`
unfoldable pub all_setup_done : GameState → Bool
all_setup_done gs = all_done (active_players gs)

-- The first turn goes to the seat drawn at the start, or past it when its player has resigned.
unfoldable pub first_seat : GameState → ℕ
first_seat gs = elim (player_by_seat gs gs.current_seat) [
  | none ↦ next_active_seat gs gs.current_seat
  | some cur ↦ if cur.resigned then next_active_seat gs gs.current_seat else gs.current_seat
]

unfoldable pub complete_setup : GameState → GameState
complete_setup gs =
    if all_setup_done gs
    then record gs { phase = normal; turn_no = 1; current_seat = first_seat gs }
    else gs

-- `applySetupTicketsDecision`
unfoldable pub apply_setup_tickets_decision : GameState → Player → List ℕ → Result Error GameState
apply_setup_tickets_decision gs p kept = do
  raise_if p.setup_done illegal_action
  raise_if (ltb (length kept) min_tickets_kept_at_setup) illegal_action
  check_keep p.setup_ticket_offer [] kept
  ok (
      complete_setup (
        write_player
          (record p {
            ticket_ids = p.ticket_ids ++ kept;
            setup_ticket_offer = [];
            setup_done = true;
          })
          gs))
