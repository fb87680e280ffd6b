-- ===== src/Poker/Actions.antt =====
-- engine.go: `applyAction`, `commit`, `reopen` and `Apply`. `pay` is signed, as in the source: only
-- guards keep it within the stack.
pub mod Table
pub mod Apply
use bgex_backend.Base.{
  ℕ, suc, ◌+◌, ◌-◌, Bool, true, false, not, ◌&&◌, ◌||◌, Option, none, some, List, [], ◌∷◌, map, ltb,
  leb, ◌==◌, if◌then◌else◌, update_first, Result, ok, err, ◌>>=◌, ◌>>◌, raise_if, or_raise,
  or_panic,
}
use bgex_backend.Base.Int.{ℤ, pos, negsuc, pos_part, sub_ℕ, ◌-ℤ◌, ltb_ℤ, leb_ℤ, positive}
use bgex_backend.Engine.{Error, illegal_action, not_your_turn}
use bgex_backend.Poker.State.{
  Seat, folded, all_in, TableState, Stage, hand_over, Action, ActionType, fold, check, call, bet,
  raise, unknown, acted, Outcome, is_active,
}
use bgex_backend.Poker.Seats.{
  belongs_to, seat_by_user, non_folded_count, last_live_seat, next_actor,
}
use bgex_backend.Poker.Showdown.{end_hand_uncontested}
use bgex_backend.Poker.Streets.{advance_stage}

abbrev pub all_in_if_broke : Seat → Seat
all_in_if_broke s = if s.stack == 0 then record s { status = all_in } else s

-- `commit`
unfoldable pub commit : Seat → ℤ → Seat
commit s (pos n) = all_in_if_broke (record s {
  stack = s.stack - n;
  committed = s.committed + n;
  total_committed = s.total_committed + n;
})
commit s (negsuc n) = all_in_if_broke (record s {
  stack = s.stack + suc n;
  committed = s.committed - suc n;
  total_committed = s.total_committed - suc n;
})

abbrev pub must_respond : ℕ → Seat → Seat
must_respond raiser s =
    if not (s.seat_index == raiser) && is_active s.status then record s { has_acted = false } else s

unfoldable pub reopen : ℕ → List Seat → List Seat
reopen raiser = map (must_respond raiser)

abbrev pub mark_acted : Seat → Seat
mark_acted s = record s { has_acted = true }

-- A write of the acting player's seat.
unfoldable pub write_seat : Seat → List Seat → List Seat
write_seat seat = update_first (belongs_to seat.user_id) (λ _. seat)

abbrev pub smaller : ℤ → ℕ → ℤ
smaller pay stack = if ltb_ℤ pay stack then pay else pos stack

unfoldable pub apply_fold : TableState → Seat → Result Error TableState
apply_fold ts seat =
    ok (record ts {
      seats = write_seat (record seat { status = folded; has_acted = true }) ts.seats;
    })

unfoldable pub apply_check : TableState → Seat → Result Error TableState
apply_check ts seat = do
  raise_if (positive (sub_ℕ ts.current_bet seat.committed)) illegal_action
  ok (record ts { seats = write_seat (mark_acted seat) ts.seats })

unfoldable pub apply_call : TableState → Seat → Result Error TableState
apply_call ts seat =
    let pay = smaller (sub_ℕ ts.current_bet seat.committed) seat.stack in
    ok (record ts { seats = write_seat (mark_acted (commit seat pay)) ts.seats })

-- The seats after a bet or a full raise: everyone else has to respond.
unfoldable pub commit_and_reopen : Seat → ℤ → List Seat → List Seat
commit_and_reopen seat pay seats =
    reopen seat.seat_index (write_seat (mark_acted (commit seat pay)) seats)

abbrev pub is_all_in_pay : ℤ → ℕ → Bool
is_all_in_pay (pos n) stack = n == stack
is_all_in_pay (negsuc n) stack = false

unfoldable pub apply_bet : TableState → Seat → ℤ → Result Error TableState
apply_bet ts seat target = do
  raise_if (not (ts.current_bet == 0)) illegal_action
  let pay = target -ℤ seat.committed
  raise_if (leb_ℤ pay 0 || not (leb_ℤ pay seat.stack)) illegal_action
  raise_if (ltb_ℤ target ts.big_blind && not (is_all_in_pay pay seat.stack)) illegal_action
  ok (record ts {
    seats = commit_and_reopen seat pay ts.seats;
    current_bet = pos_part target;
    min_raise = pos_part target;
    last_aggressor = some seat.seat_index;
  })

-- The write of a legal raise: a full one also reopens the action.
unfoldable pub take_raise : TableState → Seat → ℕ → ℤ → TableState
take_raise ts seat target pay =
    if leb ts.min_raise (target - ts.current_bet)
    then record ts {
      seats = commit_and_reopen seat pay ts.seats;
      current_bet = target;
      min_raise = target - ts.current_bet;
      last_aggressor = some seat.seat_index;
    }
    else record ts {
      seats = write_seat (mark_acted (commit seat pay)) ts.seats;
      current_bet = target;
    }

unfoldable pub apply_raise : TableState → Seat → ℤ → Result Error TableState
apply_raise ts seat target = do
  raise_if (ts.current_bet == 0) illegal_action
  let pay = target -ℤ seat.committed
  raise_if (leb_ℤ target ts.current_bet || not (leb_ℤ pay seat.stack)) illegal_action
  raise_if
      (ltb (pos_part target - ts.current_bet) ts.min_raise && not (is_all_in_pay pay seat.stack))
      illegal_action
  ok (take_raise ts seat (pos_part target) pay)

-- `applyAction`
unfoldable pub apply_action : TableState → Seat → ActionType → ℤ → Result Error TableState
apply_action ts seat fold amount = apply_fold ts seat
apply_action ts seat check amount = apply_check ts seat
apply_action ts seat call amount = apply_call ts seat
apply_action ts seat bet amount = apply_bet ts seat amount
apply_action ts seat raise amount = apply_raise ts seat amount
apply_action ts seat unknown amount = err illegal_action

abbrev pub is_hand_over : Stage → Bool
is_hand_over hand_over = true
is_hand_over _ = false

abbrev pub is_turn_of : Option ℕ → ℕ → Bool
is_turn_of none i = false
is_turn_of (some t) i = t == i

-- What happens after the action: the pot goes to the last player, or the next seat acts, or the
-- betting round closes.
unfoldable pub resolve_next : TableState → ℕ → Outcome
resolve_next ts actor =
    if non_folded_count ts.seats == 1
    then (do winner ← or_panic (last_live_seat ts.seats); ok (end_hand_uncontested ts winner))
    else elim (next_actor ts actor) [
      | none ↦ advance_stage ts
      | some next ↦ ok (record ts { current_turn = some next }, [])
    ]

-- `Apply` from the action on.
unfoldable pub act : TableState → Seat → Action → Outcome
act ts seat a = do
  moved ← apply_action ts seat a.type a.amount
  (next, events) ← resolve_next moved seat.seat_index
  ok (next, acted seat.seat_index seat.user_id a.type a.amount ∷ events)

-- `Apply`, on the decoded state.
unfoldable pub apply : TableState → Action → Outcome
apply ts a = do
  raise_if (is_hand_over ts.stage) illegal_action
  seat ← or_raise (seat_by_user ts.seats a.user_id) illegal_action
  raise_if (not (is_turn_of ts.current_turn seat.seat_index)) not_your_turn
  act ts seat a
