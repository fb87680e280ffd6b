-- ===== src/Poker/Streets.antt =====
-- betting.go: dealing, `advanceStage` and `runOutAndShowdown`. A draw from an empty deck panics.
pub mod Conservation
use bgex_backend.Base.{
  ℕ, zero, suc, false, none, [], ◌∷◌, ◌++◌, map, ltb, if◌then◌else◌, Result, ok, panic, ◌>>=◌,
}
use bgex_backend.Engine.{Error}
use bgex_backend.Poker.State.{
  Seat, Stage, unspecified, preflop, flop, turn, river, showdown, hand_over, TableState, Event,
  board_dealt, Outcome, is_active,
}
use bgex_backend.Poker.Seats.{count_can_act, next_actor}
use bgex_backend.Poker.Showdown.{run_showdown}

unfoldable pub draw_card : TableState → Result Error (ℕ × TableState)
draw_card ts = elim ts.deck [ [] ↦ panic | c ∷ rest ↦ ok (c, record ts { deck = rest }) ]

unfoldable pub deal_board : ℕ → TableState → Result Error TableState
deal_board zero ts = ok ts
deal_board (suc n) ts = do
  (c, drawn) ← draw_card ts
  deal_board n (record drawn { board = drawn.board ++ c ∷ [] })

-- The reset of the per-round bookkeeping.
abbrev pub reset_seat : Seat → Seat
reset_seat s = record s {
  committed = 0;
  has_acted = if is_active s.status then false else s.has_acted;
}

unfoldable pub reset_round : TableState → TableState
reset_round ts = record ts {
  seats = map reset_seat ts.seats;
  current_bet = 0;
  min_raise = ts.big_blind;
  last_aggressor = none;
}

-- One street of `runOutAndShowdown`.
unfoldable pub deal_street : ℕ → Stage → TableState → Result Error TableState
deal_street n next ts = do dealt ← deal_board n ts; ok (record dealt { stage = next })

-- The loop, from the stage at which it starts. At `hand_over` (and at the zero value) the source's
-- loop would not end; no caller passes such a state, and the model has no result there.
unfoldable pub deal_out : Stage → TableState → Result Error TableState
deal_out preflop ts = do
  f ← deal_street 3 flop ts
  t ← deal_street 1 turn f
  r ← deal_street 1 river t
  ok (record r { stage = showdown })
deal_out flop ts = do
  t ← deal_street 1 turn ts
  r ← deal_street 1 river t
  ok (record r { stage = showdown })
deal_out turn ts = do r ← deal_street 1 river ts; ok (record r { stage = showdown })
deal_out river ts = ok (record ts { stage = showdown })
deal_out showdown ts = ok ts
deal_out hand_over ts = panic
deal_out unspecified ts = panic

unfoldable pub run_out_and_showdown : TableState → Outcome
run_out_and_showdown ts = do dealt ← deal_out ts.stage ts; run_showdown dealt

-- After a street is dealt: betting goes on, or the hand is run out.
unfoldable pub continue_betting : Event → TableState → Outcome
continue_betting e ts =
    let closed = (do (done, events) ← run_out_and_showdown ts; ok (done, e ∷ events)) in
    if ltb (count_can_act ts.seats) 2
    then closed
    else ok (record ts { current_turn = next_actor ts ts.button }, e ∷ [])

unfoldable pub next_street : ℕ → Stage → TableState → Outcome
next_street n next ts = do
  dealt ← deal_street n next ts
  continue_betting (board_dealt next dealt.board) dealt

-- The switch of `advanceStage`.
unfoldable pub close_stage : Stage → TableState → Outcome
close_stage preflop ts = next_street 3 flop ts
close_stage flop ts = next_street 1 turn ts
close_stage turn ts = next_street 1 river ts
close_stage river ts = run_showdown ts
close_stage showdown ts = ok (ts, [])
close_stage hand_over ts = ok (ts, [])
close_stage unspecified ts = ok (ts, [])

unfoldable pub advance_stage : TableState → Outcome
advance_stage ts = close_stage ts.stage (reset_round ts)
