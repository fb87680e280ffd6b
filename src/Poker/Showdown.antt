-- ===== src/Poker/Showdown.antt =====
-- betting.go: `distribute`, `runShowdown` and `endHandUncontested`.
pub mod Uncalled
pub mod Shares
pub mod Winners
pub mod Payout
pub mod Conservation
use Prim.Native.Nat.{Ordering}
use Prim.Native.String.{String}
use bgex_backend.Base.{
  ℕ, suc, ◌+◌, ◌/◌, ◌%◌, Option, none, some, List, [], ◌∷◌, ◌++◌, map, ltb, ◌==◌, if◌then◌else◌,
  length, sum_by, sort_by, find_first, update_first, Result, ok, panic, ◌>>=◌, or_panic,
}
use bgex_backend.Cards.{cards_from_ints}
use bgex_backend.Eval.{HandValue, compare_hands, evaluate, category_name}
use bgex_backend.Engine.{Error}
use bgex_backend.Poker.State.{
  Seat, Pot, TableState, hand_over, Event, won_uncontested, shown_down, Outcome, is_live, sits_at,
}
use bgex_backend.Poker.Pots.{return_uncalled, build_pots, clear_commitments}

-- A shown hand in front of those of the later seats.
unfoldable pub show_hand :
    ℕ → Option HandValue → Result Error (List (ℕ × HandValue)) → Result Error (List (ℕ × HandValue))
show_hand i none rest = panic
show_hand i (some v) rest = do vs ← rest; ok ((i, v) ∷ vs)

abbrev pub full_hand : List ℕ → Seat → Option HandValue
full_hand board s = evaluate (cards_from_ints s.hole_cards ++ cards_from_ints board)

-- The hands shown: each live seat with its value, in seat order.
unfoldable pub live_values : List ℕ → List Seat → Result Error (List (ℕ × HandValue))
live_values board [] = ok []
live_values board (s ∷ ss) =
    let rest = live_values board ss in
    if is_live s.status then show_hand s.seat_index (full_hand board s) rest else rest

unfoldable pub value_of : ℕ → List (ℕ × HandValue) → Option HandValue
value_of i [] = none
value_of i ((j, v) ∷ vs) = if j == i then some v else value_of i vs

-- One round of the search for the winners of a pot, over the winners so far and their hand.
unfoldable pub better : ℕ → HandValue → Option (HandValue × List ℕ) → Option (HandValue × List ℕ)
better i v none = some (v, i ∷ [])
better i v (some (best, winners)) = elim (compare_hands v best) [
  | Ordering.gt ↦ some (v, i ∷ [])
  | Ordering.eq ↦ some (best, winners ++ i ∷ [])
  | Ordering.lt ↦ some (best, winners)
]

unfoldable pub consider :
    List (ℕ × HandValue) → ℕ → Option (HandValue × List ℕ) → Option (HandValue × List ℕ)
consider values i acc = elim (value_of i values) [ none ↦ acc | some v ↦ better i v acc ]

unfoldable pub best_of :
    List (ℕ × HandValue) → List ℕ → Option (HandValue × List ℕ) → Option (HandValue × List ℕ)
best_of values [] acc = acc
best_of values (i ∷ is) acc = best_of values is (consider values i acc)

-- `payouts[idx] += w`
unfoldable pub add_payout : ℕ → ℕ → List (ℕ × ℕ) → List (ℕ × ℕ)
add_payout i w [] = (i, w) ∷ []
add_payout i w ((j, v) ∷ m) = if j == i then (j, v + w) ∷ m else (j, v) ∷ add_payout i w m

abbrev pub Paid : Type 0
Paid = List Seat × List (ℕ × ℕ)

abbrev pub add_stack : ℕ → Seat → Seat
add_stack w s = record s { stack = s.stack + w }

-- A winner that has no seat is a nil pointer.
unfoldable pub pay_winner : ℕ → ℕ → Paid → Result Error Paid
pay_winner i w (seats, payouts) = elim (find_first (sits_at i) seats) [
  | none ↦ panic
  | some _ ↦ ok (update_first (sits_at i) (add_stack w) seats, add_payout i w payouts)
]

-- The loop over the sorted winners, from position `k` on.
unfoldable pub pay_shares : ℕ → ℕ → ℕ → List ℕ → Paid → Result Error Paid
pay_shares share remainder k [] paid = ok paid
pay_shares share remainder k (i ∷ is) paid = do
  next ← pay_winner i (if ltb k remainder then suc share else share) paid
  pay_shares share remainder (suc k) is next

-- Without a winner the code divides by 0, which panics.
unfoldable pub distribute : ℕ → List ℕ → Paid → Result Error Paid
distribute amount [] paid = panic
distribute amount (w ∷ ws) paid =
    let n = length (w ∷ ws) in pay_shares (amount / n) (amount % n) 0 (sort_by ltb (w ∷ ws)) paid

unfoldable pub pay_best : ℕ → Option (HandValue × List ℕ) → Paid → Result Error Paid
pay_best amount none paid = ok paid
pay_best amount (some (best, winners)) paid = distribute amount winners paid

-- The loop over the pots.
unfoldable pub pay_pots : List (ℕ × HandValue) → List Pot → Paid → Result Error Paid
pay_pots values [] paid = ok paid
pay_pots values (p ∷ ps) paid = do
  next ← pay_best p.amount (best_of values p.eligible_seats none) paid
  pay_pots values ps next

abbrev pub describe : ℕ × HandValue → ℕ × String
describe (i, v) = (i, category_name v.category)

-- The state once the pots are paid.
unfoldable pub settle :
    TableState → List Pot → List (ℕ × HandValue) → Paid → TableState × List Event
settle ts pots values (paid, payouts) = (
  record ts {
    seats = clear_commitments paid;
    pots = pots;
    stage = hand_over;
    current_turn = none;
    result = some (record {
      payouts = payouts;
      board = ts.board;
      hand_descriptions = map describe values;
      shown_seats = map (λ e. e.0) values;
    });
  },
  shown_down payouts ts.board ∷ [],
)

unfoldable pub run_showdown : TableState → Outcome
run_showdown ts = do
  let seats = return_uncalled ts.seats
  values ← live_values ts.board seats
  paid ← pay_pots values (build_pots seats) (seats, [])
  ok (settle ts (build_pots seats) values paid)

-- The winner is the seat found; the whole pot is what all seats committed.
unfoldable pub end_hand_uncontested : TableState → Seat → TableState × List Event
end_hand_uncontested ts winner =
    let pot = sum_by (λ s. s.total_committed) ts.seats in
    (
      record ts {
        seats =
            clear_commitments (update_first (sits_at winner.seat_index) (add_stack pot) ts.seats);
        stage = hand_over;
        current_turn = none;
        result = some (record {
          payouts = (winner.seat_index, pot) ∷ [];
          board = ts.board;
          hand_descriptions = [];
          shown_seats = [];
        });
      },
      won_uncontested winner.seat_index ∷ [],
    )
