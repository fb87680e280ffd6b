-- ===== src/Poker/Deal.antt =====
-- engine.go: `InitState`, `NextHand` and `dealHand`. The shuffle is an argument.
use bgex_backend.Base.{
  ℕ, suc, ◌+◌, ◌%◌, Bool, true, false, ◌&&◌, ◌||◌, Option, none, some, List, [], ◌∷◌, ◌++◌, map,
  ltb, ◌==◌, if◌then◌else◌, length, get_elem?, update_first, Result, ok, ◌>>=◌, ◌>>◌, raise_if,
  or_panic,
}
use bgex_backend.Base.Int.{pos}
use bgex_backend.Engine.{Error, not_enough_players, SeatInit}
use bgex_backend.Cards.{shuffled_deck}
use bgex_backend.Poker.State.{
  Seat, active, sitting_out, TableState, preflop, unspecified, Event, hand_start, Outcome,
  is_active, is_sitting_out, sits_at,
}
use bgex_backend.Poker.Seats.{
  seat_by_index, in_hand_seats, index_of_seat, rotate, next_actor, count_can_act, max_committed,
  next_seat_with_chips,
}
use bgex_backend.Poker.Streets.{draw_card, run_out_and_showdown}
use bgex_backend.Poker.Actions.{commit}

abbrev pub min_seats : ℕ
min_seats = 2

abbrev pub default_small_blind : ℕ
default_small_blind = 5

abbrev pub default_big_blind : ℕ
default_big_blind = 10

-- The reset of a seat for a new hand.
abbrev pub reseat : Seat → Seat
reseat s = record s {
  committed = 0;
  total_committed = 0;
  hole_cards = [];
  has_acted = false;
  status = if ltb 0 s.stack then active else sitting_out;
}

-- `postBlind`
unfoldable pub post_blind : Seat → ℕ → Seat
post_blind s amount = commit s (pos (if ltb s.stack amount then s.stack else amount))

abbrev pub take_card : ℕ → Seat → Seat
take_card c s = record s { hole_cards = s.hole_cards ++ c ∷ [] }

-- A card to each seat of the list.
unfoldable pub deal_round : List Seat → TableState → Result Error TableState
deal_round [] ts = ok ts
deal_round (s ∷ ss) ts = do
  (c, drawn) ← draw_card ts
  deal_round ss
      (record drawn { seats = update_first (sits_at s.seat_index) (take_card c) drawn.seats })

unfoldable pub button_in_hand : List Seat → List Seat → ℕ → Result Error ℕ
button_in_hand seats in_hand button = elim (seat_by_index seats button) [
  | none ↦ (do first ← or_panic (get_elem? in_hand 0); ok first.seat_index)
  | some s ↦
      if is_sitting_out s.status
      then (do first ← or_panic (get_elem? in_hand 0); ok first.seat_index)
      else ok button
]

-- The positions of the small blind, the big blind and the first to act, from the button's.
unfoldable pub positions : ℕ → ℕ → ℕ × ℕ × ℕ
positions n bpos =
    if n == 2
    then (bpos, (bpos + 1) % n, bpos)
    else ((bpos + 1) % n, (bpos + 2) % n, (bpos + 3) % n)

unfoldable pub fresh_hand : (List ℕ → List ℕ) → TableState → ℕ → TableState
fresh_hand shuffle ts button = record ts {
  deck = shuffled_deck shuffle;
  board = [];
  pots = [];
  result = none;
  stage = preflop;
  current_bet = 0;
  min_raise = ts.big_blind;
  last_aggressor = none;
  button = button;
}

unfoldable pub post_blinds : ℕ → ℕ → TableState → TableState
post_blinds sb bb ts =
    let small = update_first (sits_at sb) (λ s. post_blind s ts.small_blind) ts.seats in
    let seats = update_first (sits_at bb) (λ s. post_blind s ts.big_blind) small in
    record ts {
      seats = seats;
      current_bet = max_committed seats;
      min_raise = ts.big_blind;
      last_aggressor = some bb;
    }

unfoldable pub first_turn : TableState → Seat → TableState
first_turn ts first = record ts {
  current_turn =
      if is_active first.status && ltb 0 first.stack
      then some first.seat_index
      else next_actor ts first.seat_index;
}

abbrev pub is_none : Option ℕ → Bool
is_none none = true
is_none (some i) = false

-- Nothing to bet: run the hand out.
unfoldable pub start_betting : TableState → Event → Outcome
start_betting ts started =
    if is_none ts.current_turn || ltb (count_can_act ts.seats) 2
    then (do (done, events) ← run_out_and_showdown ts; ok (done, started ∷ events))
    else ok (ts, started ∷ [])

-- From the deal on, with the seats of the small blind, the big blind and the first to act.
unfoldable pub deal_cards : List Seat → ℕ → Seat → Seat → Seat → TableState → Outcome
deal_cards in_hand sb_pos sb bb first ts = do
  let order = rotate sb_pos in_hand
  dealt ← deal_round (order ++ order) ts
  let blinded = post_blinds sb.seat_index bb.seat_index dealt
  opener ← or_panic (seat_by_index blinded.seats first.seat_index)
  start_betting (first_turn blinded opener) (hand_start ts.hand_no ts.button)

-- `dealHand`
unfoldable pub deal_hand : (List ℕ → List ℕ) → TableState → Outcome
deal_hand shuffle ts = do
  let seats = map reseat ts.seats
  let in_hand = in_hand_seats seats
  raise_if (ltb (length in_hand) min_seats) not_enough_players
  button ← button_in_hand seats in_hand ts.button
  let (sb_pos, bb_pos, first_pos) = positions (length in_hand) (index_of_seat in_hand button)
  sb ← or_panic (get_elem? in_hand sb_pos)
  bb ← or_panic (get_elem? in_hand bb_pos)
  first ← or_panic (get_elem? in_hand first_pos)
  deal_cards in_hand sb_pos sb bb first (fresh_hand shuffle (record ts { seats = seats }) button)

abbrev pub new_seat : SeatInit → Seat
new_seat si = record {
  seat_index = si.seat;
  user_id = si.user_id;
  stack = si.stack;
  committed = 0;
  total_committed = 0;
  hole_cards = [];
  status = sitting_out;
  has_acted = false;
}

-- The running minimum of the loop; `none` is -1.
unfoldable pub lowest_seat : Option ℕ → List SeatInit → Option ℕ
lowest_seat acc [] = acc
lowest_seat none (si ∷ sis) = lowest_seat (some si.seat) sis
lowest_seat (some l) (si ∷ sis) = lowest_seat (some (if ltb si.seat l then si.seat else l)) sis

-- `InitState`, on two seats or more; the lowest seat has the button.
unfoldable pub init_state : (List ℕ → List ℕ) → List SeatInit → Outcome
init_state shuffle seats = do
  raise_if (ltb (length seats) min_seats) not_enough_players
  lowest ← or_panic (lowest_seat none seats)
  deal_hand shuffle (record {
    hand_no = 1;
    stage = unspecified;
    seats = map new_seat seats;
    deck = [];
    board = [];
    button = lowest;
    current_turn = some 0;
    small_blind = default_small_blind;
    big_blind = default_big_blind;
    current_bet = 0;
    min_raise = 0;
    last_aggressor = none;
    pots = [];
    result = none;
  })

-- `NextHand`
unfoldable pub next_hand : (List ℕ → List ℕ) → TableState → Outcome
next_hand shuffle ts = deal_hand shuffle (record ts {
  button = next_seat_with_chips ts.seats ts.button;
  hand_no = suc ts.hand_no;
  result = none;
})
