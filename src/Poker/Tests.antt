-- ===== src/Poker/Tests.antt =====
-- The poker theorems at concrete tables, and runs of the model.
use bgex_backend.Base.{
  ◌↔◌, ℕ, ◌+◌, ◌≤◌, ◌<◌, ◌≡◌, refl, true, false, none, some, List, [], ◌∷◌, All, length, sort_by,
  insert_by, find_first, update_first, ok, err, panic, arith,
}
use bgex_backend.Base.Int.{pos}
use bgex_backend.Cards.{card_from_int, cards_from_ints}
use bgex_backend.Eval.{
  HandValue, one_pair, evaluate, compare_hands, compare_tiebreaks, straight_high, highest_run,
  run_down, present, count_rank, count_ranks, add_suit, suit_ranks, flush_ranks, group_before,
  kickers, second_count, second_rank, evaluate_pairs, evaluate_straight, evaluate_flush,
  evaluate_groups, groups_of, unique_desc, flush_of, straight_flush_high, category_name,
}
use bgex_backend.Poker.State.{
  Seat, SeatStatus, active, folded, all_in, TableState, river, Action, check, Event, Outcome, chips,
}
use bgex_backend.Poker.Seats.{
  seat_by_index, seat_by_user, in_hand_seats, position_of, start_after, rotate, is_actionable,
  next_actor, non_folded_count,
}
use bgex_backend.Poker.Seats.Table.{IsTable}
use bgex_backend.Poker.Seats.Turn.{IsDue, next_actor_sound, next_actor_complete}
use bgex_backend.Poker.Seats.Indices.{indices}
use bgex_backend.Poker.Pots.{
  return_uncalled, refund_top, distinct, levels_of, layer_amount, layer_eligible, same_seats,
  add_pot, add_layer, pot_layers, build_pots, clear_commitments,
}
use bgex_backend.Poker.Pots.Layers.{pot_total}
use bgex_backend.Poker.Pots.Coverage.{covers, top_total, pot_total-build_pots}
use bgex_backend.Poker.Showdown.{
  Paid, show_hand, live_values, value_of, better, consider, best_of, add_payout, pay_winner,
  pay_shares, distribute, pay_best, pay_pots, settle, run_showdown,
}
use bgex_backend.Poker.Showdown.Uncalled.{stacks}
use bgex_backend.Poker.Showdown.Shares.{distribute-stacks, distribute_total}
use bgex_backend.Poker.Showdown.Winners.{Values, NotBeats, Ties, best_of_wins}
use bgex_backend.Poker.Showdown.Conservation.{chips-run_showdown, chips-run_showdown-lt}
use bgex_backend.Poker.Streets.{reset_round, close_stage, advance_stage}
use bgex_backend.Poker.Actions.{write_seat, apply_check, apply_action, resolve_next, act, apply}
use bgex_backend.Poker.Actions.Apply.{IsGame, chips-apply-le}

abbrev player : ℕ → ℕ → ℕ → List ℕ → SeatStatus → Seat
player i stack total cards status = record {
  seat_index = i;
  user_id = i + 100;
  stack = stack;
  committed = 0;
  total_committed = total;
  hole_cards = cards;
  status = status;
  has_acted = false;
}

abbrev table : List Seat → TableState
table seats = record {
  hand_no = 1;
  stage = river;
  seats = seats;
  deck = [];
  board = 0 ∷ 14 ∷ 28 ∷ 43 ∷ 31 ∷ [];
  button = 0;
  current_turn = some 0;
  small_blind = 5;
  big_blind = 10;
  current_bet = 0;
  min_raise = 10;
  last_aggressor = none;
  pots = [];
  result = none;
}

-- A player with chips against one who is all in, who holds a pair of eights.
abbrev even_seats : List Seat
even_seats = player 0 100 50 (12 ∷ 24 ∷ []) active ∷ player 1 0 50 (6 ∷ 19 ∷ []) all_in ∷ []

-- The two players who went highest have folded; the two who are all in share the main pot.
abbrev dead_seats : List Seat
dead_seats =
    player 0 0 50 (12 ∷ 24 ∷ []) all_in
    ∷ player 1 0 50 (6 ∷ 19 ∷ []) all_in
    ∷ player 2 40 100 [] folded
    ∷ player 3 40 100 [] folded
    ∷ []

abbrev out_or : TableState × List Event → Outcome → TableState × List Event
out_or d (ok r) = r
out_or d (err e) = d
out_or d panic = d

abbrev shown : List Seat → TableState × List Event
shown seats = out_or (table seats, []) (run_showdown (table seats))

-- Unfolds all that a showdown runs.
showdown_runs : Unit {0}
unfolding run_showdown return_uncalled refund_top sort_by insert_by update_first live_values
    show_hand evaluate straight_flush_high flush_of suit_ranks add_suit flush_ranks groups_of
    count_ranks count_rank unique_desc evaluate_groups evaluate_flush evaluate_straight
    evaluate_pairs straight_high highest_run run_down present kickers second_count second_rank
    group_before cards_from_ints card_from_int build_pots levels_of distinct pot_layers add_layer
    layer_amount layer_eligible add_pot same_seats pay_pots pay_best best_of consider value_of
    better compare_hands compare_tiebreaks distribute pay_shares pay_winner find_first add_payout
    settle clear_commitments category_name covers top_total
showdown_runs = tt

-- Unfolds all that an action on the river runs.
action_runs : Unit {0}
unfolding showdown_runs apply seat_by_user apply_action apply_check write_seat act resolve_next
    non_folded_count next_actor in_hand_seats rotate start_after position_of is_actionable
    advance_stage close_stage reset_round
action_runs = tt

shown_even : run_showdown (table even_seats) ≡ ok (shown even_seats)
unfolding showdown_runs
shown_even = refl

shown_dead : run_showdown (table dead_seats) ≡ ok (shown dead_seats)
unfolding showdown_runs
shown_dead = refl

-- The two all-in players put 100 chips in and win 200; the other 100 are in no stack.
dead_stacks : chips (shown dead_seats).0.seats ≡ 280
unfolding showdown_runs
dead_stacks = refl

even_chips : chips even_seats ≡ 200
even_chips = refl

even_table : IsTable even_seats
even_table = record {
  distinct = (refl, (refl, tt));
  each = (
    record { dealt_in = refl; within = omega arith },
    (record { dealt_in = refl; within = omega arith }, tt),
  );
}

even-IsGame : IsGame (table even_seats)
even-IsGame = record { table = even_table; turn = ((λ _. refl), ((λ e. absurd (cc)), tt)) }

abbrev checks : Action
checks = record { user_id = 100; type = check; amount = pos 0 }

abbrev checked : TableState × List Event
checked = out_or (table even_seats, []) (apply (table even_seats) checks)

checked_ok : apply (table even_seats) checks ≡ ok checked
unfolding action_runs
checked_ok = refl

abbrev first_seat : Seat
first_seat = player 0 100 50 (12 ∷ 24 ∷ []) active

abbrev after_check : TableState
after_check = record (table even_seats) {
  seats = record first_seat { has_acted = true } ∷ player 1 0 50 (6 ∷ 19 ∷ []) all_in ∷ [];
}

chips-apply-le_example : chips checked.0.seats ≤ 200
chips-apply-le_example = chips-apply-le (table even_seats) checks checked even-IsGame checked_ok

chips-run_showdown_example : chips (shown even_seats).0.seats ≡ 200
chips-run_showdown_example =
    chips-run_showdown (table even_seats) (shown even_seats) (refl, (refl, tt)) (refl, (refl, tt))
      (unfold showdown_runs in refl) shown_even

chips-run_showdown-lt_example : chips (shown dead_seats).0.seats < 380
chips-run_showdown-lt_example =
    chips-run_showdown-lt (table dead_seats) (shown dead_seats) 100
      (refl, (refl, (refl, (refl, tt)))) (omega arith) (unfold showdown_runs in refl)
      (unfold showdown_runs in refl) shown_dead

pot_total-build_pots_example : pot_total (build_pots even_seats) ≡ 100
pot_total-build_pots_example = pot_total-build_pots even_seats (unfold showdown_runs in refl)

-- 101 chips between two seats: the odd chip goes to the lower index.
abbrev split_pot : Paid
split_pot = (
  player 0 151 50 (12 ∷ 24 ∷ []) active ∷ player 1 50 50 (6 ∷ 19 ∷ []) all_in ∷ [],
  (0, 51) ∷ (1, 50) ∷ [],
)

split_ok : distribute 101 (1 ∷ 0 ∷ []) (even_seats, []) ≡ ok split_pot
unfolding showdown_runs
split_ok = refl

distribute-stacks_example : (stacks split_pot.0 ≡ 201) × (indices split_pot.0 ≡ 0 ∷ 1 ∷ [])
distribute-stacks_example =
    distribute-stacks 101 (1 ∷ 0 ∷ []) (even_seats, []) split_pot (omega arith) split_ok

distribute_total_example :
    ((done : Paid) × (distribute 101 (1 ∷ 0 ∷ []) (even_seats, []) ≡ ok done))
    ↔ (0 < length {A = ℕ} (1 ∷ 0 ∷ []))
distribute_total_example = distribute_total 101 (1 ∷ 0 ∷ []) (even_seats, []) (refl, (refl, tt))

abbrev kings : HandValue
kings = record { category = one_pair; tiebreak = 13 ∷ 9 ∷ [] }

abbrev aces : HandValue
aces = record { category = one_pair; tiebreak = 14 ∷ 9 ∷ [] }

abbrev two_values : Values
two_values = (0, kings) ∷ (1, aces) ∷ []

best_of_wins_example :
    All (NotBeats two_values aces) (0 ∷ 1 ∷ [])
    × All (Ties two_values aces) (1 ∷ [])
    × (0 < length {A = ℕ} (1 ∷ []))
best_of_wins_example =
    best_of_wins two_values (0 ∷ 1 ∷ []) aces (1 ∷ []) (unfold showdown_runs in refl)

next_actor_sound_example : (s : Seat) × (seat_by_index even_seats 0 ≡ some s) × IsDue 0 s
next_actor_sound_example =
    next_actor_sound (table even_seats) 1 0 (refl, (refl, tt)) (unfold action_runs in refl)

next_actor_complete_example : All (λ s. ¬ (IsDue 0 s)) after_check.seats
next_actor_complete_example = next_actor_complete after_check 0 (unfold action_runs in refl)
