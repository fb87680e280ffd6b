-- ===== src/Eval/Tests.antt =====
-- The theorems on hand values at concrete hands, and evaluations of seven cards.
use Prim.Native.Nat.{Ordering}
use bgex_backend.Base.{◌≡◌, ◌≢◌, refl, some, [], ◌∷◌, sort_by, insert_by, arith}
use bgex_backend.Cards.{card_from_int, cards_from_ints}
use bgex_backend.Eval.{
  HandValue, one_pair, full_house, straight_flush, compare_hands, compare_tiebreaks, evaluate,
  straight_flush_high, flush_of, suit_ranks, add_suit, flush_ranks, groups_of, count_ranks,
  count_rank, unique_desc, evaluate_groups, evaluate_flush, evaluate_straight, evaluate_pairs,
  straight_high, highest_run, run_down, present, kickers, second_count, second_rank, group_before,
}
use bgex_backend.Eval.Order.{swap, compare_hands-swap, compare_hands_trans}
use bgex_backend.Eval.Straights.{HighestStraight, straight_high-HighestStraight}

abbrev kings : HandValue
kings = record { category = one_pair; tiebreak = 13 ∷ 9 ∷ [] }

abbrev aces : HandValue
aces = record { category = one_pair; tiebreak = 14 ∷ 9 ∷ [] }

compare_hands-swap_example : compare_hands aces kings ≡ swap (compare_hands kings aces)
compare_hands-swap_example = compare_hands-swap kings aces

compare_hands_trans_example : compare_hands kings aces ≢ Ordering.gt
unfolding compare_hands compare_tiebreaks
compare_hands_trans_example =
    compare_hands_trans kings kings aces (omega arith) (omega arith) (λ e. cc) (λ e. cc)

straight_high_example :
    HighestStraight (14 ∷ 2 ∷ 3 ∷ 4 ∷ 5 ∷ 9 ∷ []) (straight_high (14 ∷ 2 ∷ 3 ∷ 4 ∷ 5 ∷ 9 ∷ []))
straight_high_example = straight_high-HighestStraight (14 ∷ 2 ∷ 3 ∷ 4 ∷ 5 ∷ 9 ∷ [])

-- Unfolds all that an evaluation runs.
evaluation_runs : Unit {0}
unfolding evaluate straight_flush_high flush_of suit_ranks add_suit flush_ranks groups_of
    count_ranks count_rank unique_desc evaluate_groups evaluate_flush evaluate_straight
    evaluate_pairs straight_high highest_run run_down present kickers second_count second_rank
    group_before cards_from_ints card_from_int sort_by insert_by
evaluation_runs = tt

wheel : straight_high (14 ∷ 2 ∷ 3 ∷ 4 ∷ 5 ∷ 9 ∷ []) ≡ some 5
unfolding evaluation_runs
wheel = refl

-- Two threes of a kind make a full house of the higher one.
two_trips :
    evaluate (cards_from_ints (12 ∷ 25 ∷ 38 ∷ 0 ∷ 13 ∷ 26 ∷ 5 ∷ []))
    ≡ some (record { category = full_house; tiebreak = 14 ∷ 2 ∷ [] })
unfolding evaluation_runs
two_trips = refl

steel_wheel :
    evaluate (cards_from_ints (12 ∷ 0 ∷ 1 ∷ 2 ∷ 3 ∷ 20 ∷ 33 ∷ []))
    ≡ some (record { category = straight_flush; tiebreak = 5 ∷ [] })
unfolding evaluation_runs
steel_wheel = refl
