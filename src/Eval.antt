-- ===== src/Eval.antt =====
-- internal/games/poker/eval/eval.go: the value of the best five-card hand, and its order.
-- A Go map is an association list in order of first insertion; where the source ranges over one
-- it sorts the result, or (the flush suit) at most one entry can qualify among nine cards.
pub mod Order
pub mod Straights
mod Tests
use Prim.Native.Nat.{Ordering}
use Prim.Native.String.{String}
use bgex_backend.Base.{
  ℕ, zero, suc, ◌+◌, Bool, true, false, not, ◌&&◌, ◌||◌, Option, none, some, List, [], ◌∷◌, ◌++◌,
  map, ltb, leb, ◌==◌, if◌then◌else◌, length, take, keep, contains, sort_by,
}
use bgex_backend.Cards.{Card, ace}

pub data Category : Type 0 where
  high_card one_pair two_pair three_of_a_kind straight flush full_house four_of_a_kind
        straight_flush :
      Category

-- The number of a category, from `iota`.
abbrev pub category_number : Category → ℕ
category_number high_card = 0
category_number one_pair = 1
category_number two_pair = 2
category_number three_of_a_kind = 3
category_number straight = 4
category_number flush = 5
category_number full_house = 6
category_number four_of_a_kind = 7
category_number straight_flush = 8

-- `HandValue.String`
unfoldable pub category_name : Category → String
category_name high_card = "High Card"
category_name one_pair = "One Pair"
category_name two_pair = "Two Pair"
category_name three_of_a_kind = "Three of a Kind"
category_name straight = "Straight"
category_name flush = "Flush"
category_name full_house = "Full House"
category_name four_of_a_kind = "Four of a Kind"
category_name straight_flush = "Straight Flush"

pub record HandValue : Type 0 where
  pub category : Category
  pub tiebreak : List ℕ

unfoldable pub compare_tiebreaks : List ℕ → List ℕ → Ordering
compare_tiebreaks [] ys = Ordering.eq
compare_tiebreaks (x ∷ xs) [] = Ordering.eq
compare_tiebreaks (x ∷ xs) (y ∷ ys) =
    let rest = compare_tiebreaks xs ys in
    if x == y then rest else if ltb y x then Ordering.gt else Ordering.lt

-- `HandValue.Compare`: 1, -1 and 0 are `gt`, `lt` and `eq`.
unfoldable pub compare_hands : HandValue → HandValue → Ordering
compare_hands h o =
    if category_number h.category == category_number o.category
    then compare_tiebreaks h.tiebreak o.tiebreak
    else if ltb (category_number o.category) (category_number h.category)
    then Ordering.gt
    else Ordering.lt

-- `present` of `straightHigh`, with the ace also low.
unfoldable pub present : List ℕ → ℕ → Bool
present ranks r = contains ranks r || ((r == 1) && contains ranks ace)

-- The inner loop: are the `k` ranks from `r` down all there? It is asked of 5 ranks from 5 at least.
unfoldable pub run_down : (ℕ → Bool) → ℕ → ℕ → Bool
run_down there zero r = true
run_down there (suc k) zero = false
run_down there (suc k) (suc r) = there (suc r) && run_down there k r

-- The outer loop, from the top `5 + n - 1` down to 5.
unfoldable pub highest_run : (ℕ → Bool) → ℕ → Option ℕ
highest_run there zero = none
highest_run there (suc n) =
    let rest = highest_run there n in if run_down there 5 (n + 5) then some (n + 5) else rest

-- `straightHigh`: tops 14 down to 5.
unfoldable pub straight_high : List ℕ → Option ℕ
straight_high ranks = highest_run (present ranks) 10

pub record Group : Type 0 where
  pub rank : ℕ
  pub count : ℕ

-- `rankCount[r]++`
unfoldable pub count_rank : ℕ → List Group → List Group
count_rank r [] = record { rank = r; count = 1 } ∷ []
count_rank r (g ∷ gs) =
    if g.rank == r then record g { count = suc g.count } ∷ gs else g ∷ count_rank r gs

unfoldable pub count_ranks : List Group → List Card → List Group
count_ranks gs [] = gs
count_ranks gs (c ∷ cs) = count_ranks (count_rank c.rank gs) cs

-- `suitRanks[s] = append(suitRanks[s], r)`
unfoldable pub add_suit : ℕ → ℕ → List (ℕ × List ℕ) → List (ℕ × List ℕ)
add_suit s r [] = (s, r ∷ []) ∷ []
add_suit s r ((t, rs) ∷ m) = if t == s then (t, rs ++ r ∷ []) ∷ m else (t, rs) ∷ add_suit s r m

unfoldable pub suit_ranks : List (ℕ × List ℕ) → List Card → List (ℕ × List ℕ)
suit_ranks m [] = m
suit_ranks m (c ∷ cs) = suit_ranks (add_suit c.suit c.rank m) cs

unfoldable pub flush_ranks : List (ℕ × List ℕ) → Option (List ℕ)
flush_ranks [] = none
flush_ranks ((s, rs) ∷ m) = if leb 5 (length rs) then some rs else flush_ranks m

-- The order of the groups: count, then rank, both falling.
unfoldable pub group_before : Group → Group → Bool
group_before a b = if a.count == b.count then ltb b.rank a.rank else ltb b.count a.count

abbrev pub greater : ℕ → ℕ → Bool
greater a b = ltb b a

unfoldable pub kickers : (ℕ → Bool) → ℕ → List ℕ → List ℕ
kickers exclude n unique_desc = take n (keep (λ r. not (exclude r)) unique_desc)

unfoldable pub second_count : (ℕ → Bool) → List Group → Bool
second_count test [] = false
second_count test (g ∷ gs) = test g.count

unfoldable pub second_rank : List Group → ℕ
second_rank [] = 0
second_rank (g ∷ gs) = g.rank

-- The tests after the straight: trips, two pair, one pair, high card. The slice `uniqueDesc[:5]`
-- panics on fewer than five ranks.
unfoldable pub evaluate_pairs : Group → List Group → List ℕ → Option HandValue
evaluate_pairs g gs unique =
    if g.count == 3
    then some (record {
      category = three_of_a_kind;
      tiebreak = g.rank ∷ kickers (λ r. r == g.rank) 2 unique;
    })
    else if (g.count == 2) && second_count (λ n. n == 2) gs
    then some (record {
      category = two_pair;
      tiebreak =
          g.rank ∷ second_rank gs ∷ kickers (λ r. (r == g.rank) || (r == second_rank gs)) 1 unique;
    })
    else if g.count == 2
    then some
        (record { category = one_pair; tiebreak = g.rank ∷ kickers (λ r. r == g.rank) 3 unique })
    else if leb 5 (length unique)
    then some (record { category = high_card; tiebreak = take 5 unique })
    else none

unfoldable pub evaluate_straight : Option ℕ → Group → List Group → List ℕ → Option HandValue
evaluate_straight (some high) g gs unique =
    some (record { category = straight; tiebreak = high ∷ [] })
evaluate_straight none g gs unique = evaluate_pairs g gs unique

unfoldable pub evaluate_flush :
    Option (List ℕ) → List ℕ → Group → List Group → List ℕ → Option HandValue
evaluate_flush (some rs) all_ranks g gs unique =
    some (record { category = flush; tiebreak = take 5 (sort_by greater rs) })
evaluate_flush none all_ranks g gs unique = evaluate_straight (straight_high all_ranks) g gs unique

-- The tests from four of a kind on; `groups[0]` panics when there is no card.
unfoldable pub evaluate_groups : Option (List ℕ) → List ℕ → List Group → List ℕ → Option HandValue
evaluate_groups flushed all_ranks [] unique = none
evaluate_groups flushed all_ranks (g ∷ gs) unique =
    if g.count == 4
    then some (record {
      category = four_of_a_kind;
      tiebreak = g.rank ∷ kickers (λ r. r == g.rank) 1 unique;
    })
    else if (g.count == 3) && second_count (leb 2) gs
    then some (record { category = full_house; tiebreak = g.rank ∷ second_rank gs ∷ [] })
    else evaluate_flush flushed all_ranks g gs unique

unfoldable pub groups_of : List Card → List Group
groups_of cards = sort_by group_before (count_ranks [] cards)

unfoldable pub unique_desc : List Card → List ℕ
unique_desc cards = sort_by greater (map (λ g. g.rank) (count_ranks [] cards))

abbrev pub ranks_of : List Card → List ℕ
ranks_of = map (λ c. c.rank)

unfoldable pub flush_of : List Card → Option (List ℕ)
flush_of cards = flush_ranks (suit_ranks [] cards)

unfoldable pub straight_flush_high : Option (List ℕ) → Option ℕ
straight_flush_high none = none
straight_flush_high (some rs) = straight_high rs

-- `Evaluate`; `none` is a Go panic.
unfoldable pub evaluate : List Card → Option HandValue
evaluate cards = elim (straight_flush_high (flush_of cards)) [
  | some high ↦ some (record { category = straight_flush; tiebreak = high ∷ [] })
  | none ↦ evaluate_groups (flush_of cards) (ranks_of cards) (groups_of cards) (unique_desc cards)
]
