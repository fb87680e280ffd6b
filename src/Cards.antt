-- ===== src/Cards.antt =====
-- internal/games/engine/cards.go: the playing-card model. `uint8` arithmetic wraps at 256; the
-- shuffle is `math/rand/v2`'s, so it is an argument.
pub mod Coding
mod Tests
use Prim.Native.String.{String}
use bgex_backend.Base.{
  ℕ, zero, suc, ◌+◌, ◌-◌, ◌*◌, ◌/◌, ◌%◌, Option, none, some, List, [], ◌∷◌, map, get_elem?,
}

pub record Card : Type 0 where
  pub rank : ℕ  -- uint8
  pub suit : ℕ  -- uint8

abbrev pub two : ℕ
two = 2

abbrev pub ace : ℕ
ace = 14

abbrev pub card_count : ℕ
card_count = 52

abbrev pub suit_symbols : List String
suit_symbols = "c" ∷ "d" ∷ "h" ∷ "s" ∷ []

-- The entries of the source's map for the ranks 2 to 14.
abbrev pub rank_symbols : List String
rank_symbols = "2" ∷ "3" ∷ "4" ∷ "5" ∷ "6" ∷ "7" ∷ "8" ∷ "9" ∷ "T" ∷ "J" ∷ "Q" ∷ "K" ∷ "A" ∷ []

or_question : Option String → String
or_question none = "?"
or_question (some s) = s

-- `Suit.String`
unfoldable pub suit_string : ℕ → String
unfolding or_question
suit_string s = or_question (get_elem? suit_symbols s)

-- `Rank.String`: the keys of the map begin at 2.
unfoldable pub rank_string : ℕ → String
unfolding or_question
rank_string zero = "?"
rank_string (suc zero) = "?"
rank_string (suc (suc r)) = or_question (get_elem? rank_symbols r)

-- `Card.ToInt`
unfoldable pub to_int : Card → ℕ
to_int c = c.suit * 13 + (c.rank + 256 - two) % 256

-- `CardFromInt`
unfoldable pub card_from_int : ℕ → Card
card_from_int i = record { rank = (i % 13 % 256 + two) % 256; suit = i / 13 % 256 }

-- The values from `i` on, `n` of them.
unfoldable pub count_up : ℕ → ℕ → List ℕ
count_up zero i = []
count_up (suc n) i = i ∷ count_up n (suc i)

-- `NewDeck`
unfoldable pub new_deck : List ℕ
unfolding count_up
new_deck = count_up card_count 0

-- `ShuffledDeck`
unfoldable pub shuffled_deck : (List ℕ → List ℕ) → List ℕ
shuffled_deck shuffle = shuffle new_deck

-- `CardsFromInts`
unfoldable pub cards_from_ints : List ℕ → List Card
cards_from_ints = map card_from_int
