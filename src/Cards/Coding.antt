-- ===== src/Cards/Coding.antt =====
-- The integer code of a card is a bijection between the 52 cards and the numbers below 52.
use bgex_backend.Base.{ℕ, zero, suc, ◌+◌, ◌≤◌, ◌<◌, ◌≡◌, refl, ap, some, length, get_elem?, arith}
use bgex_backend.Cards.{Card, to_int, card_from_int, count_up, new_deck}

-- A rank from two to ace, and one of the four suits.
pub record IsCard (c : Card) : Type 0 where
  pub rank_low : 2 ≤ c.rank
  pub rank_high : c.rank ≤ 14
  pub suit_high : c.suit < 4

-- A card is encoded below 52, and decodes to itself.
pub card_from_int-to_int : (c : Card) → IsCard c → (to_int c < 52) × (card_from_int (to_int c) ≡ c)
unfolding to_int card_from_int
card_from_int-to_int c h = (omega arith, ground arith)

-- A number below 52 decodes to a card, and encodes to itself.
pub to_int-card_from_int :
    (i : ℕ) → i < 52 → IsCard (card_from_int i) × (to_int (card_from_int i) ≡ i)
unfolding to_int card_from_int
to_int-card_from_int i h = (
  record { rank_low = omega arith; rank_high = omega arith; suit_high = omega arith },
  omega arith,
)

count_up-get_elem? : (n i k : ℕ) → k < n → get_elem? (count_up n i) k ≡ some (i + k)
unfolding count_up
count_up-get_elem? zero i k h = absurd (omega arith)
count_up-get_elem? (suc n) i zero h = ground arith
count_up-get_elem? (suc n) i (suc k) h = ground (arith, count_up-get_elem? n (suc i) k)

length-count_up : (n i : ℕ) → length (count_up n i) ≡ n
unfolding count_up
length-count_up zero i = refl
length-count_up (suc n) i = ap suc (length-count_up n (suc i))

pub length-new_deck : length new_deck ≡ 52
unfolding new_deck
length-new_deck = length-count_up 52 0

-- The deck holds each of the 52 codes at its own place, so each of the cards once.
new_deck-get_elem? : (i : ℕ) → i < 52 → get_elem? new_deck i ≡ some i
unfolding new_deck
new_deck-get_elem? i h = ground (arith, count_up-get_elem? 52 0 i)
