-- ===== src/Cards/Tests.antt =====
-- The theorems on card codes at concrete cards.
use bgex_backend.Base.{◌≡◌, ◌<◌, refl, arith}
use bgex_backend.Cards.{Card, to_int, card_from_int, rank_string, suit_string}
use bgex_backend.Cards.Coding.{IsCard, card_from_int-to_int, to_int-card_from_int}

abbrev ten_of_hearts : Card
ten_of_hearts = record { rank = 10; suit = 2 }

card_from_int-to_int_example :
    (to_int ten_of_hearts < 52) × (card_from_int (to_int ten_of_hearts) ≡ ten_of_hearts)
card_from_int-to_int_example = card_from_int-to_int ten_of_hearts (omega arith)

to_int-card_from_int_example : IsCard (card_from_int 34) × (to_int (card_from_int 34) ≡ 34)
to_int-card_from_int_example = to_int-card_from_int 34 (omega arith)

ten_of_hearts_code : rank_string 10 ≡ "T"
unfolding rank_string
ten_of_hearts_code = refl

hearts_code : suit_string 2 ≡ "h"
unfolding suit_string
hearts_code = refl
