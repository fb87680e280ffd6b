-- ===== src/Poker/Pots.antt =====
-- betting.go: `returnUncalled`, `buildPots`, `sameSeats` and `clearCommitments`.
pub mod Levels
pub mod Layers
pub mod Coverage
use bgex_backend.Base.{
  ℕ, ◌+◌, ◌-◌, Bool, true, false, not, ◌&&◌, ◌||◌, List, [], ◌∷◌, map, ltb, leb, ◌==◌,
  if◌then◌else◌, keep, contains, sum_by, sort_by, update_first,
}
use bgex_backend.Poker.State.{Seat, Pot, is_folded, sits_at}

abbrev pub cleared : Seat → Seat
cleared s = record s { committed = 0; total_committed = 0 }

unfoldable pub clear_commitments : List Seat → List Seat
clear_commitments = map cleared

abbrev pub contributes : Seat → Bool
contributes s = ltb 0 s.total_committed

abbrev pub more_total : Seat → Seat → Bool
more_total a b = ltb b.total_committed a.total_committed

abbrev pub refund : ℕ → Seat → Seat
refund diff s = record s { stack = s.stack + diff; total_committed = s.total_committed - diff }

-- The two highest contributors; the first gets back what the second did not match.
unfoldable pub refund_top : List Seat → List Seat → List Seat
refund_top (a ∷ b ∷ rest) seats =
    if ltb b.total_committed a.total_committed
    then update_first (sits_at a.seat_index) (refund (a.total_committed - b.total_committed)) seats
    else seats
refund_top _ seats = seats

unfoldable pub return_uncalled : List Seat → List Seat
return_uncalled seats = refund_top (sort_by more_total (keep contributes seats)) seats

-- The keys of `levelSet`.
unfoldable pub distinct : List ℕ → List ℕ
distinct [] = []
distinct (x ∷ xs) = let rest = distinct xs in if contains rest x then rest else x ∷ rest

unfoldable pub levels_of : List Seat → List ℕ
levels_of cs = sort_by ltb (distinct (map (λ c. c.total_committed) cs))

-- What the contributors of a level add to it.
unfoldable pub layer_amount : List Seat → ℕ → ℕ → ℕ
layer_amount cs prev lvl = sum_by (λ c. if leb lvl c.total_committed then lvl - prev else 0) cs

unfoldable pub layer_eligible : List Seat → ℕ → List ℕ
layer_eligible cs lvl =
    map (λ c. c.seat_index) (keep (λ c. leb lvl c.total_committed && not (is_folded c.status)) cs)

unfoldable pub same_seats : List ℕ → List ℕ → Bool
same_seats [] [] = true
same_seats (x ∷ xs) (y ∷ ys) = (x == y) && same_seats xs ys
same_seats _ _ = false

-- Merge into the last pot when it has the same eligible seats.
unfoldable pub add_pot : List Pot → ℕ → List ℕ → List Pot
add_pot [] amount eligible = record { amount = amount; eligible_seats = eligible } ∷ []
add_pot (p ∷ []) amount eligible =
    if same_seats p.eligible_seats eligible
    then record p { amount = p.amount + amount } ∷ []
    else p ∷ record { amount = amount; eligible_seats = eligible } ∷ []
add_pot (p ∷ q ∷ ps) amount eligible = p ∷ add_pot (q ∷ ps) amount eligible

abbrev pub is_empty : List ℕ → Bool
is_empty [] = true
is_empty (x ∷ xs) = false

-- One round of the loop over the levels.
unfoldable pub add_layer : List Seat → ℕ → ℕ → List Pot → List Pot
add_layer cs prev lvl pots =
    if (layer_amount cs prev lvl == 0) || is_empty (layer_eligible cs lvl)
    then pots
    else add_pot pots (layer_amount cs prev lvl) (layer_eligible cs lvl)

unfoldable pub pot_layers : List Seat → ℕ → List ℕ → List Pot → List Pot
pot_layers cs prev [] pots = pots
pot_layers cs prev (lvl ∷ lvls) pots = pot_layers cs lvl lvls (add_layer cs prev lvl pots)

unfoldable pub build_pots : List Seat → List Pot
build_pots seats = let cs = keep contributes seats in pot_layers cs 0 (levels_of cs) []
