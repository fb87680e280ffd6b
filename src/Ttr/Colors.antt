-- ===== src/Ttr/Colors.antt =====
-- color.go, `RoutePoints` and `PointsForLength` of mapmodel.go, and the order in which claim.go
-- discards cards.
use bgex_backend.Base.{
  ℕ, Bool, List, [], ◌∷◌, ◌++◌, ltb, leb, ◌&&◌, ◌==◌, if◌then◌else◌, replicate, count_if, Result,
  or_raise,
}
use bgex_backend.Engine.{Error, invalid_route_length}
use bgex_backend.Ttr.State.{color_loco, lookup}

abbrev pub card_colors : List ℕ
card_colors = 1 ∷ 2 ∷ 3 ∷ 4 ∷ 5 ∷ 6 ∷ 7 ∷ 8 ∷ []

-- `DeckComposition`, 0 where there is no entry.
unfoldable pub deck_composition : ℕ → ℕ
deck_composition c = if leb 1 c && leb c 8 then 12 else if c == color_loco then 14 else 0

-- `IsCardColor`
unfoldable pub is_card_color : ℕ → Bool
is_card_color c = ltb 0 (deck_composition c)

abbrev pub canonical_discard_order : List ℕ
canonical_discard_order = card_colors ++ color_loco ∷ []

abbrev pub is_color : ℕ → ℕ → Bool
is_color c d = d == c

-- How many cards of a color lie in a pile.
abbrev pub count_color : ℕ → List ℕ → ℕ
count_color c = count_if (is_color c)

-- The cards of a hand or a payment, color by color.
unfoldable pub cards_of : (ℕ → ℕ) → List ℕ → List ℕ
cards_of counts [] = []
cards_of counts (c ∷ cs) = replicate (counts c) c ++ cards_of counts cs

-- `RoutePoints`
abbrev pub route_points : List (ℕ × ℕ)
route_points = (1, 1) ∷ (2, 2) ∷ (3, 4) ∷ (4, 7) ∷ (6, 15) ∷ (8, 21) ∷ []

-- `PointsForLength`
unfoldable pub points_for_length : ℕ → Result Error ℕ
points_for_length l = or_raise (lookup route_points l) invalid_route_length
