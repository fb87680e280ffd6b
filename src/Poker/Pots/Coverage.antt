-- ===== src/Poker/Pots/Coverage.antt =====
-- When the pots hold everything: the highest contribution must be a live player's.
use bgex_backend.Base.{
  ℕ, ◌+◌, ◌≤◌, ◌<◌, ◌≡◌, refl, sym, ◌∙◌, Bool, true, false, not, ◌&&◌, ◌||◌, List, [], ◌∷◌, max,
  leb, ◌==◌, contains, All, keep, arith, Bool-cases, inl, inr,
}
use bgex_backend.Poker.State.{Seat, Pot, is_folded}
use bgex_backend.Poker.Pots.{
  contributes, levels_of, layer_amount, layer_eligible, add_pot, is_empty, add_layer, pot_layers,
  build_pots,
}
use bgex_backend.Poker.Pots.Levels.{IsAscending, totals, levels_of-IsAscending, contains-levels_of}
use bgex_backend.Poker.Pots.Layers.{
  pot_total, committed_total, layers_total, layers_total_exact, pot_total-add_pot,
  pot_total-pot_layers-le, HasEligible, pot_total-build_pots_of,
}

-- Some player who has not folded committed `top` chips or more.
unfoldable pub covers : ℕ → List Seat → Bool
covers top [] = false
covers top (s ∷ ss) = (not (is_folded s.status) && leb top s.total_committed) || covers top ss

unfoldable pub top_total : List Seat → ℕ
top_total [] = 0
top_total (s ∷ ss) = max s.total_committed (top_total ss)

covers_antitone :
    (l top : ℕ) (seats : List Seat) → l ≤ top → covers top seats ≡ true → covers l seats ≡ true
unfolding covers
covers_antitone l top [] h c = c
covers_antitone l top (s ∷ ss) h c = ground (arith, covers_antitone l top ss)

-- A level has somebody to win it exactly when a live player reaches it.
is_empty-layer_eligible :
    (l : ℕ) (seats : List Seat)
    → 0 < l
    → is_empty (layer_eligible (keep contributes seats) l) ≡ not (covers l seats)
unfolding covers layer_eligible
is_empty-layer_eligible l [] h = refl
is_empty-layer_eligible l (s ∷ ss) h = ground (arith, is_empty-layer_eligible l ss)

Ascending-le_contained :
    (top b : ℕ) (ls : List ℕ)
    → IsAscending b ls
    → ((l : ℕ) → contains ls l ≡ true → l ≤ top)
    → All (λ l. (b < l) × (l ≤ top)) ls
Ascending-le_contained top b [] a h = tt
Ascending-le_contained top b (l ∷ ls) a h = (
  (a.0, h l (ground arith)),
  weaken ls (Ascending-le_contained top l ls a.1 (λ k c. h k (ground arith))),
)
  where
    weaken : (ks : List ℕ) → All (λ k. (l < k) × (k ≤ top)) ks → All (λ k. (b < k) × (k ≤ top)) ks
    weaken [] g = tt
    weaken (k ∷ ks) g = ((omega arith, g.0.1), weaken ks g.1)

total-le-top : (seats : List Seat) (l : ℕ) → contains (totals seats) l ≡ true → l ≤ top_total seats
unfolding top_total
total-le-top [] l c = absurd (cc)
total-le-top (s ∷ ss) l c = ground (arith, total-le-top ss l)

contributed :
    (seats : List Seat) (l : ℕ)
    → contains (totals (keep contributes seats)) l ≡ true
    → contains (totals seats) l ≡ true
contributed [] l c = c
contributed (s ∷ ss) l c = ground (arith, contributed ss l)

contributed_pos :
    (seats : List Seat) (l : ℕ)
    → 0 < l
    → contains (totals seats) l ≡ true
    → contains (totals (keep contributes seats)) l ≡ true
contributed_pos [] l h c = c
contributed_pos (s ∷ ss) l h c = ground (arith, contributed_pos ss l)

HasEligible-of_covers :
    (seats : List Seat) (top : ℕ) (ls : List ℕ)
    → covers top seats ≡ true
    → All (λ l. (0 < l) × (l ≤ top)) ls
    → HasEligible (keep contributes seats) ls
HasEligible-of_covers seats top [] c h = tt
HasEligible-of_covers seats top (l ∷ ls) c h = (
  ground (arith, is_empty-layer_eligible l seats, covers_antitone l top seats),
  HasEligible-of_covers seats top ls c h.1,
)

-- If a player who has not folded committed as much as anybody, the pots hold every chip committed.
pub pot_total-build_pots :
    (seats : List Seat)
    → covers (top_total seats) seats ≡ true
    → pot_total (build_pots seats) ≡ committed_total seats
pot_total-build_pots seats c = pot_total-build_pots_of seats (
    HasEligible-of_covers seats (top_total seats) (levels_of (keep contributes seats)) c (
      Ascending-le_contained (top_total seats) 0 _ (levels_of-IsAscending seats) (λ l e.
        total-le-top seats l
          (contributed seats l (sym (contains-levels_of l (keep contributes seats)) ∙ e)))))

layer_amount_pos :
    (cs : List Seat) (prev l : ℕ)
    → prev < l
    → contains (totals cs) l ≡ true
    → 0 < layer_amount cs prev l
unfolding layer_amount
layer_amount_pos [] prev l h c = absurd (cc)
layer_amount_pos (s ∷ ss) prev l h c = ground (arith, layer_amount_pos ss prev l)

-- A level that nobody can win is left out of the pots.
pot_layers_drop :
    (cs : List Seat) (l prev : ℕ) (ls : List ℕ) (pots : List Pot)
    → IsAscending prev ls
    → contains ls l ≡ true
    → contains (totals cs) l ≡ true
    → is_empty (layer_eligible cs l) ≡ true
    → pot_total (pot_layers cs prev ls pots) < pot_total pots + layers_total cs prev ls
unfolding pot_layers add_layer
pot_layers_drop cs l prev [] pots a c t e = absurd (cc)
pot_layers_drop cs l prev (k ∷ ls) pots a c t e = elim (Bool-cases (k == l)) [
  | inl here ↦ ground (arith, layer_amount_pos cs prev l, pot_total-pot_layers-le cs k ls pots)
  | inr later ↦ ground (
    arith,
    pot_layers_drop cs l k ls pots,
    pot_layers_drop cs l k ls (add_pot pots (layer_amount cs prev k) (layer_eligible cs k)),
    pot_total-add_pot pots (layer_amount cs prev k) (layer_eligible cs k),
  )
]

-- If a player committed `l` chips and no player who has not folded committed as many, the pots hold
-- fewer chips than were committed.
pub pot_total-build_pots_lt :
    (seats : List Seat) (l : ℕ)
    → 0 < l
    → contains (totals seats) l ≡ true
    → covers l seats ≡ false
    → pot_total (build_pots seats) < committed_total seats
unfolding build_pots
pot_total-build_pots_lt seats l h c d =
    let cs = keep contributes seats in
    omega (
      arith,
      pot_layers_drop cs l 0 (levels_of cs) [] (levels_of-IsAscending seats)
          (contains-levels_of l cs ∙ contributed_pos seats l h c) (contributed_pos seats l h c)
          (ground (arith, is_empty-layer_eligible l seats)),
      layers_total_exact seats,
    )
