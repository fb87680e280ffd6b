-- ===== src/Poker/Pots/Layers.antt =====
-- How many chips the pots of `buildPots` hold.
use bgex_backend.Base.{
  ℕ, ◌+◌, ◌-◌, ◌≤◌, ◌≡◌, refl, sym, ◌∙◌, true, false, List, [], ◌∷◌, leb, if◌then◌else◌, contains,
  All, keep, sum_by, sum_by-add, sum_by_zero, sum_by_congr, arith,
}
use bgex_backend.Poker.State.{Seat, Pot}
use bgex_backend.Poker.Pots.{
  contributes, levels_of, layer_amount, layer_eligible, add_pot, is_empty, add_layer, pot_layers,
  build_pots,
}
use bgex_backend.Poker.Pots.Levels.{IsAscending, levels_of-IsAscending, levels_of-contains}

abbrev pub pot_total : List Pot → ℕ
pot_total = sum_by (λ p. p.amount)

abbrev pub committed_total : List Seat → ℕ
committed_total = sum_by (λ s. s.total_committed)

-- What a contributor of `t` chips adds to the layers above `prev`.
abbrev shares : ℕ → ℕ → List ℕ → ℕ
shares t prev [] = 0
shares t prev (l ∷ ls) = (if leb l t then l - prev else 0) + shares t l ls

shares_above : (t prev : ℕ) (ls : List ℕ) → t ≤ prev → IsAscending prev ls → shares t prev ls ≡ 0
shares_above t prev [] h a = refl
shares_above t prev (l ∷ ls) h a = ground (arith, shares_above t l ls)

shares-le :
    (t prev : ℕ) (ls : List ℕ) → prev ≤ t → IsAscending prev ls → shares t prev ls + prev ≤ t
shares-le t prev [] h a = omega arith
shares-le t prev (l ∷ ls) h a = ground (arith, shares-le t l ls, shares_above t l ls)

not_contained : (t prev : ℕ) (ls : List ℕ) → t ≤ prev → IsAscending prev ls → contains ls t ≡ false
not_contained t prev [] h a = refl
not_contained t prev (l ∷ ls) h a = ground (arith, not_contained t l ls)

-- The layers up to a level sum to it.
shares_exact :
    (t prev : ℕ) (ls : List ℕ)
    → prev ≤ t
    → IsAscending prev ls
    → contains ls t ≡ true
    → shares t prev ls + prev ≡ t
shares_exact t prev [] h a c = absurd (cc)
shares_exact t prev (l ∷ ls) h a c =
    ground (arith, shares_exact t l ls, shares_above t l ls, not_contained t l ls)

abbrev pub layers_total : List Seat → ℕ → List ℕ → ℕ
layers_total cs prev [] = 0
layers_total cs prev (l ∷ ls) = layer_amount cs prev l + layers_total cs l ls

-- Summed by layers or by contributors.
layers_total-shares :
    (cs : List Seat) (prev : ℕ) (ls : List ℕ)
    → layers_total cs prev ls ≡ sum_by (λ c. shares c.total_committed prev ls) cs
unfolding layer_amount
layers_total-shares cs prev [] = sym (sum_by_zero cs)
layers_total-shares cs prev (l ∷ ls) = omega (
  arith,
  layers_total-shares cs l ls,
  sum_by-add (λ c. if leb l c.total_committed then l - prev else 0)
      (λ c. shares c.total_committed l ls) cs,
)

All-shares-le :
    (ls : List ℕ) (cs : List Seat)
    → IsAscending 0 ls
    → All (λ c. shares c.total_committed 0 ls ≤ c.total_committed) cs
All-shares-le ls [] a = tt
All-shares-le ls (c ∷ cs) a =
    (omega (arith, shares-le c.total_committed 0 ls), All-shares-le ls cs a)

All-shares_exact :
    (ls : List ℕ) (cs : List Seat)
    → IsAscending 0 ls
    → All (λ c. contains ls c.total_committed ≡ true) cs
    → All (λ c. shares c.total_committed 0 ls ≡ c.total_committed) cs
All-shares_exact ls [] a h = tt
All-shares_exact ls (c ∷ cs) a h = (
  omega (arith, shares_exact c.total_committed 0 ls (omega arith) a h.0),
  All-shares_exact ls cs a h.1,
)

committed_total-contributes :
    (seats : List Seat) → committed_total (keep contributes seats) ≡ committed_total seats
committed_total-contributes [] = refl
committed_total-contributes (s ∷ ss) = ground (arith, committed_total-contributes ss)

pub layers_total_exact :
    (seats : List Seat)
    → let cs = keep contributes seats in layers_total cs 0 (levels_of cs) ≡ committed_total seats
layers_total_exact seats =
    let cs = keep contributes seats in
    layers_total-shares cs 0 (levels_of cs)
    ∙ sum_by_congr _ _ cs
        (All-shares_exact (levels_of cs) cs (levels_of-IsAscending seats) (levels_of-contains cs))
    ∙ committed_total-contributes seats

pub pot_total-add_pot :
    (pots : List Pot) (amount : ℕ) (eligible : List ℕ)
    → pot_total (add_pot pots amount eligible) ≡ pot_total pots + amount
unfolding add_pot
pot_total-add_pot [] amount eligible = omega arith
pot_total-add_pot (p ∷ []) amount eligible = ground arith
pot_total-add_pot (p ∷ q ∷ ps) amount eligible =
    omega (arith, pot_total-add_pot (q ∷ ps) amount eligible)

pub pot_total-pot_layers-le :
    (cs : List Seat) (prev : ℕ) (ls : List ℕ) (pots : List Pot)
    → pot_total (pot_layers cs prev ls pots) ≤ pot_total pots + layers_total cs prev ls
unfolding pot_layers add_layer
pot_total-pot_layers-le cs prev [] pots = omega arith
pot_total-pot_layers-le cs prev (l ∷ ls) pots = ground (
  arith,
  pot_total-pot_layers-le cs l ls pots,
  pot_total-pot_layers-le cs l ls (add_pot pots (layer_amount cs prev l) (layer_eligible cs l)),
  pot_total-add_pot pots (layer_amount cs prev l) (layer_eligible cs l),
)

-- No level is without a player who can win it.
abbrev pub HasEligible : List Seat → List ℕ → Type 0
HasEligible cs ls = All (λ l. is_empty (layer_eligible cs l) ≡ false) ls

pot_total-pot_layers :
    (cs : List Seat) (prev : ℕ) (ls : List ℕ) (pots : List Pot)
    → HasEligible cs ls
    → pot_total (pot_layers cs prev ls pots) ≡ pot_total pots + layers_total cs prev ls
unfolding pot_layers add_layer
pot_total-pot_layers cs prev [] pots h = omega arith
pot_total-pot_layers cs prev (l ∷ ls) pots h = ground (
  arith,
  pot_total-pot_layers cs l ls pots,
  pot_total-pot_layers cs l ls (add_pot pots (layer_amount cs prev l) (layer_eligible cs l)),
  pot_total-add_pot pots (layer_amount cs prev l) (layer_eligible cs l),
)

-- The pots never hold more than the seats have committed.
pub pot_total-build_pots-le :
    (seats : List Seat) → pot_total (build_pots seats) ≤ committed_total seats
unfolding build_pots
pot_total-build_pots-le seats =
    let cs = keep contributes seats in
    omega (arith, pot_total-pot_layers-le cs 0 (levels_of cs) [], layers_total_exact seats)

pub pot_total-build_pots_of :
    (seats : List Seat)
    → HasEligible (keep contributes seats) (levels_of (keep contributes seats))
    → pot_total (build_pots seats) ≡ committed_total seats
unfolding build_pots
pot_total-build_pots_of seats h =
    let cs = keep contributes seats in
    omega (arith, pot_total-pot_layers cs 0 (levels_of cs) [] h, layers_total_exact seats)
