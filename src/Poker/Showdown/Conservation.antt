-- ===== src/Poker/Showdown/Conservation.antt =====
-- A showdown never makes chips; it keeps them all when the highest contribution is a live player's.
use bgex_backend.Base.{
  ℕ, ◌+◌, ◌-◌, ◌≤◌, ◌<◌, ◌≡◌, refl, ◌∙◌, Bool, true, false, not, ◌||◌, none, List, [], ◌∷◌, ltb,
  Bool-cases, inl, inr, All, All-update_first, keep, sort_by, contains, arith, ok, ◌>>=◌, >>=-eq-ok,
  subst,
}
use bgex_backend.Poker.State.{Seat, Pot, TableState, Event, chips, is_folded, is_live, sits_at}
use bgex_backend.Poker.Pots.{
  contributes, more_total, refund, refund_top, return_uncalled, levels_of, layer_amount,
  layer_eligible, is_empty, add_pot, add_layer, pot_layers, build_pots, clear_commitments,
}
use bgex_backend.Poker.Pots.Levels.{totals}
use bgex_backend.Poker.Pots.Layers.{pot_total-build_pots-le}
use bgex_backend.Poker.Pots.Coverage.{
  covers, top_total, pot_total-build_pots, pot_total-build_pots_lt,
}
use bgex_backend.Poker.Seats.Indices.{indices, IsDistinct}
use bgex_backend.Poker.Seats.Table.{IsSeat}
use bgex_backend.Poker.Showdown.{Paid, live_values, best_of, pay_pots, settle, run_showdown}
use bgex_backend.Poker.Showdown.Uncalled.{
  stacks, chips-stacks, chips-clear_commitments, chips-return_uncalled, indices-return_uncalled,
}
use bgex_backend.Poker.Showdown.Winners.{Values, has_value, is_won, best_of_won}
use bgex_backend.Poker.Showdown.Payout.{
  won_total, pay_pots-stacks, won_total-le, AllWon, won_total_exact, Shown, live_values-Shown,
}

-- A seat with chips in the pot has folded or is live: nobody who sits out has bet.
abbrev pub is_dealt_in : Seat → Bool
is_dealt_in s = not (contributes s) || (is_folded s.status || is_live s.status)

abbrev pub AllDealtIn : List Seat → Type 0
AllDealtIn = All (λ s. is_dealt_in s ≡ true)

AllDealtIn-refund_top :
    (sorted seats : List Seat) → AllDealtIn seats → AllDealtIn (refund_top sorted seats)
unfolding refund_top
AllDealtIn-refund_top [] seats h = h
AllDealtIn-refund_top (a ∷ []) seats h = h
AllDealtIn-refund_top (a ∷ b ∷ rest) seats h =
    elim (Bool-cases (ltb b.total_committed a.total_committed)) [
      | inl over ↦ rw over (
          All-update_first (λ s. is_dealt_in s ≡ true) (sits_at a.seat_index)
            (refund (a.total_committed - b.total_committed)) (λ s g. ground arith) seats h)
      | inr even ↦ rw even h
    ]

-- The seats that can win a level all have a value.
Valued : Values → List ℕ → Type 0
Valued values = All (λ i. has_value values i ≡ true)

layer_eligible-Valued :
    (values : Values) (l : ℕ) (seats : List Seat)
    → AllDealtIn seats
    → Shown values seats
    → Valued values (layer_eligible (keep contributes seats) l)
unfolding layer_eligible Valued
layer_eligible-Valued values l [] d h = tt
layer_eligible-Valued values l (s ∷ ss) d h =
    ground (arith, layer_eligible-Valued values l ss d.1 h.1, d.0, h.0)

won_of-Valued :
    (values : Values) (is : List ℕ)
    → is_empty is ≡ false
    → Valued values is
    → is_won (best_of values is none) ≡ true
unfolding Valued
won_of-Valued values [] e h = absurd (cc)
won_of-Valued values (i ∷ is) e h = best_of_won values i is h.0

add_pot-AllWon :
    (values : Values) (pots : List Pot) (amount : ℕ) (is : List ℕ)
    → is_won (best_of values is none) ≡ true
    → AllWon values pots
    → AllWon values (add_pot pots amount is)
unfolding add_pot
add_pot-AllWon values [] amount is w h = (w, tt)
add_pot-AllWon values (p ∷ []) amount is w h = ground arith
add_pot-AllWon values (p ∷ q ∷ ps) amount is w h =
    (h.0, add_pot-AllWon values (q ∷ ps) amount is w h.1)

add_layer-AllWon :
    (values : Values) (cs : List Seat) (prev l : ℕ) (pots : List Pot)
    → Valued values (layer_eligible cs l)
    → AllWon values pots
    → AllWon values (add_layer cs prev l pots)
unfolding add_layer
add_layer-AllWon values cs prev l pots v h = ground (
  arith,
  won_of-Valued values (layer_eligible cs l),
  add_pot-AllWon values pots (layer_amount cs prev l) (layer_eligible cs l),
)

pot_layers-AllWon :
    (values : Values) (cs : List Seat) (prev : ℕ) (ls : List ℕ) (pots : List Pot)
    → ((l : ℕ) → Valued values (layer_eligible cs l))
    → AllWon values pots
    → AllWon values (pot_layers cs prev ls pots)
unfolding pot_layers
pot_layers-AllWon values cs prev [] pots v h = h
pot_layers-AllWon values cs prev (l ∷ ls) pots v h =
    pot_layers-AllWon values cs l ls (add_layer cs prev l pots) v
      (add_layer-AllWon values cs prev l pots (v l) h)

build_pots-AllWon :
    (values : Values) (seats : List Seat)
    → AllDealtIn seats
    → Shown values seats
    → AllWon values (build_pots seats)
unfolding build_pots
build_pots-AllWon values seats d h =
    let cs = keep contributes seats in
    pot_layers-AllWon values cs 0 (levels_of cs) [] (λ l. layer_eligible-Valued values l seats d h)
      tt

pub indices-cleared : (seats : List Seat) → indices (clear_commitments seats) ≡ indices seats
unfolding clear_commitments
indices-cleared [] = refl
indices-cleared (s ∷ ss) = ground (arith, indices-cleared ss)

-- A showdown that ends: the hands shown, and what the pots paid.
run_showdown_parts :
    (ts : TableState) (done : TableState × List Event)
    → run_showdown ts ≡ ok done
    → let seats = return_uncalled ts.seats in
      (values : Values) × (live_values ts.board seats ≡ ok values)
      × (chips done.0.seats ≡ stacks seats + won_total values (build_pots seats))
      × (indices done.0.seats ≡ indices seats)
unfolding run_showdown settle clear_commitments
run_showdown_parts ts done e =
    let seats = return_uncalled ts.seats in
    let pots = build_pots seats in
    let after = λ (values : Values) (paid : Paid). settle ts pots values paid in
    let (values, shown, paying) =
      >>=-eq-ok (live_values ts.board seats)
        (λ vs. pay_pots vs pots (seats, []) >>= λ paid. ok (after vs paid)) e in
    let (paid, pays, end) =
      >>=-eq-ok (pay_pots values pots (seats, [])) (λ paid. ok (after values paid)) paying in
    let (sum, same) = pay_pots-stacks values pots (seats, []) paid pays in
    (
      values,
      shown,
      ground (arith, end, sum, chips-clear_commitments paid.0),
      ground (arith, end, same, indices-cleared paid.0),
    )

-- A showdown never creates chips.
pub chips-run_showdown-le :
    (ts : TableState) (done : TableState × List Event)
    → IsDistinct (indices ts.seats)
    → run_showdown ts ≡ ok done
    → chips done.0.seats ≤ chips ts.seats
chips-run_showdown-le ts done d e =
    let seats = return_uncalled ts.seats in
    let (values, shown, total, same) = run_showdown_parts ts done e in
    omega (
      arith,
      total,
      won_total-le values (build_pots seats),
      pot_total-build_pots-le seats,
      chips-stacks seats,
      chips-return_uncalled ts.seats d,
    )

-- If, once the uncalled bet is returned, a player who has not folded has committed as much as
-- anybody, then a showdown keeps the number of chips.
pub chips-run_showdown :
    (ts : TableState) (done : TableState × List Event)
    → IsDistinct (indices ts.seats)
    → AllDealtIn ts.seats
    → covers (top_total (return_uncalled ts.seats)) (return_uncalled ts.seats) ≡ true
    → run_showdown ts ≡ ok done
    → chips done.0.seats ≡ chips ts.seats
unfolding return_uncalled
chips-run_showdown ts done d h c e =
    let seats = return_uncalled ts.seats in
    let (values, shown, total, same) = run_showdown_parts ts done e in
    omega (
      arith,
      total,
      won_total_exact values (build_pots seats) (
          build_pots-AllWon values seats
            (AllDealtIn-refund_top (sort_by more_total (keep contributes ts.seats)) ts.seats h)
            (live_values-Shown ts.board seats values shown)),
      pot_total-build_pots seats c,
      chips-stacks seats,
      chips-return_uncalled ts.seats d,
    )

-- If, once the uncalled bet is returned, somebody has committed `l` chips and no player who has not
-- folded has committed as many, then a showdown loses chips.
pub chips-run_showdown-lt :
    (ts : TableState) (done : TableState × List Event) (l : ℕ)
    → IsDistinct (indices ts.seats)
    → 0 < l
    → contains (totals (return_uncalled ts.seats)) l ≡ true
    → covers l (return_uncalled ts.seats) ≡ false
    → run_showdown ts ≡ ok done
    → chips done.0.seats < chips ts.seats
chips-run_showdown-lt ts done l d h t c e =
    let seats = return_uncalled ts.seats in
    let (values, shown, total, same) = run_showdown_parts ts done e in
    omega (
      arith,
      total,
      won_total-le values (build_pots seats),
      pot_total-build_pots_lt seats l h t c,
      chips-stacks seats,
      chips-return_uncalled ts.seats d,
    )

pub run_showdown-indices :
    (ts : TableState) (done : TableState × List Event)
    → run_showdown ts ≡ ok done
    → indices done.0.seats ≡ indices ts.seats
run_showdown-indices ts done e = (run_showdown_parts ts done e).3 ∙ indices-return_uncalled ts.seats

pub cleared-IsSeat : (seats : List Seat) → All IsSeat (clear_commitments seats)
unfolding clear_commitments
cleared-IsSeat [] = tt
cleared-IsSeat (s ∷ ss) = (ground arith, cleared-IsSeat ss)

-- After a showdown the pot is empty.
pub run_showdown-IsSeat :
    (ts : TableState) (done : TableState × List Event)
    → run_showdown ts ≡ ok done
    → All IsSeat done.0.seats
unfolding run_showdown settle
run_showdown-IsSeat ts done e =
    let seats = return_uncalled ts.seats in
    let pots = build_pots seats in
    let after = λ (values : Values) (paid : Paid). settle ts pots values paid in
    let (values, shown, paying) =
      >>=-eq-ok (live_values ts.board seats)
        (λ vs. pay_pots vs pots (seats, []) >>= λ paid. ok (after vs paid)) e in
    let (paid, pays, end) =
      >>=-eq-ok (pay_pots values pots (seats, [])) (λ paid. ok (after values paid)) paying in
    subst (All IsSeat) (ground (arith, end)) (cleared-IsSeat paid.0)
