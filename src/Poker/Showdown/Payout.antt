-- ===== src/Poker/Showdown/Payout.antt =====
-- The loop over the pots pays out what they hold.
use bgex_backend.Base.{
  ℕ, ◌+◌, ◌≤◌, ◌≡◌, refl, ◌∙◌, true, Option, none, some, List, [], ◌∷◌, if◌then◌else◌, All, sum_by,
  arith, ok, Result, >>=-eq-ok, Bool-cases, inl, inr, subst,
}
use bgex_backend.Eval.{HandValue}
use bgex_backend.Engine.{Error}
use bgex_backend.Poker.State.{Seat, Pot, is_live}
use bgex_backend.Poker.Pots.Layers.{pot_total}
use bgex_backend.Poker.Showdown.{
  Paid, best_of, pay_best, pay_pots, live_values, value_of, show_hand, full_hand,
}
use bgex_backend.Poker.Seats.Indices.{indices}
use bgex_backend.Poker.Showdown.Uncalled.{stacks}
use bgex_backend.Poker.Showdown.Shares.{distribute-stacks}
use bgex_backend.Poker.Showdown.Winners.{Values, best_of_wins, has_value, is_won}

pay_best-stacks :
    (amount : ℕ) (values : Values) (is : List ℕ) (won : Option (HandValue × List ℕ))
    (paid done : Paid)
    → best_of values is none ≡ won
    → pay_best amount won paid ≡ ok done
    → (stacks done.0 ≡ stacks paid.0 + (if is_won won then amount else 0))
      × (indices done.0 ≡ indices paid.0)
unfolding pay_best
pay_best-stacks amount values is none paid done b e = (ground arith, ground arith)
pay_best-stacks amount values is (some (best, winners)) paid done b e =
    distribute-stacks amount winners paid done (best_of_wins values is best winners b).2 e

-- The chips of the pots that somebody wins.
abbrev pub won_total : Values → List Pot → ℕ
won_total values =
    sum_by (λ p. if is_won (best_of values p.eligible_seats none) then p.amount else 0)

pub pay_pots-stacks :
    (values : Values) (pots : List Pot) (paid done : Paid)
    → pay_pots values pots paid ≡ ok done
    → (stacks done.0 ≡ stacks paid.0 + won_total values pots) × (indices done.0 ≡ indices paid.0)
unfolding pay_pots
pay_pots-stacks values [] paid done e = (ground arith, ground arith)
pay_pots-stacks values (p ∷ ps) paid done e =
    let won = best_of values p.eligible_seats none in
    let (next, first, later) = >>=-eq-ok (pay_best p.amount won paid) (pay_pots values ps) e in
    let one = pay_best-stacks p.amount values p.eligible_seats won paid next refl first in
    let rest = pay_pots-stacks values ps next done later in
    (omega (arith, one.0, rest.0), rest.1 ∙ one.1)

pub won_total-le : (values : Values) (pots : List Pot) → won_total values pots ≤ pot_total pots
won_total-le values [] = omega arith
won_total-le values (p ∷ ps) = ground (arith, won_total-le values ps)

abbrev pub AllWon : Values → List Pot → Type 0
AllWon values = All (λ p. is_won (best_of values p.eligible_seats none) ≡ true)

pub won_total_exact :
    (values : Values) (pots : List Pot)
    → AllWon values pots
    → won_total values pots ≡ pot_total pots
won_total_exact values [] h = refl
won_total_exact values (p ∷ ps) h = ground (arith, won_total_exact values ps h.1)

-- Every live seat is among the hands shown.
abbrev pub Shown : Values → List Seat → Type 0
Shown values = All (λ s. is_live s.status ≡ true → has_value values s.seat_index ≡ true)

Shown-more :
    (i : ℕ) (v : HandValue) (values : Values) (ss : List Seat)
    → Shown values ss
    → Shown ((i, v) ∷ values) ss
unfolding value_of
Shown-more i v values [] h = tt
Shown-more i v values (s ∷ ss) h = ((λ l. ground (arith, h.0 l)), Shown-more i v values ss h.1)

show_hand_parts :
    (i : ℕ) (o : Option HandValue) (rest : Result Error Values) (values : Values)
    → show_hand i o rest ≡ ok values
    → (v : HandValue) × (vs : Values) × (rest ≡ ok vs) × ((i, v) ∷ vs ≡ values)
unfolding show_hand
show_hand_parts i none rest values e = absurd (cc)
show_hand_parts i (some v) rest values e =
    let (vs, p, q) = >>=-eq-ok rest (λ us. ok ((i, v) ∷ us)) e in (v, vs, p, ground (arith, q))

pub live_values-Shown :
    (board : List ℕ) (seats : List Seat) (values : Values)
    → live_values board seats ≡ ok values
    → Shown values seats
unfolding live_values value_of
live_values-Shown board [] values e = tt
live_values-Shown board (s ∷ ss) values e = elim (Bool-cases (is_live s.status)) [
  | inl live ↦
      let (v, vs, p, q) =
        show_hand_parts s.seat_index (full_hand board s) (live_values board ss) values
          (rw live at e) in
      subst (λ us. Shown us (s ∷ ss)) q
        ((λ l. ground arith), Shown-more s.seat_index v vs ss (live_values-Shown board ss vs p))
  | inr dead ↦ ((λ l. absurd (cc)), live_values-Shown board ss values (rw dead at e))
]
