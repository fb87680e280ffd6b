-- ===== src/Poker/Showdown/Uncalled.antt =====
-- `returnUncalled` moves chips from the pot back to a stack, and `clearCommitments` empties the pot.
use bgex_backend.Base.{
  ℕ, ◌+◌, ◌-◌, ◌≡◌, refl, Bool, List, [], ◌∷◌, map, keep, All, All-sort_by, sum_by,
  sum_by-update_first, map-update_first, sort_by, arith,
}
use bgex_backend.Poker.State.{Seat, sits_at, seat_chips, chips}
use bgex_backend.Poker.Pots.{
  contributes, more_total, refund, refund_top, return_uncalled, clear_commitments,
}
use bgex_backend.Poker.Pots.Layers.{committed_total}
use bgex_backend.Poker.Seats.Indices.{indices, IsDistinct, Finds, Finds-itself}

abbrev pub stacks : List Seat → ℕ
stacks = sum_by (λ s. s.stack)

pub chips-stacks : (seats : List Seat) → chips seats ≡ stacks seats + committed_total seats
chips-stacks [] = refl
chips-stacks (s ∷ ss) = omega (arith, chips-stacks ss)

pub chips-clear_commitments : (seats : List Seat) → chips (clear_commitments seats) ≡ stacks seats
unfolding clear_commitments
chips-clear_commitments [] = refl
chips-clear_commitments (s ∷ ss) = omega (arith, chips-clear_commitments ss)

All-keep :
    (P : Seat → Type 0) (p : Seat → Bool) (seats : List Seat) → All P seats → All P (keep p seats)
All-keep P p [] h = tt
All-keep P p (s ∷ ss) h = ground (arith, All-keep P p ss h.1)

chips-refund_top :
    (sorted seats : List Seat)
    → All (Finds seats) sorted
    → chips (refund_top sorted seats) ≡ chips seats
unfolding refund_top
chips-refund_top [] seats h = refl
chips-refund_top (a ∷ []) seats h = refl
chips-refund_top (a ∷ b ∷ rest) seats h = ground (
  arith,
  sum_by-update_first seat_chips (sits_at a.seat_index)
      (refund (a.total_committed - b.total_committed)) seats a h.0,
)

-- Returning an uncalled bet neither creates nor loses a chip.
pub chips-return_uncalled :
    (seats : List Seat) → IsDistinct (indices seats) → chips (return_uncalled seats) ≡ chips seats
unfolding return_uncalled
chips-return_uncalled seats d =
    chips-refund_top (sort_by more_total (keep contributes seats)) seats (
      All-sort_by more_total (Finds seats) (keep contributes seats)
        (All-keep (Finds seats) contributes seats (Finds-itself seats d)))

map-refund_top :
    {B : Type 0} (g : Seat → B)
    → ((n : ℕ) (s : Seat) → g (refund n s) ≡ g s)
    → (sorted seats : List Seat) → map g (refund_top sorted seats) ≡ map g seats
unfolding refund_top
map-refund_top g k [] seats = refl
map-refund_top g k (a ∷ []) seats = refl
map-refund_top g k (a ∷ b ∷ rest) seats =
    let diff = a.total_committed - b.total_committed in
    ground (arith, map-update_first g (sits_at a.seat_index) (refund diff) (k diff) seats)

pub indices-return_uncalled : (seats : List Seat) → indices (return_uncalled seats) ≡ indices seats
unfolding return_uncalled
indices-return_uncalled seats = map-refund_top (λ s. s.seat_index) (λ n s. refl) _ seats
