-- ===== src/Poker/Showdown/Shares.antt =====
-- `distribute` pays out exactly the pot.
use native.Mathlib.Nat.{div-add-mod, mod-lt}
use bgex_backend.Base.{
  ◌↔◌, ℕ, zero, suc, ◌+◌, ◌-◌, ◌*◌, ◌/◌, ◌%◌, ◌<◌, ◌≡◌, refl, sym, ◌∙◌, min, true, List, [], ◌∷◌,
  ltb, if◌then◌else◌, length, length-sort_by, sort_by, All, All-sort_by, contains, find_first,
  update_first, sum_by-update_first, map-update_first, ok, arith, Option-cases, inl, inr, ◌>>=◌,
  >>=-eq-ok, ap, subst,
}
use bgex_backend.Poker.State.{sits_at}
use bgex_backend.Poker.Showdown.{Paid, add_stack, add_payout, pay_winner, pay_shares, distribute}
use bgex_backend.Poker.Seats.Indices.{indices, found_index}
use bgex_backend.Poker.Showdown.Uncalled.{stacks}

-- The shares of the winners from position `k` on.
abbrev share_total : ℕ → ℕ → ℕ → ℕ → ℕ
share_total share remainder k zero = 0
share_total share remainder k (suc n) =
    (if ltb k remainder then suc share else share) + share_total share remainder (suc k) n

share_total_closed :
    (share remainder k n : ℕ)
    → share_total share remainder k n ≡ n * share + (min remainder (k + n) - min remainder k)
share_total_closed share remainder k zero = omega arith
share_total_closed share remainder k (suc n) =
    ground (arith, share_total_closed share remainder (suc k) n)

share_total_exact : (amount n : ℕ) → 0 < n → share_total (amount / n) (amount % n) 0 n ≡ amount
share_total_exact amount n h =
    omega (
      arith,
      share_total_closed (amount / n) (amount % n) 0 n,
      div-add-mod amount n,
      mod-lt amount h,
    )

-- A winner is paid into the one seat with its index.
pay_winner-stacks :
    (i w : ℕ) (paid done : Paid)
    → pay_winner i w paid ≡ ok done
    → (stacks done.0 ≡ stacks paid.0 + w) × (indices done.0 ≡ indices paid.0)
unfolding pay_winner
pay_winner-stacks i w (seats, payouts) done e = elim (Option-cases (find_first (sits_at i) seats)) [
  | inl missing ↦ absurd (ground arith)
  | inr (s, found) ↦ (
    ground (arith, sum_by-update_first (λ t. t.stack) (sits_at i) (add_stack w) seats s found),
    ground
        (arith, map-update_first (λ t. t.seat_index) (sits_at i) (add_stack w) (λ t. refl) seats),
  )
]

pay_shares-stacks :
    (share remainder k : ℕ) (winners : List ℕ) (paid done : Paid)
    → pay_shares share remainder k winners paid ≡ ok done
    → (stacks done.0 ≡ stacks paid.0 + share_total share remainder k (length winners))
      × (indices done.0 ≡ indices paid.0)
unfolding pay_shares
pay_shares-stacks share remainder k [] paid done e = (ground arith, ground arith)
pay_shares-stacks share remainder k (i ∷ is) paid done e =
    let w = if ltb k remainder then suc share else share in
    let (next, p, q) = >>=-eq-ok (pay_winner i w paid) (pay_shares share remainder (suc k) is) e in
    let one = pay_winner-stacks i w paid next p in
    let rest = pay_shares-stacks share remainder (suc k) is next done q in
    (omega (arith, one.0, rest.0), rest.1 ∙ one.1)

-- Splitting a pot pays its amount exactly, odd chips included, and moves no seat.
pub distribute-stacks :
    (amount : ℕ) (winners : List ℕ) (paid done : Paid)
    → 0 < length winners
    → distribute amount winners paid ≡ ok done
    → (stacks done.0 ≡ stacks paid.0 + amount) × (indices done.0 ≡ indices paid.0)
unfolding distribute
distribute-stacks amount [] paid done h e = absurd (omega (arith, h))
distribute-stacks amount (w ∷ ws) paid done h e =
    let winners = w ∷ ws in
    let n = length winners in
    let r = pay_shares-stacks (amount / n) (amount % n) 0 (sort_by ltb winners) paid done e in
    (
      omega (
        arith,
        r.0,
        ap (share_total (amount / n) (amount % n) 0) (length-sort_by ltb winners),
        share_total_exact amount n h,
      ),
      r.1,
    )

-- No nil pointer among these winners.
abbrev pub Seated : List ℕ → List ℕ → Type 0
Seated all is = All (λ i. contains all i ≡ true) is

pay_winner_total :
    (i w : ℕ) (paid : Paid)
    → contains (indices paid.0) i ≡ true
    → (done : Paid) × (pay_winner i w paid ≡ ok done)
unfolding pay_winner
pay_winner_total i w (seats, payouts) c =
    let (s, found) = found_index i seats c in
    ((update_first (sits_at i) (add_stack w) seats, add_payout i w payouts), rw (found, pay_winner))

pay_shares_total :
    (share remainder k : ℕ) (winners : List ℕ) (paid : Paid)
    → Seated (indices paid.0) winners
    → (done : Paid) × (pay_shares share remainder k winners paid ≡ ok done)
unfolding pay_shares
pay_shares_total share remainder k [] paid h = (paid, refl)
pay_shares_total share remainder k (i ∷ is) paid h =
    let w = if ltb k remainder then suc share else share in
    let (next, p) = pay_winner_total i w paid h.0 in
    let (done, q) =
      pay_shares_total share remainder (suc k) is next
        (subst (λ all. Seated all is) (sym (pay_winner-stacks i w paid next p).1) h.1) in
    (done, rw (p, ◌>>=◌) q)

-- A split among winners who all have seats pays out, without a panic, exactly when there is a
-- winner.
pub distribute_total :
    (amount : ℕ) (winners : List ℕ) (paid : Paid)
    → Seated (indices paid.0) winners
    → ((done : Paid) × (distribute amount winners paid ≡ ok done)) ↔ (0 < length winners)
unfolding distribute
distribute_total amount [] paid h = (
  λ pays. absurd (let (done, e) = pays in cc),
  λ some_winner. absurd (omega (arith, some_winner)),
)
distribute_total amount (w ∷ ws) paid h =
    let n = length (w ∷ ws) in
    (
      λ pays. omega arith,
      λ some_winner.
          pay_shares_total (amount / n) (amount % n) 0 (sort_by ltb (w ∷ ws)) paid
            (All-sort_by ltb (λ i. contains (indices paid.0) i ≡ true) (w ∷ ws) h),
    )
