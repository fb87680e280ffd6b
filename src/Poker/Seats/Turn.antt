-- ===== src/Poker/Seats/Turn.antt =====
-- `nextActor` finds a seat that owes an action, and -1 only when no seat does.
use bgex_backend.Base.{
  ap, All-map_of, ◌⊎◌, ◌<◌, Bool-cases, ℕ, zero, suc, ◌+◌, ◌≡◌, refl, Bool, true, false, not, none,
  some, List, [], ◌∷◌, if◌then◌else◌, All, All-append, All-sort_by, take, drop, keep, find_first,
  find_first-All, find_first-holds, sort_by, arith, Option-cases, inl, inr, subst, sum_by,
  sum_by-sort_by, sum_by-append,
}
use bgex_backend.Poker.State.{
  sitting_out, all_in, folded, unspecified_status, is_active, active, SeatStatus, Seat, TableState,
  is_sitting_out, sits_at,
}
use bgex_backend.Poker.Seats.{
  seat_by_index, in_hand_seats, index_less, is_actionable, start_after, rotate, next_actor,
}
use bgex_backend.Poker.Seats.Indices.{indices, IsDistinct, Finds, Finds-itself}

module _ (P : Seat → Type 0) where
  All-keep : (p : Seat → Bool) (seats : List Seat) → All P seats → All P (keep p seats)
  All-keep p [] h = tt
  All-keep p (s ∷ ss) h = ground (arith, All-keep p ss h.1)

  All-drop : (n : ℕ) (seats : List Seat) → All P seats → All P (drop n seats)
  All-drop zero seats h = h
  All-drop (suc n) [] h = tt
  All-drop (suc n) (s ∷ ss) h = All-drop n ss h.1

  All-take : (n : ℕ) (seats : List Seat) → All P seats → All P (take n seats)
  All-take zero seats h = tt
  All-take (suc n) [] h = tt
  All-take (suc n) (s ∷ ss) h = (h.0, All-take n ss h.1)

  pub All-rotate : (n : ℕ) (seats : List Seat) → All P seats → All P (rotate n seats)
  unfolding rotate
  All-rotate n seats h =
      All-append P (drop n seats) (take n seats) (All-drop n seats h) (All-take n seats h)

  pub All-in_hand_seats : (seats : List Seat) → All P seats → All P (in_hand_seats seats)
  unfolding in_hand_seats
  All-in_hand_seats seats h =
      All-sort_by index_less P _ (All-keep (λ s. not (is_sitting_out s.status)) seats h)

-- A seat that may act and has to: it is active and has chips, and it has not acted yet or has
-- committed less than the bet.
pub record IsDue (bet : ℕ) (s : Seat) : Type 0 where
  pub plays : s.status ≡ active
  pub has_chips : 0 < s.stack
  pub owes : (s.has_acted ≡ false) ⊎ (s.committed < bet)

is_active-active : (status : SeatStatus) → is_active status ≡ true → status ≡ active
is_active-active active e = refl
is_active-active unspecified_status e = absurd (cc)
is_active-active folded e = absurd (cc)
is_active-active all_in e = absurd (cc)
is_active-active sitting_out e = absurd (cc)

is_actionable-IsDue : (bet : ℕ) (s : Seat) → is_actionable bet s ≡ true → IsDue bet s
unfolding is_actionable
is_actionable-IsDue bet s e = record {
  plays = is_active-active s.status (ground (arith, e));
  has_chips = ground (arith, e);
  owes = elim (Bool-cases s.has_acted) [
    | inl acted ↦ inr (ground (arith, e, acted))
    | inr waits ↦ inl waits
  ];
}

IsDue-is_actionable : (bet : ℕ) (s : Seat) → IsDue bet s → is_actionable bet s ≡ true
unfolding is_actionable
IsDue-is_actionable bet s due = elim due.owes [
  | inl waits ↦ ground (arith, ap is_active due.plays, due.has_chips, waits)
  | inr behind ↦ ground (arith, ap is_active due.plays, due.has_chips, behind)
]

-- If no two seats share an index, the index that `nextActor` returns is that of a seat that
-- `seatByIndex` finds, which is active, has chips, and has not yet acted or is behind the current
-- bet.
pub next_actor_sound :
    (ts : TableState) (after j : ℕ)
    → IsDistinct (indices ts.seats)
    → next_actor ts after ≡ some j
    → (s : Seat) × (seat_by_index ts.seats j ≡ some s) × IsDue ts.current_bet s
unfolding next_actor seat_by_index
next_actor_sound ts after j d e =
    let due = is_actionable ts.current_bet in
    let order = in_hand_seats ts.seats in
    let scan = rotate (start_after order after) order in
    elim (Option-cases (find_first due scan)) [
      | inl gone ↦ absurd (ground (arith, gone))
      | inr (t, found) ↦
          let same : t.seat_index ≡ j = ground (arith, e, found) in
          let seated = find_first-All (Finds ts.seats) due scan t found (
            All-rotate (Finds ts.seats) (start_after order after) order
              (All-in_hand_seats (Finds ts.seats) ts.seats (Finds-itself ts.seats d))) in
          (
            t,
            subst (λ k. find_first (sits_at k) ts.seats ≡ some t) same seated,
            is_actionable-IsDue ts.current_bet t (find_first-holds due scan t found),
          )
    ]

abbrev passing : (Seat → Bool) → List Seat → ℕ
passing p = sum_by (λ s. if p s then 1 else 0)

passing-rotate :
    (p : Seat → Bool) (n : ℕ) (seats : List Seat) → passing p (rotate n seats) ≡ passing p seats
unfolding rotate
passing-rotate p n seats =
    omega (
      arith,
      sum_by-append (λ s. if p s then 1 else 0) (drop n seats) (take n seats),
      split n seats,
    )
  where
    split : (k : ℕ) (ss : List Seat) → passing p (drop k ss) + passing p (take k ss) ≡ passing p ss
    split zero ss = omega arith
    split (suc k) [] = refl
    split (suc k) (s ∷ ss) = omega (arith, split k ss)

passing-none :
    (p : Seat → Bool) (seats : List Seat) → find_first p seats ≡ none → passing p seats ≡ 0
unfolding find_first
passing-none p [] e = refl
passing-none p (s ∷ ss) e = ground (arith, passing-none p ss)

none_passing :
    (p : Seat → Bool) (seats : List Seat) → passing p seats ≡ 0 → All (λ s. p s ≡ false) seats
none_passing p [] e = tt
none_passing p (s ∷ ss) e = (ground arith, none_passing p ss (ground arith))

-- A seat that sits out owes no action.
passing-keep :
    (bet : ℕ) (seats : List Seat)
    → passing (is_actionable bet) (keep (λ s. not (is_sitting_out s.status)) seats)
      ≡ passing (is_actionable bet) seats
unfolding is_actionable
passing-keep bet [] = refl
passing-keep bet (s ∷ ss) = ground (arith, passing-keep bet ss)

not_actionable :
    (bet : ℕ) (seats : List Seat)
    → All (λ s. is_actionable bet s ≡ false) seats
    → All (λ s. ¬ (IsDue bet s)) seats
not_actionable bet =
    All-map_of (λ s. is_actionable bet s ≡ false) (λ s. ¬ (IsDue bet s))
      (λ s idle due. let acts = IsDue-is_actionable bet s due in cc)

-- `nextActor` gives -1 only when no seat at the table owes an action: none is active, has chips, and
-- has not yet acted or is behind the current bet.
pub next_actor_complete :
    (ts : TableState) (after : ℕ)
    → next_actor ts after ≡ none
    → All (λ s. ¬ (IsDue ts.current_bet s)) ts.seats
unfolding next_actor in_hand_seats
next_actor_complete ts after e =
    let bet = ts.current_bet in
    let kept = keep (λ s. not (is_sitting_out s.status)) ts.seats in
    let order = sort_by index_less kept in
    let start = start_after order after in
    let scan = rotate start order in
    let gone : find_first (is_actionable bet) scan ≡ none = ground arith in
    not_actionable bet ts.seats (
      none_passing (is_actionable bet) ts.seats (
        omega (
          arith,
          passing-none (is_actionable bet) scan gone,
          passing-rotate (is_actionable bet) start order,
          sum_by-sort_by index_less (λ s. if is_actionable bet s then 1 else 0) kept,
          passing-keep bet ts.seats,
        )))
