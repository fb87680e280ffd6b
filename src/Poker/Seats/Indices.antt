-- ===== src/Poker/Seats/Indices.antt =====
-- Seats are known by their index: no two seats at a table share one.
use bgex_backend.Base.{
  ℕ, ◌≡◌, true, false, some, List, [], ◌∷◌, map, ◌==◌, contains, All, find_first, arith, Bool-cases,
  inl, inr,
}
use bgex_backend.Poker.State.{Seat, sits_at}

abbrev pub indices : List Seat → List ℕ
indices = map (λ s. s.seat_index)

-- Each number stands once.
abbrev pub IsDistinct : List ℕ → Type 0
IsDistinct [] = Unit {0}
IsDistinct (x ∷ xs) = (contains xs x ≡ false) × IsDistinct xs

abbrev pub Finds : List Seat → Seat → Type 0
Finds seats s = find_first (sits_at s.seat_index) seats ≡ some s

contained : (seats : List Seat) → All (λ s. contains (indices seats) s.seat_index ≡ true) seats
contained [] = tt
contained (x ∷ xs) = (ground arith, widen xs (contained xs))
  where
    widen :
        (ss : List Seat)
        → All (λ s. contains (indices xs) s.seat_index ≡ true) ss
        → All (λ s. contains (x.seat_index ∷ indices xs) s.seat_index ≡ true) ss
    widen [] h = tt
    widen (s ∷ ss) h = (ground (arith, h.0), widen ss h.1)

Finds-widen :
    (x : Seat) (xs ss : List Seat)
    → contains (indices xs) x.seat_index ≡ false
    → All (λ s. contains (indices xs) s.seat_index ≡ true) ss
    → All (Finds xs) ss
    → All (Finds (x ∷ xs)) ss
unfolding find_first
Finds-widen x xs [] d c h = tt
Finds-widen x xs (s ∷ ss) d c h = (ground (arith, c.0, h.0), Finds-widen x xs ss d c.1 h.1)

-- Looking up the index of a seat finds that seat.
pub Finds-itself : (seats : List Seat) → IsDistinct (indices seats) → All (Finds seats) seats
unfolding find_first
Finds-itself [] d = tt
Finds-itself (x ∷ xs) d =
    (ground arith, Finds-widen x xs xs d.0 (contained xs) (Finds-itself xs d.1))

-- Every index of the list has a seat.
pub found_index :
    (i : ℕ) (seats : List Seat)
    → contains (indices seats) i ≡ true
    → (s : Seat) × (find_first (sits_at i) seats ≡ some s)
unfolding find_first
found_index i [] c = absurd (cc)
found_index i (s ∷ ss) c = elim (Bool-cases (s.seat_index == i)) [
  | inl e ↦ (s, ground arith)
  | inr e ↦ let rest = found_index i ss (ground arith) in (rest.0, ground (arith, rest.1))
]
