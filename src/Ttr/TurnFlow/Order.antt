-- ===== src/Ttr/TurnFlow/Order.antt =====
-- turnflow.go: whose turn is next, `nextActiveSeat`.
use bgex_backend.Base.{ℕ, ◌≡◌, some, List, get_elem?}
use bgex_backend.Ttr.State.{Player}

-- The seat at a position in range is that of an active player.
abbrev pub IsSeatIn : ℕ → List Player → Type 0
IsSeatIn seat active =
    (i : ℕ) × (p : Player) × (get_elem? active i ≡ some p) × (p.seat_index ≡ seat)
