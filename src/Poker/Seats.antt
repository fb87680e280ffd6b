-- ===== src/Poker/Seats.antt =====
-- betting.go: seat lookups and whose turn it is. A pointer to a seat is written through by
-- `update_first`, under the test that the search for it used; no two seats share an index.
pub mod Indices
pub mod Table
pub mod Turn
use mathlib.Core.Option
use bgex_backend.Base.{
  ℕ, suc, Bool, not, ◌&&◌, ◌||◌, Option, none, some, List, [], ◌∷◌, ◌++◌, ltb, ◌==◌, if◌then◌else◌,
  take, drop, keep, count_if, find_first, sort_by, max,
}
use bgex_backend.Poker.State.{Seat, TableState, is_active, is_live, is_sitting_out, sits_at}

unfoldable pub seat_by_index : List Seat → ℕ → Option Seat
seat_by_index seats i = find_first (sits_at i) seats

abbrev pub belongs_to : ℕ → Seat → Bool
belongs_to u s = s.user_id == u

unfoldable pub seat_by_user : List Seat → ℕ → Option Seat
seat_by_user seats u = find_first (belongs_to u) seats

abbrev pub index_less : Seat → Seat → Bool
index_less a b = ltb a.seat_index b.seat_index

unfoldable pub in_hand_seats : List Seat → List Seat
in_hand_seats seats = sort_by index_less (keep (λ s. not (is_sitting_out s.status)) seats)

unfoldable pub position_of : List Seat → ℕ → Option ℕ
position_of [] i = none
position_of (s ∷ ss) i =
    let rest = position_of ss i in if s.seat_index == i then some 0 else Option.map suc rest

-- Position 0 when the index is absent.
unfoldable pub index_of_seat : List Seat → ℕ → ℕ
index_of_seat seats i = elim (position_of seats i) [ none ↦ 0 | some k ↦ k ]

unfoldable pub is_actionable : ℕ → Seat → Bool
is_actionable current_bet s =
    (is_active s.status && ltb 0 s.stack) && (not s.has_acted || ltb s.committed current_bet)

-- `start` of the scans: the position after the seat `i`, or 0 when no seat has that index.
unfoldable pub start_after : List Seat → ℕ → ℕ
start_after order i = elim (position_of order i) [ none ↦ 0 | some k ↦ suc k ]

-- The seats `order[(start+k)%n]` for k = 0 … n - 1, where start ≤ n.
unfoldable pub rotate : ℕ → List Seat → List Seat
rotate start order = drop start order ++ take start order

abbrev pub index_found : Option Seat → Option ℕ
index_found none = none
index_found (some s) = some s.seat_index

-- `none` is -1.
unfoldable pub next_actor : TableState → ℕ → Option ℕ
next_actor ts after =
    let order = in_hand_seats ts.seats in
    index_found (find_first (is_actionable ts.current_bet) (rotate (start_after order after) order))

unfoldable pub count_can_act : List Seat → ℕ
count_can_act = count_if λ s. is_active s.status && ltb 0 s.stack

unfoldable pub non_folded_count : List Seat → ℕ
non_folded_count = count_if λ s. is_live s.status

unfoldable pub max_committed : List Seat → ℕ
max_committed [] = 0
max_committed (s ∷ ss) = max s.committed (max_committed ss)

unfoldable pub last_live_seat : List Seat → Option Seat
last_live_seat = find_first λ s. is_live s.status

-- `nextSeatWithChips`
unfoldable pub next_seat_with_chips : List Seat → ℕ → ℕ
next_seat_with_chips seats from =
    let order = sort_by index_less seats in
    elim (find_first (λ s. ltb 0 s.stack) (rotate (start_after order from) order)) [
      | none ↦ from
      | some s ↦ s.seat_index
    ]
