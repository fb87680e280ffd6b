-- ===== src/Poker/State.antt =====
-- The messages of poker.proto, the action and the events. Chips, seat indices and card codes are
-- never negative, so they are numbers; a seat index that may be -1 is an `Option`. The wire format
-- (protobuf) is left out: `Apply` works on the decoded state. int64 sums are taken not to wrap.
use Prim.Native.String.{String}
use bgex_backend.Base.{ℕ, ◌+◌, Bool, true, false, Option, List, sum_by, Result, ◌==◌}
use bgex_backend.Base.Int.{ℤ}
use bgex_backend.Engine.{Error}

pub data Stage : Type 0 where
  unspecified preflop flop turn river showdown hand_over : Stage

pub data SeatStatus : Type 0 where
  unspecified_status active folded all_in sitting_out : SeatStatus

pub record Seat : Type 0 where
  pub seat_index : ℕ
  pub user_id : ℕ
  pub stack : ℕ
  pub committed : ℕ
  pub total_committed : ℕ
  pub hole_cards : List ℕ
  pub status : SeatStatus
  pub has_acted : Bool

pub record Pot : Type 0 where
  pub amount : ℕ
  pub eligible_seats : List ℕ

pub record HandResult : Type 0 where
  pub payouts : List (ℕ × ℕ)
  pub board : List ℕ
  pub hand_descriptions : List (ℕ × String)
  pub shown_seats : List ℕ

pub record TableState : Type 0 where
  pub hand_no : ℕ
  pub stage : Stage
  pub seats : List Seat
  pub deck : List ℕ
  pub board : List ℕ
  pub button : ℕ
  pub current_turn : Option ℕ
  pub small_blind : ℕ
  pub big_blind : ℕ
  pub current_bet : ℕ
  pub min_raise : ℕ
  pub last_aggressor : Option ℕ
  pub pots : List Pot
  pub result : Option HandResult

-- `Action.Type`; any other word is `unknown`.
pub data ActionType : Type 0 where
  fold check call bet raise unknown : ActionType

pub record Action : Type 0 where
  pub user_id : ℕ
  pub type : ActionType
  pub amount : ℤ

pub data Event : Type 0 where
  hand_start : ℕ → ℕ → Event
  acted : ℕ → ℕ → ActionType → ℤ → Event
  board_dealt : Stage → List ℕ → Event
  won_uncontested : ℕ → Event
  shown_down : List (ℕ × ℕ) → List ℕ → Event

-- What a step returns: the new state and the events that it appends.
abbrev pub Outcome : Type 0
Outcome = Result Error (TableState × List Event)

abbrev pub is_active : SeatStatus → Bool
is_active active = true
is_active _ = false

abbrev pub is_folded : SeatStatus → Bool
is_folded folded = true
is_folded _ = false

abbrev pub is_sitting_out : SeatStatus → Bool
is_sitting_out sitting_out = true
is_sitting_out _ = false

-- Active or all-in: still able to win.
abbrev pub is_live : SeatStatus → Bool
is_live active = true
is_live all_in = true
is_live _ = false

abbrev pub sits_at : ℕ → Seat → Bool
sits_at i s = s.seat_index == i

-- All the chips of a seat: behind, and in the pot.
abbrev pub seat_chips : Seat → ℕ
seat_chips s = s.stack + s.total_committed

abbrev pub chips : List Seat → ℕ
chips = sum_by seat_chips
