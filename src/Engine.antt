-- ===== src/Engine.antt =====
-- internal/games/engine/engine.go: the errors and the values that every game shares, and the two
-- errors that the engines of ttr and song_guess add. User ids are
-- UUIDs that the code only compares, so they are numbers here.
use bgex_backend.Base.{ℕ}

pub data Error : Type 0 where
  illegal_action not_your_turn not_enough_players game_over not_seated wrong_phase
        invalid_route_length invalid_map_doc invalid_pack_doc :
      Error

pub record SeatInit : Type 0 where
  pub seat : ℕ
  pub user_id : ℕ
  pub stack : ℕ
