-- ===== src/Ttr/Station.antt =====
-- station.go: building a station.
pub mod Cards
use bgex_backend.Base.{
  ℕ, ◌+◌, ◌-◌, not, List, [], ◌∷◌, ◌++◌, ltb, contains, Result, ok, ◌>>=◌, ◌>>◌, raise_if,
}
use bgex_backend.Base.Int.{ℤ, sub_ℕ}
use bgex_backend.Engine.{Error, illegal_action}
use bgex_backend.Ttr.State.{Player, GameState, Map, Engine, WirePayment, write_player, lookup}
use bgex_backend.Ttr.TurnFlow.{end_turn}
use bgex_backend.Ttr.Payment.{payment_to_colors, validate_single_colour_payment, debit, discard_pay}
use bgex_backend.Ttr.Claim.{has_entry}

-- `stationCost`
unfoldable pub station_cost : Player → Map → ℤ
station_cost p m = sub_ℕ (m.stations_per_player + 1) p.stations_left

unfoldable pub place_station : Player → ℕ → Player
place_station p city_id = record p {
  stations_left = p.stations_left - 1;
  station_cities = p.station_cities ++ city_id ∷ [];
}

-- `applyBuildStation`
unfoldable pub apply_build_station :
    Engine → Map → GameState → Player → ℕ → WirePayment → Result Error GameState
apply_build_station e m gs p city_id payment = do
  raise_if (not (contains m.cities city_id)) illegal_action
  raise_if (has_entry (lookup gs.station_owner city_id)) illegal_action
  raise_if (ltb p.stations_left 1) illegal_action
  pay ← payment_to_colors payment
  payment_color ← validate_single_colour_payment p.hand pay (station_cost p m)
  let builder = place_station (debit pay p) city_id
  end_turn e m builder (
      write_player builder (record (discard_pay pay gs) {
        station_owner = (city_id, p.seat_index) ∷ gs.station_owner;
      }))
