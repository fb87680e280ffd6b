-- ===== src/Ttr/Station/Cards.antt =====
-- station.go: the train cards as a station is paid for.
use bgex_backend.Base.Int.{pos_part}
use bgex_backend.Base.{
  ◌<◌, ℕ, ◌≡◌, refl, not, true, some, none, ◌∷◌, ltb, find_first, contains, ok, >>=-eq-ok,
  raise_if-eq-ok, arith,
}
use bgex_backend.Engine.{illegal_action}
use bgex_backend.Ttr.State.{
  Player, GameState, Map, Engine, WirePayment, has_user, write_player, lookup,
}
use bgex_backend.Ttr.Colors.{is_card_color}
use bgex_backend.Ttr.TurnFlow.{discard}
use bgex_backend.Ttr.TurnFlow.Cards.{end_turn-Conserves}
use bgex_backend.Ttr.Cards.{free_cards, Conserves, free_cards-write_player, total_cards_free}
use bgex_backend.Ttr.Payment.{payment_to_colors, validate_single_colour_payment, debit, discard_pay}
use bgex_backend.Ttr.Payment.Cards.{
  debit_count-IsCovered, validate_single_colour_payment-Covers, Covers-at, free_cards-discard_pay,
}
use bgex_backend.Ttr.Claim.{has_entry}
use bgex_backend.Ttr.Station.{station_cost, place_station, apply_build_station}

station_cost-lt :
    (p : Player) (m : Map)
    → m.stations_per_player < 2147483647
    → pos_part (station_cost p m) < 2147483648
unfolding station_cost
station_cost-lt p m small = ground (arith, small)

module _ (e : Engine) (c : ℕ) (card : is_card_color c ≡ true) (m : Map) where
  abbrev built : GameState → Player → ℕ → (ℕ → ℕ) → GameState
  built gs p city pay =
      write_player (place_station (debit pay p) city)
        (record (discard_pay pay gs) { station_owner = (city, p.seat_index) ∷ gs.station_owner })

  pub apply_build_station-Conserves :
      (gs : GameState) (p : Player) (city : ℕ) (payment : WirePayment) (moved : GameState)
      → find_first (has_user p.user_id) gs.players ≡ some p
      → gs.pending_tunnel ≡ none
      → m.stations_per_player < 2147483647
      → apply_build_station e m gs p city payment ≡ ok moved
      → Conserves c gs moved
  unfolding apply_build_station place_station debit
  apply_build_station-Conserves gs p city payment moved found no_tunnel small done =
      let (known, step1) = raise_if-eq-ok (not (contains m.cities city)) illegal_action _ done in
      let (vacant, step2) =
        raise_if-eq-ok (has_entry (lookup gs.station_owner city)) illegal_action _ step1 in
      let (left, step3) = raise_if-eq-ok (ltb p.stations_left 1) illegal_action _ step2 in
      let (pay, read, step4) = >>=-eq-ok (payment_to_colors payment) _ step3 in
      let (color, valid, ended) =
        >>=-eq-ok (validate_single_colour_payment p.hand pay (station_cost p m)) _ step4 in
      let covered = Covers-at p.hand pay c card (
        validate_single_colour_payment-Covers p.hand pay (station_cost p m) color valid
          (station_cost-lt p m small)) in
      let builder = place_station (debit pay p) city in
      let paid = record (discard_pay pay gs) {
        station_owner = (city, p.seat_index) ∷ gs.station_owner;
      } in
      let kept : free_cards c paid ≡ free_cards c (discard_pay pay gs) =
        unfold free_cards in refl in
      end_turn-Conserves e m c builder gs (built gs p city pay) moved ended (
        omega (
          arith,
          free_cards-write_player c builder p paid (unfold discard_pay discard in found),
          kept,
          free_cards-discard_pay c card pay gs,
          total_cards_free c gs no_tunnel,
          debit_count-IsCovered (p.hand c) (pay c) covered,
        ))
