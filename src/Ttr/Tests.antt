-- ===== src/Ttr/Tests.antt =====
-- A game of two players, run on concrete states.
mod Scores
use bgex_backend.Ttr.Payment.{
  fits, unaffordable, malformed, put, no_payment, exceeds, check_surcharge, SurchargeCheck,
}
use bgex_backend.Base.{
  subst, ℕ, ◌+◌, ◌≡◌, refl, true, false, none, some, List, [], ◌∷◌, ok, arith, find_first,
  update_first,
}
use bgex_backend.Base.Int.{to_int32, pos}
use bgex_backend.Ttr.State.{
  PendingTunnel, normal, awaiting_second_draw, Player, Piles, GameState, Map, Engine, Action,
  draw_card, deck, player_by_user, player_by_seat, write_player,
}
use bgex_backend.Ttr.Colors.{canonical_discard_order, is_card_color, deck_composition, count_color}
use bgex_backend.Ttr.Piles.{pop_draw_pile, refill_draw_pile, fill_face_up, take_face_up}
use bgex_backend.Ttr.Piles.Counts.{KeepsCards, piles_count, piles_count-take_face_up}
use bgex_backend.Ttr.Piles.Row.{IsFilled, fill_face_up-IsFilled}
use bgex_backend.Ttr.Cards.{Conserves}
use bgex_backend.Ttr.TurnFlow.{is_current_player}
use bgex_backend.Ttr.Draw.{
  add_to_hand, resolve_draw_source, resolve_deck, remove_drawn, finish_draw, apply_draw_card,
}
use bgex_backend.Ttr.Claim.Conservation.{IsBounded, HasBoundedMaps, RangesAll}
use bgex_backend.Ttr.Apply.{apply, check_phase_gate, gate_phase, require_current_seat, dispatch}
use bgex_backend.Ttr.Apply.Conservation.{apply-Conserves}
use bgex_backend.Ttr.Scoring.{final_score}
use bgex_backend.Ttr.Apply.Permission.{apply-playing, apply-current}

abbrev pub board : Map
board = record {
  players_min = 2;
  players_max = 5;
  trains_per_player = 45;
  stations_per_player = 3;
  cities = [];
  routes = [];
  tickets = [];
  long_ticket_ids = [];
  regular_ticket_ids = [];
}

abbrev pub engine : Engine
engine = record {
  shuffle = λ n cards. cards;
  int_n = λ n bound. 0;
  get_map = λ id version. ok board;
  range_order = canonical_discard_order;
  final_score = final_score;
}

abbrev pub seated : ℕ → ℕ → Player
seated i u = record {
  seat_index = i;
  user_id = u;
  hand = λ _. 2;
  trains_left = 45;
  stations_left = 3;
  station_cities = [];
  claimed_route_ids = [];
  ticket_ids = [];
  setup_ticket_offer = [];
  setup_done = true;
  route_score = 0;
  resigned = false;
}

abbrev pub piles_of : List ℕ → Piles
piles_of cards = record {
  draw_pile = cards;
  discard_pile = 4 ∷ [];
  face_up = 1 ∷ 2 ∷ 10 ∷ 3 ∷ 5 ∷ [];
  shuffles = 1;
}

abbrev pub game : GameState
game = record {
  map_id = 1;
  map_version = 1;
  phase = normal;
  players = seated 0 7 ∷ seated 1 8 ∷ [];
  current_seat = 0;
  piles = piles_of (6 ∷ 7 ∷ []);
  ticket_deck = [];
  route_owner = [];
  closed_routes = [];
  station_owner = [];
  final_turns_left = none;
  draw = none;
  pending_tunnel = none;
  pending_ticket_draw = none;
  results = [];
  seq = 4;
  turn_no = 3;
}

-- The first player has drawn a yellow card from the deck.
abbrev drawn_game : GameState
drawn_game = record game {
  players = add_to_hand 6 (seated 0 7) ∷ seated 1 8 ∷ [];
  piles = piles_of (7 ∷ []);
  draw = some (record { cards_taken = 1; face_up_loco_locked = true });
  phase = awaiting_second_draw;
  seq = 5;
}

abbrev draw_blind : Action
draw_blind = draw_card deck (pos 0)

drawn_ok : apply engine game 7 draw_blind ≡ ok drawn_game
unfolding apply player_by_user find_first check_phase_gate gate_phase require_current_seat
    player_by_seat dispatch apply_draw_card resolve_draw_source resolve_deck pop_draw_pile
    refill_draw_pile remove_drawn finish_draw write_player update_first add_to_hand
drawn_ok = refl

seated_first : player_by_user game 7 ≡ some (seated 0 7)
unfolding player_by_user find_first
seated_first = refl

same_cards : KeepsCards engine
same_cards n c cards = refl

all_colors : RangesAll engine
unfolding is_card_color deck_composition
all_colors c card = ground arith

yellow : is_card_color 6 ≡ true
unfolding is_card_color deck_composition
yellow = refl

bounded_board : HasBoundedMaps engine
bounded_board id version m found =
    let same : board ≡ m = ground (arith, found) in subst IsBounded same (tt, omega arith)

apply-Conserves_example : Conserves 6 game drawn_game
apply-Conserves_example =
    apply-Conserves engine same_cards all_colors bounded_board 6 yellow game 7 draw_blind drawn_game
      (λ _. refl) drawn_ok

apply-playing_example : (seated 0 7).resigned ≡ false
apply-playing_example =
    apply-playing engine game (seated 0 7) 7 draw_blind drawn_game seated_first drawn_ok

apply-current_example : is_current_player game (seated 0 7) ≡ true
apply-current_example =
    apply-current engine game (seated 0 7) 7 draw_blind drawn_game seated_first refl refl drawn_ok

-- A surcharge of one yellow card.
abbrev yellow_tunnel : PendingTunnel
yellow_tunnel = record {
  route_id = 1;
  base_payment = no_payment;
  payment_color = 6;
  revealed = 6 ∷ [];
  surcharge = 1;
}

abbrev yellow_check : ℕ → SurchargeCheck
yellow_check n =
    check_surcharge yellow_tunnel (seated 0 7).hand (put 6 n no_payment) canonical_discard_order 0

one_fits : yellow_check 1 ≡ fits
unfolding check_surcharge exceeds to_int32
one_fits = refl

three_unaffordable : yellow_check 3 ≡ unaffordable
unfolding check_surcharge exceeds to_int32
three_unaffordable = refl

-- The count turns negative in 32 bits, and the hand seems to hold as many.
wrapped_malformed : yellow_check 2147483648 ≡ malformed
unfolding check_surcharge exceeds to_int32
wrapped_malformed = refl

-- A row that lost two cards while the draw pile holds one.
abbrev short_piles : Piles
short_piles = record (piles_of (6 ∷ [])) { face_up = 1 ∷ 2 ∷ 10 ∷ [] }

fill_face_up-IsFilled_example : IsFilled (fill_face_up engine short_piles)
fill_face_up-IsFilled_example =
    fill_face_up-IsFilled engine (λ n cards. refl) short_piles (omega arith)

piles_count-take_face_up_example :
    piles_count 10 (take_face_up engine 2 (piles_of [])) + count_color 10 (10 ∷ [])
    ≡ piles_count 10 (piles_of [])
piles_count-take_face_up_example =
    piles_count-take_face_up engine same_cards 10 (piles_of []) 2 10 refl
