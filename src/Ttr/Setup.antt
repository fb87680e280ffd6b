-- ===== src/Ttr/Setup.antt =====
-- engine.go: `InitState`, from a map id and version that the lobby configuration gives.
use bgex_backend.Base.{
  ℕ, zero, suc, ◌+◌, ◌*◌, Bool, false, ◌||◌, none, List, [], ◌∷◌, ◌++◌, map, ltb, length, get_elem?,
  take, drop, sort_by, Result, ok, ◌>>=◌, ◌>>◌, raise_if, or_panic,
}
use bgex_backend.Engine.{Error, not_enough_players, invalid_map_doc, SeatInit}
use bgex_backend.Ttr.State.{setup_tickets, Player, Piles, GameState, Map, Engine}
use bgex_backend.Ttr.Colors.{deck_composition, canonical_discard_order, cards_of}
use bgex_backend.Ttr.Piles.{fill_face_up, flush_face_up_locos}
use bgex_backend.Ttr.Draw.{add_to_hand}

abbrev pub initial_train_cards : ℕ
initial_train_cards = 4

abbrev pub initial_regular_tickets : ℕ
initial_regular_tickets = 3

abbrev pub max_int32 : ℕ
max_int32 = 2147483647

-- `int32FromInt` refuses the number.
abbrev pub out_of_int32 : ℕ → Bool
out_of_int32 n = ltb max_int32 n

abbrev pub new_player : Map → SeatInit → Player
new_player m si = record {
  seat_index = si.seat;
  user_id = si.user_id;
  hand = λ _. 0;
  trains_left = m.trains_per_player;
  stations_left = m.stations_per_player;
  station_cities = [];
  claimed_route_ids = [];
  ticket_ids = [];
  setup_ticket_offer = [];
  setup_done = false;
  route_score = 0;
  resigned = false;
}

abbrev pub seat_before : Player → Player → Bool
seat_before a b = ltb a.seat_index b.seat_index

-- `initPlayers`
unfoldable pub init_players : Map → List SeatInit → Result Error (List Player)
init_players m seats = do
  raise_if (out_of_int32 m.trains_per_player) invalid_map_doc
  raise_if (out_of_int32 m.stations_per_player) invalid_map_doc
  ok (sort_by seat_before (map (new_player m) seats))

-- `newShuffledTrainDeck`, the first of the shuffles.
unfoldable pub new_shuffled_train_deck : Engine → List ℕ
new_shuffled_train_deck e = e.shuffle 0 (cards_of deck_composition canonical_discard_order)

-- A card to each player, and what is left of the deck.
unfoldable pub deal_one_each : List Player → List ℕ → Result Error (List Player × List ℕ)
deal_one_each [] deck = ok ([], deck)
deal_one_each (p ∷ ps) deck = do
  card ← or_panic (get_elem? deck 0)
  (dealt, left) ← deal_one_each ps (drop 1 deck)
  ok (add_to_hand card p ∷ dealt, left)

-- `dealInitialHands`
unfoldable pub deal_initial_hands : ℕ → List Player → List ℕ → Result Error (List Player × List ℕ)
deal_initial_hands zero players deck = ok (players, deck)
deal_initial_hands (suc rounds) players deck = do
  (dealt, left) ← deal_one_each players deck
  deal_initial_hands rounds dealt left

-- One long ticket to each player, and three regular ones, from the shuffled decks.
unfoldable pub offer_tickets : List Player → List ℕ → List ℕ → List Player
offer_tickets [] long regular = []
offer_tickets (p ∷ ps) long regular =
    record p {
      setup_ticket_offer =
          p.setup_ticket_offer ++ take 1 long ++ take initial_regular_tickets regular;
    }
    ∷ offer_tickets ps (drop 1 long) (drop initial_regular_tickets regular)

-- `dealTickets`: the players and the ticket deck; `n` shuffles came before.
unfoldable pub deal_tickets : Engine → Map → ℕ → List Player → Result Error (List Player × List ℕ)
deal_tickets e m n players = do
  let needed = initial_regular_tickets * length players
  raise_if (ltb (length m.long_ticket_ids) (length players)) invalid_map_doc
  raise_if (ltb (length m.regular_ticket_ids) needed) invalid_map_doc
  let regular = e.shuffle (suc n) m.regular_ticket_ids
  ok (offer_tickets players (e.shuffle n m.long_ticket_ids) regular, drop needed regular)

abbrev pub first_piles : List ℕ → Piles
first_piles deck = record { draw_pile = deck; discard_pile = []; face_up = []; shuffles = 1 }

-- The state before anything is dealt.
abbrev pub start_state : ℕ → ℕ → List Player → Piles → List ℕ → ℕ → GameState
start_state map_id map_version players piles ticket_deck current_seat = record {
  map_id = map_id;
  map_version = map_version;
  phase = setup_tickets;
  players = players;
  current_seat = current_seat;
  piles = piles;
  ticket_deck = ticket_deck;
  route_owner = [];
  closed_routes = [];
  station_owner = [];
  final_turns_left = none;
  draw = none;
  pending_tunnel = none;
  pending_ticket_draw = none;
  results = [];
  seq = 0;
  turn_no = 0;
}

-- `InitState`
unfoldable pub init_state : Engine → ℕ → ℕ → List SeatInit → Result Error GameState
init_state e map_id map_version seats = do
  m ← e.get_map map_id map_version
  raise_if (ltb (length seats) m.players_min || ltb m.players_max (length seats)) not_enough_players
  players ← init_players m seats
  (dealt, deck) ← deal_initial_hands initial_train_cards players (new_shuffled_train_deck e)
  let piles = flush_face_up_locos e (fill_face_up e (first_piles deck))
  (offered, ticket_deck) ← deal_tickets e m piles.shuffles dealt
  first ← or_panic (get_elem? offered (e.int_n (piles.shuffles + 2) (length offered)))
  ok (
      start_state map_id map_version offered (record piles { shuffles = piles.shuffles + 3 })
        ticket_deck first.seat_index)
