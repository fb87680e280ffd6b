-- ===== src/Lib.antt =====
-- Verification of the game engines of bgex-backend, a Go server for board games.
--
-- A game is an `Engine` (internal/games/engine/engine.go): it builds a state for the seats of a
-- lobby and applies one action at a time, which gives a new state or an error. The lobby stores
-- the state between two actions. Three engines are modelled, poker, Ticket to Ride
-- and Guess the Song by Words, from the decoded state to the state that they return.
--
--   Base       Boolean tests, lists, sums, sorting, writes through a pointer, and the outcome of
--              fallible code: `Result` is a value, an error or a Go panic (an index out of range).
--   Engine     internal/games/engine/engine.go: the errors and the seats.
--   Cards      internal/games/engine/cards.go: card codes and the deck.
--   Eval       internal/games/poker/eval/eval.go: Evaluate, Compare, straightHigh.
--   Poker      internal/games/poker/engine.go and betting.go. Poker.State has the messages of
--              poker.proto, Poker.Seats the searches for seats and for the next player, Poker.Pots
--              returnUncalled and buildPots, Poker.Showdown runShowdown and distribute,
--              Poker.Streets the board and the stages, Poker.Actions applyAction and Apply,
--              Poker.Deal InitState, NextHand and dealHand.
--   Ttr        internal/games/ttr. Ttr.State has the messages of ttr.proto and the map, Ttr.Colors
--              color.go, Ttr.Piles the card piles of engine.go and draw.go, Ttr.TurnFlow
--              turnflow.go, Ttr.Draw draw.go, Ttr.Tickets tickets.go and the setup keep,
--              Ttr.Payment and Ttr.Claim claim.go, Ttr.Station station.go, Ttr.Setup InitState,
--              Ttr.Apply the phase gate, dispatch and Apply. Ttr.Cards counts the train cards.
--              Ttr.Scoring scoring.go: Trail longestTrail, UnionFind unionFind, Stations
--              bestStationAssignment, Ranks assignRanks; FinalScore is the engine's final scoring.
--   SongGuess  internal/games/song_guess. SongGuess.State has the messages of song_guess.proto, the
--              pack of packmodel.go and the lookups of state.go, SongGuess.Play play.go,
--              SongGuess.Judge judge.go, SongGuess.Finish scoring.go, SongGuess.Roster roster.go,
--              SongGuess.Round round.go, SongGuess.Setup InitState, SongGuess.Legal legal.go,
--              SongGuess.Apply dispatch and Apply, SongGuess.View view.go, SongGuess.PackCache
--              packcache.go. SongGuess.Moves is the abstract game: a relation of elementary moves,
--              which every action is a sequence of.
--
-- A function of the source has its name in snake case here. A write through a pointer to a seat or
-- a player is a write to the first list element with that id (`update_first`), which is the element
-- that the source's search loop returned.
--
-- Bounds. The rounds of a loop are a list or a number: the showdown of poker deals the streets that
-- are left; `fill_face_up` has six rounds, enough to fill five slots; the flush of the row has the
-- source's own bound of 25; the search of trails has one round more than there are free routes, and
-- `find` of the disjoint sets one more than there are cities below another one. Chips, cards, seats
-- and the points of routes are never negative and stay far below 2^31, so they are unbounded natural
-- numbers; amounts that a client sends, the points of tickets, which the map loader does not bound,
-- and differences that can be negative are integers. Where Ticket to Ride converts a client's count
-- or a score to 32 bits, `to_int32` wraps around as the conversion does. The map loader admits only
-- route lengths that have a point value, and the engine only a station count of 32 bits.
--
-- Parameters. The shuffle of a deck is a function; in Ttr.State the record `Engine` has it, the map
-- provider, the order in which a Go map is ranged over, and the final scoring, for which Ttr.Scoring
-- has FinalScore; in SongGuess.State it has the pack provider, the shuffler and
-- `strings.TrimSpace`.
--
-- Not modelled: protobuf and JSON coding, the broadcast events of Ticket to Ride, its
-- legal moves, views and map loading, the pack loader of the song guessing game, the lobby,
-- the realtime hub, accounts and friends, HTTP and storage.
pub mod Base
pub mod Cards
pub mod Eval
pub mod Engine
pub mod Poker
pub mod Ttr
pub mod SongGuess
