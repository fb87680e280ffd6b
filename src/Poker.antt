-- ===== src/Poker.antt =====
-- internal/games/poker: No-Limit Texas Hold'em over a table state. Each child is a part of
-- betting.go or engine.go, and has its proofs in its own children.
pub mod State
pub mod Seats
pub mod Pots
pub mod Showdown
pub mod Streets
pub mod Actions
pub mod Deal
mod Tests
