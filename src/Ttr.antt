-- ===== src/Ttr.antt =====
-- internal/games/ttr, Ticket to Ride: Europe.
pub mod State
pub mod Colors
pub mod Piles
pub mod Cards
pub mod TurnFlow
pub mod Draw
pub mod Tickets
pub mod Payment
pub mod Claim
pub mod Station
pub mod Setup
pub mod Apply
mod Tests
pub mod Scoring
