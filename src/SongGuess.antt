-- ===== src/SongGuess.antt =====
-- internal/games/song_guess, Guess the Song by Words.
pub mod State
pub mod Play
pub mod Judge
pub mod Finish
pub mod Roster
pub mod Round
pub mod Setup
pub mod Legal
pub mod Apply
pub mod View
pub mod PackCache
pub mod Moves
mod Tests
