-- ===== src/SongGuess/Moves.antt =====
-- The abstract view of a game: the elementary moves that a song, a lodge, the phases and the
-- records of a game may make. Who sits where is no part of it.
pub mod Sound
pub mod Same
pub mod Song
pub mod Claim
pub mod Verdict
pub mod Leave
pub mod Table
pub mod Refinement
pub mod Songs
pub mod Scores
pub mod Host
pub mod Start
pub mod Safety
pub mod Crash
pub mod Undo
use bgex_backend.Base.{
  ℕ, suc, ◌+◌, ◌-◌, ◌≡◌, ◌∙◌, refl, sym, ap, subst, Bool, true, false, ◌⊎◌, inl, inr, Option, none,
  some, List, [], ◌∷◌, map, length, get_elem?, set, arith,
}
use bgex_backend.SongGuess.State.{
  Text, Team, Phase, roster, round_select, song_play, pending_judgement, song_result, judge_vacant,
  finished, Awaiting, Participant, TeamState, Cell, SongState, Pending, SongOutcome, GameState,
  cell_for, effective_phase, revealed_count, potential_of,
}
use bgex_backend.SongGuess.Play.{finished_state, open_at}
use bgex_backend.SongGuess.Judge.{is_pending_judgement}
use bgex_backend.SongGuess.Finish.{is_in_flight, close_game, score_of}
use bgex_backend.SongGuess.Roster.{resume_phase_of}
use bgex_backend.SongGuess.Round.{begin_song, remove_at}
use bgex_backend.SongGuess.Apply.{is_vacant, is_finished}

-- What a team has won, without its name.
abbrev pub tally_of : TeamState → Team × ℕ
tally_of ts = (ts.team, ts.score)

-- The parts of the state that a move is about are the same; a team may be renamed.
pub record SameCore (gs moved : GameState) : Type 0 where
  pub same_phase : moved.phase ≡ gs.phase
  pub same_resume : moved.resume_phase ≡ gs.resume_phase
  pub same_song : moved.song ≡ gs.song
  pub same_pending : moved.pending ≡ gs.pending
  pub same_cells : moved.cells ≡ gs.cells
  pub same_history : moved.history ≡ gs.history
  pub same_tallies : map tally_of moved.teams ≡ map tally_of gs.teams

-- The same song with the same blocks open.
pub record SameSong (s t : SongState) : Type 0 where
  pub same_id : t.song_id ≡ s.song_id
  pub same_blocks : t.blocks ≡ s.blocks
  pub same_mask : t.revealed_mask ≡ s.revealed_mask

-- A phase that a vacant judgeship may interrupt.
abbrev pub is_resumable : Phase → Bool
is_resumable judge_vacant = false
is_resumable finished = false
is_resumable _ = true

pub data Move : GameState → GameState → Type 0 where
  stay : {gs moved : GameState} → SameCore gs moved → Move gs moved
  begin :
      (gs : GameState) (t : Team) (n : ℕ)
      → gs.phase ≡ roster
      → Move gs (record gs { phase = round_select; active_team = t; round_no = n })
  draw :
      (gs : GameState) (language bucket idx last : ℕ) (cell : Cell) (s : SongState)
      → gs.phase ≡ round_select
      → cell_for gs language bucket ≡ some cell
      → get_elem? cell.unplayed_song_ids idx ≡ some s.song_id
      → get_elem? cell.unplayed_song_ids (length cell.unplayed_song_ids - 1) ≡ some last
      → length s.revealed_mask ≡ length s.blocks
      → Move gs (begin_song gs language bucket (remove_at idx cell.unplayed_song_ids last) s)
  adjust :
      (gs : GameState) (s t : SongState)
      → gs.phase ≡ song_play
      → gs.song ≡ some s
      → SameSong s t
      → Move gs (record gs { song = some t })
  reveal :
      (gs : GameState) (s : SongState) (index : ℕ)
      → gs.phase ≡ song_play
      → gs.song ≡ some s
      → get_elem? s.revealed_mask index ≡ some false
      → Move gs (record gs { song = some (open_at index s) })
  lodge :
      (gs : GameState) (s : SongState) (p : Pending)
      → gs.phase ≡ song_play
      → gs.song ≡ some s
      → p.potential_at_claim ≡ potential_of s
      → Move gs (record gs { pending = some p; phase = pending_judgement })
  reject :
      (gs : GameState) (s t : SongState)
      → gs.phase ≡ pending_judgement
      → gs.song ≡ some s
      → SameSong s t
      → Move gs (record gs { phase = song_play; pending = none; song = some t })
  finish :
      (gs : GameState) (s t : SongState) (awarded : Team) (points : ℕ) (skipped : Bool)
      → is_in_flight (effective_phase gs) ≡ true
      → gs.song ≡ some s
      → SameSong s t
      → ((points ≡ 0) ⊎ (points ≡ potential_of s))
      → Move gs (finished_state gs t awarded points skipped)
  turn :
      (gs : GameState) (t : Team)
      → gs.phase ≡ song_result
      → Move gs (record gs { active_team = t; song = none })
  next :
      (gs : GameState) (n : ℕ)
      → gs.phase ≡ song_result
      → gs.song ≡ none
      → Move gs (record gs { round_no = n; phase = round_select })
  park :
      (gs : GameState)
      → is_resumable gs.phase ≡ true
      → Move gs (record gs { resume_phase = gs.phase; phase = judge_vacant })
  unpark : (gs : GameState) → gs.phase ≡ judge_vacant → Move gs (resume_phase_of gs)
  close :
      (gs : GameState)
      → is_in_flight (effective_phase gs) ≡ false
      → gs.pending ≡ none
      → Move gs (close_game gs)

-- Moves one after the other.
pub data Reach (gs : GameState) : GameState → Type 0 where
  here : Reach gs gs
  after : {mid moved : GameState} → Reach gs mid → Move mid moved → Reach gs moved

pub Reach-trans : {gs mid moved : GameState} → Reach gs mid → Reach mid moved → Reach gs moved
Reach-trans before here = before
Reach-trans before (after path move) = after (Reach-trans before path) move

pub once : {gs moved : GameState} → Move gs moved → Reach gs moved
once move = after here move
