-- ===== src/SongGuess/Play.antt =====
-- play.go: opening blocks, guessing, stealing, passing, skipping, and `finishSong`, which alone ends
-- a song. A state without a song panics where the code writes through the nil pointer.
use bgex_backend.Base.{
  ℕ, ◌+◌, Bool, true, false, not, ◌&&◌, Option, none, some, List, [], ◌∷◌, ◌++◌, ltb, ◌==◌,
  if◌then◌else◌, length, get_elem?, set, update_first, Result, ok, err, ◌>>=◌, ◌>>◌, raise_if,
  or_raise, or_panic,
}
use bgex_backend.Engine.{Error, illegal_action, not_your_turn, not_seated, wrong_phase}
use bgex_backend.SongGuess.State.{
  Text, Team, no_team, team_a, team_b, Phase, song_play, pending_judgement, song_result, Awaiting,
  awaiting_unspecified, awaiting_active, awaiting_steal, awaiting_last_chance, judge_active_guess,
  judge_steal, judge_last_chance, Participant, TeamState, SongState, Pending, SongOutcome,
  GameState, Engine, Event, steal_window_opened, block_revealed, song_finished, guess_submitted,
  steal_passed, song_skipped, Outcome, is_team, participant_by_user, captain_of, opponent_of,
  is_host_seat, revealed_count, potential_of,
}

abbrev pub max_guess_text_len : ℕ
max_guess_text_len = 200

-- The participant who acts.
unfoldable pub seated_actor : GameState → ℕ → Result Error Participant
seated_actor gs user = or_raise (participant_by_user gs user) not_seated

abbrev pub is_seat_of : Option Participant → Participant → Bool
is_seat_of none p = false
is_seat_of (some c) p = c.seat_index == p.seat_index

-- The guard that the actor is the captain of a team.
unfoldable pub require_captain : GameState → ℕ → Team → Result Error Participant
require_captain gs user t = do
  p ← seated_actor gs user
  raise_if (not (is_seat_of (captain_of gs t) p)) not_your_turn
  ok p

-- `requireActiveCaptain`
unfoldable pub require_active_captain : GameState → ℕ → Result Error Participant
require_active_captain gs user = require_captain gs user gs.active_team

-- `requireOpponentCaptain`
unfoldable pub require_opponent_captain : GameState → ℕ → Result Error Participant
require_opponent_captain gs user = require_captain gs user (opponent_of gs.active_team)

-- `requireHost`
unfoldable pub require_host : GameState → ℕ → Result Error Participant
require_host gs user = do
  p ← seated_actor gs user
  raise_if (not (is_host_seat gs p.seat_index)) not_your_turn
  ok p

abbrev pub is_song_play : Phase → Bool
is_song_play song_play = true
is_song_play _ = false

abbrev pub same_awaiting : Awaiting → Awaiting → Bool
same_awaiting awaiting_unspecified awaiting_unspecified = true
same_awaiting awaiting_active awaiting_active = true
same_awaiting awaiting_steal awaiting_steal = true
same_awaiting awaiting_last_chance awaiting_last_chance = true
same_awaiting _ _ = false

-- `GetAwaiting`, of a song that may be missing.
abbrev pub awaiting_of : Option SongState → Awaiting
awaiting_of none = awaiting_unspecified
awaiting_of (some s) = s.awaiting

-- `requireSongPlayAwaiting`
unfoldable pub require_song_play_awaiting : GameState → Awaiting → Result Error (Unit {0})
require_song_play_awaiting gs want = do
  raise_if (not (is_song_play gs.phase)) wrong_phase
  raise_if (not (same_awaiting (awaiting_of gs.song) want)) wrong_phase

-- `trimmedGuessText`
unfoldable pub trimmed_guess_text : Engine → Text → Result Error Text
trimmed_guess_text e raw = do
  let s = e.trim_space raw
  raise_if (ltb max_guess_text_len (length s)) illegal_action
  ok s

abbrev pub is_some_text : Text → Bool
is_some_text [] = false
is_some_text (c ∷ cs) = true

-- `guessSubmittedEvent`
abbrev pub guess_submitted_event : Pending → Event
guess_submitted_event p =
    guess_submitted p.claimant_team p.claimant_seat p.kind (is_some_text p.guess_text)

-- The song as it ends.
unfoldable pub end_song : Team → ℕ → Bool → SongState → SongState
end_song awarded points skipped s = record s {
  awarded_team = awarded;
  awarded_points = points;
  skipped = skipped;
}

unfoldable pub outcome_of : Team → Team → ℕ → Bool → SongState → SongOutcome
outcome_of active awarded points skipped s = record {
  song_id = s.song_id;
  language_name = s.language_name;
  bucket = s.bucket;
  revealed_at_end = revealed_count s;
  awarded_team = awarded;
  points = points;
  title = s.title;
  artist = s.artist;
  skipped = skipped;
  active_team = active;
}

abbrev pub add_score : ℕ → TeamState → TeamState
add_score points ts = record ts { score = ts.score + points }

-- The points go to a team's entry; nobody's go nowhere.
unfoldable pub credit : Team → ℕ → List TeamState → List TeamState
credit no_team points teams = teams
credit team_a points teams = update_first (is_team team_a) (add_score points) teams
credit team_b points teams = update_first (is_team team_b) (add_score points) teams

unfoldable pub finished_state : GameState → SongState → Team → ℕ → Bool → GameState
finished_state gs s awarded points skipped = record gs {
  song = some (end_song awarded points skipped s);
  history = gs.history ++ outcome_of gs.active_team awarded points skipped s ∷ [];
  teams = credit awarded points gs.teams;
  phase = song_result;
  pending = none;
}

-- `finishSong`
unfoldable pub finish_song : GameState → Team → ℕ → Bool → Outcome
finish_song gs awarded points skipped = do
  s ← or_panic gs.song
  ok (
    finished_state gs s awarded points skipped,
    song_finished (outcome_of gs.active_team awarded points skipped s) ∷ [],
  )

-- `finishSongWithGuess`
unfoldable pub finish_song_with_guess : GameState → Team → ℕ → Bool → Text → Outcome
finish_song_with_guess gs awarded points skipped text = do
  s ← or_panic gs.song
  finish_song (record gs { song = some (record s { last_guess_text = text }) }) awarded points
      skipped

-- Events that a step has before those of the step after it.
unfoldable pub prepend : List Event → Outcome → Outcome
prepend before out = do (gs, events) ← out; ok (gs, before ++ events)

-- A block that may be opened: there is one at the index, and it is closed.
unfoldable pub require_closed : SongState → ℕ → Result Error (Unit {0})
require_closed s index = do
  revealed ← or_raise (get_elem? s.revealed_mask index) illegal_action
  raise_if revealed illegal_action

unfoldable pub open_at : ℕ → SongState → SongState
open_at index s = record s { revealed_mask = set s.revealed_mask index true }

-- After the reveal: the song ends when nothing is left to win, or the active captain goes on.
unfoldable pub after_reveal : GameState → SongState → Outcome
after_reveal gs s =
    if potential_of s == 0
    then finish_song (record gs { song = some s }) no_team 0 false
    else ok (record gs { song = some (record s { awaiting = awaiting_active }) }, [])

-- `revealAt`
unfoldable pub reveal_at : GameState → ℕ → List Event → Outcome
reveal_at gs index events = do
  s ← or_raise gs.song illegal_action
  require_closed s index
  text ← or_panic (get_elem? s.blocks index)
  prepend (events ++ block_revealed index text ∷ []) (after_reveal gs (open_at index s))

unfoldable pub open_steal_window : GameState → SongState → ℕ → Outcome
open_steal_window gs s index = ok (
  record gs { song = some (record s { awaiting = awaiting_steal; steal_window_index = index }) },
  steal_window_opened (potential_of s) ∷ [],
)

-- `applyOpenBlock`
unfoldable pub apply_open_block : GameState → ℕ → ℕ → Outcome
apply_open_block gs user index = do
  require_song_play_awaiting gs awaiting_active
  actor ← require_active_captain gs user
  s ← or_raise gs.song illegal_action
  require_closed s index
  raise_if (potential_of s == 0) illegal_action
  if s.steal_allowed && ltb 0 (revealed_count s)
      then open_steal_window gs s index
      else reveal_at gs index []

-- A claim: the judge has to decide it.
unfoldable pub claim : GameState → Pending → Outcome
claim gs p =
    ok (record gs { pending = some p; phase = pending_judgement }, guess_submitted_event p ∷ [])

-- `GetSong`'s potential, 0 when there is no song.
abbrev pub potential_in : Option SongState → ℕ
potential_in none = 0
potential_in (some s) = potential_of s

-- `applyGuessFromActive`
unfoldable pub apply_guess_from_active : Engine → GameState → ℕ → Text → Outcome
apply_guess_from_active e gs user raw = do
  actor ← require_active_captain gs user
  text ← trimmed_guess_text e raw
  claim gs (record {
    kind = judge_active_guess;
    claimant_team = gs.active_team;
    claimant_seat = actor.seat_index;
    guess_text = text;
    potential_at_claim = potential_in gs.song;
    resume_awaiting = awaiting_active;
    reveal_after_incorrect = false;
    owed_reveal_index = none;
  })

-- `applyGuessFromLastChance`
unfoldable pub apply_guess_from_last_chance : Engine → GameState → ℕ → Text → Outcome
apply_guess_from_last_chance e gs user raw = do
  actor ← require_opponent_captain gs user
  text ← trimmed_guess_text e raw
  claim gs (record {
    kind = judge_last_chance;
    claimant_team = opponent_of gs.active_team;
    claimant_seat = actor.seat_index;
    guess_text = text;
    potential_at_claim = potential_in gs.song;
    resume_awaiting = awaiting_last_chance;
    reveal_after_incorrect = false;
    owed_reveal_index = none;
  })

unfoldable pub guess_while : Engine → GameState → ℕ → Text → Awaiting → Outcome
guess_while e gs user raw awaiting_active = apply_guess_from_active e gs user raw
guess_while e gs user raw awaiting_last_chance = apply_guess_from_last_chance e gs user raw
guess_while e gs user raw awaiting_steal = err illegal_action
guess_while e gs user raw awaiting_unspecified = err wrong_phase

-- `applyGuess`
unfoldable pub apply_guess : Engine → GameState → ℕ → Text → Outcome
apply_guess e gs user raw = do
  raise_if (not (is_song_play gs.phase)) wrong_phase
  guess_while e gs user raw (awaiting_of gs.song)

-- `applySteal`. The window is open, so there is a song.
unfoldable pub apply_steal : Engine → GameState → ℕ → Text → Outcome
apply_steal e gs user raw = do
  require_song_play_awaiting gs awaiting_steal
  actor ← require_opponent_captain gs user
  s ← or_raise gs.song illegal_action
  raise_if (not s.steal_allowed) illegal_action
  text ← trimmed_guess_text e raw
  claim gs (record {
    kind = judge_steal;
    claimant_team = opponent_of gs.active_team;
    claimant_seat = actor.seat_index;
    guess_text = text;
    potential_at_claim = potential_of s;
    resume_awaiting = awaiting_steal;
    reveal_after_incorrect = true;
    owed_reveal_index = some s.steal_window_index;
  })

-- `applyPassFromSteal`
unfoldable pub apply_pass_from_steal : GameState → ℕ → Outcome
apply_pass_from_steal gs user = do
  actor ← require_opponent_captain gs user
  s ← or_raise gs.song illegal_action
  reveal_at gs s.steal_window_index (steal_passed (opponent_of gs.active_team) ∷ [])

-- `applyPassFromLastChance`
unfoldable pub apply_pass_from_last_chance : GameState → ℕ → Outcome
apply_pass_from_last_chance gs user = do
  actor ← require_opponent_captain gs user
  finish_song gs no_team 0 false

unfoldable pub pass_while : GameState → ℕ → Awaiting → Outcome
pass_while gs user awaiting_steal = apply_pass_from_steal gs user
pass_while gs user awaiting_last_chance = apply_pass_from_last_chance gs user
pass_while gs user awaiting_active = err illegal_action
pass_while gs user awaiting_unspecified = err wrong_phase

-- `applyPass`
unfoldable pub apply_pass : GameState → ℕ → Outcome
apply_pass gs user = do
  raise_if (not (is_song_play gs.phase)) wrong_phase
  pass_while gs user (awaiting_of gs.song)

-- `isSkippablePhase`
abbrev pub is_skippable_phase : Phase → Bool
is_skippable_phase song_play = true
is_skippable_phase pending_judgement = true
is_skippable_phase _ = false

-- `applySkipSong`. Without a song the code panics in `finishSong`.
unfoldable pub apply_skip_song : GameState → ℕ → Outcome
apply_skip_song gs user = do
  actor ← require_host gs user
  raise_if (not (is_skippable_phase gs.phase)) wrong_phase
  s ← or_panic gs.song
  prepend (song_skipped s.language_name s.bucket ∷ []) (finish_song gs no_team 0 true)
