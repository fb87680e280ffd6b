-- ===== src/SongGuess/Finish.antt =====
-- scoring.go: leaving the game, and the end of the game.
pub mod Ranks
use bgex_backend.Base.{
  ℕ, Bool, true, false, not, ◌&&◌, ◌||◌, Option, none, some, List, [], ◌∷◌, ◌++◌, map, ltb, ◌==◌,
  if◌then◌else◌, count_if, find_first, update_first, ok, ◌>>=◌, ◌>>◌, raise_if,
}
use bgex_backend.Engine.{illegal_action}
use bgex_backend.SongGuess.State.{
  Text, Team, no_team, team_a, team_b, Phase, song_play, pending_judgement, judge_vacant, finished,
  Participant, TeamState, ResultEntry, GameState, Event, player_left, captain_changed,
  judge_vacated, game_over, Outcome, same_team, team_state, is_host_seat, effective_phase,
  write_participant,
}
use bgex_backend.SongGuess.Play.{seated_actor, prepend, finish_song}
use bgex_backend.SongGuess.Judge.{score_in}

abbrev pub is_active : Participant → Bool
is_active p = p.active

abbrev pub is_member : Team → Participant → Bool
is_member t p = p.active && same_team p.team t

abbrev pub made_captain : Participant → Participant
made_captain p = record p { is_captain = true }

-- `promoteCaptain`: the lowest seat of the team, if the team has one.
unfoldable pub promote_captain : Team → GameState → GameState
promote_captain t gs = record gs {
  participants = update_first (is_member t) made_captain gs.participants;
}

-- Whom `promoteCaptain` returns.
unfoldable pub promoted : Team → GameState → Option Participant
promoted t gs = find_first (is_member t) gs.participants

-- `countActiveTeamMembers`
unfoldable pub count_active_team_members : GameState → Team → ℕ
count_active_team_members gs t = count_if (is_member t) gs.participants

-- `countActiveParticipants`
unfoldable pub count_active_participants : GameState → ℕ
count_active_participants gs = count_if is_active gs.participants

-- `terminalCondition`
unfoldable pub terminal_condition : GameState → Bool
terminal_condition gs =
    count_active_team_members gs team_a == 0
    || count_active_team_members gs team_b == 0
    || ltb (count_active_participants gs) 3

-- `teamRanks`
unfoldable pub team_ranks : ℕ → ℕ → ℕ × ℕ
team_ranks a b = if ltb b a then (1, 2) else if ltb a b then (2, 1) else (1, 1)

abbrev pub score_of : GameState → Team → ℕ
score_of gs t = score_in (team_state gs t)

unfoldable pub result_for : ℕ → ℕ → Participant → Team → ResultEntry
result_for a b p team_a = record {
  seat_index = p.seat_index;
  user_id = p.user_id;
  team = p.team;
  team_total = a;
  rank = (team_ranks a b).0;
  is_judge = p.is_judge;
}
result_for a b p team_b = record {
  seat_index = p.seat_index;
  user_id = p.user_id;
  team = p.team;
  team_total = b;
  rank = (team_ranks a b).1;
  is_judge = p.is_judge;
}
result_for a b p no_team = record {
  seat_index = p.seat_index;
  user_id = p.user_id;
  team = p.team;
  team_total = 0;
  rank = 0;
  is_judge = p.is_judge;
}

abbrev pub entry_for : ℕ → ℕ → Participant → ResultEntry
entry_for a b p = result_for a b p p.team

-- `buildResults`
unfoldable pub build_results : GameState → List ResultEntry
build_results gs = map (entry_for (score_of gs team_a) (score_of gs team_b)) gs.participants

abbrev pub name_in : Option TeamState → Text
name_in none = []
name_in (some ts) = ts.name

abbrev pub winners : ℕ → ℕ → List Team
winners a b = if ltb b a then team_a ∷ [] else if ltb a b then team_b ∷ [] else team_a ∷ team_b ∷ []

-- `gameOverEvent`
unfoldable pub game_over_event : GameState → Event
game_over_event gs =
    let a = team_state gs team_a in
    let b = team_state gs team_b in
    game_over ((team_a, name_in a, score_in a) ∷ (team_b, name_in b, score_in b) ∷ [])
      (winners (score_in a) (score_in b))

-- A song is in flight.
abbrev pub is_in_flight : Phase → Bool
is_in_flight song_play = true
is_in_flight pending_judgement = true
is_in_flight _ = false

unfoldable pub close_game : GameState → GameState
close_game gs = record gs {
  phase = finished;
  resume_phase = Phase.unspecified;
  results = build_results gs;
}

-- `finalize`: a song in flight is recorded as skipped.
unfoldable pub finalize : GameState → Outcome
finalize gs = do
  (ended, events) ←
      if is_in_flight (effective_phase gs) then finish_song gs no_team 0 true else ok (gs, [])
  ok (close_game ended, events ++ game_over_event (close_game ended) ∷ [])

-- `lowestActiveSeat`
unfoldable pub lowest_active_seat : GameState → Option ℕ
lowest_active_seat gs = elim (find_first is_active gs.participants) [
  | none ↦ none
  | some p ↦ some p.seat_index
]

abbrev pub gone : Participant → Participant
gone p = record p { active = false; is_captain = false; is_judge = false }

abbrev pub captain_events : Team → Option Participant → List Event
captain_events t none = []
captain_events t (some p) = captain_changed t p.seat_index ∷ []

-- A captain who leaves is replaced.
unfoldable pub replace_captain : Participant → GameState → GameState × List Event
replace_captain p gs =
    if p.is_captain
    then (promote_captain p.team gs, captain_events p.team (promoted p.team gs))
    else (gs, [])

-- A judge who leaves parks the game.
unfoldable pub vacate_judge : Participant → GameState → GameState × List Event
vacate_judge p gs =
    if p.is_judge
    then (
      record gs { resume_phase = gs.phase; phase = judge_vacant },
      judge_vacated p.seat_index ∷ [],
    )
    else (gs, [])

-- The host's seat, if the host has left.
unfoldable pub move_host : Bool → GameState → GameState
move_host was_host gs = if was_host then record gs { host_seat = lowest_active_seat gs } else gs

-- The state after somebody has left, before the check that the game goes on.
unfoldable pub depart : Participant → GameState → GameState × List Event
depart p gs =
    let captained = replace_captain p (write_participant (gone p) gs) in
    let judged = vacate_judge p captained.0 in
    (
      move_host (is_host_seat gs p.seat_index) judged.0,
      (player_left p.seat_index p.team ∷ []) ++ captained.1 ++ judged.1,
    )

-- The end of the game, if it has to end.
unfoldable pub finish_if_terminal : GameState → List Event → Outcome
finish_if_terminal gs events =
    if terminal_condition gs then prepend events (finalize gs) else ok (gs, events)

-- `applyResign`
unfoldable pub apply_resign : GameState → ℕ → Outcome
apply_resign gs user = do
  p ← seated_actor gs user
  raise_if (not p.active) illegal_action
  let left = depart p gs
  finish_if_terminal left.0 left.1
