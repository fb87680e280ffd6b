-- ===== src/SongGuess/Roster.antt =====
-- roster.go: the host puts the teams together, appoints the judge and begins the game.
use bgex_backend.Base.{
  ℕ, Bool, true, false, not, ◌&&◌, ◌||◌, Option, none, some, List, [], ◌∷◌, ◌++◌, ltb, ◌==◌,
  if◌then◌else◌, length, count_if, update_first, Result, ok, err, ◌>>=◌, ◌>>◌, raise_if, or_raise,
}
use bgex_backend.Engine.{Error, illegal_action, wrong_phase}
use bgex_backend.SongGuess.State.{
  Text, Team, no_team, team_a, team_b, Phase, round_select, judge_vacant, Participant, TeamState,
  Cell, GameState, Engine, WireTeam, named, empty_name, unknown_name, Event, roster_changed,
  team_renamed, game_started, round_started, judge_restored, Outcome, same_team, is_no_team,
  is_team, participant_by_seat, team_state, captain_of, judge_of, write_participant,
}
use bgex_backend.SongGuess.Play.{require_host}
use bgex_backend.SongGuess.Finish.{
  promote_captain, promoted, count_active_team_members, finish_if_terminal,
}

abbrev pub min_team_name_len : ℕ
min_team_name_len = 1

abbrev pub max_team_name_len : ℕ
max_team_name_len = 32

abbrev pub is_roster : Phase → Bool
is_roster Phase.roster = true
is_roster _ = false

-- `requireRosterPhase`
unfoldable pub require_roster_phase : GameState → Result Error (Unit {0})
require_roster_phase gs = raise_if (not (is_roster gs.phase)) wrong_phase

-- `rosterHostGuard`
unfoldable pub roster_host_guard : GameState → ℕ → Result Error Participant
roster_host_guard gs user = do p ← require_host gs user; require_roster_phase gs; ok p

-- `parseTeam`
abbrev pub parse_team : WireTeam → Option Team
parse_team (named t) = some t
parse_team empty_name = none
parse_team unknown_name = none

-- `rosterChangedEvent`
abbrev pub roster_changed_event : Participant → Event
roster_changed_event p = roster_changed p.seat_index p.team p.is_captain p.is_judge

-- The active participant at a seat.
unfoldable pub active_target : GameState → ℕ → Result Error Participant
active_target gs seat = do
  p ← or_raise (participant_by_seat gs seat) illegal_action
  raise_if (not p.active) illegal_action
  ok p

-- A captain who moves to another team is captain no more.
abbrev pub moved_to : Team → Participant → Participant
moved_to t p = record p { team = t; is_captain = p.is_captain && same_team t p.team }

-- `applyAssignTeam`
unfoldable pub apply_assign_team : GameState → ℕ → ℕ → WireTeam → Outcome
apply_assign_team gs user seat wire = do
  host ← roster_host_guard gs user
  target ← active_target gs seat
  t ← or_raise (parse_team wire) illegal_action
  raise_if (not (is_no_team t) && target.is_judge) illegal_action
  let moved = moved_to t target
  ok (write_participant moved gs, roster_changed_event moved ∷ [])

abbrev pub not_captain : Participant → Participant
not_captain p = record p { is_captain = false }

abbrev pub is_other : Participant → Participant → Bool
is_other p q = not (p.seat_index == q.seat_index)

-- The captain before, if somebody else, is captain no more.
unfoldable pub dismiss_captain :
    Option Participant → Participant → GameState → GameState × List Event
dismiss_captain none target gs = (gs, [])
dismiss_captain (some prev) target gs =
    if is_other prev target
    then (write_participant (not_captain prev) gs, roster_changed_event (not_captain prev) ∷ [])
    else (gs, [])

-- `applyAssignCaptain`
unfoldable pub apply_assign_captain : GameState → ℕ → ℕ → Outcome
apply_assign_captain gs user seat = do
  host ← roster_host_guard gs user
  target ← active_target gs seat
  raise_if (is_no_team target.team) illegal_action
  let before = dismiss_captain (captain_of gs target.team) target gs
  let captain = record target { is_captain = true }
  ok (write_participant captain before.0, before.1 ++ roster_changed_event captain ∷ [])

abbrev pub not_judge : Participant → Participant
not_judge p = record p { is_judge = false }

-- The judge before, if somebody else, is judge no more.
unfoldable pub dismiss_judge : Option Participant → Participant → GameState → GameState × List Event
dismiss_judge none target gs = (gs, [])
dismiss_judge (some prev) target gs =
    if is_other prev target
    then (write_participant (not_judge prev) gs, roster_changed_event (not_judge prev) ∷ [])
    else (gs, [])

abbrev pub made_judge : Participant → Participant
made_judge p = record p { is_judge = true; team = no_team; is_captain = false }

abbrev pub has_none : Option Participant → Bool
has_none none = true
has_none (some p) = false

abbrev pub promoted_events : Option Participant → List Event
promoted_events none = []
promoted_events (some p) = roster_changed_event (record p { is_captain = true }) ∷ []

-- A team that is left without a captain gets one.
unfoldable pub restore_captain : Team → GameState → GameState × List Event
restore_captain t gs =
    if not (is_no_team t) && has_none (captain_of gs t)
    then (promote_captain t gs, promoted_events (promoted t gs))
    else (gs, [])

-- `reassignJudge`
unfoldable pub reassign_judge : Participant → GameState → GameState × List Event
reassign_judge target gs =
    let dismissed = dismiss_judge (judge_of gs) target gs in
    let restored =
      restore_captain target.team (write_participant (made_judge target) dismissed.0) in
    (restored.0, dismissed.1 ++ (roster_changed_event (made_judge target) ∷ []) ++ restored.1)

-- `hostAssignJudgeTarget`
unfoldable pub host_assign_judge_target : GameState → ℕ → ℕ → Result Error Participant
host_assign_judge_target gs user seat = do host ← require_host gs user; active_target gs seat

-- `applyAssignJudgeInRoster`
unfoldable pub apply_assign_judge_in_roster : GameState → ℕ → ℕ → Outcome
apply_assign_judge_in_roster gs user seat = do
  target ← host_assign_judge_target gs user seat
  ok (reassign_judge target gs)

-- The interrupted phase goes on.
unfoldable pub resume_phase_of : GameState → GameState
resume_phase_of gs = record gs { phase = gs.resume_phase; resume_phase = Phase.unspecified }

-- `applyAssignJudgeInVacant`
unfoldable pub apply_assign_judge_in_vacant : GameState → ℕ → ℕ → Outcome
apply_assign_judge_in_vacant gs user seat = do
  target ← host_assign_judge_target gs user seat
  let judged = reassign_judge target gs
  finish_if_terminal (resume_phase_of judged.0) (judged.1 ++ judge_restored target.seat_index ∷ [])

-- `applyAssignJudge`
unfoldable pub assign_judge_in : GameState → ℕ → ℕ → Phase → Outcome
assign_judge_in gs user seat Phase.roster = apply_assign_judge_in_roster gs user seat
assign_judge_in gs user seat judge_vacant = apply_assign_judge_in_vacant gs user seat
assign_judge_in gs user seat _ = err wrong_phase

abbrev pub renamed : Text → TeamState → TeamState
renamed name ts = record ts { name = name }

-- A team that can be named.
unfoldable pub playing_team : WireTeam → Result Error Team
playing_team wire = do
  t ← or_raise (parse_team wire) illegal_action
  raise_if (is_no_team t) illegal_action
  ok t

-- `applySetTeamName`
unfoldable pub apply_set_team_name : Engine → GameState → ℕ → WireTeam → Text → Outcome
apply_set_team_name e gs user wire raw = do
  host ← roster_host_guard gs user
  t ← playing_team wire
  let name = e.trim_space raw
  raise_if (ltb (length name) min_team_name_len || ltb max_team_name_len (length name))
      illegal_action
  ts ← or_raise (team_state gs t) illegal_action
  ok (
    record gs { teams = update_first (is_team t) (renamed name) gs.teams },
    team_renamed t name ∷ [],
  )

abbrev pub is_active_captain : Team → Participant → Bool
is_active_captain t p = (p.active && same_team p.team t) && p.is_captain

-- `countCaptains`
unfoldable pub count_captains : GameState → Team → ℕ
count_captains gs t = count_if (is_active_captain t) gs.participants

-- What a team needs to begin.
unfoldable pub require_team : GameState → Team → Result Error (Unit {0})
require_team gs t = do
  raise_if (count_active_team_members gs t == 0) illegal_action
  raise_if (not (count_captains gs t == 1)) illegal_action

-- `validateRosterForBeginGame`
unfoldable pub validate_roster_for_begin_game : GameState → Result Error (Unit {0})
validate_roster_for_begin_game gs = do
  judge ← or_raise (judge_of gs) illegal_action
  raise_if (not (is_no_team judge.team)) illegal_action
  require_team gs team_a
  require_team gs team_b

abbrev pub is_nonempty : List ℕ → Bool
is_nonempty [] = false
is_nonempty (x ∷ xs) = true

abbrev pub any_unplayed : List Cell → Bool
any_unplayed [] = false
any_unplayed (c ∷ cs) = is_nonempty c.unplayed_song_ids || any_unplayed cs

-- `hasUnplayedSong`
unfoldable pub has_unplayed_song : GameState → Bool
has_unplayed_song gs = any_unplayed gs.cells

-- An empty name is the first team.
unfoldable pub starting_team : WireTeam → Result Error Team
starting_team empty_name = ok team_a
starting_team (named t) = playing_team (named t)
starting_team unknown_name = playing_team unknown_name

-- `applyBeginGame`
unfoldable pub apply_begin_game : GameState → ℕ → WireTeam → Outcome
apply_begin_game gs user wire = do
  host ← roster_host_guard gs user
  validate_roster_for_begin_game gs
  raise_if (not (has_unplayed_song gs)) illegal_action
  t ← starting_team wire
  ok (
    record gs { phase = round_select; active_team = t; round_no = 1 },
    game_started gs.pack_id gs.pack_version (length gs.participants) ∷ round_started 1 t ∷ [],
  )
