-- ===== src/SongGuess/State.antt =====
-- internal/games/song_guess: the messages of song_guess.proto, the pack of packmodel.go, the actions
-- with their decoded payloads, the events, and the lookups of state.go. Ids and language names are
-- only compared, so they are numbers; a text is the list of its code points. A negative seat or
-- block index of a payload names nothing, as one that is too large does, so they are numbers too.
use bgex_backend.Base.{
  ℕ, ◌-◌, Bool, true, false, ◌&&◌, Option, none, some, List, ◌==◌, length, count_if, find_first,
  update_first, Result,
}
use bgex_backend.Engine.{Error}

abbrev pub Text : Type 0
Text = List ℕ

pub data Team : Type 0 where
  no_team team_a team_b : Team

pub data Phase : Type 0 where
  unspecified roster round_select song_play pending_judgement song_result : Phase
  judge_vacant finished : Phase

pub data Awaiting : Type 0 where
  awaiting_unspecified awaiting_active awaiting_steal awaiting_last_chance : Awaiting

pub data JudgeKind : Type 0 where
  judge_unspecified judge_active_guess judge_steal judge_last_chance : JudgeKind

pub record Participant : Type 0 where
  pub seat_index : ℕ
  pub user_id : ℕ
  pub team : Team
  pub is_captain : Bool
  pub is_judge : Bool
  pub active : Bool

pub record TeamState : Type 0 where
  pub team : Team
  pub name : Text
  pub score : ℕ

pub record Cell : Type 0 where
  pub language_index : ℕ
  pub language_name : ℕ
  pub bucket : ℕ
  pub unplayed_song_ids : List ℕ
  pub played_count : ℕ

pub record SongState : Type 0 where
  pub song_id : ℕ
  pub language_name : ℕ
  pub bucket : ℕ
  pub blocks : List Text
  pub steal_allowed : Bool
  pub awaiting : Awaiting
  pub title : Text
  pub artist : Text
  pub video_id : Text
  pub start_sec : ℕ
  pub end_sec : ℕ
  pub awarded_team : Team
  pub awarded_points : ℕ
  pub skipped : Bool
  pub last_guess_text : Text
  pub revealed_mask : List Bool
  pub steal_window_index : ℕ

-- `owed_reveal_index` is `none` for -1.
pub record Pending : Type 0 where
  pub kind : JudgeKind
  pub claimant_team : Team
  pub claimant_seat : ℕ
  pub guess_text : Text
  pub potential_at_claim : ℕ
  pub resume_awaiting : Awaiting
  pub reveal_after_incorrect : Bool
  pub owed_reveal_index : Option ℕ

pub record ResultEntry : Type 0 where
  pub seat_index : ℕ
  pub user_id : ℕ
  pub team : Team
  pub team_total : ℕ
  pub rank : ℕ
  pub is_judge : Bool

pub record SongOutcome : Type 0 where
  pub song_id : ℕ
  pub language_name : ℕ
  pub bucket : ℕ
  pub revealed_at_end : ℕ
  pub awarded_team : Team
  pub points : ℕ
  pub title : Text
  pub artist : Text
  pub skipped : Bool
  pub active_team : Team

-- `host_seat` is `none` for -1.
pub record GameState : Type 0 where
  pub pack_id : ℕ
  pub pack_version : ℕ
  pub phase : Phase
  pub seq : ℕ
  pub host_seat : Option ℕ
  pub participants : List Participant
  pub teams : List TeamState
  pub active_team : Team
  pub round_no : ℕ
  pub cells : List Cell
  pub song : Option SongState
  pub pending : Option Pending
  pub resume_phase : Phase
  pub results : List ResultEntry
  pub history : List SongOutcome

pub record Media : Type 0 where
  pub video_id : Text
  pub start_sec : ℕ
  pub end_sec : ℕ

pub record Song : Type 0 where
  pub id : ℕ
  pub title : Text
  pub artist : Text
  pub line : List Text
  pub media : Option Media

pub record Bucket : Type 0 where
  pub blocks : ℕ
  pub songs : List Song

pub record Language : Type 0 where
  pub name : ℕ
  pub buckets : List Bucket

pub record Pack : Type 0 where
  pub name : Text
  pub author_label : Text
  pub languages : List Language
  pub total_songs : ℕ

-- The pack provider, the shuffler, whose number for a sequence number and a bound is its own, and
-- `strings.TrimSpace`.
pub record Engine : Type 0 where
  pub get_pack : ℕ → ℕ → Result Error Pack
  pub int_n : ℕ → ℕ → ℕ
  pub trim_space : Text → Text

-- The wire form of a team.
pub data WireTeam : Type 0 where
  named : Team → WireTeam
  empty_name : WireTeam
  unknown_name : WireTeam

pub data Action : Type 0 where
  assign_team : ℕ → WireTeam → Action
  assign_captain : ℕ → Action
  assign_judge : ℕ → Action
  set_team_name : WireTeam → Text → Action
  begin_game : WireTeam → Action
  select_cell : ℕ → ℕ → Action
  open_block : ℕ → Action
  guess : Text → Action
  steal : Text → Action
  pass : Action
  judge_result : Bool → Action
  void : Action
  skip_song : Action
  next_round : Action
  resign : Action
  unknown_action : Action

pub data Event : Type 0 where
  roster_changed : ℕ → Team → Bool → Bool → Event
  team_renamed : Team → Text → Event
  game_started : ℕ → ℕ → ℕ → Event
  round_started : ℕ → Team → Event
  song_selected : ℕ → ℕ → ℕ → Event
  steal_window_opened : ℕ → Event
  block_revealed : ℕ → Text → Event
  song_finished : SongOutcome → Event
  guess_submitted : Team → ℕ → JudgeKind → Bool → Event
  steal_passed : Team → Event
  song_skipped : ℕ → ℕ → Event
  judged : Bool → JudgeKind → Team → Event
  points_awarded : Team → ℕ → ℕ → Event
  last_chance_opened : Team → ℕ → Event
  steal_locked_out : Team → Event
  decision_voided : JudgeKind → Team → Event
  player_left : ℕ → Team → Event
  captain_changed : Team → ℕ → Event
  judge_vacated : ℕ → Event
  judge_restored : ℕ → Event
  game_over : List (Team × Text × ℕ) → List Team → Event

-- What a step returns: the new state, and the events.
abbrev pub Outcome : Type 0
Outcome = Result Error (GameState × List Event)

abbrev pub same_team : Team → Team → Bool
same_team no_team no_team = true
same_team team_a team_a = true
same_team team_b team_b = true
same_team _ _ = false

abbrev pub is_no_team : Team → Bool
is_no_team no_team = true
is_no_team _ = false

abbrev pub has_seat : ℕ → Participant → Bool
has_seat i p = p.seat_index == i

abbrev pub has_user : ℕ → Participant → Bool
has_user u p = p.user_id == u

-- `participantBySeat`
unfoldable pub participant_by_seat : GameState → ℕ → Option Participant
participant_by_seat gs i = find_first (has_seat i) gs.participants

-- `participantByUser`
unfoldable pub participant_by_user : GameState → ℕ → Option Participant
participant_by_user gs u = find_first (has_user u) gs.participants

abbrev pub is_cell : ℕ → ℕ → Cell → Bool
is_cell language bucket c = (c.language_name == language) && (c.bucket == bucket)

-- `cellFor`
unfoldable pub cell_for : GameState → ℕ → ℕ → Option Cell
cell_for gs language bucket = find_first (is_cell language bucket) gs.cells

abbrev pub is_team : Team → TeamState → Bool
is_team t ts = same_team ts.team t

-- `teamState`
unfoldable pub team_state : GameState → Team → Option TeamState
team_state gs no_team = none
team_state gs team_a = find_first (is_team team_a) gs.teams
team_state gs team_b = find_first (is_team team_b) gs.teams

abbrev pub is_captain_of : Team → Participant → Bool
is_captain_of t p = same_team p.team t && p.is_captain

-- `captainOf`
unfoldable pub captain_of : GameState → Team → Option Participant
captain_of gs no_team = none
captain_of gs team_a = find_first (is_captain_of team_a) gs.participants
captain_of gs team_b = find_first (is_captain_of team_b) gs.participants

abbrev pub holds_judgeship : Participant → Bool
holds_judgeship p = p.is_judge

-- `judgeOf`
unfoldable pub judge_of : GameState → Option Participant
judge_of gs = find_first holds_judgeship gs.participants

-- `opponentOf`
unfoldable pub opponent_of : Team → Team
opponent_of no_team = no_team
opponent_of team_a = team_b
opponent_of team_b = team_a

abbrev pub effective_from : Phase → Phase → Phase
effective_from judge_vacant resume = resume
effective_from ph resume = ph

-- `effectivePhase`: the phase that a vacant judgeship has interrupted.
unfoldable pub effective_phase : GameState → Phase
effective_phase gs = effective_from gs.phase gs.resume_phase

abbrev pub is_host : Option ℕ → ℕ → Bool
is_host none seat = false
is_host (some host) seat = seat == host

-- Whether a seat is the host's.
unfoldable pub is_host_seat : GameState → ℕ → Bool
is_host_seat gs seat = is_host gs.host_seat seat

-- A write through the pointer to a participant.
unfoldable pub write_participant : Participant → GameState → GameState
write_participant p gs = record gs {
  participants = update_first (has_seat p.seat_index) (λ _. p) gs.participants;
}

abbrev pub is_open : Bool → Bool
is_open b = b

-- `revealedCount`, of the mask.
abbrev pub count_revealed : List Bool → ℕ
count_revealed = count_if is_open

-- `revealedCount`
unfoldable pub revealed_count : SongState → ℕ
revealed_count s = count_revealed s.revealed_mask

-- `potentialOf`. A mask has one entry for each block, so the difference is never negative.
unfoldable pub potential_of : SongState → ℕ
potential_of s = length s.blocks - revealed_count s
