-- ===== src/SongGuess/Legal.antt =====
-- legal.go: the actions that a participant is offered.
pub mod Offers
pub mod Complete
use bgex_backend.Base.{
  ℕ, Bool, true, false, not, ◌&&◌, ◌||◌, Option, none, some, List, [], ◌∷◌, ◌++◌, ◌==◌,
  if◌then◌else◌,
}
use bgex_backend.SongGuess.State.{
  Team, Phase, round_select, song_play, pending_judgement, song_result, judge_vacant, finished,
  Awaiting, awaiting_unspecified, awaiting_active, awaiting_steal, awaiting_last_chance,
  Participant, SongState, GameState, Action, unknown_action, captain_of, opponent_of, is_host_seat,
}
use bgex_backend.SongGuess.Play.{is_seat_of, awaiting_of}

-- The names of the actions.
pub data ActionType : Type 0 where
  assign_team assign_captain assign_judge set_team_name begin_game : ActionType
  select_cell open_block guess steal pass judge_result void skip_song : ActionType
  next_round resign unknown_type : ActionType

abbrev pub type_of : Action → ActionType
type_of (Action.assign_team seat t) = ActionType.assign_team
type_of (Action.assign_captain seat) = ActionType.assign_captain
type_of (Action.assign_judge seat) = ActionType.assign_judge
type_of (Action.set_team_name t name) = ActionType.set_team_name
type_of (Action.begin_game t) = ActionType.begin_game
type_of (Action.select_cell language bucket) = ActionType.select_cell
type_of (Action.open_block index) = ActionType.open_block
type_of (Action.guess text) = ActionType.guess
type_of (Action.steal text) = ActionType.steal
type_of Action.pass = ActionType.pass
type_of (Action.judge_result correct) = ActionType.judge_result
type_of Action.void = ActionType.void
type_of Action.skip_song = ActionType.skip_song
type_of Action.next_round = ActionType.next_round
type_of Action.resign = ActionType.resign
type_of unknown_action = unknown_type

-- `isActiveCaptainSeat`
unfoldable pub is_active_captain_seat : GameState → Participant → Bool
is_active_captain_seat gs p = is_seat_of (captain_of gs gs.active_team) p

-- `isOpponentCaptainSeat`
unfoldable pub is_opponent_captain_seat : GameState → Participant → Bool
is_opponent_captain_seat gs p = is_seat_of (captain_of gs (opponent_of gs.active_team)) p

abbrev pub any_closed : List Bool → Bool
any_closed [] = false
any_closed (b ∷ bs) = not b || any_closed bs

-- `blocksRemainClosed`
unfoldable pub blocks_remain_closed : Option SongState → Bool
blocks_remain_closed none = false
blocks_remain_closed (some s) = any_closed s.revealed_mask

abbrev pub offered_if : Bool → List ActionType → List ActionType
offered_if true offered = offered
offered_if false offered = []

-- `rosterActions`
unfoldable pub roster_actions : GameState → Participant → List ActionType
roster_actions gs p = offered_if (is_host_seat gs p.seat_index) (
    ActionType.assign_team ∷ ActionType.assign_captain ∷ ActionType.assign_judge
    ∷ ActionType.set_team_name ∷ ActionType.begin_game ∷ [])

-- `roundSelectActions`
unfoldable pub round_select_actions : GameState → Participant → List ActionType
round_select_actions gs p = offered_if (is_active_captain_seat gs p) (ActionType.select_cell ∷ [])

-- What the sub-state of a song offers.
unfoldable pub awaiting_actions : GameState → Participant → Awaiting → List ActionType
awaiting_actions gs p awaiting_active =
    offered_if (is_active_captain_seat gs p)
      (ActionType.guess ∷ offered_if (blocks_remain_closed gs.song) (ActionType.open_block ∷ []))
awaiting_actions gs p awaiting_steal =
    offered_if (is_opponent_captain_seat gs p) (ActionType.steal ∷ ActionType.pass ∷ [])
awaiting_actions gs p awaiting_last_chance =
    offered_if (is_opponent_captain_seat gs p) (ActionType.guess ∷ ActionType.pass ∷ [])
awaiting_actions gs p awaiting_unspecified = []

abbrev pub skip_offer : GameState → Participant → List ActionType
skip_offer gs p = offered_if (is_host_seat gs p.seat_index) (ActionType.skip_song ∷ [])

-- `songPlayActions`
unfoldable pub song_play_actions : GameState → Participant → List ActionType
song_play_actions gs p = awaiting_actions gs p (awaiting_of gs.song) ++ skip_offer gs p

-- `pendingJudgementActions`
unfoldable pub pending_judgement_actions : GameState → Participant → List ActionType
pending_judgement_actions gs p =
    offered_if p.is_judge (ActionType.judge_result ∷ ActionType.void ∷ []) ++ skip_offer gs p

-- `songResultActions`
unfoldable pub song_result_actions : GameState → Participant → List ActionType
song_result_actions gs p =
    offered_if (is_opponent_captain_seat gs p || is_host_seat gs p.seat_index)
      (ActionType.next_round ∷ [])

-- `phaseActions`, and the resignation that every phase but the last offers; `judgeVacantActions`
-- for a vacant judgeship.
unfoldable pub actions_in : GameState → Participant → Phase → List ActionType
actions_in gs p Phase.roster = roster_actions gs p ++ ActionType.resign ∷ []
actions_in gs p round_select = round_select_actions gs p ++ ActionType.resign ∷ []
actions_in gs p song_play = song_play_actions gs p ++ ActionType.resign ∷ []
actions_in gs p pending_judgement = pending_judgement_actions gs p ++ ActionType.resign ∷ []
actions_in gs p song_result = song_result_actions gs p ++ ActionType.resign ∷ []
actions_in gs p judge_vacant =
    offered_if (is_host_seat gs p.seat_index) (ActionType.assign_judge ∷ [])
    ++ ActionType.resign ∷ []
actions_in gs p Phase.unspecified = ActionType.resign ∷ []
actions_in gs p finished = []

-- `legalActions`, of a participant; a spectator is offered nothing.
unfoldable pub legal_actions : GameState → Participant → List ActionType
legal_actions gs p = if p.active then actions_in gs p gs.phase else []
