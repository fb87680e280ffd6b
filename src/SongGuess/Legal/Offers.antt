-- ===== src/SongGuess/Legal/Offers.antt =====
-- legal.go: a handler that succeeds was offered to whoever may act.
use bgex_backend.SongGuess.Moves.Same.{raise_if_passed}
use bgex_backend.SongGuess.Apply.{is_finished}
use bgex_backend.SongGuess.Finish.{apply_resign}
use bgex_backend.SongGuess.Judge.{
  require_judge, require_pending_judgement, apply_void, apply_judge_result,
}
use bgex_backend.SongGuess.Roster.{
  starting_team, require_team, playing_team, host_assign_judge_target,
  validate_roster_for_begin_game, active_target, require_roster_phase, apply_assign_judge_in_vacant,
  roster_host_guard, apply_assign_judge_in_roster, apply_assign_team, apply_begin_game,
  apply_set_team_name, apply_assign_captain, assign_judge_in,
}
use bgex_backend.SongGuess.Round.{apply_select_cell, apply_next_round}
use bgex_backend.SongGuess.Play.{
  require_closed, claim, apply_guess_from_last_chance, trimmed_guess_text, apply_guess_from_active,
  guess_while, require_active_captain, require_song_play_awaiting, apply_guess, apply_open_block,
  apply_steal, require_captain, require_opponent_captain, apply_pass_from_last_chance,
  apply_pass_from_steal, seated_actor, pass_while, require_host, apply_pass, apply_skip_song,
}
use bgex_backend.Base.{
  Option, List, [], ◌∷◌, some, get_elem?, zero, suc, ok, ap, or_raise-eq-ok, >>=-eq-ok, ◌||◌, ◌==◌,
  ℕ, ◌≡◌, arith, Bool, true, false,
}
use bgex_backend.Engine.{illegal_action}
use bgex_backend.SongGuess.State.{
  SongState, awaiting_active, WireTeam, Pack, Phase, Text, Engine, participant_by_user, Participant,
  Event, GameState,
}
use bgex_backend.SongGuess.Legal.{
  blocks_remain_closed, any_closed, round_select_actions, is_active_captain_seat, roster_actions,
  awaiting_actions, pending_judgement_actions, is_opponent_captain_seat, song_play_actions,
  song_result_actions, actions_in, legal_actions, ActionType,
}

abbrev code_of : ActionType → ℕ
code_of ActionType.assign_team = 0
code_of ActionType.assign_captain = 1
code_of ActionType.assign_judge = 2
code_of ActionType.set_team_name = 3
code_of ActionType.begin_game = 4
code_of ActionType.select_cell = 5
code_of ActionType.open_block = 6
code_of ActionType.guess = 7
code_of ActionType.steal = 8
code_of ActionType.pass = 9
code_of ActionType.judge_result = 10
code_of ActionType.void = 11
code_of ActionType.skip_song = 12
code_of ActionType.next_round = 13
code_of ActionType.resign = 14
code_of ActionType.unknown_type = 15

-- An action is among those that are offered.
abbrev pub is_offered : ActionType → List ActionType → Bool
is_offered t [] = false
is_offered t (o ∷ os) = (code_of o == code_of t) || is_offered t os

pub apply_skip_song-offered :
    (gs moved : GameState) (user : ℕ) (events : List Event) (p : Participant)
    → participant_by_user gs user ≡ some p
    → p.active ≡ true
    → apply_skip_song gs user ≡ ok (moved, events)
    → is_offered ActionType.skip_song (legal_actions gs p) ≡ true
unfolding apply_skip_song require_host seated_actor legal_actions actions_in song_play_actions
    pending_judgement_actions awaiting_actions
apply_skip_song-offered gs moved user events p found active done =
    ground (arith, found, active, done)

pub apply_next_round-offered :
    (gs moved : GameState) (user : ℕ) (events : List Event) (p : Participant)
    → participant_by_user gs user ≡ some p
    → p.active ≡ true
    → apply_next_round gs user ≡ ok (moved, events)
    → is_offered ActionType.next_round (legal_actions gs p) ≡ true
unfolding apply_next_round require_host seated_actor legal_actions actions_in song_result_actions
    is_opponent_captain_seat
apply_next_round-offered gs moved user events p found active done =
    ground (arith, found, active, done)

pub apply_pass-offered :
    (gs moved : GameState) (user : ℕ) (events : List Event) (p : Participant)
    → participant_by_user gs user ≡ some p
    → p.active ≡ true
    → apply_pass gs user ≡ ok (moved, events)
    → is_offered ActionType.pass (legal_actions gs p) ≡ true
unfolding apply_pass pass_while apply_pass_from_steal apply_pass_from_last_chance
    require_opponent_captain require_captain seated_actor legal_actions actions_in song_play_actions
    is_opponent_captain_seat awaiting_actions
apply_pass-offered gs moved user events p found active done = ground (arith, found, active, done)

pub apply_assign_team-offered :
    (gs moved : GameState) (user : ℕ) (seat : ℕ) (w : WireTeam) (events : List Event)
    (p : Participant)
    → participant_by_user gs user ≡ some p
    → p.active ≡ true
    → apply_assign_team gs user seat w ≡ ok (moved, events)
    → is_offered ActionType.assign_team (legal_actions gs p) ≡ true
unfolding apply_assign_team roster_host_guard require_host require_roster_phase active_target
    seated_actor legal_actions actions_in roster_actions
apply_assign_team-offered gs moved user seat w events p found active done =
    ground (arith, found, active, done)

pub apply_assign_captain-offered :
    (gs moved : GameState) (user : ℕ) (seat : ℕ) (events : List Event) (p : Participant)
    → participant_by_user gs user ≡ some p
    → p.active ≡ true
    → apply_assign_captain gs user seat ≡ ok (moved, events)
    → is_offered ActionType.assign_captain (legal_actions gs p) ≡ true
unfolding apply_assign_captain roster_host_guard require_host require_roster_phase active_target
    seated_actor legal_actions actions_in roster_actions
apply_assign_captain-offered gs moved user seat events p found active done =
    ground (arith, found, active, done)

pub apply_set_team_name-offered :
    (e : Engine) (gs moved : GameState) (user : ℕ) (w : WireTeam) (raw : Text) (events : List Event)
    (p : Participant)
    → participant_by_user gs user ≡ some p
    → p.active ≡ true
    → apply_set_team_name e gs user w raw ≡ ok (moved, events)
    → is_offered ActionType.set_team_name (legal_actions gs p) ≡ true
unfolding apply_set_team_name roster_host_guard require_host require_roster_phase playing_team
    seated_actor legal_actions actions_in roster_actions
apply_set_team_name-offered e gs moved user w raw events p found active done =
    ground (arith, found, active, done)

pub apply_begin_game-offered :
    (gs moved : GameState) (user : ℕ) (w : WireTeam) (events : List Event) (p : Participant)
    → participant_by_user gs user ≡ some p
    → p.active ≡ true
    → apply_begin_game gs user w ≡ ok (moved, events)
    → is_offered ActionType.begin_game (legal_actions gs p) ≡ true
unfolding apply_begin_game roster_host_guard require_host require_roster_phase
    validate_roster_for_begin_game require_team starting_team playing_team seated_actor
    legal_actions actions_in roster_actions
apply_begin_game-offered gs moved user w events p found active done =
    ground (arith, found, active, done)

pub assign_judge_in-offered :
    (gs moved : GameState) (user : ℕ) (seat : ℕ) (ph : Phase) (events : List Event)
    (p : Participant)
    → participant_by_user gs user ≡ some p
    → p.active ≡ true
    → gs.phase ≡ ph
    → assign_judge_in gs user seat ph ≡ ok (moved, events)
    → is_offered ActionType.assign_judge (legal_actions gs p) ≡ true
unfolding assign_judge_in apply_assign_judge_in_roster apply_assign_judge_in_vacant
    host_assign_judge_target require_host active_target seated_actor legal_actions actions_in
    roster_actions
assign_judge_in-offered gs moved user seat ph events p found active at done =
    ground (arith, found, active, at, done)

pub apply_select_cell-offered :
    (e : Engine) (gs moved : GameState) (user : ℕ) (pack : Pack) (language bucket : ℕ)
    (events : List Event) (p : Participant)
    → participant_by_user gs user ≡ some p
    → p.active ≡ true
    → apply_select_cell e pack gs user language bucket ≡ ok (moved, events)
    → is_offered ActionType.select_cell (legal_actions gs p) ≡ true
unfolding apply_select_cell require_active_captain require_captain seated_actor legal_actions
    actions_in round_select_actions is_active_captain_seat
apply_select_cell-offered e gs moved user pack language bucket events p found active done =
    ground (arith, found, active, done)

-- A block that may be opened is one that is closed.
closed_remains :
    (mask : List Bool) (index : ℕ) → get_elem? mask index ≡ some false → any_closed mask ≡ true
closed_remains [] index there = absurd (cc)
closed_remains (b ∷ bs) zero there = ground (arith, there)
closed_remains (b ∷ bs) (suc index) there = ground (arith, closed_remains bs index there)

require_closed-any_closed :
    (s : SongState) (index : ℕ) (passed : Unit {0})
    → require_closed s index ≡ ok passed
    → any_closed s.revealed_mask ≡ true
unfolding require_closed
require_closed-any_closed s index passed gate =
    let (shut, there, gate1) =
      or_raise-eq-ok (get_elem? s.revealed_mask index) illegal_action _ gate in
    let closed = raise_if_passed shut illegal_action gate1 in
    closed_remains s.revealed_mask index (rw there (ap some closed))

remain_closed :
    (song : Option SongState) (s : SongState)
    → song ≡ some s
    → any_closed s.revealed_mask ≡ true
    → blocks_remain_closed song ≡ true
unfolding blocks_remain_closed
remain_closed song s there closed = rw there closed

pub apply_open_block-offered :
    (gs moved : GameState) (user : ℕ) (index : ℕ) (events : List Event) (p : Participant)
    → participant_by_user gs user ≡ some p
    → p.active ≡ true
    → apply_open_block gs user index ≡ ok (moved, events)
    → is_offered ActionType.open_block (legal_actions gs p) ≡ true
unfolding apply_open_block require_song_play_awaiting require_active_captain require_captain
    seated_actor legal_actions actions_in song_play_actions awaiting_actions is_active_captain_seat
apply_open_block-offered gs moved user index events p found active done =
    let (p1, gate, step1) = >>=-eq-ok (require_song_play_awaiting gs awaiting_active) _ done in
    let (actor, captain, step2) = >>=-eq-ok (require_active_captain gs user) _ step1 in
    let (s, song, step3) = or_raise-eq-ok gs.song illegal_action _ step2 in
    let (p2, closed, step4) = >>=-eq-ok (require_closed s index) _ step3 in
    let remain : blocks_remain_closed gs.song ≡ true =
      remain_closed gs.song s song (require_closed-any_closed s index p2 closed) in
    ground (arith, found, active, gate, captain, remain)

pub apply_guess-offered :
    (e : Engine) (gs moved : GameState) (user : ℕ) (raw : Text) (events : List Event)
    (p : Participant)
    → participant_by_user gs user ≡ some p
    → p.active ≡ true
    → apply_guess e gs user raw ≡ ok (moved, events)
    → is_offered ActionType.guess (legal_actions gs p) ≡ true
unfolding apply_guess guess_while apply_guess_from_active apply_guess_from_last_chance
    require_active_captain require_opponent_captain require_captain trimmed_guess_text claim
    seated_actor legal_actions actions_in song_play_actions awaiting_actions is_active_captain_seat
    is_opponent_captain_seat
apply_guess-offered e gs moved user raw events p found active done =
    ground (arith, found, active, done)

pub apply_steal-offered :
    (e : Engine) (gs moved : GameState) (user : ℕ) (raw : Text) (events : List Event)
    (p : Participant)
    → participant_by_user gs user ≡ some p
    → p.active ≡ true
    → apply_steal e gs user raw ≡ ok (moved, events)
    → is_offered ActionType.steal (legal_actions gs p) ≡ true
unfolding apply_steal require_song_play_awaiting require_opponent_captain require_captain
    trimmed_guess_text claim seated_actor legal_actions actions_in song_play_actions
    awaiting_actions is_opponent_captain_seat
apply_steal-offered e gs moved user raw events p found active done =
    ground (arith, found, active, done)

pub apply_judge_result-offered :
    (gs moved : GameState) (user : ℕ) (correct : Bool) (events : List Event) (p : Participant)
    → participant_by_user gs user ≡ some p
    → p.active ≡ true
    → apply_judge_result gs user correct ≡ ok (moved, events)
    → is_offered ActionType.judge_result (legal_actions gs p) ≡ true
unfolding apply_judge_result require_pending_judgement require_judge seated_actor legal_actions
    actions_in pending_judgement_actions
apply_judge_result-offered gs moved user correct events p found active done =
    ground (arith, found, active, done)

pub apply_void-offered :
    (gs moved : GameState) (user : ℕ) (events : List Event) (p : Participant)
    → participant_by_user gs user ≡ some p
    → p.active ≡ true
    → apply_void gs user ≡ ok (moved, events)
    → is_offered ActionType.void (legal_actions gs p) ≡ true
unfolding apply_void require_pending_judgement require_judge seated_actor legal_actions actions_in
    pending_judgement_actions
apply_void-offered gs moved user events p found active done = ground (arith, found, active, done)

pub apply_resign-offered :
    (gs moved : GameState) (user : ℕ) (events : List Event) (p : Participant)
    → participant_by_user gs user ≡ some p
    → p.active ≡ true
    → is_finished gs.phase ≡ false
    → apply_resign gs user ≡ ok (moved, events)
    → is_offered ActionType.resign (legal_actions gs p) ≡ true
unfolding apply_resign seated_actor legal_actions actions_in roster_actions round_select_actions
    song_play_actions pending_judgement_actions song_result_actions awaiting_actions
apply_resign-offered gs moved user events p found active at done =
    ground (arith, found, active, at, done)
