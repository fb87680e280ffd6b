-- ===== src/SongGuess/Legal/Complete.antt =====
-- legal.go and engine.go: whoever may act is offered the action.
use bgex_backend.SongGuess.Apply.{
  is_vacant_action, is_vacant, dispatch, run_action, apply, is_finished,
}
use bgex_backend.Base.{
  not, ◌&&◌, List, some, ok, >>=-eq-ok, raise_if-eq-ok, ℕ, ◌≡◌, refl, true, false,
}
use bgex_backend.Engine.{wrong_phase, game_over}
use bgex_backend.SongGuess.State.{
  unknown_action, Engine, participant_by_user, Participant, Event, GameState, Action,
}
use bgex_backend.SongGuess.Legal.{type_of, legal_actions}
use bgex_backend.SongGuess.Legal.Offers.{
  apply_resign-offered, apply_next_round-offered, apply_skip_song-offered, apply_void-offered,
  apply_judge_result-offered, apply_pass-offered, apply_steal-offered, apply_guess-offered,
  apply_open_block-offered, apply_select_cell-offered, apply_begin_game-offered,
  apply_set_team_name-offered, assign_judge_in-offered, apply_assign_captain-offered,
  apply_assign_team-offered, is_offered,
}

run_action-offered :
    (e : Engine) (gs moved : GameState) (user : ℕ) (a : Action) (events : List Event)
    (p : Participant)
    → participant_by_user gs user ≡ some p
    → p.active ≡ true
    → is_finished gs.phase ≡ false
    → run_action e gs user a ≡ ok (moved, events)
    → is_offered (type_of a) (legal_actions gs p) ≡ true
unfolding run_action
run_action-offered e gs moved user (Action.assign_team seat t) events p found active running done =
    apply_assign_team-offered gs moved user seat t events p found active done
run_action-offered e gs moved user (Action.assign_captain seat) events p found active running done =
    apply_assign_captain-offered gs moved user seat events p found active done
run_action-offered e gs moved user (Action.assign_judge seat) events p found active running done =
    assign_judge_in-offered gs moved user seat gs.phase events p found active refl done
run_action-offered e gs moved user (Action.set_team_name t name) events p found active running
      done =
    apply_set_team_name-offered e gs moved user t name events p found active done
run_action-offered e gs moved user (Action.begin_game t) events p found active running done =
    apply_begin_game-offered gs moved user t events p found active done
run_action-offered e gs moved user (Action.select_cell language bucket) events p found active
      running done =
    let (pack, got, step1) = >>=-eq-ok (e.get_pack gs.pack_id gs.pack_version) _ done in
    apply_select_cell-offered e gs moved user pack language bucket events p found active step1
run_action-offered e gs moved user (Action.open_block index) events p found active running done =
    apply_open_block-offered gs moved user index events p found active done
run_action-offered e gs moved user (Action.guess text) events p found active running done =
    apply_guess-offered e gs moved user text events p found active done
run_action-offered e gs moved user (Action.steal text) events p found active running done =
    apply_steal-offered e gs moved user text events p found active done
run_action-offered e gs moved user Action.pass events p found active running done =
    apply_pass-offered gs moved user events p found active done
run_action-offered e gs moved user (Action.judge_result correct) events p found active running
      done =
    apply_judge_result-offered gs moved user correct events p found active done
run_action-offered e gs moved user Action.void events p found active running done =
    apply_void-offered gs moved user events p found active done
run_action-offered e gs moved user Action.skip_song events p found active running done =
    apply_skip_song-offered gs moved user events p found active done
run_action-offered e gs moved user Action.next_round events p found active running done =
    apply_next_round-offered gs moved user events p found active done
run_action-offered e gs moved user Action.resign events p found active running done =
    apply_resign-offered gs moved user events p found active running done
run_action-offered e gs moved user unknown_action events p found active running done = absurd (cc)

-- An action that succeeds for an active participant is one that the participant was offered.
pub apply-offered :
    (e : Engine) (gs moved : GameState) (user : ℕ) (a : Action) (events : List Event)
    (p : Participant)
    → participant_by_user gs user ≡ some p
    → p.active ≡ true
    → apply e gs user a ≡ ok (moved, events)
    → is_offered (type_of a) (legal_actions gs p) ≡ true
unfolding apply dispatch
apply-offered e gs moved user a events p found active done =
    let (running, step1) = raise_if-eq-ok (is_finished gs.phase) game_over _ done in
    let ((mid, late), ran, step2) = >>=-eq-ok (dispatch e gs user a) _ step1 in
    let (open_to, step3) =
      raise_if-eq-ok (is_vacant gs.phase && not (is_vacant_action a)) wrong_phase _ ran in
    run_action-offered e gs mid user a late p found active running step3
