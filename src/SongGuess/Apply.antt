-- ===== src/SongGuess/Apply.antt =====
-- engine.go: `Apply` and its dispatch, on the decoded state and payload.
use bgex_backend.Base.{ℕ, suc, Bool, true, false, not, ◌&&◌, ok, err, ◌>>=◌, ◌>>◌, raise_if}
use bgex_backend.Engine.{illegal_action, game_over, wrong_phase}
use bgex_backend.SongGuess.State.{
  Phase, judge_vacant, finished, GameState, Engine, Action, assign_team, assign_captain,
  assign_judge, set_team_name, begin_game, select_cell, open_block, guess, steal, pass,
  judge_result, void, skip_song, next_round, resign, unknown_action, Outcome,
}
use bgex_backend.SongGuess.Play.{
  apply_open_block, apply_guess, apply_steal, apply_pass, apply_skip_song,
}
use bgex_backend.SongGuess.Judge.{apply_judge_result, apply_void}
use bgex_backend.SongGuess.Finish.{apply_resign}
use bgex_backend.SongGuess.Roster.{
  apply_assign_team, apply_assign_captain, assign_judge_in, apply_set_team_name, apply_begin_game,
}
use bgex_backend.SongGuess.Round.{apply_select_cell, apply_next_round}

abbrev pub is_vacant : Phase → Bool
is_vacant judge_vacant = true
is_vacant _ = false

abbrev pub is_finished : Phase → Bool
is_finished finished = true
is_finished _ = false

-- The actions that a vacant judgeship leaves.
abbrev pub is_vacant_action : Action → Bool
is_vacant_action (assign_judge seat) = true
is_vacant_action resign = true
is_vacant_action _ = false

-- The switch of `dispatch` and `dispatchPlay`.
unfoldable pub run_action : Engine → GameState → ℕ → Action → Outcome
run_action e gs user (assign_team seat t) = apply_assign_team gs user seat t
run_action e gs user (assign_captain seat) = apply_assign_captain gs user seat
run_action e gs user (assign_judge seat) = assign_judge_in gs user seat gs.phase
run_action e gs user (set_team_name t name) = apply_set_team_name e gs user t name
run_action e gs user (begin_game t) = apply_begin_game gs user t
run_action e gs user (select_cell language bucket) = do
  pack ← e.get_pack gs.pack_id gs.pack_version
  apply_select_cell e pack gs user language bucket
run_action e gs user (open_block index) = apply_open_block gs user index
run_action e gs user (guess text) = apply_guess e gs user text
run_action e gs user (steal text) = apply_steal e gs user text
run_action e gs user pass = apply_pass gs user
run_action e gs user (judge_result correct) = apply_judge_result gs user correct
run_action e gs user void = apply_void gs user
run_action e gs user skip_song = apply_skip_song gs user
run_action e gs user next_round = apply_next_round gs user
run_action e gs user resign = apply_resign gs user
run_action e gs user unknown_action = err illegal_action

-- `dispatch`
unfoldable pub dispatch : Engine → GameState → ℕ → Action → Outcome
dispatch e gs user a = do
  raise_if (is_vacant gs.phase && not (is_vacant_action a)) wrong_phase
  run_action e gs user a

-- `Apply`
unfoldable pub apply : Engine → GameState → ℕ → Action → Outcome
apply e gs user a = do
  raise_if (is_finished gs.phase) game_over
  (moved, events) ← dispatch e gs user a
  ok (record moved { seq = suc moved.seq }, events)
