-- ===== src/SongGuess/Moves/Crash.antt =====
-- engine.go: no action makes the server panic.
use bgex_backend.SongGuess.Moves.Claim.{skippable_flies}
use bgex_backend.SongGuess.Moves.Same.{
  is_pending_judgement-eq, is_song_play-eq, reassign_judge-SameCore,
}
use bgex_backend.SongGuess.Moves.Refinement.{is_song_result-eq}
use bgex_backend.SongGuess.Judge.{
  is_pending_judgement, require_pending_judgement, apply_void, apply_judge_result,
}
use bgex_backend.SongGuess.Apply.{dispatch, run_action, apply, is_finished}
use bgex_backend.SongGuess.Moves.Leave.{judge_resumable, depart-Reach, IsUnjudged}
use bgex_backend.SongGuess.Moves.Safety.{
  apply_skip_song-is_panic, apply_steal-is_panic, apply_guess-is_panic, apply_begin_game-is_panic,
  apply_open_block-is_panic, apply_set_team_name-is_panic, apply_void-is_panic, apply_pass-is_panic,
  apply_judge_result-is_panic, apply_assign_captain-is_panic, apply_assign_team-is_panic,
  require_host-is_panic, finish_if_terminal-is_panic, finalize-is_panic, >>=-is_panic, is_panic,
}
use bgex_backend.SongGuess.State.{
  judge_restored, effective_phase, song_result, pending_judgement, song_play, Action, round_select,
  assign_team, assign_captain, assign_judge, set_team_name, begin_game, select_cell, open_block,
  guess, steal, pass, judge_result, void, skip_song, next_round, resign, unknown_action,
  opponent_of, cell_for, Pack, Engine, judge_vacant, participant_by_user, Phase, GameState,
}
use bgex_backend.SongGuess.Play.{
  require_song_play_awaiting, is_song_play, require_host, is_skippable_phase, apply_open_block,
  apply_pass, apply_skip_song, require_captain, require_active_captain, seated_actor,
}
use bgex_backend.SongGuess.Roster.{
  resume_phase_of, active_target, reassign_judge, host_assign_judge_target,
  apply_assign_judge_in_roster, apply_assign_judge_in_vacant, assign_judge_in,
}
use bgex_backend.SongGuess.Finish.{depart, apply_resign}
use bgex_backend.SongGuess.Round.{is_song_result, start_round, apply_select_cell, apply_next_round}
use bgex_backend.Base.{
  ◌++◌, ◌∙◌, none, ◌-◌, zero, List-cases, inr, [], inl, suc, Option-cases, ◌∷◌, some, not,
  Bool-cases, get_elem?, length, ◌<◌, List, ℕ, ◌≡◌, refl, arith, Bool, false,
}
use bgex_backend.SongGuess.Moves.{unpark, stay, after, turn, once, Reach}
use bgex_backend.SongGuess.Moves.Sound.{
  effective-Fits, flying_song, in_phase, Reach-IsSound, IsSound,
}

apply_resign-is_panic :
    (gs : GameState) (user : ℕ)
    → IsSound gs
    → IsUnjudged gs
    → is_finished gs.phase ≡ false
    → is_panic (apply_resign gs user) ≡ false
unfolding apply_resign seated_actor participant_by_user
apply_resign-is_panic gs user sound unjudged running =
    elim (Option-cases (participant_by_user gs user)) [
      | inl absent ↦ ground (arith, absent)
      | inr (p, found) ↦
          let path =
            depart-Reach p gs (judge_resumable gs user gs.phase p running unjudged found) in
          ground (
            arith,
            found,
            finish_if_terminal-is_panic (depart p gs).0 (depart p gs).1 (Reach-IsSound path sound),
          )
    ]

host_assign_judge_target-is_panic :
    (gs : GameState) (user seat : ℕ) → is_panic (host_assign_judge_target gs user seat) ≡ false
unfolding host_assign_judge_target require_host seated_actor active_target
host_assign_judge_target-is_panic gs user seat = ground arith

apply_assign_judge_in_vacant-is_panic :
    (gs : GameState) (user seat : ℕ)
    → IsSound gs
    → gs.phase ≡ judge_vacant
    → is_panic (apply_assign_judge_in_vacant gs user seat) ≡ false
unfolding apply_assign_judge_in_vacant
apply_assign_judge_in_vacant-is_panic gs user seat sound at =
    >>=-is_panic (host_assign_judge_target gs user seat) _
      (host_assign_judge_target-is_panic gs user seat)
      (λ target found.
        let same = reassign_judge-SameCore target gs in
        let judged = (reassign_judge target gs).0 in
        let path : Reach gs (resume_phase_of judged) =
          after (once (stay same)) (unpark judged (same.same_phase ∙ at)) in
        finish_if_terminal-is_panic (resume_phase_of judged)
          ((reassign_judge target gs).1 ++ judge_restored target.seat_index ∷ [])
          (Reach-IsSound path sound))

assign_judge_in-is_panic :
    (gs : GameState) (user seat : ℕ) (ph : Phase)
    → IsSound gs
    → gs.phase ≡ ph
    → is_panic (assign_judge_in gs user seat ph) ≡ false
unfolding assign_judge_in apply_assign_judge_in_roster
assign_judge_in-is_panic gs user seat Phase.roster sound at =
    ground (arith, host_assign_judge_target-is_panic gs user seat)
assign_judge_in-is_panic gs user seat judge_vacant sound at =
    apply_assign_judge_in_vacant-is_panic gs user seat sound at
assign_judge_in-is_panic gs user seat Phase.unspecified sound at = refl
assign_judge_in-is_panic gs user seat round_select sound at = refl
assign_judge_in-is_panic gs user seat song_play sound at = refl
assign_judge_in-is_panic gs user seat pending_judgement sound at = refl
assign_judge_in-is_panic gs user seat song_result sound at = refl
assign_judge_in-is_panic gs user seat Phase.finished sound at = refl

apply_next_round-is_panic :
    (gs : GameState) (user : ℕ) → IsSound gs → is_panic (apply_next_round gs user) ≡ false
unfolding apply_next_round start_round seated_actor
apply_next_round-is_panic gs user sound = elim (Bool-cases (not (is_song_result gs.phase))) [
  | inl elsewhere ↦ ground (arith, elsewhere)
  | inr ended ↦
      let turned : GameState = record gs {
        active_team = opponent_of gs.active_team;
        song = none;
      } in
      let path : Reach gs turned =
        once (turn gs (opponent_of gs.active_team) (is_song_result-eq gs.phase ended)) in
      ground (arith, ended, finalize-is_panic turned (Reach-IsSound path sound))
]

-- A list has an element at an index below its length.
elem_below :
    {A : Type 0} (xs : List A) (i : ℕ) → i < length xs → (x : A) × (get_elem? xs i ≡ some x)
elem_below [] i below = absurd (omega (arith, below))
elem_below (x ∷ xs) zero below = (x, refl)
elem_below (x ∷ xs) (suc i) below = elem_below xs i (omega (arith, below))

apply_select_cell-is_panic :
    (e : Engine) (pack : Pack) (gs : GameState) (user language bucket : ℕ)
    → ((seq n : ℕ) → 0 < n → e.int_n seq n < n)
    → is_panic (apply_select_cell e pack gs user language bucket) ≡ false
unfolding apply_select_cell require_active_captain require_captain seated_actor
apply_select_cell-is_panic e pack gs user language bucket bounded =
    elim (Option-cases (cell_for gs language bucket)) [
      | inl absent ↦ ground (arith, absent)
      | inr (cell, there) ↦ elim (List-cases cell.unplayed_song_ids) [
        | inl empty ↦ ground (arith, there, empty)
        | inr (first, rest, filled) ↦
            let ids = cell.unplayed_song_ids in
            let n = length ids in
            let some_left : 0 < n = rw filled (omega arith) in
            let (song_id, drawn) = elem_below ids (e.int_n gs.seq n) (bounded gs.seq n some_left) in
            let (last, end) = elem_below ids (n - 1) (omega (arith, some_left)) in
            ground (arith, there, drawn, end)
      ]
    ]

-- Outside its phases, a handler of a song refuses before it needs one.
apply_open_block-no_panic :
    (gs : GameState) (user index : ℕ)
    → IsSound gs
    → is_panic (apply_open_block gs user index) ≡ false
unfolding apply_open_block require_song_play_awaiting
apply_open_block-no_panic gs user index sound = elim (Bool-cases (not (is_song_play gs.phase))) [
  | inl elsewhere ↦ ground (arith, elsewhere)
  | inr playing ↦
      let at = is_song_play-eq gs.phase playing in
      let (s, song, masked, no_claim) = in_phase gs song_play at sound in
      apply_open_block-is_panic gs s user index song masked
]

apply_pass-no_panic :
    (gs : GameState) (user : ℕ) → IsSound gs → is_panic (apply_pass gs user) ≡ false
unfolding apply_pass
apply_pass-no_panic gs user sound = elim (Bool-cases (not (is_song_play gs.phase))) [
  | inl elsewhere ↦ ground (arith, elsewhere)
  | inr playing ↦
      let at = is_song_play-eq gs.phase playing in
      let (s, song, masked, no_claim) = in_phase gs song_play at sound in
      apply_pass-is_panic gs s song user masked
]

apply_judge_result-no_panic :
    (gs : GameState) (user : ℕ) (correct : Bool)
    → IsSound gs
    → is_panic (apply_judge_result gs user correct) ≡ false
unfolding apply_judge_result require_pending_judgement
apply_judge_result-no_panic gs user correct sound =
    elim (Bool-cases (not (is_pending_judgement gs.phase))) [
      | inl elsewhere ↦ ground (arith, elsewhere)
      | inr judging ↦
          let at = is_pending_judgement-eq gs.phase judging in
          let (s, p, song, masked, claimed, worth) = in_phase gs pending_judgement at sound in
          apply_judge_result-is_panic gs s song user correct masked
    ]

apply_void-no_panic :
    (gs : GameState) (user : ℕ) → IsSound gs → is_panic (apply_void gs user) ≡ false
unfolding apply_void require_pending_judgement
apply_void-no_panic gs user sound = elim (Bool-cases (not (is_pending_judgement gs.phase))) [
  | inl elsewhere ↦ ground (arith, elsewhere)
  | inr judging ↦
      let at = is_pending_judgement-eq gs.phase judging in
      let (s, p, song, masked, claimed, worth) = in_phase gs pending_judgement at sound in
      apply_void-is_panic gs s song user
]

apply_skip_song-no_panic :
    (gs : GameState) (user : ℕ) → IsSound gs → is_panic (apply_skip_song gs user) ≡ false
unfolding apply_skip_song
apply_skip_song-no_panic gs user sound = elim (Bool-cases (not (is_skippable_phase gs.phase))) [
  | inl elsewhere ↦ ground (arith, elsewhere, require_host-is_panic gs user)
  | inr able ↦
      let flying = skippable_flies gs gs.phase refl able in
      let (s, song) =
        flying_song (effective_phase gs) gs.song gs.pending (effective-Fits gs gs.phase refl sound)
          flying in
      apply_skip_song-is_panic gs s song user
]

module _ (e : Engine) (bounded : (seq n : ℕ) → 0 < n → e.int_n seq n < n)
    (loads : (id version : ℕ) → is_panic (e.get_pack id version) ≡ false) where
  run_action-is_panic :
      (gs : GameState) (user : ℕ) (a : Action)
      → IsSound gs
      → IsUnjudged gs
      → is_finished gs.phase ≡ false
      → is_panic (run_action e gs user a) ≡ false
  unfolding run_action
  run_action-is_panic gs user (assign_team seat t) sound unjudged running =
      apply_assign_team-is_panic gs user seat t
  run_action-is_panic gs user (assign_captain seat) sound unjudged running =
      apply_assign_captain-is_panic gs user seat
  run_action-is_panic gs user (assign_judge seat) sound unjudged running =
      assign_judge_in-is_panic gs user seat gs.phase sound refl
  run_action-is_panic gs user (set_team_name t name) sound unjudged running =
      apply_set_team_name-is_panic e gs user t name
  run_action-is_panic gs user (begin_game t) sound unjudged running =
      apply_begin_game-is_panic gs user t
  run_action-is_panic gs user (select_cell language bucket) sound unjudged running =
      >>=-is_panic (e.get_pack gs.pack_id gs.pack_version) _ (loads gs.pack_id gs.pack_version)
        (λ pack got. apply_select_cell-is_panic e pack gs user language bucket bounded)
  run_action-is_panic gs user (open_block index) sound unjudged running =
      apply_open_block-no_panic gs user index sound
  run_action-is_panic gs user (guess text) sound unjudged running =
      apply_guess-is_panic e gs user text
  run_action-is_panic gs user (steal text) sound unjudged running =
      apply_steal-is_panic e gs user text
  run_action-is_panic gs user pass sound unjudged running = apply_pass-no_panic gs user sound
  run_action-is_panic gs user (judge_result correct) sound unjudged running =
      apply_judge_result-no_panic gs user correct sound
  run_action-is_panic gs user void sound unjudged running = apply_void-no_panic gs user sound
  run_action-is_panic gs user skip_song sound unjudged running =
      apply_skip_song-no_panic gs user sound
  run_action-is_panic gs user next_round sound unjudged running =
      apply_next_round-is_panic gs user sound
  run_action-is_panic gs user resign sound unjudged running =
      apply_resign-is_panic gs user sound unjudged running
  run_action-is_panic gs user unknown_action sound unjudged running = refl

  -- No action makes the engine panic, whoever sends it, if the game is sound, a vacant judgeship is
  -- nobody's, the shuffler draws below its bound and the pack provider does not panic.
  pub apply-is_panic :
      (gs : GameState) (user : ℕ) (a : Action)
      → IsSound gs
      → IsUnjudged gs
      → is_panic (apply e gs user a) ≡ false
  unfolding apply dispatch
  apply-is_panic gs user a sound unjudged = elim (Bool-cases (is_finished gs.phase)) [
    | inl over ↦ ground (arith, over)
    | inr running ↦ ground (arith, running, run_action-is_panic gs user a sound unjudged running)
  ]
