-- ===== src/SongGuess/Moves/Refinement.antt =====
-- engine.go and round.go: every action is a sequence of moves.
use bgex_backend.SongGuess.Moves.Verdict.{apply_void-Reach, apply_judge_result-Reach}
use bgex_backend.SongGuess.Moves.Claim.{
  apply_skip_song-Reach, apply_pass-Reach, apply_steal-Reach, apply_guess-Reach,
}
use bgex_backend.SongGuess.Moves.Song.{apply_open_block-Reach}
use bgex_backend.SongGuess.Moves.Table.{
  apply_begin_game-Reach, apply_set_team_name-Reach, assign_judge_in-Reach,
  apply_assign_captain-Reach, apply_assign_team-Reach,
}
use bgex_backend.SongGuess.Moves.Same.{seq-SameCore, ok_state}
use bgex_backend.SongGuess.Play.{is_seat_of, seated_actor, require_active_captain}
use bgex_backend.SongGuess.Moves.Leave.{apply_resign-Reach, finalize-Reach, IsUnjudged}
use bgex_backend.SongGuess.State.{
  assign_team, assign_captain, assign_judge, set_team_name, begin_game, select_cell, open_block,
  guess, steal, pass, judge_result, void, skip_song, next_round, resign, unknown_action,
  round_started, is_host_seat, captain_of, cell_for, opponent_of, judge_vacant, pending_judgement,
  song_play, round_select, song_result, Pack, Event, Action, GameState, Song, Bucket, Engine,
  Language, Text, Phase,
}
use bgex_backend.SongGuess.Apply.{
  is_vacant_action, is_vacant, is_finished, dispatch, apply, run_action,
}
use bgex_backend.SongGuess.Round.{
  unplayed_remaining, has_song_id, closed_mask, is_round_select, new_song, is_song_result,
  start_round, song_by_id, apply_select_cell, song_in_languages, apply_next_round, song_in_buckets,
}
use bgex_backend.Base.{
  find_first-holds, ==_iff, inr, arith, inl, Bool-cases, ◌-◌, none, get_elem?, or_panic-eq-ok,
  subst, ◌==◌, ◌&&◌, or_raise-eq-ok, >>=-eq-ok, [], find_first, suc, raise_if-eq-ok, Option-cases,
  ap, ◌∷◌, ok, some, false, length, not, List, ℕ, ◌≡◌, refl,
}
use bgex_backend.Engine.{not_your_turn, game_over, wrong_phase, illegal_action, invalid_pack_doc}
use bgex_backend.SongGuess.Moves.{next, Reach-trans, turn, stay, after, Reach, once, draw}
use bgex_backend.SongGuess.Moves.Sound.{Reach-IsSound, IsSound}

-- The song that is found has the id that was looked for.
song_in_buckets-id :
    (i : ℕ) (bs : List Bucket) (s : Song) → song_in_buckets i bs ≡ some s → s.id ≡ i
unfolding song_in_buckets
song_in_buckets-id i [] s found = absurd (cc)
song_in_buckets-id i (b ∷ bs) s found = elim (Option-cases (find_first (has_song_id i) b.songs)) [
  | inl absent ↦ song_in_buckets-id i bs s (ground (arith, absent, found))
  | inr (t, there) ↦
      let same : t ≡ s = ground (arith, there, found) in
      subst (λ x. x.id ≡ i) same
        ((==_iff t.id i).0 (find_first-holds (has_song_id i) b.songs t there))
]

song_in_languages-id :
    (i : ℕ) (ls : List Language) (s : Song) → song_in_languages i ls ≡ some s → s.id ≡ i
unfolding song_in_languages
song_in_languages-id i [] s found = absurd (cc)
song_in_languages-id i (l ∷ ls) s found = elim (Option-cases (song_in_buckets i l.buckets)) [
  | inl absent ↦ song_in_languages-id i ls s (ground (arith, absent, found))
  | inr (t, there) ↦ song_in_buckets-id i l.buckets s (ground (arith, there, found))
]

closed_mask-length : (line : List Text) → length (closed_mask line) ≡ length line
closed_mask-length [] = refl
closed_mask-length (b ∷ line) = ap suc (closed_mask-length line)

is_round_select-eq : (ph : Phase) → not (is_round_select ph) ≡ false → ph ≡ round_select
is_round_select-eq round_select h = refl
is_round_select-eq Phase.unspecified h = absurd (cc)
is_round_select-eq Phase.roster h = absurd (cc)
is_round_select-eq song_play h = absurd (cc)
is_round_select-eq pending_judgement h = absurd (cc)
is_round_select-eq song_result h = absurd (cc)
is_round_select-eq judge_vacant h = absurd (cc)
is_round_select-eq Phase.finished h = absurd (cc)

pub is_song_result-eq : (ph : Phase) → not (is_song_result ph) ≡ false → ph ≡ song_result
is_song_result-eq song_result h = refl
is_song_result-eq Phase.unspecified h = absurd (cc)
is_song_result-eq Phase.roster h = absurd (cc)
is_song_result-eq round_select h = absurd (cc)
is_song_result-eq song_play h = absurd (cc)
is_song_result-eq pending_judgement h = absurd (cc)
is_song_result-eq judge_vacant h = absurd (cc)
is_song_result-eq Phase.finished h = absurd (cc)

apply_select_cell-Reach :
    (e : Engine) (pack : Pack) (gs moved : GameState) (user language bucket : ℕ)
    (events : List Event)
    → apply_select_cell e pack gs user language bucket ≡ ok (moved, events)
    → Reach gs moved
unfolding apply_select_cell song_by_id new_song
apply_select_cell-Reach e pack gs moved user language bucket events done =
    let (choosing, step1) = raise_if-eq-ok (not (is_round_select gs.phase)) wrong_phase _ done in
    let (actor, captain, step2) = >>=-eq-ok (require_active_captain gs user) _ step1 in
    let (cell, there, step3) =
      or_raise-eq-ok (cell_for gs language bucket) illegal_action _ step2 in
    let ids = cell.unplayed_song_ids in
    let (some_left, step4) = raise_if-eq-ok (length ids == 0) illegal_action _ step3 in
    let idx = e.int_n gs.seq (length ids) in
    let (song_id, at_index, step5) = or_panic-eq-ok (get_elem? ids idx) _ step4 in
    let (last, at_last, step6) = or_panic-eq-ok (get_elem? ids (length ids - 1)) _ step5 in
    let (s, listed, step7) = or_raise-eq-ok (song_by_id pack song_id) invalid_pack_doc _ step6 in
    let same = song_in_languages-id song_id pack.languages s listed in
    subst (Reach gs) (ok_state step7) (
      once (
        draw gs language bucket idx last cell (new_song s language bucket)
          (is_round_select-eq gs.phase choosing) there (rw same at_index) at_last
          (closed_mask-length s.line)))

apply_next_round-Reach :
    (gs moved : GameState) (user : ℕ) (events : List Event)
    → IsSound gs
    → apply_next_round gs user ≡ ok (moved, events)
    → Reach gs moved
unfolding apply_next_round start_round
apply_next_round-Reach gs moved user events sound done =
    let (ended, step1) = raise_if-eq-ok (not (is_song_result gs.phase)) wrong_phase _ done in
    let (actor, seated, step2) = >>=-eq-ok (seated_actor gs user) _ step1 in
    let next_team = opponent_of gs.active_team in
    let (allowed, step3) =
      raise_if-eq-ok
        (not (is_seat_of (captain_of gs next_team) actor) && not (is_host_seat gs actor.seat_index))
        not_your_turn _ step2 in
    let at = is_song_result-eq gs.phase ended in
    let turned : GameState = record gs { active_team = next_team; song = none } in
    let path : Reach gs turned = once (turn gs next_team at) in
    elim (Bool-cases (unplayed_remaining turned == 0)) [
      | inl over ↦ Reach-trans path (
          finalize-Reach turned moved events (Reach-IsSound path sound)
            (ground (arith, over, step3)))
      | inr goes_on ↦
          let same : record turned { round_no = suc gs.round_no; phase = round_select } ≡ moved =
            ok_state {before = round_started (suc gs.round_no) next_team ∷ []} {events = events}
              (ground (arith, goes_on, step3)) in
          subst (Reach gs) same (after path (next turned (suc gs.round_no) at refl))
    ]

run_action-Reach :
    (e : Engine) (gs moved : GameState) (user : ℕ) (a : Action) (events : List Event)
    → IsSound gs
    → IsUnjudged gs
    → is_finished gs.phase ≡ false
    → run_action e gs user a ≡ ok (moved, events)
    → Reach gs moved
unfolding run_action
run_action-Reach e gs moved user (assign_team seat t) events sound unjudged running done =
    apply_assign_team-Reach gs moved user seat t events done
run_action-Reach e gs moved user (assign_captain seat) events sound unjudged running done =
    apply_assign_captain-Reach gs moved user seat events done
run_action-Reach e gs moved user (assign_judge seat) events sound unjudged running done =
    assign_judge_in-Reach gs moved user seat events sound gs.phase refl done
run_action-Reach e gs moved user (set_team_name t name) events sound unjudged running done =
    apply_set_team_name-Reach e gs moved user t name events done
run_action-Reach e gs moved user (begin_game t) events sound unjudged running done =
    apply_begin_game-Reach gs moved user t events done
run_action-Reach e gs moved user (select_cell language bucket) events sound unjudged running done =
    let (pack, got, step1) = >>=-eq-ok (e.get_pack gs.pack_id gs.pack_version) _ done in
    apply_select_cell-Reach e pack gs moved user language bucket events step1
run_action-Reach e gs moved user (open_block index) events sound unjudged running done =
    apply_open_block-Reach gs moved user index events done
run_action-Reach e gs moved user (guess text) events sound unjudged running done =
    apply_guess-Reach e gs moved user text events sound done
run_action-Reach e gs moved user (steal text) events sound unjudged running done =
    apply_steal-Reach e gs moved user text events done
run_action-Reach e gs moved user pass events sound unjudged running done =
    apply_pass-Reach e gs moved user events sound done
run_action-Reach e gs moved user (judge_result correct) events sound unjudged running done =
    apply_judge_result-Reach gs moved user correct events sound done
run_action-Reach e gs moved user void events sound unjudged running done =
    apply_void-Reach gs moved user events done
run_action-Reach e gs moved user skip_song events sound unjudged running done =
    apply_skip_song-Reach gs moved user events done
run_action-Reach e gs moved user next_round events sound unjudged running done =
    apply_next_round-Reach gs moved user events sound done
run_action-Reach e gs moved user resign events sound unjudged running done =
    apply_resign-Reach gs moved user events sound unjudged running done
run_action-Reach e gs moved user unknown_action events sound unjudged running done = absurd (cc)

-- An action that succeeds is a sequence of moves, if the game is sound and, while the judgeship is
-- vacant, nobody holds it.
pub apply-Reach :
    (e : Engine) (gs moved : GameState) (user : ℕ) (a : Action) (events : List Event)
    → IsSound gs
    → IsUnjudged gs
    → apply e gs user a ≡ ok (moved, events)
    → Reach gs moved
unfolding apply dispatch
apply-Reach e gs moved user a events sound unjudged done =
    let (running, step1) = raise_if-eq-ok (is_finished gs.phase) game_over _ done in
    let ((mid, late), ran, step2) = >>=-eq-ok (dispatch e gs user a) _ step1 in
    let (open_to, step3) =
      raise_if-eq-ok (is_vacant gs.phase && not (is_vacant_action a)) wrong_phase _ ran in
    subst (Reach gs) (ok_state step2) (
      after (run_action-Reach e gs mid user a late sound unjudged running step3)
        (stay (seq-SameCore mid (suc mid.seq))))

-- An action that succeeds leaves the game sound, if it was sound and, while the judgeship is vacant,
-- nobody holds it.
pub apply-IsSound :
    (e : Engine) (gs moved : GameState) (user : ℕ) (a : Action) (events : List Event)
    → IsSound gs
    → IsUnjudged gs
    → apply e gs user a ≡ ok (moved, events)
    → IsSound moved
apply-IsSound e gs moved user a events sound unjudged done =
    Reach-IsSound (apply-Reach e gs moved user a events sound unjudged done) sound
