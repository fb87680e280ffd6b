-- ===== src/SongGuess/Moves/Verdict.antt =====
-- judge.go: the moves that a verdict and a discarded claim make.
use bgex_backend.SongGuess.Moves.Song.{reveal_owed-Reach, finish_song_state}
use bgex_backend.SongGuess.Finish.{is_in_flight}
use bgex_backend.SongGuess.Moves.Same.{
  ok_state, prepend-eq-ok, raise_if_passed, is_pending_judgement-eq,
}
use bgex_backend.SongGuess.Play.{finished_state, finish_song_with_guess}
use bgex_backend.SongGuess.Judge.{
  pending_or_zero, is_pending_judgement, apply_judge_last_chance_incorrect, require_judge,
  apply_judge_steal_incorrect, award_points, apply_judge_active_guess_incorrect, judge_incorrect,
  require_pending_judgement, apply_void, apply_judge_result,
}
use bgex_backend.SongGuess.State.{
  steal_locked_out, judged, judge_unspecified, judge_last_chance, awaiting_last_chance, judge_steal,
  song_play, no_team, judge_active_guess, potential_of, JudgeKind, Text, Pending, Team, Event,
  pending_judgement, SongState, GameState, effective_phase,
}
use bgex_backend.Base.{
  [], ◌∷◌, arith, none, inr, inl, ◌⊎◌, subst, false, Bool-cases, or_panic-eq-ok, not, true,
  >>=-eq-ok, some, List, ok, Bool, ℕ, ◌≡◌, refl,
}
use bgex_backend.Engine.{wrong_phase}
use bgex_backend.SongGuess.Moves.{finish, Reach-trans, Reach, once, reject}
use bgex_backend.SongGuess.Moves.Sound.{IsSound, in_phase}

pending_judgement_phase :
    (gs : GameState) {passed : Unit {0}}
    → require_pending_judgement gs ≡ ok passed
    → gs.phase ≡ pending_judgement
unfolding require_pending_judgement
pending_judgement_phase gs gate =
    is_pending_judgement-eq gs.phase
      (raise_if_passed (not (is_pending_judgement gs.phase)) wrong_phase gate)

judging_flies :
    (gs : GameState) → gs.phase ≡ pending_judgement → is_in_flight (effective_phase gs) ≡ true
unfolding effective_phase
judging_flies gs at = rw at refl

-- The song ends with the guess that was judged.
finish_song_with_guess-Reach :
    (gs moved : GameState) (s : SongState) (awarded : Team) (points : ℕ) (skipped : Bool)
    (text : Text) (events : List Event)
    → is_in_flight (effective_phase gs) ≡ true
    → gs.song ≡ some s
    → ((points ≡ 0) ⊎ (points ≡ potential_of s))
    → finish_song_with_guess gs awarded points skipped text ≡ ok (moved, events)
    → Reach gs moved
unfolding finish_song_with_guess finished_state
finish_song_with_guess-Reach gs moved s awarded points skipped text events flying song worth done =
    let guessed = record s { last_guess_text = text } in
    let mid : GameState = record gs { song = some guessed } in
    let ended =
      finish_song_state mid moved guessed awarded points skipped events refl
        (ground (arith, song, done)) in
    subst (Reach gs) ended (
      once (
        finish gs s guessed awarded points skipped flying song
          record { same_id = refl; same_blocks = refl; same_mask = refl } worth))

module _ (gs moved : GameState) (s : SongState) (p : Pending) (events : List Event)
    (at : gs.phase ≡ pending_judgement) (song : gs.song ≡ some s) where
  award_points-Reach :
      (kind : JudgeKind) (t : Team) (points : ℕ) (text : Text)
      → points ≡ potential_of s
      → award_points gs kind t points text ≡ ok (moved, events)
      → Reach gs moved
  unfolding award_points
  award_points-Reach kind t points text worth done =
      let ((ended, late), ran, step1) =
        >>=-eq-ok (finish_song_with_guess gs t points false text) _ done in
      let path =
        finish_song_with_guess-Reach gs ended s t points false text late (judging_flies gs at) song
          (inr worth) ran in
      subst (Reach gs) (ok_state step1) path

  active_guess_incorrect-Reach :
      apply_judge_active_guess_incorrect gs p ≡ ok (moved, events) → Reach gs moved
  unfolding apply_judge_active_guess_incorrect
  active_guess_incorrect-Reach done =
      let (found, there, step1) = or_panic-eq-ok gs.song _ done in
      subst (Reach gs) (ok_state step1) (
        once (
          reject gs found (record found { awaiting = awaiting_last_chance }) at there
            record { same_id = refl; same_blocks = refl; same_mask = refl }))

  steal_incorrect-Reach : apply_judge_steal_incorrect gs p ≡ ok (moved, events) → Reach gs moved
  unfolding apply_judge_steal_incorrect
  steal_incorrect-Reach done =
      let (found, there, step1) = or_panic-eq-ok gs.song _ done in
      let locked = record found { steal_allowed = false } in
      let judged_events =
        judged false p.kind p.claimant_team ∷ steal_locked_out p.claimant_team ∷ [] in
      let mid : GameState = record gs { phase = song_play; pending = none; song = some locked } in
      let rejected : Reach gs mid = once (
        reject gs found locked at there
          record { same_id = refl; same_blocks = refl; same_mask = refl }) in
      elim (Bool-cases p.reveal_after_incorrect) [
        | inl owed ↦ Reach-trans rejected (
            reveal_owed-Reach mid moved p.owed_reveal_index judged_events events refl
              (ground (arith, owed, step1)))
        | inr free ↦
            let turned = record locked { awaiting = p.resume_awaiting } in
            let ended : record gs { phase = song_play; pending = none; song = some turned }
                ≡ moved =
              ok_state {before = judged_events} {events = events} (ground (arith, free, step1)) in
            subst (Reach gs) ended (
              once (
                reject gs found turned at there
                  record { same_id = refl; same_blocks = refl; same_mask = refl }))
      ]

  last_chance_incorrect-Reach :
      apply_judge_last_chance_incorrect gs p ≡ ok (moved, events) → Reach gs moved
  unfolding apply_judge_last_chance_incorrect
  last_chance_incorrect-Reach done =
      let (late, step1) =
        prepend-eq-ok _ (finish_song_with_guess gs no_team 0 false p.guess_text) done in
      finish_song_with_guess-Reach gs moved s no_team 0 false p.guess_text late
        (judging_flies gs at) song (inl refl) step1

  judge_incorrect-Reach :
      (kind : JudgeKind) → judge_incorrect gs p kind ≡ ok (moved, events) → Reach gs moved
  unfolding judge_incorrect
  judge_incorrect-Reach judge_active_guess done = active_guess_incorrect-Reach done
  judge_incorrect-Reach judge_steal done = steal_incorrect-Reach done
  judge_incorrect-Reach judge_last_chance done = last_chance_incorrect-Reach done
  judge_incorrect-Reach judge_unspecified done = absurd (cc)

pub apply_judge_result-Reach :
    (gs moved : GameState) (user : ℕ) (correct : Bool) (events : List Event)
    → IsSound gs
    → apply_judge_result gs user correct ≡ ok (moved, events)
    → Reach gs moved
unfolding apply_judge_result
apply_judge_result-Reach gs moved user correct events sound done =
    let (passed, gate, step1) = >>=-eq-ok (require_pending_judgement gs) _ done in
    let (actor, judge, step2) = >>=-eq-ok (require_judge gs user) _ step1 in
    let at = pending_judgement_phase gs gate in
    let (s, p, song, masked, claimed, worth) = in_phase gs pending_judgement at sound in
    elim (Bool-cases correct) [
      | inl right ↦
          award_points-Reach gs moved s p events at song p.kind p.claimant_team p.potential_at_claim
            p.guess_text worth (ground (arith, claimed, right, step2))
      | inr wrong ↦
          judge_incorrect-Reach gs moved s p events at song p.kind
            (ground (arith, claimed, wrong, step2))
    ]

pub apply_void-Reach :
    (gs moved : GameState) (user : ℕ) (events : List Event)
    → apply_void gs user ≡ ok (moved, events)
    → Reach gs moved
unfolding apply_void
apply_void-Reach gs moved user events done =
    let (passed, gate, step1) = >>=-eq-ok (require_pending_judgement gs) _ done in
    let (actor, judge, step2) = >>=-eq-ok (require_judge gs user) _ step1 in
    let (s, song, step3) = or_panic-eq-ok gs.song _ step2 in
    subst (Reach gs) (ok_state step3) (
      once (
        reject gs s (record s { awaiting = (pending_or_zero gs.pending).resume_awaiting })
          (pending_judgement_phase gs gate) song
          record { same_id = refl; same_blocks = refl; same_mask = refl }))
