-- ===== src/SongGuess/Judge.antt =====
-- judge.go: the verdict on a claim, and the claim discarded.
use bgex_backend.Base.{
  ℕ, Bool, true, false, not, Option, none, some, List, [], ◌∷◌, if◌then◌else◌, Result, ok, err,
  ◌>>=◌, ◌>>◌, raise_if, or_panic,
}
use bgex_backend.Engine.{Error, illegal_action, not_your_turn, wrong_phase}
use bgex_backend.SongGuess.State.{
  Text, Team, no_team, Phase, song_play, pending_judgement, Awaiting, awaiting_last_chance,
  JudgeKind, judge_unspecified, judge_active_guess, judge_steal, judge_last_chance, Participant,
  TeamState, Pending, GameState, Event, judged, points_awarded, last_chance_opened,
  steal_locked_out, decision_voided, Outcome, team_state, opponent_of, potential_of,
}
use bgex_backend.SongGuess.Play.{seated_actor, prepend, finish_song_with_guess, reveal_at}

-- `requireJudge`
unfoldable pub require_judge : GameState → ℕ → Result Error Participant
require_judge gs user = do p ← seated_actor gs user; raise_if (not p.is_judge) not_your_turn; ok p

abbrev pub is_pending_judgement : Phase → Bool
is_pending_judgement pending_judgement = true
is_pending_judgement _ = false

-- `requirePendingJudgement`
unfoldable pub require_pending_judgement : GameState → Result Error (Unit {0})
require_pending_judgement gs = raise_if (not (is_pending_judgement gs.phase)) wrong_phase

-- `GetScore`, of a team that may be missing.
abbrev pub score_in : Option TeamState → ℕ
score_in none = 0
score_in (some ts) = ts.score

-- `awardPoints`
unfoldable pub award_points : GameState → JudgeKind → Team → ℕ → Text → Outcome
award_points gs kind team points text = do
  (done, finished) ← finish_song_with_guess gs team points false text
  ok (
    done,
    judged true kind team ∷ points_awarded team points (score_in (team_state done team)) ∷ finished,
  )

-- `applyJudgeActiveGuessIncorrect`
unfoldable pub apply_judge_active_guess_incorrect : GameState → Pending → Outcome
apply_judge_active_guess_incorrect gs p = do
  s ← or_panic gs.song
  ok (
    record gs {
      phase = song_play;
      pending = none;
      song = some (record s { awaiting = awaiting_last_chance });
    },
    judged false p.kind p.claimant_team
        ∷ last_chance_opened (opponent_of p.claimant_team) (potential_of s)
        ∷ [],
  )

-- The reveal that the failed steal still owes; an index of -1 is out of range.
unfoldable pub reveal_owed : GameState → Option ℕ → List Event → Outcome
reveal_owed gs none events = err illegal_action
reveal_owed gs (some index) events = reveal_at gs index events

-- `applyJudgeStealIncorrect`
unfoldable pub apply_judge_steal_incorrect : GameState → Pending → Outcome
apply_judge_steal_incorrect gs p = do
  s ← or_panic gs.song
  let events = judged false p.kind p.claimant_team ∷ steal_locked_out p.claimant_team ∷ []
  let locked = record s { steal_allowed = false }
  if p.reveal_after_incorrect
      then reveal_owed (record gs { phase = song_play; pending = none; song = some locked })
          p.owed_reveal_index events
      else ok (
        record gs {
          phase = song_play;
          pending = none;
          song = some (record locked { awaiting = p.resume_awaiting });
        },
        events,
      )

-- `applyJudgeLastChanceIncorrect`
unfoldable pub apply_judge_last_chance_incorrect : GameState → Pending → Outcome
apply_judge_last_chance_incorrect gs p =
    prepend (judged false p.kind p.claimant_team ∷ [])
      (finish_song_with_guess gs no_team 0 false p.guess_text)

-- An incorrect claim, by its kind.
unfoldable pub judge_incorrect : GameState → Pending → JudgeKind → Outcome
judge_incorrect gs p judge_active_guess = apply_judge_active_guess_incorrect gs p
judge_incorrect gs p judge_steal = apply_judge_steal_incorrect gs p
judge_incorrect gs p judge_last_chance = apply_judge_last_chance_incorrect gs p
judge_incorrect gs p judge_unspecified = err illegal_action

-- What the getters of a missing claim return.
abbrev pub no_pending : Pending
no_pending = record {
  kind = judge_unspecified;
  claimant_team = no_team;
  claimant_seat = 0;
  guess_text = [];
  potential_at_claim = 0;
  resume_awaiting = Awaiting.awaiting_unspecified;
  reveal_after_incorrect = false;
  owed_reveal_index = some 0;
}

abbrev pub pending_or_zero : Option Pending → Pending
pending_or_zero none = no_pending
pending_or_zero (some p) = p

-- `applyJudgeResult`
unfoldable pub apply_judge_result : GameState → ℕ → Bool → Outcome
apply_judge_result gs user correct = do
  require_pending_judgement gs
  actor ← require_judge gs user
  let p = pending_or_zero gs.pending
  if correct
      then award_points gs p.kind p.claimant_team p.potential_at_claim p.guess_text
      else judge_incorrect gs p p.kind

-- `applyVoid`
unfoldable pub apply_void : GameState → ℕ → Outcome
apply_void gs user = do
  require_pending_judgement gs
  actor ← require_judge gs user
  let p = pending_or_zero gs.pending
  s ← or_panic gs.song
  ok (
    record gs {
      phase = song_play;
      song = some (record s { awaiting = p.resume_awaiting });
      pending = none;
    },
    decision_voided p.kind p.claimant_team ∷ [],
  )
