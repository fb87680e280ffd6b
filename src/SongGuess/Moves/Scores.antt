-- ===== src/SongGuess/Moves/Scores.antt =====
-- The scores are what the record of the songs says.
use bgex_backend.SongGuess.Moves.Refinement.{apply-Reach}
use bgex_backend.SongGuess.Apply.{apply}
use bgex_backend.SongGuess.Finish.{close_game}
use bgex_backend.SongGuess.Moves.Leave.{IsUnjudged}
use bgex_backend.SongGuess.Roster.{resume_phase_of}
use bgex_backend.SongGuess.Round.{begin_song}
use bgex_backend.SongGuess.Play.{outcome_of, finished_state, credit, add_score}
use bgex_backend.SongGuess.State.{
  Event, Action, Engine, is_no_team, no_team, team_a, team_b, is_team, TeamState, same_team,
  SongOutcome, GameState, Team,
}
use bgex_backend.Base.{
  ok, sym, ap, ◌∙◌, inr, inl, Bool-cases, some, none, [], map, Option, ◌++◌, if◌then◌else◌, sum_by,
  List, update_first, ℕ, ◌+◌, ◌≡◌, refl, arith, true, false, ◌∷◌, sum_by-append,
}
use bgex_backend.SongGuess.Moves.{
  tally_of, Move, stay, begin, draw, adjust, reveal, lodge, reject, finish, turn, next, park,
  unpark, close, Reach, here, after,
}
use bgex_backend.SongGuess.Moves.Sound.{IsSound}

-- The score that stands beside a team.
abbrev pub tally_for : Team → List (Team × ℕ) → Option ℕ
tally_for t [] = none
tally_for t (row ∷ rows) = if same_team row.0 t then some row.1 else tally_for t rows

abbrev pub points_for : Team → SongOutcome → ℕ
points_for t o = if same_team o.awarded_team t then o.points else 0

-- What the songs on record have brought a team.
abbrev pub awarded_to : Team → List SongOutcome → ℕ
awarded_to t history = sum_by (points_for t) history

-- A team has a score, which is what the songs on record have brought it.
unfoldable pub IsScored : Team → GameState → Type 0
IsScored t gs = tally_for t (map tally_of gs.teams) ≡ some (awarded_to t gs.history)

pub same_team-eq : (a b : Team) → same_team a b ≡ true → a ≡ b
same_team-eq no_team no_team same = refl
same_team-eq team_a team_a same = refl
same_team-eq team_b team_b same = refl
same_team-eq no_team team_a same = absurd (cc)
same_team-eq no_team team_b same = absurd (cc)
same_team-eq team_a no_team same = absurd (cc)
same_team-eq team_a team_b same = absurd (cc)
same_team-eq team_b no_team same = absurd (cc)
same_team-eq team_b team_a same = absurd (cc)

-- The points reach the entry of the team.
tally_for-add_score :
    (t : Team) (points : ℕ) (teams : List TeamState) (score : ℕ)
    → tally_for t (map tally_of teams) ≡ some score
    → tally_for t (map tally_of (update_first (is_team t) (add_score points) teams))
      ≡ some (score + points)
unfolding update_first
tally_for-add_score t points [] score scored = absurd (cc)
tally_for-add_score t points (ts ∷ tss) score scored = elim (Bool-cases (same_team ts.team t)) [
  | inl same ↦
      let entry : ts.score ≡ score = ground (arith, same, scored) in rw (same, same, entry) refl
  | inr other ↦
      rw (other, other) (tally_for-add_score t points tss score (ground (arith, other, scored)))
]

-- Another team's entry stays as it is.
tally_for-other :
    (a t : Team) (points : ℕ) (teams : List TeamState)
    → same_team a t ≡ false
    → tally_for t (map tally_of (update_first (is_team a) (add_score points) teams))
      ≡ tally_for t (map tally_of teams)
unfolding update_first
tally_for-other a t points [] differ = refl
tally_for-other a t points (ts ∷ tss) differ = elim (Bool-cases (same_team ts.team a)) [
  | inl same ↦
      let other : same_team ts.team t ≡ false = rw (same_team-eq ts.team a same) differ in
      rw (same, other) refl
  | inr not_a ↦
      let rest = tally_for-other a t points tss differ in
      elim (Bool-cases (same_team ts.team t)) [
        | inl same ↦ rw (not_a, same) refl
        | inr other ↦ rw (not_a, other) rest
      ]
]

-- What the record has brought, with the song that ends now.
awarded_to-append :
    (t : Team) (history : List SongOutcome) (o : SongOutcome)
    → awarded_to t (history ++ o ∷ []) ≡ awarded_to t history + points_for t o
awarded_to-append t history o = omega (arith, sum_by-append (points_for t) history (o ∷ []))

credit-scored :
    (t awarded : Team) (points : ℕ) (teams : List TeamState) (score : ℕ)
    → is_no_team t ≡ false
    → tally_for t (map tally_of teams) ≡ some score
    → tally_for t (map tally_of (credit awarded points teams))
      ≡ some (score + (if same_team awarded t then points else 0))
unfolding credit
credit-scored no_team awarded points teams score plays scored = absurd (cc)
credit-scored team_a no_team points teams score plays scored = scored ∙ ap some (omega arith)
credit-scored team_b no_team points teams score plays scored = scored ∙ ap some (omega arith)
credit-scored team_a team_a points teams score plays scored =
    tally_for-add_score team_a points teams score scored
credit-scored team_b team_b points teams score plays scored =
    tally_for-add_score team_b points teams score scored
credit-scored team_a team_b points teams score plays scored =
    tally_for-other team_b team_a points teams refl ∙ scored ∙ ap some (omega arith)
credit-scored team_b team_a points teams score plays scored =
    tally_for-other team_a team_b points teams refl ∙ scored ∙ ap some (omega arith)

Move-IsScored :
    (t : Team) {gs moved : GameState}
    → is_no_team t ≡ false
    → Move gs moved
    → IsScored t gs
    → IsScored t moved
unfolding IsScored finished_state outcome_of begin_song resume_phase_of close_game
Move-IsScored t plays (stay same) scored = rw (same.same_tallies, same.same_history) scored
Move-IsScored t plays (begin gs next_team n at) scored = scored
Move-IsScored t plays (draw gs language bucket idx last cell s at there at_index at_last masked)
      scored =
    scored
Move-IsScored t plays (adjust gs s turned at song same) scored = scored
Move-IsScored t plays (reveal gs s index at song closed) scored = scored
Move-IsScored t plays (lodge gs s p at song worth) scored = scored
Move-IsScored t plays (reject gs s turned at song same) scored = scored
Move-IsScored t plays (finish gs s ended awarded points skipped flying song same worth) scored =
    credit-scored t awarded points gs.teams (awarded_to t gs.history) plays scored
    ∙ ap some (
        sym
          (awarded_to-append t gs.history (outcome_of gs.active_team awarded points skipped ended)))
Move-IsScored t plays (turn gs next_team at) scored = scored
Move-IsScored t plays (next gs n at no_song) scored = scored
Move-IsScored t plays (park gs able) scored = scored
Move-IsScored t plays (unpark gs at) scored = scored
Move-IsScored t plays (close gs landed no_claim) scored = scored

Reach-IsScored :
    (t : Team) {gs moved : GameState}
    → is_no_team t ≡ false
    → Reach gs moved
    → IsScored t gs
    → IsScored t moved
Reach-IsScored t plays here scored = scored
Reach-IsScored t plays (after path move) scored =
    Move-IsScored t plays move (Reach-IsScored t plays path scored)

-- After an action that succeeds, the score of a playing team is still the sum of what the songs on
-- record have brought it, if that was so before, the game is sound and a vacant judgeship is nobody's.
pub apply-IsScored :
    (e : Engine) (gs moved : GameState) (user : ℕ) (a : Action) (events : List Event) (t : Team)
    → is_no_team t ≡ false
    → IsSound gs
    → IsUnjudged gs
    → IsScored t gs
    → apply e gs user a ≡ ok (moved, events)
    → IsScored t moved
apply-IsScored e gs moved user a events t plays sound unjudged scored done =
    Reach-IsScored t plays (apply-Reach e gs moved user a events sound unjudged done) scored
