-- ===== src/SongGuess/View/Viewers.antt =====
-- What keeps a viewer from the answer and from a guess, in terms of the players and of the phase.
use bgex_backend.SongGuess.Moves.Scores.{same_team-eq}
use bgex_backend.Base.{inr, Bool-cases, inl, Option-cases, ◌≢◌, ℕ, ◌≡◌, refl, true, false, some}
use bgex_backend.SongGuess.State.{
  same_team, Team, participant_by_user, effective_phase, judge_vacant, song_result,
  pending_judgement, round_select, song_play, Phase, Participant, GameState, Pending,
}
use bgex_backend.SongGuess.View.{
  is_over, pending_guess_text_visible, viewer_of, is_song_finished, is_judge_class,
}

-- The song is still in play: neither its result nor the end of the game is reached, also behind a
-- vacant judgeship.
abbrev pub IsInPlay : GameState → Type 0
IsInPlay gs = (effective_phase gs ≢ song_result) × (effective_phase gs ≢ Phase.finished)

in_play_phase : (ph : Phase) → ph ≢ song_result → ph ≢ Phase.finished → is_over ph ≡ false
in_play_phase song_result r f = absurd (r refl)
in_play_phase Phase.finished r f = absurd (f refl)
in_play_phase Phase.unspecified r f = refl
in_play_phase Phase.roster r f = refl
in_play_phase round_select r f = refl
in_play_phase song_play r f = refl
in_play_phase pending_judgement r f = refl
in_play_phase judge_vacant r f = refl

pub in_play_unfinished : (gs : GameState) → IsInPlay gs → is_song_finished gs ≡ false
unfolding is_song_finished
in_play_unfinished gs (r, f) = in_play_phase (effective_phase gs) r f

-- Whoever the user is among those who still play, they are not the judge.
abbrev pub IsNoJudge : GameState → ℕ → Type 0
IsNoJudge gs user =
    (p : Participant) → participant_by_user gs user ≡ some p → p.active ≡ true → p.is_judge ≡ false

pub no_judge_class :
    (gs : GameState) (user : ℕ) → IsNoJudge gs user → is_judge_class (viewer_of gs user).0 ≡ false
unfolding viewer_of
no_judge_class gs user plain = elim (Option-cases (participant_by_user gs user)) [
  | inl unknown ↦ rw (unknown, viewer_of) refl
  | inr (p, known) ↦ elim (Bool-cases p.active) [
    | inr left_game ↦ rw (known, viewer_of, left_game) refl
    | inl playing ↦ rw (known, viewer_of, playing, plain p known playing) refl
  ]
]

-- Whoever the user is among those who still play, they neither judge nor are in the claiming team:
-- a spectator, or a player of the other team.
abbrev pub IsOutsider : GameState → ℕ → Pending → Type 0
IsOutsider gs user c =
    (p : Participant)
    → participant_by_user gs user ≡ some p
    → p.active ≡ true
    → (p.is_judge ≡ false) × (p.team ≢ c.claimant_team)

apart_team : (t u : Team) → t ≢ u → same_team t u ≡ false
apart_team t u apart = elim (Bool-cases (same_team t u)) [
  | inl e ↦ absurd (apart (same_team-eq t u e))
  | inr e ↦ e
]

pub outsider_hidden :
    (gs : GameState) (user : ℕ) (c : Pending)
    → IsOutsider gs user c
    → pending_guess_text_visible (viewer_of gs user).0 (viewer_of gs user).1 c ≡ false
unfolding pending_guess_text_visible viewer_of
outsider_hidden gs user c outside = elim (Option-cases (participant_by_user gs user)) [
  | inl unknown ↦ rw (unknown, viewer_of) refl
  | inr (p, known) ↦ elim (Bool-cases p.active) [
    | inr left_game ↦ rw (known, viewer_of, left_game) refl
    | inl playing ↦
        let (plain, apart) = outside p known playing in
        rw (known, viewer_of, playing, plain, apart_team p.team c.claimant_team apart) refl
  ]
]
