-- ===== src/SongGuess/Finish/Ranks.antt =====
-- scoring.go: who is ranked first.
use bgex_backend.Base.{ℕ, ◌≤◌, ◌≡◌, ◌↔◌, refl, false, inl, inr, Bool-cases, ltb, tests, arith}
use bgex_backend.SongGuess.State.{
  Team, no_team, team_a, team_b, Participant, GameState, is_no_team, opponent_of,
}
use bgex_backend.SongGuess.Finish.{team_ranks, score_of, result_for, entry_for}

first_ranks :
    (a b : ℕ) → (((team_ranks a b).0 ≡ 1) ↔ (b ≤ a)) × (((team_ranks a b).1 ≡ 1) ↔ (a ≤ b))
unfolding team_ranks
first_ranks a b = elim (Bool-cases (ltb b a)) [
  | inl wins ↦ rw wins (
    (λ first. grind (tests, wins), λ le. refl),
    (λ first. grind arith, λ le. grind (tests, wins)),
  )
  | inr not_wins ↦ elim (Bool-cases (ltb a b)) [
    | inl loses ↦
        rw (not_wins, loses)
          (
            (λ first. grind arith, λ le. grind (tests, loses)),
            (λ first. grind (tests, loses), λ le. refl),
          )
    | inr ties ↦
        rw (not_wins, ties)
          (
            (λ first. grind (tests, ties), λ le. refl),
            (λ first. grind (tests, not_wins), λ le. refl),
          )
  ]
]

ranked_first :
    (a b : ℕ) (score : Team → ℕ) (p : Participant) (t : Team)
    → score team_a ≡ a
    → score team_b ≡ b
    → is_no_team t ≡ false
    → ((result_for a b p t).rank ≡ 1) ↔ (score (opponent_of t) ≤ score t)
unfolding result_for opponent_of
ranked_first a b score p team_a at_a at_b plays = rw (at_a, at_b) (first_ranks a b).0
ranked_first a b score p team_b at_a at_b plays = rw (at_a, at_b) (first_ranks a b).1
ranked_first a b score p no_team at_a at_b plays = absurd (cc)

-- A player on a team is ranked first exactly when the other team has no more points; the teams may tie.
pub entry_for-rank :
    (gs : GameState) (p : Participant)
    → is_no_team p.team ≡ false
    → ((entry_for (score_of gs team_a) (score_of gs team_b) p).rank ≡ 1)
      ↔ (score_of gs (opponent_of p.team) ≤ score_of gs p.team)
entry_for-rank gs p plays =
    ranked_first (score_of gs team_a) (score_of gs team_b) (score_of gs) p p.team refl refl plays
