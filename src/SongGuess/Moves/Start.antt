-- ===== src/SongGuess/Moves/Start.antt =====
-- engine.go: a game starts as the actions need it.
use bgex_backend.SongGuess.Moves.Host.{start-HasHostJudge, HasHostJudge}
use bgex_backend.SongGuess.Roster.{made_judge}
use bgex_backend.SongGuess.Moves.Same.{
  restore_captain-SameCore, write_participant-SameCore, SameCore-trans, SameCore-refl,
}
use bgex_backend.SongGuess.State.{
  Phase, team_b, team_a, write_participant, participant_by_seat, Engine, GameState,
}
use bgex_backend.SongGuess.Moves.Scores.{IsScored}
use bgex_backend.SongGuess.Setup.{
  start_state, max_seats, min_seats, init_state, apply_host_judge_default,
}
use bgex_backend.Base.{
  true, map, contains, subst, ◌==◌, >>=-eq-ok, ◌||◌, length, ltb, raise_if-eq-ok, ok, inr, inl,
  List, Option-cases, ℕ, ◌≡◌, refl,
}
use bgex_backend.Engine.{SeatInit, not_enough_players, invalid_pack_doc}
use bgex_backend.SongGuess.Moves.{SameCore}
use bgex_backend.SongGuess.Moves.Sound.{SameCore-IsSound, IsSound}

apply_host_judge_default-SameCore : (gs : GameState) → SameCore gs (apply_host_judge_default gs)
unfolding apply_host_judge_default
apply_host_judge_default-SameCore gs = elim (Option-cases (participant_by_seat gs 0)) [
  | inl absent ↦ rw (absent, apply_host_judge_default) (SameCore-refl gs)
  | inr (host, there) ↦
      let judged = write_participant (made_judge host) gs in
      rw (there, apply_host_judge_default)
        (SameCore-trans gs judged _ (write_participant-SameCore (made_judge host) gs)
          (restore_captain-SameCore host.team judged))
]

-- A game that starts with somebody at seat 0 is in the roster phase and sound, that host is its one
-- judge, in no team and no captain, and both teams have what they have won so far.
pub init_state-starts :
    (e : Engine) (pack_id pack_version : ℕ) (seats : List SeatInit) (gs : GameState)
    → contains (map (λ s. s.seat) seats) 0 ≡ true
    → init_state e pack_id pack_version seats ≡ ok gs
    → (gs.phase ≡ Phase.roster)
      × IsSound gs
      × HasHostJudge gs
      × IsScored team_a gs
      × IsScored team_b gs
unfolding init_state IsSound IsScored
init_state-starts e pack_id pack_version seats gs hosted done =
    let (enough, step1) =
      raise_if-eq-ok (ltb (length seats) min_seats || ltb max_seats (length seats))
        not_enough_players _ done in
    let (pack, got, step2) = >>=-eq-ok (e.get_pack pack_id pack_version) _ step1 in
    let (songs, step3) = raise_if-eq-ok (pack.total_songs == 0) invalid_pack_doc _ step2 in
    let start = start_state pack_id pack_version seats pack in
    let began : apply_host_judge_default start ≡ gs = cc in
    let same : SameCore start gs =
      subst (SameCore start) began (apply_host_judge_default-SameCore start) in
    (
      same.same_phase,
      SameCore-IsSound start gs same refl,
      subst HasHostJudge began (start-HasHostJudge seats start hosted refl),
      rw (same.same_tallies, same.same_history) refl,
      rw (same.same_tallies, same.same_history) refl,
    )
