-- ===== src/SongGuess/Moves/Table.antt =====
-- roster.go and round.go: the moves that the host and the start of a round make.
use bgex_backend.SongGuess.Moves.Leave.{finish_if_terminal-Reach}
use bgex_backend.SongGuess.Moves.Same.{
  renamed-SameCore, dismiss_captain-SameCore, reassign_judge-SameCore, write_participant-SameCore,
  ok_state,
}
use bgex_backend.SongGuess.Play.{require_host}
use bgex_backend.SongGuess.State.{
  team_state, captain_of, judge_vacant, is_no_team, song_result, pending_judgement, song_play,
  round_select, Text, Event, Participant, WireTeam, Engine, GameState, Phase,
}
use bgex_backend.SongGuess.Roster.{
  resume_phase_of, max_team_name_len, reassign_judge, moved_to, min_team_name_len, dismiss_captain,
  starting_team, parse_team, has_unplayed_song, active_target, host_assign_judge_target,
  playing_team, validate_roster_for_begin_game, is_roster, apply_assign_judge_in_vacant,
  require_roster_phase, apply_assign_judge_in_roster, apply_assign_captain, apply_begin_game,
  roster_host_guard, apply_assign_team, assign_judge_in, apply_set_team_name,
}
use bgex_backend.Base.{
  ◌∙◌, ◌||◌, true, ◌&&◌, length, ltb, raise_if-eq-ok, or_raise-eq-ok, subst, >>=-eq-ok, false, ok,
  List, not, ℕ, ◌≡◌, refl,
}
use bgex_backend.Engine.{wrong_phase, illegal_action}
use bgex_backend.SongGuess.Moves.{Reach-trans, unpark, after, stay, Reach, once, begin}
use bgex_backend.SongGuess.Moves.Sound.{Reach-IsSound, IsSound}

pub apply_assign_team-Reach :
    (gs moved : GameState) (user seat : ℕ) (wire : WireTeam) (events : List Event)
    → apply_assign_team gs user seat wire ≡ ok (moved, events)
    → Reach gs moved
unfolding apply_assign_team
apply_assign_team-Reach gs moved user seat wire events done =
    let (host, guard, step1) = >>=-eq-ok (roster_host_guard gs user) _ done in
    let (target, there, step2) = >>=-eq-ok (active_target gs seat) _ step1 in
    let (t, parsed, step3) = or_raise-eq-ok (parse_team wire) illegal_action _ step2 in
    let (free, step4) =
      raise_if-eq-ok (not (is_no_team t) && target.is_judge) illegal_action _ step3 in
    subst (Reach gs) (ok_state step4)
      (once (stay (write_participant-SameCore (moved_to t target) gs)))

pub apply_assign_captain-Reach :
    (gs moved : GameState) (user seat : ℕ) (events : List Event)
    → apply_assign_captain gs user seat ≡ ok (moved, events)
    → Reach gs moved
unfolding apply_assign_captain
apply_assign_captain-Reach gs moved user seat events done =
    let (host, guard, step1) = >>=-eq-ok (roster_host_guard gs user) _ done in
    let (target, there, step2) = >>=-eq-ok (active_target gs seat) _ step1 in
    let (plays, step3) = raise_if-eq-ok (is_no_team target.team) illegal_action _ step2 in
    let prev = captain_of gs target.team in
    let before = (dismiss_captain prev target gs).0 in
    let captain = record target { is_captain = true } in
    subst (Reach gs) (ok_state step3) (
      after (once (stay (dismiss_captain-SameCore prev target gs)))
        (stay (write_participant-SameCore captain before)))

pub assign_judge_in-Reach :
    (gs moved : GameState) (user seat : ℕ) (events : List Event)
    → IsSound gs
    → (ph : Phase) → gs.phase ≡ ph
    → assign_judge_in gs user seat ph ≡ ok (moved, events)
    → Reach gs moved
unfolding assign_judge_in apply_assign_judge_in_roster apply_assign_judge_in_vacant
assign_judge_in-Reach gs moved user seat events sound Phase.roster at done =
    let (target, guard, step1) = >>=-eq-ok (host_assign_judge_target gs user seat) _ done in
    subst (Reach gs) (ok_state step1) (once (stay (reassign_judge-SameCore target gs)))
assign_judge_in-Reach gs moved user seat events sound judge_vacant at done =
    let (target, guard, step1) = >>=-eq-ok (host_assign_judge_target gs user seat) _ done in
    let same = reassign_judge-SameCore target gs in
    let judged = (reassign_judge target gs).0 in
    let path : Reach gs (resume_phase_of judged) =
      after (once (stay same)) (unpark judged (same.same_phase ∙ at)) in
    Reach-trans path (
      finish_if_terminal-Reach (resume_phase_of judged) moved _ events (Reach-IsSound path sound)
        step1)
assign_judge_in-Reach gs moved user seat events sound Phase.unspecified at done = absurd (cc)
assign_judge_in-Reach gs moved user seat events sound round_select at done = absurd (cc)
assign_judge_in-Reach gs moved user seat events sound song_play at done = absurd (cc)
assign_judge_in-Reach gs moved user seat events sound pending_judgement at done = absurd (cc)
assign_judge_in-Reach gs moved user seat events sound song_result at done = absurd (cc)
assign_judge_in-Reach gs moved user seat events sound Phase.finished at done = absurd (cc)

pub apply_set_team_name-Reach :
    (e : Engine) (gs moved : GameState) (user : ℕ) (wire : WireTeam) (raw : Text)
    (events : List Event)
    → apply_set_team_name e gs user wire raw ≡ ok (moved, events)
    → Reach gs moved
unfolding apply_set_team_name
apply_set_team_name-Reach e gs moved user wire raw events done =
    let name = e.trim_space raw in
    let (host, guard, step1) = >>=-eq-ok (roster_host_guard gs user) _ done in
    let (t, parsed, step2) = >>=-eq-ok (playing_team wire) _ step1 in
    let (fits, step3) =
      raise_if-eq-ok (ltb (length name) min_team_name_len || ltb max_team_name_len (length name))
        illegal_action _ step2 in
    let (ts, there, step4) = or_raise-eq-ok (team_state gs t) illegal_action _ step3 in
    subst (Reach gs) (ok_state step4) (once (stay (renamed-SameCore gs t name)))

is_roster-eq : (ph : Phase) → not (is_roster ph) ≡ false → ph ≡ Phase.roster
is_roster-eq Phase.roster h = refl
is_roster-eq Phase.unspecified h = absurd (cc)
is_roster-eq round_select h = absurd (cc)
is_roster-eq song_play h = absurd (cc)
is_roster-eq pending_judgement h = absurd (cc)
is_roster-eq song_result h = absurd (cc)
is_roster-eq judge_vacant h = absurd (cc)
is_roster-eq Phase.finished h = absurd (cc)

guarded_roster :
    (gs : GameState) (user : ℕ) {host : Participant}
    → roster_host_guard gs user ≡ ok host
    → gs.phase ≡ Phase.roster
unfolding roster_host_guard require_roster_phase
guarded_roster gs user guard =
    let (p, host, step1) = >>=-eq-ok (require_host gs user) _ guard in
    is_roster-eq gs.phase (raise_if-eq-ok (not (is_roster gs.phase)) wrong_phase _ step1).0

pub apply_begin_game-Reach :
    (gs moved : GameState) (user : ℕ) (wire : WireTeam) (events : List Event)
    → apply_begin_game gs user wire ≡ ok (moved, events)
    → Reach gs moved
unfolding apply_begin_game
apply_begin_game-Reach gs moved user wire events done =
    let (host, guard, step1) = >>=-eq-ok (roster_host_guard gs user) _ done in
    let (passed, valid, step2) = >>=-eq-ok (validate_roster_for_begin_game gs) _ step1 in
    let (playable, step3) = raise_if-eq-ok (not (has_unplayed_song gs)) illegal_action _ step2 in
    let (t, named_team, step4) = >>=-eq-ok (starting_team wire) _ step3 in
    subst (Reach gs) (ok_state step4) (once (begin gs t 1 (guarded_roster gs user guard)))
