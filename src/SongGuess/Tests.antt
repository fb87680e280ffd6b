-- ===== src/SongGuess/Tests.antt =====
-- Runs of the song guessing game, and the theorems at those runs.
use bgex_backend.SongGuess.Moves.Host.{HasHostJudge}
use bgex_backend.SongGuess.Finish.Ranks.{entry_for-rank}
use bgex_backend.SongGuess.Moves.Undo.{claim-void_restores}
use bgex_backend.SongGuess.PackCache.Lru.{inserted, none_yet, Steps-IsLru, then_step, IsLru, Steps}
use bgex_backend.SongGuess.PackCache.Truth.{get-load}
use bgex_backend.SongGuess.PackCache.{
  get, evict_oldest_locked, push_entry, lookup, new_pack_cache_with_capacity, insert, PackCache,
  PackCacheKey,
}
use bgex_backend.SongGuess.View.Secrecy.{build_view-hides_guess, build_view-hides}
use bgex_backend.SongGuess.View.Viewers.{IsInPlay, IsNoJudge, IsOutsider}
use bgex_backend.SongGuess.View.{build_view}
use bgex_backend.SongGuess.Finish.{score_of, entry_for, promoted, promote_captain}
use bgex_backend.SongGuess.Roster.{restore_captain}
use bgex_backend.SongGuess.Moves.Start.{init_state-starts}
use bgex_backend.SongGuess.Setup.{
  cells_from, build_cells, assign_default_captains, default_participants, apply_host_judge_default,
  start_state, init_state,
}
use bgex_backend.SongGuess.Judge.{
  apply_void, award_points, require_judge, require_pending_judgement, apply_judge_result,
}
use bgex_backend.SongGuess.Play.{
  credit, outcome_of, end_song, finished_state, claim, finish_song, trimmed_guess_text,
  finish_song_with_guess, require_captain, require_active_captain, seated_actor,
  apply_guess_from_active, guess_while, apply_guess,
}
use bgex_backend.SongGuess.Legal.Offers.{is_offered}
use bgex_backend.SongGuess.Legal.Complete.{apply-offered}
use bgex_backend.SongGuess.Moves.Crash.{apply-is_panic}
use bgex_backend.SongGuess.Legal.{type_of, legal_actions}
use bgex_backend.SongGuess.Moves.Safety.{is_panic}
use bgex_backend.SongGuess.Moves.Refinement.{apply-IsSound, apply-Reach}
use bgex_backend.SongGuess.Moves.Songs.{song_count-apply, song_count}
use bgex_backend.SongGuess.Moves.Scores.{apply-IsScored, IsScored}
use bgex_backend.SongGuess.Apply.{run_action, dispatch, apply}
use bgex_backend.Base.{
  subst, arith, ◌≢◌, ◌≤◌, ◌↔◌, inl, Result, zero, suc, get_elem?, insert_by, sort_by, update_first,
  find_first, ℕ, ◌≡◌, refl, true, false, [], ◌∷◌, some, none, ok, List,
}
use bgex_backend.Engine.{Error, SeatInit}
use bgex_backend.SongGuess.State.{
  opponent_of, decision_voided, effective_phase, write_participant, participant_by_seat, guess,
  judge_result, open_block, team_state, captain_of, song_finished, revealed_count, points_awarded,
  Phase, potential_of, participant_by_user, guess_submitted, judged, Participant, TeamState, Cell,
  SongState, Pending, GameState, Engine, Pack, Event, team_a, team_b, no_team, song_play,
  pending_judgement, song_result, awaiting_active, judge_active_guess,
}
use bgex_backend.SongGuess.Moves.{Reach}
use bgex_backend.SongGuess.Moves.Sound.{IsSound}

abbrev judge : Participant
judge = record {
  seat_index = 0;
  user_id = 10;
  team = no_team;
  is_captain = false;
  is_judge = true;
  active = true;
}

abbrev captain_a : Participant
captain_a = record {
  seat_index = 1;
  user_id = 11;
  team = team_a;
  is_captain = true;
  is_judge = false;
  active = true;
}

abbrev captain_b : Participant
captain_b = record {
  seat_index = 2;
  user_id = 12;
  team = team_b;
  is_captain = true;
  is_judge = false;
  active = true;
}

abbrev tune : SongState
tune = record {
  song_id = 7;
  language_name = 1;
  bucket = 2;
  blocks = (3 ∷ []) ∷ (4 ∷ []) ∷ [];
  steal_allowed = true;
  awaiting = awaiting_active;
  title = 5 ∷ [];
  artist = 6 ∷ [];
  video_id = [];
  start_sec = 0;
  end_sec = 0;
  awarded_team = no_team;
  awarded_points = 0;
  skipped = false;
  last_guess_text = [];
  revealed_mask = false ∷ false ∷ [];
  steal_window_index = 0;
}

abbrev cell : Cell
cell = record {
  language_index = 0;
  language_name = 1;
  bucket = 2;
  unplayed_song_ids = 8 ∷ [];
  played_count = 1;
}

abbrev scores : ℕ → List TeamState
scores a =
    record { team = team_a; name = 1 ∷ []; score = a }
    ∷ record { team = team_b; name = 2 ∷ []; score = 0 }
    ∷ []

-- A song in play.
abbrev playing : GameState
playing = record {
  pack_id = 1;
  pack_version = 1;
  phase = song_play;
  seq = 4;
  host_seat = some 0;
  participants = judge ∷ captain_a ∷ captain_b ∷ [];
  teams = scores 0;
  active_team = team_a;
  round_no = 1;
  cells = cell ∷ [];
  song = some tune;
  pending = none;
  resume_phase = Phase.unspecified;
  results = [];
  history = [];
}

abbrev claimed : Pending
claimed = record {
  kind = judge_active_guess;
  claimant_team = team_a;
  claimant_seat = 1;
  guess_text = 9 ∷ [];
  potential_at_claim = 2;
  resume_awaiting = awaiting_active;
  reveal_after_incorrect = false;
  owed_reveal_index = none;
}

-- The guess of the active captain waits for its verdict.
abbrev judging : GameState
judging = record playing { pending = some claimed; phase = pending_judgement; seq = 5 }

-- The guess was right.
abbrev won : GameState
won = record judging {
  seq = 6;
  phase = song_result;
  pending = none;
  song = some (record tune { last_guess_text = 9 ∷ []; awarded_team = team_a; awarded_points = 2 });
  teams = scores 2;
  history =
      record {
        song_id = 7;
        language_name = 1;
        bucket = 2;
        revealed_at_end = 0;
        awarded_team = team_a;
        points = 2;
        title = 5 ∷ [];
        artist = 6 ∷ [];
        skipped = false;
        active_team = team_a;
      }
      ∷ [];
}

abbrev pack : Pack
pack = record { name = []; author_label = []; languages = []; total_songs = 1 }

abbrev engine : Engine
engine = record { get_pack = λ i v. ok pack; int_n = λ seq n. 0; trim_space = λ t. t }

abbrev guess_events : List Event
guess_events = guess_submitted team_a 1 judge_active_guess true ∷ []

abbrev win_events : List Event
win_events =
    judged true judge_active_guess team_a
    ∷ points_awarded team_a 2 2
    ∷ song_finished (record {
      song_id = 7;
      language_name = 1;
      bucket = 2;
      revealed_at_end = 0;
      awarded_team = team_a;
      points = 2;
      title = 5 ∷ [];
      artist = 6 ∷ [];
      skipped = false;
      active_team = team_a;
    })
    ∷ []

guess_runs : apply engine playing 11 (guess (9 ∷ [])) ≡ ok (judging, guess_events)
unfolding apply dispatch run_action apply_guess guess_while apply_guess_from_active
    require_active_captain require_captain seated_actor participant_by_user captain_of find_first
    trimmed_guess_text claim potential_of revealed_count
guess_runs = refl

verdict_runs : apply engine judging 10 (judge_result true) ≡ ok (won, win_events)
unfolding apply dispatch run_action apply_judge_result require_pending_judgement require_judge
    seated_actor participant_by_user find_first award_points finish_song_with_guess finish_song
    finished_state end_song outcome_of credit team_state update_first revealed_count
verdict_runs = refl

playing-IsSound : IsSound playing
unfolding IsSound
playing-IsSound = (tune, refl, refl, refl)

judging-IsSound : IsSound judging
unfolding IsSound potential_of revealed_count
judging-IsSound = (tune, claimed, refl, refl, refl, refl)

apply-Reach_example : Reach playing judging
apply-Reach_example =
    apply-Reach engine playing judging 11 (guess (9 ∷ [])) guess_events playing-IsSound tt
      guess_runs

song_count-apply_example : song_count 7 won ≡ song_count 7 judging
song_count-apply_example =
    song_count-apply engine judging won 10 (judge_result true) win_events judging-IsSound tt
      verdict_runs 7

apply-IsScored_example : IsScored team_a won
unfolding IsScored
apply-IsScored_example =
    apply-IsScored engine judging won 10 (judge_result true) win_events team_a refl judging-IsSound
      tt refl verdict_runs

apply-is_panic_example : is_panic (apply engine playing 11 (open_block 0)) ≡ false
apply-is_panic_example =
    apply-is_panic engine (λ seq n below. below) (λ id version. refl) playing 11 (open_block 0)
      playing-IsSound tt

apply-offered_example :
    is_offered (type_of (guess (9 ∷ []))) (legal_actions playing captain_a) ≡ true
unfolding participant_by_user find_first
apply-offered_example =
    apply-offered engine playing judging 11 (guess (9 ∷ [])) guess_events captain_a refl refl
      guess_runs

abbrev seats : List SeatInit
seats =
    record { user_id = 10; seat = 0; stack = 0 }
    ∷ record { user_id = 11; seat = 1; stack = 0 }
    ∷ record { user_id = 12; seat = 2; stack = 0 }
    ∷ []

-- The game as it starts: seat 0 judges, and the first seats of the teams are their captains.
abbrev started : GameState
started = record (start_state 1 1 seats pack) {
  participants =
      judge ∷ record captain_a { team = team_b } ∷ record captain_b { team = team_a } ∷ [];
}

init_runs : init_state engine 1 1 seats ≡ ok started
unfolding init_state apply_host_judge_default participant_by_seat default_participants
    assign_default_captains sort_by insert_by update_first find_first write_participant
    restore_captain promote_captain captain_of promoted build_cells cells_from
init_runs = refl

init_state-starts_example :
    (started.phase ≡ Phase.roster)
    × IsSound started
    × HasHostJudge started
    × IsScored team_a started
    × IsScored team_b started
init_state-starts_example = init_state-starts engine 1 1 seats started refl init_runs

-- One action after another stays sound.
apply-IsSound_example : IsSound judging
apply-IsSound_example =
    apply-IsSound engine playing judging 11 (guess (9 ∷ [])) guess_events playing-IsSound tt
      guess_runs

-- The first block is open.
abbrev half_open : SongState
half_open = record tune { revealed_mask = true ∷ false ∷ [] }

-- Another song that looks the same.
abbrev double : SongState
double = record half_open { song_id = 8; title = 1 ∷ []; blocks = (3 ∷ []) ∷ (5 ∷ []) ∷ [] }

double-open :
    (i : ℕ)
    → get_elem? half_open.revealed_mask i ≡ some true
    → get_elem? double.blocks i ≡ get_elem? half_open.blocks i
double-open zero shown = refl
double-open (suc zero) shown = absurd (cc)
double-open (suc (suc i)) shown = absurd (cc)

tune_played : IsInPlay playing
unfolding effective_phase
tune_played = (λ same. absurd (cc), λ same. absurd (cc))

captain_plain : IsNoJudge playing 11
unfolding participant_by_user find_first
captain_plain p known active =
    let same : captain_a ≡ p = ground (arith, known) in subst (λ q. q.is_judge ≡ false) same refl

build_view-hides_example :
    build_view pack (record playing { song = some double }) 11
    ≡ build_view pack (record playing { song = some half_open }) 11
build_view-hides_example =
    build_view-hides pack playing 11 half_open double tune_played captain_plain record {
      like_language = refl;
      like_bucket = refl;
      like_steal = refl;
      like_awaiting = refl;
      like_mask = refl;
      like_length = refl;
      like_open = double-open;
    }

team_b_apart : team_b ≢ team_a
team_b_apart same = absurd (cc)

other_captain : IsOutsider judging 12 claimed
unfolding participant_by_user find_first
other_captain p known playing =
    let same : captain_b ≡ p = ground (arith, known) in
    subst (λ q. (q.is_judge ≡ false) × (q.team ≢ claimed.claimant_team)) same (refl, team_b_apart)

build_view-hides_guess_example :
    build_view pack (record judging { pending = some (record claimed { guess_text = 1 ∷ [] }) }) 12
    ≡ build_view pack (record judging { pending = some claimed }) 12
build_view-hides_guess_example =
    build_view-hides_guess pack judging 12 claimed (1 ∷ []) other_captain refl

-- Nobody at the table is the user 99, so nothing is to be shown.
spectator_outside : IsOutsider judging 99 claimed
unfolding participant_by_user find_first
spectator_outside p known playing = absurd (cc)

abbrev key_of : ℕ → PackCacheKey
key_of i = record { pack_id = i; version = 1 }

abbrev load_pack : PackCacheKey → Result Error Pack
load_pack k = ok pack

abbrev one_slot : PackCache
one_slot = new_pack_cache_with_capacity 0

-- A second pack pushes the first one out.
abbrev both : PackCache
both = (insert (key_of 2) pack (insert (key_of 1) pack one_slot).1).1

two_inserts : Steps load_pack one_slot both
two_inserts =
    then_step (then_step none_yet (inserted (key_of 1) pack one_slot refl))
      (inserted (key_of 2) pack (insert (key_of 1) pack one_slot).1 refl)

Steps-IsLru_example : IsLru both
Steps-IsLru_example = Steps-IsLru load_pack 0 both two_inserts

get-load_example : get load_pack (key_of 1) both both ≡ ok pack
unfolding insert lookup find_first push_entry evict_oldest_locked new_pack_cache_with_capacity
get-load_example = get-load load_pack 0 (key_of 1) both both two_inserts none_yet

-- The play without the numbering of the states, which `apply` alone counts up.
abbrev guessed : GameState
guessed = record playing { pending = some claimed; phase = pending_judgement }

guess_alone_runs : apply_guess engine playing 11 (9 ∷ []) ≡ ok (guessed, guess_events)
unfolding apply_guess guess_while apply_guess_from_active require_active_captain require_captain
    seated_actor participant_by_user captain_of find_first trimmed_guess_text claim potential_of
    revealed_count
guess_alone_runs = refl

void_runs : apply_void guessed 10 ≡ ok (playing, decision_voided judge_active_guess team_a ∷ [])
unfolding apply_void require_pending_judgement require_judge seated_actor participant_by_user
    find_first
void_runs = refl

claim-void_restores_example : playing ≡ playing
claim-void_restores_example =
    claim-void_restores engine playing guessed playing 11 10 (9 ∷ []) guess_events
      (decision_voided judge_active_guess team_a ∷ []) playing-IsSound (inl guess_alone_runs)
      void_runs

entry_for-rank_example :
    ((entry_for (score_of won team_a) (score_of won team_b) captain_a).rank ≡ 1)
    ↔ (score_of won team_b ≤ score_of won team_a)
unfolding opponent_of
entry_for-rank_example = entry_for-rank won captain_a refl
