-- ===== src/SongGuess/Moves/Leave.antt =====
-- scoring.go: the moves that a resignation and the end of the game make.
use bgex_backend.SongGuess.Moves.Song.{finish_song_state}
use bgex_backend.SongGuess.Moves.Same.{
  SameSong-refl, ok_state, prepend-eq-ok, move_host-SameCore, replace_captain-SameCore,
  write_participant-SameCore, SameCore-trans,
}
use bgex_backend.SongGuess.Apply.{is_finished}
use bgex_backend.SongGuess.Play.{finished_state, finish_song, seated_actor}
use bgex_backend.SongGuess.Finish.{
  close_game, is_in_flight, replace_captain, terminal_condition, gone, finalize, vacate_judge,
  depart, apply_resign, finish_if_terminal,
}
use bgex_backend.SongGuess.State.{
  SongState, no_team, is_host_seat, song_result, pending_judgement, song_play, round_select,
  holds_judgeship, effective_phase, has_user, write_participant, judge_vacant, participant_by_user,
  Event, Participant, GameState, judge_of, Phase,
}
use bgex_backend.Base.{
  ◌∙◌, ap, subst, inr, inl, if◌then◌else◌, not, [], >>=-eq-ok, raise_if-eq-ok, arith,
  or_raise-eq-ok, Bool-cases, ◌∷◌, some, ok, false, none, true, List, Option, Bool, find_first, ℕ,
  ◌≡◌, refl,
}
use bgex_backend.Engine.{not_seated, illegal_action}
use bgex_backend.SongGuess.Moves.{
  finish, Move, here, park, stay, after, Reach-trans, is_resumable, Reach, once, close,
}
use bgex_backend.SongGuess.Moves.Sound.{
  landed_claim, flying_song, Reach-IsSound, effective-Fits, IsSound,
}

-- After its song has ended, the game can close.
finished_song_closes :
    (gs : GameState) (s : SongState)
    → Move (finished_state gs s no_team 0 true) (close_game (finished_state gs s no_team 0 true))
unfolding finished_state effective_phase
finished_song_closes gs s = close (finished_state gs s no_team 0 true) refl refl

pub finalize-Reach :
    (gs moved : GameState) (events : List Event)
    → IsSound gs
    → finalize gs ≡ ok (moved, events)
    → Reach gs moved
unfolding finalize
finalize-Reach gs moved events sound done =
    let fits = effective-Fits gs gs.phase refl sound in
    let ph = effective_phase gs in
    let ((ended, late), ran, step1) =
      >>=-eq-ok (if is_in_flight ph then finish_song gs no_team 0 true else ok (gs, [])) _ done in
    elim (Bool-cases (is_in_flight ph)) [
      | inl flying ↦
          let (s, song) = flying_song ph gs.song gs.pending fits flying in
          let same =
            finish_song_state gs ended s no_team 0 true late song (ground (arith, flying, ran)) in
          subst (Reach gs) (ap close_game same ∙ ok_state step1) (
            after (once (finish gs s s no_team 0 true flying song (SameSong-refl s) (inl refl)))
              (finished_song_closes gs s))
      | inr landed ↦
          let same = ok_state {before = []} {events = late} (ground (arith, landed, ran)) in
          subst (Reach gs) (ap close_game same ∙ ok_state step1)
            (once (close gs landed (landed_claim ph gs.song gs.pending fits landed)))
    ]

pub finish_if_terminal-Reach :
    (gs moved : GameState) (before events : List Event)
    → IsSound gs
    → finish_if_terminal gs before ≡ ok (moved, events)
    → Reach gs moved
unfolding finish_if_terminal
finish_if_terminal-Reach gs moved before events sound done =
    elim (Bool-cases (terminal_condition gs)) [
      | inl over ↦
          let (late, step1) =
            prepend-eq-ok before (finalize gs) {moved = moved} {events = events}
              (ground (arith, over, done)) in
          finalize-Reach gs moved late sound step1
      | inr goes_on ↦
          let same : gs ≡ moved =
            ok_state {before = before} {events = events} (ground (arith, goes_on, done)) in
          subst (Reach gs) same here
    ]

-- A judge who leaves parks the game.
vacate_judge-Reach :
    (p : Participant) (gs : GameState)
    → (p.is_judge ≡ true → is_resumable gs.phase ≡ true)
    → Reach gs (vacate_judge p gs).0
unfolding vacate_judge
vacate_judge-Reach p gs able = elim (Bool-cases p.is_judge) [
  | inl judge ↦ rw judge (once (park gs (able judge)))
  | inr player ↦ rw player here
]

pub depart-Reach :
    (p : Participant) (gs : GameState)
    → (p.is_judge ≡ true → is_resumable gs.phase ≡ true)
    → Reach gs (depart p gs).0
unfolding depart
depart-Reach p gs able =
    let without = write_participant (gone p) gs in
    let captained = (replace_captain p without).0 in
    let same =
      SameCore-trans gs without captained (write_participant-SameCore (gone p) gs)
        (replace_captain-SameCore p without) in
    let judged = (vacate_judge p captained).0 in
    after
      (Reach-trans (once (stay same))
        (vacate_judge-Reach p captained (λ judge. rw same.same_phase (able judge))))
      (stay (move_host-SameCore (is_host_seat gs p.seat_index) judged))

-- While the judgeship is vacant, nobody holds it.
abbrev pub IsUnjudgedIn : Phase → Option Participant → Type 0
IsUnjudgedIn judge_vacant judge = judge ≡ none
IsUnjudgedIn _ judge = Unit

abbrev pub IsUnjudged : GameState → Type 0
IsUnjudged gs = IsUnjudgedIn gs.phase (judge_of gs)

-- Nobody passes a test that nobody was found to pass.
find_first-none {ℓ} :
    {A : Type ℓ} (test other : A → Bool) (xs : List A) (a : A)
    → find_first test xs ≡ none
    → find_first other xs ≡ some a
    → test a ≡ false
unfolding find_first
find_first-none test other [] a no_one found = absurd (cc)
find_first-none test other (x ∷ xs) a no_one found = ground (arith, find_first-none test other xs a)

pub judge_resumable :
    (gs : GameState) (user : ℕ) (ph : Phase) (p : Participant)
    → is_finished ph ≡ false
    → IsUnjudgedIn ph (judge_of gs)
    → find_first (has_user user) gs.participants ≡ some p
    → p.is_judge ≡ true
    → is_resumable ph ≡ true
unfolding judge_of
judge_resumable gs user judge_vacant p running unjudged found judge =
    absurd
      (ground (arith, find_first-none holds_judgeship _ gs.participants p unjudged found, judge))
judge_resumable gs user Phase.finished p running unjudged found judge = absurd (cc)
judge_resumable gs user Phase.unspecified p running unjudged found judge = refl
judge_resumable gs user Phase.roster p running unjudged found judge = refl
judge_resumable gs user round_select p running unjudged found judge = refl
judge_resumable gs user song_play p running unjudged found judge = refl
judge_resumable gs user pending_judgement p running unjudged found judge = refl
judge_resumable gs user song_result p running unjudged found judge = refl

pub apply_resign-Reach :
    (gs moved : GameState) (user : ℕ) (events : List Event)
    → IsSound gs
    → IsUnjudged gs
    → is_finished gs.phase ≡ false
    → apply_resign gs user ≡ ok (moved, events)
    → Reach gs moved
unfolding apply_resign seated_actor participant_by_user
apply_resign-Reach gs moved user events sound unjudged running done =
    let (p, found, step1) = or_raise-eq-ok (participant_by_user gs user) not_seated _ done in
    let (active, step2) = raise_if-eq-ok (not p.active) illegal_action _ step1 in
    let left = depart p gs in
    let path = depart-Reach p gs (judge_resumable gs user gs.phase p running unjudged found) in
    Reach-trans path
      (finish_if_terminal-Reach left.0 moved left.1 events (Reach-IsSound path sound) step2)
