-- ===== src/SongGuess/Moves/Song.antt =====
-- play.go: the moves that the handlers of a song make.
use bgex_backend.SongGuess.Judge.{reveal_owed}
use bgex_backend.SongGuess.Moves.Same.{
  SameSong-refl, raise_if_passed, prepend-eq-ok, ok_state, is_song_play-eq,
}
use bgex_backend.SongGuess.Finish.{is_in_flight}
use bgex_backend.SongGuess.State.{
  song_finished, steal_window_opened, Team, awaiting_steal, no_team, SongState, revealed_count,
  GameState, potential_of, awaiting_active, song_play, Awaiting, Event, effective_phase,
}
use bgex_backend.SongGuess.Play.{
  outcome_of, require_active_captain, open_at, is_song_play, finished_state, open_steal_window,
  require_closed, finish_song, reveal_at, require_song_play_awaiting, apply_open_block,
  after_reveal,
}
use bgex_backend.Base.{
  ◌⊎◌, ℕ, ◌≡◌, refl, ap, subst, Bool, true, false, not, ◌&&◌, inl, inr, Option, none, some, List,
  [], ◌∷◌, Bool-cases, ok, >>=-eq-ok, raise_if-eq-ok, or_raise-eq-ok, or_panic-eq-ok, arith,
  get_elem?, ltb, ◌==◌,
}
use bgex_backend.Engine.{wrong_phase, illegal_action}
use bgex_backend.SongGuess.Moves.{Reach, once, finish, reveal, adjust, after, Reach-trans}

pub finish_song_state :
    (gs moved : GameState) (t : SongState) (awarded : Team) (points : ℕ) (skipped : Bool)
    (events : List Event)
    → gs.song ≡ some t
    → finish_song gs awarded points skipped ≡ ok (moved, events)
    → finished_state gs t awarded points skipped ≡ moved
unfolding finish_song
finish_song_state gs moved t awarded points skipped events song done =
    ok_state {before = song_finished (outcome_of gs.active_team awarded points skipped t) ∷ []}
      {events = events} (ground (arith, song, done))

-- A song that is finished as it stands.
pub finish_song-Reach :
    (gs moved : GameState) (s : SongState) (awarded : Team) (points : ℕ) (skipped : Bool)
    (events : List Event)
    → is_in_flight (effective_phase gs) ≡ true
    → gs.song ≡ some s
    → ((points ≡ 0) ⊎ (points ≡ potential_of s))
    → finish_song gs awarded points skipped ≡ ok (moved, events)
    → Reach gs moved
finish_song-Reach gs moved s awarded points skipped events flying song worth done =
    subst (Reach gs) (finish_song_state gs moved s awarded points skipped events song done)
      (once (finish gs s s awarded points skipped flying song (SameSong-refl s) worth))

-- The phase of a song in play is its own.
pub playing_flies :
    (gs : GameState) → gs.phase ≡ song_play → is_in_flight (effective_phase gs) ≡ true
unfolding effective_phase
playing_flies gs at = rw at refl

after_reveal-Reach :
    (gs moved : GameState) (s : SongState) (index : ℕ) (events : List Event)
    → gs.phase ≡ song_play
    → gs.song ≡ some s
    → get_elem? s.revealed_mask index ≡ some false
    → after_reveal gs (open_at index s) ≡ ok (moved, events)
    → Reach gs moved
unfolding after_reveal
after_reveal-Reach gs moved s index events at song closed done =
    let opened = open_at index s in
    let mid : GameState = record gs { song = some opened } in
    let opening : Reach gs mid = once (reveal gs s index at song closed) in
    elim (Bool-cases (potential_of opened == 0)) [
      | inl spent ↦ Reach-trans opening (
          finish_song-Reach mid moved opened no_team 0 false events (playing_flies mid at) refl
            (inl refl) (ground (arith, spent, done)))
      | inr left ↦
          let turned = record opened { awaiting = awaiting_active } in
          let ended : record mid { song = some turned } ≡ moved =
            ok_state {before = []} {events = events} (ground (arith, left, done)) in
          subst (Reach gs) ended (
            after opening (
              adjust mid opened turned at refl
                record { same_id = refl; same_blocks = refl; same_mask = refl }))
    ]

pub reveal_at-Reach :
    (gs moved : GameState) (index : ℕ) (before events : List Event)
    → gs.phase ≡ song_play
    → reveal_at gs index before ≡ ok (moved, events)
    → Reach gs moved
unfolding reveal_at require_closed
reveal_at-Reach gs moved index before events at done =
    let (s, song, step1) = or_raise-eq-ok gs.song illegal_action _ done in
    let (passed, gate, step2) = >>=-eq-ok (require_closed s index) _ step1 in
    let (shut, found, gate1) =
      or_raise-eq-ok (get_elem? s.revealed_mask index) illegal_action _ gate in
    let closed = raise_if_passed shut illegal_action gate1 in
    let (text, block, step3) = or_panic-eq-ok (get_elem? s.blocks index) _ step2 in
    let (late, step4) = prepend-eq-ok _ (after_reveal gs (open_at index s)) step3 in
    after_reveal-Reach gs moved s index late at song (rw found (ap some closed)) step4

pub song_play_awaiting :
    (gs : GameState) (want : Awaiting) (passed : Unit {0})
    → require_song_play_awaiting gs want ≡ ok passed
    → gs.phase ≡ song_play
unfolding require_song_play_awaiting
song_play_awaiting gs want passed gate =
    is_song_play-eq gs.phase (raise_if-eq-ok (not (is_song_play gs.phase)) wrong_phase _ gate).0

pub apply_open_block-Reach :
    (gs moved : GameState) (user index : ℕ) (events : List Event)
    → apply_open_block gs user index ≡ ok (moved, events)
    → Reach gs moved
unfolding apply_open_block open_steal_window
apply_open_block-Reach gs moved user index events done =
    let (p1, gate, step1) = >>=-eq-ok (require_song_play_awaiting gs awaiting_active) _ done in
    let (actor, captain, step2) = >>=-eq-ok (require_active_captain gs user) _ step1 in
    let (s, song, step3) = or_raise-eq-ok gs.song illegal_action _ step2 in
    let (p2, closed, step4) = >>=-eq-ok (require_closed s index) _ step3 in
    let (worth, step5) = raise_if-eq-ok (potential_of s == 0) illegal_action _ step4 in
    let at = song_play_awaiting gs awaiting_active p1 gate in
    elim (Bool-cases (s.steal_allowed && ltb 0 (revealed_count s))) [
      | inl offered ↦
          let stolen = record s { awaiting = awaiting_steal; steal_window_index = index } in
          let ended : record gs { song = some stolen } ≡ moved =
            ok_state {before = steal_window_opened (potential_of s) ∷ []} {events = events}
              (ground (arith, offered, step5)) in
          subst (Reach gs) ended (
            once (
              adjust gs s stolen at song
                record { same_id = refl; same_blocks = refl; same_mask = refl }))
      | inr uncontested ↦
          reveal_at-Reach gs moved index [] events at (ground (arith, uncontested, step5))
    ]

-- The reveal that a failed steal owes.
pub reveal_owed-Reach :
    (gs moved : GameState) (index : Option ℕ) (before events : List Event)
    → gs.phase ≡ song_play
    → reveal_owed gs index before ≡ ok (moved, events)
    → Reach gs moved
unfolding reveal_owed
reveal_owed-Reach gs moved none before events at done = absurd (cc)
reveal_owed-Reach gs moved (some index) before events at done =
    reveal_at-Reach gs moved index before events at done
