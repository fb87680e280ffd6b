-- ===== src/SongGuess/Moves/Claim.antt =====
-- play.go: the moves that a guess, a steal, a pass and a skip make.
use bgex_backend.SongGuess.Moves.Song.{
  playing_flies, finish_song-Reach, reveal_at-Reach, song_play_awaiting,
}
use bgex_backend.SongGuess.Moves.Same.{prepend-eq-ok, is_song_play-eq, ok_state}
use bgex_backend.SongGuess.Finish.{is_in_flight}
use bgex_backend.SongGuess.State.{
  no_team, awaiting_unspecified, pending_judgement, awaiting_last_chance, awaiting_steal,
  awaiting_active, Awaiting, potential_of, Pending, Event, song_play, Phase, Text, SongState,
  effective_phase, GameState, Engine,
}
use bgex_backend.SongGuess.Play.{
  finish_song, awaiting_of, trimmed_guess_text, apply_pass_from_last_chance, require_host,
  is_song_play, require_opponent_captain, require_active_captain, require_song_play_awaiting,
  apply_pass_from_steal, apply_guess_from_active, apply_guess_from_last_chance, pass_while,
  potential_in, guess_while, is_skippable_phase, apply_pass, apply_steal, claim, apply_skip_song,
  apply_guess,
}
use bgex_backend.Base.{
  [], inl, true, or_raise-eq-ok, or_panic-eq-ok, subst, raise_if-eq-ok, false, >>=-eq-ok, ok, some,
  not, List, ℕ, ◌≡◌, refl,
}
use bgex_backend.Engine.{wrong_phase, illegal_action}
use bgex_backend.SongGuess.Moves.{Reach, once, lodge}
use bgex_backend.SongGuess.Moves.Sound.{IsSound, in_phase}

claim-Reach :
    (gs moved : GameState) (s : SongState) (p : Pending) (events : List Event)
    → gs.phase ≡ song_play
    → gs.song ≡ some s
    → p.potential_at_claim ≡ potential_of s
    → claim gs p ≡ ok (moved, events)
    → Reach gs moved
unfolding claim
claim-Reach gs moved s p events at song worth done =
    subst (Reach gs) (ok_state done) (once (lodge gs s p at song worth))

module _ (e : Engine) (gs moved : GameState) (user : ℕ) (raw : Text) (events : List Event)
    (at : gs.phase ≡ song_play) (s : SongState) (song : gs.song ≡ some s) where
  claimed_potential : potential_in gs.song ≡ potential_of s
  claimed_potential = rw song refl

  guess_from_active-Reach :
      apply_guess_from_active e gs user raw ≡ ok (moved, events) → Reach gs moved
  unfolding apply_guess_from_active
  guess_from_active-Reach done =
      let (actor, captain, step1) = >>=-eq-ok (require_active_captain gs user) _ done in
      let (text, trimmed, step2) = >>=-eq-ok (trimmed_guess_text e raw) _ step1 in
      claim-Reach gs moved s _ events at song claimed_potential step2

  guess_from_last_chance-Reach :
      apply_guess_from_last_chance e gs user raw ≡ ok (moved, events) → Reach gs moved
  unfolding apply_guess_from_last_chance
  guess_from_last_chance-Reach done =
      let (actor, captain, step1) = >>=-eq-ok (require_opponent_captain gs user) _ done in
      let (text, trimmed, step2) = >>=-eq-ok (trimmed_guess_text e raw) _ step1 in
      claim-Reach gs moved s _ events at song claimed_potential step2

  guess_while-Reach :
      (w : Awaiting) → guess_while e gs user raw w ≡ ok (moved, events) → Reach gs moved
  unfolding guess_while
  guess_while-Reach awaiting_active done = guess_from_active-Reach done
  guess_while-Reach awaiting_last_chance done = guess_from_last_chance-Reach done
  guess_while-Reach awaiting_steal done = absurd (cc)
  guess_while-Reach awaiting_unspecified done = absurd (cc)

  pass_while-Reach : (w : Awaiting) → pass_while gs user w ≡ ok (moved, events) → Reach gs moved
  unfolding pass_while apply_pass_from_steal apply_pass_from_last_chance
  pass_while-Reach awaiting_steal done =
      let (actor, captain, step1) = >>=-eq-ok (require_opponent_captain gs user) _ done in
      let (found, there, step2) = or_raise-eq-ok gs.song illegal_action _ step1 in
      reveal_at-Reach gs moved found.steal_window_index _ events at step2
  pass_while-Reach awaiting_last_chance done =
      let (actor, captain, step1) = >>=-eq-ok (require_opponent_captain gs user) _ done in
      finish_song-Reach gs moved s no_team 0 false events (playing_flies gs at) song (inl refl)
        step1
  pass_while-Reach awaiting_active done = absurd (cc)
  pass_while-Reach awaiting_unspecified done = absurd (cc)

-- A sound state in play has a song.
pub song_in_play :
    (gs : GameState) → gs.phase ≡ song_play → IsSound gs → (s : SongState) × (gs.song ≡ some s)
song_in_play gs at sound =
    let (s, song, masked, no_claim) = in_phase gs song_play at sound in (s, song)

pub apply_guess-Reach :
    (e : Engine) (gs moved : GameState) (user : ℕ) (raw : Text) (events : List Event)
    → IsSound gs
    → apply_guess e gs user raw ≡ ok (moved, events)
    → Reach gs moved
unfolding apply_guess
apply_guess-Reach e gs moved user raw events sound done =
    let (playing, step1) = raise_if-eq-ok (not (is_song_play gs.phase)) wrong_phase _ done in
    let at = is_song_play-eq gs.phase playing in
    let (s, song) = song_in_play gs at sound in
    guess_while-Reach e gs moved user raw events at s song (awaiting_of gs.song) step1

pub apply_pass-Reach :
    (e : Engine) (gs moved : GameState) (user : ℕ) (events : List Event)
    → IsSound gs
    → apply_pass gs user ≡ ok (moved, events)
    → Reach gs moved
unfolding apply_pass
apply_pass-Reach e gs moved user events sound done =
    let (playing, step1) = raise_if-eq-ok (not (is_song_play gs.phase)) wrong_phase _ done in
    let at = is_song_play-eq gs.phase playing in
    let (s, song) = song_in_play gs at sound in
    pass_while-Reach e gs moved user [] events at s song (awaiting_of gs.song) step1

pub apply_steal-Reach :
    (e : Engine) (gs moved : GameState) (user : ℕ) (raw : Text) (events : List Event)
    → apply_steal e gs user raw ≡ ok (moved, events)
    → Reach gs moved
unfolding apply_steal
apply_steal-Reach e gs moved user raw events done =
    let (passed, gate, step1) = >>=-eq-ok (require_song_play_awaiting gs awaiting_steal) _ done in
    let (actor, captain, step2) = >>=-eq-ok (require_opponent_captain gs user) _ step1 in
    let (s, song, step3) = or_raise-eq-ok gs.song illegal_action _ step2 in
    let (allowed, step4) = raise_if-eq-ok (not s.steal_allowed) illegal_action _ step3 in
    let (text, trimmed, step5) = >>=-eq-ok (trimmed_guess_text e raw) _ step4 in
    claim-Reach gs moved s _ events (song_play_awaiting gs awaiting_steal passed gate) song refl
      step5

pub skippable_flies :
    (gs : GameState) (ph : Phase)
    → gs.phase ≡ ph
    → not (is_skippable_phase ph) ≡ false
    → is_in_flight (effective_phase gs) ≡ true
unfolding effective_phase
skippable_flies gs song_play at h = rw at refl
skippable_flies gs pending_judgement at h = rw at refl
skippable_flies gs Phase.unspecified at h = absurd (cc)
skippable_flies gs Phase.roster at h = absurd (cc)
skippable_flies gs Phase.round_select at h = absurd (cc)
skippable_flies gs Phase.song_result at h = absurd (cc)
skippable_flies gs Phase.judge_vacant at h = absurd (cc)
skippable_flies gs Phase.finished at h = absurd (cc)

pub apply_skip_song-Reach :
    (gs moved : GameState) (user : ℕ) (events : List Event)
    → apply_skip_song gs user ≡ ok (moved, events)
    → Reach gs moved
unfolding apply_skip_song
apply_skip_song-Reach gs moved user events done =
    let (actor, host, step1) = >>=-eq-ok (require_host gs user) _ done in
    let (able, step2) = raise_if-eq-ok (not (is_skippable_phase gs.phase)) wrong_phase _ step1 in
    let (s, song, step3) = or_panic-eq-ok gs.song _ step2 in
    let (late, step4) = prepend-eq-ok _ (finish_song gs no_team 0 true) step3 in
    finish_song-Reach gs moved s no_team 0 true late (skippable_flies gs gs.phase refl able) song
      (inl refl) step4
