-- ===== src/SongGuess/Moves/Undo.antt =====
-- judge.go and play.go: a claim that is discarded has changed nothing.
use bgex_backend.SongGuess.Moves.Same.{ok_state, raise_if_passed, is_song_play-eq}
use bgex_backend.SongGuess.Judge.{require_judge, require_pending_judgement, apply_void}
use bgex_backend.SongGuess.State.{
  awaiting_last_chance, awaiting_active, pending_judgement, Pending, awaiting_unspecified,
  awaiting_steal, Text, Event, song_play, Engine, SongState, Awaiting, GameState,
}
use bgex_backend.SongGuess.Play.{
  require_active_captain, apply_guess_from_last_chance, trimmed_guess_text, apply_guess_from_active,
  require_opponent_captain, guess_while, claim, is_song_play, awaiting_of, same_awaiting,
  require_song_play_awaiting, apply_guess, apply_steal,
}
use bgex_backend.Base.{
  false, List, not, ℕ, ◌≡◌, ◌∙◌, refl, sym, ap, subst, some, none, inl, inr, ◌⊎◌, ok, >>=-eq-ok,
  raise_if-eq-ok, or_raise-eq-ok, or_panic-eq-ok,
}
use bgex_backend.Engine.{illegal_action, wrong_phase}
use bgex_backend.SongGuess.Moves.Sound.{IsSound, in_phase}

-- A claim taken back leaves the fields as they were.
restored :
    (gs : GameState) (s : SongState) (w : Awaiting)
    → gs.phase ≡ song_play
    → gs.song ≡ some s
    → s.awaiting ≡ w
    → gs.pending ≡ none
    → record gs { phase = song_play; song = some (record s { awaiting = w }); pending = none } ≡ gs
restored gs s w at song waits no_claim =
    let same : some (record s { awaiting = w }) ≡ gs.song =
      ap (λ v. some (record s { awaiting = v })) (sym waits) ∙ sym song in
    ap (λ ph. record gs { phase = ph; song = some (record s { awaiting = w }); pending = none })
      (sym at)
    ∙ ap (λ o. record gs { song = o; pending = none }) same
    ∙ ap (λ c. record gs { pending = c }) (sym no_claim)

module _ (gs mid back : GameState) (judge : ℕ) (events late : List Event)
    (at : gs.phase ≡ song_play) (s : SongState) (song : gs.song ≡ some s)
    (no_claim : gs.pending ≡ none) (voided : apply_void mid judge ≡ ok (back, late)) where
  claim-void :
      (p : Pending) → s.awaiting ≡ p.resume_awaiting → claim gs p ≡ ok (mid, events) → back ≡ gs
  unfolding claim apply_void
  claim-void p waits done =
      let claimed : GameState = record gs { pending = some p; phase = pending_judgement } in
      let same : claimed ≡ mid = ok_state done in
      let voided_claim = subst (λ x. apply_void x judge ≡ ok (back, late)) (sym same) voided in
      let (passed, gate, step1) = >>=-eq-ok (require_pending_judgement claimed) _ voided_claim in
      let (actor, judging, step2) = >>=-eq-ok (require_judge claimed judge) _ step1 in
      let (t, there, step3) = or_panic-eq-ok gs.song _ step2 in
      let songs : t ≡ s = cc in
      let waits_t : t.awaiting ≡ p.resume_awaiting = ap (λ x. x.awaiting) songs ∙ waits in
      sym (ok_state step3) ∙ restored gs t p.resume_awaiting at there waits_t no_claim

  guess_while-void :
      (e : Engine) (user : ℕ) (raw : Text) (w : Awaiting)
      → s.awaiting ≡ w
      → guess_while e gs user raw w ≡ ok (mid, events)
      → back ≡ gs
  unfolding guess_while apply_guess_from_active apply_guess_from_last_chance
  guess_while-void e user raw awaiting_active waits done =
      let (actor, captain, step1) = >>=-eq-ok (require_active_captain gs user) _ done in
      let (text, trimmed, step2) = >>=-eq-ok (trimmed_guess_text e raw) _ step1 in
      claim-void _ waits step2
  guess_while-void e user raw awaiting_last_chance waits done =
      let (actor, captain, step1) = >>=-eq-ok (require_opponent_captain gs user) _ done in
      let (text, trimmed, step2) = >>=-eq-ok (trimmed_guess_text e raw) _ step1 in
      claim-void _ waits step2
  guess_while-void e user raw awaiting_steal waits done = absurd (cc)
  guess_while-void e user raw awaiting_unspecified waits done = absurd (cc)

  steal-void :
      (e : Engine) (user : ℕ) (raw : Text)
      → s.awaiting ≡ awaiting_steal
      → apply_steal e gs user raw ≡ ok (mid, events)
      → back ≡ gs
  unfolding apply_steal
  steal-void e user raw waits done =
      let (passed, gate, step1) = >>=-eq-ok (require_song_play_awaiting gs awaiting_steal) _ done in
      let (actor, captain, step2) = >>=-eq-ok (require_opponent_captain gs user) _ step1 in
      let (t, there, step3) = or_raise-eq-ok gs.song illegal_action _ step2 in
      let (allowed, step4) = raise_if-eq-ok (not t.steal_allowed) illegal_action _ step3 in
      let (text, trimmed, step5) = >>=-eq-ok (trimmed_guess_text e raw) _ step4 in
      claim-void _ waits step5

same_awaiting-eq :
    (a : Awaiting) → not (same_awaiting a awaiting_steal) ≡ false → a ≡ awaiting_steal
same_awaiting-eq awaiting_steal same = refl
same_awaiting-eq awaiting_unspecified same = absurd (cc)
same_awaiting-eq awaiting_active same = absurd (cc)
same_awaiting-eq awaiting_last_chance same = absurd (cc)

steal_guard :
    (e : Engine) (gs mid : GameState) (user : ℕ) (raw : Text) (events : List Event)
    → apply_steal e gs user raw ≡ ok (mid, events)
    → (gs.phase ≡ song_play) × (awaiting_of gs.song ≡ awaiting_steal)
unfolding apply_steal require_song_play_awaiting
steal_guard e gs mid user raw events done =
    let (passed, gate, step1) = >>=-eq-ok (require_song_play_awaiting gs awaiting_steal) _ done in
    let (playing, step2) = raise_if-eq-ok (not (is_song_play gs.phase)) wrong_phase _ gate in
    let open_window =
      raise_if_passed (not (same_awaiting (awaiting_of gs.song) awaiting_steal)) wrong_phase
        step2 in
    (is_song_play-eq gs.phase playing, same_awaiting-eq (awaiting_of gs.song) open_window)

-- A guess or a steal that the judge discards leaves the game as it was before, if it was sound.
pub claim-void_restores :
    (e : Engine) (gs mid back : GameState) (user judge : ℕ) (raw : Text) (events late : List Event)
    → IsSound gs
    → (apply_guess e gs user raw ≡ ok (mid, events))
      ⊎ (apply_steal e gs user raw ≡ ok (mid, events))
    → apply_void mid judge ≡ ok (back, late)
    → back ≡ gs
unfolding apply_guess
claim-void_restores e gs mid back user judge raw events late sound (inl done) voided =
    let (playing, step1) = raise_if-eq-ok (not (is_song_play gs.phase)) wrong_phase _ done in
    let at = is_song_play-eq gs.phase playing in
    let (s, song, masked, no_claim) = in_phase gs song_play at sound in
    guess_while-void gs mid back judge events late at s song no_claim voided e user raw
      (awaiting_of gs.song) (rw song refl) step1
claim-void_restores e gs mid back user judge raw events late sound (inr done) voided =
    let (at, waits) = steal_guard e gs mid user raw events done in
    let (s, song, masked, no_claim) = in_phase gs song_play at sound in
    steal-void gs mid back judge events late at s song no_claim voided e user raw
      (subst (λ o. awaiting_of o ≡ awaiting_steal) song waits) done
