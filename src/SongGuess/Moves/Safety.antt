-- ===== src/SongGuess/Moves/Safety.antt =====
-- The handlers of a song and of the roster do not panic where a song is there.
use bgex_backend.SongGuess.Finish.{is_in_flight, finish_if_terminal, finalize}
use bgex_backend.SongGuess.Judge.{
  pending_or_zero, require_judge, apply_judge_last_chance_incorrect, reveal_owed,
  require_pending_judgement, apply_judge_active_guess_incorrect, award_points, apply_judge_result,
  judge_incorrect, apply_judge_steal_incorrect, apply_void,
}
use bgex_backend.SongGuess.State.{
  judge_unspecified, opponent_of, judge_last_chance, steal_locked_out, steal_passed, judge_steal,
  judged, no_team, song_play, judge_active_guess, effective_phase, Pending, JudgeKind,
  block_revealed, Outcome, Event, SongState, Text, WireTeam, Engine, Team, GameState,
}
use bgex_backend.SongGuess.Play.{
  trimmed_guess_text, apply_pass_from_last_chance, apply_guess_from_last_chance,
  apply_guess_from_active, require_opponent_captain, apply_pass_from_steal, pass_while, guess_while,
  claim, apply_guess, apply_skip_song, apply_pass, apply_steal, open_at, open_steal_window,
  require_active_captain, require_closed, require_song_play_awaiting, finish_song, after_reveal,
  finish_song_with_guess, reveal_at, apply_open_block, prepend, seated_actor, require_host,
  require_captain,
}
use bgex_backend.SongGuess.Roster.{
  starting_team, require_team, validate_roster_for_begin_game, active_target, playing_team,
  require_roster_phase, roster_host_guard, apply_assign_captain, apply_begin_game,
  apply_assign_team, apply_set_team_name,
}
use bgex_backend.Base.{
  Bool-cases, ◌++◌, zero, inr, [], suc, inl, Option-cases, ◌∷◌, get_elem?, length, List, panic,
  none, ◌>>=◌, err, or_panic, or_raise, some, ok, Result, raise_if, Option, ℕ, ◌≡◌, refl, arith,
  Bool, true, false,
}
use bgex_backend.Engine.{Error}
use bgex_backend.SongGuess.Moves.Sound.{flying_song, effective-Fits, IsMasked, IsSound}

abbrev pub is_panic {ℓ} : {A : Type ℓ} → Result Error A → Bool
is_panic (ok a) = false
is_panic (err e) = false
is_panic panic = true

pub >>=-is_panic {ℓ κ} :
    {A : Type ℓ} {B : Type κ} (r : Result Error A) (next : A → Result Error B)
    → is_panic r ≡ false
    → ((a : A) → r ≡ ok a → is_panic (next a) ≡ false)
    → is_panic (r >>= next) ≡ false
>>=-is_panic (ok a) next safe rest = rest a refl
>>=-is_panic (err e) next safe rest = refl
>>=-is_panic panic next safe rest = absurd (cc)

raise_if-is_panic : (b : Bool) (e : Error) → is_panic (raise_if b e) ≡ false
raise_if-is_panic true e = refl
raise_if-is_panic false e = refl

or_raise-is_panic {ℓ} : {A : Type ℓ} (o : Option A) (e : Error) → is_panic (or_raise o e) ≡ false
or_raise-is_panic none e = refl
or_raise-is_panic (some a) e = refl

or_panic-is_panic {ℓ} :
    {A : Type ℓ} (o : Option A) (a : A) → o ≡ some a → is_panic (or_panic o) ≡ false
or_panic-is_panic o a there = rw there refl

pub require_captain-is_panic :
    (gs : GameState) (user : ℕ) (t : Team) → is_panic (require_captain gs user t) ≡ false
unfolding require_captain seated_actor
require_captain-is_panic gs user t = ground arith

pub require_host-is_panic : (gs : GameState) (user : ℕ) → is_panic (require_host gs user) ≡ false
unfolding require_host seated_actor
require_host-is_panic gs user = ground arith

pub apply_assign_team-is_panic :
    (gs : GameState) (user seat : ℕ) (w : WireTeam)
    → is_panic (apply_assign_team gs user seat w) ≡ false
unfolding apply_assign_team roster_host_guard require_host seated_actor require_roster_phase
    active_target
apply_assign_team-is_panic gs user seat w = ground arith

pub apply_assign_captain-is_panic :
    (gs : GameState) (user seat : ℕ) → is_panic (apply_assign_captain gs user seat) ≡ false
unfolding apply_assign_captain roster_host_guard require_host seated_actor require_roster_phase
    active_target
apply_assign_captain-is_panic gs user seat = ground arith

pub apply_begin_game-is_panic :
    (gs : GameState) (user : ℕ) (w : WireTeam) → is_panic (apply_begin_game gs user w) ≡ false
unfolding apply_begin_game roster_host_guard require_host seated_actor require_roster_phase
    active_target validate_roster_for_begin_game require_team starting_team playing_team
apply_begin_game-is_panic gs user w = ground arith

pub apply_set_team_name-is_panic :
    (e : Engine) (gs : GameState) (user : ℕ) (w : WireTeam) (raw : Text)
    → is_panic (apply_set_team_name e gs user w raw) ≡ false
unfolding apply_set_team_name roster_host_guard require_host seated_actor require_roster_phase
    playing_team
apply_set_team_name-is_panic e gs user w raw = ground arith

finish_song-is_panic :
    (gs : GameState) (s : SongState) (awarded : Team) (points : ℕ) (skipped : Bool)
    → gs.song ≡ some s
    → is_panic (finish_song gs awarded points skipped) ≡ false
unfolding finish_song
finish_song-is_panic gs s awarded points skipped song = ground (arith, song)

finish_song_with_guess-is_panic :
    (gs : GameState) (s : SongState) (awarded : Team) (points : ℕ) (skipped : Bool) (text : Text)
    → gs.song ≡ some s
    → is_panic (finish_song_with_guess gs awarded points skipped text) ≡ false
unfolding finish_song_with_guess finish_song
finish_song_with_guess-is_panic gs s awarded points skipped text song = ground (arith, song)

prepend-is_panic :
    (before : List Event) (out : Outcome)
    → is_panic out ≡ false
    → is_panic (prepend before out) ≡ false
unfolding prepend
prepend-is_panic before (ok a) safe = refl
prepend-is_panic before (err e) safe = refl
prepend-is_panic before panic safe = absurd (cc)

-- An entry of a mask has a block.
block_at :
    {A : Type 0} {B : Type 0} (mask : List A) (blocks : List B) (i : ℕ) (m : A)
    → length mask ≡ length blocks
    → get_elem? mask i ≡ some m
    → (b : B) × (get_elem? blocks i ≡ some b)
block_at [] blocks i m same there = absurd (cc)
block_at (x ∷ xs) [] i m same there = absurd (omega (arith, same))
block_at (x ∷ xs) (b ∷ bs) zero m same there = (b, refl)
block_at (x ∷ xs) (b ∷ bs) (suc i) m same there = block_at xs bs i m (omega (arith, same)) there

after_reveal-is_panic : (gs : GameState) (s : SongState) → is_panic (after_reveal gs s) ≡ false
unfolding after_reveal finish_song
after_reveal-is_panic gs s = ground arith

reveal_at-is_panic :
    (gs : GameState) (s : SongState) (index : ℕ) (before : List Event)
    → gs.song ≡ some s
    → IsMasked s
    → is_panic (reveal_at gs index before) ≡ false
unfolding reveal_at require_closed
reveal_at-is_panic gs s index before song masked =
    elim (Option-cases (get_elem? s.revealed_mask index)) [
      | inl absent ↦ ground (arith, song, absent)
      | inr (shut, there) ↦
          let (text, block) = block_at s.revealed_mask s.blocks index shut masked there in
          let safe =
            prepend-is_panic (before ++ block_revealed index text ∷ [])
              (after_reveal gs (open_at index s)) (after_reveal-is_panic gs (open_at index s)) in
          ground (arith, song, there, block, safe)
    ]

pub apply_open_block-is_panic :
    (gs : GameState) (s : SongState) (user index : ℕ)
    → gs.song ≡ some s
    → IsMasked s
    → is_panic (apply_open_block gs user index) ≡ false
unfolding apply_open_block require_song_play_awaiting require_active_captain require_captain
    seated_actor require_closed open_steal_window
apply_open_block-is_panic gs s user index song masked =
    ground (arith, song, reveal_at-is_panic gs s index [] song masked)

pub apply_guess-is_panic :
    (e : Engine) (gs : GameState) (user : ℕ) (raw : Text)
    → is_panic (apply_guess e gs user raw) ≡ false
unfolding apply_guess guess_while apply_guess_from_active apply_guess_from_last_chance claim
    require_active_captain require_opponent_captain require_captain seated_actor trimmed_guess_text
apply_guess-is_panic e gs user raw = ground arith

pub apply_steal-is_panic :
    (e : Engine) (gs : GameState) (user : ℕ) (raw : Text)
    → is_panic (apply_steal e gs user raw) ≡ false
unfolding apply_steal claim require_song_play_awaiting require_opponent_captain require_captain
    seated_actor trimmed_guess_text
apply_steal-is_panic e gs user raw = ground arith

module _ (gs : GameState) (s : SongState) (song : gs.song ≡ some s) where
  pub apply_pass-is_panic : (user : ℕ) → IsMasked s → is_panic (apply_pass gs user) ≡ false
  unfolding apply_pass pass_while apply_pass_from_steal apply_pass_from_last_chance
      require_opponent_captain require_captain seated_actor
  apply_pass-is_panic user masked = ground (
    arith,
    song,
    finish_song-is_panic gs s no_team 0 false song,
    reveal_at-is_panic gs s s.steal_window_index (steal_passed (opponent_of gs.active_team) ∷ [])
        song masked,
  )

  pub apply_skip_song-is_panic : (user : ℕ) → is_panic (apply_skip_song gs user) ≡ false
  unfolding apply_skip_song require_host seated_actor finish_song prepend
  apply_skip_song-is_panic user = ground (arith, song)

  award_points-is_panic :
      (kind : JudgeKind) (t : Team) (points : ℕ) (text : Text)
      → is_panic (award_points gs kind t points text) ≡ false
  unfolding award_points finish_song_with_guess finish_song
  award_points-is_panic kind t points text = ground (arith, song)

  apply_judge_steal_incorrect-is_panic :
      (p : Pending) → IsMasked s → is_panic (apply_judge_steal_incorrect gs p) ≡ false
  unfolding apply_judge_steal_incorrect reveal_owed
  apply_judge_steal_incorrect-is_panic p masked =
      let locked = record s { steal_allowed = false } in
      let mid : GameState = record gs { phase = song_play; pending = none; song = some locked } in
      elim (Option-cases p.owed_reveal_index) [
        | inl absent ↦ ground (arith, song, absent)
        | inr (index, there) ↦ ground (
          arith,
          song,
          there,
          reveal_at-is_panic mid locked index
              (judged false p.kind p.claimant_team ∷ steal_locked_out p.claimant_team ∷ []) refl
              masked,
        )
      ]

  judge_incorrect-is_panic :
      (p : Pending) (kind : JudgeKind) → IsMasked s → is_panic (judge_incorrect gs p kind) ≡ false
  unfolding judge_incorrect apply_judge_active_guess_incorrect apply_judge_last_chance_incorrect
      finish_song_with_guess finish_song prepend
  judge_incorrect-is_panic p judge_active_guess masked = ground (arith, song)
  judge_incorrect-is_panic p judge_steal masked = apply_judge_steal_incorrect-is_panic p masked
  judge_incorrect-is_panic p judge_last_chance masked = ground (arith, song)
  judge_incorrect-is_panic p judge_unspecified masked = refl

  pub apply_judge_result-is_panic :
      (user : ℕ) (correct : Bool)
      → IsMasked s
      → is_panic (apply_judge_result gs user correct) ≡ false
  unfolding apply_judge_result require_pending_judgement require_judge seated_actor
  apply_judge_result-is_panic user correct masked =
      let p = pending_or_zero gs.pending in
      ground (
        arith,
        judge_incorrect-is_panic p p.kind masked,
        award_points-is_panic p.kind p.claimant_team p.potential_at_claim p.guess_text,
      )

  pub apply_void-is_panic : (user : ℕ) → is_panic (apply_void gs user) ≡ false
  unfolding apply_void require_pending_judgement require_judge seated_actor
  apply_void-is_panic user = ground (arith, song)

pub finalize-is_panic : (gs : GameState) → IsSound gs → is_panic (finalize gs) ≡ false
unfolding finalize
finalize-is_panic gs sound =
    let fits = effective-Fits gs gs.phase refl sound in
    let ph = effective_phase gs in
    elim (Bool-cases (is_in_flight ph)) [
      | inl flying ↦
          let (s, song) = flying_song ph gs.song gs.pending fits flying in
          ground (arith, flying, finish_song-is_panic gs s no_team 0 true song)
      | inr landed ↦ ground (arith, landed)
    ]

pub finish_if_terminal-is_panic :
    (gs : GameState) (before : List Event)
    → IsSound gs
    → is_panic (finish_if_terminal gs before) ≡ false
unfolding finish_if_terminal
finish_if_terminal-is_panic gs before sound =
    ground (arith, prepend-is_panic before (finalize gs) (finalize-is_panic gs sound))
