-- ===== src/SongGuess/Moves/Songs.antt =====
-- Where the songs of a pack are: a song waits in a cell, is in flight, or is on record.
use bgex_backend.SongGuess.Moves.Refinement.{apply-Reach}
use bgex_backend.SongGuess.Apply.{apply}
use bgex_backend.SongGuess.Moves.Leave.{IsUnjudged}
use bgex_backend.SongGuess.Play.{outcome_of, end_song, finished_state, open_at}
use bgex_backend.SongGuess.Roster.{resume_phase_of}
use bgex_backend.SongGuess.Finish.{close_game, is_in_flight}
use bgex_backend.SongGuess.Round.{play_from, begin_song, remove_at}
use bgex_backend.SongGuess.State.{
  cell_for, effective_from, is_cell, judge_vacant, song_result, pending_judgement, song_play, Event,
  Action, round_select, Engine, Phase, effective_phase, SongState, GameState, Cell, SongOutcome,
}
use bgex_backend.Base.{
  ◌∷◌, sum_by-append, ap, sum_by-update_first, ok, ◌∙◌, true, subst, take, set, [], ◌==◌, some,
  length, get_elem?, if◌then◌else◌, sum_by, Option, List, Bool, ℕ, zero, suc, ◌+◌, ◌-◌, ◌≡◌, refl,
  arith,
}
use bgex_backend.SongGuess.Moves.{
  SameCore, close, unpark, park, next, turn, finish, reject, lodge, reveal, adjust, draw, here,
  is_resumable, after, Reach, Move, stay, begin,
}
use bgex_backend.SongGuess.Moves.Sound.{length-set, IsSound}

-- How often an id stands in a list.
abbrev pub count_id : ℕ → List ℕ → ℕ
count_id i [] = 0
count_id i (x ∷ xs) = (if x == i then 1 else 0) + count_id i xs

abbrev pub waiting_in : ℕ → Cell → ℕ
waiting_in i c = count_id i c.unplayed_song_ids

abbrev pub flying_as : ℕ → Bool → Option SongState → ℕ
flying_as i true (some s) = if s.song_id == i then 1 else 0
flying_as i _ _ = 0

abbrev pub recorded_as : ℕ → SongOutcome → ℕ
recorded_as i o = if o.song_id == i then 1 else 0

-- How often a song is waiting, in flight or on record.
unfoldable pub song_count : ℕ → GameState → ℕ
song_count i gs =
    sum_by (waiting_in i) gs.cells
    + flying_as i (is_in_flight (effective_phase gs)) gs.song
    + sum_by (recorded_as i) gs.history

count_id-set :
    (i : ℕ) (xs : List ℕ) (k x v : ℕ)
    → get_elem? xs k ≡ some x
    → count_id i (set xs k v) + (if x == i then 1 else 0)
      ≡ count_id i xs + (if v == i then 1 else 0)
count_id-set i [] k x v found = absurd (cc)
count_id-set i (y ∷ ys) zero x v found = let same : y ≡ x = cc in ground (arith, same)
count_id-set i (y ∷ ys) (suc k) x v found = omega (arith, count_id-set i ys k x v found)

get_elem?-set :
    (xs : List ℕ) (k j v : ℕ) → get_elem? xs j ≡ some v → get_elem? (set xs k v) j ≡ some v
get_elem?-set [] k j v found = found
get_elem?-set (x ∷ xs) zero zero v found = refl
get_elem?-set (x ∷ xs) zero (suc j) v found = found
get_elem?-set (x ∷ xs) (suc k) zero v found = found
get_elem?-set (x ∷ xs) (suc k) (suc j) v found = get_elem?-set xs k j v found

count_id-take :
    (i : ℕ) (xs : List ℕ) (n last : ℕ)
    → length xs ≡ suc n
    → get_elem? xs n ≡ some last
    → count_id i (take n xs) + (if last == i then 1 else 0) ≡ count_id i xs
count_id-take i [] n last long found = absurd (cc)
count_id-take i (x ∷ []) zero last long found = let same : x ≡ last = cc in ground (arith, same)
count_id-take i (x ∷ y ∷ ys) zero last long found = absurd (omega (arith, long))
count_id-take i (x ∷ xs) (suc n) last long found =
    omega (arith, count_id-take i xs n last (omega (arith, long)) found)

-- A removal takes out exactly the id at the index.
pub count_id-remove_at :
    (i : ℕ) (ids : List ℕ) (idx x last : ℕ)
    → get_elem? ids idx ≡ some x
    → get_elem? ids (length ids - 1) ≡ some last
    → count_id i (remove_at idx ids last) + (if x == i then 1 else 0) ≡ count_id i ids
unfolding remove_at
count_id-remove_at i [] idx x last found at_last = absurd (cc)
count_id-remove_at i (y ∷ ys) idx x last found at_last =
    let ids : List ℕ = y ∷ ys in
    let n = length ys in
    let there : get_elem? ids n ≡ some last =
      subst (λ m. get_elem? ids m ≡ some last) (omega arith) at_last in
    let shorter : length ids - 1 ≡ n = omega arith in
    let kept =
      count_id-take i (set ids idx last) n last (length-set ids idx last)
        (get_elem?-set ids idx n last there) in
    rw shorter (omega (arith, kept, count_id-set i ids idx x last found))

parked_flies :
    (gs : GameState) (ph : Phase)
    → gs.phase ≡ ph
    → is_resumable ph ≡ true
    → is_in_flight (effective_phase gs) ≡ is_in_flight gs.phase
unfolding effective_phase
parked_flies gs Phase.unspecified at able = rw at refl
parked_flies gs Phase.roster at able = rw at refl
parked_flies gs round_select at able = rw at refl
parked_flies gs song_play at able = rw at refl
parked_flies gs pending_judgement at able = rw at refl
parked_flies gs song_result at able = rw at refl
parked_flies gs judge_vacant at able = absurd (cc)
parked_flies gs Phase.finished at able = absurd (cc)

resumed_flies :
    (gs : GameState) (ph : Phase)
    → gs.resume_phase ≡ ph
    → is_in_flight (effective_phase (resume_phase_of gs)) ≡ is_in_flight gs.resume_phase
unfolding effective_phase resume_phase_of
resumed_flies gs Phase.unspecified at = rw at refl
resumed_flies gs Phase.roster at = rw at refl
resumed_flies gs round_select at = rw at refl
resumed_flies gs song_play at = rw at refl
resumed_flies gs pending_judgement at = rw at refl
resumed_flies gs song_result at = rw at refl
resumed_flies gs judge_vacant at = rw at refl
resumed_flies gs Phase.finished at = rw at refl

same_flight :
    {gs moved : GameState}
    → SameCore gs moved
    → is_in_flight (effective_phase moved) ≡ is_in_flight (effective_phase gs)
unfolding effective_phase
same_flight {gs = gs} {moved = moved} same =
    ap (λ ph. is_in_flight (effective_from ph moved.resume_phase)) same.same_phase
    ∙ ap (λ ph. is_in_flight (effective_from gs.phase ph)) same.same_resume

Move-song_count :
    (i : ℕ) {gs moved : GameState} → Move gs moved → song_count i moved ≡ song_count i gs
unfolding song_count effective_phase cell_for begin_song play_from open_at finished_state end_song
    outcome_of resume_phase_of close_game
Move-song_count i (stay same) =
    rw (same_flight same, same.same_song, same.same_cells, same.same_history) refl
Move-song_count i (begin gs t n at) = rw at refl
Move-song_count i (draw gs language bucket idx last cell s at there at_index at_last masked) =
    let left = remove_at idx cell.unplayed_song_ids last in
    let cells =
      sum_by-update_first (waiting_in i) (is_cell language bucket) (play_from left) gs.cells cell
        there in
    let kept = count_id-remove_at i cell.unplayed_song_ids idx s.song_id last at_index at_last in
    rw at (omega (arith, cells, kept))
Move-song_count i (adjust gs s t at song same) = rw (at, song, same.same_id) refl
Move-song_count i (reveal gs s index at song closed) = rw (at, song) refl
Move-song_count i (lodge gs s p at song worth) = rw at refl
Move-song_count i (reject gs s t at song same) = rw (at, song, same.same_id) refl
Move-song_count i (finish gs s t awarded points skipped flying song same worth) =
    let recorded =
      sum_by-append (recorded_as i) gs.history
        (outcome_of gs.active_team awarded points skipped t ∷ []) in
    rw (flying, song, ← same.same_id) (omega (arith, recorded))
Move-song_count i (turn gs t at) = rw at refl
Move-song_count i (next gs n at no_song) = rw at refl
Move-song_count i (park gs able) = rw (parked_flies gs gs.phase refl able) refl
Move-song_count i (unpark gs at) = rw (resumed_flies gs gs.resume_phase refl, at) refl
Move-song_count i (close gs landed no_claim) = rw landed refl

pub Reach-song_count :
    (i : ℕ) {gs moved : GameState} → Reach gs moved → song_count i moved ≡ song_count i gs
Reach-song_count i here = refl
Reach-song_count i (after path move) = Move-song_count i move ∙ Reach-song_count i path

-- An action that succeeds moves the songs between the cells, the song in flight and the record, and
-- neither loses nor doubles one, if the game is sound and a vacant judgeship is nobody's.
pub song_count-apply :
    (e : Engine) (gs moved : GameState) (user : ℕ) (a : Action) (events : List Event)
    → IsSound gs
    → IsUnjudged gs
    → apply e gs user a ≡ ok (moved, events)
    → (i : ℕ) → song_count i moved ≡ song_count i gs
song_count-apply e gs moved user a events sound unjudged done i =
    Reach-song_count i (apply-Reach e gs moved user a events sound unjudged done)
