-- ===== src/SongGuess/Moves/Sound.antt =====
-- What the handlers rely on: a song is there while its phase needs it, a claim while a verdict is
-- awaited, and the phase behind a vacant judgeship can go on.
use bgex_backend.Base.{
  ℕ, zero, suc, ◌≡◌, ◌∙◌, refl, ap, subst, true, false, Option, none, some, List, [], ◌∷◌, length,
  set,
}
use bgex_backend.SongGuess.State.{
  Phase, unspecified, roster, round_select, song_play, pending_judgement, song_result, judge_vacant,
  finished, SongState, Pending, GameState, effective_phase, potential_of, revealed_count,
}
use bgex_backend.SongGuess.Play.{finished_state, open_at}
use bgex_backend.SongGuess.Finish.{is_in_flight, close_game}
use bgex_backend.SongGuess.Roster.{resume_phase_of}
use bgex_backend.SongGuess.Round.{begin_song}
use bgex_backend.SongGuess.Moves.{
  SameCore, SameSong, is_resumable, Move, stay, begin, draw, adjust, reveal, lodge, reject, finish,
  turn, next, park, unpark, close, Reach, here, after,
}

-- A mask with one entry for each block.
abbrev pub IsMasked : SongState → Type 0
IsMasked s = length s.revealed_mask ≡ length s.blocks

-- The song and the claim that a phase needs.
abbrev pub Fits : Phase → Option SongState → Option Pending → Type 0
Fits song_play song pending = (s : SongState) × (song ≡ some s) × IsMasked s × (pending ≡ none)
Fits pending_judgement song pending =
    (s : SongState) × (p : Pending) × (song ≡ some s)
    × IsMasked s
    × (pending ≡ some p)
    × (p.potential_at_claim ≡ potential_of s)
Fits _ song pending = pending ≡ none

abbrev pub FitsIn : Phase → Phase → Option SongState → Option Pending → Type 0
FitsIn judge_vacant resume song pending = (is_resumable resume ≡ true) × Fits resume song pending
FitsIn ph resume song pending = Fits ph song pending

unfoldable pub IsSound : GameState → Type 0
IsSound gs = FitsIn gs.phase gs.resume_phase gs.song gs.pending

pub length-set {ℓ} : {A : Type ℓ} (xs : List A) (i : ℕ) (v : A) → length (set xs i v) ≡ length xs
length-set [] i v = refl
length-set (x ∷ xs) zero v = refl
length-set (x ∷ xs) (suc i) v = ap suc (length-set xs i v)

-- The conditions that a state in a given phase meets.
pub in_phase :
    (gs : GameState) (ph : Phase)
    → gs.phase ≡ ph
    → IsSound gs
    → FitsIn ph gs.resume_phase gs.song gs.pending
unfolding IsSound
in_phase gs ph at sound = subst (λ q. FitsIn q gs.resume_phase gs.song gs.pending) at sound

resumed-Fits :
    (ph resume : Phase) (song : Option SongState) (pending : Option Pending)
    → is_resumable ph ≡ true
    → FitsIn ph resume song pending
    → Fits ph song pending
resumed-Fits unspecified resume song pending r fits = fits
resumed-Fits roster resume song pending r fits = fits
resumed-Fits round_select resume song pending r fits = fits
resumed-Fits song_play resume song pending r fits = fits
resumed-Fits pending_judgement resume song pending r fits = fits
resumed-Fits song_result resume song pending r fits = fits
resumed-Fits finished resume song pending r fits = fits
resumed-Fits judge_vacant resume song pending r fits = absurd (cc)

Fits-resumed :
    (ph resume : Phase) (song : Option SongState) (pending : Option Pending)
    → is_resumable ph ≡ true
    → Fits ph song pending
    → FitsIn ph resume song pending
Fits-resumed unspecified resume song pending r fits = fits
Fits-resumed roster resume song pending r fits = fits
Fits-resumed round_select resume song pending r fits = fits
Fits-resumed song_play resume song pending r fits = fits
Fits-resumed pending_judgement resume song pending r fits = fits
Fits-resumed song_result resume song pending r fits = fits
Fits-resumed finished resume song pending r fits = fits
Fits-resumed judge_vacant resume song pending r fits = absurd (cc)

pub SameCore-IsSound : (gs moved : GameState) → SameCore gs moved → IsSound gs → IsSound moved
unfolding IsSound
SameCore-IsSound gs moved same sound =
    rw (same.same_phase, same.same_resume, same.same_song, same.same_pending) sound

SameSong-IsMasked : (s t : SongState) → SameSong s t → IsMasked s → IsMasked t
SameSong-IsMasked s t same masked = rw (same.same_mask, same.same_blocks) masked

SameSong-potential_of : (s t : SongState) → SameSong s t → potential_of t ≡ potential_of s
unfolding potential_of revealed_count
SameSong-potential_of s t same = rw (same.same_mask, same.same_blocks) refl

-- The song that is found is the one that is known.
IsMasked-song :
    (gs : GameState) (found s : SongState)
    → gs.song ≡ some found
    → gs.song ≡ some s
    → IsMasked found
    → IsMasked s
IsMasked-song gs found s is_song song masked =
    let same : found ≡ s = cc in subst IsMasked same masked

pub Move-IsSound : {gs moved : GameState} → Move gs moved → IsSound gs → IsSound moved
unfolding IsSound close_game resume_phase_of finished_state begin_song open_at
Move-IsSound {gs = gs} {moved = moved} (stay same) sound = SameCore-IsSound gs moved same sound
Move-IsSound (begin gs t n at) sound = in_phase gs roster at sound
Move-IsSound (draw gs language bucket idx last cell s at found at_index at_last masked) sound =
    (s, refl, masked, in_phase gs round_select at sound)
Move-IsSound (adjust gs s t at song same) sound =
    let (found, is_song, masked, no_claim) = in_phase gs song_play at sound in
    let masked_s = IsMasked-song gs found s is_song song masked in
    rw at (t, refl, SameSong-IsMasked s t same masked_s, no_claim)
Move-IsSound (reveal gs s index at song closed) sound =
    let (found, is_song, masked, no_claim) = in_phase gs song_play at sound in
    let masked_s = IsMasked-song gs found s is_song song masked in
    rw at (open_at index s, refl, length-set s.revealed_mask index true ∙ masked_s, no_claim)
Move-IsSound (lodge gs s p at song potential) sound =
    let (found, is_song, masked, no_claim) = in_phase gs song_play at sound in
    let masked_s = IsMasked-song gs found s is_song song masked in
    (s, p, song, masked_s, refl, potential)
Move-IsSound (reject gs s t at song same) sound =
    let (found, p, is_song, masked, is_claim, potential) = in_phase gs pending_judgement at sound in
    let masked_s = IsMasked-song gs found s is_song song masked in
    (t, refl, SameSong-IsMasked s t same masked_s, refl)
Move-IsSound (finish gs s t awarded points skipped flying song same worth) sound = refl
Move-IsSound (turn gs t at) sound = rw at (in_phase gs song_result at sound)
Move-IsSound (next gs n at no_song) sound = in_phase gs song_result at sound
Move-IsSound (park gs able) sound =
    (able, resumed-Fits gs.phase gs.resume_phase gs.song gs.pending able sound)
Move-IsSound (unpark gs at) sound =
    let (able, fits) = in_phase gs judge_vacant at sound in
    Fits-resumed gs.resume_phase unspecified gs.song gs.pending able fits
Move-IsSound (close gs landed no_claim) sound = no_claim

pub Reach-IsSound : {gs moved : GameState} → Reach gs moved → IsSound gs → IsSound moved
Reach-IsSound here sound = sound
Reach-IsSound (after path move) sound = Move-IsSound move (Reach-IsSound path sound)

-- The conditions of the phase that a vacant judgeship may have interrupted.
pub effective-Fits :
    (gs : GameState) (ph : Phase)
    → gs.phase ≡ ph
    → IsSound gs
    → Fits (effective_phase gs) gs.song gs.pending
unfolding effective_phase
effective-Fits gs unspecified at sound = rw at (in_phase gs unspecified at sound)
effective-Fits gs roster at sound = rw at (in_phase gs roster at sound)
effective-Fits gs round_select at sound = rw at (in_phase gs round_select at sound)
effective-Fits gs song_play at sound = rw at (in_phase gs song_play at sound)
effective-Fits gs pending_judgement at sound = rw at (in_phase gs pending_judgement at sound)
effective-Fits gs song_result at sound = rw at (in_phase gs song_result at sound)
effective-Fits gs judge_vacant at sound = rw at (in_phase gs judge_vacant at sound).1
effective-Fits gs finished at sound = rw at (in_phase gs finished at sound)

pub flying_song :
    (ph : Phase) (song : Option SongState) (pending : Option Pending)
    → Fits ph song pending
    → is_in_flight ph ≡ true
    → (s : SongState) × (song ≡ some s)
flying_song song_play song pending (s, there, masked, no_claim) flying = (s, there)
flying_song pending_judgement song pending (s, p, there, masked, claimed, worth) flying = (s, there)
flying_song unspecified song pending fits flying = absurd (cc)
flying_song roster song pending fits flying = absurd (cc)
flying_song round_select song pending fits flying = absurd (cc)
flying_song song_result song pending fits flying = absurd (cc)
flying_song judge_vacant song pending fits flying = absurd (cc)
flying_song finished song pending fits flying = absurd (cc)

pub landed_claim :
    (ph : Phase) (song : Option SongState) (pending : Option Pending)
    → Fits ph song pending
    → is_in_flight ph ≡ false
    → pending ≡ none
landed_claim unspecified song pending fits landed = fits
landed_claim roster song pending fits landed = fits
landed_claim round_select song pending fits landed = fits
landed_claim song_result song pending fits landed = fits
landed_claim judge_vacant song pending fits landed = fits
landed_claim finished song pending fits landed = fits
landed_claim song_play song pending fits landed = absurd (cc)
landed_claim pending_judgement song pending fits landed = absurd (cc)
