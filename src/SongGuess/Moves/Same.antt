-- ===== src/SongGuess/Moves/Same.antt =====
-- Steps that leave the songs, the claims and the scores alone, and how a result is taken apart.
use bgex_backend.Base.{
  raise_if, ◌==◌, ℕ, ◌≡◌, ◌∙◌, refl, Bool, true, false, not, ◌&&◌, inl, inr, Option, none, some,
  List, map-update_first, update_first, Bool-cases, ok, err, panic,
}
use bgex_backend.Engine.{Error}
use bgex_backend.SongGuess.State.{
  SongState, captain_of, is_no_team, judge_of, Text, Team, Phase, song_play, pending_judgement,
  judge_vacant, Participant, GameState, Event, Outcome, is_team, write_participant,
}
use bgex_backend.SongGuess.Play.{is_song_play, prepend}
use bgex_backend.SongGuess.Judge.{is_pending_judgement}
use bgex_backend.SongGuess.Finish.{promote_captain, replace_captain, move_host}
use bgex_backend.SongGuess.Roster.{
  made_judge, has_none, dismiss_captain, dismiss_judge, restore_captain, reassign_judge, renamed,
}
use bgex_backend.SongGuess.Moves.{SameSong, tally_of, SameCore}

pub SameCore-refl : (gs : GameState) → SameCore gs gs
SameCore-refl gs = record {
  same_phase = refl;
  same_resume = refl;
  same_song = refl;
  same_pending = refl;
  same_cells = refl;
  same_history = refl;
  same_tallies = refl;
}

pub SameCore-trans :
    (gs mid moved : GameState) → SameCore gs mid → SameCore mid moved → SameCore gs moved
SameCore-trans gs mid moved a b = record {
  same_phase = b.same_phase ∙ a.same_phase;
  same_resume = b.same_resume ∙ a.same_resume;
  same_song = b.same_song ∙ a.same_song;
  same_pending = b.same_pending ∙ a.same_pending;
  same_cells = b.same_cells ∙ a.same_cells;
  same_history = b.same_history ∙ a.same_history;
  same_tallies = b.same_tallies ∙ a.same_tallies;
}

pub participants-SameCore :
    (gs : GameState) (ps : List Participant) → SameCore gs (record gs { participants = ps })
participants-SameCore gs ps = record {
  same_phase = refl;
  same_resume = refl;
  same_song = refl;
  same_pending = refl;
  same_cells = refl;
  same_history = refl;
  same_tallies = refl;
}

pub host-SameCore :
    (gs : GameState) (host : Option ℕ) → SameCore gs (record gs { host_seat = host })
host-SameCore gs host = record {
  same_phase = refl;
  same_resume = refl;
  same_song = refl;
  same_pending = refl;
  same_cells = refl;
  same_history = refl;
  same_tallies = refl;
}

pub seq-SameCore : (gs : GameState) (n : ℕ) → SameCore gs (record gs { seq = n })
seq-SameCore gs n = record {
  same_phase = refl;
  same_resume = refl;
  same_song = refl;
  same_pending = refl;
  same_cells = refl;
  same_history = refl;
  same_tallies = refl;
}

pub write_participant-SameCore :
    (p : Participant) (gs : GameState) → SameCore gs (write_participant p gs)
unfolding write_participant
write_participant-SameCore p gs = participants-SameCore gs _

pub promote_captain-SameCore : (t : Team) (gs : GameState) → SameCore gs (promote_captain t gs)
unfolding promote_captain
promote_captain-SameCore t gs = participants-SameCore gs _

pub move_host-SameCore : (b : Bool) (gs : GameState) → SameCore gs (move_host b gs)
unfolding move_host
move_host-SameCore true gs = host-SameCore gs _
move_host-SameCore false gs = SameCore-refl gs

pub replace_captain-SameCore :
    (p : Participant) (gs : GameState) → SameCore gs (replace_captain p gs).0
unfolding replace_captain
replace_captain-SameCore p gs = elim (Bool-cases p.is_captain) [
  | inl e ↦ rw e (promote_captain-SameCore p.team gs)
  | inr e ↦ rw e (SameCore-refl gs)
]

pub dismiss_captain-SameCore :
    (prev : Option Participant) (target : Participant) (gs : GameState)
    → SameCore gs (dismiss_captain prev target gs).0
unfolding dismiss_captain
dismiss_captain-SameCore none target gs = SameCore-refl gs
dismiss_captain-SameCore (some prev) target gs =
    elim (Bool-cases (not (prev.seat_index == target.seat_index))) [
      | inl e ↦ rw e (write_participant-SameCore _ gs)
      | inr e ↦ rw e (SameCore-refl gs)
    ]

dismiss_judge-SameCore :
    (prev : Option Participant) (target : Participant) (gs : GameState)
    → SameCore gs (dismiss_judge prev target gs).0
unfolding dismiss_judge
dismiss_judge-SameCore none target gs = SameCore-refl gs
dismiss_judge-SameCore (some prev) target gs =
    elim (Bool-cases (not (prev.seat_index == target.seat_index))) [
      | inl e ↦ rw e (write_participant-SameCore _ gs)
      | inr e ↦ rw e (SameCore-refl gs)
    ]

pub restore_captain-SameCore : (t : Team) (gs : GameState) → SameCore gs (restore_captain t gs).0
unfolding restore_captain
restore_captain-SameCore t gs =
    elim (Bool-cases (not (is_no_team t) && has_none (captain_of gs t))) [
      | inl e ↦ rw e (promote_captain-SameCore t gs)
      | inr e ↦ rw e (SameCore-refl gs)
    ]

pub reassign_judge-SameCore :
    (target : Participant) (gs : GameState) → SameCore gs (reassign_judge target gs).0
unfolding reassign_judge
reassign_judge-SameCore target gs =
    let dismissed = (dismiss_judge (judge_of gs) target gs).0 in
    let judged = write_participant (made_judge target) dismissed in
    SameCore-trans gs judged _
      (SameCore-trans gs dismissed judged (dismiss_judge-SameCore (judge_of gs) target gs)
        (write_participant-SameCore (made_judge target) dismissed))
      (restore_captain-SameCore target.team judged)

pub renamed-SameCore :
    (gs : GameState) (t : Team) (name : Text)
    → SameCore gs (record gs { teams = update_first (is_team t) (renamed name) gs.teams })
renamed-SameCore gs t name = record {
  same_phase = refl;
  same_resume = refl;
  same_song = refl;
  same_pending = refl;
  same_cells = refl;
  same_history = refl;
  same_tallies = map-update_first tally_of (is_team t) (renamed name) (λ ts. refl) gs.teams;
}

-- A step that returns a state.
abbrev pub done_with : GameState → List Event → Outcome
done_with gs events = ok (gs, events)

pub ok_state :
    {gs moved : GameState} {before events : List Event}
    → done_with gs before ≡ ok (moved, events)
    → gs ≡ moved
ok_state e = cc

pub prepend-eq-ok :
    (before : List Event) (out : Outcome) {moved : GameState} {events : List Event}
    → prepend before out ≡ ok (moved, events)
    → (after_it : List Event) × (out ≡ ok (moved, after_it))
unfolding prepend
prepend-eq-ok before (ok (gs, after_it)) done = (after_it, cc)
prepend-eq-ok before (err e) done = absurd (cc)
prepend-eq-ok before panic done = absurd (cc)

pub is_song_play-eq : (ph : Phase) → not (is_song_play ph) ≡ false → ph ≡ song_play
is_song_play-eq song_play h = refl
is_song_play-eq Phase.unspecified h = absurd (cc)
is_song_play-eq Phase.roster h = absurd (cc)
is_song_play-eq Phase.round_select h = absurd (cc)
is_song_play-eq pending_judgement h = absurd (cc)
is_song_play-eq Phase.song_result h = absurd (cc)
is_song_play-eq judge_vacant h = absurd (cc)
is_song_play-eq Phase.finished h = absurd (cc)

-- A guard that passed.
pub raise_if_passed :
    (b : Bool) (e : Error) {passed : Unit {0}} → raise_if b e ≡ ok passed → b ≡ false
raise_if_passed true e gate = absurd (cc)
raise_if_passed false e gate = refl

pub SameSong-refl : (s : SongState) → SameSong s s
SameSong-refl s = record { same_id = refl; same_blocks = refl; same_mask = refl }

pub is_pending_judgement-eq :
    (ph : Phase) → not (is_pending_judgement ph) ≡ false → ph ≡ pending_judgement
is_pending_judgement-eq pending_judgement h = refl
is_pending_judgement-eq song_play h = absurd (cc)
is_pending_judgement-eq Phase.unspecified h = absurd (cc)
is_pending_judgement-eq Phase.roster h = absurd (cc)
is_pending_judgement-eq Phase.round_select h = absurd (cc)
is_pending_judgement-eq Phase.song_result h = absurd (cc)
is_pending_judgement-eq judge_vacant h = absurd (cc)
is_pending_judgement-eq Phase.finished h = absurd (cc)
