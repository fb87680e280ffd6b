-- ===== src/SongGuess/Moves/Host.antt =====
-- engine.go: the default judge of a new game, the host at seat 0.
use bgex_backend.Base.{
  ◌&&◌, subst, not, ◌∙◌, ◌≡◌, refl, sym, true, false, none, some, List, [], ◌∷◌, arith, inl, inr,
  Bool-cases, Option-cases, All, All-update_first, All-sort_by, sort_by-All, find_first,
  update_first, map-update_first, count_if, contains, map, sort_by, find_first-holds,
}
use bgex_backend.Engine.{SeatInit}
use bgex_backend.SongGuess.State.{
  captain_of, team_b, team_a, no_team, Team, Participant, GameState, participant_by_seat, judge_of,
  holds_judgeship, has_seat, write_participant, is_no_team,
}
use bgex_backend.SongGuess.Roster.{has_none, made_judge, restore_captain}
use bgex_backend.SongGuess.Finish.{is_member, made_captain, promote_captain}
use bgex_backend.SongGuess.Setup.{
  default_participant, seat_before, assign_default_captains, default_participants,
  apply_host_judge_default,
}

-- The one judge is the host: at seat 0, in no team and no captain.
pub record HasHostJudge (gs : GameState) : Type 0 where
  pub host : Participant
  pub judges : judge_of gs ≡ some host
  pub at_first : host.seat_index ≡ 0
  pub on_no_team : host.team ≡ no_team
  pub no_captain : host.is_captain ≡ false
  pub only_judge : count_if holds_judgeship gs.participants ≡ 1

abbrev IsNotJudge : Participant → Type 0
IsNotJudge p = p.is_judge ≡ false

-- A new player judges nothing.
default-IsNotJudge : (seats : List SeatInit) → All IsNotJudge (map default_participant seats)
default-IsNotJudge [] = tt
default-IsNotJudge (s ∷ ss) = (refl, default-IsNotJudge ss)

default_participants-IsNotJudge :
    (seats : List SeatInit) → All IsNotJudge (default_participants seats)
unfolding default_participants assign_default_captains
default_participants-IsNotJudge seats =
    let sorted =
      All-sort_by seat_before IsNotJudge (map default_participant seats)
        (default-IsNotJudge seats) in
    All-update_first IsNotJudge _ made_captain (λ p h. h) _
      (All-update_first IsNotJudge _ made_captain (λ p h. h) _ sorted)

absent_index :
    (ps : List Participant)
    → find_first (has_seat 0) ps ≡ none
    → contains (map (λ p. p.seat_index) ps) 0 ≡ false
unfolding find_first
absent_index [] e = refl
absent_index (p ∷ ps) e = ground (arith, e, absent_index ps)

absent_seats :
    (ps : List Participant)
    → contains (map (λ p. p.seat_index) ps) 0 ≡ false
    → All (λ p. has_seat 0 p ≡ false) ps
absent_seats [] e = tt
absent_seats (p ∷ ps) e = (ground (arith, e), absent_seats ps (ground (arith, e)))

absent_from :
    (seats : List SeatInit)
    → All (λ p. has_seat 0 p ≡ false) (map default_participant seats)
    → contains (map (λ s. s.seat) seats) 0 ≡ false
absent_from [] h = refl
absent_from (s ∷ ss) h = ground (arith, h.0, absent_from ss h.1)

-- Who is seated is a participant.
default_participants-absent :
    (seats : List SeatInit)
    → find_first (has_seat 0) (default_participants seats) ≡ none
    → contains (map (λ s. s.seat) seats) 0 ≡ false
unfolding default_participants assign_default_captains
default_participants-absent seats absent =
    let sorted = sort_by seat_before (map default_participant seats) in
    let gone = absent_index _ absent in
    let same = map-update_first (λ p. p.seat_index) _ made_captain (λ p. refl) sorted in
    let again = map-update_first (λ p. p.seat_index) _ made_captain (λ p. refl) _ in
    absent_from seats (
      sort_by-All seat_before (λ p. has_seat 0 p ≡ false) (map default_participant seats)
        (absent_seats sorted (subst (λ is. contains is 0 ≡ false) (again ∙ same) gone)))

-- A judge written among players who are not is the first found, and the only one.
written_judge :
    (j host : Participant) (ps : List Participant)
    → j.is_judge ≡ true
    → All IsNotJudge ps
    → find_first (has_seat 0) ps ≡ some host
    → find_first holds_judgeship (update_first (has_seat 0) (λ _. j) ps) ≡ some j
unfolding find_first update_first
written_judge j host [] judges h found = absurd (cc)
written_judge j host (p ∷ ps) judges h found =
    ground (arith, judges, h.0, found, written_judge j host ps judges h.1)

no_judges : (ps : List Participant) → All IsNotJudge ps → count_if holds_judgeship ps ≡ 0
no_judges [] h = refl
no_judges (p ∷ ps) h = ground (arith, h.0, no_judges ps h.1)

written_count :
    (j host : Participant) (ps : List Participant)
    → j.is_judge ≡ true
    → All IsNotJudge ps
    → find_first (has_seat 0) ps ≡ some host
    → count_if holds_judgeship (update_first (has_seat 0) (λ _. j) ps) ≡ 1
unfolding find_first update_first
written_count j host [] judges h found = absurd (cc)
written_count j host (p ∷ ps) judges h found =
    ground (arith, judges, h.0, found, no_judges ps h.1, written_count j host ps judges h.1)

-- A new captain on a team of players leaves the judge alone.
promoted_judge :
    (t : Team) (j : Participant) (ps : List Participant)
    → is_member t j ≡ false
    → find_first holds_judgeship ps ≡ some j
    → find_first holds_judgeship (update_first (is_member t) made_captain ps) ≡ some j
unfolding find_first update_first
promoted_judge t j [] apart found = absurd (cc)
promoted_judge t j (p ∷ ps) apart found = ground (arith, apart, found, promoted_judge t j ps apart)

promoted_count :
    (t : Team) (ps : List Participant)
    → count_if holds_judgeship (update_first (is_member t) made_captain ps)
      ≡ count_if holds_judgeship ps
unfolding update_first
promoted_count t [] = refl
promoted_count t (p ∷ ps) = ground (arith, promoted_count t ps)

judge_apart :
    (t : Team) (host : Participant) → is_no_team t ≡ false → is_member t (made_judge host) ≡ false
judge_apart no_team host e = absurd (cc)
judge_apart team_a host e = ground arith
judge_apart team_b host e = ground arith

promote_captain-HasHostJudge :
    (t : Team) (gs : GameState)
    → is_no_team t ≡ false
    → HasHostJudge gs
    → HasHostJudge (promote_captain t gs)
unfolding promote_captain judge_of
promote_captain-HasHostJudge t gs playing h = record {
  host = h.host;
  judges = promoted_judge t h.host gs.participants (apart t h.host h.on_no_team playing) h.judges;
  at_first = h.at_first;
  on_no_team = h.on_no_team;
  no_captain = h.no_captain;
  only_judge = promoted_count t gs.participants ∙ h.only_judge;
}
  where
    apart :
        (s : Team) (p : Participant)
        → p.team ≡ no_team
        → is_no_team s ≡ false
        → is_member s p ≡ false
    apart s p bench e = rw bench (judge_apart s p e)

written_host-HasHostJudge :
    (gs : GameState) (host : Participant)
    → All IsNotJudge gs.participants
    → participant_by_seat gs 0 ≡ some host
    → HasHostJudge (write_participant (made_judge host) gs)
unfolding participant_by_seat write_participant judge_of
written_host-HasHostJudge gs host players found =
    let ps = gs.participants in
    let first : host.seat_index ≡ 0 =
      ground (arith, find_first-holds (has_seat 0) gs.participants host found) in
    record {
      host = made_judge host;
      judges =
          subst
            (λ i.
              find_first holds_judgeship (update_first (has_seat i) (λ _. made_judge host) ps)
              ≡ some (made_judge host))
            (sym first) (written_judge (made_judge host) host ps refl players found);
      at_first = first;
      on_no_team = refl;
      no_captain = refl;
      only_judge =
          subst
            (λ i.
              count_if holds_judgeship (update_first (has_seat i) (λ _. made_judge host) ps) ≡ 1)
            (sym first) (written_count (made_judge host) host ps refl players found);
    }

-- The host becomes the judge, whether or not a team has to get another captain.
pub apply_host_judge_default-HasHostJudge :
    (gs : GameState) (host : Participant)
    → All IsNotJudge gs.participants
    → participant_by_seat gs 0 ≡ some host
    → HasHostJudge (apply_host_judge_default gs)
unfolding apply_host_judge_default restore_captain
apply_host_judge_default-HasHostJudge gs host players found =
    let judged = write_participant (made_judge host) gs in
    let one = written_host-HasHostJudge gs host players found in
    elim (Bool-cases (not (is_no_team host.team) && has_none (captain_of judged host.team))) [
      | inl needs ↦
          rw (found, apply_host_judge_default, needs)
            (promote_captain-HasHostJudge host.team judged (ground (arith, needs)) one)
      | inr led ↦ rw (found, apply_host_judge_default, led) one
    ]

-- A game of players among whom one sits at seat 0.
pub start-HasHostJudge :
    (seats : List SeatInit) (gs : GameState)
    → contains (map (λ s. s.seat) seats) 0 ≡ true
    → gs.participants ≡ default_participants seats
    → HasHostJudge (apply_host_judge_default gs)
start-HasHostJudge seats gs hosted new =
    elim (Option-cases (find_first (has_seat 0) (default_participants seats))) [
      | inl absent ↦ absurd (let none_there = default_participants-absent seats absent in cc)
      | inr (host, there) ↦
          apply_host_judge_default-HasHostJudge gs host
            (rw new (default_participants-IsNotJudge seats))
            (unfold participant_by_seat in rw new there)
    ]
