-- ===== src/SongGuess/Setup.antt =====
-- engine.go: `InitState`, from a pack id and version that the lobby configuration gives.
use bgex_backend.Base.{
  ℕ, suc, ◌%◌, Bool, true, false, ◌||◌, none, some, List, [], ◌∷◌, ◌++◌, map, ltb, ◌==◌,
  if◌then◌else◌, length, update_first, sort_by, Result, ok, ◌>>=◌, ◌>>◌, raise_if,
}
use bgex_backend.Engine.{Error, not_enough_players, invalid_pack_doc, SeatInit}
use bgex_backend.SongGuess.State.{
  team_a, team_b, Phase, Participant, TeamState, Cell, GameState, Song, Bucket, Language, Pack,
  Engine, participant_by_seat, write_participant,
}
use bgex_backend.SongGuess.Finish.{is_member, made_captain}
use bgex_backend.SongGuess.Roster.{made_judge, restore_captain}

abbrev pub min_seats : ℕ
min_seats = 3

abbrev pub max_seats : ℕ
max_seats = 10

abbrev pub default_participant : SeatInit → Participant
default_participant si = record {
  seat_index = si.seat;
  user_id = si.user_id;
  team = if si.seat % 2 == 0 then team_a else team_b;
  is_captain = false;
  is_judge = false;
  active = true;
}

abbrev pub seat_before : Participant → Participant → Bool
seat_before a b = ltb a.seat_index b.seat_index

-- `assignDefaultCaptains`
unfoldable pub assign_default_captains : List Participant → List Participant
assign_default_captains ps =
    update_first (is_member team_b) made_captain (update_first (is_member team_a) made_captain ps)

-- `defaultParticipants`
unfoldable pub default_participants : List SeatInit → List Participant
default_participants seats =
    assign_default_captains (sort_by seat_before (map default_participant seats))

-- `applyHostJudgeDefault`, where seat 0 is the host.
unfoldable pub apply_host_judge_default : GameState → GameState
apply_host_judge_default gs = elim (participant_by_seat gs 0) [
  | none ↦ gs
  | some host ↦ (restore_captain host.team (write_participant (made_judge host) gs)).0
]

abbrev pub id_of : Song → ℕ
id_of s = s.id

abbrev pub cell_of : ℕ → Language → Bucket → Cell
cell_of i l b = record {
  language_index = i;
  language_name = l.name;
  bucket = b.blocks;
  unplayed_song_ids = map id_of b.songs;
  played_count = 0;
}

-- The cells of the languages from an index on.
unfoldable pub cells_from : ℕ → List Language → List Cell
cells_from i [] = []
cells_from i (l ∷ ls) = map (cell_of i l) l.buckets ++ cells_from (suc i) ls

-- `buildCells`
unfoldable pub build_cells : Pack → List Cell
build_cells pack = cells_from 0 pack.languages

-- "Team A" and "Team B".
abbrev pub default_teams : List TeamState
default_teams =
    record { team = team_a; name = 84 ∷ 101 ∷ 97 ∷ 109 ∷ 32 ∷ 65 ∷ []; score = 0 }
    ∷ record { team = team_b; name = 84 ∷ 101 ∷ 97 ∷ 109 ∷ 32 ∷ 66 ∷ []; score = 0 }
    ∷ []

abbrev pub start_state : ℕ → ℕ → List SeatInit → Pack → GameState
start_state pack_id pack_version seats pack = record {
  pack_id = pack_id;
  pack_version = pack_version;
  phase = Phase.roster;
  seq = 0;
  host_seat = some 0;
  participants = default_participants seats;
  teams = default_teams;
  active_team = team_a;
  round_no = 0;
  cells = build_cells pack;
  song = none;
  pending = none;
  resume_phase = Phase.unspecified;
  results = [];
  history = [];
}

-- `InitState`
unfoldable pub init_state : Engine → ℕ → ℕ → List SeatInit → Result Error GameState
init_state e pack_id pack_version seats = do
  raise_if (ltb (length seats) min_seats || ltb max_seats (length seats)) not_enough_players
  pack ← e.get_pack pack_id pack_version
  raise_if (pack.total_songs == 0) invalid_pack_doc
  ok (apply_host_judge_default (start_state pack_id pack_version seats pack))
