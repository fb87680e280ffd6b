-- ===== src/SongGuess/Round.antt =====
-- round.go: drawing a song from the selection table, and the next round.
use bgex_backend.Base.{
  ℕ, suc, ◌-◌, Bool, true, false, not, ◌&&◌, Option, none, some, List, [], ◌∷◌, ◌==◌, if◌then◌else◌,
  length, get_elem?, set, take, replicate, sum_by, find_first, update_first, ok, ◌>>=◌, ◌>>◌,
  raise_if, or_raise, or_panic,
}
use bgex_backend.Engine.{illegal_action, not_your_turn, wrong_phase, invalid_pack_doc}
use bgex_backend.SongGuess.State.{
  Text, no_team, Phase, round_select, song_play, song_result, awaiting_active, Cell, SongState,
  GameState, Media, Song, Bucket, Language, Pack, Engine, song_selected, round_started, Outcome,
  is_cell, cell_for, captain_of, opponent_of, is_host_seat,
}
use bgex_backend.SongGuess.Play.{seated_actor, require_active_captain, is_seat_of}
use bgex_backend.SongGuess.Finish.{finalize}

abbrev pub is_round_select : Phase → Bool
is_round_select round_select = true
is_round_select _ = false

abbrev pub is_song_result : Phase → Bool
is_song_result song_result = true
is_song_result _ = false

abbrev pub has_song_id : ℕ → Song → Bool
has_song_id i s = s.id == i

unfoldable pub song_in_buckets : ℕ → List Bucket → Option Song
song_in_buckets i [] = none
song_in_buckets i (b ∷ bs) =
    let rest = song_in_buckets i bs in
    elim (find_first (has_song_id i) b.songs) [ none ↦ rest | some s ↦ some s ]

unfoldable pub song_in_languages : ℕ → List Language → Option Song
song_in_languages i [] = none
song_in_languages i (l ∷ ls) =
    let rest = song_in_languages i ls in
    elim (song_in_buckets i l.buckets) [ none ↦ rest | some s ↦ some s ]

-- `SongByID`
unfoldable pub song_by_id : Pack → ℕ → Option Song
song_by_id pack i = song_in_languages i pack.languages

-- The last id takes the place of the one at the index.
unfoldable pub remove_at : ℕ → List ℕ → ℕ → List ℕ
remove_at idx ids last = take (length ids - 1) (set ids idx last)

unfoldable pub play_from : List ℕ → Cell → Cell
play_from left c = record c { unplayed_song_ids = left; played_count = suc c.played_count }

abbrev pub video_of : Option Media → Text
video_of none = []
video_of (some v) = v.video_id

abbrev pub start_of : Option Media → ℕ
start_of none = 0
start_of (some v) = v.start_sec

abbrev pub end_of : Option Media → ℕ
end_of none = 0
end_of (some v) = v.end_sec

abbrev pub closed_mask : List Text → List Bool
closed_mask line = replicate (length line) false

unfoldable pub new_song : Song → ℕ → ℕ → SongState
new_song s language bucket = record {
  song_id = s.id;
  language_name = language;
  bucket = bucket;
  blocks = s.line;
  steal_allowed = true;
  awaiting = awaiting_active;
  title = s.title;
  artist = s.artist;
  video_id = video_of s.media;
  start_sec = start_of s.media;
  end_sec = end_of s.media;
  awarded_team = no_team;
  awarded_points = 0;
  skipped = false;
  last_guess_text = [];
  revealed_mask = closed_mask s.line;
  steal_window_index = 0;
}

-- The song is in play, and its cell has one song less.
unfoldable pub begin_song : GameState → ℕ → ℕ → List ℕ → SongState → GameState
begin_song gs language bucket left s = record gs {
  cells = update_first (is_cell language bucket) (play_from left) gs.cells;
  song = some s;
  phase = song_play;
}

-- `applySelectCell`
unfoldable pub apply_select_cell : Engine → Pack → GameState → ℕ → ℕ → ℕ → Outcome
apply_select_cell e pack gs user language bucket = do
  raise_if (not (is_round_select gs.phase)) wrong_phase
  actor ← require_active_captain gs user
  cell ← or_raise (cell_for gs language bucket) illegal_action
  let ids = cell.unplayed_song_ids
  raise_if (length ids == 0) illegal_action
  let idx = e.int_n gs.seq (length ids)
  song_id ← or_panic (get_elem? ids idx)
  last ← or_panic (get_elem? ids (length ids - 1))
  s ← or_raise (song_by_id pack song_id) invalid_pack_doc
  ok (
    begin_song gs language bucket (remove_at idx ids last) (new_song s language bucket),
    song_selected language bucket (length s.line) ∷ [],
  )

abbrev pub unplayed_in : Cell → ℕ
unplayed_in c = length c.unplayed_song_ids

-- `unplayedRemaining`
unfoldable pub unplayed_remaining : GameState → ℕ
unplayed_remaining gs = sum_by unplayed_in gs.cells

unfoldable pub start_round : GameState → Outcome
start_round gs = ok (
  record gs { round_no = suc gs.round_no; phase = round_select },
  round_started (suc gs.round_no) gs.active_team ∷ [],
)

-- `applyNextRound`
unfoldable pub apply_next_round : GameState → ℕ → Outcome
apply_next_round gs user = do
  raise_if (not (is_song_result gs.phase)) wrong_phase
  actor ← seated_actor gs user
  let next_team = opponent_of gs.active_team
  raise_if
      (not (is_seat_of (captain_of gs next_team) actor) && not (is_host_seat gs actor.seat_index))
      not_your_turn
  let turned = record gs { active_team = next_team; song = none }
  if unplayed_remaining turned == 0 then finalize turned else start_round turned
