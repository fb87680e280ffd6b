-- ===== src/SongGuess/View.antt =====
-- view.go: what a viewer is shown of a game. A wire name stands for a value of its enumeration, so
-- the views hold the values; a field that is left out is `none`.
pub mod Viewers
pub mod Secrecy
use bgex_backend.Base.{
  find_first, ℕ, ◌+◌, Bool, true, false, not, ◌&&◌, ◌||◌, Option, none, some, List, [], ◌∷◌, map,
  length, ◌==◌, if◌then◌else◌,
}
use bgex_backend.SongGuess.State.{
  Text, Team, no_team, Phase, song_result, finished, Awaiting, JudgeKind, Participant, TeamState,
  Cell, SongState, Pending, ResultEntry, SongOutcome, GameState, Pack, Language, Bucket, same_team,
  participant_by_user, effective_phase, is_host_seat, revealed_count, potential_of,
}
use bgex_backend.SongGuess.Play.{is_some_text}
use bgex_backend.SongGuess.Legal.{ActionType, legal_actions}

pub data ViewerClass : Type 0 where
  spectator player judge : ViewerClass

pub record TeamView : Type 0 where
  pub team : Team
  pub name : Text
  pub score : ℕ

pub record ParticipantView : Type 0 where
  pub seat_index : ℕ
  pub user_id : ℕ
  pub team : Team
  pub is_captain : Bool
  pub is_judge : Bool
  pub active : Bool

pub record CellView : Type 0 where
  pub language : ℕ
  pub bucket : ℕ
  pub remaining : ℕ
  pub total : ℕ

pub record HistoryView : Type 0 where
  pub language : ℕ
  pub bucket : ℕ
  pub revealed_at_end : ℕ
  pub awarded_team : Team
  pub points : ℕ
  pub title : Text
  pub artist : Text
  pub skipped : Bool
  pub active_team : Team

pub record ResultView : Type 0 where
  pub seat_index : ℕ
  pub user_id : ℕ
  pub team : Team
  pub team_total : ℕ
  pub rank : ℕ
  pub is_judge : Bool

pub record BlockView : Type 0 where
  pub revealed : Bool
  pub text : Option Text

pub record AnswerView : Type 0 where
  pub title : Text
  pub artist : Text
  pub line : List Text

pub record MediaView : Type 0 where
  pub video_id : Text
  pub start_sec : ℕ
  pub end_sec : ℕ

-- How a song ended: the fields that only a finished song fills in.
pub record EndView : Type 0 where
  pub awarded_team : Team
  pub awarded_points : ℕ
  pub skipped : Bool
  pub last_guess_text : Text

pub record SongView : Type 0 where
  pub language : ℕ
  pub bucket : ℕ
  pub total_blocks : ℕ
  pub revealed : ℕ
  pub potential : ℕ
  pub steal_allowed : Bool
  pub awaiting : Awaiting
  pub blocks : List BlockView
  pub answer : Option AnswerView
  pub media : Option MediaView
  pub ended : Option EndView

pub record PendingView : Type 0 where
  pub kind : JudgeKind
  pub claimant_team : Team
  pub has_guess : Bool
  pub guess_text : Option Text

-- What a viewer is told of their own seat; the seat is `none` for -1.
pub record OwnView : Type 0 where
  pub your_seat : Option ℕ
  pub your_team : Team
  pub you_are_captain : Bool
  pub you_are_judge : Bool
  pub you_are_host : Bool
  pub legal : List ActionType

pub record GameView : Type 0 where
  pub pack_name : Text
  pub phase : Phase
  pub round_no : ℕ
  pub active_team : Team
  pub own : OwnView
  pub teams : List TeamView
  pub participants : List ParticipantView
  pub cells : List CellView
  pub history : List HistoryView
  pub results : List ResultView
  pub song : Option SongView
  pub pending : Option PendingView

-- `viewerOf`, of the participant that the user is.
unfoldable pub viewer_of : GameState → ℕ → ViewerClass × Option Participant
viewer_of gs user = elim (participant_by_user gs user) [
  | none ↦ (spectator, none)
  | some p ↦
      if not p.active then (spectator, none) else (if p.is_judge then judge else player, some p)
]

abbrev pub team_view : TeamState → TeamView
team_view ts = record { team = ts.team; name = ts.name; score = ts.score }

-- `teamsView`
unfoldable pub teams_view : GameState → List TeamView
teams_view gs = map team_view gs.teams

abbrev pub participant_view : Participant → ParticipantView
participant_view p = record {
  seat_index = p.seat_index;
  user_id = p.user_id;
  team = p.team;
  is_captain = p.is_captain;
  is_judge = p.is_judge;
  active = p.active;
}

-- `participantsView`
unfoldable pub participants_view : GameState → List ParticipantView
participants_view gs = map participant_view gs.participants

-- The songs of the first bucket of a size.
unfoldable pub count_in_buckets : ℕ → List Bucket → ℕ
count_in_buckets blocks [] = 0
count_in_buckets blocks (b ∷ bs) =
    let rest = count_in_buckets blocks bs in if b.blocks == blocks then length b.songs else rest

abbrev has_name : ℕ → Language → Bool
has_name name l = l.name == name

-- `CountAt`
unfoldable pub count_at : Pack → ℕ → ℕ → ℕ
count_at pack language blocks = elim (find_first (has_name language) pack.languages) [
  | none ↦ 0
  | some l ↦ count_in_buckets blocks l.buckets
]

unfoldable pub cell_view : Pack → Cell → CellView
cell_view pack c = record {
  language = c.language_name;
  bucket = c.bucket;
  remaining = length c.unplayed_song_ids;
  total = count_at pack c.language_name c.bucket;
}

-- `cellsView`
unfoldable pub cells_view : Pack → GameState → List CellView
cells_view pack gs = map (cell_view pack) gs.cells

abbrev pub history_entry : SongOutcome → HistoryView
history_entry o = record {
  language = o.language_name;
  bucket = o.bucket;
  revealed_at_end = o.revealed_at_end;
  awarded_team = o.awarded_team;
  points = o.points;
  title = o.title;
  artist = o.artist;
  skipped = o.skipped;
  active_team = o.active_team;
}

-- `historyView`
unfoldable pub history_view : GameState → List HistoryView
history_view gs = map history_entry gs.history

abbrev pub result_view : ResultEntry → ResultView
result_view r = record {
  seat_index = r.seat_index;
  user_id = r.user_id;
  team = r.team;
  team_total = r.team_total;
  rank = r.rank;
  is_judge = r.is_judge;
}

-- `resultsView`
unfoldable pub results_view : List ResultEntry → List ResultView
results_view results = map result_view results

-- `songFinishedPhases`
abbrev pub is_over : Phase → Bool
is_over song_result = true
is_over finished = true
is_over _ = false

-- `isSongFinished`
unfoldable pub is_song_finished : GameState → Bool
is_song_finished gs = is_over (effective_phase gs)

abbrev pub block_view : Bool → Text → BlockView
block_view show text = record { revealed = show; text = if show then some text else none }

-- The blocks, beside the mask; a block without an entry in the mask is closed.
unfoldable pub blocks_from : Bool → List Text → List Bool → List BlockView
blocks_from over [] mask = []
blocks_from over (b ∷ bs) [] = block_view over b ∷ blocks_from over bs []
blocks_from over (b ∷ bs) (shown ∷ mask) = block_view (over || shown) b ∷ blocks_from over bs mask

-- `blocksView`
unfoldable pub blocks_view : SongState → Bool → List BlockView
blocks_view s over = blocks_from over s.blocks s.revealed_mask

unfoldable pub answer_view : SongState → AnswerView
answer_view s = record { title = s.title; artist = s.artist; line = s.blocks }

unfoldable pub media_view : SongState → Option MediaView
media_view s =
    if is_some_text s.video_id
    then some (record { video_id = s.video_id; start_sec = s.start_sec; end_sec = s.end_sec })
    else none

abbrev pub is_judge_class : ViewerClass → Bool
is_judge_class judge = true
is_judge_class _ = false

abbrev pub end_view : SongState → EndView
end_view s = record {
  awarded_team = s.awarded_team;
  awarded_points = s.awarded_points;
  skipped = s.skipped;
  last_guess_text = s.last_guess_text;
}

-- `songView`, of a song that is finished or not.
unfoldable pub song_view : SongState → Bool → ViewerClass → SongView
song_view s over class = record {
  language = s.language_name;
  bucket = s.bucket;
  total_blocks = length s.blocks;
  revealed = revealed_count s;
  potential = potential_of s;
  steal_allowed = s.steal_allowed;
  awaiting = s.awaiting;
  blocks = blocks_view s over;
  answer = if over || is_judge_class class then some (answer_view s) else none;
  media = if over then media_view s else none;
  ended = if over then some (end_view s) else none;
}

abbrev pub is_on_team : Option Participant → Team → Bool
is_on_team none t = false
is_on_team (some p) t = same_team p.team t

-- `pendingGuessTextVisible`
unfoldable pub pending_guess_text_visible : ViewerClass → Option Participant → Pending → Bool
pending_guess_text_visible class p pending =
    is_judge_class class || is_on_team p pending.claimant_team

-- `pendingView`
unfoldable pub pending_view : Pending → ViewerClass → Option Participant → PendingView
pending_view pending class p = record {
  kind = pending.kind;
  claimant_team = pending.claimant_team;
  has_guess = is_some_text pending.guess_text;
  guess_text = if pending_guess_text_visible class p pending then some pending.guess_text else none;
}

unfoldable pub own_view : GameState → Option Participant → OwnView
own_view gs none = record {
  your_seat = none;
  your_team = no_team;
  you_are_captain = false;
  you_are_judge = false;
  you_are_host = false;
  legal = [];
}
own_view gs (some p) = record {
  your_seat = some p.seat_index;
  your_team = p.team;
  you_are_captain = p.is_captain;
  you_are_judge = p.is_judge;
  you_are_host = is_host_seat gs p.seat_index;
  legal = legal_actions gs p;
}

-- The song that a viewer is shown, if there is one.
unfoldable pub shown_song : Option SongState → Bool → ViewerClass → Option SongView
shown_song none over class = none
shown_song (some s) over class = some (song_view s over class)

unfoldable pub shown_pending :
    Option Pending → ViewerClass → Option Participant → Option PendingView
shown_pending none class p = none
shown_pending (some pending) class p = some (pending_view pending class p)

-- `buildView`
unfoldable pub build_view : Pack → GameState → ℕ → GameView
build_view pack gs user =
    let viewer = viewer_of gs user in
    record {
      pack_name = pack.name;
      phase = gs.phase;
      round_no = gs.round_no;
      active_team = gs.active_team;
      own = own_view gs viewer.1;
      teams = teams_view gs;
      participants = participants_view gs;
      cells = cells_view pack gs;
      history = history_view gs;
      results = results_view gs.results;
      song = shown_song gs.song (is_song_finished gs) viewer.0;
      pending = shown_pending gs.pending viewer.0 viewer.1;
    }
