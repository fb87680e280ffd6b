-- ===== src/SongGuess/View/Secrecy.antt =====
-- What the views keep to themselves.
use bgex_backend.SongGuess.View.Viewers.{
  no_judge_class, in_play_unfinished, IsNoJudge, outsider_hidden, IsInPlay, IsOutsider,
}
use bgex_backend.SongGuess.Play.{is_some_text}
use bgex_backend.SongGuess.Legal.{
  any_closed, ActionType, offered_if, skip_offer, legal_actions, awaiting_actions,
  blocks_remain_closed, is_opponent_captain_seat, is_active_captain_seat, song_result_actions,
  pending_judgement_actions, song_play_actions, round_select_actions, roster_actions, actions_in,
}
use bgex_backend.Base.{
  if◌then◌else◌, ◌∙◌, ◌++◌, ℕ, suc, ◌≡◌, refl, Bool, true, false, Option, some, none, List, [], ◌∷◌,
  length, get_elem?, arith, ap,
}
use bgex_backend.SongGuess.State.{
  awaiting_unspecified, awaiting_last_chance, awaiting_steal, awaiting_active, participant_by_user,
  effective_phase, Awaiting, judge_vacant, song_result, pending_judgement, round_select, song_play,
  Phase, Participant, captain_of, is_host_seat, potential_of, revealed_count, SongState, GameState,
  Pending, Text, Pack,
}
use bgex_backend.SongGuess.View.{
  pending_guess_text_visible, pending_view, shown_song, shown_pending, history_view, cells_view,
  participants_view, teams_view, viewer_of, is_song_finished, build_view, own_view, is_judge_class,
  block_view, blocks_view, song_view, blocks_from, ViewerClass,
}

-- Two songs that look the same while they are played: of the blocks, the open ones agree.
pub record LooksLike (s t : SongState) : Type 0 where
  pub like_language : t.language_name ≡ s.language_name
  pub like_bucket : t.bucket ≡ s.bucket
  pub like_steal : t.steal_allowed ≡ s.steal_allowed
  pub like_awaiting : t.awaiting ≡ s.awaiting
  pub like_mask : t.revealed_mask ≡ s.revealed_mask
  pub like_length : length t.blocks ≡ length s.blocks
  pub like_open :
      (i : ℕ)
      → get_elem? s.revealed_mask i ≡ some true
      → get_elem? t.blocks i ≡ get_elem? s.blocks i

blocks_from-hides :
    (bs cs : List Text) (mask : List Bool)
    → length cs ≡ length bs
    → ((i : ℕ) → get_elem? mask i ≡ some true → get_elem? cs i ≡ get_elem? bs i)
    → blocks_from false cs mask ≡ blocks_from false bs mask
unfolding blocks_from
blocks_from-hides [] [] mask long open_same = refl
blocks_from-hides [] (c ∷ cs) mask long open_same = absurd (omega (arith, long))
blocks_from-hides (b ∷ bs) [] mask long open_same = absurd (omega (arith, long))
blocks_from-hides (b ∷ bs) (c ∷ cs) [] long open_same =
    ap (λ rest. block_view false b ∷ rest)
      (blocks_from-hides bs cs [] (omega (arith, long)) (λ i found. absurd (cc)))
blocks_from-hides (b ∷ bs) (c ∷ cs) (true ∷ mask) long open_same =
    let first : c ≡ b = let same = open_same 0 refl in cc in
    rw first (
      ap (λ rest. block_view true b ∷ rest)
        (blocks_from-hides bs cs mask (omega (arith, long)) (λ i. open_same (suc i))))
blocks_from-hides (b ∷ bs) (c ∷ cs) (false ∷ mask) long open_same =
    ap (λ rest. block_view false b ∷ rest)
      (blocks_from-hides bs cs mask (omega (arith, long)) (λ i. open_same (suc i)))

song_view-hides :
    (s t : SongState) (class : ViewerClass)
    → LooksLike s t
    → is_judge_class class ≡ false
    → song_view t false class ≡ song_view s false class
unfolding song_view blocks_view revealed_count potential_of
song_view-hides s t class like plain =
    let blocks : blocks_from false t.blocks s.revealed_mask
        ≡ blocks_from false s.blocks s.revealed_mask =
      blocks_from-hides s.blocks t.blocks s.revealed_mask like.like_length like.like_open in
    rw
      (
        plain, like.like_language, like.like_bucket, like.like_steal, like.like_awaiting,
        like.like_mask, like.like_length, blocks,
      )
      refl

-- The state with another song in its place.
abbrev with_song : GameState → SongState → GameState
with_song gs s = record gs { song = some s }

awaiting_actions-hides :
    (gs : GameState) (p : Participant) (s t : SongState) (w : Awaiting)
    → LooksLike s t
    → awaiting_actions (with_song gs t) p w ≡ awaiting_actions (with_song gs s) p w
unfolding awaiting_actions is_active_captain_seat is_opponent_captain_seat captain_of
    blocks_remain_closed
awaiting_actions-hides gs p s t awaiting_active like =
    ap
      (λ mask.
        offered_if (is_active_captain_seat gs p)
          (ActionType.guess ∷ offered_if (any_closed mask) (ActionType.open_block ∷ [])))
      like.like_mask
awaiting_actions-hides gs p s t awaiting_steal like = refl
awaiting_actions-hides gs p s t awaiting_last_chance like = refl
awaiting_actions-hides gs p s t awaiting_unspecified like = refl

actions_in-hides :
    (gs : GameState) (p : Participant) (s t : SongState) (ph : Phase)
    → LooksLike s t
    → actions_in (with_song gs t) p ph ≡ actions_in (with_song gs s) p ph
unfolding actions_in roster_actions round_select_actions song_play_actions pending_judgement_actions
    song_result_actions is_host_seat is_active_captain_seat is_opponent_captain_seat captain_of
    blocks_remain_closed awaiting_actions
actions_in-hides gs p s t song_play like =
    ap (λ offered. (offered ++ skip_offer gs p) ++ ActionType.resign ∷ [])
      (ap (awaiting_actions (with_song gs t) p) like.like_awaiting
        ∙ awaiting_actions-hides gs p s t s.awaiting like)
actions_in-hides gs p s t Phase.roster like = refl
actions_in-hides gs p s t round_select like = refl
actions_in-hides gs p s t pending_judgement like = refl
actions_in-hides gs p s t song_result like = refl
actions_in-hides gs p s t judge_vacant like = refl
actions_in-hides gs p s t Phase.unspecified like = refl
actions_in-hides gs p s t Phase.finished like = refl

legal_actions-hides :
    (gs : GameState) (p : Participant) (s t : SongState)
    → LooksLike s t
    → legal_actions (with_song gs t) p ≡ legal_actions (with_song gs s) p
unfolding legal_actions
legal_actions-hides gs p s t like =
    ap (λ offered. if p.active then offered else []) (actions_in-hides gs p s t gs.phase like)

own_view-hides :
    (gs : GameState) (p : Option Participant) (s t : SongState)
    → LooksLike s t
    → own_view (with_song gs t) p ≡ own_view (with_song gs s) p
unfolding own_view is_host_seat
own_view-hides gs none s t like = refl
own_view-hides gs (some p) s t like = rw (legal_actions-hides gs p s t like) refl

-- Until the result of a song or the end of the game, a viewer who is not an active judge is
-- shown the same of two songs that differ only in their id, title, artist, media, closed blocks,
-- the offered block of a steal and the fields for their end.
pub build_view-hides :
    (pack : Pack) (gs : GameState) (user : ℕ) (s t : SongState)
    → IsInPlay gs
    → IsNoJudge gs user
    → LooksLike s t
    → build_view pack (with_song gs t) user ≡ build_view pack (with_song gs s) user
unfolding build_view is_song_finished effective_phase viewer_of participant_by_user teams_view
    participants_view cells_view history_view shown_song
build_view-hides pack gs user s t in_play no_judge like =
    let unfinished = in_play_unfinished gs in_play in
    let plain = no_judge_class gs user no_judge in
    let viewer = viewer_of gs user in
    let song = song_view-hides s t viewer.0 like plain in
    let own = own_view-hides gs viewer.1 s t like in
    let frame = build_view pack (with_song gs s) user in
    rw unfinished (
      ap (λ shown. record frame { own = shown; song = some (song_view t false viewer.0) }) own
      ∙ ap (λ shown. record frame { own = own_view (with_song gs s) viewer.1; song = some shown })
          song)

-- The claim is no part of what a viewer is offered.
own_view-pending :
    (gs : GameState) (p : Option Participant) (c d : Option Pending)
    → own_view (record gs { pending = d }) p ≡ own_view (record gs { pending = c }) p
unfolding own_view legal_actions actions_in roster_actions round_select_actions song_play_actions
    pending_judgement_actions song_result_actions is_host_seat is_active_captain_seat
    is_opponent_captain_seat captain_of blocks_remain_closed awaiting_actions
own_view-pending gs p c d = refl

pending_view-hides :
    (c : Pending) (guess : Text) (class : ViewerClass) (p : Option Participant)
    → pending_guess_text_visible class p c ≡ false
    → is_some_text guess ≡ is_some_text c.guess_text
    → pending_view (record c { guess_text = guess }) class p ≡ pending_view c class p
unfolding pending_view pending_guess_text_visible
pending_view-hides c guess class p hidden alike = rw (hidden, alike) refl

-- A viewer who, if still in the game, neither judges nor plays for the claiming team is shown the
-- same of two claims that differ only in the text of the guess, if both have one or neither has.
-- Spectators are such viewers.
pub build_view-hides_guess :
    (pack : Pack) (gs : GameState) (user : ℕ) (c : Pending) (guess : Text)
    → IsOutsider gs user c
    → is_some_text guess ≡ is_some_text c.guess_text
    → build_view pack (record gs { pending = some (record c { guess_text = guess }) }) user
      ≡ build_view pack (record gs { pending = some c }) user
unfolding build_view is_song_finished effective_phase viewer_of participant_by_user teams_view
    participants_view cells_view history_view shown_pending pending_view
build_view-hides_guess pack gs user c guess outside alike =
    let hidden = outsider_hidden gs user c outside in
    let viewer = viewer_of gs user in
    let claimed : GameState = record gs { pending = some c } in
    let other : GameState = record gs { pending = some (record c { guess_text = guess }) } in
    let frame = build_view pack claimed user in
    let shown_same = pending_view-hides c guess viewer.0 viewer.1 hidden alike in
    ap
      (λ shown. record frame {
        own = shown;
        pending = some (pending_view (record c { guess_text = guess }) viewer.0 viewer.1);
      })
      (own_view-pending gs viewer.1 (some c) (some (record c { guess_text = guess })))
    ∙ ap (λ shown. record frame { pending = some shown }) shown_same
