-- ===== src/Ttr/Cards.antt =====
-- Where the train cards of a color are: in the piles, in the hands, and held by a pending tunnel.
use bgex_backend.Base.{
  ℕ, zero, suc, ◌+◌, ◌≡◌, ◌∙◌, refl, ap, Bool, true, false, Option, none, some, List, [], ◌∷◌,
  sum_by, ◌==◌, if◌then◌else◌, replicate, find_first, Result, ok, sum_by-update_first, arith,
}
use bgex_backend.Engine.{Error}
use bgex_backend.Ttr.State.{
  Phase, awaiting_tunnel, finished, Player, PendingTunnel, GameState, has_user, write_player,
}
use bgex_backend.Ttr.Colors.{
  is_card_color, deck_composition, canonical_discard_order, count_color, cards_of,
}
use bgex_backend.Ttr.Piles.Counts.{piles_count, count_color-append}
use bgex_backend.Ttr.TurnFlow.{discard}

-- In the piles and in the hands.
unfoldable pub free_cards : ℕ → GameState → ℕ
free_cards c gs = piles_count c gs.piles + sum_by (λ p. p.hand c) gs.players

abbrev pub held_by_tunnel : ℕ → Option PendingTunnel → ℕ
held_by_tunnel c none = 0
held_by_tunnel c (some pt) = pt.base_payment c + count_color c pt.revealed

unfoldable pub total_cards : ℕ → GameState → ℕ
total_cards c gs = free_cards c gs + held_by_tunnel c gs.pending_tunnel

-- The phases in which no tunnel may be pending; a game can finish while one is.
abbrev pub needs_no_tunnel : Phase → Bool
needs_no_tunnel awaiting_tunnel = false
needs_no_tunnel finished = false
needs_no_tunnel _ = true

abbrev pub Settled : GameState → Type 0
Settled gs = needs_no_tunnel gs.phase ≡ true → gs.pending_tunnel ≡ none

pub record Conserves (c : ℕ) (gs moved : GameState) : Type 0 where
  pub same_total : total_cards c moved ≡ total_cards c gs
  pub still_settled : Settled moved

count_color-replicate : (c d n : ℕ) → count_color c (replicate n d) ≡ (if d == c then n else 0)
count_color-replicate c d zero = ground arith
count_color-replicate c d (suc n) = ground (arith, count_color-replicate c d n)

abbrev share : ℕ → (ℕ → ℕ) → ℕ → ℕ
share c counts d = if d == c then counts d else 0

count_color-cards_of :
    (c : ℕ) (counts : ℕ → ℕ) (cs : List ℕ)
    → count_color c (cards_of counts cs) ≡ sum_by (share c counts) cs
unfolding cards_of
count_color-cards_of c counts [] = refl
count_color-cards_of c counts (d ∷ ds) = omega (
  arith,
  count_color-append c (replicate (counts d) d) (cards_of counts ds),
  count_color-replicate c d (counts d),
  count_color-cards_of c counts ds,
)

share_canonical :
    (c : ℕ) (counts : ℕ → ℕ)
    → is_card_color c ≡ true
    → sum_by (share c counts) canonical_discard_order ≡ counts c
unfolding is_card_color deck_composition
share_canonical zero counts h = absurd (cc)
share_canonical (suc zero) counts h = omega arith
share_canonical (suc (suc zero)) counts h = omega arith
share_canonical (suc (suc (suc zero))) counts h = omega arith
share_canonical (suc (suc (suc (suc zero)))) counts h = omega arith
share_canonical (suc (suc (suc (suc (suc zero))))) counts h = omega arith
share_canonical (suc (suc (suc (suc (suc (suc zero)))))) counts h = omega arith
share_canonical (suc (suc (suc (suc (suc (suc (suc zero))))))) counts h = omega arith
share_canonical (suc (suc (suc (suc (suc (suc (suc (suc zero)))))))) counts h = omega arith
share_canonical (suc (suc (suc (suc (suc (suc (suc (suc (suc zero))))))))) counts h = absurd (cc)
share_canonical (suc (suc (suc (suc (suc (suc (suc (suc (suc (suc zero)))))))))) counts h =
    omega arith
share_canonical (suc (suc (suc (suc (suc (suc (suc (suc (suc (suc (suc n))))))))))) counts h =
    absurd (ground arith)

-- The cards of a hand or payment, as the discard pile gets them.
pub count_color-discarded :
    (c : ℕ) (counts : ℕ → ℕ)
    → is_card_color c ≡ true
    → count_color c (cards_of counts canonical_discard_order) ≡ counts c
count_color-discarded c counts h =
    omega (arith, count_color-cards_of c counts canonical_discard_order, share_canonical c counts h)

abbrev pub done_with : GameState → Result Error GameState
done_with gs = ok gs

pub done_injective : (gs moved : GameState) → done_with gs ≡ ok moved → gs ≡ moved
done_injective gs moved same = ground (arith, same)

module _ (c : ℕ) where
  pub free_cards-discard :
      (cards : List ℕ) (gs : GameState)
      → free_cards c (discard cards gs) ≡ free_cards c gs + count_color c cards
  unfolding free_cards discard piles_count
  free_cards-discard cards gs = omega (arith, count_color-append c gs.piles.discard_pile cards)

  -- A write changes the cards by what it changes the hand of the player who is found.
  pub free_cards-write_player :
      (p old : Player) (gs : GameState)
      → find_first (has_user p.user_id) gs.players ≡ some old
      → free_cards c (write_player p gs) + old.hand c ≡ free_cards c gs + p.hand c
  unfolding free_cards write_player
  free_cards-write_player p old gs found =
      let counted =
        sum_by-update_first (λ (q : Player). q.hand c) (has_user p.user_id) (λ _. p) gs.players old
          found in
      omega (arith, counted)

  -- Without a pending tunnel every card is free.
  pub total_cards_free :
      (gs : GameState) → gs.pending_tunnel ≡ none → total_cards c gs ≡ free_cards c gs
  unfolding total_cards
  total_cards_free gs no_tunnel = omega (arith, ap (held_by_tunnel c) no_tunnel)

  -- A move that leaves no tunnel pending and no card behind.
  pub free_Conserves :
      (gs moved : GameState)
      → moved.pending_tunnel ≡ none
      → free_cards c moved ≡ total_cards c gs
      → Conserves c gs moved
  free_Conserves gs moved no_tunnel same = record {
    same_total = total_cards_free moved no_tunnel ∙ same;
    still_settled = λ _. no_tunnel;
  }
