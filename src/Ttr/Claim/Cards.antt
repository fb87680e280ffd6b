-- ===== src/Ttr/Claim/Cards.antt =====
-- claim.go: the train cards as a route is paid for and a tunnel is revealed.
use bgex_backend.Base.{
  ℕ, zero, suc, ◌+◌, ◌≡◌, ◌∙◌, refl, ap, subst, true, List, ◌∷◌, some, none, ◌==◌, find_first,
  find_first-update_first, ok, >>=-eq-ok, or_raise-eq-ok, arith, Bool-cases, Option-cases, inl, inr,
}
use bgex_backend.Engine.{illegal_action}
use bgex_backend.Ttr.State.{
  Player, Piles, PendingTunnel, GameState, Route, Map, Engine, has_user, write_player,
  awaiting_tunnel,
}
use bgex_backend.Ttr.Colors.{is_card_color, count_color, points_for_length}
use bgex_backend.Ttr.Piles.{pop_draw_pile}
use bgex_backend.Ttr.Piles.Counts.{piles_count, KeepsCards, piles_count-pop_draw_pile}
use bgex_backend.Ttr.Cards.{
  free_cards, total_cards, Conserves, free_cards-discard, free_cards-write_player, total_cards_free,
  done_injective, held_by_tunnel,
}
use bgex_backend.Ttr.TurnFlow.{discard}
use bgex_backend.Ttr.TurnFlow.Cards.{end_turn-Conserves}
use bgex_backend.Ttr.Payment.{debit, credit, discard_pay}
use bgex_backend.Ttr.Payment.Cards.{IsCovered, free_cards-debit, free_cards-discard_pay}
use bgex_backend.Ttr.Claim.{
  route_by_id, claim_points, close_sibling, finish_claim, claim_and_end, reveal_cards,
  tunnel_reveal_count, matches, decide_tunnel, new_tunnel, begin_tunnel_claim, commit_claim,
  refund_tunnel, both_payments, commit_tunnel_accept,
}

-- The player who is found under an id after a write is the one written.
pub found_written :
    (p q : Player) (gs : GameState)
    → find_first (has_user q.user_id) gs.players ≡ some p
    → find_first (has_user q.user_id) (write_player q gs).players ≡ some q
unfolding write_player
found_written p q gs found =
    find_first-update_first (has_user q.user_id) q gs.players p found (ground arith)

module _ (e : Engine) (keeps : KeepsCards e) (c : ℕ) (card : is_card_color c ≡ true) where
  abbrev claimed : GameState → Player → Route → (ℕ → ℕ) → ℕ → GameState
  claimed gs p r pay points = write_player (claim_points p r points) (record (discard_pay pay gs) {
    route_owner = (r.id, p.seat_index) ∷ gs.route_owner;
    closed_routes = close_sibling r.pair gs;
  })

  free_cards-claimed :
      (gs : GameState) (p : Player) (r : Route) (pay : ℕ → ℕ) (points : ℕ)
      → find_first (has_user p.user_id) gs.players ≡ some p
      → free_cards c (claimed gs p r pay points) ≡ free_cards c gs + pay c
  unfolding claim_points
  free_cards-claimed gs p r pay points found =
      let paid = record (discard_pay pay gs) {
        route_owner = (r.id, p.seat_index) ∷ gs.route_owner;
        closed_routes = close_sibling r.pair gs;
      } in
      let kept : free_cards c paid ≡ free_cards c (discard_pay pay gs) =
        unfold free_cards in refl in
      omega (
        arith,
        free_cards-write_player c (claim_points p r points) p paid
            (unfold discard_pay discard in found),
        kept,
        free_cards-discard_pay c card pay gs,
      )

  reveal_cards-count :
      (n : ℕ) (ps : Piles)
      → piles_count c (reveal_cards e n ps).1 + count_color c (reveal_cards e n ps).0
        ≡ piles_count c ps
  unfolding reveal_cards
  reveal_cards-count zero ps = omega arith
  reveal_cards-count (suc n) ps = elim (Option-cases (pop_draw_pile e ps).0) [
    | inl nothing ↦
        rw (nothing, reveal_cards) (ground (arith, piles_count-pop_draw_pile e keeps c ps, nothing))
    | inr (d, popped) ↦
        rw (popped, reveal_cards)
          (ground (
            arith,
            piles_count-pop_draw_pile e keeps c ps,
            popped,
            reveal_cards-count n (pop_draw_pile e ps).1,
          ))
  ]

  module _ (m : Map) where
    -- The payment is out of the hand, and the claim discards it.
    pub claim_and_end-Conserves :
        (gs mid : GameState) (p : Player) (r : Route) (pay : ℕ → ℕ) (moved : GameState)
        → find_first (has_user p.user_id) mid.players ≡ some p
        → free_cards c mid + pay c ≡ total_cards c gs
        → claim_and_end e m mid p r pay ≡ ok moved
        → Conserves c gs moved
    unfolding claim_and_end finish_claim
    claim_and_end-Conserves gs mid p r pay moved found paid done =
        let ((claimer, after), finished, ended) = >>=-eq-ok (finish_claim mid p r pay) _ done in
        let (points, priced, out) = >>=-eq-ok (points_for_length r.length) _ finished in
        end_turn-Conserves e m c (claim_points p r points) gs (claimed mid p r pay points) moved
          (ground (arith, out, ended)) (free_cards-claimed mid p r pay points found ∙ paid)

    abbrev asked : GameState → Route → (ℕ → ℕ) → ℕ → List ℕ → GameState
    asked gs r pay color revealed = record gs {
      pending_tunnel = some (new_tunnel r pay color revealed);
      phase = awaiting_tunnel;
    }

    asked_total :
        (gs mid : GameState) (r : Route) (pay : ℕ → ℕ) (color : ℕ) (revealed : List ℕ)
        → free_cards c mid + pay c + count_color c revealed ≡ total_cards c gs
        → total_cards c (asked mid r pay color revealed) ≡ total_cards c gs
    unfolding total_cards free_cards
    asked_total gs mid r pay color revealed paid = omega (arith, paid)

    -- A surcharge to decide: the tunnel holds the payment and the revealed cards.
    asked-Conserves :
        (gs mid : GameState) (r : Route) (pay : ℕ → ℕ) (color : ℕ) (revealed : List ℕ)
        → free_cards c mid + pay c + count_color c revealed ≡ total_cards c gs
        → Conserves c gs (asked mid r pay color revealed)
    asked-Conserves gs mid r pay color revealed paid = record {
      same_total = asked_total gs mid r pay color revealed paid;
      still_settled = λ waits. absurd (cc);
    }

    -- A tunnel that is cleared gives its revealed cards to the discard pile.
    free_cards-cleared :
        (gs : GameState) (pt : PendingTunnel)
        → free_cards c (record (discard pt.revealed gs) { pending_tunnel = none })
          ≡ free_cards c gs + count_color c pt.revealed
    unfolding free_cards
    free_cards-cleared gs pt = unfold free_cards in free_cards-discard c pt.revealed gs

    total_cards_held :
        (gs : GameState) (pt : PendingTunnel)
        → gs.pending_tunnel ≡ some pt
        → total_cards c gs ≡ free_cards c gs + (pt.base_payment c + count_color c pt.revealed)
    unfolding total_cards
    total_cards_held gs pt pending = omega (arith, ap (held_by_tunnel c) pending)

    decide_tunnel-Conserves :
        (gs mid : GameState) (p : Player) (r : Route) (pay : ℕ → ℕ) (color : ℕ) (revealed : List ℕ)
        (moved : GameState)
        → find_first (has_user p.user_id) mid.players ≡ some p
        → mid.pending_tunnel ≡ none
        → free_cards c mid + pay c + count_color c revealed ≡ total_cards c gs
        → decide_tunnel e m mid p r pay color revealed ≡ ok moved
        → Conserves c gs moved
    unfolding decide_tunnel
    decide_tunnel-Conserves gs mid p r pay color revealed moved found no_tunnel paid done =
        elim (Bool-cases (matches color revealed == 0)) [
          | inl free ↦
              claim_and_end-Conserves gs (discard revealed mid) p r pay moved
                (unfold discard in found) (omega (arith, free_cards-discard c revealed mid, paid))
                (ground (arith, done, free))
          | inr costs ↦
              subst (Conserves c gs)
                (done_injective (asked mid r pay color revealed) moved
                  (ground (arith, done, costs)))
                (asked-Conserves gs mid r pay color revealed paid)
        ]

    pub begin_tunnel_claim-Conserves :
        (gs : GameState) (p : Player) (r : Route) (pay : ℕ → ℕ) (color : ℕ) (moved : GameState)
        → find_first (has_user p.user_id) gs.players ≡ some p
        → gs.pending_tunnel ≡ none
        → IsCovered (p.hand c) (pay c)
        → begin_tunnel_claim e m gs p r pay color ≡ ok moved
        → Conserves c gs moved
    unfolding begin_tunnel_claim
    begin_tunnel_claim-Conserves gs p r pay color moved found no_tunnel covered done =
        let revealed = reveal_cards e tunnel_reveal_count gs.piles in
        let shown = record gs { piles = revealed.1 } in
        let counted : free_cards c shown + count_color c revealed.0 ≡ free_cards c gs =
          unfold free_cards in omega (arith, reveal_cards-count tunnel_reveal_count gs.piles) in
        decide_tunnel-Conserves gs (write_player (debit pay p) shown) (debit pay p) r pay color
          revealed.0 moved (found_written p (debit pay p) shown (unfold debit in found))
          (unfold write_player in no_tunnel)
          (omega (
            arith,
            free_cards-debit c card pay p shown found covered,
            counted,
            total_cards_free c gs no_tunnel,
          ))
          done

    pub commit_claim-Conserves :
        (gs : GameState) (p : Player) (r : Route) (pay : ℕ → ℕ) (moved : GameState)
        → find_first (has_user p.user_id) gs.players ≡ some p
        → gs.pending_tunnel ≡ none
        → IsCovered (p.hand c) (pay c)
        → commit_claim e m gs p r pay ≡ ok moved
        → Conserves c gs moved
    unfolding commit_claim
    commit_claim-Conserves gs p r pay moved found no_tunnel covered done =
        claim_and_end-Conserves gs (write_player (debit pay p) gs) (debit pay p) r pay moved
          (found_written p (debit pay p) gs (unfold debit in found))
          (omega (
            arith,
            free_cards-debit c card pay p gs found covered,
            total_cards_free c gs no_tunnel,
          ))
          done

    -- A declined surcharge: the payment returns to the hand, the revealed cards are discarded.
    pub refund_tunnel-Conserves :
        (gs : GameState) (p : Player) (pt : PendingTunnel) (moved : GameState)
        → find_first (has_user p.user_id) gs.players ≡ some p
        → gs.pending_tunnel ≡ some pt
        → refund_tunnel e m gs p pt ≡ ok moved
        → Conserves c gs moved
    unfolding refund_tunnel credit
    refund_tunnel-Conserves gs p pt moved found pending done =
        let cleared = record (discard pt.revealed gs) { pending_tunnel = none } in
        end_turn-Conserves e m c (credit pt.base_payment p) gs
          (write_player (credit pt.base_payment p) cleared) moved done
          (omega (
            arith,
            free_cards-write_player c (credit pt.base_payment p) p cleared
                (unfold discard in found),
            free_cards-cleared gs pt,
            total_cards_held gs pt pending,
          ))

    pub commit_tunnel_accept-Conserves :
        (gs : GameState) (p : Player) (pt : PendingTunnel) (extra : ℕ → ℕ) (moved : GameState)
        → find_first (has_user p.user_id) gs.players ≡ some p
        → gs.pending_tunnel ≡ some pt
        → IsCovered (p.hand c) (extra c)
        → commit_tunnel_accept e m gs p pt extra ≡ ok moved
        → Conserves c gs moved
    unfolding commit_tunnel_accept
    commit_tunnel_accept-Conserves gs p pt extra moved found pending covered done =
        let cleared = record (discard pt.revealed gs) { pending_tunnel = none } in
        let found_there : find_first (has_user p.user_id) cleared.players ≡ some p =
          unfold discard in found in
        let (r, known, claims) = or_raise-eq-ok (route_by_id m pt.route_id) illegal_action _ done in
        claim_and_end-Conserves gs (write_player (debit extra p) cleared) (debit extra p) r
          (both_payments pt.base_payment extra) moved
          (found_written p (debit extra p) cleared (unfold debit in found_there))
          (omega (
            arith,
            free_cards-debit c card extra p cleared found_there covered,
            free_cards-cleared gs pt,
            total_cards_held gs pt pending,
          ))
          claims
