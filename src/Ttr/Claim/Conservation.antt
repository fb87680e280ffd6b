-- ===== src/Ttr/Claim/Conservation.antt =====
-- claim.go: the train cards over `applyClaimRoute` and `resolveTunnel`, branch by branch.
use bgex_backend.Base.{
  ◌<◌, All, find_first-All, ℕ, ◌≡◌, refl, true, some, none, find_first, contains, ok, >>=-eq-ok,
  or_raise-eq-ok, arith, Bool-cases, inl, inr,
}
use bgex_backend.Engine.{illegal_action}
use bgex_backend.Ttr.State.{
  Player, PendingTunnel, GameState, Map, Engine, WirePayment, ResolveDecisionPayload, has_user,
}
use bgex_backend.Ttr.Colors.{is_card_color}
use bgex_backend.Ttr.Piles.Counts.{KeepsCards}
use bgex_backend.Ttr.Cards.{Conserves}
use bgex_backend.Ttr.Payment.{
  payment_to_colors, validate_payment, SurchargeCheck, fits, unaffordable, malformed,
}
use bgex_backend.Ttr.Payment.Cards.{
  validate_payment-Covers, check_surcharge-Covers, Covers-at, Covers-in,
}
use bgex_backend.Ttr.Claim.{
  has_id, route_by_id, apply_claim_route, claimability, validate_tunnel_surcharge, settle_surcharge,
  accepts, accept_tunnel, resolve_tunnel,
}
use bgex_backend.Ttr.Claim.Cards.{
  begin_tunnel_claim-Conserves, commit_claim-Conserves, refund_tunnel-Conserves,
  commit_tunnel_accept-Conserves,
}

-- A Go map is ranged over completely.
abbrev pub RangesAll : Engine → Type 0
RangesAll e = (c : ℕ) → is_card_color c ≡ true → contains e.range_order c ≡ true

-- The lengths of the routes, and the cost of a station, are numbers of 32 bits.
abbrev pub IsBounded : Map → Type 0
IsBounded m = All (λ r. r.length < 2147483648) m.routes × (m.stations_per_player < 2147483647)

-- The map provider gives out only such maps.
abbrev pub HasBoundedMaps : Engine → Type 0
HasBoundedMaps e = (id version : ℕ) (m : Map) → e.get_map id version ≡ ok m → IsBounded m

module _ (e : Engine) (keeps : KeepsCards e) (c : ℕ) (card : is_card_color c ≡ true) where
  pub apply_claim_route-Conserves :
      (bounded : HasBoundedMaps e) (gs : GameState) (p : Player) (id : ℕ) (payment : WirePayment)
      (moved : GameState)
      → find_first (has_user p.user_id) gs.players ≡ some p
      → gs.pending_tunnel ≡ none
      → apply_claim_route e gs p id payment ≡ ok moved
      → Conserves c gs moved
  unfolding apply_claim_route route_by_id
  apply_claim_route-Conserves bounded gs p id payment moved found no_tunnel done =
      let (m, mapped, step1) = >>=-eq-ok (e.get_map gs.map_id gs.map_version) _ done in
      let (r, known, step2) = or_raise-eq-ok (route_by_id m id) illegal_action _ step1 in
      let (free, claimable, step3) = >>=-eq-ok (claimability gs p r) _ step2 in
      let (pay, read, step4) = >>=-eq-ok (payment_to_colors payment) _ step3 in
      let (color, valid, step5) = >>=-eq-ok (validate_payment r p.hand pay) _ step4 in
      let small =
        find_first-All (λ s. s.length < 2147483648) (has_id id) m.routes r known
          (bounded gs.map_id gs.map_version m mapped).0 in
      let covered =
        Covers-at p.hand pay c card (validate_payment-Covers r p.hand pay color valid small) in
      elim (Bool-cases r.tunnel) [
        | inl through ↦
            begin_tunnel_claim-Conserves e keeps c card m gs p r pay color moved found no_tunnel
              covered (ground (arith, step5, through))
        | inr plain ↦
            commit_claim-Conserves e keeps c card m gs p r pay moved found no_tunnel covered
              (ground (arith, step5, plain))
      ]

  module _ (ranges : RangesAll e) (m : Map) where
    settle_surcharge-Conserves :
        (gs : GameState) (p : Player) (pt : PendingTunnel) (extra : ℕ → ℕ) (check : SurchargeCheck)
        (moved : GameState)
        → find_first (has_user p.user_id) gs.players ≡ some p
        → gs.pending_tunnel ≡ some pt
        → validate_tunnel_surcharge e pt p.hand extra ≡ check
        → settle_surcharge e m gs p pt extra check ≡ ok moved
        → Conserves c gs moved
    unfolding settle_surcharge validate_tunnel_surcharge
    settle_surcharge-Conserves gs p pt extra fits moved found pending checked done =
        commit_tunnel_accept-Conserves e keeps c card m gs p pt extra moved found pending
          (Covers-in p.hand extra e.range_order c (ranges c card)
            (check_surcharge-Covers pt p.hand extra e.range_order 0 checked))
          done
    settle_surcharge-Conserves gs p pt extra unaffordable moved found pending checked done =
        refund_tunnel-Conserves e keeps c card m gs p pt moved found pending done
    settle_surcharge-Conserves gs p pt extra malformed moved found pending checked done =
        absurd (cc)

    pub resolve_tunnel-Conserves :
        (gs : GameState) (p : Player) (pl : ResolveDecisionPayload) (moved : GameState)
        → find_first (has_user p.user_id) gs.players ≡ some p
        → resolve_tunnel e m gs p pl ≡ ok moved
        → Conserves c gs moved
    unfolding resolve_tunnel accept_tunnel
    resolve_tunnel-Conserves gs p pl moved found done =
        let (pt, pending, step1) = or_raise-eq-ok gs.pending_tunnel illegal_action _ done in
        elim (Bool-cases (accepts pl.accept)) [
          | inr declined ↦
              refund_tunnel-Conserves e keeps c card m gs p pt moved found pending
                (ground (arith, step1, declined))
          | inl accepted ↦
              let pays : accept_tunnel e m gs p pt pl.extra_payment ≡ ok moved =
                ground (arith, step1, accepted) in
              let (extra, read, settled) = >>=-eq-ok (payment_to_colors pl.extra_payment) _ pays in
              settle_surcharge-Conserves gs p pt extra _ moved found pending refl settled
        ]
