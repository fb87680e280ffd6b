-- ===== src/Ttr/Claim.antt =====
-- claim.go: claiming a route, and the surcharge of a tunnel.
pub mod Cards
pub mod Conservation
use bgex_backend.Base.{
  ℕ, zero, suc, ◌+◌, ◌-◌, Bool, true, false, not, ◌&&◌, ◌||◌, Option, none, some, List, [], ◌∷◌,
  ◌++◌, ltb, leb, ◌==◌, if◌then◌else◌, length, count_if, find_first, contains, Result, ok, err,
  ◌>>=◌, ◌>>◌, raise_if, or_raise,
}
use bgex_backend.Engine.{Error, illegal_action}
use bgex_backend.Ttr.State.{
  awaiting_tunnel, Player, Piles, PendingTunnel, GameState, Route, Map, Engine, WirePayment,
  ResolveDecisionPayload, color_loco, write_player, lookup,
}
use bgex_backend.Ttr.Colors.{points_for_length}
use bgex_backend.Ttr.Piles.{pop_draw_pile}
use bgex_backend.Ttr.TurnFlow.{end_turn, discard}
use bgex_backend.Ttr.Payment.{
  exceeds, payment_to_colors, validate_payment, debit, credit, discard_pay, SurchargeCheck, fits,
  unaffordable, malformed, check_surcharge,
}

abbrev pub tunnel_reveal_count : ℕ
tunnel_reveal_count = 3

abbrev pub has_id : ℕ → Route → Bool
has_id i r = r.id == i

-- `RouteByID`
unfoldable pub route_by_id : Map → ℕ → Option Route
route_by_id m i = find_first (has_id i) m.routes

abbrev pub has_entry : Option ℕ → Bool
has_entry none = false
has_entry (some v) = true

abbrev pub owns_sibling : Player → Option ℕ → Bool
owns_sibling p none = false
owns_sibling p (some sibling) = contains p.claimed_route_ids sibling

-- `claimability`, of a route that exists.
unfoldable pub claimability : GameState → Player → Route → Result Error (Unit {0})
claimability gs p r = do
  raise_if (has_entry (lookup gs.route_owner r.id)) illegal_action
  raise_if (contains gs.closed_routes r.id) illegal_action
  raise_if (owns_sibling p r.pair) illegal_action
  raise_if (exceeds p.trains_left r.length) illegal_action

-- In a game of two or three players a double route's sibling closes.
unfoldable pub close_sibling : Option ℕ → GameState → List ℕ
close_sibling none gs = gs.closed_routes
close_sibling (some sibling) gs =
    if leb (length gs.players) 3 then gs.closed_routes ++ sibling ∷ [] else gs.closed_routes

unfoldable pub claim_points : Player → Route → ℕ → Player
claim_points p r points = record p {
  trains_left = p.trains_left - r.length;
  route_score = p.route_score + points;
  claimed_route_ids = p.claimed_route_ids ++ r.id ∷ [];
}

-- `finishClaim`: the player as written, and the state.
unfoldable pub finish_claim :
    GameState → Player → Route → (ℕ → ℕ) → Result Error (Player × GameState)
finish_claim gs p r pay = do
  points ← points_for_length r.length
  let claimer = claim_points p r points
  ok (
    claimer,
    write_player claimer (record (discard_pay pay gs) {
      route_owner = (r.id, p.seat_index) ∷ gs.route_owner;
      closed_routes = close_sibling r.pair gs;
    }),
  )

-- `finishClaim`, and the end of the turn.
unfoldable pub claim_and_end :
    Engine → Map → GameState → Player → Route → (ℕ → ℕ) → Result Error GameState
claim_and_end e m gs p r pay = do
  (claimer, claimed) ← finish_claim gs p r pay
  end_turn e m claimer claimed

-- The cards that a reveal pops, and the piles after it.
unfoldable pub reveal_cards : Engine → ℕ → Piles → List ℕ × Piles
reveal_cards e zero ps = ([], ps)
reveal_cards e (suc n) ps =
    let popped = pop_draw_pile e ps in
    let rest = reveal_cards e n popped.1 in
    elim popped.0 [ none ↦ ([], popped.1) | some c ↦ (c ∷ rest.0, rest.1) ]

abbrev pub is_match : ℕ → ℕ → Bool
is_match payment_color c = (c == color_loco) || (c == payment_color)

-- The cards revealed that cost a card more.
unfoldable pub matches : ℕ → List ℕ → ℕ
matches payment_color = count_if (is_match payment_color)

abbrev pub new_tunnel : Route → (ℕ → ℕ) → ℕ → List ℕ → PendingTunnel
new_tunnel r pay payment_color revealed = record {
  route_id = r.id;
  base_payment = pay;
  payment_color = payment_color;
  revealed = revealed;
  surcharge = matches payment_color revealed;
}

-- After the reveal: claim at once, or leave the surcharge to be decided.
unfoldable pub decide_tunnel :
    Engine → Map → GameState → Player → Route → (ℕ → ℕ) → ℕ → List ℕ → Result Error GameState
decide_tunnel e m gs p r pay payment_color revealed =
    if matches payment_color revealed == 0
    then claim_and_end e m (discard revealed gs) p r pay
    else ok (record gs {
      pending_tunnel = some (new_tunnel r pay payment_color revealed);
      phase = awaiting_tunnel;
    })

-- `beginTunnelClaim`
unfoldable pub begin_tunnel_claim :
    Engine → Map → GameState → Player → Route → (ℕ → ℕ) → ℕ → Result Error GameState
begin_tunnel_claim e m gs p r pay payment_color =
    let payer = debit pay p in
    let revealed = reveal_cards e tunnel_reveal_count gs.piles in
    decide_tunnel e m (write_player payer (record gs { piles = revealed.1 })) payer r pay
      payment_color revealed.0

-- `commitClaim`, and the end of the turn.
unfoldable pub commit_claim :
    Engine → Map → GameState → Player → Route → (ℕ → ℕ) → Result Error GameState
commit_claim e m gs p r pay =
    let payer = debit pay p in claim_and_end e m (write_player payer gs) payer r pay

-- `applyClaimRoute`
unfoldable pub apply_claim_route :
    Engine → GameState → Player → ℕ → WirePayment → Result Error GameState
apply_claim_route e gs p route_id payment = do
  m ← e.get_map gs.map_id gs.map_version
  r ← or_raise (route_by_id m route_id) illegal_action
  claimability gs p r
  pay ← payment_to_colors payment
  payment_color ← validate_payment r p.hand pay
  if r.tunnel then begin_tunnel_claim e m gs p r pay payment_color else commit_claim e m gs p r pay

-- `refundTunnel`
unfoldable pub refund_tunnel :
    Engine → Map → GameState → Player → PendingTunnel → Result Error GameState
refund_tunnel e m gs p pt =
    let refunded = credit pt.base_payment p in
    end_turn e m refunded
      (write_player refunded (record (discard pt.revealed gs) { pending_tunnel = none }))

abbrev pub both_payments : (ℕ → ℕ) → (ℕ → ℕ) → ℕ → ℕ
both_payments base extra c = base c + extra c

-- `commitTunnelAccept`
unfoldable pub commit_tunnel_accept :
    Engine → Map → GameState → Player → PendingTunnel → (ℕ → ℕ) → Result Error GameState
commit_tunnel_accept e m gs p pt extra = do
  r ← or_raise (route_by_id m pt.route_id) illegal_action
  let payer = debit extra p
  claim_and_end e m (write_player payer (record (discard pt.revealed gs) { pending_tunnel = none }))
      payer r (both_payments pt.base_payment extra)

-- `validateTunnelSurcharge`
unfoldable pub validate_tunnel_surcharge :
    Engine → PendingTunnel → (ℕ → ℕ) → (ℕ → ℕ) → SurchargeCheck
validate_tunnel_surcharge e pt hand extra = check_surcharge pt hand extra e.range_order 0

-- An accepted surcharge: pay it, take the base payment back, or answer with the error.
unfoldable pub settle_surcharge :
    Engine
    → Map
    → GameState
    → Player
    → PendingTunnel
    → (ℕ → ℕ)
    → SurchargeCheck
    → Result Error GameState
settle_surcharge e m gs p pt extra fits = commit_tunnel_accept e m gs p pt extra
settle_surcharge e m gs p pt extra unaffordable = refund_tunnel e m gs p pt
settle_surcharge e m gs p pt extra malformed = err illegal_action

abbrev pub accepts : Option Bool → Bool
accepts none = false
accepts (some b) = b

unfoldable pub accept_tunnel :
    Engine → Map → GameState → Player → PendingTunnel → WirePayment → Result Error GameState
accept_tunnel e m gs p pt payment = do
  extra ← payment_to_colors payment
  settle_surcharge e m gs p pt extra (validate_tunnel_surcharge e pt p.hand extra)

-- `resolveTunnel`
unfoldable pub resolve_tunnel :
    Engine → Map → GameState → Player → ResolveDecisionPayload → Result Error GameState
resolve_tunnel e m gs p pl = do
  pt ← or_raise gs.pending_tunnel illegal_action
  if accepts pl.accept
      then accept_tunnel e m gs p pt pl.extra_payment
      else refund_tunnel e m gs p pt
