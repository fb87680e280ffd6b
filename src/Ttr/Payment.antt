-- ===== src/Ttr/Payment.antt =====
-- What a player pays with: `paymentToColors` of actions.go, and the checks and the debit of
-- claim.go. A payment is a count for each color, 0 for a color that is not in the Go map; since
-- `paymentToColors` lets only card colors through, those are all the colors to range over.
pub mod Cards
use bgex_backend.Base.{
  ℕ, suc, ◌+◌, ◌-◌, Bool, true, false, not, ◌&&◌, ◌||◌, Option, none, some, List, [], ◌∷◌, ltb, leb,
  ◌==◌, if◌then◌else◌, Result, ok, err, ◌>>=◌, ◌>>◌, raise_if, or_raise,
}
use bgex_backend.Base.Int.{to_int32, less_ℤ, eq_ℤ, opposite, ◌+ℤ◌, ℤ, pos, negsuc, pos_part}
use bgex_backend.Engine.{Error, illegal_action}
use bgex_backend.Ttr.State.{
  Player, PendingTunnel, GameState, Route, WirePayment, color_loco, color_gray,
}
use bgex_backend.Ttr.Colors.{is_card_color, canonical_discard_order, cards_of}
use bgex_backend.Ttr.TurnFlow.{discard}

abbrev pub no_payment : ℕ → ℕ
no_payment c = 0

abbrev pub put : ℕ → ℕ → (ℕ → ℕ) → ℕ → ℕ
put c n pay d = if d == c then n else pay d

unfoldable pub read_entries : (ℕ → ℕ) → WirePayment → Result Error (ℕ → ℕ)
read_entries out [] = ok out
read_entries out (entry ∷ entries) = do
  raise_if (not (ltb 0 (pos_part entry.1))) illegal_action
  c ← or_raise entry.0 illegal_action
  raise_if (not (is_card_color c)) illegal_action
  read_entries (put c (pos_part entry.1) out) entries

-- `paymentToColors`
unfoldable pub payment_to_colors : WirePayment → Result Error (ℕ → ℕ)
payment_to_colors = read_entries no_payment

-- The test of a hand's 32-bit count against a client's, which is converted and may wrap around.
unfoldable pub exceeds : ℕ → ℕ → Bool
exceeds held n = less_ℤ (pos held) (to_int32 (pos n))

-- The variables of the loop over a payment. More than two colors end the loop in an error, so the
-- sum of a payment that gets through stands for one in 64 bits: where that would wrap around it is
-- negative, and no cost either.
pub record Tally : Type 0 where
  pub total : ℕ
  pub payment_color : ℕ
  pub non_loco_seen : Bool

abbrev pub tally_entry : ℕ → ℕ → Tally → Result Error Tally
tally_entry c n t =
    if c == color_loco
    then ok (record t { total = t.total + n })
    else if t.non_loco_seen
    then err illegal_action
    else ok (record { total = t.total + n; payment_color = c; non_loco_seen = true })

-- The loop over a payment.
unfoldable pub tally_payment : (ℕ → ℕ) → (ℕ → ℕ) → List ℕ → Tally → Result Error Tally
tally_payment hand pay [] t = ok t
tally_payment hand pay (c ∷ cs) t =
    let skipped = tally_payment hand pay cs t in
    if pay c == 0 then skipped else (do
      raise_if (exceeds (hand c) (pay c)) illegal_action
      counted ← tally_entry c (pay c) t
      tally_payment hand pay cs counted)

abbrev pub is_cost : ℕ → ℤ → Bool
is_cost total (pos want) = total == want
is_cost total (negsuc n) = false

abbrev pub empty_tally : Tally
empty_tally = record { total = 0; payment_color = color_loco; non_loco_seen = false }

-- `validateSingleColourPayment`
unfoldable pub validate_single_colour_payment : (ℕ → ℕ) → (ℕ → ℕ) → ℤ → Result Error ℕ
validate_single_colour_payment hand pay want = do
  t ← tally_payment hand pay canonical_discard_order empty_tally
  raise_if (not (is_cost t.total want)) illegal_action
  ok t.payment_color

-- `IsFerry`
abbrev pub is_ferry : Route → Bool
is_ferry r = ltb 0 r.locos

abbrev pub wrong_color : Route → ℕ → Bool
wrong_color r c = not (r.color == color_gray) && not (c == color_loco) && not (c == r.color)

abbrev pub lacks_locos : Route → (ℕ → ℕ) → Bool
lacks_locos r pay = ltb (pay color_loco) r.locos

-- `validatePayment`
unfoldable pub validate_payment : Route → (ℕ → ℕ) → (ℕ → ℕ) → Result Error ℕ
validate_payment r hand pay = do
  payment_color ← validate_single_colour_payment hand pay (pos r.length)
  raise_if (if is_ferry r then lacks_locos r pay else wrong_color r payment_color) illegal_action
  ok payment_color

-- `debitHandCount` of one entry: the count is converted to 32 bits, and an entry that reaches 0 is
-- deleted. The difference itself is not wrapped: it is of a hand and a count it covers.
unfoldable pub debit_count : ℕ → ℕ → ℕ
debit_count held n = if n == 0 then held else pos_part (pos held +ℤ opposite (to_int32 (pos n)))

-- `debitHandCount` for each entry.
unfoldable pub debit : (ℕ → ℕ) → Player → Player
debit pay p = record p { hand = λ c. debit_count (p.hand c) (pay c) }

-- The refund of a payment, card by card.
unfoldable pub credit : (ℕ → ℕ) → Player → Player
credit pay p = record p { hand = λ c. p.hand c + pay c }

-- `discardPay`
unfoldable pub discard_pay : (ℕ → ℕ) → GameState → GameState
discard_pay pay gs = discard (cards_of pay canonical_discard_order) gs

-- The outcomes of `validateTunnelSurcharge`: fine, a hand that cannot cover it, or an error.
pub data SurchargeCheck : Type 0 where
  fits unaffordable malformed : SurchargeCheck

-- Its loop, in the order in which the Go map is ranged over. The surcharge is a field of 32 bits.
unfoldable pub check_surcharge : PendingTunnel → (ℕ → ℕ) → (ℕ → ℕ) → List ℕ → ℕ → SurchargeCheck
check_surcharge pt hand extra [] total =
    if eq_ℤ (pos total) (to_int32 (pos pt.surcharge)) then fits else malformed
check_surcharge pt hand extra (c ∷ cs) total =
    let rest = check_surcharge pt hand extra cs (total + extra c) in
    if extra c == 0
    then rest
    else if not (c == pt.payment_color) && not (c == color_loco)
    then malformed
    else if exceeds (hand c) (extra c)
    then unaffordable
    else rest
