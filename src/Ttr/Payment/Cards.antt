-- ===== src/Ttr/Payment/Cards.antt =====
-- claim.go: a payment and the hand that has to cover it, color by color.
use bgex_backend.Base.{
  false, not, ◌<◌, subst, ℕ, zero, suc, ◌+◌, ◌≡◌, ◌≤◌, true, List, [], ◌∷◌, some, ◌==◌, All,
  contains, find_first, ok, ◌>>=◌, >>=-eq-ok, raise_if-eq-ok, arith, Bool-cases, inl, inr,
}
use bgex_backend.Base.Int.{to_int32-lt, to_int32, to_int32-small, negsuc, pos_part, eq_ℤ, ℤ, pos}
use bgex_backend.Engine.{illegal_action}
use bgex_backend.Ttr.State.{Player, PendingTunnel, GameState, Route, has_user, write_player}
use bgex_backend.Ttr.Colors.{is_card_color, deck_composition, canonical_discard_order, cards_of}
use bgex_backend.Ttr.Cards.{
  free_cards, count_color-discarded, free_cards-discard, free_cards-write_player,
}
use bgex_backend.Ttr.Payment.{
  is_cost, exceeds, debit_count, Tally, tally_entry, tally_payment, empty_tally,
  validate_single_colour_payment, validate_payment, debit, discard_pay, fits, check_surcharge,
}

-- A count is of the 32 bits of a hand, which holds as many.
abbrev pub IsCovered : ℕ → ℕ → Type 0
IsCovered held n = (n ≤ held) × (n < 2147483648)

-- The hand covers the payment in each color of a list.
abbrev pub Covers : (ℕ → ℕ) → (ℕ → ℕ) → List ℕ → Type 0
Covers hand pay = All (λ c. IsCovered (hand c) (pay c))

-- A count that does not wrap around is compared as it is.
exceeds-IsCovered : (held n : ℕ) → exceeds held n ≡ false → n < 2147483648 → IsCovered held n
unfolding exceeds
exceeds-IsCovered held n enough small =
    let same = to_int32-small n small in (ground (arith, enough, same), small)

tally_entry-total :
    (c n : ℕ) (t counted : Tally) → tally_entry c n t ≡ ok counted → counted.total ≡ t.total + n
tally_entry-total c n t counted done = ground (arith, done)

tally_payment-Covers :
    (hand pay : ℕ → ℕ) (cs : List ℕ) (t out : Tally)
    → tally_payment hand pay cs t ≡ ok out
    → out.total < 2147483648
    → (t.total ≤ out.total) × Covers hand pay cs
unfolding tally_payment
tally_payment-Covers hand pay [] t out done small = (ground (arith, done), tt)
tally_payment-Covers hand pay (c ∷ cs) t out done small = elim (Bool-cases (pay c == 0)) [
  | inl absent ↦
      let rest = tally_payment-Covers hand pay cs t out (ground (arith, done)) small in
      (rest.0, ((ground arith, ground arith), rest.1))
  | inr present ↦
      let (enough, entered) =
        raise_if-eq-ok (exceeds (hand c) (pay c)) illegal_action
          (tally_entry c (pay c) t >>= tally_payment hand pay cs) (ground (arith, done)) in
      let (counted, one, after) = >>=-eq-ok (tally_entry c (pay c) t) _ entered in
      let rest = tally_payment-Covers hand pay cs counted out after small in
      let total = tally_entry-total c (pay c) t counted one in
      (
        omega (arith, rest.0, total),
        (exceeds-IsCovered (hand c) (pay c) enough (omega (arith, rest.0, total, small)), rest.1),
      )
]

is_cost-total : (total : ℕ) (want : ℤ) → is_cost total want ≡ true → total ≡ pos_part want
is_cost-total total (pos n) same = ground (arith, same)
is_cost-total total (negsuc n) same = absurd (cc)

pub validate_single_colour_payment-Covers :
    (hand pay : ℕ → ℕ) (want : ℤ) (color : ℕ)
    → validate_single_colour_payment hand pay want ≡ ok color
    → pos_part want < 2147483648
    → Covers hand pay canonical_discard_order
unfolding validate_single_colour_payment
validate_single_colour_payment-Covers hand pay want color done small =
    let (t, tallied, checked) =
      >>=-eq-ok (tally_payment hand pay canonical_discard_order empty_tally) _ done in
    let (exact, out) = raise_if-eq-ok (not (is_cost t.total want)) illegal_action _ checked in
    let total = is_cost-total t.total want (ground (arith, exact)) in
    (tally_payment-Covers hand pay canonical_discard_order empty_tally t tallied
      (omega (arith, total, small))).1

pub validate_payment-Covers :
    (r : Route) (hand pay : ℕ → ℕ) (color : ℕ)
    → validate_payment r hand pay ≡ ok color
    → r.length < 2147483648
    → Covers hand pay canonical_discard_order
unfolding validate_payment
validate_payment-Covers r hand pay color done small =
    let (t, valid, checked) =
      >>=-eq-ok (validate_single_colour_payment hand pay (pos r.length)) _ done in
    validate_single_colour_payment-Covers hand pay (pos r.length) t valid small

fitting_total :
    (total : ℕ) (z : ℤ) → eq_ℤ (pos total) z ≡ true → pos_part z < 2147483648 → total < 2147483648
fitting_total total (pos n) same small = ground (arith, same, small)
fitting_total total (negsuc n) same small = ground (arith, same)

-- Every color of the list that is ranged over is covered when the surcharge fits.
check_surcharge-total :
    (pt : PendingTunnel) (hand extra : ℕ → ℕ) (cs : List ℕ) (total : ℕ)
    → check_surcharge pt hand extra cs total ≡ fits
    → (total < 2147483648) × Covers hand extra cs
unfolding check_surcharge
check_surcharge-total pt hand extra [] total done = (
  fitting_total total (to_int32 (pos pt.surcharge)) (ground (arith, done))
      (to_int32-lt pt.surcharge),
  tt,
)
check_surcharge-total pt hand extra (c ∷ cs) total done =
    let rest = check_surcharge-total pt hand extra cs (total + extra c) (ground (arith, done)) in
    (
      omega (arith, rest.0),
      (
        elim (Bool-cases (extra c == 0)) [
          | inl absent ↦ (ground arith, ground arith)
          | inr present ↦
              exceeds-IsCovered (hand c) (extra c) (ground (arith, done, present))
                (omega (arith, rest.0))
        ],
        rest.1,
      ),
    )

pub check_surcharge-Covers :
    (pt : PendingTunnel) (hand extra : ℕ → ℕ) (cs : List ℕ) (total : ℕ)
    → check_surcharge pt hand extra cs total ≡ fits
    → Covers hand extra cs
check_surcharge-Covers pt hand extra cs total done =
    (check_surcharge-total pt hand extra cs total done).1

-- A card color is one of the nine of the list.
pub Covers-at :
    (hand pay : ℕ → ℕ) (c : ℕ)
    → is_card_color c ≡ true
    → Covers hand pay canonical_discard_order
    → IsCovered (hand c) (pay c)
unfolding is_card_color deck_composition
Covers-at hand pay zero card h = absurd (cc)
Covers-at hand pay (suc zero) card h = h.0
Covers-at hand pay (suc (suc zero)) card h = h.1.0
Covers-at hand pay (suc (suc (suc zero))) card h = h.1.1.0
Covers-at hand pay (suc (suc (suc (suc zero)))) card h = h.1.1.1.0
Covers-at hand pay (suc (suc (suc (suc (suc zero))))) card h = h.1.1.1.1.0
Covers-at hand pay (suc (suc (suc (suc (suc (suc zero)))))) card h = h.1.1.1.1.1.0
Covers-at hand pay (suc (suc (suc (suc (suc (suc (suc zero))))))) card h = h.1.1.1.1.1.1.0
Covers-at hand pay (suc (suc (suc (suc (suc (suc (suc (suc zero)))))))) card h = h.1.1.1.1.1.1.1.0
Covers-at hand pay (suc (suc (suc (suc (suc (suc (suc (suc (suc zero))))))))) card h = absurd (cc)
Covers-at hand pay (suc (suc (suc (suc (suc (suc (suc (suc (suc (suc zero)))))))))) card h =
    h.1.1.1.1.1.1.1.1.0
Covers-at hand pay (suc (suc (suc (suc (suc (suc (suc (suc (suc (suc (suc n))))))))))) card h =
    absurd (ground arith)

-- What is covered in each color that a Go map may be ranged over.
pub Covers-in :
    (hand pay : ℕ → ℕ) (cs : List ℕ) (c : ℕ)
    → contains cs c ≡ true
    → Covers hand pay cs
    → IsCovered (hand c) (pay c)
Covers-in hand pay [] c inside h = absurd (cc)
Covers-in hand pay (d ∷ ds) c inside h = elim (Bool-cases (d == c)) [
  | inl here ↦
      let same : d ≡ c = ground (arith, here) in subst (λ k. IsCovered (hand k) (pay k)) same h.0
  | inr there ↦ Covers-in hand pay ds c (ground (arith, inside)) h.1
]

pub debit_count-IsCovered : (held n : ℕ) → IsCovered held n → debit_count held n + n ≡ held
unfolding debit_count
debit_count-IsCovered held n covered =
    let same = to_int32-small n covered.1 in ground (arith, covered.0, same)

module _ (c : ℕ) (card : is_card_color c ≡ true) where
  -- A covered payment leaves the hand.
  pub free_cards-debit :
      (pay : ℕ → ℕ) (p : Player) (gs : GameState)
      → find_first (has_user p.user_id) gs.players ≡ some p
      → IsCovered (p.hand c) (pay c)
      → free_cards c (write_player (debit pay p) gs) + pay c ≡ free_cards c gs
  unfolding debit
  free_cards-debit pay p gs found covered = omega (
    arith,
    free_cards-write_player c (debit pay p) p gs found,
    debit_count-IsCovered (p.hand c) (pay c) covered,
  )

  pub free_cards-discard_pay :
      (pay : ℕ → ℕ) (gs : GameState) → free_cards c (discard_pay pay gs) ≡ free_cards c gs + pay c
  unfolding discard_pay
  free_cards-discard_pay pay gs = omega (
    arith,
    free_cards-discard c (cards_of pay canonical_discard_order) gs,
    count_color-discarded c pay card,
  )
