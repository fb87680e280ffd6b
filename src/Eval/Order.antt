-- ===== src/Eval/Order.antt =====
-- `HandValue.Compare` orders hands.
use Prim.Native.Nat.{Ordering}
use bgex_backend.Base.{ℕ, ◌≡◌, ◌≢◌, refl, List, [], ◌∷◌, length, arith}
use bgex_backend.Eval.{HandValue, compare_tiebreaks, compare_hands}

abbrev pub swap : Ordering → Ordering
swap Ordering.lt = Ordering.gt
swap Ordering.eq = Ordering.eq
swap Ordering.gt = Ordering.lt

compare_tiebreaks-swap : (xs ys : List ℕ) → compare_tiebreaks ys xs ≡ swap (compare_tiebreaks xs ys)
unfolding compare_tiebreaks
compare_tiebreaks-swap [] [] = refl
compare_tiebreaks-swap [] (y ∷ ys) = refl
compare_tiebreaks-swap (x ∷ xs) [] = refl
compare_tiebreaks-swap (x ∷ xs) (y ∷ ys) = ground (arith, compare_tiebreaks-swap xs ys)

-- Comparing the other way round gives the opposite answer: one hand wins exactly when the other
-- loses, and ties are mutual.
pub compare_hands-swap : (h o : HandValue) → compare_hands o h ≡ swap (compare_hands h o)
unfolding compare_hands
compare_hands-swap h o = ground (arith, compare_tiebreaks-swap h.tiebreak o.tiebreak)

compare_tiebreaks_self : (xs : List ℕ) → compare_tiebreaks xs xs ≡ Ordering.eq
unfolding compare_tiebreaks
compare_tiebreaks_self [] = refl
compare_tiebreaks_self (x ∷ xs) = ground (arith, compare_tiebreaks_self xs)

pub compare_hands_self : (h : HandValue) → compare_hands h h ≡ Ordering.eq
unfolding compare_hands
compare_hands_self h = ground (arith, compare_tiebreaks_self h.tiebreak)

tiebreaks_below :
    (us bs vs : List ℕ)
    → compare_tiebreaks us bs ≢ Ordering.gt
    → compare_tiebreaks vs bs ≡ Ordering.gt
    → compare_tiebreaks us vs ≢ Ordering.gt
unfolding compare_tiebreaks
tiebreaks_below [] bs vs p q = λ e. cc
tiebreaks_below (u ∷ us) bs [] p q = λ e. cc
tiebreaks_below (u ∷ us) [] (v ∷ vs) p q = λ e. cc
tiebreaks_below (u ∷ us) (b ∷ bs) (v ∷ vs) p q = ground (arith, tiebreaks_below us bs vs)

-- What does not beat a hand does not beat a better one.
pub compare_hands_below :
    (u b v : HandValue)
    → compare_hands u b ≢ Ordering.gt
    → compare_hands v b ≡ Ordering.gt
    → compare_hands u v ≢ Ordering.gt
unfolding compare_hands
compare_hands_below u b v p q = ground (arith, tiebreaks_below u.tiebreak b.tiebreak v.tiebreak)

tiebreaks_trans :
    (us vs ws : List ℕ)
    → length us ≡ length vs
    → length vs ≡ length ws
    → compare_tiebreaks us vs ≢ Ordering.gt
    → compare_tiebreaks vs ws ≢ Ordering.gt
    → compare_tiebreaks us ws ≢ Ordering.gt
unfolding compare_tiebreaks
tiebreaks_trans [] vs ws m n p q = λ e. cc
tiebreaks_trans (u ∷ us) vs [] m n p q = λ e. cc
tiebreaks_trans (u ∷ us) [] (w ∷ ws) m n p q = absurd (omega arith)
tiebreaks_trans (u ∷ us) (v ∷ vs) (w ∷ ws) m n p q = ground (arith, tiebreaks_trans us vs ws)

-- Among hands of one category with tiebreaks of one length the order is transitive.
pub compare_hands_trans :
    (u v w : HandValue)
    → length u.tiebreak ≡ length v.tiebreak
    → length v.tiebreak ≡ length w.tiebreak
    → compare_hands u v ≢ Ordering.gt
    → compare_hands v w ≢ Ordering.gt
    → compare_hands u w ≢ Ordering.gt
unfolding compare_hands
compare_hands_trans u v w m n p q = ground (arith, tiebreaks_trans u.tiebreak v.tiebreak w.tiebreak)
