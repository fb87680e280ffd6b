-- ===== src/Poker/Showdown/Winners.antt =====
-- Who wins a pot: the search keeps the best hand so far and those that tie with it.
use Prim.Native.Nat.{Ordering}
use bgex_backend.Base.{
  ℕ, ◌<◌, ◌≡◌, ◌≢◌, refl, Bool, true, false, Option, none, some, List, [], ◌∷◌, ◌++◌, length,
  length-append, All, All-append, All-map_of, arith, Option-cases, inl, inr, subst,
}
use bgex_backend.Eval.{HandValue, compare_hands}
use bgex_backend.Eval.Order.{compare_hands_self, compare_hands_below}
use bgex_backend.Poker.Showdown.{value_of, better, consider, best_of}

abbrev pub Values : Type 0
Values = List (ℕ × HandValue)

-- The hand of seat `i`, if it was shown, does not beat `best`.
abbrev pub NotBeats : Values → HandValue → ℕ → Type 0
NotBeats values best i =
    (v : HandValue) → value_of i values ≡ some v → compare_hands v best ≢ Ordering.gt

-- The hand of seat `i` was shown and ties with `best`.
abbrev pub Ties : Values → HandValue → ℕ → Type 0
Ties values best i =
    (v : HandValue) × (value_of i values ≡ some v) × (compare_hands v best ≡ Ordering.eq)

-- What the loop knows once it has seen the seats `seen`.
abbrev Best : Values → List ℕ → Option (HandValue × List ℕ) → Type 0
Best values seen none = All (λ i. value_of i values ≡ none) seen
Best values seen (some (best, winners)) =
    All (NotBeats values best) seen × All (Ties values best) winners × (0 < length winners)

NotBeats-rise :
    (values : Values) (b v : HandValue) (seen : List ℕ)
    → compare_hands v b ≡ Ordering.gt
    → All (NotBeats values b) seen
    → All (NotBeats values v) seen
NotBeats-rise values b v seen q =
    All-map_of (NotBeats values b) (NotBeats values v)
      (λ i h u e. compare_hands_below u b v (h u e) q) seen

NotBeats-none :
    (values : Values) (v : HandValue) (seen : List ℕ)
    → All (λ i. value_of i values ≡ none) seen
    → All (NotBeats values v) seen
NotBeats-none values v seen =
    All-map_of (λ i. value_of i values ≡ none) (NotBeats values v) (λ i h u e. absurd (cc)) seen

value_unique :
    (values : Values) (i : ℕ) (u v : HandValue)
    → value_of i values ≡ some v
    → value_of i values ≡ some u
    → u ≡ v
value_unique values i u v e f = cc

better-Best :
    (values : Values) (i : ℕ) (v : HandValue) (seen : List ℕ) (acc : Option (HandValue × List ℕ))
    → value_of i values ≡ some v
    → Best values seen acc
    → Best values (i ∷ seen) (better i v acc)
unfolding better
better-Best values i v seen none e h = (
  (
    (λ u f. rw (value_unique values i u v e f, compare_hands_self v) (λ g. cc)),
    NotBeats-none values v seen h,
  ),
  ((v, e, compare_hands_self v), tt),
  omega arith,
)
better-Best values i v seen (some (best, winners)) e h = go (compare_hands v best) refl
  where
    go :
        (o : Ordering)
        → compare_hands v best ≡ o
        → Best values (i ∷ seen) (elim o [
          | Ordering.gt ↦ some (v, i ∷ [])
          | Ordering.eq ↦ some (best, winners ++ i ∷ [])
          | Ordering.lt ↦ some (best, winners)
        ])
    go Ordering.gt q = (
      (
        (λ u f. rw (value_unique values i u v e f, compare_hands_self v) (λ g. cc)),
        NotBeats-rise values best v seen q h.0,
      ),
      ((v, e, compare_hands_self v), tt),
      omega arith,
    )
    go Ordering.eq q = (
      ((λ u f. rw (value_unique values i u v e f, q) (λ g. cc)), h.0),
      All-append (Ties values best) winners (i ∷ []) h.1 ((v, e, q), tt),
      omega (arith, length-append winners (i ∷ [])),
    )
    go Ordering.lt q = (((λ u f. rw (value_unique values i u v e f, q) (λ g. cc)), h.0), h.1, h.2)

unseen-Best :
    (values : Values) (i : ℕ) (seen : List ℕ) (acc : Option (HandValue × List ℕ))
    → value_of i values ≡ none
    → Best values seen acc
    → Best values (i ∷ seen) acc
unseen-Best values i seen none e h = (e, h)
unseen-Best values i seen (some (best, winners)) e h = (((λ v f. absurd (cc)), h.0), h.1, h.2)

consider-Best :
    (values : Values) (i : ℕ) (seen : List ℕ) (acc : Option (HandValue × List ℕ))
    → Best values seen acc
    → Best values (i ∷ seen) (consider values i acc)
unfolding consider
consider-Best values i seen acc h = elim (Option-cases (value_of i values)) [
  | inl e ↦ rw (e, consider) (unseen-Best values i seen acc e h)
  | inr (v, e) ↦ rw (e, consider) (better-Best values i v seen acc e h)
]

-- The seats in the order in which the loop has met them, last first.
abbrev pub met : List ℕ → List ℕ → List ℕ
met [] seen = seen
met (i ∷ is) seen = met is (i ∷ seen)

best_of-Best :
    (values : Values) (is seen : List ℕ) (acc : Option (HandValue × List ℕ))
    → Best values seen acc
    → Best values (met is seen) (best_of values is acc)
unfolding best_of
best_of-Best values [] seen acc h = h
best_of-Best values (i ∷ is) seen acc h =
    best_of-Best values is (i ∷ seen) (consider values i acc) (consider-Best values i seen acc h)

met-All_seen : (P : ℕ → Type 0) (is seen : List ℕ) → All P (met is seen) → All P seen
met-All_seen P [] seen h = h
met-All_seen P (i ∷ is) seen h = (met-All_seen P is (i ∷ seen) h).1

met-All : (P : ℕ → Type 0) (is seen : List ℕ) → All P (met is seen) → All P is
met-All P [] seen h = tt
met-All P (i ∷ is) seen h = ((met-All_seen P is (i ∷ seen) h).0, met-All P is (i ∷ seen) h)

-- The winners that are found for a pot tie with the best hand, none of the pot's eligible seats has
-- a hand that beats it, and there is a winner.
pub best_of_wins :
    (values : Values) (eligible : List ℕ) (best : HandValue) (winners : List ℕ)
    → best_of values eligible none ≡ some (best, winners)
    → All (NotBeats values best) eligible × All (Ties values best) winners × (0 < length winners)
best_of_wins values eligible best winners e =
    let h = subst (Best values (met eligible [])) e (best_of-Best values eligible [] none tt) in
    (met-All (NotBeats values best) eligible [] h.0, h.1, h.2)

abbrev pub has_value : Values → ℕ → Bool
has_value values i = elim (value_of i values) [ none ↦ false | some v ↦ true ]

abbrev pub is_won : Option (HandValue × List ℕ) → Bool
is_won none = false
is_won (some w) = true

best_of_keeps :
    (values : Values) (is : List ℕ) (acc : Option (HandValue × List ℕ))
    → is_won acc ≡ true
    → is_won (best_of values is acc) ≡ true
unfolding best_of consider better
best_of_keeps values [] acc h = h
best_of_keeps values (i ∷ is) none h = absurd (cc)
best_of_keeps values (i ∷ is) (some (b, ws)) h =
    best_of_keeps values is (consider values i (some (b, ws))) (ground arith)

-- A pot whose first eligible seat showed a hand is won.
pub best_of_won :
    (values : Values) (i : ℕ) (is : List ℕ)
    → has_value values i ≡ true
    → is_won (best_of values (i ∷ is) none) ≡ true
unfolding best_of consider better
best_of_won values i is h = best_of_keeps values is (consider values i none) (ground arith)
