-- ===== src/Eval/Straights.antt =====
-- `straightHigh` finds the top of the highest straight.
use bgex_backend.Base.{
  ◌⊎◌, contains, ℕ, zero, suc, ◌+◌, ◌-◌, ◌≤◌, ◌<◌, ◌≡◌, refl, subst, Bool, true, false, Option,
  none, some, List, arith, Bool-cases, inl, inr, sym,
}
use native.Mathlib.Decide.{dec_lt}
use bgex_backend.Eval.{present, run_down, highest_run, straight_high}

-- The `k` ranks from `r` down are there.
abbrev AllThere : (ℕ → Bool) → ℕ → ℕ → Type 0
AllThere there k r = (i : ℕ) → i < k → there (r - i) ≡ true

run_down_sound :
    (there : ℕ → Bool) (k r : ℕ) → k ≤ r → run_down there k r ≡ true → AllThere there k r
unfolding run_down
run_down_sound there zero r h e i lt = absurd (omega arith)
run_down_sound there (suc k) zero h e i lt = absurd (omega arith)
run_down_sound there (suc k) (suc r) h e zero lt = ground arith
run_down_sound there (suc k) (suc r) h e (suc i) lt =
    let same : suc r - suc i ≡ r - i = omega arith in
    subst (λ x. there x ≡ true) (sym same)
      (run_down_sound there k r (omega arith) (ground arith) i (omega arith))

run_down_complete :
    (there : ℕ → Bool) (k r : ℕ) → k ≤ r → AllThere there k r → run_down there k r ≡ true
unfolding run_down
run_down_complete there zero r h a = refl
run_down_complete there (suc k) zero h a = absurd (omega arith)
run_down_complete there (suc k) (suc r) h a =
    let top : there (suc r) ≡ true =
      subst (λ x. there x ≡ true) (let e : suc r - 0 ≡ suc r = omega arith in e)
        (a 0 (omega arith)) in
    let rest = run_down_complete there k r (omega arith) (λ i lt.
      let same : suc r - suc i ≡ r - i = omega arith in
      subst (λ x. there x ≡ true) same (a (suc i) (omega arith))) in
    ground (arith, top, rest)

-- `t` is the top of five ranks in a row, at least 5 and below `n + 5`.
abbrev IsTop : (ℕ → Bool) → ℕ → ℕ → Type 0
IsTop there n t = (5 ≤ t) × (t < n + 5) × AllThere there 5 t

abbrev Highest : (ℕ → Bool) → ℕ → Option ℕ → Type 0
Highest there n (some t) = IsTop there n t × ((u : ℕ) → IsTop there n u → u ≤ t)
Highest there n none = (u : ℕ) → ¬ (IsTop there n u)

no_top :
    (there : ℕ → Bool) (n u : ℕ)
    → run_down there 5 (n + 5) ≡ false
    → IsTop there (suc n) u
    → ¬ (u < n + 5)
    → ⊥
no_top there n u e top ge =
    let same : u ≡ n + 5 = omega arith in
    let run =
      run_down_complete there 5 (n + 5) (omega arith) (subst (AllThere there 5) same top.2) in
    cc

raise_bound :
    (there : ℕ → Bool) (n : ℕ) (o : Option ℕ)
    → run_down there 5 (n + 5) ≡ false
    → Highest there n o
    → Highest there (suc n) o
raise_bound there n (some t) e h = (
  (h.0.0, omega arith, h.0.2),
  λ u top. elim (dec_lt u (n + 5)) [
    | yes lt ↦ h.1 u (top.0, lt, top.2)
    | no ge ↦ absurd (no_top there n u e top ge)
  ],
)
raise_bound there n none e h = λ u top. elim (dec_lt u (n + 5)) [
  | yes lt ↦ h u (top.0, lt, top.2)
  | no ge ↦ no_top there n u e top ge
]

highest_run-Highest : (there : ℕ → Bool) (n : ℕ) → Highest there n (highest_run there n)
unfolding highest_run
highest_run-Highest there zero = λ u top. omega arith
highest_run-Highest there (suc n) = elim (Bool-cases (run_down there 5 (n + 5))) [
  | inl e ↦ rw e (
    (omega arith, omega arith, run_down_sound there 5 (n + 5) (omega arith) e),
    λ u top. omega arith,
  )
  | inr e ↦ rw e (raise_bound there n (highest_run there n) e (highest_run-Highest there n))
]

-- A rank is among the ranks, or it is 1 and an ace is.
abbrev pub IsHeld : List ℕ → ℕ → Type 0
IsHeld ranks r = (contains ranks r ≡ true) ⊎ ((r ≡ 1) × (contains ranks 14 ≡ true))

present-IsHeld : (ranks : List ℕ) (r : ℕ) → present ranks r ≡ true → IsHeld ranks r
unfolding present
present-IsHeld ranks r e = elim (Bool-cases (contains ranks r)) [
  | inl held ↦ inl held
  | inr other ↦ inr (ground (arith, e, other), ground (arith, e, other))
]

IsHeld-present : (ranks : List ℕ) (r : ℕ) → IsHeld ranks r → present ranks r ≡ true
unfolding present
IsHeld-present ranks r (inl held) = ground (arith, held)
IsHeld-present ranks r (inr (low, high)) = ground (arith, low, high)

-- Five ranks in a row are held, the ace counting as 1 too, and `t` is the highest of them.
abbrev pub IsStraight : List ℕ → ℕ → Type 0
IsStraight ranks t = (5 ≤ t) × (t ≤ 14) × ((i : ℕ) → i < 5 → IsHeld ranks (t - i))

abbrev pub HighestStraight : List ℕ → Option ℕ → Type 0
HighestStraight ranks (some t) = IsStraight ranks t × ((u : ℕ) → IsStraight ranks u → u ≤ t)
HighestStraight ranks none = (u : ℕ) → ¬ (IsStraight ranks u)

IsStraight-IsTop : (ranks : List ℕ) (u : ℕ) → IsStraight ranks u → IsTop (present ranks) 10 u
IsStraight-IsTop ranks u top =
    (top.0, omega arith, λ i lt. IsHeld-present ranks (u - i) (top.2 i lt))

-- `straightHigh` returns the top of the highest straight among the ranks, the ace counting as 1 too,
-- and reports none exactly when no five ranks in a row are there.
pub straight_high-HighestStraight : (ranks : List ℕ) → HighestStraight ranks (straight_high ranks)
unfolding straight_high
straight_high-HighestStraight ranks =
    restate (highest_run (present ranks) 10) (highest_run-Highest (present ranks) 10)
  where
    restate : (o : Option ℕ) → Highest (present ranks) 10 o → HighestStraight ranks o
    restate (some t) h = (
      (h.0.0, omega arith, λ i lt. present-IsHeld ranks (t - i) (h.0.2 i lt)),
      λ u top. h.1 u (IsStraight-IsTop ranks u top),
    )
    restate none h = λ u top. h u (IsStraight-IsTop ranks u top)
