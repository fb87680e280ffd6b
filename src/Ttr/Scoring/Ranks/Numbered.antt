-- ===== src/Ttr/Scoring/Ranks/Numbered.antt =====
-- The first loop of `assignRanks` gives each entry of the sorted list its rank in the standard
-- competition ranking: one more than the number of entries ahead of it.
use bgex_backend.Base.{
  inr, inl, ℕ, zero, suc, ◌+◌, ◌≡◌, ◌≢◌, refl, sym, ◌∙◌, ap, true, false, Option, none, some, List,
  [], ◌∷◌, get_elem?, count_if, All, arith, Bool-cases, IsChain,
}
use bgex_backend.Ttr.State.{ScoreBreakdown}
use bgex_backend.Ttr.Scoring.Ranks.{
  Rankable, rank_less, rank_tie, rank_of, rank_at, modify_at, set_rank, next_rank, number_ranks,
}
use bgex_backend.Ttr.Scoring.Ranks.Order.{
  rank_less_asymm, rank_less_trans, rank_less_total, rank_tie_congr,
}

abbrev pub applied :
    (ScoreBreakdown → ScoreBreakdown) → Option ScoreBreakdown → Option ScoreBreakdown
applied f none = none
applied f (some sb) = some (f sb)

pub get_elem?-modify_at :
    (i : ℕ) (f : ScoreBreakdown → ScoreBreakdown) (results : List ScoreBreakdown)
    → get_elem? (modify_at i f results) i ≡ applied f (get_elem? results i)
unfolding modify_at
get_elem?-modify_at i f [] = refl
get_elem?-modify_at zero f (sb ∷ results) = refl
get_elem?-modify_at (suc i) f (sb ∷ results) = get_elem?-modify_at i f results

pub get_elem?-modify_at_other :
    (i j : ℕ) (f : ScoreBreakdown → ScoreBreakdown) (results : List ScoreBreakdown)
    → i ≢ j
    → get_elem? (modify_at i f results) j ≡ get_elem? results j
unfolding modify_at
get_elem?-modify_at_other i j f [] apart = refl
get_elem?-modify_at_other zero zero f (sb ∷ results) apart = absurd (apart refl)
get_elem?-modify_at_other zero (suc j) f (sb ∷ results) apart = refl
get_elem?-modify_at_other (suc i) zero f (sb ∷ results) apart = refl
get_elem?-modify_at_other (suc i) (suc j) f (sb ∷ results) apart =
    get_elem?-modify_at_other i j f results (λ same. apart (omega (arith, same)))

-- How many entries are ahead of an entry.
abbrev pub ahead : List Rankable → Rankable → ℕ
ahead all r = count_if (λ s. rank_less s r) all

-- No two entries write to one place.
abbrev pub IsApart : List Rankable → Type 0
IsApart [] = Unit
IsApart (r ∷ ranked) = All (λ s. r.idx ≢ s.idx) ranked × IsApart ranked

-- A place that the loop does not write to.
pub number_ranks-frame :
    (j i : ℕ) (prev : Option Rankable) (rest : List Rankable) (results : List ScoreBreakdown)
    → All (λ s. j ≢ s.idx) rest
    → get_elem? (number_ranks i prev rest results) j ≡ get_elem? results j
unfolding number_ranks
number_ranks-frame j i prev [] results apart = refl
number_ranks-frame j i prev (r ∷ rest) results apart =
    number_ranks-frame j (suc i) (some r) rest _ apart.1
    ∙ get_elem?-modify_at_other r.idx j (set_rank (next_rank i prev r results)) results
        (λ same. apart.0 (sym same))

count_none :
    (r : Rankable) (rest : List Rankable)
    → All (λ s. rank_less s r ≡ false) rest
    → count_if (λ s. rank_less s r) rest ≡ 0
count_none r [] h = refl
count_none r (s ∷ rest) h = ground (arith, h.0, count_none r rest h.1)

count_congr :
    (a b : Rankable) (rest : List Rankable) → rank_tie a b ≡ true → ahead rest b ≡ ahead rest a
count_congr a b [] tie = refl
count_congr a b (s ∷ rest) tie = ground (arith, rank_tie_congr a b s tie, count_congr a b rest tie)

rank_less_irrefl : (r : Rankable) → rank_less r r ≡ false
rank_less_irrefl r = elim (Bool-cases (rank_less r r)) [
  | inl less ↦ rank_less_asymm r r less
  | inr fine ↦ fine
]

module _ (all : List Rankable) (original : List ScoreBreakdown) where
  -- What the loop knows at position `i`, after the entry `prev`.
  abbrev Ready : ℕ → Option Rankable → List Rankable → List ScoreBreakdown → Type 0
  Ready i none rest results = (i ≡ 0) × ((y : Rankable) → ahead all y ≡ ahead rest y)
  Ready i (some p) rest results =
      (rank_at results p.idx ≡ suc (ahead all p))
      × All (λ y. rank_less y p ≡ false) rest
      × ((y : Rankable) → rank_less p y ≡ true → ahead all y ≡ i + ahead rest y)

  abbrev pub IsRanked : List ScoreBreakdown → Rankable → Type 0
  IsRanked results r =
      get_elem? results r.idx ≡ applied (set_rank (suc (ahead all r))) (get_elem? original r.idx)

  next_rank-ahead :
      (i : ℕ) (prev : Option Rankable) (r : Rankable) (rest : List Rankable)
      (results : List ScoreBreakdown)
      → Ready i prev (r ∷ rest) results
      → All (λ s. rank_less s r ≡ false) rest
      → next_rank i prev r results ≡ suc (ahead all r)
  unfolding next_rank
  next_rank-ahead i none r rest results ready behind =
      omega (arith, ready.0, ready.1 r, count_none r (r ∷ rest) (rank_less_irrefl r, behind))
  next_rank-ahead i (some p) r rest results ready behind = elim (Bool-cases (rank_tie p r)) [
    | inl tie ↦ rw tie (ready.0 ∙ ap suc (sym (count_congr p r all tie)))
    | inr apart ↦
        let less = rank_less_total p r apart ready.1.0 in
        rw apart
          (omega (arith, ready.2 r less, count_none r (r ∷ rest) (rank_less_irrefl r, behind)))
  ]

  still_ahead :
      (i : ℕ) (prev : Option Rankable) (r : Rankable) (rest : List Rankable)
      (results : List ScoreBreakdown)
      → Ready i prev (r ∷ rest) results
      → (y : Rankable) → rank_less r y ≡ true
      → ahead all y ≡ suc i + ahead rest y
  still_ahead i none r rest results ready y less = ground (arith, ready.0, ready.1 y, less)
  still_ahead i (some p) r rest results ready y less = elim (Bool-cases (rank_less p y)) [
    | inl before ↦ ground (arith, ready.2 y before, less)
    | inr not_before ↦ let contrary = rank_less_trans y p r not_before ready.1.0 in absurd (cc)
  ]

  -- An entry of the results that no write has changed yet, and that is there.
  abbrev pub IsUnranked : List ScoreBreakdown → Rankable → Type 0
  IsUnranked results r =
      (sb : ScoreBreakdown) × (get_elem? original r.idx ≡ some sb)
      × (get_elem? results r.idx ≡ some sb)

  IsUnranked-after :
      (i : ℕ) (f : ScoreBreakdown → ScoreBreakdown) (rest : List Rankable)
      (results : List ScoreBreakdown)
      → All (λ s. i ≢ s.idx) rest
      → All (IsUnranked results) rest
      → All (IsUnranked (modify_at i f results)) rest
  IsUnranked-after i f [] results apart old = tt
  IsUnranked-after i f (r ∷ rest) results apart old = (
    (old.0.0, old.0.1, get_elem?-modify_at_other i r.idx f results apart.0 ∙ old.0.2),
    IsUnranked-after i f rest results apart.1 old.1,
  )

  pub number_ranks-IsRanked :
      (i : ℕ) (prev : Option Rankable) (rest : List Rankable) (results : List ScoreBreakdown)
      → Ready i prev rest results
      → IsChain rank_less rest
      → IsApart rest
      → All (IsUnranked results) rest
      → All (IsRanked (number_ranks i prev rest results)) rest
  unfolding number_ranks
  number_ranks-IsRanked i prev [] results ready chain apart old = tt
  number_ranks-IsRanked i prev (r ∷ rest) results ready chain apart old =
      let rank = next_rank-ahead i prev r rest results ready chain.0 in
      let n = next_rank i prev r results in
      let after = modify_at r.idx (set_rank n) results in
      let here =
        get_elem?-modify_at r.idx (set_rank n) results
        ∙ ap (applied (set_rank n)) (old.0.2 ∙ sym old.0.1)
        ∙ ap (λ k. applied (set_rank k) (get_elem? original r.idx)) rank in
      let written = here ∙ ap (applied (set_rank (suc (ahead all r)))) old.0.1 in
      (
        number_ranks-frame r.idx (suc i) (some r) rest after apart.0 ∙ here,
        number_ranks-IsRanked (suc i) (some r) rest after
            (ap rank_of written, chain.0, still_ahead i prev r rest results ready) chain.1 apart.1
            (IsUnranked-after r.idx (set_rank n) rest results apart.0 old.1),
      )
