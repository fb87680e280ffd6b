-- ===== src/Ttr/Scoring/Ranks/Shared.antt =====
-- The last loop of `assignRanks`: the writes of a shared victory.
use bgex_backend.Base.{
  inr, inl, ℕ, ◌≡◌, ◌≢◌, refl, sym, ◌∙◌, ap, subst, Bool, true, false, List, [], ◌∷◌, if◌then◌else◌,
  get_elem?, All, arith, Bool-cases, keep,
}
use bgex_backend.Ttr.State.{ScoreBreakdown}
use bgex_backend.Ttr.Scoring.Ranks.{Rankable, modify_at, set_shared, share_all}
use bgex_backend.Ttr.Scoring.Ranks.Numbered.{
  applied, IsApart, get_elem?-modify_at, get_elem?-modify_at_other,
}

-- The writes of the last loop, over the entries that pass a test.
module _ (q : Rankable → Bool) where
  pub share_all-frame :
      (j : ℕ) (rs : List Rankable) (results : List ScoreBreakdown)
      → All (λ s. j ≢ s.idx) rs
      → get_elem? (share_all (keep q rs) results) j ≡ get_elem? results j
  unfolding share_all
  share_all-frame j [] results apart = refl
  share_all-frame j (r ∷ rs) results apart = elim (Bool-cases (q r)) [
    | inl chosen ↦ rw chosen (
        share_all-frame j rs _ apart.1
        ∙ get_elem?-modify_at_other r.idx j set_shared results (λ same. apart.0 (sym same)))
    | inr passed ↦ rw passed (share_all-frame j rs results apart.1)
  ]

  abbrev IsShared : List ScoreBreakdown → List ScoreBreakdown → Rankable → Type 0
  IsShared results out r =
      get_elem? out r.idx
      ≡ (if q r then applied set_shared (get_elem? results r.idx) else get_elem? results r.idx)

  IsShared-after :
      (i : ℕ) (rs : List Rankable) (results out : List ScoreBreakdown)
      → All (λ s. i ≢ s.idx) rs
      → All (IsShared (modify_at i set_shared results) out) rs
      → All (IsShared results out) rs
  IsShared-after i [] results out apart h = tt
  IsShared-after i (r ∷ rs) results out apart h = (
    h.0
        ∙ ap (λ o. if q r then applied set_shared o else o)
            (get_elem?-modify_at_other i r.idx set_shared results apart.0),
    IsShared-after i rs results out apart.1 h.1,
  )

  share_all-IsShared :
      (rs : List Rankable) (results : List ScoreBreakdown)
      → IsApart rs
      → All (IsShared results (share_all (keep q rs) results)) rs
  unfolding share_all
  share_all-IsShared [] results apart = tt
  share_all-IsShared (r ∷ rs) results apart = elim (Bool-cases (q r)) [
    | inl chosen ↦
        let after = modify_at r.idx set_shared results in
        let out = share_all (keep q rs) after in
        let same : share_all (keep q (r ∷ rs)) results ≡ out = ground (arith, chosen) in
        let here : IsShared results out r =
          rw chosen (
            share_all-frame r.idx rs after apart.0
            ∙ get_elem?-modify_at r.idx set_shared results) in
        let rest =
          IsShared-after r.idx rs results out apart.0 (share_all-IsShared rs after apart.1) in
        subst (λ x. All (IsShared results x) (r ∷ rs)) (sym same) (here, rest)
    | inr passed ↦
        let out = share_all (keep q rs) results in
        let same : share_all (keep q (r ∷ rs)) results ≡ out = ground (arith, passed) in
        let here : IsShared results out r = rw passed (share_all-frame r.idx rs results apart.0) in
        subst (λ x. All (IsShared results x) (r ∷ rs)) (sym same)
          (here, share_all-IsShared rs results apart.1)
  ]

  pub share_or_not :
      (many : Bool) (rs : List Rankable) (results : List ScoreBreakdown)
      → IsApart rs
      → All
          (λ r. get_elem? (if many then share_all (keep q rs) results else results) r.idx ≡ (
            if q r
            then (if many
                then applied set_shared (get_elem? results r.idx)
                else get_elem? results r.idx)
            else get_elem? results r.idx))
          rs
  share_or_not true rs results apart = share_all-IsShared rs results apart
  share_or_not false rs results apart = unshared rs
    where
      unshared :
          (rs : List Rankable)
          → All
              (λ r.
                get_elem? results r.idx
                ≡ (if q r then get_elem? results r.idx else get_elem? results r.idx))
              rs
      unshared [] = tt
      unshared (r ∷ rs) = (ground arith, unshared rs)
