-- ===== src/Ttr/Scoring/Ranks/Competition.antt =====
-- `assignRanks` as a whole: the standard competition ranking, and the shared victory of those who
-- tie for the first place.
use bgex_backend.Base.{
  sort_by-All, inr, All-insert_by, inl, ℕ, suc, ◌≡◌, ◌≢◌, refl, sym, ◌∙◌, ap, subst, Bool, true,
  false, ◌&&◌, ◌||◌, Option, none, some, List, [], ◌∷◌, ◌==◌, if◌then◌else◌, get_elem?, count_if,
  All, All-map_of, arith, Bool-cases, sort_by, insert_by, sort_by-IsChain, All-sort_by, keep,
  length, sum_by, sum_by-sort_by, ltb,
}
use bgex_backend.Ttr.State.{ScoreBreakdown}
use bgex_backend.Ttr.Scoring.Ranks.{
  Rankable, rank_less, rank_of, rank_at, set_rank, set_shared, number_ranks, is_first, share_all,
  assign_ranks,
}
use bgex_backend.Ttr.Scoring.Ranks.Order.{rank_less_asymm, rank_less_trans}
use bgex_backend.Ttr.Scoring.Ranks.Numbered.{
  number_ranks-frame, applied, ahead, IsApart, IsRanked, number_ranks-IsRanked,
}
use bgex_backend.Ttr.Scoring.Ranks.Shared.{share_all-frame, share_or_not}

count_if-sort_by :
    (p : Rankable → Bool) (ranked : List Rankable)
    → count_if p (sort_by rank_less ranked) ≡ count_if p ranked
count_if-sort_by p ranked =
    count_sum p (sort_by rank_less ranked)
    ∙ sum_by-sort_by rank_less (λ r. if p r then 1 else 0) ranked
    ∙ sym (count_sum p ranked)
  where
    count_sum :
        (q : Rankable → Bool) (rs : List Rankable)
        → count_if q rs ≡ sum_by (λ r. if q r then 1 else 0) rs
    count_sum q [] = refl
    count_sum q (r ∷ rs) = omega (arith, count_sum q rs)

-- Sorting keeps the places apart.
insert_by-IsApart :
    (r : Rankable) (ranked : List Rankable)
    → All (λ s. r.idx ≢ s.idx) ranked
    → IsApart ranked
    → IsApart (insert_by rank_less r ranked)
unfolding insert_by
insert_by-IsApart r [] new apart = (tt, tt)
insert_by-IsApart r (s ∷ ranked) new apart = elim (Bool-cases (rank_less s r)) [
  | inl e ↦ rw e (
    All-insert_by rank_less (λ x. s.idx ≢ x.idx) r ranked (λ same. new.0 (sym same)) apart.0,
    insert_by-IsApart r ranked new.1 apart.1,
  )
  | inr e ↦ rw e ((new.0, new.1), apart)
]

sort_by-IsApart : (ranked : List Rankable) → IsApart ranked → IsApart (sort_by rank_less ranked)
unfolding sort_by
sort_by-IsApart [] apart = tt
sort_by-IsApart (r ∷ ranked) apart =
    insert_by-IsApart r (sort_by rank_less ranked)
      (All-sort_by rank_less (λ s. r.idx ≢ s.idx) ranked apart.0) (sort_by-IsApart ranked apart.1)

-- Every entry has its place in the results.
abbrev pub HasPlaces : List ScoreBreakdown → List Rankable → Type 0
HasPlaces results = All λ r. (sb : ScoreBreakdown) × (get_elem? results r.idx ≡ some sb)

module _ (results : List ScoreBreakdown) (ranked : List Rankable) (apart : IsApart ranked)
    (places : HasPlaces results ranked) where
  abbrev sorted : List Rankable
  sorted = sort_by rank_less ranked

  abbrev numbered : List ScoreBreakdown
  numbered = number_ranks 0 none sorted results

  numbered-IsRanked : All (IsRanked ranked results numbered) sorted
  numbered-IsRanked =
      number_ranks-IsRanked ranked results 0 none sorted results
        (refl, λ y. sym (count_if-sort_by (λ s. rank_less s y) ranked))
        (sort_by-IsChain rank_less rank_less_asymm rank_less_trans ranked)
        (sort_by-IsApart ranked apart)
        (All-map_of _ _ (λ r at. (at.0, at.1, at.1)) sorted
          (All-sort_by rank_less (λ r. (sb : ScoreBreakdown) × (get_elem? results r.idx ≡ some sb))
            ranked places))

  first_iff : All (λ r. is_first numbered r ≡ (ahead ranked r == 0)) sorted
  first_iff = both_All sorted numbered-IsRanked (
      All-sort_by rank_less (λ r. (sb : ScoreBreakdown) × (get_elem? results r.idx ≡ some sb))
        ranked places)
    where
      both_All :
          (rs : List Rankable)
          → All (IsRanked ranked results numbered) rs
          → HasPlaces results rs
          → All (λ r. is_first numbered r ≡ (ahead ranked r == 0)) rs
      both_All [] there places = tt
      both_All (r ∷ rs) there places =
          let written = there.0 ∙ ap (applied (set_rank (suc (ahead ranked r)))) places.0.1 in
          let rank : rank_at numbered r.idx ≡ suc (ahead ranked r) = ap rank_of written in
          (rw rank (ground arith), both_All rs there.1 places.1)

-- How many entries have nobody ahead of them.
abbrev pub winners : List Rankable → ℕ
winners ranked = count_if (λ r. ahead ranked r == 0) ranked

-- What the ranking writes into an entry: its rank is one more than the number of entries ahead of
-- it, and the victory is shared by those without any, if they are several.
abbrev pub placed : List Rankable → Rankable → ScoreBreakdown → ScoreBreakdown
placed ranked r sb = record sb {
  rank = suc (ahead ranked r);
  shared_victory = ((ahead ranked r == 0) && ltb 1 (winners ranked)) || sb.shared_victory;
}

length-keep : (q : Rankable → Bool) (rs : List Rankable) → length (keep q rs) ≡ count_if q rs
length-keep q [] = refl
length-keep q (r ∷ rs) = ground (arith, length-keep q rs)

count_if-congr :
    (p q : Rankable → Bool) (rs : List Rankable)
    → All (λ r. p r ≡ q r) rs
    → count_if p rs ≡ count_if q rs
count_if-congr p q [] h = refl
count_if-congr p q (r ∷ rs) h = ground (arith, h.0, count_if-congr p q rs h.1)

placed_ranked :
    (n : ℕ) (many : Bool) (o : Option ScoreBreakdown)
    → (if n == 0
        then (if many
            then applied set_shared (applied (set_rank (suc n)) o)
            else applied (set_rank (suc n)) o)
        else applied (set_rank (suc n)) o)
      ≡ applied
          (λ sb. record sb {
            rank = suc n;
            shared_victory = ((n == 0) && many) || sb.shared_victory;
          })
          o
placed_ranked n many none = ground arith
placed_ranked n true (some sb) = elim (Bool-cases (n == 0)) [
  | inl e ↦ rw e refl
  | inr e ↦ rw e refl
]
placed_ranked n false (some sb) = elim (Bool-cases (n == 0)) [
  | inl e ↦ rw e refl
  | inr e ↦ rw e refl
]

placed_all :
    (results : List ScoreBreakdown) (ranked : List Rankable) (numbered out : List ScoreBreakdown)
    (rs : List Rankable)
    → All (IsRanked ranked results numbered) rs
    → All (λ r. is_first numbered r ≡ (ahead ranked r == 0)) rs
    → All
        (λ r. get_elem? out r.idx ≡ (
          if is_first numbered r
          then (if ltb 1 (winners ranked)
              then applied set_shared (get_elem? numbered r.idx)
              else get_elem? numbered r.idx)
          else get_elem? numbered r.idx))
        rs
    → All (λ r. get_elem? out r.idx ≡ applied (placed ranked r) (get_elem? results r.idx)) rs
placed_all results ranked numbered out [] there first shared = tt
placed_all results ranked numbered out (r ∷ rs) there first shared = (
  shared.0
      ∙ rw (first.0, there.0)
          (placed_ranked (ahead ranked r) (ltb 1 (winners ranked)) (get_elem? results r.idx)),
  placed_all results ranked numbered out rs there.1 first.1 shared.1,
)

pub assign_ranks-placed :
    (results : List ScoreBreakdown) (ranked : List Rankable)
    → IsApart ranked
    → HasPlaces results ranked
    → All
        (λ r.
          get_elem? (assign_ranks results ranked) r.idx
          ≡ applied (placed ranked r) (get_elem? results r.idx))
        ranked
unfolding assign_ranks
assign_ranks-placed results ranked apart places =
    let sorted = sort_by rank_less ranked in
    let numbered = number_ranks 0 none sorted results in
    let firsts = keep (is_first numbered) sorted in
    let several : length firsts ≡ winners ranked =
      length-keep (is_first numbered) sorted
      ∙ count_if-congr (is_first numbered) (λ r. ahead ranked r == 0) sorted
          (first_iff results ranked apart places)
      ∙ count_if-sort_by (λ r. ahead ranked r == 0) ranked in
    sort_by-All rank_less _ ranked (
      placed_all results ranked numbered
        (if ltb 1 (length firsts) then share_all firsts numbered else numbered) sorted
        (numbered-IsRanked results ranked apart places) (first_iff results ranked apart places)
        (subst
          (λ k.
            All
              (λ r. get_elem? (if ltb 1 k then share_all firsts numbered else numbered) r.idx ≡ (
                if is_first numbered r
                then (if ltb 1 (winners ranked)
                    then applied set_shared (get_elem? numbered r.idx)
                    else get_elem? numbered r.idx)
                else get_elem? numbered r.idx))
              sorted)
          (sym several)
          (share_or_not (is_first numbered) (ltb 1 (winners ranked)) sorted numbered
            (sort_by-IsApart ranked apart))))

-- The ranking leaves every other place alone.
pub assign_ranks-frame :
    (results : List ScoreBreakdown) (ranked : List Rankable) (j : ℕ)
    → All (λ r. j ≢ r.idx) ranked
    → get_elem? (assign_ranks results ranked) j ≡ get_elem? results j
unfolding assign_ranks
assign_ranks-frame results ranked j apart =
    let sorted = sort_by rank_less ranked in
    let numbered = number_ranks 0 none sorted results in
    let away = All-sort_by rank_less (λ r. j ≢ r.idx) ranked apart in
    let same = number_ranks-frame j 0 none sorted results away in
    elim (Bool-cases (ltb 1 (length (keep (is_first numbered) sorted)))) [
      | inl many ↦ rw many (share_all-frame (is_first numbered) j sorted numbered away ∙ same)
      | inr few ↦ rw few same
    ]
