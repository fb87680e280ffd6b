-- ===== src/Poker/Pots/Levels.antt =====
-- The levels of `buildPots`: the totals of the contributors, each once, rising from above 0.
use bgex_backend.Base.{
  ℕ, ◌<◌, ◌≡◌, refl, true, false, ◌||◌, List, [], ◌∷◌, map, ltb, ◌==◌, contains, All, keep,
  insert_by, sort_by, arith,
}
use bgex_backend.Poker.State.{Seat}
use bgex_backend.Poker.Pots.{contributes, distinct, levels_of}

abbrev pub IsAscending : ℕ → List ℕ → Type 0
IsAscending b [] = Unit {0}
IsAscending b (x ∷ xs) = (b < x) × IsAscending x xs

abbrev IsDistinct : List ℕ → Type 0
IsDistinct [] = Unit {0}
IsDistinct (x ∷ xs) = (contains xs x ≡ false) × IsDistinct xs

contains-insert_by :
    (a y : ℕ) (xs : List ℕ) → contains (insert_by ltb a xs) y ≡ ((a == y) || contains xs y)
unfolding insert_by
contains-insert_by a y [] = refl
contains-insert_by a y (x ∷ xs) = ground (arith, contains-insert_by a y xs)

contains-sort_by : (y : ℕ) (xs : List ℕ) → contains (sort_by ltb xs) y ≡ contains xs y
unfolding sort_by
contains-sort_by y [] = refl
contains-sort_by y (x ∷ xs) =
    ground (arith, contains-insert_by x y (sort_by ltb xs), contains-sort_by y xs)

contains-distinct : (y : ℕ) (xs : List ℕ) → contains (distinct xs) y ≡ contains xs y
unfolding distinct
contains-distinct y [] = refl
contains-distinct y (x ∷ xs) = ground (arith, contains-distinct y xs, contains-distinct x xs)

insert_by-IsAscending :
    (b a : ℕ) (xs : List ℕ)
    → b < a
    → contains xs a ≡ false
    → IsAscending b xs
    → IsAscending b (insert_by ltb a xs)
unfolding insert_by
insert_by-IsAscending b a [] h n s = (h, tt)
insert_by-IsAscending b a (x ∷ xs) h n s = ground (arith, insert_by-IsAscending x a xs)

sort_by-IsAscending :
    (b : ℕ) (xs : List ℕ) → All (λ x. b < x) xs → IsDistinct xs → IsAscending b (sort_by ltb xs)
unfolding sort_by
sort_by-IsAscending b [] h d = tt
sort_by-IsAscending b (x ∷ xs) h d =
    insert_by-IsAscending b x (sort_by ltb xs) h.0 (ground (arith, contains-sort_by x xs))
      (sort_by-IsAscending b xs h.1 d.1)

distinct-IsDistinct : (xs : List ℕ) → IsDistinct (distinct xs)
unfolding distinct
distinct-IsDistinct [] = tt
distinct-IsDistinct (x ∷ xs) = ground (arith, distinct-IsDistinct xs)

All-distinct : (b : ℕ) (xs : List ℕ) → All (λ x. b < x) xs → All (λ x. b < x) (distinct xs)
unfolding distinct
All-distinct b [] h = tt
All-distinct b (x ∷ xs) h = ground (arith, All-distinct b xs h.1)

abbrev pub totals : List Seat → List ℕ
totals = map (λ c. c.total_committed)

totals_pos : (seats : List Seat) → All (λ x. 0 < x) (totals (keep contributes seats))
totals_pos [] = tt
totals_pos (s ∷ ss) = ground (arith, totals_pos ss)

pub levels_of-IsAscending : (seats : List Seat) → IsAscending 0 (levels_of (keep contributes seats))
unfolding levels_of
levels_of-IsAscending seats =
    sort_by-IsAscending 0 (distinct (totals (keep contributes seats)))
      (All-distinct 0 _ (totals_pos seats)) (distinct-IsDistinct _)

pub contains-levels_of :
    (y : ℕ) (cs : List Seat) → contains (levels_of cs) y ≡ contains (totals cs) y
unfolding levels_of
contains-levels_of y cs =
    ground (arith, contains-sort_by y (distinct (totals cs)), contains-distinct y (totals cs))

contains_widen :
    (t : Seat) (all : List ℕ) (cs : List Seat)
    → All (λ c. contains all c.total_committed ≡ true) cs
    → All (λ c. contains (t.total_committed ∷ all) c.total_committed ≡ true) cs
contains_widen t all [] h = tt
contains_widen t all (c ∷ cs) h = (ground (arith, h.0), contains_widen t all cs h.1)

totals_contained : (cs : List Seat) → All (λ c. contains (totals cs) c.total_committed ≡ true) cs
totals_contained [] = tt
totals_contained (c ∷ cs) = (ground arith, contains_widen c (totals cs) cs (totals_contained cs))

levels_contain :
    (cs all : List Seat)
    → All (λ c. contains (totals all) c.total_committed ≡ true) cs
    → All (λ c. contains (levels_of all) c.total_committed ≡ true) cs
levels_contain [] all h = tt
levels_contain (c ∷ cs) all h =
    (ground (arith, h.0, contains-levels_of c.total_committed all), levels_contain cs all h.1)

-- Each contributor's total is a level.
pub levels_of-contains :
    (cs : List Seat) → All (λ c. contains (levels_of cs) c.total_committed ≡ true) cs
levels_of-contains cs = levels_contain cs cs (totals_contained cs)
