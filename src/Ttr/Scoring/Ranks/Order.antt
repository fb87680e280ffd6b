-- ===== src/Ttr/Scoring/Ranks/Order.antt =====
-- `rankLess` is a strict weak order, whose ties are the entries that `rankTie` accepts.
use bgex_backend.Base.{
  ◌||◌, ltb, not, if◌then◌else◌, ℕ, ◌≡◌, Bool, true, false, arith, ◌==◌, ◌&&◌, ==_iff, refl, sym,
}
use bgex_backend.Base.Int.{ℤ, eq_ℤ, less_ℤ}
use bgex_backend.Ttr.Scoring.Ranks.{Rankable, rank_less, rank_tie, eq_Bool}

pub rank_less_asymm : (a b : Rankable) → rank_less a b ≡ true → rank_less b a ≡ false
unfolding rank_less
rank_less_asymm a b h = ground arith

pub rank_less_total :
    (a b : Rankable) → rank_tie a b ≡ false → rank_less b a ≡ false → rank_less a b ≡ true
unfolding rank_less rank_tie
rank_less_total a b apart h = ground arith

eq_ℤ_congr : (a b s : ℤ) → eq_ℤ a b ≡ true → eq_ℤ s b ≡ eq_ℤ s a
eq_ℤ_congr a b s h = ground arith

less_ℤ_congr : (a b s : ℤ) → eq_ℤ a b ≡ true → less_ℤ b s ≡ less_ℤ a s
less_ℤ_congr a b s h = ground arith

eq_Bool-true : (a b : Bool) → eq_Bool a b ≡ true → b ≡ a
eq_Bool-true true b h = h
eq_Bool-true false true h = absurd (cc)
eq_Bool-true false false h = refl

four :
    (a b c d : Bool) → (a && b && c && d) ≡ true → (a ≡ true) × (b ≡ true) × (c ≡ true) × (d ≡ true)
four true true true true h = (refl, refl, refl, refl)
four true true true false h = absurd (cc)
four true true false d h = absurd (cc)
four true false c d h = absurd (cc)
four false b c d h = absurd (cc)

pub rank_tie_congr : (a b s : Rankable) → rank_tie a b ≡ true → rank_less s b ≡ rank_less s a
unfolding rank_less rank_tie
rank_tie_congr a b s h =
    let parts =
      four (eq_ℤ a.total b.total) (a.completed == b.completed)
        (a.built_stations == b.built_stations) (eq_Bool a.has_longest b.has_longest) h in
    let same_completed : b.completed ≡ a.completed =
      sym ((==_iff a.completed b.completed).0 parts.1) in
    let same_built : b.built_stations ≡ a.built_stations =
      sym ((==_iff a.built_stations b.built_stations).0 parts.2) in
    rw
      (
        rank_less,
        eq_ℤ_congr a.total b.total s.total parts.0,
        less_ℤ_congr a.total b.total s.total parts.0,
        same_completed,
        same_built,
        eq_Bool-true a.has_longest b.has_longest parts.3,
      )
      refl

-- One level of the order: a key decides where it differs, and leaves the rest to decide elsewhere.
module _ (rba rcb rca : Bool) (rest : rba ≡ false → rcb ≡ false → rca ≡ false) where
  level :
      (eba ecb eca sba scb sca : Bool)
      → (eba ≡ true → ecb ≡ true → eca ≡ true)
      → ((eba && ecb) ≡ false
          → (not eba && sba) ≡ false
          → (not ecb && scb) ≡ false
          → (eca || sca) ≡ false)
      → (if not eba then sba else rba) ≡ false
      → (if not ecb then scb else rcb) ≡ false
      → (if not eca then sca else rca) ≡ false
  level true true eca sba scb sca same apart ba cb = rw (same refl refl) (rest ba cb)
  level true false eca sba scb sca same apart ba cb = ground (arith, apart refl refl cb)
  level false true eca sba scb sca same apart ba cb = ground (arith, apart refl ba refl)
  level false false eca sba scb sca same apart ba cb = ground (arith, apart refl ba cb)

  level_ℤ :
      (x y z : ℤ)
      → (if not (eq_ℤ y x) then less_ℤ x y else rba) ≡ false
      → (if not (eq_ℤ z y) then less_ℤ y z else rcb) ≡ false
      → (if not (eq_ℤ z x) then less_ℤ x z else rca) ≡ false
  level_ℤ x y z =
      level (eq_ℤ y x) (eq_ℤ z y) (eq_ℤ z x) (less_ℤ x y) (less_ℤ y z) (less_ℤ x z)
        (λ one two. ground (arith, one, two)) (λ apart one two. ground (arith, apart, one, two))

  level_up :
      (x y z : ℕ)
      → (if not (y == x) then ltb x y else rba) ≡ false
      → (if not (z == y) then ltb y z else rcb) ≡ false
      → (if not (z == x) then ltb x z else rca) ≡ false
  level_up x y z =
      level (y == x) (z == y) (z == x) (ltb x y) (ltb y z) (ltb x z)
        (λ one two. ground (arith, one, two)) (λ apart one two. ground (arith, apart, one, two))

  level_down :
      (x y z : ℕ)
      → (if not (y == x) then ltb y x else rba) ≡ false
      → (if not (z == y) then ltb z y else rcb) ≡ false
      → (if not (z == x) then ltb z x else rca) ≡ false
  level_down x y z =
      level (y == x) (z == y) (z == x) (ltb y x) (ltb z y) (ltb z x)
        (λ one two. ground (arith, one, two)) (λ apart one two. ground (arith, apart, one, two))

level_Bool :
    (x y z : Bool)
    → (if not (eq_Bool y x) then y else false) ≡ false
    → (if not (eq_Bool z y) then z else false) ≡ false
    → (if not (eq_Bool z x) then z else false) ≡ false
level_Bool x y z ba cb = ground arith

pub rank_less_trans :
    (a b c : Rankable) → rank_less b a ≡ false → rank_less c b ≡ false → rank_less c a ≡ false
unfolding rank_less
rank_less_trans a b c ba cb =
    level_ℤ _ _ _
      (level_up _ _ _
        (level_down _ _ _ (level_Bool a.has_longest b.has_longest c.has_longest) a.built_stations
          b.built_stations c.built_stations)
        a.completed b.completed c.completed)
      a.total b.total c.total ba cb
