-- ===== src/Base/Int.antt =====
-- Signed integers over the native numbers: amounts that a client sends, and differences.
use Prim.Native.Nat.{ℕ, suc, ◌+◌, ◌-◌, ◌%◌, ◌≤◌, ◌<◌}
use mathlib.Core.Path.{◌≡◌, refl}
use mathlib.Core.Logic.{inl, inr}
use mathlib.Core.Bool.{Bool, true}
use native.Mathlib.Omega.{arith}
use bgex_backend.Base.Tests.{leb, ltb, ◌==◌, if◌then◌else◌, Bool-cases, tests}

-- `negsuc n` is -(n + 1).
pub data ℤ : Type 0 where
  pos : ℕ → ℤ
  negsuc : ℕ → ℤ

abbrev pub pos_part : ℤ → ℕ
pos_part (pos n) = n
pos_part (negsuc n) = 0

abbrev pub neg_part : ℤ → ℕ
neg_part (pos n) = 0
neg_part (negsuc n) = suc n

-- a - b, as an integer.
abbrev pub sub_ℕ : ℕ → ℕ → ℤ
sub_ℕ a b = if leb b a then pos (a - b) else negsuc (b - a - 1)

-- z - b.
infixl 65 ◌-ℤ◌
abbrev pub ◌-ℤ◌ : ℤ → ℕ → ℤ
a -ℤ b = sub_ℕ (pos_part a) (neg_part a + b)

-- The tests of a signed number against an unsigned one.
abbrev pub ltb_ℤ : ℤ → ℕ → Bool
ltb_ℤ a b = ltb (pos_part a) (neg_part a + b)

abbrev pub leb_ℤ : ℤ → ℕ → Bool
leb_ℤ a b = leb (pos_part a) (neg_part a + b)

-- How many chips a Boolean or a number test sees above zero.
abbrev pub positive : ℤ → Bool
positive a = ltb 0 (pos_part a)

infixl 65 ◌+ℤ◌
abbrev pub ◌+ℤ◌ : ℤ → ℤ → ℤ
a +ℤ b = sub_ℕ (pos_part a + pos_part b) (neg_part a + neg_part b)

abbrev pub opposite : ℤ → ℤ
opposite a = sub_ℕ (neg_part a) (pos_part a)

-- The tests of two signed numbers.
abbrev pub less_ℤ : ℤ → ℤ → Bool
less_ℤ a b = ltb (pos_part a + neg_part b) (pos_part b + neg_part a)

abbrev pub eq_ℤ : ℤ → ℤ → Bool
eq_ℤ a b = (pos_part a + neg_part b) == (pos_part b + neg_part a)

infix 4 ◌≤ℤ◌
abbrev pub ◌≤ℤ◌ : ℤ → ℤ → Type 0
a ≤ℤ b = pos_part a + neg_part b ≤ pos_part b + neg_part a

-- The conversion to 32 bits, which wraps around.
unfoldable pub to_int32 : ℤ → ℤ
to_int32 (pos n) = sub_ℕ ((n + 2147483648) % 4294967296) 2147483648
to_int32 (negsuc n) = sub_ℕ (4294967295 - (n + 2147483648) % 4294967296) 2147483648

pub to_int32-small : (n : ℕ) → n < 2147483648 → to_int32 (pos n) ≡ pos n
unfolding to_int32
to_int32-small n h =
    let same : (n + 2147483648) % 4294967296 ≡ n + 2147483648 = omega (arith, h) in
    let enough : leb 2147483648 (n + 2147483648) ≡ true = ground arith in
    let back : n + 2147483648 - 2147483648 ≡ n = omega arith in rw (same, enough, back) refl

-- A 32-bit value is below 2^31.
pub to_int32-lt : (n : ℕ) → pos_part (to_int32 (pos n)) < 2147483648
unfolding to_int32
to_int32-lt n =
    let x = (n + 2147483648) % 4294967296 in
    let bound : x < 4294967296 = omega arith in
    elim (Bool-cases (leb 2147483648 x)) [
      | inl e ↦ rw e (omega (arith, bound))
      | inr e ↦ rw e (omega arith)
    ]

-- A difference, without a case split.
pub parts-sub_ℕ : (a b : ℕ) → pos_part (sub_ℕ a b) + b ≡ neg_part (sub_ℕ a b) + a
parts-sub_ℕ a b = elim (Bool-cases (leb b a)) [
  | inl e ↦ rw e (grind (tests, e))
  | inr e ↦ rw e (grind (tests, e))
]

-- What two sums in ℤ have in common, over their parts.
pub parts-+ℤ :
    (a b : ℤ)
    → pos_part (a +ℤ b) + (neg_part a + neg_part b) ≡ neg_part (a +ℤ b) + (pos_part a + pos_part b)
parts-+ℤ a b = parts-sub_ℕ (pos_part a + pos_part b) (neg_part a + neg_part b)
