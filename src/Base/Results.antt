-- ===== src/Base/Results.antt =====
-- The outcome of fallible code: a value, an error, or a Go panic (an index out of range).
use mathlib.Core.Path.{◌≡◌, refl}
use mathlib.Core.Bool.{Bool, true, false}
use mathlib.Core.Option.{Option, none, some}

pub data Result {ℓ κ} (E : Type κ) (A : Type ℓ) : Type (ℓ ⊔ κ) where
  ok : A → Result E A
  err : E → Result E A
  panic : Result E A

module _ {μ} {E : Type μ} where
  infixl 5 ◌>>=◌ ◌>>◌
  abbrev pub ◌>>=◌ {ℓ κ} : {A : Type ℓ} {B : Type κ} → Result E A → (A → Result E B) → Result E B
  r >>= next = elim r [ ok a ↦ next a | err e ↦ err e | panic ↦ panic ]

  -- A guard, or another step without a value, and what follows it.
  abbrev pub ◌>>◌ {ℓ} : {B : Type ℓ} → Result E (Unit {0}) → Result E B → Result E B
  step >> next = step >>= (λ _. next)

abbrev pub raise_if {μ} : {E : Type μ} → Bool → E → Result E (Unit {0})
raise_if true e = err e
raise_if false e = ok tt

abbrev pub or_raise {ℓ μ} : {E : Type μ} {A : Type ℓ} → Option A → E → Result E A
or_raise none e = err e
or_raise (some a) e = ok a

abbrev pub or_panic {ℓ μ} : {E : Type μ} {A : Type ℓ} → Option A → Result E A
or_panic none = panic
or_panic (some a) = ok a

-- Inversion of a successful bind.
pub >>=-eq-ok {ℓ κ μ} :
    {E : Type μ} {A : Type ℓ} {B : Type κ} (r : Result E A) (next : A → Result E B) {out : B}
    → (r >>= next) ≡ ok out
    → (value : A) × (r ≡ ok value) × (next value ≡ ok out)
>>=-eq-ok panic next done = absurd (cc)
>>=-eq-ok (err e) next done = absurd (cc)
>>=-eq-ok (ok value) next done = (value, refl, done)

-- A bind succeeds where both of its steps do.
pub >>=-ok {ℓ κ μ} :
    {E : Type μ} {A : Type ℓ} {B : Type κ} (r : Result E A) (next : A → Result E B) {value : A}
    → r ≡ ok value
    → (out : B) × (next value ≡ ok out)
    → (out : B) × ((r >>= next) ≡ ok out)
>>=-ok r next first rest = (rest.0, rw first rest.1)

-- A guard that lets a result through did not fire.
pub raise_if-eq-ok {ℓ μ} :
    {E : Type μ} {B : Type ℓ} (b : Bool) (e : E) (k : Result E B) {x : B}
    → (raise_if b e >> k) ≡ ok x
    → (b ≡ false) × (k ≡ ok x)
raise_if-eq-ok true e k h = absurd (cc)
raise_if-eq-ok false e k h = (refl, h)

pub or_raise-eq-ok {ℓ κ μ} :
    {E : Type μ} {A : Type ℓ} {B : Type κ} (o : Option A) (e : E) (f : A → Result E B) {x : B}
    → (or_raise o e >>= f) ≡ ok x
    → (a : A) × (o ≡ some a) × (f a ≡ ok x)
or_raise-eq-ok none e f h = absurd (cc)
or_raise-eq-ok (some a) e f h = (a, refl, h)

pub or_panic-eq-ok {ℓ κ μ} :
    {E : Type μ} {A : Type ℓ} {B : Type κ} (o : Option A) (f : A → Result E B) {x : B}
    → (or_panic o >>= f) ≡ ok x
    → (a : A) × (o ≡ some a) × (f a ≡ ok x)
or_panic-eq-ok none f h = absurd (cc)
or_panic-eq-ok (some a) f h = (a, refl, h)
