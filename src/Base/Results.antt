-- ===== src/Base/Results.antt =====
-- Rust's `Result`, with `?` as the bind of a `do` block.

use mathlib.Core.Bool.{Bool, true, false}
use pg_ros.Base.Tests.{if◌then◌else◌}
use mathlib.Core.Logic.{◌⊎◌, inl, inr}
use mathlib.Core.Path.{◌≡◌, refl, subst}

pub data Result {ℓ κ} (E : Type ℓ) (A : Type κ) : Type (ℓ ⊔ κ) where
  ok : A → Result E A
  err : E → Result E A

-- `r?` followed by `f`: an error is returned at once.
abbrev pub and_then {ℓ κ ι} :
    {E : Type ℓ} {A : Type κ} {B : Type ι} → Result E A → (A → Result E B) → Result E B
and_then (ok a) f = f a
and_then (err e) f = err e

abbrev pub map_ok {ℓ κ ι} :
    {E : Type ℓ} {A : Type κ} {B : Type ι} → (A → B) → Result E A → Result E B
map_ok f (ok a) = ok (f a)
map_ok f (err e) = err e

-- `P` holds of the value, if there is one.
pub data Ensures {ℓ κ ι} {E : Type ℓ} {A : Type κ} (P : A → Type ι)
    : Result E A → Type (ℓ ⊔ κ ⊔ ι) where
  holds : {a : A} → P a → Ensures P (ok a)
  rejected : {e : E} → Ensures P (err e)

pub Ensures-and_then {ℓ κ ι μ ν} :
    {E : Type ℓ} {A : Type κ} {B : Type μ} {P : A → Type ι} {Q : B → Type ν} {r : Result E A}
    {f : A → Result E B}
    → Ensures P r
    → ((a : A) → P a → Ensures Q (f a))
    → Ensures Q (and_then r f)
Ensures-and_then (holds {a} h) k = k a h
Ensures-and_then (rejected {e}) k = rejected

pub Ensures-ok {ℓ κ ι} :
    {E : Type ℓ} {A : Type κ} {P : A → Type ι} {r : Result E A} {a : A}
    → Ensures P r
    → r ≡ ok a
    → P a
Ensures-ok {P = P} (holds {a = x} h) e = subst P {x = x} (cc) h
Ensures-ok rejected e = cc

-- A chain that returned a value: both steps did.
pub and_then-eq-ok {ℓ κ ι} :
    {E : Type ℓ} {A : Type κ} {B : Type ι} (r : Result E A) (f : A → Result E B) {b : B}
    → and_then r f ≡ ok b
    → (a : A) × (r ≡ ok a) × (f a ≡ ok b)
and_then-eq-ok (ok a) f e = (a, refl, e)
and_then-eq-ok (err x) f e = cc

pub Result-cases {ℓ κ} :
    {E : Type ℓ} {A : Type κ} (r : Result E A) → ((a : A) × (r ≡ ok a)) ⊎ ((e : E) × (r ≡ err e))
Result-cases (ok a) = inl (a, refl)
Result-cases (err e) = inr (e, refl)

pub Ensures-map_ok {ℓ κ ι μ ν} :
    {E : Type ℓ} {A : Type κ} {B : Type μ} {P : A → Type ι} {Q : B → Type ν} {r : Result E A}
    (f : A → B)
    → Ensures P r
    → ((a : A) → P a → Q (f a))
    → Ensures Q (map_ok f r)
Ensures-map_ok f (holds {a} h) k = holds (k a h)
Ensures-map_ok f rejected k = rejected

pub Ensures-any {ℓ κ} : {E : Type ℓ} {A : Type κ} (r : Result E A) → Ensures (λ _. Unit {0}) r
Ensures-any (ok a) = holds tt
Ensures-any (err e) = rejected

pub Ensures-both {ℓ κ ι μ} :
    {E : Type ℓ} {A : Type κ} {P : A → Type ι} {Q : A → Type μ} {r : Result E A}
    → Ensures P r
    → Ensures Q r
    → Ensures (λ a. P a × Q a) r
Ensures-both (holds p) (holds q) = holds (p, q)
Ensures-both rejected rejected = rejected

pub Ensures-if {ℓ κ ι} :
    {E : Type ℓ} {A : Type κ} {P : A → Type ι} {r s : Result E A} (b : Bool)
    → Ensures P r
    → Ensures P s
    → Ensures P (if b then r else s)
Ensures-if true h k = h
Ensures-if false h k = k

pub Ensures-weaken {ℓ κ ι μ} :
    {E : Type ℓ} {A : Type κ} {P : A → Type ι} {Q : A → Type μ} {r : Result E A}
    → Ensures P r
    → ((a : A) → P a → Q a)
    → Ensures Q r
Ensures-weaken (holds h) k = holds (k _ h)
Ensures-weaken rejected k = rejected
