-- ===== src/Base/Actions.antt =====
-- Code with a state and errors: the state comes back after an error too.
use mathlib.Core.Path.{◌≡◌}
use pg_ros.Base.Results.{Result, ok, err}

abbrev pub Action {ℓ κ ι} : Type ℓ → Type κ → Type ι → Type (ℓ ⊔ κ ⊔ ι)
Action S E A = S → Result E A × S

abbrev pub pure {ℓ κ ι} : {S : Type ℓ} {E : Type κ} {A : Type ι} → A → Action S E A
pure a s = (ok a, s)

abbrev pub raise {ℓ κ ι} : {S : Type ℓ} {E : Type κ} {A : Type ι} → E → Action S E A
raise e s = (err e, s)

-- What follows an action that returned; an error skips it.
abbrev pub continue {ℓ κ ι μ} :
    {S : Type ℓ} {E : Type κ} {A : Type ι} {B : Type μ}
    → Result E A × S
    → (A → Action S E B)
    → Result E B × S
continue (ok a, s) f = f a s
continue (err e, s) f = (err e, s)

infixl 5 ◌>>=◌
abbrev pub ◌>>=◌ {ℓ κ ι μ} :
    {S : Type ℓ} {E : Type κ} {A : Type ι} {B : Type μ}
    → Action S E A
    → (A → Action S E B)
    → Action S E B
◌>>=◌ m f s = continue (m s) f

-- `?` on a value that needs no state.
abbrev pub lift {ℓ κ ι} : {S : Type ℓ} {E : Type κ} {A : Type ι} → Result E A → Action S E A
lift r s = (r, s)

-- How an action ended: `Good` of the value and the state, or `Bad` of the error and the state.
pub data Ends {ℓ κ ι μ} {S : Type ℓ} {E : Type κ} {A : Type ι} (Good : A → S → Type μ)
    (Bad : E → S → Type μ) : Result E A × S → Type (ℓ ⊔ κ ⊔ ι ⊔ μ) where
  returned : {a : A} {s : S} → Good a s → Ends Good Bad (ok a, s)
  raised : {e : E} {s : S} → Bad e s → Ends Good Bad (err e, s)

module _ {ℓ κ ι μ ν} {S : Type ℓ} {E : Type κ} {A : Type ι} {B : Type μ} where
  pub Ends-continue :
      {P : A → S → Type ν} {Q : B → S → Type ν} {Bad : E → S → Type ν} {r : Result E A × S}
      {f : A → Action S E B}
      → Ends P Bad r
      → ((a : A) (s : S) → P a s → Ends Q Bad (f a s))
      → Ends Q Bad (continue r f)
  Ends-continue (returned h) k = k _ _ h
  Ends-continue (raised h) k = raised h

module _ {ℓ κ ι μ} {S : Type ℓ} {E : Type κ} {A : Type ι} where
  pub Ends-weaken :
      {P P' : A → S → Type μ} {Bad Bad' : E → S → Type μ} {r : Result E A × S}
      → Ends P Bad r
      → ((a : A) (s : S) → P a s → P' a s)
      → ((e : E) (s : S) → Bad e s → Bad' e s)
      → Ends P' Bad' r
  Ends-weaken (returned h) k l = returned (k _ _ h)
  Ends-weaken (raised h) k l = raised (l _ _ h)

  -- Whatever the result, `R` holds of the state that is left.
  pub Ends-leaves : {R : S → Type μ} (r : Result E A × S) → R r.1 → Ends (λ a s. R s) (λ e s. R s) r
  Ends-leaves (ok a, s) h = returned h
  Ends-leaves (err e, s) h = raised h

  pub Ends-returned :
      {P : A → S → Type μ} {Bad : E → S → Type μ} {a : A} (r : Result E A × S)
      → Ends P Bad r
      → r.0 ≡ ok a
      → P a r.1
  Ends-returned {P} (ok b, s) (returned h) e = rw (ok-injective e) at h
    where
      ok-injective : {b a : A} → ◌≡◌ {A = Result E A} (ok b) (ok a) → b ≡ a
      ok-injective e = cc
  Ends-returned (err x, s) h e = cc

  pub Ends-raised :
      {P : A → S → Type μ} {Bad : E → S → Type μ} {e : E} (r : Result E A × S)
      → Ends P Bad r
      → r.0 ≡ err e
      → Bad e r.1
  Ends-raised (ok a, s) h x = cc
  Ends-raised {Bad} (err e', s) (raised h) x = rw (err-injective x) at h
    where
      err-injective : {b a : E} → ◌≡◌ {A = Result E A} (err b) (err a) → b ≡ a
      err-injective x = cc

  -- What both ends have in common.
  pub Ends-both {ν} :
      {P : A → S → Type μ} {Bad : E → S → Type μ} {Q : S → Type ν} (r : Result E A × S)
      → Ends P Bad r
      → ((a : A) (s : S) → P a s → Q s)
      → ((e : E) (s : S) → Bad e s → Q s)
      → Q r.1
  Ends-both (ok a, s) (returned h) k l = k a s h
  Ends-both (err e, s) (raised h) k l = l e s h
