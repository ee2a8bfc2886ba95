-- ===== src/Listening/Notices.antt =====
-- Which payloads a list of notifications stands for.
use pg_ros.Base.{ℕ, suc, ◌+◌, ◌≡◌, refl, List, [], ◌∷◌, ◌++◌, Text, ok, err, length, arith}
use pg_ros.Listening.Receiver.{Payload}

-- The first list is the second without some of its elements.
pub data Part {ℓ} {A : Type ℓ} : List A → List A → Type ℓ where
  done : Part [] []
  kept : {x : A} {xs ys : List A} → Part xs ys → Part (x ∷ xs) (x ∷ ys)
  left_out : {y : A} {xs ys : List A} → Part xs ys → Part xs (y ∷ ys)

pub Part-none {ℓ} : {A : Type ℓ} (ys : List A) → Part [] ys
Part-none [] = done
Part-none (y ∷ ys) = left_out (Part-none ys)

pub Part-append {ℓ} :
    {A : Type ℓ} {xs ys xs' ys' : List A} → Part xs ys → Part xs' ys' → Part (xs ++ xs') (ys ++ ys')
Part-append done q = q
Part-append (kept p) q = kept (Part-append p q)
Part-append (left_out p) q = left_out (Part-append p q)

pub Part-empty {ℓ} : {A : Type ℓ} {xs ys : List A} → Part xs ys → ys ≡ [] → xs ≡ []
Part-empty done e = refl
Part-empty (kept p) e = cc
Part-empty (left_out p) e = cc

pub append-empty {ℓ} : {A : Type ℓ} (xs ys : List A) → xs ++ ys ≡ [] → (xs ≡ []) × (ys ≡ [])
append-empty [] ys e = (refl, e)
append-empty (x ∷ xs) ys e = cc

-- The texts, in order, of a part of the payloads that were encoded.
pub data Notices : List Text → List Payload → Type 0 where
  none_left : Notices [] []
  noticed :
      {t : Text} {ts : List Text} {ps : List Payload} → Notices ts ps → Notices (t ∷ ts) (ok t ∷ ps)
  passed : {p : Payload} {ts : List Text} {ps : List Payload} → Notices ts ps → Notices ts (p ∷ ps)

pub Notices-append :
    {ts us : List Text} {ps qs : List Payload}
    → Notices ts ps
    → Notices us qs
    → Notices (ts ++ us) (ps ++ qs)
Notices-append none_left q = q
Notices-append (noticed p) q = noticed (Notices-append p q)
Notices-append (passed p) q = passed (Notices-append p q)

-- The texts of the payloads that were encoded.
abbrev pub texts : List Payload → List Text
texts [] = []
texts (ok t ∷ ps) = t ∷ texts ps
texts (err e ∷ ps) = texts ps

-- How many were not.
abbrev pub failures : List Payload → ℕ
failures [] = 0
failures (ok t ∷ ps) = failures ps
failures (err e ∷ ps) = suc (failures ps)

pub texts-failures : (ps : List Payload) → length (texts ps) + failures ps ≡ length ps
texts-failures [] = refl
texts-failures (ok t ∷ ps) = omega (arith, texts-failures ps)
texts-failures (err e ∷ ps) = omega (arith, texts-failures ps)

pub Part-Notices : {ps qs : List Payload} → Part ps qs → Notices (texts ps) qs
Part-Notices done = none_left
Part-Notices (kept {x = ok t} p) = noticed (Part-Notices p)
Part-Notices (kept {x = err e} p) = passed (Part-Notices p)
Part-Notices (left_out p) = passed (Part-Notices p)

-- The first list is the second without some of its elements.
pub data IsPart {ℓ} {A : Type ℓ} : List A → List A → Type ℓ where
  nothing : IsPart [] []
  kept : {x : A} {xs ys : List A} → IsPart xs ys → IsPart (x ∷ xs) (x ∷ ys)
  dropped : {y : A} {xs ys : List A} → IsPart xs ys → IsPart xs (y ∷ ys)

module _ {ℓ} {A : Type ℓ} where
  pub IsPart-append :
      {xs ys us vs : List A} → IsPart xs ys → IsPart us vs → IsPart (xs ++ us) (ys ++ vs)
  IsPart-append nothing h = h
  IsPart-append (kept p) h = kept (IsPart-append p h)
  IsPart-append (dropped p) h = dropped (IsPart-append p h)

  pub IsPart-none : (ys : List A) → IsPart [] ys
  IsPart-none [] = nothing
  IsPart-none (y ∷ ys) = dropped (IsPart-none ys)

  pub IsPart-all : (xs : List A) → IsPart xs xs
  IsPart-all [] = nothing
  IsPart-all (x ∷ xs) = kept (IsPart-all xs)

  pub IsPart-more : {xs ys : List A} (zs : List A) → IsPart xs ys → IsPart xs (ys ++ zs)
  IsPart-more zs nothing = IsPart-none zs
  IsPart-more zs (kept p) = kept (IsPart-more zs p)
  IsPart-more zs (dropped p) = dropped (IsPart-more zs p)
