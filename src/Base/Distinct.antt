-- ===== src/Base/Distinct.antt =====
-- Lists without repetition, and that sorting and merging neighbours yields one.
use mathlib.Core.Path.{◌≡◌, sym, ap, ◌∙◌}
use mathlib.Core.Logic.{◌≢◌, inl, inr}
use mathlib.Core.Bool.{Bool, true, false, ◌&&◌}
use mathlib.Core.List.{List, [], ◌∷◌, ◌++◌, map}
use native.Mathlib.Omega.{arith}
use pg_ros.Base.Tests.{Bool-cases}
use pg_ros.Base.Lists.{All}
use pg_ros.Base.Order.{IsOrder, insert, sort, dedup, merge_first}

-- No element occurs twice.
abbrev pub Distinct {ℓ} : {A : Type ℓ} → List A → Type ℓ
Distinct [] = Unit
Distinct (x ∷ xs) = All (λ y. x ≢ y) xs × Distinct xs

pub All-append {ℓ κ} :
    {A : Type ℓ} (P : A → Type κ) (xs ys : List A) → All P xs → All P ys → All P (xs ++ ys)
All-append P [] ys h k = k
All-append P (x ∷ xs) ys h k = (h.0, All-append P xs ys h.1 k)

pub All-map {ℓ κ ι} :
    {A : Type ℓ} {B : Type κ} (P : B → Type ι) (f : A → B) (xs : List A)
    → All (λ x. P (f x)) xs
    → All P (map f xs)
All-map P f [] h = h
All-map P f (x ∷ xs) h = (h.0, All-map P f xs h.1)

pub All-mono {ℓ κ ι} :
    {A : Type ℓ} (P : A → Type κ) (Q : A → Type ι) (xs : List A)
    → ((x : A) → P x → Q x)
    → All P xs
    → All Q xs
All-mono P Q [] f h = tt
All-mono P Q (x ∷ xs) f h = (f x h.0, All-mono P Q xs f h.1)

pub All-every {ℓ κ} : {A : Type ℓ} (P : A → Type κ) (xs : List A) → ((x : A) → P x) → All P xs
All-every P [] f = tt
All-every P (x ∷ xs) f = (f x, All-every P xs f)

pub Distinct-append {ℓ} :
    {A : Type ℓ} (xs ys : List A)
    → Distinct xs
    → Distinct ys
    → All (λ x. All (λ y. x ≢ y) ys) xs
    → Distinct (xs ++ ys)
Distinct-append [] ys h k c = k
Distinct-append (x ∷ xs) ys h k c = (All-append _ xs ys h.0 c.0, Distinct-append xs ys h.1 k c.1)

module _ {ℓ} {A : Type ℓ} (le : A → A → Bool) where
  -- Each element comes before the later ones.
  abbrev Ascending : List A → Type ℓ
  Ascending [] = Unit
  Ascending (x ∷ xs) = All (λ y. le x y ≡ true) xs × Ascending xs

  All-insert {κ} : (P : A → Type κ) (x : A) (xs : List A) → P x → All P xs → All P (insert le x xs)
  All-insert P x [] h k = (h, k)
  All-insert P x (y ∷ ys) h k = elim (Bool-cases (le x y)) [
    | inl p ↦ rw p (h, k)
    | inr p ↦ rw p (k.0, All-insert P x ys h k.1)
  ]

  pub All-sort {κ} : (P : A → Type κ) (xs : List A) → All P xs → All P (sort le xs)
  All-sort P [] h = h
  All-sort P (x ∷ xs) h = All-insert P x (sort le xs) h.0 (All-sort P xs h.1)

  All-merge_first {κ} :
      (P : A → Type κ) (x : A) (xs : List A) → P x → All P xs → All P (merge_first le x xs)
  All-merge_first P x [] h k = (h, k)
  All-merge_first P x (y ∷ ys) h k = elim (Bool-cases (le x y && le y x)) [
    | inl p ↦ rw p k
    | inr p ↦ rw p (h, k)
  ]

  pub All-dedup {κ} : (P : A → Type κ) (xs : List A) → All P xs → All P (dedup le xs)
  All-dedup P [] h = h
  All-dedup P (x ∷ xs) h = All-merge_first P x (dedup le xs) h.0 (All-dedup P xs h.1)

  module _ (order : IsOrder le) where
    insert-Ascending : (x : A) (xs : List A) → Ascending xs → Ascending (insert le x xs)
    insert-Ascending x [] h = (tt, tt)
    insert-Ascending x (y ∷ ys) h = elim (Bool-cases (le x y)) [
      | inl p ↦ rw p ((p, All-mono _ _ ys (λ z q. order.transitive x y z p q) h.0), h)
      | inr p ↦
          rw p (
            All-insert (λ z. le y z ≡ true) x ys (order.total x y p) h.0,
            insert-Ascending x ys h.1,
          )
    ]

    sort-Ascending : (xs : List A) → Ascending (sort le xs)
    sort-Ascending [] = tt
    sort-Ascending (x ∷ xs) = insert-Ascending x (sort le xs) (sort-Ascending xs)

    -- A smaller element that is not merged with `y` is none of those from `y` on.
    apart : (x y : A) → le x y ≡ true → (le x y && le y x) ≡ false → (z : A) → le y z ≡ true → x ≢ z
    apart x y h p z q e = let back = ap (le y) e ∙ q in ground arith

    apart_first : (x y : A) → le x y ≡ true → (le x y && le y x) ≡ false → x ≢ y
    apart_first x y h p e = let back = ap (λ t. le t x) (sym e) ∙ ap (le x) e ∙ h in ground arith

    merge_first-Ascending :
        (x : A) (xs : List A)
        → All (λ y. le x y ≡ true) xs
        → Ascending xs × Distinct xs
        → Ascending (merge_first le x xs) × Distinct (merge_first le x xs)
    merge_first-Ascending x [] h k = ((tt, tt), (tt, tt))
    merge_first-Ascending x (y ∷ ys) h k = elim (Bool-cases (le x y && le y x)) [
      | inl p ↦ rw p k
      | inr p ↦
          rw p ((h, k.0), ((apart_first x y h.0 p, All-mono _ _ ys (apart x y h.0 p) k.0.0), k.1))
    ]

    dedup-Ascending :
        (xs : List A) → Ascending xs → Ascending (dedup le xs) × Distinct (dedup le xs)
    dedup-Ascending [] h = (tt, tt)
    dedup-Ascending (x ∷ xs) h =
        merge_first-Ascending x (dedup le xs) (All-dedup _ xs h.0) (dedup-Ascending xs h.1)

    -- `sort` and then `dedup` leaves no element twice.
    pub dedup-sort-Distinct : (xs : List A) → Distinct (dedup le (sort le xs))
    dedup-sort-Distinct xs = (dedup-Ascending (sort le xs) (sort-Ascending xs)).1
