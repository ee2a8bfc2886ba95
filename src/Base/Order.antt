-- ===== src/Base/Order.antt =====
-- `sort` and `dedup` of Rust's slices, over a Boolean test of an order, and the orders of strings and
-- of pairs of strings.
use mathlib.Core.Path.{◌≡◌, refl, sym, ap, ◌∙◌}
use mathlib.Core.Logic.{inl, inr}
use mathlib.Core.Bool.{Bool, true, false, not, ◌&&◌, ◌||◌}
use mathlib.Core.List.{List, [], ◌∷◌, Permᴰ}
use native.Mathlib.Omega.{arith}
use pg_ros.Base.Tests.{ltb, if◌then◌else◌, Bool-cases}
use pg_ros.Base.Bytes.{Text}

module _ {ℓ} {A : Type ℓ} (le : A → A → Bool) where
  pub record IsOrder : Type ℓ where
    pub total : (a b : A) → le a b ≡ false → le b a ≡ true
    pub transitive : (a b c : A) → le a b ≡ true → le b c ≡ true → le a c ≡ true
    pub antisymmetric : (a b : A) → le a b ≡ true → le b a ≡ true → a ≡ b

  abbrev pub insert : A → List A → List A
  insert x [] = x ∷ []
  insert x (y ∷ ys) = let rest = insert x ys in if le x y then x ∷ y ∷ ys else y ∷ rest

  abbrev pub sort : List A → List A
  sort [] = []
  sort (x ∷ xs) = insert x (sort xs)

  -- Equal neighbours merged; `le` both ways is equality.
  abbrev pub merge_first : A → List A → List A
  merge_first x [] = x ∷ []
  merge_first x (y ∷ ys) = if le x y && le y x then y ∷ ys else x ∷ y ∷ ys

  abbrev pub dedup : List A → List A
  dedup [] = []
  dedup (x ∷ xs) = merge_first x (dedup xs)

  insert_here : (x y : A) (ys : List A) → le x y ≡ true → insert x (y ∷ ys) ≡ x ∷ y ∷ ys
  insert_here x y ys h = rw h

  insert_later : (x y : A) (ys : List A) → le x y ≡ false → insert x (y ∷ ys) ≡ y ∷ insert x ys
  insert_later x y ys h = rw h

  module _ (order : IsOrder) where
    insert_two :
        (x y : A) (zs : List A)
        → insert x zs ≡ x ∷ zs
        → insert y zs ≡ y ∷ zs
        → insert x (y ∷ zs) ≡ insert y (x ∷ zs)
    insert_two x y zs hx hy = elim (Bool-cases (le x y)) [
      | inl p ↦ elim (Bool-cases (le y x)) [
        | inl q ↦
            let same = order.antisymmetric x y p q in
            ap (λ (t : A). insert x (t ∷ zs)) (sym same) ∙ ap (λ (t : A). insert t (x ∷ zs)) same
        | inr q ↦ insert_here x y zs p ∙ ap (λ t. x ∷ t) (sym hy) ∙ sym (insert_later y x zs q)
      ]
      | inr p ↦
          insert_later x y zs p ∙ ap (λ t. y ∷ t) hx ∙ sym (insert_here y x zs (order.total x y p))
    ]

    insert_past :
        (x y z : A) (zs : List A)
        → le y z ≡ true
        → le x z ≡ false
        → insert x (y ∷ z ∷ zs) ≡ insert y (z ∷ insert x zs)
    insert_past x y z zs p q = elim (Bool-cases (le x y)) [
      | inl h ↦ absurd (ground (arith, order.transitive x y z h p))
      | inr h ↦
          insert_later x y (z ∷ zs) h
          ∙ ap (λ t. y ∷ t) (insert_later x z zs q)
          ∙ sym (insert_here y z (insert x zs) p)
    ]

    insert_comm : (x y : A) (zs : List A) → insert x (insert y zs) ≡ insert y (insert x zs)
    insert_comm x y [] = insert_two x y [] refl refl
    insert_comm x y (z ∷ zs) = elim (Bool-cases (le x z)) [
      | inl p ↦ elim (Bool-cases (le y z)) [
        | inl q ↦
            ap (insert x) (insert_here y z zs q)
            ∙ insert_two x y (z ∷ zs) (insert_here x z zs p) (insert_here y z zs q)
            ∙ sym (ap (insert y) (insert_here x z zs p))
        | inr q ↦
            ap (insert x) (insert_later y z zs q)
            ∙ sym (insert_past y x z zs p q)
            ∙ sym (ap (insert y) (insert_here x z zs p))
      ]
      | inr p ↦ elim (Bool-cases (le y z)) [
        | inl q ↦
            ap (insert x) (insert_here y z zs q)
            ∙ insert_past x y z zs q p
            ∙ sym (ap (insert y) (insert_later x z zs p))
        | inr q ↦
            ap (insert x) (insert_later y z zs q)
            ∙ insert_later x z (insert y zs) p
            ∙ ap (λ t. z ∷ t) (insert_comm x y zs)
            ∙ sym (insert_later y z (insert x zs) q)
            ∙ sym (ap (insert y) (insert_later x z zs p))
      ]
    ]

    -- Permuted lists are sorted to the same list.
    pub sort-Perm : {xs ys : List A} → Permᴰ xs ys → sort xs ≡ sort ys
    sort-Perm Permᴰ.nil = refl
    sort-Perm (Permᴰ.cons {a = a} {b = b} {l₂ = ys} e h) =
        ap (insert a) (sort-Perm h) ∙ ap (λ (t : A). insert t (sort ys)) e
    sort-Perm (Permᴰ.swap {a = a} {b = b} {b' = b'} {l = l} e f) =
        ap (λ (t : A). insert t (insert b (sort l))) e
        ∙ insert_comm b' b (sort l)
        ∙ ap (λ (t : A). insert t (insert b' (sort l))) f
    sort-Perm (Permᴰ.trans h k) = sort-Perm h ∙ sort-Perm k

-- `Ord` on strings: lexicographic on the bytes.
abbrev pub le_text : Text → Text → Bool
le_text [] ys = true
le_text (x ∷ xs) [] = false
le_text (x ∷ xs) (y ∷ ys) =
    let rest = le_text xs ys in if ltb x y then true else if ltb y x then false else rest

le_text_total : (a b : Text) → le_text a b ≡ false → le_text b a ≡ true
le_text_total [] b h = ground (arith, h)
le_text_total (x ∷ xs) [] h = refl
le_text_total (x ∷ xs) (y ∷ ys) h = ground (arith, le_text_total xs ys)

le_text_transitive : (a b c : Text) → le_text a b ≡ true → le_text b c ≡ true → le_text a c ≡ true
le_text_transitive [] b c h k = refl
le_text_transitive (x ∷ xs) [] c h k = ground (arith, h)
le_text_transitive (x ∷ xs) (y ∷ ys) [] h k = ground (arith, k)
le_text_transitive (x ∷ xs) (y ∷ ys) (z ∷ zs) h k = ground (arith, le_text_transitive xs ys zs)

le_text_antisymmetric : (a b : Text) → le_text a b ≡ true → le_text b a ≡ true → a ≡ b
le_text_antisymmetric [] [] h k = refl
le_text_antisymmetric [] (y ∷ ys) h k = ground (arith, k)
le_text_antisymmetric (x ∷ xs) [] h k = ground (arith, h)
le_text_antisymmetric (x ∷ xs) (y ∷ ys) h k = ground (arith, le_text_antisymmetric xs ys)

pub le_text-IsOrder : IsOrder le_text
le_text-IsOrder = record {
  total = le_text_total;
  transitive = le_text_transitive;
  antisymmetric = le_text_antisymmetric;
}

-- `Ord` on pairs of strings.
abbrev pub le_pair : Text × Text → Text × Text → Bool
le_pair (a, b) (c, d) = le_text a c && (le_text b d || not (le_text c a))

le_pair_antisymmetric :
    (a b c d : Text)
    → le_pair (a, b) (c, d) ≡ true
    → le_pair (c, d) (a, b) ≡ true
    → ◌≡◌ {A = Text × Text} (a, b) (c, d)
le_pair_antisymmetric a b c d h k =
    let first = le_text_antisymmetric a c (ground arith) (ground arith) in
    let second = le_text_antisymmetric b d (ground arith) (ground arith) in rw (first, second)

pub le_pair-IsOrder : IsOrder le_pair
le_pair-IsOrder = record {
  total =
      λ (a, b) (c, d) h. ground (arith, le_text_total a c, le_text_total b d, le_text_total c a);
  transitive = λ (a, b) (c, d) (e, f) h k. ground (
    arith,
    le_text_transitive a c e,
    le_text_transitive b d f,
    le_text_transitive c e a,
    le_text_transitive e a c,
  );
  antisymmetric = λ (a, b) (c, d) h k. le_pair_antisymmetric a b c d h k;
}
