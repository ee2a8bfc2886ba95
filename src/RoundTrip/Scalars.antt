-- ===== src/RoundTrip/Scalars.antt =====
-- Single values and lists of them are read back.
use pg_ros.Base.{
  ℕ, zero, suc, ◌≤◌, ◌≡◌, ◌∙◌, refl, ap, Bool, true, List, [], ◌∷◌, Text, ok, length, arith, All,
  le→ltb, ◌==◌, concat, inl, inr, Option-cases,
}
use pg_ros.Base.Int.{ℤ, pos}
use pg_ros.Encoding.Encode.{Formatter}
use pg_ros.Encoding.Tree.{Tree, int_tree, float_tree, double_tree, bool_tree, text_tree, items_of}
use pg_ros.Decoding.Scalar.{
  Numbers, IntType, integer, float32, float64, boolean, text, bounded_text, bounded_wtext,
  try_assign, list_of, check_length,
}
use pg_ros.Decoding.Loops.{Decoded, assign_each, collect, fill, refill, replicate, resize}
use pg_ros.Decoding.Range.{Holds, width, integer_iff}
use pg_ros.RoundTrip.{IsReadable, FloatReads, DoubleReads}

length-items_of {ℓ} :
    {T : Type ℓ} (tree : T → Tree) (xs : List T) → length (list_of (items_of tree xs)) ≡ length xs
unfolding items_of
length-items_of tree [] = refl
length-items_of tree (x ∷ xs) = ap suc (length-items_of tree xs)

pub resize_room : (bound n : ℕ) (name : Text) → n ≤ bound → resize bound n name ≡ ok tt
unfolding resize
resize_room bound n name h = rw (le→ltb bound n h) refl

-- Room for a list of elements, by the length that the decoder reads.
pub resize-items_of {ℓ} :
    {T : Type ℓ} (tree : T → Tree) (bound : ℕ) (xs : List T) (name : Text)
    → length xs ≤ bound
    → resize bound (length (list_of (items_of tree xs))) name ≡ ok tt
resize-items_of tree bound xs name room =
    resize_room bound (length (list_of (items_of tree xs))) name
      (omega (arith, room, length-items_of tree xs))

-- Reading a list, if each element is read back.
module _ {T : Type 0} (tree : T → Tree) (read : Tree → Decoded T) where
  abbrev pub Reads : T → Type 0
  Reads x = read (tree x) ≡ ok x

  pub collect-items_of :
      (xs : List T) → All Reads xs → collect read (list_of (items_of tree xs)) ≡ ok xs
  unfolding items_of collect
  collect-items_of [] h = refl
  collect-items_of (x ∷ xs) h = rw (h.0, collect-items_of xs h.1) refl

  assign_each-items_of :
      (slot xs : List T)
      → length slot ≡ length xs
      → All Reads xs
      → assign_each read slot (list_of (items_of tree xs)) ≡ ok xs
  unfolding items_of assign_each
  assign_each-items_of [] [] e h = refl
  assign_each-items_of [] (x ∷ xs) e h = absurd (omega arith)
  assign_each-items_of (s ∷ slot) [] e h = absurd (omega arith)
  assign_each-items_of (s ∷ slot) (x ∷ xs) e h =
      rw (h.0, assign_each-items_of slot xs (omega arith) h.1) refl

  pub fill-items_of :
      (slot xs : List T) (name : Text)
      → length slot ≡ length xs
      → All Reads xs
      → fill read slot (list_of (items_of tree xs)) name ≡ ok xs
  unfolding fill check_length
  fill-items_of slot xs name e h =
      let same : (length slot == length (list_of (items_of tree xs))) ≡ true =
        ground (arith, e, length-items_of tree xs) in
      rw same (assign_each-items_of slot xs e h)

  length-replicate : (n : ℕ) (x : T) → length (replicate n x) ≡ n
  length-replicate zero x = refl
  length-replicate (suc n) x = ap suc (length-replicate n x)

  pub refill-items_of :
      (default : T) (xs : List T)
      → All Reads xs
      → refill read default (list_of (items_of tree xs)) ≡ ok xs
  unfolding refill
  refill-items_of default xs h =
      assign_each-items_of (replicate (length (list_of (items_of tree xs))) default) xs
        (length-replicate (length (list_of (items_of tree xs))) default ∙ length-items_of tree xs) h

pub All-every {ℓ κ} : {A : Type ℓ} {P : A → Type κ} → ((x : A) → P x) → (xs : List A) → All P xs
All-every h [] = tt
All-every h (x ∷ xs) = (h x, All-every h xs)

pub All-weaken {ℓ κ ι} :
    {A : Type ℓ} {P : A → Type κ} {Q : A → Type ι}
    → ((x : A) → P x → Q x)
    → (xs : List A) → All P xs
    → All Q xs
All-weaken k [] h = tt
All-weaken k (x ∷ xs) h = (k x h.0, All-weaken k xs h.1)

module _ (numbers : Numbers Text) (f : Formatter) (laws : IsReadable numbers f) where
  pub integer-int_tree :
      (t : IntType) (name : Text) (v : ℤ)
      → Holds (width t) v
      → integer numbers t (int_tree v) name ≡ ok v
  unfolding int_tree
  integer-int_tree t name v h =
      (integer_iff numbers laws.number_of laws.accessed t (int_tree v) name v).1
        (laws.integers_read t v h, h)

  -- A finite float is read from its text, and null is read as the NaN.
  pub float32-float_tree :
      (name : Text) (v : ℕ) → FloatReads numbers f v → float32 numbers (float_tree f v) name ≡ ok v
  unfolding float32 float64 float_tree
  float32-float_tree name v (inl (finite, e)) =
      rw finite (elim (Option-cases (numbers.as_f64 (concat (f.float_pieces v)))) [
        | inl absent ↦ absurd (ground (arith, rw absent at e))
        | inr (x, found) ↦ rw found (ground (arith, rw found at e))
      ])
  float32-float_tree name v (inr (not_finite, e)) = rw not_finite (ap ok e)

  pub float64-double_tree :
      (name : Text) (v : ℕ)
      → DoubleReads numbers f v
      → float64 numbers (double_tree f v) name ≡ ok v
  unfolding float64 double_tree
  float64-double_tree name v (inl (finite, e)) = rw (finite, e) refl
  float64-double_tree name v (inr (not_finite, e)) = rw not_finite (ap ok e)

  pub boolean-bool_tree : (name : Text) (b : Bool) → boolean (bool_tree b) name ≡ ok b
  unfolding boolean bool_tree
  boolean-bool_tree name b = refl

  pub text-text_tree : (name s : Text) → text (text_tree f s) name ≡ ok s
  unfolding text text_tree
  text-text_tree name s = ap ok (laws.pieces_whole s)

  pub bounded_text-text_tree :
      (bound : ℕ) (name s : Text)
      → numbers.string_size s ≤ bound
      → bounded_text numbers bound (text_tree f s) name ≡ ok s
  unfolding bounded_text text text_tree try_assign
  bounded_text-text_tree bound name s h = rw (laws.pieces_whole s, le→ltb bound _ h) refl

  pub bounded_wtext-text_tree :
      (bound : ℕ) (name s : Text)
      → numbers.wstring_size s ≤ bound
      → bounded_wtext numbers bound (text_tree f s) name ≡ ok s
  unfolding bounded_wtext text text_tree try_assign
  bounded_wtext-text_tree bound name s h = rw (laws.pieces_whole s, le→ltb bound _ h) refl

  -- Lists of integers of one type.
  pub fill-integer :
      (t : IntType) (slot xs : List ℤ) (name : Text)
      → length slot ≡ length xs
      → All (λ v. Holds (width t) v) xs
      → fill (λ j. integer numbers t j name) slot (list_of (items_of int_tree xs)) name ≡ ok xs
  fill-integer t slot xs name same h =
      fill-items_of int_tree (λ j. integer numbers t j name) slot xs name same
        (All-weaken (integer-int_tree t name) xs h)

  pub collect-integer :
      (t : IntType) (xs : List ℤ) (name : Text)
      → All (λ v. Holds (width t) v) xs
      → collect (λ j. integer numbers t j name) (list_of (items_of int_tree xs)) ≡ ok xs
  collect-integer t xs name h =
      collect-items_of int_tree (λ j. integer numbers t j name) xs
        (All-weaken (integer-int_tree t name) xs h)

  pub refill-integer :
      (t : IntType) (xs : List ℤ) (name : Text)
      → All (λ v. Holds (width t) v) xs
      → refill (λ j. integer numbers t j name) (pos 0) (list_of (items_of int_tree xs)) ≡ ok xs
  refill-integer t xs name h =
      refill-items_of int_tree (λ j. integer numbers t j name) (pos 0) xs
        (All-weaken (integer-int_tree t name) xs h)
