-- ===== src/Decoding/Typed/Loops.antt =====
-- The loops of src/publish/json.rs put typed elements into their slots, as many as before.
use pg_ros.Base.{
  ℕ, zero, suc, ◌≤◌, ◌≡◌, refl, ap, List, [], ◌∷◌, Text, length, All, Ensures, holds, rejected,
  Ensures-and_then, arith, ◌==◌, ltb, Bool-cases, inl, inr,
}
use pg_ros.Message.{Message, Messages, no_messages, item}
use pg_ros.Decoding.Scalar.{Numbers, check_length}
use pg_ros.Decoding.Loops.{
  Decoded, View, replicate, resize, assign_each, collect, fill, refill, count, reset,
  assign_messages, fill_message,
}
use pg_ros.Decoding.Typed.{HasType, EachHasType, done, next}

-- Nothing is asked of an element.
abbrev pub Anything : {A : Type 0} → A → Type 0
Anything a = Unit {0}

check_length-Ensures :
    (expected actual : ℕ) (name : Text)
    → Ensures (λ _. expected ≡ actual) (check_length expected actual name)
unfolding check_length
check_length-Ensures expected actual name = elim (Bool-cases (expected == actual)) [
  | inl e ↦ rw e (holds (ground arith))
  | inr e ↦ rw e rejected
]

pub resize-Ensures :
    (bound len : ℕ) (name : Text) → Ensures (λ _. len ≤ bound) (resize bound len name)
unfolding resize
resize-Ensures bound len name = elim (Bool-cases (ltb bound len)) [
  | inl e ↦ rw e rejected
  | inr e ↦ rw e (holds (ground arith))
]

length-replicate {ℓ} : {A : Type ℓ} (n : ℕ) (a : A) → length (replicate n a) ≡ n
length-replicate zero a = refl
length-replicate (suc n) a = ap suc (length-replicate n a)

module _ {J T : Type 0} (P : T → Type 0) (read : J → Decoded T)
    (each : (j : J) → Ensures P (read j)) where
  assign_each-Ensures :
      (slot : List T) (items : List J)
      → length slot ≤ length items
      → Ensures (λ ys. All P ys × (length ys ≡ length slot)) (assign_each read slot items)
  unfolding assign_each
  assign_each-Ensures [] items h = holds (tt, refl)
  assign_each-Ensures (x ∷ xs) [] h = elim h [ ]
  assign_each-Ensures (x ∷ xs) (j ∷ items) h = Ensures-and_then (each j) λ y p.
      Ensures-and_then (assign_each-Ensures xs items (omega arith))
        λ ys q. holds ((p, q.0), ap suc q.1)

  pub collect-Ensures : (items : List J) → Ensures (All P) (collect read items)
  unfolding collect
  collect-Ensures [] = holds tt
  collect-Ensures (j ∷ items) =
      Ensures-and_then (each j) λ y p. Ensures-and_then (collect-Ensures items) λ ys q. holds (p, q)

  pub fill-Ensures :
      (slot : List T) (items : List J) (name : Text)
      → Ensures (λ ys. All P ys × (length ys ≡ length slot)) (fill read slot items name)
  unfolding fill
  fill-Ensures slot items name =
      Ensures-and_then (check_length-Ensures (length slot) (length items) name)
        λ _ same. assign_each-Ensures slot items (omega arith)

  pub refill-Ensures :
      (default : T) (items : List J)
      → Ensures (λ ys. All P ys × (length ys ≡ length items)) (refill read default items)
  unfolding refill
  refill-Ensures default items = rw (length-replicate (length items) default) at (
      assign_each-Ensures (replicate (length items) default) items
        (omega (arith, length-replicate {0} (length items) default)))

module _ {N : Type 0} (numbers : Numbers N) where
  -- A view keeps the type of every message.
  abbrev pub Keeps : View → Type 0
  Keeps read =
      (t m : Message) (name : Text)
      → HasType numbers t m
      → Ensures (HasType numbers t) (read m name)

  pub assign_messages-Ensures :
      (t : Message) (slot : Messages) (views : List View) (name : Text)
      → All Keeps views
      → EachHasType numbers t slot
      → Ensures
          (λ ms. EachHasType numbers t ms × (count ms ≡ count slot))
          (assign_messages slot views name)
  unfolding assign_messages
  assign_messages-Ensures t no_messages views name keep typed = holds (done, refl)
  assign_messages-Ensures t (item m ms) [] name keep typed = holds (typed, refl)
  assign_messages-Ensures t (item m ms) (read ∷ views) name keep (next p ps) =
      Ensures-and_then (keep.0 t m name p) λ m' p'.
        Ensures-and_then (assign_messages-Ensures t ms views name keep.1 ps)
          λ ms' q. holds (next p' q.0, ap suc q.1)

  pub fill_message-Ensures :
      (t : Message) (slot : Messages) (views : List View) (name : Text)
      → All Keeps views
      → EachHasType numbers t slot
      → Ensures
          (λ ms. EachHasType numbers t ms × (count ms ≡ count slot))
          (fill_message slot views name)
  unfolding fill_message
  fill_message-Ensures t slot views name keep typed =
      Ensures-and_then (check_length-Ensures (count slot) (length views) name)
        λ _ _. assign_messages-Ensures t slot views name keep typed

  pub reset-EachHasType :
      (n : ℕ) (t : Message) → HasType numbers t t → EachHasType numbers t (reset n t)
  reset-EachHasType zero t p = done
  reset-EachHasType (suc n) t p = next p (reset-EachHasType n t p)

pub count-reset : (n : ℕ) (t : Message) → count (reset n t) ≡ n
count-reset zero t = refl
count-reset (suc n) t = ap suc (count-reset n t)
