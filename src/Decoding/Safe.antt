-- ===== src/Decoding/Safe.antt =====
-- src/publish/json.rs: what it means that a call does not panic, for the values and the loops.
use pg_ros.Base.{
  ℕ, Bool, Option, none, some, List, [], ◌∷◌, Text, length, All, ok, err, and_then, ltb, ◌==◌,
  if◌then◌else◌, Bool-cases, inl, inr,
}
use pg_ros.Json.{Json, null, bool, number, string, object}
use pg_ros.Json.{array as json_list}
use pg_ros.Message.{Message, Messages, no_messages, item}
use pg_ros.Decoding.Scalar.{
  Numbers, IntType, DecodeError, expect_failed, ok_or, as_integer, fits, json_array, boolean, text,
  try_assign, integer, float64, float32, bounded_text, bounded_wtext, check_length,
}
use pg_ros.Decoding.Loops.{
  Decoded, View, replicate, resize, assign_each, collect, fill, refill, count, assign_messages,
  fill_message,
}

-- The error is one that the code returns, not the panic of an `expect`.
abbrev pub IsRefusal : DecodeError → Type 0
IsRefusal expect_failed = ⊥
IsRefusal _ = Unit

pub data Safe {ℓ} {A : Type ℓ} : Decoded A → Type ℓ where
  returns : {a : A} → Safe (ok a)
  refuses : {e : DecodeError} → IsRefusal e → Safe (err e)

pub Safe-bind {ℓ κ} :
    {A : Type ℓ} {B : Type κ} {r : Decoded A} {f : A → Decoded B}
    → Safe r
    → ((a : A) → Safe (f a))
    → Safe (and_then r f)
Safe-bind (returns {a}) k = k a
Safe-bind (refuses h) k = refuses h

pub Safe-map {ℓ κ} :
    {A : Type ℓ} {B : Type κ} {r : Decoded A} (f : A → B)
    → Safe r
    → Safe (and_then r (λ a. ok (f a)))
Safe-map f h = Safe-bind h (λ a. returns)

Safe-if {ℓ} :
    {A : Type ℓ} {r s : Decoded A} (b : Bool) → Safe r → Safe s → Safe (if b then r else s)
Safe-if b h k = elim (Bool-cases b) [ inl e ↦ rw e h | inr e ↦ rw e k ]

Safe-ok_or {ℓ} : {A : Type ℓ} (o : Option A) (e : DecodeError) → IsRefusal e → Safe (ok_or o e)
Safe-ok_or none e h = refuses h
Safe-ok_or (some a) e h = returns

pub resize-Safe : (bound len : ℕ) (name : Text) → Safe (resize bound len name)
unfolding resize
resize-Safe bound len name = Safe-if (ltb bound len) (refuses tt) returns

check_length-Safe : (expected actual : ℕ) (name : Text) → Safe (check_length expected actual name)
unfolding check_length
check_length-Safe expected actual name = Safe-if (expected == actual) returns (refuses tt)

module _ {N : Type 0} where
  pub json_array-Safe : (j : Json N) (name : Text) → Safe (json_array j name)
  unfolding json_array
  json_array-Safe (json_list items) name = returns
  json_array-Safe null name = refuses tt
  json_array-Safe (bool _) name = refuses tt
  json_array-Safe (number _) name = refuses tt
  json_array-Safe (string _) name = refuses tt
  json_array-Safe (object _) name = refuses tt

  pub boolean-Safe : (j : Json N) (name : Text) → Safe (boolean j name)
  unfolding boolean
  boolean-Safe (bool b) name = returns
  boolean-Safe null name = refuses tt
  boolean-Safe (json_list _) name = refuses tt
  boolean-Safe (number _) name = refuses tt
  boolean-Safe (string _) name = refuses tt
  boolean-Safe (object _) name = refuses tt

  pub text-Safe : (j : Json N) (name : Text) → Safe (text j name)
  unfolding text
  text-Safe (string s) name = returns
  text-Safe null name = refuses tt
  text-Safe (json_list _) name = refuses tt
  text-Safe (number _) name = refuses tt
  text-Safe (bool _) name = refuses tt
  text-Safe (object _) name = refuses tt

try_assign-Safe : (bound size : ℕ) (name s : Text) → Safe (try_assign bound size name s)
unfolding try_assign
try_assign-Safe bound size name s = Safe-if (ltb bound size) (refuses tt) returns

module _ {N : Type 0} (numbers : Numbers N) where
  pub integer-Safe : (t : IntType) (j : Json N) (name : Text) → Safe (integer numbers t j name)
  unfolding integer
  integer-Safe t j name =
      Safe-bind (Safe-ok_or (as_integer numbers j) _ tt)
        λ n. Safe-if (fits t n) returns (refuses tt)

  pub float64-Safe : (j : Json N) (name : Text) → Safe (float64 numbers j name)
  unfolding float64
  float64-Safe null name = returns
  float64-Safe (number n) name = Safe-ok_or (numbers.as_f64 n) _ tt
  float64-Safe (bool _) name = refuses tt
  float64-Safe (string _) name = refuses tt
  float64-Safe (json_list _) name = refuses tt
  float64-Safe (object _) name = refuses tt

  pub float32-Safe : (j : Json N) (name : Text) → Safe (float32 numbers j name)
  unfolding float32
  float32-Safe j name = Safe-map _ (float64-Safe j name)

  pub bounded_text-Safe :
      (bound : ℕ) (j : Json N) (name : Text) → Safe (bounded_text numbers bound j name)
  unfolding bounded_text
  bounded_text-Safe bound j name =
      Safe-bind (text-Safe j name) λ s. try_assign-Safe bound (numbers.string_size s) name s

  pub bounded_wtext-Safe :
      (bound : ℕ) (j : Json N) (name : Text) → Safe (bounded_wtext numbers bound j name)
  unfolding bounded_wtext
  bounded_wtext-Safe bound j name =
      Safe-bind (text-Safe j name) λ s. try_assign-Safe bound (numbers.wstring_size s) name s

module _ {J T : Type 0} (read : J → Decoded T) (safe : (j : J) → Safe (read j)) where
  assign_each-Safe : (slot : List T) (items : List J) → Safe (assign_each read slot items)
  unfolding assign_each
  assign_each-Safe [] items = returns
  assign_each-Safe (x ∷ xs) [] = returns
  assign_each-Safe (x ∷ xs) (j ∷ items) =
      Safe-bind (safe j) λ y. Safe-map _ (assign_each-Safe xs items)

  pub collect-Safe : (items : List J) → Safe (collect read items)
  unfolding collect
  collect-Safe [] = returns
  collect-Safe (j ∷ items) = Safe-bind (safe j) λ y. Safe-map _ (collect-Safe items)

  pub fill-Safe : (slot : List T) (items : List J) (name : Text) → Safe (fill read slot items name)
  unfolding fill
  fill-Safe slot items name =
      Safe-bind (check_length-Safe (length slot) (length items) name)
        λ _. assign_each-Safe slot items

  pub refill-Safe : (default : T) (items : List J) → Safe (refill read default items)
  unfolding refill
  refill-Safe default items = assign_each-Safe (replicate (length items) default) items

-- The view never panics.
abbrev pub IsSafeView : View → Type 0
IsSafeView read = (m : Message) (name : Text) → Safe (read m name)

pub assign_messages-Safe :
    (slot : Messages) (views : List View) (name : Text)
    → All IsSafeView views
    → Safe (assign_messages slot views name)
unfolding assign_messages
assign_messages-Safe no_messages views name safe = returns
assign_messages-Safe (item m ms) [] name safe = returns
assign_messages-Safe (item m ms) (read ∷ views) name safe =
    Safe-bind (safe.0 m name) λ m'. Safe-map _ (assign_messages-Safe ms views name safe.1)

pub fill_message-Safe :
    (slot : Messages) (views : List View) (name : Text)
    → All IsSafeView views
    → Safe (fill_message slot views name)
unfolding fill_message
fill_message-Safe slot views name safe =
    Safe-bind (check_length-Safe (count slot) (length views) name)
      λ _. assign_messages-Safe slot views name safe
