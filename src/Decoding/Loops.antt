-- ===== src/Decoding/Loops.antt =====
-- src/publish/json.rs: the loops over the elements of an array or a sequence.
use pg_ros.Base.{ℕ, zero, suc, List, [], ◌∷◌, Text, Result, ok, err, ltb, length, if◌then◌else◌}
use pg_ros.Message.{Message, Messages, no_messages, item}
use pg_ros.Decoding.Scalar.{DecodeError, too_many_elements, check_length, ◌>>=◌}

abbrev pub Decoded {ℓ} : Type ℓ → Type ℓ
Decoded A = Result DecodeError A

-- `message_view` on one JSON value: it takes the view and the name.
abbrev pub View : Type 0
View = Message → Text → Decoded Message

abbrev pub replicate {ℓ} : {A : Type ℓ} → ℕ → A → List A
replicate zero a = []
replicate (suc n) a = a ∷ replicate n a

-- `resize`: `try_reset` fails only above the bound, which the test has excluded.
unfoldable pub resize : ℕ → ℕ → Text → Decoded (Unit {0})
resize bound len name = if ltb bound len then err (too_many_elements name len bound) else ok tt

module _ {J T : Type 0} where
  -- `for (element, item) in slot.iter_mut().zip(items) { *element = read(item)?; }`
  unfoldable pub assign_each : (J → Decoded T) → List T → List J → Decoded (List T)
  assign_each read [] items = ok []
  assign_each read (x ∷ xs) [] = ok (x ∷ xs)
  assign_each read (x ∷ xs) (j ∷ items) = do y ← read j; ys ← assign_each read xs items; ok (y ∷ ys)

  -- `items.iter().map(read).collect()`
  unfoldable pub collect : (J → Decoded T) → List J → Decoded (List T)
  collect read [] = ok []
  collect read (j ∷ items) = do y ← read j; ys ← collect read items; ok (y ∷ ys)

  -- `fill_integer`, `fill_f32` and the other loops over a slice.
  unfoldable pub fill : (J → Decoded T) → List T → List J → Text → Decoded (List T)
  unfolding assign_each check_length
  fill read slot items name = do
    _ ← check_length (length slot) (length items) name
    assign_each read slot items

  -- The loop after `slot.reset(items.len())`, whose elements are all overwritten.
  unfoldable pub refill : (J → Decoded T) → T → List J → Decoded (List T)
  unfolding assign_each
  refill read default items = assign_each read (replicate (length items) default) items

-- The lengths of a message array, and `reset` to so many defaults.
abbrev pub count : Messages → ℕ
count no_messages = 0
count (item m ms) = suc (count ms)

abbrev pub reset : ℕ → Message → Messages
reset zero default = no_messages
reset (suc n) default = item default (reset n default)

-- `for (element, item) in slot.iter_mut().zip(items) { message_view(element, item, name)?; }`
unfoldable pub assign_messages : Messages → List View → Text → Decoded Messages
assign_messages no_messages views name = ok no_messages
assign_messages (item m ms) [] name = ok (item m ms)
assign_messages (item m ms) (read ∷ views) name = do
  m' ← read m name
  ms' ← assign_messages ms views name
  ok (item m' ms')

-- `fill_message`
unfoldable pub fill_message : Messages → List View → Text → Decoded Messages
unfolding assign_messages check_length
fill_message slot views name = do
  _ ← check_length (count slot) (length views) name
  assign_messages slot views name
