-- ===== src/Decoding/Typed.antt =====
-- What it means that a message has the type of a given message of src/publish/json.rs's decoder: the
-- same fields and kinds, integers in the range of their type, strings, arrays and bounded sequences
-- of admissible sizes.
pub mod Loops
pub mod Simple
pub mod Arrays
pub mod Sequences
pub mod Bounded
pub mod Decode
use pg_ros.Base.{ℕ, suc, ◌≤◌, ◌≡◌, Bool, true, List, [], ◌∷◌, Text, length, All}
use pg_ros.Base.Int.{ℤ}
use pg_ros.Message.{
  Value, SimpleValue, Elements, Message, Fields, Messages, simple, array, sequence,
  bounded_sequence, view, no_fields, field, no_messages, item,
}
use pg_ros.Decoding.Scalar.{Numbers, fits, u8, i8, u16, i16, u32, i32, u64, i64}
use pg_ros.Decoding.Loops.{count}

-- The number of elements.
unfoldable pub size_of : Elements → ℕ
size_of (Elements.floats xs) = length xs
size_of (Elements.doubles xs) = length xs
size_of (Elements.chars xs) = length xs
size_of (Elements.wchars xs) = length xs
size_of (Elements.booleans xs) = length xs
size_of (Elements.octets xs) = length xs
size_of (Elements.uint8s xs) = length xs
size_of (Elements.int8s xs) = length xs
size_of (Elements.uint16s xs) = length xs
size_of (Elements.int16s xs) = length xs
size_of (Elements.uint32s xs) = length xs
size_of (Elements.int32s xs) = length xs
size_of (Elements.uint64s xs) = length xs
size_of (Elements.int64s xs) = length xs
size_of (Elements.strings xs) = length xs
size_of (Elements.wstrings xs) = length xs
size_of (Elements.bounded_strings bound xs) = length xs
size_of (Elements.bounded_wstrings bound xs) = length xs
size_of Elements.long_doubles = 0
size_of (Elements.messages default ms) = count ms

module _ {N : Type 0} (numbers : Numbers N) where
  mutual
    -- The first argument is the type, of which only kinds, names, bounds, defaults and array lengths
    -- matter.
    pub data HasType : Message → Message → Type 0 where
      views : {t m : Fields} → FieldsType t m → HasType (view t) (view m)

    pub data FieldsType : Fields → Fields → Type 0 where
      none_left : FieldsType no_fields no_fields
      one_more :
          {name : Text} {t v : Value} {ts fs : Fields}
          → ValueType t v
          → FieldsType ts fs
          → FieldsType (field name t ts) (field name v fs)

    pub data ValueType : Value → Value → Type 0 where
      simples : {t v : SimpleValue} → SimpleType t v → ValueType (simple t) (simple v)
      arrays :
          {t e : Elements}
          → ElementsType t e
          → size_of e ≡ size_of t
          → ValueType (array t) (array e)
      sequences : {t e : Elements} → ElementsType t e → ValueType (sequence t) (sequence e)
      bounded_sequences :
          {bound : ℕ} {t e : Elements}
          → ElementsType t e
          → size_of e ≤ bound
          → ValueType (bounded_sequence bound t) (bounded_sequence bound e)

    pub data SimpleType : SimpleValue → SimpleValue → Type 0 where
      float : {t v : ℕ} → SimpleType (SimpleValue.float t) (SimpleValue.float v)
      double : {t v : ℕ} → SimpleType (SimpleValue.double t) (SimpleValue.double v)
      long_double : SimpleType SimpleValue.long_double SimpleValue.long_double
      char : {t v : ℤ} → fits u8 v ≡ true → SimpleType (SimpleValue.char t) (SimpleValue.char v)
      wchar : {t v : ℤ} → fits u16 v ≡ true → SimpleType (SimpleValue.wchar t) (SimpleValue.wchar v)
      boolean : {t v : Bool} → SimpleType (SimpleValue.boolean t) (SimpleValue.boolean v)
      octet : {t v : ℤ} → fits u8 v ≡ true → SimpleType (SimpleValue.octet t) (SimpleValue.octet v)
      uint8 : {t v : ℤ} → fits u8 v ≡ true → SimpleType (SimpleValue.uint8 t) (SimpleValue.uint8 v)
      int8 : {t v : ℤ} → fits i8 v ≡ true → SimpleType (SimpleValue.int8 t) (SimpleValue.int8 v)
      uint16 :
          {t v : ℤ} → fits u16 v ≡ true → SimpleType (SimpleValue.uint16 t) (SimpleValue.uint16 v)
      int16 : {t v : ℤ} → fits i16 v ≡ true → SimpleType (SimpleValue.int16 t) (SimpleValue.int16 v)
      uint32 :
          {t v : ℤ} → fits u32 v ≡ true → SimpleType (SimpleValue.uint32 t) (SimpleValue.uint32 v)
      int32 : {t v : ℤ} → fits i32 v ≡ true → SimpleType (SimpleValue.int32 t) (SimpleValue.int32 v)
      uint64 :
          {t v : ℤ} → fits u64 v ≡ true → SimpleType (SimpleValue.uint64 t) (SimpleValue.uint64 v)
      int64 : {t v : ℤ} → fits i64 v ≡ true → SimpleType (SimpleValue.int64 t) (SimpleValue.int64 v)
      string : {t v : Text} → SimpleType (SimpleValue.string t) (SimpleValue.string v)
      bounded_string :
          {bound : ℕ} {t v : Text}
          → numbers.string_size v ≤ bound
          → SimpleType (SimpleValue.bounded_string bound t) (SimpleValue.bounded_string bound v)
      wstring : {t v : Text} → SimpleType (SimpleValue.wstring t) (SimpleValue.wstring v)
      bounded_wstring :
          {bound : ℕ} {t v : Text}
          → numbers.wstring_size v ≤ bound
          → SimpleType (SimpleValue.bounded_wstring bound t) (SimpleValue.bounded_wstring bound v)
      message :
          {t m : Message} → HasType t m → SimpleType (SimpleValue.message t) (SimpleValue.message m)

    pub data ElementsType : Elements → Elements → Type 0 where
      floats : {t xs : List ℕ} → ElementsType (Elements.floats t) (Elements.floats xs)
      doubles : {t xs : List ℕ} → ElementsType (Elements.doubles t) (Elements.doubles xs)
      long_doubles : ElementsType Elements.long_doubles Elements.long_doubles
      chars :
          {t xs : List ℤ}
          → All (λ v. fits u8 v ≡ true) xs
          → ElementsType (Elements.chars t) (Elements.chars xs)
      wchars :
          {t xs : List ℤ}
          → All (λ v. fits u16 v ≡ true) xs
          → ElementsType (Elements.wchars t) (Elements.wchars xs)
      booleans : {t xs : List Bool} → ElementsType (Elements.booleans t) (Elements.booleans xs)
      octets :
          {t xs : List ℤ}
          → All (λ v. fits u8 v ≡ true) xs
          → ElementsType (Elements.octets t) (Elements.octets xs)
      uint8s :
          {t xs : List ℤ}
          → All (λ v. fits u8 v ≡ true) xs
          → ElementsType (Elements.uint8s t) (Elements.uint8s xs)
      int8s :
          {t xs : List ℤ}
          → All (λ v. fits i8 v ≡ true) xs
          → ElementsType (Elements.int8s t) (Elements.int8s xs)
      uint16s :
          {t xs : List ℤ}
          → All (λ v. fits u16 v ≡ true) xs
          → ElementsType (Elements.uint16s t) (Elements.uint16s xs)
      int16s :
          {t xs : List ℤ}
          → All (λ v. fits i16 v ≡ true) xs
          → ElementsType (Elements.int16s t) (Elements.int16s xs)
      uint32s :
          {t xs : List ℤ}
          → All (λ v. fits u32 v ≡ true) xs
          → ElementsType (Elements.uint32s t) (Elements.uint32s xs)
      int32s :
          {t xs : List ℤ}
          → All (λ v. fits i32 v ≡ true) xs
          → ElementsType (Elements.int32s t) (Elements.int32s xs)
      uint64s :
          {t xs : List ℤ}
          → All (λ v. fits u64 v ≡ true) xs
          → ElementsType (Elements.uint64s t) (Elements.uint64s xs)
      int64s :
          {t xs : List ℤ}
          → All (λ v. fits i64 v ≡ true) xs
          → ElementsType (Elements.int64s t) (Elements.int64s xs)
      strings : {t xs : List Text} → ElementsType (Elements.strings t) (Elements.strings xs)
      bounded_strings :
          {bound : ℕ} {t xs : List Text}
          → All (λ v. numbers.string_size v ≤ bound) xs
          → ElementsType (Elements.bounded_strings bound t) (Elements.bounded_strings bound xs)
      wstrings : {t xs : List Text} → ElementsType (Elements.wstrings t) (Elements.wstrings xs)
      bounded_wstrings :
          {bound : ℕ} {t xs : List Text}
          → All (λ v. numbers.wstring_size v ≤ bound) xs
          → ElementsType (Elements.bounded_wstrings bound t) (Elements.bounded_wstrings bound xs)
      messages :
          {default : Message} {t ms : Messages}
          → HasType default default
          → EachHasType default ms
          → ElementsType (Elements.messages default t) (Elements.messages default ms)

    pub data EachHasType : Message → Messages → Type 0 where
      done : {t : Message} → EachHasType t no_messages
      next :
          {t m : Message} {ms : Messages}
          → HasType t m
          → EachHasType t ms
          → EachHasType t (item m ms)
