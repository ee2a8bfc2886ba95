-- ===== src/RoundTrip.antt =====
-- src/subscriptions/json.rs and src/publish/json.rs together: which messages are read back. The numbers
-- of the JSON value are the texts that the encoder writes.
pub mod Scalars
pub mod Arrays
pub mod Sequences
pub mod Bounded
pub mod Apart
pub mod ByKey
pub mod Reorder
pub mod Members
pub mod Views
mod Tests
use mathlib.Core.Option
use pg_ros.Base.{ℕ, Bool, ◌≤◌, ◌≡◌, ◌⊎◌, true, false, Option, none, List, Text, concat, some, All}
use pg_ros.Base.Int.{ℤ}
use pg_ros.Message.{
  Value, SimpleValue, Elements, Message, Fields, Messages, simple, array, sequence,
  bounded_sequence, view, no_fields, field, no_messages, item,
}
use pg_ros.Encoding.Encode.{Formatter, int_pieces, is_finite_float, is_finite_double}
use pg_ros.Decoding.Scalar.{Numbers, IntType, fits, u8, i8, u16, i16, u32, i32, u64, i64}
use pg_ros.Decoding.Range.{IsAccessed, Holds, width}
use pg_ros.Decoding.Loops.{count, reset}
use pg_ros.Decoding.Decode.{get}
use pg_ros.Decoding.Typed.{size_of}

-- `number_of` is the integer that serde_json reads in a number's text; it reads the decimal text of an integer
-- as that integer, if one of the types can hold it. The pieces of a string's `Display` make up the string.
pub record IsReadable (numbers : Numbers Text) (f : Formatter) : Type 0 where
  pub number_of : Text → Option ℤ
  pub accessed : IsAccessed numbers number_of
  pub integers_read :
      (t : IntType) (v : ℤ) → Holds (width t) v → number_of (concat (int_pieces v)) ≡ some v
  pub pieces_whole : (s : Text) → concat (f.pieces s) ≡ s

module _ (numbers : Numbers Text) (f : Formatter) where
  -- A finite float whose text serde_json reads as that float, or the NaN that stands for every float that is
  -- not finite.
  abbrev pub FloatReads : ℕ → Type 0
  FloatReads v =
      ((is_finite_float v ≡ true)
        × (Option.map numbers.to_f32 (numbers.as_f64 (concat (f.float_pieces v))) ≡ some v))
      ⊎ ((is_finite_float v ≡ false) × (numbers.to_f32 numbers.nan ≡ v))

  abbrev pub DoubleReads : ℕ → Type 0
  DoubleReads v =
      ((is_finite_double v ≡ true) × (numbers.as_f64 (concat (f.double_pieces v)) ≡ some v))
      ⊎ ((is_finite_double v ≡ false) × (numbers.nan ≡ v))

  -- Elements of one kind, their values in range; messages are compared below.
  pub data SameElements : Elements → Elements → Type 0 where
    floats :
        {s xs : List ℕ} → All FloatReads xs → SameElements (Elements.floats s) (Elements.floats xs)
    doubles :
        {s xs : List ℕ}
        → All DoubleReads xs
        → SameElements (Elements.doubles s) (Elements.doubles xs)
    booleans : {s xs : List Bool} → SameElements (Elements.booleans s) (Elements.booleans xs)
    strings : {s xs : List Text} → SameElements (Elements.strings s) (Elements.strings xs)
    wstrings : {s xs : List Text} → SameElements (Elements.wstrings s) (Elements.wstrings xs)
    bounded_strings :
        {bound : ℕ} {s xs : List Text}
        → All (λ v. numbers.string_size v ≤ bound) xs
        → SameElements (Elements.bounded_strings bound s) (Elements.bounded_strings bound xs)
    bounded_wstrings :
        {bound : ℕ} {s xs : List Text}
        → All (λ v. numbers.wstring_size v ≤ bound) xs
        → SameElements (Elements.bounded_wstrings bound s) (Elements.bounded_wstrings bound xs)
    chars :
        {s xs : List ℤ}
        → All (λ v. Holds (width u8) v) xs
        → SameElements (Elements.chars s) (Elements.chars xs)
    wchars :
        {s xs : List ℤ}
        → All (λ v. Holds (width u16) v) xs
        → SameElements (Elements.wchars s) (Elements.wchars xs)
    octets :
        {s xs : List ℤ}
        → All (λ v. Holds (width u8) v) xs
        → SameElements (Elements.octets s) (Elements.octets xs)
    uint8s :
        {s xs : List ℤ}
        → All (λ v. Holds (width u8) v) xs
        → SameElements (Elements.uint8s s) (Elements.uint8s xs)
    int8s :
        {s xs : List ℤ}
        → All (λ v. Holds (width i8) v) xs
        → SameElements (Elements.int8s s) (Elements.int8s xs)
    uint16s :
        {s xs : List ℤ}
        → All (λ v. Holds (width u16) v) xs
        → SameElements (Elements.uint16s s) (Elements.uint16s xs)
    int16s :
        {s xs : List ℤ}
        → All (λ v. Holds (width i16) v) xs
        → SameElements (Elements.int16s s) (Elements.int16s xs)
    uint32s :
        {s xs : List ℤ}
        → All (λ v. Holds (width u32) v) xs
        → SameElements (Elements.uint32s s) (Elements.uint32s xs)
    int32s :
        {s xs : List ℤ}
        → All (λ v. Holds (width i32) v) xs
        → SameElements (Elements.int32s s) (Elements.int32s xs)
    uint64s :
        {s xs : List ℤ}
        → All (λ v. Holds (width u64) v) xs
        → SameElements (Elements.uint64s s) (Elements.uint64s xs)
    int64s :
        {s xs : List ℤ}
        → All (λ v. Holds (width i64) v) xs
        → SameElements (Elements.int64s s) (Elements.int64s xs)

  mutual
    -- Two messages of one type, the fields of which have different names: the second can be read back
    -- into the first. Arrays have one length, and bounds are kept. There is no long double.
    pub data Same : Message → Message → Type 0 where
      views : {ss fs : Fields} → SameFields ss fs → Same (view ss) (view fs)

    pub data SameFields : Fields → Fields → Type 0 where
      none_left : SameFields no_fields no_fields
      one_more :
          {name : Text} {s v : Value} {ss fs : Fields}
          → SameValue s v
          → get fs name ≡ none
          → SameFields ss fs
          → SameFields (field name s ss) (field name v fs)

    pub data SameValue : Value → Value → Type 0 where
      simples : {s v : SimpleValue} → SameSimple s v → SameValue (simple s) (simple v)
      arrays :
          {s e : Elements}
          → SameElements s e
          → size_of s ≡ size_of e
          → SameValue (array s) (array e)
      sequences : {s e : Elements} → SameElements s e → SameValue (sequence s) (sequence e)
      bounded_sequences :
          {bound : ℕ} {s e : Elements}
          → SameElements s e
          → size_of e ≤ bound
          → SameValue (bounded_sequence bound s) (bounded_sequence bound e)
      message_arrays :
          {default : Message} {ss ms : Messages}
          → SameEach ss ms
          → SameValue (array (Elements.messages default ss)) (array (Elements.messages default ms))
      message_sequences :
          {default : Message} {ss ms : Messages}
          → SameEach (reset (count ms) default) ms
          → SameValue
              (sequence (Elements.messages default ss))
              (sequence (Elements.messages default ms))
      message_bounded_sequences :
          {bound : ℕ} {default : Message} {ss ms : Messages}
          → SameEach (reset (count ms) default) ms
          → count ms ≤ bound
          → SameValue
              (bounded_sequence bound (Elements.messages default ss))
              (bounded_sequence bound (Elements.messages default ms))

    pub data SameSimple : SimpleValue → SimpleValue → Type 0 where
      float : {s v : ℕ} → FloatReads v → SameSimple (SimpleValue.float s) (SimpleValue.float v)
      double : {s v : ℕ} → DoubleReads v → SameSimple (SimpleValue.double s) (SimpleValue.double v)
      boolean : {s v : Bool} → SameSimple (SimpleValue.boolean s) (SimpleValue.boolean v)
      string : {s v : Text} → SameSimple (SimpleValue.string s) (SimpleValue.string v)
      wstring : {s v : Text} → SameSimple (SimpleValue.wstring s) (SimpleValue.wstring v)
      bounded_string :
          {bound : ℕ} {s v : Text}
          → numbers.string_size v ≤ bound
          → SameSimple (SimpleValue.bounded_string bound s) (SimpleValue.bounded_string bound v)
      bounded_wstring :
          {bound : ℕ} {s v : Text}
          → numbers.wstring_size v ≤ bound
          → SameSimple (SimpleValue.bounded_wstring bound s) (SimpleValue.bounded_wstring bound v)
      message :
          {s m : Message} → Same s m → SameSimple (SimpleValue.message s) (SimpleValue.message m)
      char : {s v : ℤ} → Holds (width u8) v → SameSimple (SimpleValue.char s) (SimpleValue.char v)
      wchar :
          {s v : ℤ} → Holds (width u16) v → SameSimple (SimpleValue.wchar s) (SimpleValue.wchar v)
      octet :
          {s v : ℤ} → Holds (width u8) v → SameSimple (SimpleValue.octet s) (SimpleValue.octet v)
      uint8 :
          {s v : ℤ} → Holds (width u8) v → SameSimple (SimpleValue.uint8 s) (SimpleValue.uint8 v)
      int8 : {s v : ℤ} → Holds (width i8) v → SameSimple (SimpleValue.int8 s) (SimpleValue.int8 v)
      uint16 :
          {s v : ℤ} → Holds (width u16) v → SameSimple (SimpleValue.uint16 s) (SimpleValue.uint16 v)
      int16 :
          {s v : ℤ} → Holds (width i16) v → SameSimple (SimpleValue.int16 s) (SimpleValue.int16 v)
      uint32 :
          {s v : ℤ} → Holds (width u32) v → SameSimple (SimpleValue.uint32 s) (SimpleValue.uint32 v)
      int32 :
          {s v : ℤ} → Holds (width i32) v → SameSimple (SimpleValue.int32 s) (SimpleValue.int32 v)
      uint64 :
          {s v : ℤ} → Holds (width u64) v → SameSimple (SimpleValue.uint64 s) (SimpleValue.uint64 v)
      int64 :
          {s v : ℤ} → Holds (width i64) v → SameSimple (SimpleValue.int64 s) (SimpleValue.int64 v)

    pub data SameEach : Messages → Messages → Type 0 where
      done : SameEach no_messages no_messages
      next :
          {s m : Message} {ss ms : Messages}
          → Same s m
          → SameEach ss ms
          → SameEach (item s ss) (item m ms)
