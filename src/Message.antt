-- ===== src/Message.antt =====
-- The values of a dynamic ROS message, as the matches of src/subscriptions/json.rs and
-- src/publish/json.rs take them apart (rclrs's `Value`, `SimpleValue`, `ArrayValue` and their
-- mutable twins, which have the same variants). Floats are their IEEE bit patterns. The variants of
-- an array, a sequence and a bounded sequence differ only in the suffix of their names, so one type,
-- `Elements`, lists the element kinds of all three.
use pg_ros.Base.{ℕ, Bool, List, Text}
use pg_ros.Base.Int.{ℤ}

mutual
  -- `Value`: the upper bound of a bounded sequence comes first.
  pub data Value : Type 0 where
    simple : SimpleValue → Value
    array : Elements → Value
    sequence : Elements → Value
    bounded_sequence : ℕ → Elements → Value

  -- `SimpleValue`: the upper bound of a bounded string comes first.
  pub data SimpleValue : Type 0 where
    float : ℕ → SimpleValue
    double : ℕ → SimpleValue
    long_double : SimpleValue
    char : ℤ → SimpleValue
    wchar : ℤ → SimpleValue
    boolean : Bool → SimpleValue
    octet : ℤ → SimpleValue
    uint8 : ℤ → SimpleValue
    int8 : ℤ → SimpleValue
    uint16 : ℤ → SimpleValue
    int16 : ℤ → SimpleValue
    uint32 : ℤ → SimpleValue
    int32 : ℤ → SimpleValue
    uint64 : ℤ → SimpleValue
    int64 : ℤ → SimpleValue
    string : Text → SimpleValue
    bounded_string : ℕ → Text → SimpleValue
    wstring : Text → SimpleValue
    bounded_wstring : ℕ → Text → SimpleValue
    message : Message → SimpleValue

  -- The elements of `ArrayValue`, `SequenceValue` and `BoundedSequenceValue`. `messages` also names
  -- the default message, which `reset` fills a sequence with.
  pub data Elements : Type 0 where
    floats : List ℕ → Elements
    doubles : List ℕ → Elements
    long_doubles : Elements
    chars : List ℤ → Elements
    wchars : List ℤ → Elements
    booleans : List Bool → Elements
    octets : List ℤ → Elements
    uint8s : List ℤ → Elements
    int8s : List ℤ → Elements
    uint16s : List ℤ → Elements
    int16s : List ℤ → Elements
    uint32s : List ℤ → Elements
    int32s : List ℤ → Elements
    uint64s : List ℤ → Elements
    int64s : List ℤ → Elements
    strings : List Text → Elements
    bounded_strings : ℕ → List Text → Elements
    wstrings : List Text → Elements
    bounded_wstrings : ℕ → List Text → Elements
    messages : Message → Messages → Elements

  -- `DynamicMessageView`
  pub data Message : Type 0 where
    view : Fields → Message

  -- The fields in the order of `iter`.
  pub data Fields : Type 0 where
    no_fields : Fields
    field : Text → Value → Fields → Fields

  pub data Messages : Type 0 where
    no_messages : Messages
    item : Message → Messages → Messages
