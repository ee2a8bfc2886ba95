-- ===== src/Parameters/Value.antt =====
-- src/parameters.rs: `Parameter` and `value`. A byte is a number below 256, a double is its bits, and
-- what serde_json's `json!` builds is a parameter.
use pg_ros.Base.{ℕ, Bool, List, map, ◌++◌, Text, ascii, Result, ok, err, ◌==◌, if◌then◌else◌}
use pg_ros.Base.Int.{ℤ, decimal}

-- `rcl_interfaces::msg::ParameterValue`
pub record ParameterValue : Type 0 where
  pub type_ : ℕ
  pub bool_value : Bool
  pub integer_value : ℤ
  pub double_value : ℕ
  pub string_value : Text
  pub byte_array_value : List ℕ
  pub bool_array_value : List Bool
  pub integer_array_value : List ℤ
  pub double_array_value : List ℕ
  pub string_array_value : List Text

-- `json!` on the types that occur: `json_double` is null for a number that is not finite.
pub record JsonMacro (V : Type 0) : Type 0 where
  pub json_null : V
  pub json_bool : Bool → V
  pub json_integer : ℤ → V
  pub json_byte : ℕ → V
  pub json_double : ℕ → V
  pub json_string : Text → V
  pub json_array : List V → V

-- `struct Parameter`
pub record Parameter (V : Type 0) : Type 0 where
  pub node : Text
  pub namespace : Text
  pub name : Text
  pub kind : Text
  pub value : V

module _ {V : Type 0} (json : JsonMacro V) where
  -- `fn value`
  unfoldable pub value_of : ParameterValue → Result Text (Text × V)
  value_of p =
      if p.type_ == 0
      then ok (ascii "not_set", json.json_null)
      else if p.type_ == 1
      then ok (ascii "bool", json.json_bool p.bool_value)
      else if p.type_ == 2
      then ok (ascii "integer", json.json_integer p.integer_value)
      else if p.type_ == 3
      then ok (ascii "double", json.json_double p.double_value)
      else if p.type_ == 4
      then ok (ascii "string", json.json_string p.string_value)
      else if p.type_ == 5
      then ok (ascii "byte_array", json.json_array (map json.json_byte p.byte_array_value))
      else if p.type_ == 6
      then ok (ascii "bool_array", json.json_array (map json.json_bool p.bool_array_value))
      else if p.type_ == 7
      then ok (ascii "integer_array", json.json_array (map json.json_integer p.integer_array_value))
      else if p.type_ == 8
      then ok (ascii "double_array", json.json_array (map json.json_double p.double_array_value))
      else if p.type_ == 9
      then ok (ascii "string_array", json.json_array (map json.json_string p.string_array_value))
      else err (ascii "unknown ROS parameter type " ++ decimal p.type_)
