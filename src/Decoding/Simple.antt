-- ===== src/Decoding/Simple.antt =====
-- src/publish/json.rs: `simple`.
use pg_ros.Base.{Text, ok, err}
use pg_ros.Json.{Json}
use pg_ros.Message.{SimpleValue}
use pg_ros.Decoding.Scalar.{
  Numbers, unsupported, ◌>>=◌, boolean, text, integer, float64, float32, bounded_text,
  bounded_wtext, u8, i8, u16, i16, u32, i32, u64, i64,
}
use pg_ros.Decoding.Loops.{Decoded, View}

module _ {N : Type 0} (numbers : Numbers N) where
  -- `simple`: `nested` is `message_view` on the same JSON value.
  unfoldable pub decode_simple : SimpleValue → Json N → View → Text → Decoded SimpleValue
  decode_simple (SimpleValue.float _) value nested name = do
    x ← float32 numbers value name
    ok (SimpleValue.float x)
  decode_simple (SimpleValue.double _) value nested name = do
    x ← float64 numbers value name
    ok (SimpleValue.double x)
  decode_simple SimpleValue.long_double value nested name = err (unsupported name)
  decode_simple (SimpleValue.char _) value nested name = do
    x ← integer numbers u8 value name
    ok (SimpleValue.char x)
  decode_simple (SimpleValue.wchar _) value nested name = do
    x ← integer numbers u16 value name
    ok (SimpleValue.wchar x)
  decode_simple (SimpleValue.boolean _) value nested name = do
    x ← boolean value name
    ok (SimpleValue.boolean x)
  decode_simple (SimpleValue.octet _) value nested name = do
    x ← integer numbers u8 value name
    ok (SimpleValue.octet x)
  decode_simple (SimpleValue.uint8 _) value nested name = do
    x ← integer numbers u8 value name
    ok (SimpleValue.uint8 x)
  decode_simple (SimpleValue.int8 _) value nested name = do
    x ← integer numbers i8 value name
    ok (SimpleValue.int8 x)
  decode_simple (SimpleValue.uint16 _) value nested name = do
    x ← integer numbers u16 value name
    ok (SimpleValue.uint16 x)
  decode_simple (SimpleValue.int16 _) value nested name = do
    x ← integer numbers i16 value name
    ok (SimpleValue.int16 x)
  decode_simple (SimpleValue.uint32 _) value nested name = do
    x ← integer numbers u32 value name
    ok (SimpleValue.uint32 x)
  decode_simple (SimpleValue.int32 _) value nested name = do
    x ← integer numbers i32 value name
    ok (SimpleValue.int32 x)
  decode_simple (SimpleValue.uint64 _) value nested name = do
    x ← integer numbers u64 value name
    ok (SimpleValue.uint64 x)
  decode_simple (SimpleValue.int64 _) value nested name = do
    x ← integer numbers i64 value name
    ok (SimpleValue.int64 x)
  decode_simple (SimpleValue.string _) value nested name = do
    s ← text value name
    ok (SimpleValue.string s)
  decode_simple (SimpleValue.bounded_string bound _) value nested name = do
    s ← bounded_text numbers bound value name
    ok (SimpleValue.bounded_string bound s)
  decode_simple (SimpleValue.wstring _) value nested name = do
    s ← text value name
    ok (SimpleValue.wstring s)
  decode_simple (SimpleValue.bounded_wstring bound _) value nested name = do
    s ← bounded_wtext numbers bound value name
    ok (SimpleValue.bounded_wstring bound s)
  decode_simple (SimpleValue.message m) value nested name = do
    m' ← nested m name
    ok (SimpleValue.message m')
