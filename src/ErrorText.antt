-- ===== src/ErrorText.antt =====
-- src/lib.rs: `describe`, the text of an error with its causes, and the errors that rclrs and the
-- standard library hand to it.
use pg_ros.Base.{◌++◌, Text, ascii}

-- `dyn Error`: the text that `to_string` gives, and `source`.
pub data Error : Type 0 where
  plain : Text → Error
  caused : Text → Error → Error

-- The `while let` over the sources, behind the message so far.
unfoldable pub push_sources : Text → Error → Text
push_sources message (plain text) = message ++ (ascii ": " ++ text)
push_sources message (caused text cause) = push_sources (message ++ (ascii ": " ++ text)) cause

-- `describe`
unfoldable pub describe : Error → Text
describe (plain text) = text
describe (caused text cause) = push_sources text cause
