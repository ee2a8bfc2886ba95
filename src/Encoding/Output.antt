-- ===== src/Encoding/Output.antt =====
-- src/subscriptions/json.rs: `Output`, a JSON writer that refuses to grow past a byte limit. A method
-- takes the writer and returns its result with the writer as the call left it. Lengths are at most
-- `isize::MAX` each, so their sum does not wrap. `serde_json::to_string` is the parameter `quote`,
-- and a `Display` value is the list of the texts that it passes to `write_str`.
pub mod Emits
pub mod Fails
use pg_ros.Base.{
  ℕ, ◌+◌, ◌≤◌, ◌≡◌, Bool, List, [], ◌∷◌, ◌++◌, Text, ascii, Result, ok, err, ltb, if◌then◌else◌,
  length,
}

pub data EncodeError : Type 0 where
  -- "encoded message exceeds the {limit} byte limit"
  limit_exceeded : ℕ → EncodeError
  -- "message nesting exceeds 64 levels"
  nesting : EncodeError
  -- "long double fields are unsupported"
  long_double : EncodeError

-- `struct Output`
pub record Output : Type 0 where
  pub text : Text
  pub limit : ℕ

-- `Result<()>` of the module, with the state of `&mut self`.
abbrev pub Action : Type 0
Action = Output → Result EncodeError (Unit {0}) × Output

unfoldable pub pure : Action
pure o = (ok tt, o)

unfoldable pub raise : EncodeError → Action
raise e o = (err e, o)

abbrev pub continue_with :
    Result EncodeError (Unit {0}) × Output → Action → Result EncodeError (Unit {0}) × Output
continue_with (ok _, o) k = k o
continue_with (err e, o) k = (err e, o)

infixr 5 ◌>>◌
unfoldable pub ◌>>◌ : Action → Action → Action
◌>>◌ m k o = continue_with (m o) k

-- `Output::new`
unfoldable pub new : ℕ → Output
new limit = record { text = []; limit = limit }

-- `Output::limit_error`
abbrev pub limit_error : ℕ → EncodeError
limit_error limit = limit_exceeded limit

-- `Write::write_str`, with `fmt::Error` as the given error, which both callers map it to.
pub write_str : Text → Action
write_str value o =
    if ltb o.limit (length o.text + length value)
    then (err (limit_error o.limit), o)
    else (ok tt, record o { text = o.text ++ value })

-- `write!(self, "{value}")`: one call of `write_str` for each piece, up to the first error.
pub write_pieces : List Text → Action
write_pieces [] = pure
write_pieces (piece ∷ pieces) = write_str piece >> write_pieces pieces

-- `Output::push`
unfoldable pub push : Text → Action
push value o =
    if ltb o.limit (length o.text + length value)
    then (err (limit_error o.limit), o)
    else (ok tt, record o { text = o.text ++ value })

-- `Output::number`
unfoldable pub number : List Text → Action
unfolding write_pieces write_str
number pieces = write_pieces pieces

pub push_raw :
    (Text → Text)
    → Output
    → Result EncodeError (Unit {0}) × Output
    → Result EncodeError (Unit {0}) × Output
push_raw quote self (ok _, raw) = push (quote raw.text) self
push_raw quote self (err e, _) = (err e, self)

-- `Output::string`: the raw text goes through a writer of its own.
unfoldable pub string : (Text → Text) → List Text → Action
unfolding write_pieces write_str push new push_raw
string quote pieces self = push_raw quote self (write_pieces pieces (new self.limit))

module _ {ℓ} {T : Type ℓ} where
  -- The loop of `Output::array`, from the given index on.
  pub array_from : ℕ → List T → (T → Action) → Action
  array_from index [] encode = pure
  array_from index (value ∷ values) encode =
      (if ltb 0 index then push (ascii ",") else pure)
      >> encode value
      >> array_from (index + 1) values encode

  -- `Output::array`
  unfoldable pub array : List T → (T → Action) → Action
  unfolding array_from push
  array values encode = push (ascii "[") >> array_from 0 values encode >> push (ascii "]")
