-- ===== src/Naming.antt =====
-- src/naming.rs, and the wrapper of it in src/subscriptions.rs: validation of ROS topic names.
-- A name is its list of UTF-8 bytes; `split`, `strip_prefix`, `any` and `all` are the standard
-- library's.
pub mod Grammar
mod Tests
use pg_ros.Base.{
  ℕ, ◌==◌, Bool, true, false, not, ◌&&◌, ◌||◌, Option, none, some, List, [], ◌∷◌, Text, Result, ok,
  err, leb, if◌then◌else◌, length,
}

abbrev pub slash : ℕ
slash = b'/'

pub data NameError : Type 0 where
  -- "topic must be a fully qualified ROS name starting with '/'"
  not_qualified : NameError
  -- "topic must contain nonempty ROS name segments (…)"
  bad_segment : NameError
  -- "topic exceeds PostgreSQL's 63-byte notification channel limit"
  channel_limit : NameError

abbrev pub is_ascii_alphabetic : ℕ → Bool
is_ascii_alphabetic c = leb b'a' c && leb c b'z' || leb b'A' c && leb c b'Z'

abbrev pub is_ascii_alphanumeric : ℕ → Bool
is_ascii_alphanumeric c = is_ascii_alphabetic c || leb b'0' c && leb c b'9'

-- The tests of the two closures, on one byte.
unfoldable pub is_head_byte : ℕ → Bool
is_head_byte c = is_ascii_alphabetic c || c == b'_'

unfoldable pub is_tail_byte : ℕ → Bool
is_tail_byte c = is_ascii_alphanumeric c || c == b'_'

-- `str::strip_prefix(char)`
unfoldable pub strip_prefix : ℕ → Text → Option Text
strip_prefix sep [] = none
strip_prefix sep (c ∷ s) = if c == sep then some s else none

abbrev pub onto_head : ℕ → List Text → List Text
onto_head c [] = (c ∷ []) ∷ []
onto_head c (part ∷ parts) = (c ∷ part) ∷ parts

-- `str::split(char)`: the parts between the separators, at least one.
unfoldable pub split : ℕ → Text → List Text
split sep [] = [] ∷ []
split sep (c ∷ s) = let rest = split sep s in if c == sep then [] ∷ rest else onto_head c rest

module _ {ℓ} {A : Type ℓ} where
  -- `Iterator::all`
  unfoldable pub all : (A → Bool) → List A → Bool
  all p [] = true
  all p (x ∷ xs) = p x && all p xs

  -- `Iterator::any`
  unfoldable pub any : (A → Bool) → List A → Bool
  any p [] = false
  any p (x ∷ xs) = p x || any p xs

-- The closure that `validate_topic` passes to `any`: `part` is no ROS name segment.
unfoldable pub is_bad_part : Text → Bool
unfolding all
is_bad_part [] = true
is_bad_part (c ∷ bytes) = not (is_head_byte c) || not (all is_tail_byte bytes)

unfoldable pub check_parts : Text → Result NameError (Unit {0})
unfolding split any is_bad_part
check_parts relative = if any is_bad_part (split slash relative) then err bad_segment else ok tt

-- `naming::validate_topic`
unfoldable pub validate_topic : Text → Result NameError (Unit {0})
unfolding strip_prefix check_parts
validate_topic name = elim (strip_prefix slash name) [
  | none ↦ err not_qualified
  | some relative ↦ check_parts relative
]

-- `subscriptions::validate_topic`: `name_data_len` is PostgreSQL's NAMEDATALEN.
unfoldable pub validate_channel : ℕ → Text → Result NameError (Unit {0})
validate_channel name_data_len topic =
    if leb name_data_len (length topic) then err channel_limit else validate_topic topic
