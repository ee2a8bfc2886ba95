-- ===== src/Naming/Grammar.antt =====
-- The names that src/naming.rs accepts, described without splitting: a slash before each of one or
-- more segments, where a segment is a letter or underscore and then letters, digits, underscores.
use pg_ros.Base.{
  ℕ, ◌<◌, ◌≡◌, ◌≢◌, ◌↔◌, refl, ◌==◌, true, false, List, [], ◌∷◌, ◌++◌, Text, ok, arith, All, length,
  Bool-cases, inl, inr,
}
use pg_ros.Naming.{
  slash, is_head_byte, is_tail_byte, onto_head, split, all, any, is_bad_part, check_parts,
  validate_topic, validate_channel,
}

-- The bytes of a segment behind the first.
abbrev pub IsTail : Text → Type 0
IsTail = All (λ c. is_tail_byte c ≡ true)

abbrev pub IsSegment : Text → Type 0
IsSegment [] = ⊥
IsSegment (c ∷ s) = (is_head_byte c ≡ true) × IsTail s

-- "/a/b" from "a" and "b".
abbrev pub slashed : List Text → Text
slashed [] = []
slashed (s ∷ ss) = slash ∷ (s ++ slashed ss)

-- `name` is a fully qualified ROS name.
abbrev pub IsTopic : Text → Type 0
IsTopic name =
    (segments : List Text) × (segments ≢ []) × All IsSegment segments × (name ≡ slashed segments)

tail_byte_ne_slash : (c : ℕ) → is_tail_byte c ≡ true → (c == slash) ≡ false
unfolding is_tail_byte
tail_byte_ne_slash c h = ground arith

head_byte_ne_slash : (c : ℕ) → is_head_byte c ≡ true → (c == slash) ≡ false
unfolding is_head_byte
head_byte_ne_slash c h = ground arith

all-IsTail : (s : Text) → (all is_tail_byte s ≡ true) ↔ IsTail s
unfolding all
all-IsTail [] = ground arith
all-IsTail (c ∷ s) = ground (arith, all-IsTail s)

is_bad_part-IsSegment : (s : Text) → (is_bad_part s ≡ false) ↔ IsSegment s
unfolding is_bad_part
is_bad_part-IsSegment [] = ground arith
is_bad_part-IsSegment (c ∷ s) = ground (arith, all-IsTail s)

any-All : (ss : List Text) → (any is_bad_part ss ≡ false) ↔ All IsSegment ss
unfolding any
any-All [] = ground arith
any-All (s ∷ ss) = ground (arith, is_bad_part-IsSegment s, any-All ss)

slashed-onto_head :
    (c : ℕ) (parts : List Text) (s : Text)
    → slashed parts ≡ slash ∷ s
    → slashed (onto_head c parts) ≡ slash ∷ c ∷ s
slashed-onto_head c [] s h = cc
slashed-onto_head c (part ∷ parts) s h = ground arith

-- Splitting loses nothing.
slashed-split : (s : Text) → slashed (split slash s) ≡ slash ∷ s
unfolding split
slashed-split [] = refl
slashed-split (c ∷ s) = elim (Bool-cases (c == slash)) [
  | inl e ↦ rw (e, slashed-split s) (ground arith)
  | inr e ↦ rw e (slashed-onto_head c (split slash s) s (slashed-split s))
]

split-ne-nil : (s : Text) → split slash s ≢ []
split-ne-nil s h = ground (arith, slashed-split s)

-- A segment that holds no slash comes back whole.
split-append :
    (s rest : Text) (ss : List Text)
    → IsTail s
    → split slash rest ≡ [] ∷ ss
    → split slash (s ++ rest) ≡ s ∷ ss
unfolding split
split-append [] rest ss h e = e
split-append (c ∷ s) rest ss h e = rw (tail_byte_ne_slash c h.0, split-append s rest ss h.1 e)

split_segment :
    (s rest : Text) (ss : List Text)
    → IsSegment s
    → split slash rest ≡ [] ∷ ss
    → split slash (s ++ rest) ≡ s ∷ ss
unfolding split
split_segment [] rest ss h e = absurd h
split_segment (c ∷ s) rest ss h e = rw (head_byte_ne_slash c h.0, split-append s rest ss h.1 e)

split-slashed : (ss : List Text) → All IsSegment ss → split slash (slashed ss) ≡ [] ∷ ss
unfolding split
split-slashed [] h = refl
split-slashed (s ∷ ss) h = rw (split_segment s (slashed ss) ss h.0 (split-slashed ss h.1))

check_parts_iff : (s : Text) → (check_parts s ≡ ok tt) ↔ All IsSegment (split slash s)
unfolding check_parts
check_parts_iff s = ground (arith, any-All (split slash s))

validate_topic-IsTopic : (name : Text) → validate_topic name ≡ ok tt → IsTopic name
unfolding validate_topic
validate_topic-IsTopic [] h = cc
validate_topic-IsTopic (c ∷ s) h = (
  split slash s,
  split-ne-nil s,
  ground (arith, check_parts_iff s),
  ground (arith, slashed-split s),
)

parts_of_slashed :
    (segments : List Text)
    → segments ≢ []
    → All IsSegment segments
    → validate_topic (slashed segments) ≡ ok tt
unfolding validate_topic
parts_of_slashed [] nonempty good = absurd (nonempty refl)
parts_of_slashed (s ∷ ss) nonempty good =
    (check_parts_iff (s ++ slashed ss)).1
      (rw (split_segment s (slashed ss) ss good.0 (split-slashed ss good.1)) good)

-- `naming::validate_topic` accepts a name exactly when the name is a slash before each of one or
-- more segments, each a letter or underscore followed by letters, digits and underscores.
pub validate_topic_iff : (name : Text) → (validate_topic name ≡ ok tt) ↔ IsTopic name
validate_topic_iff name = (
  validate_topic-IsTopic name,
  λ (segments, nonempty, good, e). rw e (parts_of_slashed segments nonempty good),
)

-- The subscription's check accepts a topic exactly when the topic is shorter than NAMEDATALEN bytes
-- and is a fully qualified ROS name.
pub validate_channel_iff :
    (name_data_len : ℕ) (topic : Text)
    → (validate_channel name_data_len topic ≡ ok tt)
      ↔ ((length topic < name_data_len) × IsTopic topic)
unfolding validate_channel
validate_channel_iff n topic = ground (arith, validate_topic_iff topic)
