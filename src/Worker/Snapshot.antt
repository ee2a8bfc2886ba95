-- ===== src/Worker/Snapshot.antt =====
-- src/lib.rs: `GraphSnapshot::read`. What rclrs returns is an argument: the node infos, and the topics
-- in the order in which its hash map yields them.
use mathlib.Core.List.{Permᴰ, filter}
use mathlib.Core.List.Permᴰ
use mathlib.Core.Bool.{decide, Bool-discrete}
use mathlib.Core.Path.{subst}
use pg_ros.Base.{
  ◌≡◌, refl, Bool, true, not, ◌||◌, List, [], ◌∷◌, ◌++◌, map, Text, Text-discrete, Result, ok,
  and_then,
}
use pg_ros.Base.Order.{sort, le_pair, le_pair-IsOrder, sort-Perm}
use pg_ros.Worker.Persist.{GraphSnapshot}

-- `info.name != observer_name || info.namespace != observer_namespace`
unfoldable pub is_other : Text × Text → Text × Text → Bool
is_other (observer_name, observer_namespace) (name, namespace) =
    not (decide (Text-discrete name observer_name))
    || not (decide (Text-discrete namespace observer_namespace))

unfoldable pub is_other_dec : (observer info : Text × Text) → Dec (is_other observer info ≡ true)
is_other_dec observer info = Bool-discrete (is_other observer info) true

-- `flat_map(|(name, types)| types.into_iter().map(|kind| (name.clone(), kind)))`
abbrev typed : Text × List Text → List (Text × Text)
typed (name, types) = map (λ kind. (name, kind)) types

abbrev pub typed_topics : List (Text × List Text) → List (Text × Text)
typed_topics [] = []
typed_topics (topic ∷ topics) = typed topic ++ typed_topics topics

swap_blocks {ℓ} : {A : Type ℓ} (xs ys zs : List A) → Permᴰ (xs ++ (ys ++ zs)) (ys ++ (xs ++ zs))
swap_blocks [] ys zs = Permᴰ.refl (ys ++ zs)
swap_blocks (x ∷ xs) ys zs =
    Permᴰ.trans (Permᴰ.cons refl (swap_blocks xs ys zs)) (Permᴰ.symm (Permᴰ.middle x ys (xs ++ zs)))

typed_topics-Perm :
    {xs ys : List (Text × List Text)} → Permᴰ xs ys → Permᴰ (typed_topics xs) (typed_topics ys)
typed_topics-Perm Permᴰ.nil = Permᴰ.nil
typed_topics-Perm (Permᴰ.cons {a = a} {l₁ = xs} {l₂ = ys} e h) =
    subst (λ t. Permᴰ (typed a ++ typed_topics xs) (typed t ++ typed_topics ys)) e
      (Permᴰ.append_left (typed a) (typed_topics-Perm h))
typed_topics-Perm (Permᴰ.swap {a = a} {b = b} {b' = b'} {l = l} e f) =
    subst (λ t. Permᴰ (typed_topics (a ∷ b ∷ l)) (typed t ++ (typed b' ++ typed_topics l))) f
      (subst (λ t. Permᴰ (typed_topics (a ∷ b ∷ l)) (typed b ++ (typed t ++ typed_topics l))) e
        (swap_blocks (typed a) (typed b) (typed_topics l)))
typed_topics-Perm (Permᴰ.trans h k) = Permᴰ.trans (typed_topics-Perm h) (typed_topics-Perm k)

-- `GraphSnapshot::read`
unfoldable pub read {ℓ} :
    {E : Type ℓ}
    → Text × Text
    → Result E (List (Text × Text))
    → Result E (List (Text × List Text))
    → Result E GraphSnapshot
read observer node_names topic_names_and_types = and_then node_names λ infos.
    and_then topic_names_and_types λ found. ok (record {
      nodes = sort le_pair (filter (is_other_dec observer) infos);
      topics = sort le_pair (typed_topics found);
    })

-- Reading the graph does not depend on the order in which nodes and topics are returned.
pub read-Perm {ℓ} :
    {E : Type ℓ} (observer : Text × Text) (infos infos' : List (Text × Text))
    (found found' : List (Text × List Text))
    → Permᴰ infos infos'
    → Permᴰ found found'
    → read {E = E} observer (ok infos) (ok found) ≡ read observer (ok infos') (ok found')
unfolding read
read-Perm observer infos infos' found found' h k = rw (
  sort-Perm le_pair le_pair-IsOrder (Permᴰ.filter (is_other_dec observer) h),
  sort-Perm le_pair le_pair-IsOrder (typed_topics-Perm k),
)
