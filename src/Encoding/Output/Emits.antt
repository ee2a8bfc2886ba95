-- ===== src/Encoding/Output/Emits.antt =====
-- What a run of the writer of src/subscriptions/json.rs emits, one rule for each operation.
use pg_ros.Base.{
  ℕ, ◌+◌, ◌≤◌, ◌<◌, ◌≡◌, List, [], ◌∷◌, ◌++◌, Text, ascii, Result, ok, err, ltb, length,
  length-append, arith, concat, append_assoc, append-nil, le→ltb, lt→ltb, ltb→lt, Bool-cases, inl,
  inr,
}
use pg_ros.Encoding.Output.{
  EncodeError, limit_exceeded, Output, Action, pure, ◌>>◌, continue_with, push, number, write_str,
  write_pieces, string, push_raw, new, array, array_from,
}

-- With room for `t` the action appends `t`; without, it reports the limit.
pub record Emits (m : Action) (t : Text) : Type 0 where
  pub appends :
      (o : Output)
      → length o.text + length t ≤ o.limit
      → m o ≡ (ok tt, record o { text = o.text ++ t })
  pub overflows :
      (o : Output)
      → length o.text ≤ o.limit
      → o.limit < length o.text + length t
      → (m o).0 ≡ err (limit_exceeded o.limit)

pub Emits-push : (t : Text) → Emits (push t) t
unfolding push
Emits-push t = record {
  appends = λ o h. rw (le→ltb _ _ h);
  overflows = λ o full h. rw (lt→ltb _ _ h);
}

Emits-write_str : (t : Text) → Emits (write_str t) t
unfolding write_str
Emits-write_str t = record {
  appends = λ o h. rw (le→ltb _ _ h);
  overflows = λ o full h. rw (lt→ltb _ _ h);
}

continue_with-err :
    (r : Result EncodeError (Unit {0}) × Output) (k : Action) (e : EncodeError)
    → r.0 ≡ err e
    → (continue_with r k).0 ≡ err e
continue_with-err (ok _, o) k e h = cc
continue_with-err (err e', o) k e h = h

pub Emits-then : {m k : Action} {t u : Text} → Emits m t → Emits k u → Emits (m >> k) (t ++ u)
unfolding ◌>>◌
Emits-then {m} {k} {t} {u} first second = record {
  appends = λ o h. rw (first.appends o (omega (arith, length-append t u))) (
      rw (← append_assoc o.text t u) (
        second.appends (record o { text = o.text ++ t })
          (omega (arith, length-append t u, length-append o.text t))));
  overflows = λ o full h. elim (Bool-cases (ltb o.limit (length o.text + length t))) [
    | inl over ↦ continue_with-err (m o) k _ (first.overflows o full (ltb→lt _ _ over))
    | inr room ↦ rw (first.appends o (ground arith)) (
        second.overflows (record o { text = o.text ++ t }) (ground (arith, length-append o.text t))
          (omega (arith, length-append t u, length-append o.text t)))
  ];
}

pub Emits-pure : Emits pure []
unfolding pure
Emits-pure = record {
  appends = λ o h. rw (append-nil o.text);
  overflows = λ o full h. absurd (omega arith);
}

Emits-write_pieces : (ps : List Text) → Emits (write_pieces ps) (concat ps)
unfolding write_pieces
Emits-write_pieces [] = Emits-pure
Emits-write_pieces (p ∷ ps) = Emits-then (Emits-write_str p) (Emits-write_pieces ps)

pub Emits-number : (ps : List Text) → Emits (number ps) (concat ps)
unfolding number
Emits-number = Emits-write_pieces

push_raw-err :
    (quote : Text → Text) (o : Output) (r : Result EncodeError (Unit {0}) × Output)
    (e : EncodeError)
    → r.0 ≡ err e
    → (push_raw quote o r).0 ≡ err e
unfolding push_raw
push_raw-err quote o (ok _, raw) e h = cc
push_raw-err quote o (err _, raw) e h = h

-- A string whose quoted form is at least as long as the string itself.
pub Emits-string :
    (quote : Text → Text) (ps : List Text)
    → length (concat ps) ≤ length (quote (concat ps))
    → Emits (string quote ps) (quote (concat ps))
unfolding string
Emits-string quote ps h =
    let pieces = Emits-write_pieces ps in
    let quoted = Emits-push (quote (concat ps)) in
    record {
      appends = λ o room. rw (pieces.appends (new o.limit) (omega arith)) (quoted.appends o room);
      overflows = λ o full over. elim (Bool-cases (ltb o.limit (length (concat ps)))) [
        | inl long ↦
            push_raw-err quote o (write_pieces ps (new o.limit)) _
              (pieces.overflows (new o.limit) (omega arith) (ground arith))
        | inr short ↦
            rw (pieces.appends (new o.limit) (ground arith)) (quoted.overflows o full over)
      ];
    }

-- The texts of the elements, each behind a comma but the first.
abbrev pub rest_text : List Text → Text
rest_text [] = []
rest_text (t ∷ ts) = ascii "," ++ (t ++ rest_text ts)

abbrev pub first_text : List Text → Text
first_text [] = []
first_text (t ∷ ts) = t ++ rest_text ts

module _ {ℓ} {T : Type ℓ} (encode : T → Action) where
  -- Each element emits its text.
  pub data EmitsEach : List T → List Text → Type ℓ where
    none_left : EmitsEach [] []
    one_more :
        {v : T} {vs : List T} {t : Text} {ts : List Text}
        → Emits (encode v) t
        → EmitsEach vs ts
        → EmitsEach (v ∷ vs) (t ∷ ts)

  Emits-array_rest :
      (index : ℕ) {vs : List T} {ts : List Text}
      → 0 < index
      → EmitsEach vs ts
      → Emits (array_from index vs encode) (rest_text ts)
  unfolding array_from
  Emits-array_rest index h none_left = Emits-pure
  Emits-array_rest index h (one_more e each) = rw (lt→ltb 0 index h) (
      Emits-then (Emits-push (ascii ","))
        (Emits-then e (Emits-array_rest (index + 1) (omega arith) each)))

  Emits-array_first :
      {vs : List T} {ts : List Text}
      → EmitsEach vs ts
      → Emits (array_from 0 vs encode) (first_text ts)
  unfolding array_from
  Emits-array_first none_left = Emits-pure
  Emits-array_first (one_more e each) =
      Emits-then Emits-pure (Emits-then e (Emits-array_rest 1 (omega arith) each))

  -- `array` puts the elements between brackets.
  pub Emits-array :
      {vs : List T} {ts : List Text}
      → EmitsEach vs ts
      → Emits (array vs encode) (ascii "[" ++ (first_text ts ++ ascii "]"))
  unfolding array
  Emits-array each =
      Emits-then (Emits-push (ascii "["))
        (Emits-then (Emits-array_first each) (Emits-push (ascii "]")))
