-- ===== src/Encoding/Payload.antt =====
-- `payload` of src/subscriptions/json.rs against the JSON value that it stands for.
use pg_ros.Base.{
  ℕ, ◌≤◌, ◌≡◌, ◌≢◌, ◌↔◌, ◌⊎◌, ◌∙◌, refl, true, false, ◌++◌, Text, ascii, Result, ok, err, length,
  ltb, if◌then◌else◌, append-nil, append_assoc, arith, Bool-cases, inl, inr, tests, le→ltb,
}
use pg_ros.Base.Int.{pos}
use pg_ros.Json
use pg_ros.Json.{print, print_first_member, print_rest_members, object, member, no_members}
use pg_ros.Message.{Message}
use pg_ros.Encoding.Output.{EncodeError, limit_exceeded, Output, push, new}
use pg_ros.Encoding.Output.Emits.{Emits, Emits-then, Emits-push}
use pg_ros.Encoding.Output.Fails.{Fails, Fails-second, Fails-first, IsError}
use pg_ros.Encoding.Encode.{Formatter, payload_parts, payload, finish, str_value, int_value}
use pg_ros.Encoding.Tree.{Tree, int_tree, message_tree, height, is_supported}
use pg_ros.Encoding.Renders.{IsFormatter, text_of, Emits-str, Emits-int, Emits-message}
use pg_ros.Encoding.Refuses.{IsBad, Fails-message}

-- The payload's value: an object of topic, type, sequence number and message.
pub payload_tree : Formatter → Text → Text → ℕ → Message → Tree
payload_tree f topic message_type seq m = object (
    member (ascii "topic") (Json.string topic) (
      member (ascii "message_type") (Json.string message_type) (
        member (ascii "sequence") (int_tree (pos seq))
          (member (ascii "message") (message_tree f m) no_members))))

-- The payload's text.
abbrev pub payload_text : Formatter → Text → Text → ℕ → Message → Text
payload_text f topic message_type seq m = text_of f (payload_tree f topic message_type seq m)

module _ (f : Formatter) (laws : IsFormatter f) (topic message_type : Text) (seq : ℕ)
    (m : Message) where
  -- The pieces in the order that the code writes them.
  abbrev written : Text
  written =
      ascii "{\"topic\":"
      ++ (f.quote topic
          ++ (ascii ",\"message_type\":"
              ++ (f.quote message_type
                  ++ (ascii ",\"sequence\":"
                      ++ (text_of f (int_tree (pos seq))
                          ++ (ascii ",\"message\":"
                              ++ (text_of f (message_tree f m) ++ ascii "}")))))))

  written-payload_text : payload_text f topic message_type seq m ≡ written
  unfolding payload_tree print print_first_member print_rest_members
  written-payload_text = simp (
    laws.quote_plain (ascii "topic") (ground arith),
    laws.quote_plain (ascii "message_type") (ground arith),
    laws.quote_plain (ascii "sequence") (ground arith),
    laws.quote_plain (ascii "message") (ground arith),
    append_assoc,
    append-nil,
  )

  Emits-payload_parts :
      is_supported m ≡ true
      → height m ≤ 64
      → Emits (payload_parts f topic message_type seq m) (payload_text f topic message_type seq m)
  unfolding payload_parts
  Emits-payload_parts s h = rw written-payload_text (
      Emits-then (Emits-push (ascii "{\"topic\":")) (
        Emits-then (Emits-str f laws topic) (
          Emits-then (Emits-push (ascii ",\"message_type\":")) (
            Emits-then (Emits-str f laws message_type) (
              Emits-then (Emits-push (ascii ",\"sequence\":")) (
                Emits-then (Emits-int f laws (pos seq)) (
                  Emits-then (Emits-push (ascii ",\"message\":"))
                    (Emits-then (Emits-message f laws m s h) (Emits-push (ascii "}"))))))))))

  Fails-payload_parts :
      IsBad (is_supported m) (height m) 0 → Fails (payload_parts f topic message_type seq m)
  unfolding payload_parts
  Fails-payload_parts bad = Fails-second (push (ascii "{\"topic\":")) (
      Fails-second (str_value f topic) (
        Fails-second (push (ascii ",\"message_type\":")) (
          Fails-second (str_value f message_type) (
            Fails-second (push (ascii ",\"sequence\":")) (
              Fails-second (int_value f (pos seq)) (
                Fails-second (push (ascii ",\"message\":"))
                  (Fails-first (push (ascii "}")) (Fails-message f m bad))))))))

  finish-err :
      (r : Result EncodeError (Unit {0}) × Output) (e : EncodeError)
      → r.0 ≡ err e
      → finish f r ≡ err e
  finish-err (ok _, o) e h = cc
  finish-err (err e', o) e h = ground arith

  finish-IsError :
      (r : Result EncodeError (Unit {0}) × Output) (t : Text) → IsError r → finish f r ≢ ok t
  finish-IsError (ok _, o) t h = absurd h
  finish-IsError (err e, o) t h = cc

  -- A message of supported fields, nested at most 64 levels, is encoded as the compact text of the
  -- payload's JSON value if that is no longer than the limit, and is refused with the limit's error if
  -- it is longer.
  pub payload_lem :
      (limit : ℕ)
      → is_supported m ≡ true
      → height m ≤ 64
      → payload f topic message_type seq m limit ≡ (
          if ltb limit (length (payload_text f topic message_type seq m))
          then err (limit_exceeded limit)
          else ok (payload_text f topic message_type seq m))
  unfolding payload
  payload_lem limit s h =
      let emits = Emits-payload_parts s h in
      elim (Bool-cases (ltb limit (length (payload_text f topic message_type seq m)))) [
        | inl over ↦ rw over (
            finish-err (payload_parts f topic message_type seq m (new limit)) _
              (emits.overflows (new limit) (omega arith) (omega tests)))
        | inr room ↦ rw (room, emits.appends (new limit) (ground arith)) refl
      ]

  payload-ne-ok :
      (limit : ℕ) (t : Text)
      → IsBad (is_supported m) (height m) 0
      → payload f topic message_type seq m limit ≢ ok t
  unfolding payload
  payload-ne-ok limit t bad =
      finish-IsError (payload_parts f topic message_type seq m (new limit)) t
        ((Fails-payload_parts bad).fails (new limit))

  accepted :
      (limit : ℕ) (t : Text)
      → (is_supported m ≡ true) ⊎ (is_supported m ≡ false)
      → (ltb 64 (height m) ≡ true) ⊎ (ltb 64 (height m) ≡ false)
      → payload f topic message_type seq m limit ≡ ok t
      → (is_supported m ≡ true)
        × (height m ≤ 64)
        × (t ≡ payload_text f topic message_type seq m)
        × (length t ≤ limit)
  accepted limit t (inr bad) _ e = absurd (payload-ne-ok limit t (inl bad) e)
  accepted limit t (inl s) (inl deep) e = absurd (payload-ne-ok limit t (inr (omega tests)) e)
  accepted limit t (inl s) (inr h) e = ground (arith, payload_lem limit s (ground arith))

  -- `payload` returns a text exactly when no field is a long double, messages nest at most 64 levels,
  -- and the text is the compact text of the payload's JSON value, no longer than the limit.
  pub payload-eq-ok_iff :
      (limit : ℕ) (t : Text)
      → (payload f topic message_type seq m limit ≡ ok t) ↔ (
          (is_supported m ≡ true)
          × (height m ≤ 64)
          × (t ≡ payload_text f topic message_type seq m)
          × (length t ≤ limit))
  payload-eq-ok_iff limit t = (
    accepted limit t (Bool-cases (is_supported m)) (Bool-cases (ltb 64 (height m))),
    λ (s, h, e, short). rw e (payload_lem limit s h ∙ rw (le→ltb limit _ (rw e at short))),
  )
