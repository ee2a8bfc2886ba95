-- ===== src/Listening/Finding.antt =====
-- src/subscriptions.rs: the reports of `receive` and its search for the topic.
use pg_ros.Base.{
  ℕ, ◌+◌, ◌≡◌, refl, Bool-cases, inl, inr, Option, none, some, List, [], ◌∷◌, ◌++◌, Text, Ensures,
  holds, Ensures-and_then, Ensures-any, Ensures-if, ◌⊎◌, ltb, leb, ◌||◌, arith,
}
use pg_ros.ErrorText.{describe}
use pg_ros.Listening.Receiver.{
  Receiver, Backend, Warning, Round, subscribe_found, find_topic, warn, report, single_type,
  map_err, failed,
}

-- The messages that the warnings report as lost.
abbrev pub reported : List Warning → ℕ
reported [] = 0
reported (w ∷ ws) = w.queue_drops + w.encoding_drops + reported ws

reported-append : (ws vs : List Warning) → reported (ws ++ vs) ≡ reported ws + reported vs
reported-append [] vs = omega arith
reported-append (w ∷ ws) vs = omega (arith, reported-append ws vs)

-- A report moves the counters into a warning, unless both are zero.
pub report-reported :
    (round : Round) (r : Receiver) (b : Backend)
    → let (r', b') = report round r b in
      reported b'.warnings + (r'.dropped + r'.encoding_errors)
      ≡ reported b.warnings + (r.dropped + r.encoding_errors)
unfolding report warn
report-reported round r b = elim (Bool-cases (leb r.next_report round.now_report)) [
  | inr early ↦ rw early refl
  | inl due ↦ rw due (elim (Bool-cases (ltb 0 r.dropped || ltb 0 r.encoding_errors)) [
    | inl lost ↦ rw lost (omega (arith, reported-append b.warnings (_ ∷ [])))
    | inr nothing ↦ rw nothing (ground (arith, nothing))
  ])
]

-- A report leaves the rest alone.
pub report-same :
    (round : Round) (r : Receiver) (b : Backend)
    → let (r', b') = report round r b in
      (r'.queue ≡ r.queue)
      × (r'.subscription ≡ r.subscription)
      × (r'.sequence ≡ r.sequence)
      × (b'.pending ≡ b.pending)
      × (b'.committed ≡ b.committed)
unfolding report warn
report-same round r b = elim (Bool-cases (leb r.next_report round.now_report)) [
  | inr early ↦ rw early (refl, refl, refl, refl, refl)
  | inl due ↦ rw due (elim (Bool-cases (ltb 0 r.dropped || ltb 0 r.encoding_errors)) [
    | inl lost ↦ rw lost (refl, refl, refl, refl, refl)
    | inr nothing ↦ rw nothing (refl, refl, refl, refl, refl)
  ])
]

-- What the search for the topic changes.
pub record Found (r r' : Receiver) : Type 0 where
  pub same_queue : r'.queue ≡ r.queue
  pub same_dropped : r'.dropped ≡ r.dropped
  pub same_errors : r'.encoding_errors ≡ r.encoding_errors
  pub subscription :
      ((r'.subscription ≡ r.subscription) × (r'.sequence ≡ r.sequence))
      ⊎ ((r.subscription ≡ none) × (r'.sequence ≡ 0))

unchanged : (r : Receiver) → Found r r
unchanged r = record {
  same_queue = refl;
  same_dropped = refl;
  same_errors = refl;
  subscription = inl (refl, refl);
}

subscribe_found-Found :
    (round : Round) (found : Option (List Text)) (r : Receiver)
    → r.subscription ≡ none
    → Ensures (Found r) (subscribe_found round found r)
unfolding subscribe_found
subscribe_found-Found round none r e = holds (unchanged r)
subscribe_found-Found round (some types) r e =
    Ensures-and_then (Ensures-any (single_type types)) λ message_type u.
      Ensures-and_then (Ensures-any (map_err _ (round.message_type_name message_type))) λ v u'.
        Ensures-and_then (Ensures-any (map_err _ (round.create message_type))) λ w u''.
          holds (record {
            same_queue = refl;
            same_dropped = refl;
            same_errors = refl;
            subscription = inr (e, refl);
          })

pub find_topic-Found :
    (topic : Text) (round : Round) (found : Option Text) (r : Receiver)
    → r.subscription ≡ found
    → Ensures (Found r) (find_topic topic round found r)
unfolding find_topic
find_topic-Found topic round (some message_type) r e = holds (unchanged r)
find_topic-Found topic round none r e =
    Ensures-if (leb r.next_discovery round.now_discovery)
      (Ensures-and_then (Ensures-any (map_err (λ x. failed (describe x)) round.topics)) λ topics u.
        Ensures-and_then (subscribe_found-Found round (topics topic) r e) λ r' f. holds (record {
          same_queue = f.same_queue;
          same_dropped = f.same_dropped;
          same_errors = f.same_errors;
          subscription = f.subscription;
        }))
      (holds (unchanged r))
