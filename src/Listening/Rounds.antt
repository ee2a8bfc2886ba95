-- ===== src/Listening/Rounds.antt =====
-- src/subscriptions.rs: a round of `receive` loses no message unnoticed.
use mathlib.Core.Path.{subst}
use pg_ros.Base.{
  ◌+◌, ◌^◌, ◌≤◌, ◌<◌, ◌≡◌, refl, ap, ◌∙◌, sym, inl, inr, Option, none, some, List, [], ◌++◌, Text,
  Ensures, holds, rejected, Ensures-and_then, Ensures-any, Ensures-weaken, Ensures-if, length,
  length-append, arith, append-nil,
}
use pg_ros.ErrorText.{describe}
use pg_ros.Message.{Message}
use pg_ros.Encoding.Encode.{Formatter}
use pg_ros.Listening.Receiver.{
  Receiver, Backend, Round, capacity, callbacks, listen, drain, report, receive_round, map_err,
  failed,
}
use pg_ros.Listening.Notices.{
  Notices, none_left, Notices-append, Part-Notices, Part-empty, append-empty, texts, texts-failures,
}
use pg_ros.Listening.Channel.{
  numbered, numbered-append, length-numbered, advance, advance-append, callbacks-Heard,
}
use pg_ros.Listening.Draining.{drain-Drained}
use pg_ros.Listening.Finding.{reported, report-reported, report-same, Found, find_topic-Found}

-- The messages that a round hears: without a subscription there is no callback.
abbrev pub heard_in : Option Text → List Message → List Message
heard_in none arrived = []
heard_in (some message_type) arrived = arrived

module _ (f : Formatter) (topic : Text) where
  -- The state after the messages `heard`, in the middle of a round: each message is committed, queued,
  -- reported or counted, and what is committed or queued is, in order, a part of their payloads.
  record Mid (heard : List Message) (r : Receiver) (b : Backend) : Type 0 where
    bounded : length r.queue ≤ capacity
    closed : b.pending ≡ []
    numbers : r.sequence ≡ advance 0 heard
    unheard : r.subscription ≡ none → heard ≡ []
    counted :
        length heard < 2 ^ 64
        → length b.committed
            + length r.queue
            + (reported b.warnings + (r.dropped + r.encoding_errors))
          ≡ length heard
    notices :
        (message_type : Text)
        → r.subscription ≡ some message_type
        → Notices (b.committed ++ texts r.queue) (numbered f topic message_type 0 heard)
    silent : heard ≡ [] → b.committed ++ texts r.queue ≡ []

  -- The same between two rounds: nothing is queued, and every notification is committed.
  pub record IsSettled (heard : List Message) (r : Receiver) (b : Backend) : Type 0 where
    pub empty : r.queue ≡ []
    pub closed : b.pending ≡ []
    pub numbers : r.sequence ≡ advance 0 heard
    pub unheard : r.subscription ≡ none → heard ≡ []
    pub counted :
        length heard < 2 ^ 64
        → length b.committed + (reported b.warnings + (r.dropped + r.encoding_errors))
          ≡ length heard
    pub notices :
        (message_type : Text)
        → r.subscription ≡ some message_type
        → Notices b.committed (numbered f topic message_type 0 heard)
    pub silent : heard ≡ [] → b.committed ≡ []

  Mid-IsSettled :
      (heard : List Message) (round : Round) (r : Receiver) (b : Backend)
      → Mid heard r b
      → let (r', b') = drain r b in let (r'', b'') = report round r' b' in IsSettled heard r'' b''
  Mid-IsSettled heard round r b m =
      let d = drain-Drained r b m.bounded m.closed in
      let (q, s, n, p, c) = report-same round (drain r b).0 (drain r b).1 in
      let commits = c ∙ d.commits in
      record {
        empty = q ∙ d.empty;
        closed = p ∙ d.closed;
        numbers = n ∙ d.same_sequence ∙ m.numbers;
        unheard = λ e. m.unheard (sym d.same_subscription ∙ sym s ∙ e);
        counted = λ l.
            let balance = m.counted l in
            let split = texts-failures r.queue in
            let errors = d.errors (omega (arith, balance, split, l)) in
            let told = report-reported round (drain r b).0 (drain r b).1 in
            let size = ap length commits ∙ length-append b.committed (texts r.queue) in
            omega (
              arith,
              balance,
              split,
              errors,
              told,
              size,
              ap reported d.same_warnings,
              d.same_dropped,
            );
        notices = λ t e. rw commits (m.notices t (sym d.same_subscription ∙ sym s ∙ e));
        silent = λ e. commits ∙ m.silent e;
      }

  callbacks-Mid :
      (heard arrived : List Message) (found : Option Text) (r : Receiver) (b : Backend)
      → r.subscription ≡ found
      → IsSettled heard r b
      → Mid (heard ++ heard_in found arrived) (callbacks f topic found arrived r) b
  unfolding callbacks
  callbacks-Mid heard arrived none r b e v = rw (append-nil heard) (record {
    bounded = rw v.empty (omega arith);
    closed = v.closed;
    numbers = v.numbers;
    unheard = v.unheard;
    counted = λ l. rw v.empty (omega (arith, v.counted l));
    notices = λ t s. rw (v.empty, append-nil b.committed) (v.notices t s);
    silent = λ s. rw (v.empty, append-nil b.committed) (v.silent s);
  })
  callbacks-Mid heard arrived (some t) r b e v =
      let h = callbacks-Heard f topic t arrived r (rw v.empty (omega arith)) in
      let queue : (callbacks f topic (some t) arrived r).queue ≡ h.added =
        h.queued ∙ ap (λ q. q ++ h.added) v.empty in
      record {
        bounded = h.bounded;
        closed = v.closed;
        numbers =
            h.numbers
            ∙ ap (λ s. advance s arrived) v.numbers
            ∙ sym (advance-append 0 heard arrived);
        unheard = λ s. absurd (none-some (sym s ∙ h.same_subscription ∙ e));
        counted = λ l.
            let total = length-append heard arrived in
            let balance = v.counted (omega (arith, l, total)) in
            let here =
              h.counted
                (omega (arith, l, total, balance, length-numbered f topic t r.sequence arrived)) in
            omega (
              arith,
              total,
              balance,
              here,
              ap length queue,
              h.same_errors,
              length-numbered f topic t r.sequence arrived,
            );
        notices = λ t' s.
            let same = some-injective (sym e ∙ sym h.same_subscription ∙ s) in
            let news = Part-Notices h.part in
            rw (queue, numbered-append f topic t' 0 heard arrived)
              (Notices-append (v.notices t' (sym h.same_subscription ∙ s)) (
                subst (λ n. Notices (texts h.added) (numbered f topic t' n arrived)) v.numbers
                  (subst (λ k. Notices (texts h.added) (numbered f topic k r.sequence arrived)) same
                    news)));
        silent = λ s.
            let (before, now) = append-empty heard arrived s in
            let nothing = Part-empty h.part (ap (λ a. numbered f topic t r.sequence a) now) in
            rw (queue, nothing, v.silent before) refl;
      }
    where
      none-some : ¬ (none ≡ some t)
      none-some x = cc

      some-injective : {a b : Text} → some a ≡ some b → a ≡ b
      some-injective x = cc

  Found-Mid :
      (heard : List Message) (r r' : Receiver) (b : Backend)
      → Mid heard r b
      → Found r r'
      → Mid heard r' b
  Found-Mid heard r r' b m found = elim found.subscription [
    | inl (same, number) ↦ record {
      bounded = rw found.same_queue m.bounded;
      closed = m.closed;
      numbers = number ∙ m.numbers;
      unheard = λ s. m.unheard (sym same ∙ s);
      counted = λ l.
          omega
            (arith, m.counted l, ap length found.same_queue, found.same_dropped, found.same_errors);
      notices = λ t s. rw found.same_queue (m.notices t (sym same ∙ s));
      silent = λ s. rw found.same_queue (m.silent s);
    }
    | inr (fresh, number) ↦
        let nothing = m.unheard fresh in
        record {
          bounded = rw found.same_queue m.bounded;
          closed = m.closed;
          numbers = rw nothing number;
          unheard = λ s. nothing;
          counted = λ l. omega (
            arith,
            m.counted l,
            ap length found.same_queue,
            found.same_dropped,
            found.same_errors,
          );
          notices = λ t s. rw (found.same_queue, m.silent nothing, nothing) none_left;
          silent = λ s. rw found.same_queue (m.silent s);
        }
  ]

  callbacks-subscription :
      (found : Option Text) (arrived : List Message) (r : Receiver)
      → r.queue ≡ []
      → (callbacks f topic found arrived r).subscription ≡ r.subscription
  unfolding callbacks
  callbacks-subscription none arrived r e = refl
  callbacks-subscription (some t) arrived r e =
      (callbacks-Heard f topic t arrived r (rw e (omega arith))).same_subscription

  listen-Mid :
      (heard : List Message) (round : Round) (r : Receiver) (b : Backend)
      → IsSettled heard r b
      → Ensures
          (λ r'. Mid (heard ++ heard_in r.subscription round.arrived) r' b)
          (listen f topic round r)
  unfolding listen
  listen-Mid heard round r b v =
      let rc = callbacks f topic r.subscription round.arrived r in
      Ensures-if round.interrupted rejected (
        Ensures-and_then (Ensures-any (map_err (λ x. failed (describe x)) round.spun)) λ u w.
          Ensures-weaken
            (find_topic-Found topic round r.subscription rc
              (callbacks-subscription r.subscription round.arrived r v.empty))
            λ r' found.
              Found-Mid _ rc r' b (callbacks-Mid heard round.arrived r.subscription r b refl v)
                found)

  pub receive_round-IsSettled :
      (heard : List Message) (round : Round) (r : Receiver) (b : Backend)
      → IsSettled heard r b
      → Ensures
          (λ s. IsSettled (heard ++ heard_in r.subscription round.arrived) s.0 s.1)
          (receive_round f topic round (r, b))
  unfolding receive_round
  receive_round-IsSettled heard round r b v =
      Ensures-and_then (listen-Mid heard round r b v) λ r1 m. holds (Mid-IsSettled _ round r1 b m)
