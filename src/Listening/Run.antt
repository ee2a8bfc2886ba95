-- ===== src/Listening/Run.antt =====
-- src/subscriptions.rs: the life of a call of `receive`, round by round.
use mathlib.Core.Path.{subst}
use pg_ros.Base.{
  ℕ, ◌+◌, ◌^◌, ◌≤◌, ◌<◌, ◌≡◌, refl, ap, ◌∙◌, sym, Option, none, some, List, [], ◌++◌, Text, ok,
  Ensures, holds, rejected, Ensures-and_then, Ensures-any, Ensures-if, Ensures-ok, length, arith,
}
use pg_ros.ErrorText.{describe}
use pg_ros.Message.{Message}
use pg_ros.Encoding.Encode.{Formatter}
use pg_ros.Listening.Receiver.{
  Receiver, Backend, Round, capacity, started, connected, callbacks, find_topic, listen, drain,
  report, receive_round, map_err, failed,
}
use pg_ros.Listening.Notices.{Notices, none_left, texts}
use pg_ros.Listening.Channel.{numbered, length-numbered, advance, Heard, callbacks-Heard}
use pg_ros.Listening.Draining.{drain-Drained}
use pg_ros.Listening.Finding.{reported, report-same}
use pg_ros.Listening.Rounds.{heard_in, IsSettled, receive_round-IsSettled}

module _ (f : Formatter) (topic : Text) where
  -- The life of a call: the messages that its callbacks have heard, and the state after a round.
  pub data Reached : List Message → Receiver → Backend → Type 0 where
    begun : (now_discovery now_report : ℕ) → Reached [] (started now_discovery now_report) connected
    went_on :
        {heard : List Message} {r r' : Receiver} {b b' : Backend} (round : Round)
        → Reached heard r b
        → receive_round f topic round (r, b) ≡ ok (r', b')
        → Reached (heard ++ heard_in r.subscription round.arrived) r' b'

  pub Reached-IsSettled :
      {heard : List Message} {r : Receiver} {b : Backend}
      → Reached heard r b
      → IsSettled f topic heard r b
  Reached-IsSettled (begun now_discovery now_report) = record {
    empty = refl;
    closed = refl;
    numbers = refl;
    unheard = λ e. refl;
    counted = λ l. omega arith;
    notices = λ t e. none_left;
    silent = λ e. refl;
  }
  Reached-IsSettled (went_on {heard} {r} {b} round before e) =
      Ensures-ok (receive_round-IsSettled f topic heard round r b (Reached-IsSettled before)) e

  -- Between two rounds the queue is empty and every notification is committed; and of the messages
  -- that the call has heard, fewer than 2^64, each was notified, was reported in a warning, or is
  -- counted for the next warning.
  pub Reached-counted :
      (heard : List Message) (r : Receiver) (b : Backend)
      → Reached heard r b
      → length heard < 2 ^ 64
      → (r.queue ≡ [])
        × (b.pending ≡ [])
        × (length b.committed + (reported b.warnings + (r.dropped + r.encoding_errors))
            ≡ length heard)
  Reached-counted heard r b run l =
      let v = Reached-IsSettled run in (v.empty, v.closed, v.counted l)

  -- The notifications that a call with a subscription has committed are, in the order of the messages
  -- and each once, payloads that `payload` makes of the messages it has heard, numbered from zero on.
  pub Reached-Notices :
      (heard : List Message) (r : Receiver) (b : Backend) (message_type : Text)
      → Reached heard r b
      → r.subscription ≡ some message_type
      → Notices b.committed (numbered f topic message_type 0 heard)
  Reached-Notices heard r b message_type run e = (Reached-IsSettled run).notices message_type e

  find_topic_subscribed :
      (round : Round) (arrived : List Message) (found : Option Text) (t : Text) (r : Receiver)
      → found ≡ some t
      → Ensures
          (λ r'. r' ≡ callbacks f topic (some t) arrived r)
          (find_topic topic round found (callbacks f topic found arrived r))
  unfolding find_topic
  find_topic_subscribed round arrived none t r e = cc
  find_topic_subscribed round arrived (some t') t r e =
      holds (ap (λ k. callbacks f topic k arrived r) e)

  lossless_round :
      (heard : List Message) (round : Round) (r : Receiver) (b : Backend) (message_type : Text)
      → IsSettled f topic heard r b
      → r.subscription ≡ some message_type
      → length round.arrived ≤ capacity
      → Ensures
          (λ s.
            s.1.committed
            ≡ b.committed ++ texts (numbered f topic message_type r.sequence round.arrived))
          (receive_round f topic round (r, b))
  unfolding receive_round listen
  lossless_round heard round r b t v e room =
      Ensures-and_then
        (Ensures-if round.interrupted rejected (
          Ensures-and_then (Ensures-any (map_err (λ x. failed (describe x)) round.spun))
            λ u w. find_topic_subscribed round round.arrived r.subscription t r e))
        λ r1 same. holds (
          subst
            (λ x.
              (report round (drain x b).0 (drain x b).1).1.committed
              ≡ b.committed ++ texts (numbered f topic t r.sequence round.arrived))
            (sym same) committed_all)
    where
      rc : Receiver
      rc = callbacks f topic (some t) round.arrived r

      h :
          Heard r rc
            (numbered f topic t r.sequence round.arrived)
            (advance r.sequence round.arrived)
      h = callbacks-Heard f topic t round.arrived r (rw v.empty (omega arith))

      all_added : h.added ≡ numbered f topic t r.sequence round.arrived
      all_added =
          (h.fits (
            omega (
              arith,
              ap length v.empty,
              room,
              length-numbered f topic t r.sequence round.arrived,
            ))).0

      queue : rc.queue ≡ numbered f topic t r.sequence round.arrived
      queue = h.queued ∙ ap (λ q. q ++ h.added) v.empty ∙ all_added

      committed_all :
          (report round (drain rc b).0 (drain rc b).1).1.committed
          ≡ b.committed ++ texts (numbered f topic t r.sequence round.arrived)
      committed_all =
          let (q, s, n, p, c) = report-same round (drain rc b).0 (drain rc b).1 in
          c ∙ (drain-Drained rc b h.bounded v.closed).commits ∙ rw queue refl

  -- A round that hears no more messages than the queue holds loses none of them to the queue: it
  -- commits, after what was committed before, every payload of its messages that could be encoded, in
  -- order and numbered on from the last round.
  pub Reached-committed :
      (heard : List Message) (round : Round) (r r' : Receiver) (b b' : Backend)
      (message_type : Text)
      → Reached heard r b
      → r.subscription ≡ some message_type
      → length round.arrived ≤ capacity
      → receive_round f topic round (r, b) ≡ ok (r', b')
      → b'.committed
        ≡ b.committed ++ texts (numbered f topic message_type (advance 0 heard) round.arrived)
  Reached-committed heard round r r' b b' t run e room ran =
      let v = Reached-IsSettled run in
      Ensures-ok (lossless_round heard round r b t v e room) ran
      ∙ ap (λ n. b.committed ++ texts (numbered f topic t n round.arrived)) v.numbers
