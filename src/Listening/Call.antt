-- ===== src/Listening/Call.antt =====
-- src/subscriptions.rs: `subscribe`, the CALL around `receive`, for the rounds that it makes until it ends
-- or is looked at. The loop of `receive` has no other end than an error.
use pg_ros.Base.{
  ℕ, ◌<◌, ◌≡◌, refl, ◌++◌, append-nil, append_assoc, Bool, true, false, Option, none, some, List,
  [], ◌∷◌, Text, Result, ok, err, Result-cases, Option-cases, ◌⊎◌, inl, inr, length,
}
use pg_ros.ErrorText.{Error, describe}
use pg_ros.Message.{Message}
use pg_ros.Naming.{NameError, validate_channel}
use pg_ros.Encoding.Encode.{Formatter}
use pg_ros.Listening.Receiver.{
  ReceiveError, failed, many_types, unresolved, cancelled, Receiver, Backend, Round, started,
  connected, map_err, receive_round,
}
use pg_ros.Listening.Run
use pg_ros.Listening.Run.{Reached, Reached-IsSettled}
use pg_ros.Listening.Notices.{
  Notices, IsPart, nothing, IsPart-append, IsPart-none, IsPart-all, IsPart-more,
}
use pg_ros.Listening.Rounds.{heard_in}
use pg_ros.Listening.Channel.{numbered}
use pg_ros.Naming.Grammar.{IsTopic, validate_channel_iff}

-- `fcinfo.context`: the node of a CALL with its flag `atomic`, or another node.
pub data Context : Type 0 where
  call_context : Bool → Context
  other_node : Context

pub data CallError : Type 0 where
  invalid_topic : NameError → CallError
  -- "subscribe must be invoked with a top-level CALL outside a transaction block"
  not_top_level : CallError
  -- "subscribe failed for {}: {}"
  subscribe_failed : Text → ReceiveError → CallError
  -- PostgreSQL's own error for a cancellation, which leaves `receive` without a return.
  interrupted : CallError

-- What `receive` meets: whether `ros_context` and `create_node` succeed, the clock at its two readings,
-- and the rounds.
pub record Receiving : Type 0 where
  pub opened : Result Error (Unit {0})
  pub now_discovery : ℕ
  pub now_report : ℕ
  pub rounds : List Round

-- The test of the context before `SPI_connect_ext`.
unfoldable pub check_context : Option Context → Result CallError (Unit {0})
check_context (some (call_context false)) = ok tt
check_context (some (call_context true)) = err not_top_level
check_context (some other_node) = err not_top_level
check_context none = err not_top_level

-- The messages of the rounds.
abbrev pub arrivals : List Round → List Message
arrivals [] = []
arrivals (round ∷ rounds) = round.arrived ++ arrivals rounds

module _ (f : Formatter) (topic : Text) where
  -- An error comes before the round's notifications, which leaves the backend alone.
  abbrev pub round_ended :
      Backend
      → Result ReceiveError (Receiver × Backend)
      → (Receiver × Backend → Option ReceiveError × Backend)
      → Option ReceiveError × Backend
  round_ended b (ok state) rest = rest state
  round_ended b (err e) rest = (some e, b)

  -- The loop: the error that ended it, if one did, and the backend.
  unfoldable pub receive_rounds : List Round → Receiver × Backend → Option ReceiveError × Backend
  receive_rounds [] (r, b) = (none, b)
  receive_rounds (round ∷ rounds) (r, b) =
      round_ended b (receive_round f topic round (r, b)) (λ state. receive_rounds rounds state)

  abbrev pub receive_opened :
      Result ReceiveError (Unit {0}) → Receiving → Option ReceiveError × Backend
  receive_opened (ok u) run =
      receive_rounds run.rounds (started run.now_discovery run.now_report, connected)
  receive_opened (err e) run = (some e, connected)

  -- `receive`
  unfoldable pub receive : Receiving → Option ReceiveError × Backend
  receive run = receive_opened (map_err (λ e. failed (describe e)) run.opened) run

  abbrev pub call_error : ReceiveError → CallError
  call_error cancelled = interrupted
  call_error (failed text) = subscribe_failed topic (failed text)
  call_error many_types = subscribe_failed topic many_types
  call_error (unresolved text) = subscribe_failed topic (unresolved text)

  abbrev pub call_ended : Option ReceiveError × Backend → Option CallError × Backend
  call_ended (none, b) = (none, b)
  call_ended (some e, b) = (some (call_error e), b)

  abbrev pub call_checked : Result CallError (Unit {0}) → Receiving → Option CallError × Backend
  call_checked (ok u) run = call_ended (receive run)
  call_checked (err e) run = (some e, connected)

  -- `subscribe`: the topic is checked before the context.
  abbrev pub check_call : Result NameError (Unit {0}) → Option Context → Result CallError (Unit {0})
  check_call (ok u) context = check_context context
  check_call (err e) context = err (invalid_topic e)

  unfoldable pub subscribe : ℕ → Option Context → Receiving → Option CallError × Backend
  subscribe name_data_len context run =
      call_checked (check_call (validate_channel name_data_len topic) context) run

  -- The notifications are payloads of messages among those that arrived, all of one type, in their order,
  -- numbered from zero on.
  pub record IsNotified (arrived : List Message) (b : Backend) : Type 0 where
    pub message_type : Text
    pub heard : List Message
    pub heard_there : IsPart heard arrived
    pub notices : Notices b.committed (numbered f topic message_type 0 heard)

  -- Every notification is committed, and accounted for.
  abbrev pub IsLeft : List Message → Backend → Type 0
  IsLeft arrived b = (b.pending ≡ []) × ((b.committed ≡ []) ⊎ IsNotified arrived b)

  Reached-IsLeft :
      (arrived heard : List Message) (r : Receiver) (b : Backend)
      → IsPart heard arrived
      → Reached f topic heard r b
      → IsLeft arrived b
  Reached-IsLeft arrived heard r b there run =
      let v = Reached-IsSettled f topic run in
      (
        v.closed,
        elim (Option-cases r.subscription) [
          | inl e ↦ inl (v.silent (v.unheard e))
          | inr (t, e) ↦ inr (record {
            message_type = t;
            heard = heard;
            heard_there = there;
            notices = v.notices t e;
          })
        ],
      )

  heard_in-IsPart :
      (subscription : Option Text) (arrived : List Message)
      → IsPart (heard_in subscription arrived) arrived
  heard_in-IsPart none arrived = IsPart-none arrived
  heard_in-IsPart (some message_type) arrived = IsPart-all arrived

  receive_rounds-IsLeft :
      (rounds : List Round) (earlier heard : List Message) (r : Receiver) (b : Backend)
      → IsPart heard earlier
      → Reached f topic heard r b
      → IsLeft (earlier ++ arrivals rounds) (receive_rounds rounds (r, b)).1
  unfolding receive_rounds
  receive_rounds-IsLeft [] earlier heard r b there before =
      rw (append-nil earlier) (Reached-IsLeft earlier heard r b there before)
  receive_rounds-IsLeft (round ∷ rounds) earlier heard r b there before =
      elim (Result-cases (receive_round f topic round (r, b))) [
        | inl ((r', b'), e) ↦
            rw (e, ← append_assoc earlier round.arrived (arrivals rounds))
              (receive_rounds-IsLeft rounds (earlier ++ round.arrived) _ r' b'
                (IsPart-append there (heard_in-IsPart r.subscription round.arrived))
                (Run.went_on round before e))
        | inr (x, e) ↦ rw e (
            Reached-IsLeft (earlier ++ arrivals (round ∷ rounds)) heard r b
              (IsPart-more (arrivals (round ∷ rounds)) there) before)
      ]

  receive-IsLeft : (run : Receiving) → IsLeft (arrivals run.rounds) (receive run).1
  unfolding receive
  receive-IsLeft run = elim (Result-cases (map_err (λ e. failed (describe e)) run.opened)) [
    | inl (u, e) ↦ rw e (
        receive_rounds-IsLeft run.rounds [] [] (started run.now_discovery run.now_report) connected
          nothing (Run.begun run.now_discovery run.now_report))
    | inr (x, e) ↦ rw e (refl, inl refl)
  ]

  call_ended-IsLeft :
      (arrived : List Message) (r : Option ReceiveError × Backend)
      → IsLeft arrived r.1
      → IsLeft arrived (call_ended r).1
  call_ended-IsLeft arrived (none, b) h = h
  call_ended-IsLeft arrived (some e, b) h = h

  check_context-call :
      (context : Option Context)
      → check_context context ≡ ok tt
      → context ≡ some (call_context false)
  unfolding check_context
  check_context-call none e = cc
  check_context-call (some other_node) e = cc
  check_context-call (some (call_context true)) e = cc
  check_context-call (some (call_context false)) e = refl

  -- Whenever a CALL ends or is looked at between two rounds, every notification that it sent is committed.
  -- It has sent none, or its topic is a ROS name that fits a notification channel, it is a CALL outside a
  -- transaction block, and its notifications are payloads that `payload` makes of messages of one type
  -- among those that arrived in its rounds, in their order and each once, numbered from zero on.
  pub subscribe-IsNotified :
      (name_data_len : ℕ) (context : Option Context) (run : Receiving)
      → let b = (subscribe name_data_len context run).1 in
        (b.pending ≡ [])
        × ((b.committed ≡ [])
            ⊎ ((length topic < name_data_len)
                × IsTopic topic
                × (context ≡ some (call_context false))
                × IsNotified (arrivals run.rounds) b))
  unfolding subscribe
  subscribe-IsNotified n context run = elim (Result-cases (validate_channel n topic)) [
    | inr (x, e) ↦ rw e (refl, inl refl)
    | inl (u, e) ↦ elim (Result-cases (check_context context)) [
      | inr (x, e') ↦ rw (e, e') (refl, inl refl)
      | inl (u', e') ↦
          let (closed, left) =
            call_ended-IsLeft (arrivals run.rounds) (receive run) (receive-IsLeft run) in
          let (fits, named) = (validate_channel_iff n topic).0 e in
          rw (e, e')
            (
              closed,
              elim left [
                | inl silent ↦ inl silent
                | inr notified ↦ inr (fits, named, check_context-call context e', notified)
              ],
            )
    ]
  ]
