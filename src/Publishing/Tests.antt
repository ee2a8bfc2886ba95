-- ===== src/Publishing/Tests.antt =====
-- Runs of src/publish.rs in a small world, and its theorems there. The world has one topic of one
-- type; the publisher is matched after 150 ms, and a spin takes its whole timeout.
use native.Mathlib.Decide.{ℕ_discrete}
use pg_ros.Base.{
  ℕ, ◌+◌, ◌≤◌, ◌<◌, ◌≡◌, ◌≢◌, ◌⊎◌, refl, Option, none, some, List, [], ◌∷◌, Text, Text-discrete,
  ascii, ok, err, ap, leb, if◌then◌else◌, arith,
}
use pg_ros.Base.Actions.{Ends, returned}
use pg_ros.Base.Int.{ℤ, pos, pos_part}
use pg_ros.ErrorText.{plain, caused, describe, push_sources}
use pg_ros.Json.{Json, number, object, no_members, member}
use pg_ros.Message.{SimpleValue, Message, simple, view, no_fields, field}
use pg_ros.Naming.{
  validate_topic, strip_prefix, check_parts, split, any, is_bad_part, all, is_head_byte,
  is_tail_byte,
}
use pg_ros.Naming.Grammar.{IsTopic}
use pg_ros.Decoding.Simple.{decode_simple}
use pg_ros.Decoding.Decode.{decode, find_unknown, assign_members, assign_field, get, put, value_mut}
use pg_ros.Decoding.Scalar.{Numbers, fits, integer, as_integer, unknown_message_field}
use pg_ros.Decoding.Typed
use pg_ros.Decoding.Typed.{HasType}
use pg_ros.Publishing.Rcl.{Rcl, no_type, out_of_fuel, bad_message}
use pg_ros.Publishing.Loops.{
  discovery, matching, discover_type, wait_for_subscriber, flush_executor, discover_loop,
  discover_round, wait_loop, wait_round, spin, spin_for, flush_loop, flush_round,
}
use pg_ros.Publishing.Session.{
  Key, run, with_session, new_session, resolve_type, publish_with_session, publish_kind,
  get_publisher, Key-discrete, publish_new, build_message,
}
use pg_ros.Publishing.Timing.{Facts, IsWorld, flush_executor-Stops, Stops}
use pg_ros.Publishing.Timing.Discovery.{Undiscovered, discover_type-Ends, wait_for_subscriber-Stops}
use pg_ros.Publishing.Timing.Run.{run-out_of_fuel}
use pg_ros.Publishing.Delivery.{IsNetwork}
use pg_ros.Publishing.Delivery.Session.{SentAtMost}
use pg_ros.Publishing.Delivery.Cache.{IsPublished, Agrees}
use pg_ros.Publishing.Delivery.Run.{Kept, publishers_of, run-IsPublished, run-err, run-IsMade}

describes : describe (caused (ascii "a") (caused (ascii "b") (plain (ascii "c")))) ≡ ascii "a: b: c"
unfolding describe push_sources
describes = refl

record World : Type 0 where
  time : ℕ
  samples : List (Key × Message)

abbrev chatter : Text
chatter = ascii "/chatter"

abbrev byte_type : Text
byte_type = ascii "std_msgs/msg/Byte"

abbrev graph : Text → Option (List Text)
graph topic = elim (Text-discrete topic chatter) [ yes _ ↦ some (byte_type ∷ []) | no _ ↦ none ]

abbrev matched : World → ℕ
matched w = if leb 150_000_000 w.time then 1 else 0

abbrev blank : Message
blank = view (field (ascii "data") (simple (SimpleValue.uint8 (pos 0))) no_fields)

abbrev rcl : Rcl World (Unit {0}) (Unit {0}) (Unit {0}) Text Key
rcl = record {
  now = λ w. (w.time, w);
  interrupted = λ w. (ok tt, w);
  spin = λ x t w. (ok tt, record w { time = w.time + t });
  ros_context = λ w. (ok tt, w);
  create_basic_executor = λ c w. (tt, w);
  create_node = λ x name w. (ok tt, w);
  process_id = 42;
  get_topic_names_and_types = λ node w. (ok graph, w);
  message_type_name = λ t. elim (Text-discrete t byte_type) [
    | yes _ ↦ ok t
    | no _ ↦ err (plain (ascii "no such type"))
  ];
  new_message = λ kind w. (ok blank, w);
  create_dynamic_publisher = λ node kind topic w. (ok (topic, kind), w);
  get_subscription_count = λ publisher w. (ok (matched w), w);
  publish = λ publisher m w. (ok tt, record w { samples = (publisher, m) ∷ w.samples });
}

abbrev facts : Facts World Key
facts = record {
  elapsed = λ w. w.time;
  advertised = λ w. graph;
  subscribers = λ w publisher. matched w;
}

rcl-IsWorld : IsWorld rcl facts
rcl-IsWorld = record {
  now_reads = λ w. refl;
  now_later = λ w. omega arith;
  interrupted_later = λ w. omega arith;
  topics_read = λ node w. returned (omega arith, refl);
  count_read = λ publisher w. returned (omega arith, refl);
  spin_lasts = λ x t w h. returned (omega arith);
}

abbrev numbers : Numbers ℤ
numbers = record {
  as_i64 = λ n. some n;
  as_u64 = λ n. none;
  as_f64 = λ n. some (pos_part n);
  nan = 0x7ff8000000000000;
  to_f32 = λ bits. bits;
  string_size = λ s. 0;
  wstring_size = λ s. 0;
}

blank-HasType : HasType numbers blank blank
unfolding fits
blank-HasType = Typed.views (Typed.one_more (Typed.simples (Typed.uint8 refl)) Typed.none_left)

rcl-IsNetwork : IsNetwork rcl numbers (λ w. w.samples) (λ p. p) (λ kind. blank)
rcl-IsNetwork = record {
  now_quiet = λ w. refl;
  interrupted_quiet = λ w. refl;
  spin_quiet = λ x t w. refl;
  context_quiet = λ w. refl;
  executor_quiet = λ c w. refl;
  node_quiet = λ x name w. refl;
  topics_quiet = λ node w. refl;
  count_quiet = λ publisher w. refl;
  new_message_quiet = λ kind w. refl;
  create_quiet = λ node kind topic w. refl;
  message_typed = λ kind w. returned blank-HasType;
  created_for = λ node kind topic w. returned refl;
  publish_sends = λ publisher m w. returned refl;
}

abbrev start_world : World
start_world = record { time = 0; samples = [] }

abbrev enough : ℕ
enough = 5_000_000_001

abbrev json : Json ℤ
json = object (member (ascii "data") (number (pos 5)) no_members)

abbrev five : Message
five = view (field (ascii "data") (simple (SimpleValue.uint8 (pos 5))) no_fields)

-- The first call infers the type, waits two spins for the subscriber, and sends one sample.
first_call : run rcl numbers enough chatter none json (none, start_world) ≡ (
  ok byte_type,
  (
    some (record {
      node = tt;
      executor = tt;
      publishers = ((chatter, byte_type), (chatter, byte_type)) ∷ [];
      context = tt;
    }),
    record { time = 300_000_000; samples = ((chatter, byte_type), five) ∷ [] },
  ),
)
unfolding run with_session new_session resolve_type discover_type discover_loop discover_round
    publish_with_session publish_kind get_publisher Key-discrete publish_new build_message decode
    find_unknown assign_members assign_field get put value_mut decode_simple integer as_integer fits
    wait_for_subscriber wait_loop wait_round spin spin_for flush_executor flush_loop flush_round
    validate_topic strip_prefix check_parts split any is_bad_part all is_head_byte is_tail_byte
    Text-discrete ℕ_discrete
first_call = refl

-- A topic that nobody publishes has no type, after fifty spins.
no_topic :
    (run rcl numbers enough (ascii "/other") none json (none, start_world)).0
    ≡ err (no_type (ascii "/other"))
unfolding run with_session new_session resolve_type discover_type discover_loop discover_round
    publish_with_session spin spin_for validate_topic strip_prefix check_parts split any is_bad_part
    all is_head_byte is_tail_byte Text-discrete ℕ_discrete
no_topic = refl

flush_executor-Stops_example :
    Stops (λ u w'. 0 + 10_000_000 ≤ w'.time) (flush_executor rcl enough tt 10_000_000 start_world)
flush_executor-Stops_example =
    flush_executor-Stops rcl facts rcl-IsWorld enough tt 10_000_000 start_world (omega arith)

wait_for_subscriber-Stops_example :
    Stops
      (λ u w'. (0 < matched w') ⊎ (0 + matching ≤ w'.time))
      (wait_for_subscriber rcl enough (chatter, byte_type) tt start_world)
wait_for_subscriber-Stops_example =
    wait_for_subscriber-Stops rcl facts rcl-IsWorld enough (chatter, byte_type) tt start_world
      (omega arith)

discover_type-Ends_example :
    Ends
      (λ kind w'. graph chatter ≡ some (kind ∷ []))
      (Undiscovered rcl facts rcl-IsWorld chatter (0 + discovery))
      (discover_type rcl enough tt chatter tt start_world)
discover_type-Ends_example =
    discover_type-Ends rcl facts rcl-IsWorld enough tt chatter tt start_world (omega arith)

run-out_of_fuel_example :
    (run rcl numbers enough chatter none json (none, start_world)).0 ≢ err out_of_fuel
run-out_of_fuel_example =
    run-out_of_fuel rcl facts rcl-IsWorld numbers enough (omega arith) chatter none json none
      start_world

run-IsPublished_example :
    let (r, s) = run rcl numbers enough chatter none json (none, start_world) in
    IsTopic chatter
    × Agrees none byte_type
    × IsPublished rcl numbers
        (λ w. w.samples)
        (λ p. p)
        (λ kind. blank)
        rcl-IsNetwork
        []
        chatter
        json
        byte_type
        (publishers_of rcl numbers (λ w. w.samples) (λ p. p) (λ kind. blank) rcl-IsNetwork s.0)
        s.1
run-IsPublished_example =
    run-IsPublished rcl numbers (λ w. w.samples) (λ p. p) (λ kind. blank) rcl-IsNetwork enough
      chatter none json none start_world byte_type tt (ap (λ x. x.0) first_call)

-- The message has no field of the name, so nothing is sent.
bad_call :
    (run rcl numbers enough chatter
      (some byte_type)
      (object (member (ascii "x") json no_members))
      (none, start_world)).0
    ≡ err (bad_message (unknown_message_field (ascii "x")))
unfolding run with_session new_session resolve_type publish_with_session publish_kind get_publisher
    publish_new build_message decode find_unknown get validate_topic strip_prefix check_parts split
    any is_bad_part all is_head_byte is_tail_byte Text-discrete ℕ_discrete
bad_call = refl

run-err_example :
    let (r, s) =
      run rcl numbers enough chatter
        (some byte_type)
        (object (member (ascii "x") json no_members))
        (none, start_world) in
    (publishers_of rcl numbers (λ w. w.samples) (λ p. p) (λ kind. blank) rcl-IsNetwork s.0 ≡ [])
    × SentAtMost rcl numbers (λ w. w.samples) (λ p. p) (λ kind. blank) rcl-IsNetwork [] s.1
run-err_example =
    run-err rcl numbers (λ w. w.samples) (λ p. p) (λ kind. blank) rcl-IsNetwork enough chatter
      (some byte_type) (object (member (ascii "x") json no_members)) none start_world _ tt bad_call

run-IsMade_example :
    Kept rcl numbers
      (λ w. w.samples)
      (λ p. p)
      (λ kind. blank)
      rcl-IsNetwork
      (publishers_of rcl numbers
        (λ w. w.samples)
        (λ p. p)
        (λ kind. blank)
        rcl-IsNetwork
        (run rcl numbers enough chatter none json (none, start_world)).1.0)
run-IsMade_example =
    run-IsMade rcl numbers (λ w. w.samples) (λ p. p) (λ kind. blank) rcl-IsNetwork enough chatter
      none json none start_world tt
