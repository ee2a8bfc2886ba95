-- ===== src/Listening/Tests.antt =====
-- Rounds of `receive` and a CALL of `subscribe` of src/subscriptions.rs, and the theorems there.
use pg_ros.Base.{
  ℕ, ◌+◌, ◌<◌, ◌⊎◌, ◌≡◌, refl, true, false, some, List, [], ◌∷◌, ◌++◌, Text, ascii, ok, length,
  arith,
}
use pg_ros.Base.Int.{pos, decimal}
use pg_ros.Message.{SimpleValue, Message, simple, view, no_fields, field}
use pg_ros.Encoding.Output
use pg_ros.Encoding.Output.{push, string, long_double}
use pg_ros.Encoding.Encode.{
  Formatter, payload, encode_message, int_pieces, text_value, str_value, int_value,
}
use pg_ros.Listening.Receiver.{
  Receiver, Backend, Round, started, connected, receive_round, listen, find_topic, subscribe_found,
  callbacks, callback, try_send, drain, handle_all, handle, commit, report, warn,
}
use pg_ros.Listening.Notices.{Notices, texts}
use pg_ros.Listening.Channel.{numbered}
use pg_ros.Listening.Finding.{reported}
use pg_ros.Naming.{
  validate_channel, validate_topic, strip_prefix, check_parts, split, any, all, is_bad_part,
  is_head_byte, is_tail_byte,
}
use pg_ros.Naming.Grammar.{IsTopic}
use pg_ros.Listening.Call.{
  Receiving, call_context, interrupted, not_top_level, check_context, receive_rounds, receive,
  subscribe, IsNotified, subscribe-IsNotified,
}
use pg_ros.Listening.Run.{
  Reached, begun, went_on, Reached-counted, Reached-Notices, Reached-committed,
}

abbrev formatter : Formatter
formatter = record {
  quote = λ s. s;
  pieces = λ s. s ∷ [];
  float_pieces = λ bits. [];
  double_pieces = λ bits. [];
}

abbrev topic : Text
topic = ascii "/t"

abbrev kind : Text
kind = ascii "p/msg/T"

-- The topic is there, and `ms` arrive at the time `t`.
abbrev at : ℕ → List Message → Round
at t ms = record {
  interrupted = false;
  spun = ok tt;
  arrived = ms;
  now_discovery = t;
  topics = ok (λ x. some (kind ∷ []));
  message_type_name = λ x. ok tt;
  create = λ x. ok tt;
  now_discovered = t;
  now_report = t;
  now_reported = t;
}

abbrev two : List Message
two =
    view (field (ascii "x") (simple (SimpleValue.uint8 (pos 5))) no_fields)
    ∷ view (field (ascii "x") (simple SimpleValue.long_double) no_fields)
    ∷ []

-- The first round subscribes; in the second one of two messages can be encoded.
abbrev first : Receiver
first = record (started 0 0) { subscription = some kind; next_discovery = 1000; next_report = 1000 }

round1 : receive_round formatter topic (at 0 two) (started 0 0, connected) ≡ ok (first, connected)
unfolding receive_round listen find_topic subscribe_found callbacks drain handle_all commit report
    warn
round1 = refl

reached1 : Reached formatter topic [] first connected
reached1 = went_on (at 0 two) (begun 0 0) round1

abbrev second : Receiver
second = record first { sequence = 2; encoding_errors = 1; last_encoding_error = some long_double }

abbrev note : Text
note = ascii "{\"topic\":/t,\"message_type\":p/msg/T,\"sequence\":0,\"message\":{x:5}}"

abbrev after : Backend
after = record connected { committed = note ∷ [] }

round2 : receive_round formatter topic (at 100 two) (first, connected) ≡ ok (second, after)
unfolding receive_round listen find_topic subscribe_found callbacks callback try_send drain
    handle_all handle commit report warn payload encode_message int_pieces decimal push string
    Output.array Output.number Output.◌>>◌ Output.pure Output.raise int_value text_value str_value
round2 = refl

reached2 : Reached formatter topic two second after
reached2 = went_on (at 100 two) reached1 round2

-- One message is notified, and one counted for the next warning.
Reached-counted_example :
    (second.queue ≡ [])
    × (after.pending ≡ [])
    × (length after.committed
          + (reported after.warnings + (second.dropped + second.encoding_errors))
        ≡ length two)
Reached-counted_example = Reached-counted formatter topic two second after reached2 (omega arith)

Reached-Notices_example : Notices after.committed (numbered formatter topic kind 0 two)
Reached-Notices_example = Reached-Notices formatter topic two second after kind reached2 refl

Reached-committed_example :
    after.committed ≡ connected.committed ++ texts (numbered formatter topic kind 0 two)
Reached-committed_example =
    Reached-committed formatter topic [] (at 100 two) first second connected after kind reached1
      refl (omega arith) round2

-- A CALL of the two rounds, the second of which is followed by a cancellation.
abbrev run : Receiving
run = record {
  opened = ok tt;
  now_discovery = 0;
  now_report = 0;
  rounds = at 0 two ∷ at 100 two ∷ record (at 200 two) { interrupted = true } ∷ [];
}

called : subscribe formatter topic 64 (some (call_context false)) run ≡ (some interrupted, after)
unfolding subscribe receive receive_rounds check_context receive_round listen find_topic
    subscribe_found callbacks callback try_send drain handle_all handle commit report warn payload
    encode_message int_pieces decimal push string Output.array Output.number Output.◌>>◌ Output.pure
    Output.raise int_value text_value str_value validate_channel validate_topic strip_prefix
    check_parts split any all is_bad_part is_head_byte is_tail_byte
called = refl

-- In a transaction block nothing is notified.
refused :
    subscribe formatter topic 64 (some (call_context true)) run ≡ (some not_top_level, connected)
unfolding subscribe check_context validate_channel validate_topic strip_prefix check_parts split any
    all is_bad_part is_head_byte is_tail_byte
refused = refl

abbrev left : Backend
left = (subscribe formatter topic 64 (some (call_context false)) run).1

subscribe-IsNotified_example :
    (left.pending ≡ [])
    × ((left.committed ≡ [])
        ⊎ ((length topic < 64)
            × IsTopic topic
            × (some (call_context false) ≡ some (call_context false))
            × IsNotified formatter topic (two ++ (two ++ (two ++ []))) left))
subscribe-IsNotified_example =
    subscribe-IsNotified formatter topic 64 (some (call_context false)) run
