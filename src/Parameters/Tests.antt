-- ===== src/Parameters/Tests.antt =====
-- Runs of the parameter poll of src/parameters.rs, and its theorems at them.
use mathlib.Core.Bool.{decide}
use native.Mathlib.Decide.{ℕ_discrete}
use pg_ros.Base.{
  ℕ, ◌≡◌, ◌≢◌, ◌<◌, ap, refl, true, false, Option, none, some, List, [], ◌∷◌, map, Text,
  Text-discrete, ascii, ok, err, arith,
}
use pg_ros.Base.Int.{pos}
use pg_ros.Base.Distinct.{Distinct}
use pg_ros.Parameters.Value.{ParameterValue, JsonMacro, Parameter, value_of}
use pg_ros.Parameters.Poll.{
  panicked, Poll, Answers, ready, all_ready, receive, collect_responses, call_get, client_rows,
  checked_rows, snapshot_rows,
}
use pg_ros.Parameters.Tick.{
  Startup, create_clients, offers, start, tick, tick_stage, tick_ready, ready_checked, list_called,
  tick_listing, listed, ask_values, get_called, tick_getting, got,
}
use pg_ros.Parameters.Keys.{row_key, asked_keys}
use pg_ros.Parameters.Shapes.{IsWellFormed, stage_names}
use pg_ros.Parameters.Ticking.{tick-IsWellFormed}
use pg_ros.Parameters.Persist.{ParameterTables, shown_parameters, persist, persist-shown}
use pg_ros.Parameters.Run.{Reached, started, ticked, Reached-panicked, Reached-Distinct}
use pg_ros.Parameters.Deadline.{Waits, stage_number, tick-Waits}

-- A JSON value is its text here, and clients and promises are numbers.
abbrev texts : JsonMacro Text
texts = record {
  json_null = ascii "null";
  json_bool = λ b. ascii "bool";
  json_integer = λ i. ascii "integer";
  json_byte = λ b. ascii "byte";
  json_double = λ d. ascii "double";
  json_string = λ s. s;
  json_array = λ vs. ascii "array";
}

abbrev startup : Startup ℕ ℕ
startup = record {
  clock = 1000;
  services = λ name namespace. ok (λ list. some (ascii "rcl_interfaces/srv/ListParameters" ∷ []));
  create_list = λ name. ok 1;
  create_get = λ name. ok 2;
}

abbrev nodes : List (Text × Text)
nodes = (ascii "b", ascii "/") ∷ (ascii "a", ascii "/") ∷ (ascii "b", ascii "/") ∷ []

abbrev gain : ParameterValue
gain = record {
  type_ = 4;
  bool_value = false;
  integer_value = pos 0;
  double_value = 0;
  string_value = ascii "high";
  byte_array_value = [];
  bool_array_value = [];
  integer_array_value = [];
  double_array_value = [];
  string_array_value = [];
}

-- Every service is ready and answers at once; the name is listed twice.
abbrev prompt : ℕ → Answers ℕ ℕ ℕ ℕ
prompt now = record {
  now = now;
  restarted = now;
  list_is_ready = λ l. ok true;
  get_is_ready = λ g. ok true;
  list_call = λ l. ok 3;
  get_call = λ g names. ok 4;
  list_recv = λ p. ok (some (ascii "gain" ∷ ascii "gain" ∷ []));
  get_recv = λ p. ok (some (gain ∷ []));
}

abbrev poll_0 : Poll ℕ ℕ ℕ ℕ
poll_0 = record {
  clients =
      record { peer_name = ascii "a"; peer_namespace = ascii "/"; list_client = 1; get_client = 2 }
      ∷ record {
        peer_name = ascii "b";
        peer_namespace = ascii "/";
        list_client = 1;
        get_client = 2;
      }
      ∷ [];
  stage = ready;
  deadline = 4000;
}

starts : start startup nodes ≡ ok poll_0
unfolding start create_clients offers Text-discrete ℕ_discrete decide
starts = refl

abbrev poll_1 : Poll ℕ ℕ ℕ ℕ
poll_1 = (tick texts (prompt 1100) poll_0).0

abbrev poll_2 : Poll ℕ ℕ ℕ ℕ
poll_2 = (tick texts (prompt 1200) poll_1).0

-- The third tick returns one row for each node, though a node and a name were listed twice.
abbrev found : List (Parameter Text)
found =
    record {
      node = ascii "a";
      namespace = ascii "/";
      name = ascii "gain";
      kind = ascii "string";
      value = ascii "high";
    }
    ∷ record {
      node = ascii "b";
      namespace = ascii "/";
      name = ascii "gain";
      kind = ascii "string";
      value = ascii "high";
    }
    ∷ []

returns : (tick texts (prompt 1300) poll_2).1 ≡ ok (some found)
unfolding tick tick_stage tick_ready ready_checked list_called all_ready tick_listing
    collect_responses receive listed ask_values get_called call_get tick_getting got snapshot_rows
    checked_rows client_rows value_of
returns = refl

waits : (tick texts (prompt 1100) poll_0).1 ≡ ok none
unfolding tick tick_stage tick_ready ready_checked list_called all_ready
waits = refl

first_poll : Reached texts startup nodes poll_0
first_poll = started starts

third_poll : Reached texts startup nodes poll_2
third_poll = ticked (ticked first_poll (prompt 1100)) (prompt 1200)

Reached-Distinct_example :
    (map row_key found ≡ asked_keys poll_2.clients (stage_names poll_2.stage))
    × Distinct (map row_key found)
Reached-Distinct_example =
    Reached-Distinct texts startup nodes poll_2 (prompt 1300) found third_poll returns

Reached-panicked_example : (tick texts (prompt 1300) poll_2).1 ≢ err panicked
Reached-panicked_example = Reached-panicked texts startup nodes poll_2 (prompt 1300) third_poll

different_names : ◌≢◌ {A = Text × Text} (ascii "a", ascii "/") (ascii "b", ascii "/")
different_names e = ground (arith, ap (λ (k : Text × Text). k.0) e)

tick-IsWellFormed_example : IsWellFormed (tick texts (prompt 1100) poll_0).0
tick-IsWellFormed_example =
    tick-IsWellFormed texts (prompt 1100) poll_0 (((different_names, tt), (tt, tt)), tt)

tick-Waits_example :
    (1100 < poll_0.deadline)
    × Waits texts
        (prompt 1100)
        (stage_number poll_0.stage)
        poll_0.deadline
        (tick texts (prompt 1100) poll_0)
tick-Waits_example = tick-Waits texts (prompt 1100) poll_0 waits

same_rows : Discrete (Option (List (Parameter Text)))
same_rows = hlevel Text-discrete

abbrev empty_tables : ParameterTables Text
empty_tables = record { parameters = []; parameter_status = none }

persist-shown_example :
    shown_parameters
      (persist same_rows (some 16384) 71 9 (ok found) none none empty_tables).1.parameters
    ≡ found
persist-shown_example =
    persist-shown same_rows 16384 71 9 found none none empty_tables (λ p q. ground (arith, p))
