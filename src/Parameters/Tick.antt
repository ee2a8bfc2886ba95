-- ===== src/Parameters/Tick.antt =====
-- src/parameters.rs: `Poll::start` and `Poll::tick`. A method takes the poll and returns it as the call
-- left it, with its result.
use mathlib.Core.Bool.{decide}
use pg_ros.Base.{
  ℕ, ◌+◌, Bool, false, not, ◌||◌, Option, none, some, List, [], ◌∷◌, ◌++◌, map, Text, Text-discrete,
  ascii, Result, ok, err, map_ok, and_then, leb, ◌==◌, if◌then◌else◌,
}
use pg_ros.Base.Order.{sort, dedup, le_pair}
use pg_ros.Parameters.Value.{ParameterValue, JsonMacro, Parameter}
use pg_ros.Parameters.Poll.{
  Fault, failed, no_results, collect_calls, take_all, collect_responses, sorted_names, Peer, Stage,
  ready, listing, getting, Poll, Answers, timed_out, stage_name, all_ready, call_get, snapshot_rows,
}

-- What rclrs and the clock answer to `Poll::start`; a client is created from the name of its service.
pub record Startup (L G : Type 0) : Type 0 where
  pub clock : ℕ
  -- `get_service_names_and_types_by_node`: the types of each service of the node.
  pub services : Text → Text → Result Text (Text → Option (List Text))
  pub create_list : Text → Result Text L
  pub create_get : Text → Result Text G

-- `types.iter().any(|kind| kind == "rcl_interfaces/srv/ListParameters")`
abbrev any_list_service : List Text → Bool
any_list_service [] = false
any_list_service (kind ∷ kinds) =
    decide (Text-discrete kind (ascii "rcl_interfaces/srv/ListParameters"))
    || any_list_service kinds

-- `services.get(&list).is_some_and(…)`
unfoldable pub offers : Option (List Text) → Bool
offers none = false
offers (some types) = any_list_service types

module _ {L G : Type 0} (startup : Startup L G) where
  -- The loop over the peers. `prefix` is the node's full name; a node without the service is skipped.
  unfoldable pub create_clients :
      (Text → Text → Text) → List (Text × Text) → Result Text (List (Peer L G))
  create_clients prefix [] = ok []
  create_clients prefix ((name, namespace) ∷ peers) =
      let rest = create_clients prefix peers in
      let list = prefix name namespace ++ ascii "/list_parameters" in
      let get = prefix name namespace ++ ascii "/get_parameters" in
      and_then (startup.services name namespace) λ services.
        if not (offers (services list))
        then rest
        else and_then (startup.create_list list) λ l. and_then (startup.create_get get) λ g.
          map_ok
            (λ clients.
              record {
                peer_name = name;
                peer_namespace = namespace;
                list_client = l;
                get_client = g;
              }
              ∷ clients)
            rest

-- `namespace.trim_end_matches('/')`
abbrev trim_byte : ℕ → Text → Text
trim_byte c [] = if c == 47 then [] else c ∷ []
trim_byte c (d ∷ rest) = c ∷ d ∷ rest

abbrev pub trim_end_slashes : Text → Text
trim_end_slashes [] = []
trim_end_slashes (c ∷ rest) = trim_byte c (trim_end_slashes rest)

-- `format!("{}/{name}", namespace.trim_end_matches('/'))`
abbrev pub node_prefix : Text → Text → Text
node_prefix name namespace = trim_end_slashes namespace ++ ascii "/" ++ name

-- `Poll::start`
unfoldable pub start :
    {L G PL PG : Type 0} → Startup L G → List (Text × Text) → Result Text (Poll L G PL PG)
start startup nodes =
    map_ok (λ clients. record { clients = clients; stage = ready; deadline = startup.clock + 3000 })
      (create_clients startup node_prefix (dedup le_pair (sort le_pair nodes)))

module _ {L G PL PG V : Type 0} (json : JsonMacro V) (answers : Answers L G PL PG) where
  abbrev pub Ticked : Type 0
  Ticked = Poll L G PL PG × Result Fault (Option (List (Parameter V)))

  -- The end of the first stage: the requests for lists are sent.
  unfoldable pub list_called : Poll L G PL PG → Result Text (List PL) → Ticked
  list_called poll (err e) = (poll, err (failed e))
  list_called poll (ok pending) = (
    record poll {
      stage = listing pending (no_results poll.clients);
      deadline = answers.restarted + 3000;
    },
    ok none,
  )

  unfoldable pub ready_checked : Poll L G PL PG → Result Text Bool → Ticked
  ready_checked poll (err e) = (poll, err (failed e))
  ready_checked poll (ok b) =
      if b
      then list_called poll (collect_calls (λ c. answers.list_call c.list_client) poll.clients)
      else (poll, ok none)

  -- `Stage::Ready`
  unfoldable pub tick_ready : Poll L G PL PG → Ticked
  tick_ready poll = ready_checked poll (all_ready answers poll.clients)

  -- The end of the second stage: the requests for values are sent.
  unfoldable pub get_called :
      Poll L G PL PG
      → List PL
      → List (Option (List Text))
      → List (List Text)
      → Result Text (List PG)
      → Ticked
  get_called poll pending results names (err e) =
      (record poll { stage = listing pending (no_results results) }, err (failed e))
  get_called poll pending results names (ok calls) = (
    record poll {
      stage = getting calls (no_results poll.clients) names;
      deadline = answers.restarted + 3000;
    },
    ok none,
  )

  -- Every client has answered: its names are sorted and asked for.
  unfoldable pub ask_values :
      Poll L G PL PG
      → List PL
      → List (Option (List Text))
      → Result Fault (List (List Text))
      → Ticked
  ask_values poll pending results (err fault) = (poll, err fault)
  ask_values poll pending results (ok lists) =
      let names = map sorted_names lists in
      get_called poll pending results names (call_get answers poll.clients names)

  unfoldable pub listed :
      Poll L G PL PG → List PL → List (Option (List Text)) → Result Text Bool → Ticked
  listed poll pending results (err e) =
      (record poll { stage = listing pending results }, err (failed e))
  listed poll pending results (ok complete) =
      if complete
      then ask_values (record poll { stage = listing pending results }) pending results
          (take_all results)
      else (record poll { stage = listing pending results }, ok none)

  -- `Stage::Listing`
  unfoldable pub tick_listing : Poll L G PL PG → List PL → List (Option (List Text)) → Ticked
  tick_listing poll pending results =
      let (results', complete) = collect_responses answers.list_recv pending results in
      listed poll pending results' complete

  unfoldable pub got :
      Poll L G PL PG
      → List PG
      → List (Option (List ParameterValue))
      → List (List Text)
      → Result Text Bool
      → Ticked
  got poll pending results names (err e) =
      (record poll { stage = getting pending results names }, err (failed e))
  got poll pending results names (ok complete) =
      let taken = snapshot_rows json poll.clients names results in
      if complete
      then (record poll { stage = getting pending taken.0 names }, map_ok some taken.1)
      else (record poll { stage = getting pending results names }, ok none)

  -- `Stage::Getting`
  unfoldable pub tick_getting :
      Poll L G PL PG → List PG → List (Option (List ParameterValue)) → List (List Text) → Ticked
  tick_getting poll pending results names =
      let (results', complete) = collect_responses answers.get_recv pending results in
      got poll pending results' names complete

  unfoldable pub tick_stage : Poll L G PL PG → Stage PL PG → Ticked
  tick_stage poll ready = tick_ready poll
  tick_stage poll (listing pending results) = tick_listing poll pending results
  tick_stage poll (getting pending results names) = tick_getting poll pending results names

  -- `Poll::tick`
  unfoldable pub tick : Poll L G PL PG → Ticked
  tick poll =
      if leb poll.deadline answers.now
      then (poll, err (failed (timed_out (stage_name poll.stage))))
      else tick_stage poll poll.stage
