-- ===== src/Parameters/Poll.antt =====
-- src/parameters.rs: `Poll` and its `tick`. What rclrs and the clock answer during a tick is a record;
-- clients and promises are abstract. Instants are milliseconds.
use pg_ros.Base.{
  ℕ, Bool, true, false, Option, none, some, List, [], ◌∷◌, ◌++◌, map, length, Text, ascii, Result,
  ok, err, map_ok, and_then, ◌==◌, if◌then◌else◌,
}
use pg_ros.Base.Order.{sort, dedup, le_text}
use pg_ros.Parameters.Value.{ParameterValue, JsonMacro, Parameter, value_of}

-- The error of a tick, or the panic of `unwrap`.
pub data Fault : Type 0 where
  failed : Text → Fault
  panicked : Fault

-- `(0..self.clients.len()).map(|_| None)`, and what `take` leaves of every result.
abbrev pub no_results {ℓ κ} : {A : Type ℓ} {T : Type κ} → List A → List (Option T)
no_results = map (λ _. none)

-- `.map(f).collect::<Result<Vec<_>, _>>()`
abbrev pub collect_calls {ℓ κ} :
    {A : Type ℓ} {B : Type κ} → (A → Result Text B) → List A → Result Text (List B)
collect_calls f [] = ok []
collect_calls f (x ∷ xs) =
    let rest = collect_calls f xs in and_then (f x) λ y. map_ok (λ ys. y ∷ ys) rest

-- `results.iter().all(Option::is_some)`
abbrev pub all_some {ℓ} : {T : Type ℓ} → List (Option T) → Bool
all_some [] = true
all_some (none ∷ rs) = false
all_some (some t ∷ rs) = all_some rs

-- `result.take().unwrap()` for every result.
abbrev pub take_all {ℓ} : {T : Type ℓ} → List (Option T) → Result Fault (List T)
take_all [] = ok []
take_all (none ∷ rs) = err panicked
take_all (some t ∷ rs) = map_ok (λ ts. t ∷ ts) (take_all rs)

-- `*result = promise.try_recv()…?`, and the loop goes on.
abbrev pub received {ℓ} :
    {T : Type ℓ}
    → Result Text (Option T)
    → List (Option T)
    → List (Option T) × Result Text (Unit {0})
    → List (Option T) × Result Text (Unit {0})
received (ok got) results (results', later) = (got ∷ results', later)
received (err e) results later = (none ∷ results, err e)

module _ {P T : Type 0} (try_recv : P → Result Text (Option T)) where
  -- The loop of `collect`: what has been received so far is kept when a promise fails.
  unfoldable pub receive : List P → List (Option T) → List (Option T) × Result Text (Unit {0})
  receive [] rs = (rs, ok tt)
  receive (p ∷ ps) [] = ([], ok tt)
  receive (p ∷ ps) (some t ∷ rs) = let (rs', r) = receive ps rs in (some t ∷ rs', r)
  receive (p ∷ ps) (none ∷ rs) = received (try_recv p) rs (receive ps rs)

  -- `fn collect`
  unfoldable pub collect_responses : List P → List (Option T) → List (Option T) × Result Text Bool
  collect_responses pending results =
      let (results', r) = receive pending results in (results', map_ok (λ _. all_some results') r)

-- `names.sort(); names.dedup();`
abbrev pub sorted_names : List Text → List Text
sorted_names names = dedup le_text (sort le_text names)

-- `type Peer`
pub record Peer (L G : Type 0) : Type 0 where
  pub peer_name : Text
  pub peer_namespace : Text
  pub list_client : L
  pub get_client : G

-- `enum Stage`
pub data Stage (PL PG : Type 0) : Type 0 where
  ready : Stage PL PG
  listing : List PL → List (Option (List Text)) → Stage PL PG
  getting : List PG → List (Option (List ParameterValue)) → List (List Text) → Stage PL PG

-- `struct Poll`
pub record Poll (L G PL PG : Type 0) : Type 0 where
  pub clients : List (Peer L G)
  pub stage : Stage PL PG
  pub deadline : ℕ

-- What rclrs and the clock answer during a tick: a response is its list of names or of values.
pub record Answers (L G PL PG : Type 0) : Type 0 where
  pub now : ℕ
  pub restarted : ℕ
  pub list_is_ready : L → Result Text Bool
  pub get_is_ready : G → Result Text Bool
  pub list_call : L → Result Text PL
  pub get_call : G → List Text → Result Text PG
  pub list_recv : PL → Result Text (Option (List Text))
  pub get_recv : PG → Result Text (Option (List ParameterValue))

abbrev pub timed_out : Text → Text
timed_out stage = ascii "parameter " ++ stage ++ ascii " timed out after 3 seconds"

abbrev pub stage_name : {PL PG : Type 0} → Stage PL PG → Text
stage_name ready = ascii "service discovery"
stage_name (listing pending results) = ascii "list"
stage_name (getting pending results names) = ascii "get"

module _ {L G PL PG : Type 0} (answers : Answers L G PL PG) where
  -- The loop of the first stage: false where a service is not ready.
  unfoldable pub all_ready : List (Peer L G) → Result Text Bool
  all_ready [] = ok true
  all_ready (c ∷ cs) =
      let rest = all_ready cs in
      and_then (answers.list_is_ready c.list_client) λ list_ready.
        if list_ready
        then (and_then (answers.get_is_ready c.get_client)
            λ get_ready. if get_ready then rest else ok false)
        else ok false

  -- `self.clients.iter().zip(&names).map(…).collect()`
  unfoldable pub call_get : List (Peer L G) → List (List Text) → Result Text (List PG)
  call_get (c ∷ cs) (names ∷ rest) =
      let later = call_get cs rest in
      and_then (answers.get_call c.get_client names) λ p. map_ok (λ ps. p ∷ ps) later
  call_get [] names = ok []
  call_get (c ∷ cs) [] = ok []

-- A response is taken: its rows stand before the later ones, and after an error the loop is left.
abbrev pub take_rows :
    {V : Type 0}
    → Result Text (List (Parameter V))
    → List (Option (List ParameterValue))
    → List (Option (List ParameterValue)) × Result Fault (List (Parameter V))
    → List (Option (List ParameterValue)) × Result Fault (List (Parameter V))
take_rows (err e) results later = (none ∷ results, err (failed e))
take_rows (ok rows) results (results', later) =
    (none ∷ results', map_ok (λ more. rows ++ more) later)

module _ {L G V : Type 0} (json : JsonMacro V) where
  -- The inner loop: one row for each name and value.
  unfoldable pub client_rows :
      Peer L G → List Text → List ParameterValue → Result Text (List (Parameter V))
  client_rows c (name ∷ names) (v ∷ values) =
      let rest = client_rows c names values in
      and_then (value_of json v) λ (kind, value).
        map_ok
          (λ rows.
            record {
              node = c.peer_name;
              namespace = c.peer_namespace;
              name = name;
              kind = kind;
              value = value;
            }
            ∷ rows)
          rest
  client_rows c [] values = ok []
  client_rows c (name ∷ names) [] = ok []

  abbrev mismatch : Peer L G → Text
  mismatch c =
      c.peer_namespace ++ ascii "/" ++ c.peer_name ++ ascii ": parameter response length mismatch"

  unfoldable pub checked_rows :
      Peer L G → List Text → List ParameterValue → Result Text (List (Parameter V))
  checked_rows c names values =
      if length names == length values then client_rows c names values else err (mismatch c)

  -- The outer loop of the last stage, which takes each response; those after an error stay.
  unfoldable pub snapshot_rows :
      List (Peer L G)
      → List (List Text)
      → List (Option (List ParameterValue))
      → List (Option (List ParameterValue)) × Result Fault (List (Parameter V))
  snapshot_rows (c ∷ cs) (names ∷ rest) (none ∷ results) = (none ∷ results, err panicked)
  snapshot_rows (c ∷ cs) (names ∷ rest) (some values ∷ results) =
      take_rows (checked_rows c names values) results (snapshot_rows cs rest results)
  snapshot_rows [] names results = (results, ok [])
  snapshot_rows (c ∷ cs) [] results = (results, ok [])
  snapshot_rows (c ∷ cs) (names ∷ rest) [] = ([], ok [])
