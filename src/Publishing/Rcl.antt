-- ===== src/Publishing/Rcl.antt =====
-- What src/publish.rs calls: rclrs, the clock and PostgreSQL's interrupts. `W` is the state of the
-- world that they act on; the handles are rclrs's own types.
use pg_ros.Base.{ℕ, Option, List, Text, Result, ok, err}
use pg_ros.Base.Actions.{Action}
use pg_ros.ErrorText.{Error, describe}
use pg_ros.Message.{Message}
use pg_ros.Naming.{NameError}
use pg_ros.Decoding.Scalar.{DecodeError}

-- Instants and durations are in nanoseconds. Not every call fails: `now` and
-- `create_basic_executor` are functions of the world.
pub record Rcl (World Context Executor Node Kind Publisher : Type 0) : Type 0 where
  -- `Instant::now`
  pub now : World → ℕ × World
  -- `check_for_interrupts!`: an error is a cancellation, which leaves the function at once.
  pub interrupted : Action World Text (Unit {0})
  -- `spin` with a timeout, after `timeout_ok` and `first_error`.
  pub spin : Executor → ℕ → Action World Error (Unit {0})
  -- `ros_context`, `create_basic_executor`, `create_node` and `std::process::id`.
  pub ros_context : Action World Error Context
  pub create_basic_executor : Context → World → Executor × World
  pub create_node : Executor → Text → Action World Error Node
  pub process_id : ℕ
  pub get_topic_names_and_types : Node → Action World Error (Text → Option (List Text))
  -- `MessageTypeName::try_from`, `DynamicMessage::new`.
  pub message_type_name : Text → Result Error Kind
  pub new_message : Kind → Action World Error Message
  -- `create_dynamic_publisher`, with a history of the last ten samples.
  pub create_dynamic_publisher : Node → Kind → Text → Action World Error Publisher
  pub get_subscription_count : Publisher → Action World Error ℕ
  pub publish : Publisher → Message → Action World Error (Unit {0})

-- The errors of `run`, which the code has as their texts.
pub data PublishError : Type 0 where
  invalid_name : NameError → PublishError
  failed : Text → PublishError
  bad_message : DecodeError → PublishError
  -- "topic has multiple message types; a unique type is required"
  many_types : PublishError
  -- "topic {topic} has no unique advertised message type; …"
  no_type : Text → PublishError
  -- "{} (message packages are resolved from the database server's AMENT_PREFIX_PATH; …)"
  unresolved : Text → PublishError
  -- The backend's statement was cancelled.
  cancelled : Text → PublishError
  -- No error of the code: a loop was given too few rounds.
  out_of_fuel : PublishError

abbrev pub with_error {ℓ κ ι μ} :
    {S : Type ℓ} {E : Type κ} {E' : Type ι} {A : Type μ}
    → (E → E')
    → Result E A × S
    → Result E' A × S
with_error f (ok a, s) = (ok a, s)
with_error f (err e, s) = (err (f e), s)

-- `map_err` on the result of a call.
abbrev pub map_err {ℓ κ ι μ} :
    {S : Type ℓ} {E : Type κ} {E' : Type ι} {A : Type μ} → (E → E') → Action S E A → Action S E' A
map_err f m s = with_error f (m s)

-- `map_err(|error| crate::describe(&error))`
abbrev pub described {ℓ κ} : {S : Type ℓ} {A : Type κ} → Action S Error A → Action S PublishError A
described m = map_err (λ e. failed (describe e)) m
