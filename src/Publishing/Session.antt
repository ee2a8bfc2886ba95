-- ===== src/Publishing/Session.antt =====
-- src/publish.rs: `PublisherSession`, `with_session`, `publish_with_session`, `build_message` and `run`.
-- The thread's cell and the world are the state. An error leaves the session as the code leaves it; so
-- does a cancellation, which jumps out of the same calls.
use pg_ros.Base.{
  ℕ, Option, none, some, List, [], ◌∷◌, ◌++◌, Text, Text-discrete, ascii, Result, ok, err,
}
use pg_ros.Base.Actions.{Action, pure, ◌>>=◌, lift}
use pg_ros.Base.Int.{decimal}
use pg_ros.ErrorText.{describe}
use pg_ros.Json.{Json}
use pg_ros.Message.{Message}
use pg_ros.Naming.{validate_topic}
use pg_ros.Decoding.Scalar.{Numbers}
use pg_ros.Decoding.Decode.{decode}
use pg_ros.Publishing.Rcl.{
  Rcl, PublishError, invalid_name, failed, bad_message, unresolved, map_err, described,
}
use pg_ros.Publishing.Loops.{
  discover_type, wait_for_subscriber, flush_executor, flush_span, cached_flush_span,
}

-- A topic and a message type.
abbrev pub Key : Type 0
Key = Text × Text

unfoldable pub Key-discrete : Discrete Key
Key-discrete = hlevel Text-discrete

-- `publishers` maps a key to its newest entry.
pub record PublisherSession (C X N P : Type 0) : Type 0 where
  pub node : N
  pub executor : X
  pub publishers : List (Key × P)
  pub context : C

-- `publishers.get(&key)`
unfoldable pub get_publisher {ℓ} : {P : Type ℓ} → Key → List (Key × P) → Option P
unfolding Key-discrete
get_publisher key [] = none
get_publisher key ((key', publisher) ∷ rest) = elim (Key-discrete key' key) [
  | yes _ ↦ some publisher
  | no _ ↦ get_publisher key rest
]

module _ {W C X N K P : Type 0} (rcl : Rcl W C X N K P) where
  abbrev pub Session : Type 0
  Session = PublisherSession C X N P

  -- `PublisherSession::new`
  unfoldable pub new_session : Action W PublishError Session
  new_session = do
    context ← described rcl.ros_context
    executor ← λ w. let (x, w') = rcl.create_basic_executor context w in pure x w'
    node ←
        described (rcl.create_node executor (ascii "pg_ros2_publisher_" ++ decimal rcl.process_id))
    pure (record { node = node; executor = executor; publishers = []; context = context })

  -- A call on the world inside a session.
  abbrev pub on_world {ℓ} :
      {A : Type ℓ} → Action W PublishError A → Action (Session × W) PublishError A
  on_world m (session, w) = let (r, w') = m w in (r, (session, w'))

  -- `match message_type`
  unfoldable pub resolve_type : ℕ → Session → Text → Option Text → Action W PublishError Text
  resolve_type fuel session topic (some message_type) = pure message_type
  resolve_type fuel session topic none = discover_type rcl fuel session.node topic session.executor

  module _ {J : Type 0} (numbers : Numbers J) where
    unfoldable pub build_message : K → Json J → Action W PublishError Message
    build_message kind message = do
      dynamic ← described (rcl.new_message kind)
      map_err bad_message (lift (decode numbers dynamic message))

    -- The branch on a publisher of an earlier call.
    unfoldable pub publish_cached : ℕ → Session → P → K → Json J → Action W PublishError (Unit {0})
    publish_cached fuel session publisher kind message = do
      dynamic ← build_message kind message
      u ← wait_for_subscriber rcl fuel publisher session.executor
      v ← described (rcl.publish publisher dynamic)
      flush_executor rcl fuel session.executor cached_flush_span

    -- The rest of the function, up to the insertion.
    unfoldable pub publish_new : ℕ → Session → Text → K → Json J → Action W PublishError P
    publish_new fuel session topic kind message = do
      dynamic ← build_message kind message
      publisher ←
          map_err (λ e. unresolved (describe e))
            (rcl.create_dynamic_publisher session.node kind topic)
      u ← wait_for_subscriber rcl fuel publisher session.executor
      v ← described (rcl.publish publisher dynamic)
      w ← flush_executor rcl fuel session.executor flush_span
      pure publisher

    -- `publishers.insert(key, …)`
    abbrev pub insert_publisher : Key → P → Session → Session
    insert_publisher key publisher session = record session {
      publishers = (key, publisher) ∷ session.publishers;
    }

    -- `if let Some(cached) = …` and what follows it.
    unfoldable pub publish_kind :
        ℕ → Text → Text → K → Json J → Option P → Action (Session × W) PublishError Text
    publish_kind fuel topic resolved kind message (some cached) (session, w) =
        (on_world (publish_cached fuel session cached kind message) >>= λ u. pure resolved)
          (session, w)
    publish_kind fuel topic resolved kind message none (session, w) =
        (on_world (publish_new fuel session topic kind message) >>= λ publisher (session', w').
        pure resolved (insert_publisher (topic, resolved) publisher session', w'))
          (session, w)

    unfoldable pub publish_with_session :
        ℕ → Text → Option Text → Json J → Action (Session × W) PublishError Text
    publish_with_session fuel topic message_type message (session, w) =
        (do
          resolved ← on_world (resolve_type fuel session topic message_type)
          kind ← map_err (λ e. failed (describe e)) (lift (rcl.message_type_name resolved))
          publish_kind fuel topic resolved kind message
              (get_publisher (topic, resolved) session.publishers))
          (session, w)

    -- The cell after `action`, which had a session to work in.
    abbrev pub in_cell {ℓ} :
        {A : Type ℓ}
        → Result PublishError A × (Session × W)
        → Result PublishError A × (Option Session × W)
    in_cell (r, (session, w)) = (r, (some session, w))

    abbrev pub with_new_session {ℓ} :
        {A : Type ℓ}
        → Result PublishError Session × W
        → Action (Session × W) PublishError A
        → Result PublishError A × (Option Session × W)
    with_new_session (ok session, w) action = in_cell (action (session, w))
    with_new_session (err e, w) action = (err e, (none, w))

    unfoldable pub with_session {ℓ} :
        {A : Type ℓ}
        → Action (Session × W) PublishError A
        → Action (Option Session × W) PublishError A
    with_session action (some session, w) = in_cell (action (session, w))
    with_session action (none, w) = with_new_session (new_session w) action

    unfoldable pub run :
        ℕ → Text → Option Text → Json J → Action (Option Session × W) PublishError Text
    run fuel topic message_type message = do
      u ← map_err invalid_name (lift (validate_topic topic))
      with_session (publish_with_session fuel topic message_type message)
