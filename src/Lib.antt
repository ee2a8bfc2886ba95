-- ===== src/Lib.antt =====
-- Verification of pg_ros2, a PostgreSQL extension that mirrors the ROS 2 graph into tables, stores and
-- notifies messages, and publishes JSON as ROS messages.
--
-- The parts of the program and the modules that model them:
-- * src/naming.rs, and `validate_topic` of src/subscriptions.rs: Naming. Names are lists of UTF-8
--   bytes, and PostgreSQL's NAMEDATALEN is a parameter.
-- * src/subscriptions/json.rs, the bounded JSON encoder: Encoding. Encoding.Output has the writer
--   `Output` with `push`, `write_str`, `string`, `number` and `array`; Encoding.Encode has
--   `Output::message`, `Output::value` and `payload`. A method takes the writer and returns its result
--   with the writer as the call left it. Encoding.Tree says which JSON value a message stands for.
-- * src/publish/json.rs, the JSON decoder of `ros_publish`: Decoding. Decoding.Scalar reads single
--   values, Decoding.Loops has `fill_*`, `collect_*` and `resize`, Decoding.Simple, Decoding.Elements
--   and Decoding.Decode have `simple`, `array`, `sequence`, `bounded_sequence`, `value_mut`,
--   `message_view` and `decode`. A `&mut` slot is a value taken and a value returned.
-- * Both JSON files together: RoundTrip, which decodes what the encoder writes, the members of each
--   object in any order of their keys (RoundTrip.ByKey).
-- * src/lib.rs, the graph worker: Worker. Worker.Backoff has the interval between rebuilds of the ROS
--   context, Worker.Persist the transaction `persist_snapshot` on the tables of Tables, and
--   Worker.Session the part of a round of `run_session` that starts with `GraphSnapshot::read`.
--   Worker.Snapshot has `GraphSnapshot::read` itself. Worker.Pass has a pass of the loop of
--   `run_session`, which calls the message and the parameter parts, and Worker.Sessions the loop itself
--   and `run_observer`.
-- * src/parameters.rs, the parameter poll: Parameters. Parameters.Value has `value`, Parameters.Poll the
--   stages and the loops, Parameters.Tick `Poll::start` and `Poll::tick`, Parameters.Persist `persist`.
-- * src/messages.rs, table-backed subscriptions: Messages. Messages.Mailbox has the callback of
--   `subscribe`, Messages.Flush `flush`, Messages.Reading `read_desired`, Messages.Reconcile
--   `reconcile`, `resolve` and `subscribe`. Maps are association lists, and creating a subscription is
--   an argument.
-- * src/publish.rs, the session in which a backend publishes: Publishing. Publishing.Loops has
--   `discover` (`discover_type`), `wait_for_subscriber`, `flush` (`flush_executor`) and the spins,
--   Publishing.Session `PublisherSession`, `with_session`, `publish_with_session`, `build_message` and
--   `run`. The thread's cell is the state, next to the state of the world that rclrs, the clock and
--   PostgreSQL's interrupts act on (Publishing.Rcl.Rcl); a message is decoded by Decoding.Decode.decode.
-- * `subscribe` and `receive` of src/subscriptions.rs, the CALL that notifies the messages of one
--   topic: Listening. Listening.Call has `subscribe`, Listening.Receiver the callback and a round of
--   the loop. Callbacks run in the spin of the round; what a round meets is a record
--   (Listening.Receiver.Round), and the notifications, the commits and the warnings are the backend's
--   state.
-- * `describe` of src/lib.rs: ErrorText.
-- Message has the dynamic message values that the encoder takes apart, Json the JSON values and their
-- compact text, and Base the shared notions.
--
-- Code outside the repository is a parameter: serde_json's quoting of a string, the writes of a
-- float's and a ROS string's `Display` (Encoding.Encode.Formatter, with the laws that the encoder
-- needs in Encoding.Renders.IsFormatter), serde_json's numbers and the bounds that ROS strings are
-- checked against (Decoding.Scalar.Numbers, with the laws of the accessors in Decoding.Range.IsAccessed and those for
-- reading back in RoundTrip.IsReadable). What discovery, the clock and the lookup of the installed
-- extension return in a round or a pass is a record (Worker.Session.Round, Worker.Pass.Pass); what
-- rclrs answers to a poll is a record too (Parameters.Tick.Startup, Parameters.Poll.Answers).
--
-- Recursion is structural everywhere but in `Base.Int.decimal`, whose fuel is the number itself plus
-- one: `Base.Int.read_onto-decimal` shows that no digit is lost; and in the loops of src/publish.rs,
-- which are given a number of rounds. Each round but the last makes a spin that takes some time, so
-- more rounds than a loop's span has nanoseconds are enough (Publishing.Timing).
--
-- Not modelled: the definition of the settings and the registration of the worker in src/lib.rs,
-- PostgreSQL and DDS themselves, logging, signal handling, and the SQL text of the table definitions.

pub mod Base
pub mod Json
pub mod Message
pub mod Encoding
pub mod Decoding
pub mod Tables
pub mod Parameters
pub mod Worker
pub mod Messages
pub mod Naming
pub mod ErrorText
pub mod Publishing
pub mod Listening
pub mod RoundTrip
