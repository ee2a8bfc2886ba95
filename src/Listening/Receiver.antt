-- ===== src/Listening/Receiver.antt =====
-- src/subscriptions.rs: the callback and a round of the loop of `receive`. Instants are milliseconds.
-- The executor is rclrs's basic one, so callbacks run in its spin, on the thread of the loop; what a
-- round meets is a record. Counters are `u64`.
use pg_ros.Base.{
  ℕ, zero, suc, ◌+◌, ◌%◌, ◌^◌, Bool, true, false, ◌||◌, Option, none, some, List, [], ◌∷◌, ◌++◌,
  Text, Result, ok, err, and_then, leb, ltb, if◌then◌else◌, length,
}
use pg_ros.ErrorText.{Error, describe}
use pg_ros.Message.{Message}
use pg_ros.Encoding.Output.{EncodeError}
use pg_ros.Encoding.Encode.{Formatter, payload, notify_limit}

-- The errors of `receive`, which the code has as their texts.
pub data ReceiveError : Type 0 where
  failed : Text → ReceiveError
  -- "topic has multiple message types; a unique type is required"
  many_types : ReceiveError
  -- "{} (message packages are resolved from the database server's AMENT_PREFIX_PATH; …)"
  unresolved : Text → ReceiveError
  -- The CALL was cancelled.
  cancelled : ReceiveError

abbrev pub Payload : Type 0
Payload = Result EncodeError Text

-- The locals of `receive`, the channel's queue and the counter in the callback. A subscription is
-- known by its message type.
pub record Receiver : Type 0 where
  pub subscription : Option Text
  pub sequence : ℕ
  pub queue : List Payload
  pub dropped : ℕ
  pub next_discovery : ℕ
  pub next_report : ℕ
  pub encoding_errors : ℕ
  pub last_encoding_error : Option EncodeError

-- What `pgrx::warning!` reports.
pub record Warning : Type 0 where
  pub queue_drops : ℕ
  pub encoding_drops : ℕ
  pub last_error : Option EncodeError

-- The backend: the notifications that no `SPI_commit` has followed yet, the committed ones, and the
-- warnings, each in the order in which they came. The transactions themselves are not modelled.
pub record Backend : Type 0 where
  pub pending : List Text
  pub committed : List Text
  pub warnings : List Warning

-- `sync_channel(256)` and `take(256)`
abbrev pub capacity : ℕ
capacity = 256

-- The state before the loop, at the two readings of the clock.
abbrev pub started : ℕ → ℕ → Receiver
started now_discovery now_report = record {
  subscription = none;
  sequence = 0;
  queue = [];
  dropped = 0;
  next_discovery = now_discovery;
  next_report = now_report;
  encoding_errors = 0;
  last_encoding_error = none;
}

abbrev pub connected : Backend
connected = record { pending = []; committed = []; warnings = [] }

-- What a round meets: whether it is interrupted, how the spin ended and for which messages it ran the
-- callback, the graph, `MessageTypeName::try_from` and `create_dynamic_subscription`, and the clock at
-- each reading.
pub record Round : Type 0 where
  pub interrupted : Bool
  pub spun : Result Error (Unit {0})
  pub arrived : List Message
  pub now_discovery : ℕ
  pub topics : Result Error (Text → Option (List Text))
  pub message_type_name : Text → Result Error (Unit {0})
  pub create : Text → Result Error (Unit {0})
  pub now_discovered : ℕ
  pub now_report : ℕ
  pub now_reported : ℕ

abbrev pub take {ℓ} : {A : Type ℓ} → ℕ → List A → List A
take zero xs = []
take (suc n) [] = []
take (suc n) (x ∷ xs) = x ∷ take n xs

abbrev pub drop {ℓ} : {A : Type ℓ} → ℕ → List A → List A
drop zero xs = xs
drop (suc n) [] = []
drop (suc n) (x ∷ xs) = drop n xs

abbrev pub map_err {ℓ κ ι} :
    {E : Type ℓ} {E' : Type κ} {A : Type ι} → (E → E') → Result E A → Result E' A
map_err f (ok a) = ok a
map_err f (err e) = err (f e)

-- `try_send(payload)`, and the count of those that the full queue refuses.
unfoldable pub try_send : Payload → Receiver → Receiver
try_send p r =
    if ltb (length r.queue) capacity
    then record r { queue = r.queue ++ (p ∷ []) }
    else record r { dropped = (r.dropped + 1) % 2 ^ 64 }

-- The arm on a payload that was received; the flag is `notified`.
unfoldable pub handle : Payload → Receiver × Backend × Bool → Receiver × Backend × Bool
handle (ok text) (r, b, notified) = (r, record b { pending = b.pending ++ (text ∷ []) }, true)
handle (err e) (r, b, notified) = (
  record r { encoding_errors = (r.encoding_errors + 1) % 2 ^ 64; last_encoding_error = some e },
  b,
  notified,
)

unfoldable pub handle_all : List Payload → Receiver × Backend × Bool → Receiver × Backend × Bool
handle_all [] state = state
handle_all (p ∷ ps) state = handle_all ps (handle p state)

-- `SPI_commit` if something was notified.
unfoldable pub commit : Bool → Backend → Backend
commit true b = record b { pending = []; committed = b.committed ++ b.pending }
commit false b = b

-- The `for` over `try_iter().take(256)`, and the commit after it.
unfoldable pub drain : Receiver → Backend → Receiver × Backend
drain r b =
    let (r', b', notified) =
      handle_all (take capacity r.queue) (record r { queue = drop capacity r.queue }, b, false) in
    (r', commit notified b')

-- `if overflow > 0 || encoding_errors > 0`
unfoldable pub warn : Receiver → Backend → Backend
warn r b =
    if ltb 0 r.dropped || ltb 0 r.encoding_errors
    then record b {
      warnings =
          b.warnings
          ++ (record {
            queue_drops = r.dropped;
            encoding_drops = r.encoding_errors;
            last_error = r.last_encoding_error;
          }
              ∷ []);
    }
    else b

-- `if Instant::now() >= next_report`
unfoldable pub report : Round → Receiver → Backend → Receiver × Backend
report round r b =
    if leb r.next_report round.now_report
    then (
      record r {
        dropped = 0;
        encoding_errors = 0;
        last_encoding_error = none;
        next_report = round.now_reported + 1000;
      },
      warn r b,
    )
    else (r, b)

-- `types.len() != 1` and `types[0].clone()`
abbrev pub single_type : List Text → Result ReceiveError Text
single_type [] = err many_types
single_type (kind ∷ []) = ok kind
single_type (kind ∷ other ∷ kinds) = err many_types

-- `if let Some(types) = topics.get(topic)`
unfoldable pub subscribe_found :
    Round → Option (List Text) → Receiver → Result ReceiveError Receiver
subscribe_found round none r = ok r
subscribe_found round (some types) r = and_then (single_type types) λ message_type.
    and_then (map_err (λ e. failed (describe e)) (round.message_type_name message_type)) λ u.
      and_then (map_err (λ e. unresolved (describe e)) (round.create message_type))
        λ v. ok (record r { subscription = some message_type; sequence = 0 })

-- The branch on `subscription.is_none()`
unfoldable pub find_topic : Text → Round → Option Text → Receiver → Result ReceiveError Receiver
find_topic topic round (some message_type) r = ok r
find_topic topic round none r =
    if leb r.next_discovery round.now_discovery
    then and_then (map_err (λ e. failed (describe e)) round.topics) (λ topics.
      and_then (subscribe_found round (topics topic) r)
        (λ r'. ok (record r' { next_discovery = round.now_discovered + 1000 })))
    else ok r

module _ (f : Formatter) (topic : Text) where
  -- The callback, for one message.
  unfoldable pub callback : Text → Message → Receiver → Receiver
  callback message_type message r =
      try_send (payload f topic message_type r.sequence message notify_limit)
        (record r { sequence = (r.sequence + 1) % 2 ^ 64 })

  -- The callbacks of a spin; without a subscription there is none.
  unfoldable pub callbacks : Option Text → List Message → Receiver → Receiver
  callbacks none messages r = r
  callbacks (some message_type) [] r = r
  callbacks (some message_type) (message ∷ messages) r =
      callbacks (some message_type) messages (callback message_type message r)

  -- A round up to the channel: interrupts, the spin, and the search for the topic.
  unfoldable pub listen : Round → Receiver → Result ReceiveError Receiver
  listen round r =
      if round.interrupted
      then err cancelled
      else and_then (map_err (λ e. failed (describe e)) round.spun)
          λ u. find_topic topic round r.subscription (callbacks r.subscription round.arrived r)

  -- A round of the loop; an error ends the call.
  unfoldable pub receive_round :
      Round → Receiver × Backend → Result ReceiveError (Receiver × Backend)
  receive_round round (r, b) =
      and_then (listen round r) λ r1. let (r2, b2) = drain r1 b in ok (report round r2 b2)
