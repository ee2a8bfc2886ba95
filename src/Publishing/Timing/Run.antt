-- ===== src/Publishing/Timing/Run.antt =====
-- src/publish.rs: a call of `run` comes to an end.
use pg_ros.Base.{ℕ, ◌<◌, ◌≢◌, Option, none, some, Text, Result, ok, err, arith, refl}
use pg_ros.Base.Actions.{
  Action, Ends, returned, raised, continue, Ends-continue, Ends-weaken, Ends-raised,
}
use pg_ros.ErrorText.{describe}
use pg_ros.Json.{Json}
use pg_ros.Naming.{validate_topic}
use pg_ros.Decoding.Scalar.{Numbers}
use pg_ros.Decoding.Decode.{decode}
use pg_ros.Publishing.Rcl.{
  Rcl, PublishError, invalid_name, failed, bad_message, unresolved, out_of_fuel, with_error,
}
use pg_ros.Publishing.Loops.{
  wait_for_subscriber, flush_executor, discovery, flush_span, cached_flush_span,
}
use pg_ros.Publishing.Session.{
  PublisherSession, new_session, resolve_type, build_message, publish_cached, publish_new,
  publish_kind, publish_with_session, in_cell, with_new_session, with_session, run,
}
use pg_ros.Publishing.Timing.{Facts, IsWorld, IsOutside, flush_executor-Stops}
use pg_ros.Publishing.Timing.Discovery.{discover_type-Ends, wait_for_subscriber-Stops}

-- The loops had enough fuel.
abbrev Finished : {S A : Type 0} → Result PublishError A × S → Type 0
Finished r = Ends (λ a s. Unit {0}) (λ e s. e ≢ out_of_fuel) r

Finished-with_error :
    {S A E : Type 0} (f : E → PublishError) (r : Result E A × S)
    → ((e : E) → f e ≢ out_of_fuel)
    → Finished (with_error f r)
Finished-with_error f (ok a, s) h = returned tt
Finished-with_error f (err e, s) h = raised (h e)

Finished-then :
    {S A B : Type 0} {r : Result PublishError A × S} {f : A → Action S PublishError B}
    → Finished r
    → ((a : A) (s : S) → Finished (f a s))
    → Finished (continue r f)
Finished-then h k = Ends-continue h λ a s u. k a s

Outside-fuel : (e : PublishError) → IsOutside e → e ≢ out_of_fuel
Outside-fuel e h x = rw x at h

Finished-Ends :
    {S A : Type 0} {Good : A → S → Type 0} {Bad : PublishError → S → Type 0}
    {r : Result PublishError A × S}
    → Ends Good Bad r
    → ((e : PublishError) (s : S) → Bad e s → e ≢ out_of_fuel)
    → Finished r
Finished-Ends h k = Ends-weaken h (λ a s g. tt) k

Finished-elsewhere :
    {S S' A : Type 0} {r : Result PublishError A × S} (s' : S') → Finished r → Finished (r.0, s')
Finished-elsewhere s' (returned h) = returned h
Finished-elsewhere s' (raised h) = raised h

module _ {W C X N K P J : Type 0} (rcl : Rcl W C X N K P) (facts : Facts W P)
    (laws : IsWorld rcl facts) (numbers : Numbers J) (fuel : ℕ) (enough : discovery < fuel) where
  resolve_type-Finished :
      (session : PublisherSession C X N P) (topic : Text) (message_type : Option Text) (w : W)
      → Finished (resolve_type rcl fuel session topic message_type w)
  unfolding resolve_type
  resolve_type-Finished session topic (some t) w = returned tt
  resolve_type-Finished session topic none w =
      Finished-Ends
        (discover_type-Ends rcl facts laws fuel session.node topic session.executor w enough)
        λ e s u x. rw x at u

  build_message-Finished :
      (kind : K) (json : Json J) (w : W) → Finished (build_message rcl numbers kind json w)
  unfolding build_message
  build_message-Finished kind json w =
      Finished-then
        (Finished-with_error (λ e. failed (describe e)) (rcl.new_message kind w) (λ e. cc))
        λ m s. Finished-with_error bad_message (decode numbers m json, s) (λ e. cc)

  wait-Finished :
      (publisher : P) (executor : X) (w : W)
      → Finished (wait_for_subscriber rcl fuel publisher executor w)
  wait-Finished publisher executor w =
      Finished-Ends
        (wait_for_subscriber-Stops rcl facts laws fuel publisher executor w (omega arith))
        λ e s. Outside-fuel e

  flush-Finished :
      (executor : X) (span : ℕ) (w : W)
      → span < fuel
      → Finished (flush_executor rcl fuel executor span w)
  flush-Finished executor span w h =
      Finished-Ends (flush_executor-Stops rcl facts laws fuel executor span w h)
        λ e s. Outside-fuel e

  publish_cached-Finished :
      (session : PublisherSession C X N P) (publisher : P) (kind : K) (json : Json J) (w : W)
      → Finished (publish_cached rcl numbers fuel session publisher kind json w)
  unfolding publish_cached
  publish_cached-Finished session publisher kind json w =
      Finished-then (build_message-Finished kind json w) λ m w1.
        Finished-then (wait-Finished publisher session.executor w1) λ u w2.
          Finished-then
            (Finished-with_error (λ e. failed (describe e)) (rcl.publish publisher m w2) (λ e. cc))
            λ v w3. flush-Finished session.executor cached_flush_span w3 (omega arith)

  publish_new-Finished :
      (session : PublisherSession C X N P) (topic : Text) (kind : K) (json : Json J) (w : W)
      → Finished (publish_new rcl numbers fuel session topic kind json w)
  unfolding publish_new
  publish_new-Finished session topic kind json w =
      Finished-then (build_message-Finished kind json w) λ m w1.
        Finished-then
          (Finished-with_error (λ e. unresolved (describe e))
            (rcl.create_dynamic_publisher session.node kind topic w1) (λ e. cc))
          λ p w2. Finished-then (wait-Finished p session.executor w2) λ u w3.
            Finished-then
              (Finished-with_error (λ e. failed (describe e)) (rcl.publish p m w3) (λ e. cc))
              λ v w4.
                Finished-then (flush-Finished session.executor flush_span w4 (omega arith))
                  λ x w5. returned tt

  publish_kind-Finished :
      (topic resolved : Text) (kind : K) (json : Json J) (found : Option P)
      (session : PublisherSession C X N P) (w : W)
      → Finished (publish_kind rcl numbers fuel topic resolved kind json found (session, w))
  unfolding publish_kind
  publish_kind-Finished topic resolved kind json (some cached) session w =
      Finished-then (Finished-elsewhere _ (publish_cached-Finished session cached kind json w))
        λ u s. returned tt
  publish_kind-Finished topic resolved kind json none session w =
      Finished-then (Finished-elsewhere _ (publish_new-Finished session topic kind json w))
        λ u s. returned tt

  publish_with_session-Finished :
      (topic : Text) (message_type : Option Text) (json : Json J)
      (session : PublisherSession C X N P) (w : W)
      → Finished (publish_with_session rcl numbers fuel topic message_type json (session, w))
  unfolding publish_with_session
  publish_with_session-Finished topic message_type json session w =
      Finished-then (Finished-elsewhere _ (resolve_type-Finished session topic message_type w))
        λ t s.
          Finished-then
            (Finished-with_error (λ e. failed (describe e)) (rcl.message_type_name t, s) (λ e. cc))
            λ kind s'. publish_kind-Finished topic t kind json _ s'.0 s'.1

  in_cell-Finished :
      {A : Type 0} {r : Result PublishError A × (PublisherSession C X N P × W)}
      → Finished r
      → Finished (in_cell rcl numbers r)
  in_cell-Finished (returned u) = returned tt
  in_cell-Finished (raised h) = raised h

  new_session-Finished : (w : W) → Finished (new_session rcl w)
  unfolding new_session
  new_session-Finished w =
      Finished-then (Finished-with_error (λ e. failed (describe e)) (rcl.ros_context w) (λ e. cc))
        λ context w1.
          Finished-then
            (Finished-with_error (λ e. failed (describe e)) (rcl.create_node _ _ _) (λ e. cc))
            λ node w2. returned tt

  with_session-Finished :
      (topic : Text) (message_type : Option Text) (json : Json J)
      (session : Option (PublisherSession C X N P)) (w : W)
      → Finished (
          with_session rcl numbers
            (publish_with_session rcl numbers fuel topic message_type json)
            (session, w))
  unfolding with_session
  with_session-Finished topic message_type json (some session) w =
      in_cell-Finished (publish_with_session-Finished topic message_type json session w)
  with_session-Finished topic message_type json none w =
      fresh (new_session rcl w) (new_session-Finished w)
    where
      fresh :
          (r : Result PublishError (PublisherSession C X N P) × W)
          → Finished r
          → Finished (
              with_new_session rcl numbers r
                (publish_with_session rcl numbers fuel topic message_type json))
      fresh (ok session, w1) u =
          in_cell-Finished (publish_with_session-Finished topic message_type json session w1)
      fresh (err e, w1) (raised h) = raised h

  -- With more rounds for each loop than the five seconds of `discovery` have nanoseconds, a call of `run`
  -- ends, and none of its loops is cut short.
  pub run-out_of_fuel :
      (topic : Text) (message_type : Option Text) (json : Json J)
      (session : Option (PublisherSession C X N P)) (w : W)
      → (run rcl numbers fuel topic message_type json (session, w)).0 ≢ err out_of_fuel
  unfolding run
  run-out_of_fuel topic message_type json session w e =
      Ends-raised _
        (Finished-then
          (Finished-with_error invalid_name (validate_topic topic, (session, w)) (λ x. cc))
          λ u s. with_session-Finished topic message_type json s.0 s.1)
        e refl
