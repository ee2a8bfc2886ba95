-- ===== src/Publishing/Delivery/Run.antt =====
-- src/publish.rs: `run` sends one sample and keeps the cache right.
use pg_ros.Base.{
  ℕ, ◌≡◌, ◌∙◌, inl, inr, refl, Option, none, some, List, [], Text, ap, Result, ok, err,
  Result-cases, All,
}
use pg_ros.Base.Actions.{
  Ends, returned, raised, Ends-continue, Ends-returned, Ends-raised, Ends-both,
}
use pg_ros.Json.{Json}
use pg_ros.Message.{Message}
use pg_ros.Naming.{validate_topic}
use pg_ros.Naming.Grammar.{IsTopic, validate_topic_iff}
use pg_ros.Decoding.Scalar.{Numbers}
use pg_ros.Publishing.Rcl.{Rcl, PublishError}
use pg_ros.Publishing.Session.{
  Key, PublisherSession, publish_with_session, new_session, in_cell, with_new_session, with_session,
  run,
}
use pg_ros.Publishing.Delivery.{IsNetwork, Silent-with_error}
use pg_ros.Publishing.Delivery.Session.{SentAtMost}
use pg_ros.Publishing.Delivery.Cache.{IsMade, IsPublished, Agrees, publish_with_session-Ends}

module _ {W C X N K P J : Type 0} (rcl : Rcl W C X N K P) (numbers : Numbers J)
    (sent : W → List (P × Message)) (made : P → Text × K) (template : K → Message)
    (laws : IsNetwork rcl numbers sent made template) where
  -- Each publisher was made for its key.
  abbrev pub Kept : List (Key × P) → Type 0
  Kept = All (IsMade rcl numbers sent made template laws)

  abbrev Published : List (P × Message) → Text → Json J → Text → List (Key × P) → W → Type 0
  Published = IsPublished rcl numbers sent made template laws

  abbrev Sent : List (P × Message) → W → Type 0
  Sent = SentAtMost rcl numbers sent made template laws

  -- The publishers that the backend keeps.
  abbrev pub publishers_of : Option (PublisherSession C X N P) → List (Key × P)
  publishers_of none = []
  publishers_of (some session) = session.publishers

  abbrev Cell : Type 0
  Cell = Option (PublisherSession C X N P) × W

  -- How a call of `run` ends.
  abbrev Ran :
      Text
      → Option Text
      → Json J
      → List (P × Message)
      → List (Key × P)
      → Result PublishError Text × Cell
      → Type 0
  Ran topic message_type json log publishers =
      Ends
        (λ t (s : Cell). Agrees message_type t × Published log topic json t (publishers_of s.0) s.1)
        (λ e (s : Cell). (publishers_of s.0 ≡ publishers) × Sent log s.1)

  in_cell-Ran :
      (topic : Text) (message_type : Option Text) (json : Json J) (log : List (P × Message))
      (session : PublisherSession C X N P)
      {r : Result PublishError Text × (PublisherSession C X N P × W)}
      → Ends
          (λ t (s : (PublisherSession C X N P × W)).
            Agrees message_type t × Published log topic json t s.0.publishers s.1)
          (λ e (s : (PublisherSession C X N P × W)). (s.0 ≡ session) × Sent log s.1)
          r
      → Ran topic message_type json log session.publishers (in_cell rcl numbers r)
  in_cell-Ran topic message_type json log session (returned g) = returned g
  in_cell-Ran topic message_type json log session (raised b) =
      raised (ap (λ (s : PublisherSession C X N P). s.publishers) b.0, b.1)

  new_session-Ends :
      (w : W) (log : List (P × Message))
      → sent w ≡ log
      → Ends
          (λ session w'. (sent w' ≡ log) × (session.publishers ≡ []))
          (λ e w'. sent w' ≡ log)
          (new_session rcl w)
  unfolding new_session
  new_session-Ends w log h =
      Ends-continue
        (Silent-with_error rcl numbers sent made template laws _ (rcl.ros_context w)
          (laws.context_quiet w ∙ h))
        λ context w1 h1.
          Ends-continue
            (Silent-with_error rcl numbers sent made template laws _
              (rcl.create_node _ _ (rcl.create_basic_executor context w1).1)
              (laws.node_quiet _ _ _ ∙ laws.executor_quiet context w1 ∙ h1))
            λ node w2 h2. returned (h2, refl)

  with_session-Ran :
      (fuel : ℕ) (topic : Text) (message_type : Option Text) (json : Json J)
      (session : Option (PublisherSession C X N P)) (w : W)
      → Kept (publishers_of session)
      → Ran topic message_type json (sent w) (publishers_of session) (
          with_session rcl numbers
            (publish_with_session rcl numbers fuel topic message_type json)
            (session, w))
  unfolding with_session
  with_session-Ran fuel topic message_type json (some session) w all =
      in_cell-Ran topic message_type json (sent w) session (
        publish_with_session-Ends rcl numbers sent made template laws fuel topic message_type json
          session w (sent w) all refl)
  with_session-Ran fuel topic message_type json none w all =
      fresh (new_session rcl w) (new_session-Ends w (sent w) refl)
    where
      fresh :
          (r : Result PublishError (PublisherSession C X N P) × W)
          → Ends
              (λ session w'. (sent w' ≡ sent w) × (session.publishers ≡ []))
              (λ e w'. sent w' ≡ sent w)
              r
          → Ran topic message_type json (sent w) [] (
              with_new_session rcl numbers r
                (publish_with_session rcl numbers fuel topic message_type json))
      fresh (ok session, w1) (returned g) = rw (← g.1) (
          in_cell-Ran topic message_type json (sent w) session (
            publish_with_session-Ends rcl numbers sent made template laws fuel topic message_type
              json session w1 (sent w) (rw g.1 tt) g.0))
      fresh (err e, w1) (raised b) = raised (refl, inl b)

  run-Ran :
      (fuel : ℕ) (topic : Text) (message_type : Option Text) (json : Json J)
      (session : Option (PublisherSession C X N P)) (w : W)
      → Kept (publishers_of session)
      → Ran topic message_type json
          (sent w)
          (publishers_of session)
          (run rcl numbers fuel topic message_type json (session, w))
  unfolding run
  run-Ran fuel topic message_type json session w all = elim (Result-cases (validate_topic topic)) [
    | inl (u, v) ↦ rw v (with_session-Ran fuel topic message_type json session w all)
    | inr (e, v) ↦ rw v (raised (refl, inl refl))
  ]

  run-IsTopic :
      (fuel : ℕ) (topic : Text) (message_type : Option Text) (json : Json J) (s : Cell) (t : Text)
      → (run rcl numbers fuel topic message_type json s).0 ≡ ok t
      → IsTopic topic
  unfolding run
  run-IsTopic fuel topic message_type json s t e = elim (Result-cases (validate_topic topic)) [
    | inl (u, v) ↦ (validate_topic_iff topic).0 v
    | inr (x, v) ↦ absurd (err-ok (rw v at e))
  ]
    where
      err-ok : {x : PublishError} → ¬ (◌≡◌ {A = Result PublishError Text} (err x) (ok t))
      err-ok e = cc

  -- A call that returns the type `t` was given a ROS name and the type `t` or none. It has sent exactly
  -- one sample: the message that the JSON value makes of a new message of the type, and of that type
  -- still, by a publisher for the topic and the type. The session keeps that publisher under the topic
  -- and the type, and each of its publishers was made for its key, if that was so before the call.
  pub run-IsPublished :
      (fuel : ℕ) (topic : Text) (message_type : Option Text) (json : Json J)
      (session : Option (PublisherSession C X N P)) (w : W) (t : Text)
      → Kept (publishers_of session)
      → (run rcl numbers fuel topic message_type json (session, w)).0 ≡ ok t
      → let (r, s) = run rcl numbers fuel topic message_type json (session, w) in
        IsTopic topic
        × Agrees message_type t
        × Published (sent w) topic json t (publishers_of s.0) s.1
  run-IsPublished fuel topic message_type json session w t all e =
      let h = run-Ran fuel topic message_type json session w all in
      let (agrees, published) = Ends-returned _ h e in
      (run-IsTopic fuel topic message_type json (session, w) t e, agrees, published)

  -- A call that fails, or is cancelled, leaves the publishers of the session as they were, and has sent
  -- at most one sample.
  pub run-err :
      (fuel : ℕ) (topic : Text) (message_type : Option Text) (json : Json J)
      (session : Option (PublisherSession C X N P)) (w : W) (e : PublishError)
      → Kept (publishers_of session)
      → (run rcl numbers fuel topic message_type json (session, w)).0 ≡ err e
      → let (r, s) = run rcl numbers fuel topic message_type json (session, w) in
        (publishers_of s.0 ≡ publishers_of session) × Sent (sent w) s.1
  run-err fuel topic message_type json session w e all x =
      Ends-raised _ (run-Ran fuel topic message_type json session w all) x

  -- Every call keeps each publisher under the topic and the type that it was made for.
  pub run-IsMade :
      (fuel : ℕ) (topic : Text) (message_type : Option Text) (json : Json J)
      (session : Option (PublisherSession C X N P)) (w : W)
      → Kept (publishers_of session)
      → Kept (publishers_of (run rcl numbers fuel topic message_type json (session, w)).1.0)
  run-IsMade fuel topic message_type json session w all =
      Ends-both _ (run-Ran fuel topic message_type json session w all)
        (λ t s (a, (kind, publisher, k, d, found, made_for)). made_for) (λ e s b. rw b.0 all)
