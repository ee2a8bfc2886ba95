-- ===== src/Publishing/Delivery.antt =====
-- Which calls of src/publish.rs send a sample: the loops send none.
pub mod Session
pub mod Cache
pub mod Run
use Prim.Native.Nat.{min}
use pg_ros.Base.{
  ℕ, zero, suc, ◌-◌, ◌≡◌, ◌⊎◌, ◌∙◌, inl, inr, Bool-cases, Option, none, some, List, [], ◌∷◌, Text,
  Result, ok, err, leb, ◌==◌, if◌then◌else◌, refl,
}
use pg_ros.Base.Actions.{Action, Ends, returned, raised, continue, Ends-continue}
use pg_ros.ErrorText.{Error, describe}
use pg_ros.Message.{Message}
use pg_ros.Decoding.Scalar.{Numbers}
use pg_ros.Decoding.Typed.{HasType}
use pg_ros.Publishing.Rcl.{Rcl, PublishError, failed, cancelled, with_error, described, map_err}
use pg_ros.Publishing.Loops.{
  clock, spin_for, spin, spin_span, unique_type, discover_round, discover_loop, discover_type,
  discovery, wait_round, wait_loop, wait_for_subscriber, matching, flush_round, flush_loop,
  flush_executor,
}

-- `sent` is what has been sent, the latest first; `made` is the topic and the type that a publisher
-- was created for, and `template` a message of a type. Only `publish` sends, and only if it succeeds.
pub record IsNetwork {W C X N K P J : Type 0} (rcl : Rcl W C X N K P) (numbers : Numbers J)
    (sent : W → List (P × Message)) (made : P → Text × K) (template : K → Message) : Type 0 where
  pub now_quiet : (w : W) → sent (rcl.now w).1 ≡ sent w
  pub interrupted_quiet : (w : W) → sent (rcl.interrupted w).1 ≡ sent w
  pub spin_quiet :
      (executor : X) (timeout : ℕ) (w : W) → sent (rcl.spin executor timeout w).1 ≡ sent w
  pub context_quiet : (w : W) → sent (rcl.ros_context w).1 ≡ sent w
  pub executor_quiet : (c : C) (w : W) → sent (rcl.create_basic_executor c w).1 ≡ sent w
  pub node_quiet :
      (executor : X) (name : Text) (w : W) → sent (rcl.create_node executor name w).1 ≡ sent w
  pub topics_quiet : (node : N) (w : W) → sent (rcl.get_topic_names_and_types node w).1 ≡ sent w
  pub count_quiet :
      (publisher : P) (w : W) → sent (rcl.get_subscription_count publisher w).1 ≡ sent w
  pub new_message_quiet : (kind : K) (w : W) → sent (rcl.new_message kind w).1 ≡ sent w
  pub create_quiet :
      (node : N) (kind : K) (topic : Text) (w : W)
      → sent (rcl.create_dynamic_publisher node kind topic w).1 ≡ sent w
  pub message_typed :
      (kind : K) (w : W)
      → Ends (λ m w'. HasType numbers (template kind) m) (λ e w'. Unit {0}) (rcl.new_message kind w)
  pub created_for :
      (node : N) (kind : K) (topic : Text) (w : W)
      → Ends
          (λ publisher w'. made publisher ≡ (topic, kind))
          (λ e w'. Unit {0})
          (rcl.create_dynamic_publisher node kind topic w)
  pub publish_sends :
      (publisher : P) (message : Message) (w : W)
      → Ends
          (λ u w'. sent w' ≡ (publisher, message) ∷ sent w)
          (λ e w'. sent w' ≡ sent w)
          (rcl.publish publisher message w)

module _ {W C X N K P J : Type 0} (rcl : Rcl W C X N K P) (numbers : Numbers J)
    (sent : W → List (P × Message)) (made : P → Text × K) (template : K → Message)
    (laws : IsNetwork rcl numbers sent made template) where
  -- The action sends nothing, however it ends.
  abbrev pub Silent : {A : Type 0} → List (P × Message) → Result PublishError A × W → Type 0
  Silent log = Ends (λ a w. sent w ≡ log) (λ e w. sent w ≡ log)

  pub Silent-with_error :
      {A E : Type 0} {log : List (P × Message)} (f : E → PublishError) (r : Result E A × W)
      → sent r.1 ≡ log
      → Silent log (with_error f r)
  Silent-with_error f (ok a, w) h = returned h
  Silent-with_error f (err e, w) h = raised h

  spin_for-Silent :
      (executor : X) (timeout : ℕ) (w : W) {log : List (P × Message)}
      → sent w ≡ log
      → Silent log (spin_for rcl executor timeout w)
  unfolding spin_for
  spin_for-Silent executor timeout w h =
      Ends-continue (Silent-with_error cancelled (rcl.interrupted w) (laws.interrupted_quiet w ∙ h))
        λ u w' h'.
          Silent-with_error (λ e. failed (describe e)) (rcl.spin executor timeout w')
            (laws.spin_quiet executor timeout w' ∙ h')

  -- The rest of a loop after a spin.
  spin-Silent :
      {A : Type 0} (executor : X) (again : Action W PublishError A) (w : W)
      {log : List (P × Message)}
      → sent w ≡ log
      → ((w' : W) → sent w' ≡ log → Silent log (again w'))
      → Silent log (continue (spin rcl executor w) (λ u. again))
  unfolding spin
  spin-Silent executor again w h rest =
      Ends-continue (spin_for-Silent executor spin_span w h) λ u w' h'. rest w' h'

  unique_type-Silent :
      (types : List Text) (w : W) {log : List (P × Message)}
      → sent w ≡ log
      → Silent log (unique_type rcl types w)
  unique_type-Silent [] w h = raised h
  unique_type-Silent (kind ∷ []) w h = returned h
  unique_type-Silent (kind ∷ other ∷ kinds) w h = raised h

  discover_round-Silent :
      (executor : X) (topic : Text) (deadline : ℕ) (found : Option (List Text))
      (again : Action W PublishError Text) (w : W) {log : List (P × Message)}
      → sent w ≡ log
      → ((w' : W) → sent w' ≡ log → Silent log (again w'))
      → Silent log (discover_round rcl executor topic deadline found again w)
  unfolding discover_round
  discover_round-Silent executor topic deadline (some types) again w h rest =
      unique_type-Silent types w h
  discover_round-Silent executor topic deadline none again w h rest =
      let h' = laws.now_quiet w ∙ h in
      elim (Bool-cases (leb deadline (rcl.now w).0)) [
        | inl over ↦ rw over (raised h')
        | inr left ↦ rw left (spin-Silent executor again (rcl.now w).1 h' rest)
      ]

  discover_loop-Silent :
      (fuel : ℕ) (node : N) (topic : Text) (executor : X) (deadline : ℕ) (w : W)
      {log : List (P × Message)}
      → sent w ≡ log
      → Silent log (discover_loop rcl fuel node topic executor deadline w)
  unfolding discover_loop
  discover_loop-Silent zero node topic executor deadline w h = raised h
  discover_loop-Silent (suc fuel) node topic executor deadline w h =
      Ends-continue
        (Silent-with_error (λ e. failed (describe e)) (rcl.get_topic_names_and_types node w)
          (laws.topics_quiet node w ∙ h))
        λ topics w' h'.
          discover_round-Silent executor topic deadline (topics topic) _ w' h'
            λ w'' h''. discover_loop-Silent fuel node topic executor deadline w'' h''

  pub discover_type-Silent :
      (fuel : ℕ) (node : N) (topic : Text) (executor : X) (w : W) {log : List (P × Message)}
      → sent w ≡ log
      → Silent log (discover_type rcl fuel node topic executor w)
  unfolding discover_type
  discover_type-Silent fuel node topic executor w h =
      discover_loop-Silent fuel node topic executor _ _ (laws.now_quiet w ∙ h)

  wait_round-Silent :
      (executor : X) (deadline n : ℕ) (again : Action W PublishError (Unit {0})) (w : W)
      {log : List (P × Message)}
      → sent w ≡ log
      → ((w' : W) → sent w' ≡ log → Silent log (again w'))
      → Silent log (wait_round rcl executor deadline n again w)
  unfolding wait_round
  wait_round-Silent executor deadline (suc n) again w h rest = returned h
  wait_round-Silent executor deadline zero again w h rest =
      let h' = laws.now_quiet w ∙ h in
      elim (Bool-cases (leb deadline (rcl.now w).0)) [
        | inl over ↦ rw over (returned h')
        | inr left ↦ rw left (spin-Silent executor again (rcl.now w).1 h' rest)
      ]

  wait_loop-Silent :
      (fuel : ℕ) (publisher : P) (executor : X) (deadline : ℕ) (w : W) {log : List (P × Message)}
      → sent w ≡ log
      → Silent log (wait_loop rcl fuel publisher executor deadline w)
  unfolding wait_loop
  wait_loop-Silent zero publisher executor deadline w h = raised h
  wait_loop-Silent (suc fuel) publisher executor deadline w h =
      Ends-continue
        (Silent-with_error (λ e. failed (describe e)) (rcl.get_subscription_count publisher w)
          (laws.count_quiet publisher w ∙ h))
        λ n w' h'.
          wait_round-Silent executor deadline n _ w' h'
            λ w'' h''. wait_loop-Silent fuel publisher executor deadline w'' h''

  pub wait_for_subscriber-Silent :
      (fuel : ℕ) (publisher : P) (executor : X) (w : W) {log : List (P × Message)}
      → sent w ≡ log
      → Silent log (wait_for_subscriber rcl fuel publisher executor w)
  unfolding wait_for_subscriber
  wait_for_subscriber-Silent fuel publisher executor w h =
      wait_loop-Silent fuel publisher executor _ _ (laws.now_quiet w ∙ h)

  flush_loop-Silent :
      (fuel : ℕ) (executor : X) (deadline : ℕ) (w : W) {log : List (P × Message)}
      → sent w ≡ log
      → Silent log (flush_loop rcl fuel executor deadline w)
  unfolding flush_loop flush_round
  flush_loop-Silent zero executor deadline w h = raised h
  flush_loop-Silent (suc fuel) executor deadline w h =
      let h' = laws.now_quiet w ∙ h in
      let remaining = deadline - (rcl.now w).0 in
      elim (Bool-cases (remaining == 0)) [
        | inl over ↦ rw over (returned h')
        | inr left ↦ rw left (
            Ends-continue (spin_for-Silent executor (min remaining spin_span) (rcl.now w).1 h')
              λ u w' h''. flush_loop-Silent fuel executor deadline w' h'')
      ]

  pub flush_executor-Silent :
      (fuel : ℕ) (executor : X) (span : ℕ) (w : W) {log : List (P × Message)}
      → sent w ≡ log
      → Silent log (flush_executor rcl fuel executor span w)
  unfolding flush_executor
  flush_executor-Silent fuel executor span w h =
      flush_loop-Silent fuel executor _ _ (laws.now_quiet w ∙ h)
