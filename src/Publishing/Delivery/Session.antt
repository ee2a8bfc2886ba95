-- ===== src/Publishing/Delivery/Session.antt =====
-- src/publish.rs: what a call of `run` has sent, and what it keeps.
use pg_ros.Base.{
  ℕ, ◌≡◌, ◌⊎◌, ◌∙◌, inl, inr, refl, List, ◌∷◌, Text, Result, ok, err, Result-cases, sym,
}
use pg_ros.Base.Actions.{Action, Ends, returned, raised, continue, Ends-continue, Ends-weaken}
use pg_ros.ErrorText.{Error, describe}
use pg_ros.Json.{Json}
use pg_ros.Message.{Message}
use pg_ros.Decoding.Scalar.{Numbers}
use pg_ros.Decoding.Decode.{decode}
use pg_ros.Decoding.Typed.{HasType}
use pg_ros.Decoding.Typed.Decode.{decode-HasType}
use pg_ros.Publishing.Rcl.{
  Rcl, PublishError, failed, bad_message, unresolved, with_error, described,
}
use pg_ros.Publishing.Loops.{wait_for_subscriber, flush_span, cached_flush_span}
use pg_ros.Publishing.Session.{PublisherSession, build_message, publish_cached, publish_new}
use pg_ros.Publishing.Delivery.{
  IsNetwork, Silent, wait_for_subscriber-Silent, flush_executor-Silent,
}

module _ {W C X N K P J : Type 0} (rcl : Rcl W C X N K P) (numbers : Numbers J)
    (sent : W → List (P × Message)) (made : P → Text × K) (template : K → Message)
    (laws : IsNetwork rcl numbers sent made template) where
  -- At most one sample more than before.
  abbrev pub SentAtMost : List (P × Message) → W → Type 0
  SentAtMost log w = (sent w ≡ log) ⊎ ((sample : P × Message) × (sent w ≡ sample ∷ log))

  -- The message is what the JSON value makes of a new message of the type.
  abbrev pub IsBuilt : K → Json J → Message → Type 0
  IsBuilt kind json m =
      (new : Message) × (decode numbers new json ≡ ok m) × HasType numbers (template kind) m

  -- Exactly one sample more: the message that the JSON value stands for, by a publisher of the topic
  -- and the type.
  abbrev pub IsDelivered : List (P × Message) → Text → K → Json J → P → W → Type 0
  IsDelivered log topic kind json publisher w =
      (m : Message) × (sent w ≡ (publisher, m) ∷ log)
      × (made publisher ≡ (topic, kind))
      × IsBuilt kind json m

  pub Silent-Ends :
      {A : Type 0} {log : List (P × Message)} {r : Result PublishError A × W}
      → Silent rcl numbers sent made template laws log r
      → Ends (λ a w. sent w ≡ log) (λ e w. SentAtMost log w) r
  Silent-Ends h = Ends-weaken h (λ a w e. e) (λ e w l. inl l)

  decoded-Ends :
      (kind : K) (json : Json J) (new : Message) (log : List (P × Message)) (w : W)
      → HasType numbers (template kind) new
      → sent w ≡ log
      → Ends
          (λ m w'. (sent w' ≡ log) × IsBuilt kind json m)
          (λ e w'. SentAtMost log w')
          (with_error bad_message (decode numbers new json, w))
  decoded-Ends kind json new log w typed h = elim (Result-cases (decode numbers new json)) [
    | inl (m, e) ↦
        rw e (returned (h, (new, e, decode-HasType numbers (template kind) new m json typed e)))
    | inr (x, e) ↦ rw e (raised (inl h))
  ]

  build_message-Ends :
      (kind : K) (json : Json J) (log : List (P × Message)) (w : W)
      → sent w ≡ log
      → Ends
          (λ m w'. (sent w' ≡ log) × IsBuilt kind json m)
          (λ e w'. SentAtMost log w')
          (build_message rcl numbers kind json w)
  unfolding build_message
  build_message-Ends kind json log w h =
      Ends-continue
        (new_typed (rcl.new_message kind w) (laws.new_message_quiet kind w ∙ h)
          (laws.message_typed kind w))
        λ new w' t. decoded-Ends kind json new log w' t.1 t.0
    where
      new_typed :
          (r : Result Error Message × W)
          → sent r.1 ≡ log
          → Ends (λ m w'. HasType numbers (template kind) m) (λ e w'. Unit {0}) r
          → Ends
              (λ m w'. (sent w' ≡ log) × HasType numbers (template kind) m)
              (λ e w'. SentAtMost log w')
              (with_error (λ e. failed (describe e)) r)
      new_typed (ok m, w) h (returned t) = returned (h, t)
      new_typed (err e, w) h t = raised (inl h)

  -- Publishing a built message, where `last` drains the executor and returns.
  send-Ends :
      {A : Type 0} (fuel : ℕ) (executor : X) (topic : Text) (kind : K) (json : Json J)
      (publisher : P) (m : Message) (last : Action W PublishError A) (Q : A → Type 0)
      (log : List (P × Message)) (w : W)
      → sent w ≡ log
      → made publisher ≡ (topic, kind)
      → IsBuilt kind json m
      → ((w' : W)
          → sent w' ≡ (publisher, m) ∷ log
          → Ends
              (λ a w''. (sent w'' ≡ (publisher, m) ∷ log) × Q a)
              (λ e w''. sent w'' ≡ (publisher, m) ∷ log)
              (last w'))
      → Ends
          (λ a w'. IsDelivered log topic kind json publisher w' × Q a)
          (λ e w'. SentAtMost log w')
          (continue
            (wait_for_subscriber rcl fuel publisher executor w)
            λ u w1. continue (described (rcl.publish publisher m) w1) λ v. last)
  send-Ends fuel executor topic kind json publisher m last Q log w h p b drain =
      Ends-continue
        (Silent-Ends (
          wait_for_subscriber-Silent rcl numbers sent made template laws fuel publisher executor w
            h))
        λ u w1 h1.
          Ends-continue (published (rcl.publish publisher m w1) w1 h1 (laws.publish_sends _ m w1))
            λ v w2 h2.
              Ends-weaken (drain w2 h2) (λ a w3 h3. ((m, h3.0, p, b), h3.1))
                (λ e w3 h3. inr ((publisher, m), h3))
    where
      published :
          (r : Result Error (Unit {0}) × W) (before : W)
          → sent before ≡ log
          → Ends (λ u w'. sent w' ≡ (publisher, m) ∷ sent before) (λ e w'. sent w' ≡ sent before) r
          → Ends
              (λ u w'. sent w' ≡ (publisher, m) ∷ log)
              (λ e w'. SentAtMost log w')
              (with_error (λ e. failed (describe e)) r)
      published (ok u, w) before h (returned s) = returned (rw (sym h) s)
      published (err e, w) before h (raised s) = raised (inl (s ∙ h))

  pub publish_cached-Ends :
      (fuel : ℕ) (session : PublisherSession C X N P) (topic : Text) (publisher : P) (kind : K)
      (json : Json J) (log : List (P × Message)) (w : W)
      → sent w ≡ log
      → made publisher ≡ (topic, kind)
      → Ends
          (λ u w'. IsDelivered log topic kind json publisher w')
          (λ e w'. SentAtMost log w')
          (publish_cached rcl numbers fuel session publisher kind json w)
  unfolding publish_cached
  publish_cached-Ends fuel session topic publisher kind json log w h p =
      Ends-continue (build_message-Ends kind json log w h) λ m w' b.
        Ends-weaken
          (send-Ends fuel session.executor topic kind json publisher m _ (λ u. Unit {0}) log w' b.0
            p b.1
            λ w1 h1.
              Ends-weaken
                (flush_executor-Silent rcl numbers sent made template laws fuel session.executor
                  cached_flush_span w1 h1)
                (λ u w2 h2. (h2, tt)) (λ e w2 h2. h2))
          (λ u w1 d. d.0) (λ e w1 d. d)

  pub publish_new-Ends :
      (fuel : ℕ) (session : PublisherSession C X N P) (topic : Text) (kind : K) (json : Json J)
      (log : List (P × Message)) (w : W)
      → sent w ≡ log
      → Ends
          (λ publisher w'. IsDelivered log topic kind json publisher w')
          (λ e w'. SentAtMost log w')
          (publish_new rcl numbers fuel session topic kind json w)
  unfolding publish_new
  publish_new-Ends fuel session topic kind json log w h =
      Ends-continue (build_message-Ends kind json log w h) λ m w1 b.
        Ends-continue
          (created (rcl.create_dynamic_publisher session.node kind topic w1)
            (laws.create_quiet session.node kind topic w1 ∙ b.0)
            (laws.created_for session.node kind topic w1))
          λ publisher w2 c.
            Ends-weaken
              (send-Ends fuel session.executor topic kind json publisher m _ (λ p. p ≡ publisher)
                log w2 c.0 c.1 b.1
                λ w3 h3.
                  Ends-continue
                    (flush_executor-Silent rcl numbers sent made template laws fuel session.executor
                      flush_span w3 h3)
                    λ u w4 h4. returned (h4, refl))
              (λ p w3 d. rw d.1 d.0) (λ e w3 d. d)
    where
      created :
          (r : Result Error P × W)
          → sent r.1 ≡ log
          → Ends (λ publisher w'. made publisher ≡ (topic, kind)) (λ e w'. Unit {0}) r
          → Ends
              (λ publisher w'. (sent w' ≡ log) × (made publisher ≡ (topic, kind)))
              (λ e w'. SentAtMost log w')
              (with_error (λ e. unresolved (describe e)) r)
      created (ok publisher, w) h (returned c) = returned (h, c)
      created (err e, w) h c = raised (inl h)
