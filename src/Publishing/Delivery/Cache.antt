-- ===== src/Publishing/Delivery/Cache.antt =====
-- src/publish.rs: `publish_with_session` sends one sample, by the publisher that the cache has or gets.
use pg_ros.Base.{
  ℕ, ◌≡◌, ◌⊎◌, ◌∙◌, inl, inr, refl, sym, Option, none, some, List, [], ◌∷◌, Text, Result, ok,
  Result-cases, All,
}
use pg_ros.Base.Actions.{Ends, returned, raised, Ends-continue, Ends-weaken}
use pg_ros.ErrorText.{Error}
use pg_ros.Json.{Json}
use pg_ros.Message.{Message}
use pg_ros.Decoding.Scalar.{Numbers}
use pg_ros.Publishing.Rcl.{Rcl, PublishError}
use pg_ros.Publishing.Session.{
  Key, Key-discrete, PublisherSession, get_publisher, resolve_type, publish_kind,
  publish_with_session,
}
use pg_ros.Publishing.Delivery.{IsNetwork, discover_type-Silent}
use pg_ros.Publishing.Delivery.Session.{
  SentAtMost, IsDelivered, publish_cached-Ends, publish_new-Ends,
}

-- What resolving the type promises: a given type is the type.
abbrev pub Agrees : Option Text → Text → Type 0
Agrees (some message_type) t = t ≡ message_type
Agrees none t = Unit

module _ {W C X N K P J : Type 0} (rcl : Rcl W C X N K P) (numbers : Numbers J)
    (sent : W → List (P × Message)) (made : P → Text × K) (template : K → Message)
    (laws : IsNetwork rcl numbers sent made template) where
  abbrev pub Inside : Type 0
  Inside = PublisherSession C X N P × W

  -- An entry of the cache: the publisher was made for the topic and the type of its key.
  abbrev pub IsMade : Key × P → Type 0
  IsMade (key, publisher) =
      (kind : K) × (rcl.message_type_name key.1 ≡ ok kind) × (made publisher ≡ (key.0, kind))

  get_publisher-cons :
      (key key' : Key) (p publisher : P) (rest : List (Key × P))
      → get_publisher key ((key', p) ∷ rest) ≡ some publisher
      → ((key' ≡ key) × (p ≡ publisher)) ⊎ (get_publisher key rest ≡ some publisher)
  unfolding get_publisher
  get_publisher-cons key key' p publisher rest e = split (Key-discrete key' key) e
    where
      some-injective : {a b : P} → some a ≡ some b → a ≡ b
      some-injective e = cc

      split :
          (d : Dec (key' ≡ key))
          → elim d [ yes _ ↦ some p | no _ ↦ get_publisher key rest ] ≡ some publisher
          → ((key' ≡ key) × (p ≡ publisher)) ⊎ (get_publisher key rest ≡ some publisher)
      split (yes k) e = inl (k, some-injective e)
      split (no k) e = inr e

  get_publisher-IsMade :
      (key : Key) (publishers : List (Key × P)) (publisher : P)
      → All IsMade publishers
      → get_publisher key publishers ≡ some publisher
      → IsMade (key, publisher)
  unfolding get_publisher
  get_publisher-IsMade key [] publisher h e = cc
  get_publisher-IsMade key ((key', p) ∷ rest) publisher h e =
      elim (get_publisher-cons key key' p publisher rest e) [
        | inl (k, q) ↦ rw (k, q) at h.0
        | inr f ↦ get_publisher-IsMade key rest publisher h.1 f
      ]

  get_publisher_newest :
      (key : Key) (publisher : P) (rest : List (Key × P))
      → get_publisher key ((key, publisher) ∷ rest) ≡ some publisher
  unfolding get_publisher
  get_publisher_newest key publisher rest = split (Key-discrete key key)
    where
      split :
          (d : Dec (key ≡ key))
          → elim d [ yes _ ↦ some publisher | no _ ↦ get_publisher key rest ] ≡ some publisher
      split (yes k) = refl
      split (no k) = absurd (k refl)

  -- A call on the world leaves the session as it is.
  on_world-Ends :
      {A : Type 0} {Good : A → W → Type 0} {Bad : PublishError → W → Type 0}
      (session : PublisherSession C X N P) {r : Result PublishError A × W}
      → Ends Good Bad r
      → Ends
          (λ a (s : Inside). (s.0 ≡ session) × Good a s.1)
          (λ e (s : Inside). (s.0 ≡ session) × Bad e s.1)
          (r.0, (session, r.1))
  on_world-Ends session (returned g) = returned (refl, g)
  on_world-Ends session (raised b) = raised (refl, b)

  -- A published sample, and the publisher that the session keeps for the next one.
  abbrev pub IsPublished : List (P × Message) → Text → Json J → Text → List (Key × P) → W → Type 0
  IsPublished log topic json resolved publishers w =
      (kind : K) × (publisher : P) × (rcl.message_type_name resolved ≡ ok kind)
      × IsDelivered rcl numbers sent made template laws log topic kind json publisher w
      × (get_publisher (topic, resolved) publishers ≡ some publisher)
      × All IsMade publishers

  abbrev pub AtMost : List (P × Message) → W → Type 0
  AtMost = SentAtMost rcl numbers sent made template laws

  publish_kind-Ends :
      (fuel : ℕ) (topic resolved : Text) (kind : K) (json : Json J) (found : Option P)
      (session : PublisherSession C X N P) (w : W) (log : List (P × Message))
      → rcl.message_type_name resolved ≡ ok kind
      → All IsMade session.publishers
      → get_publisher (topic, resolved) session.publishers ≡ found
      → sent w ≡ log
      → Ends
          (λ t (s : Inside). (t ≡ resolved) × IsPublished log topic json t s.0.publishers s.1)
          (λ e (s : Inside). (s.0 ≡ session) × AtMost log s.1)
          (publish_kind rcl numbers fuel topic resolved kind json found (session, w))
  unfolding publish_kind
  publish_kind-Ends fuel topic resolved kind json (some cached) session w log k all found h =
      let (kind', k', m) =
        get_publisher-IsMade (topic, resolved) session.publishers cached all found in
      let same : kind' ≡ kind = ok-injective (sym k' ∙ k) in
      Ends-continue
        (on_world-Ends session (
          publish_cached-Ends rcl numbers sent made template laws fuel session topic cached kind
            json log w h (rw same at m)))
        λ u s d. returned (refl, (kind, cached, k, d.1, rw d.0 found, rw d.0 all))
    where
      ok-injective : {a b : K} → ◌≡◌ {A = Result Error K} (ok a) (ok b) → a ≡ b
      ok-injective e = cc
  publish_kind-Ends fuel topic resolved kind json none session w log k all found h =
      Ends-continue
        (on_world-Ends session (
          publish_new-Ends rcl numbers sent made template laws fuel session topic kind json log w
            h))
        λ publisher s d.
          let (m, one_more, for_key, built) = d.1 in
          returned (
            refl,
            (
              kind,
              publisher,
              k,
              d.1,
              get_publisher_newest (topic, resolved) publisher s.0.publishers,
              ((kind, k, for_key), rw d.0 all),
            ),
          )

  resolve_type-Ends :
      (fuel : ℕ) (session : PublisherSession C X N P) (topic : Text) (message_type : Option Text)
      (w : W) (log : List (P × Message))
      → sent w ≡ log
      → Ends
          (λ t w'. (sent w' ≡ log) × Agrees message_type t)
          (λ e w'. AtMost log w')
          (resolve_type rcl fuel session topic message_type w)
  unfolding resolve_type
  resolve_type-Ends fuel session topic (some t) w log h = returned (h, refl)
  resolve_type-Ends fuel session topic none w log h =
      Ends-weaken
        (discover_type-Silent rcl numbers sent made template laws fuel session.node topic
          session.executor w h)
        (λ t w' h'. (h', tt)) (λ e w' h'. inl h')

  pub publish_with_session-Ends :
      (fuel : ℕ) (topic : Text) (message_type : Option Text) (json : Json J)
      (session : PublisherSession C X N P) (w : W) (log : List (P × Message))
      → All IsMade session.publishers
      → sent w ≡ log
      → Ends
          (λ t (s : Inside).
            Agrees message_type t × IsPublished log topic json t s.0.publishers s.1)
          (λ e (s : Inside). (s.0 ≡ session) × AtMost log s.1)
          (publish_with_session rcl numbers fuel topic message_type json (session, w))
  unfolding publish_with_session
  publish_with_session-Ends fuel topic message_type json session w log all h =
      Ends-continue
        (on_world-Ends session (resolve_type-Ends fuel session topic message_type w log h))
        λ t s r. elim (Result-cases (rcl.message_type_name t)) [
          | inl (kind, k) ↦ rw k (
              Ends-weaken
                (publish_kind-Ends fuel topic t kind json _ s.0 s.1 log k (rw r.0 all) (rw r.0 refl)
                  r.1.0)
                (λ a s' g. (rw g.0 r.1.1, g.1)) (λ e s' b. (b.0 ∙ r.0, b.1)))
          | inr (e, k) ↦ rw k (raised (r.0, inl r.1.0))
        ]
