-- ===== src/Parameters/Keys.antt =====
-- src/parameters.rs: the keys of the rows that a poll returns.
use pg_ros.Base.{
  suc, ◌≡◌, ◌≢◌, refl, ap, ◌∙◌, true, Option, none, some, List, [], ◌∷◌, ◌++◌, map, length, All,
  Text, Result, ok, err, map_ok, Ensures, holds, rejected, Ensures-map_ok, Result-cases, arith,
  ==_iff, Bool-cases, inl, inr, ◌==◌,
}
use pg_ros.Base.Distinct.{Distinct, All-append, All-map, All-mono, All-every, Distinct-append}
use pg_ros.Parameters.Value.{ParameterValue, JsonMacro, Parameter, value_of}
use pg_ros.Parameters.Poll.{
  Fault, failed, Peer, all_some, client_rows, checked_rows, take_rows, snapshot_rows,
}

-- The primary key of `parameters`.
abbrev pub row_key : {V : Type 0} → Parameter V → Text × Text × Text
row_key row = (row.node, row.namespace, row.name)

-- `P` holds of the value, if there is one, and nothing panicked.
pub data Sound {ℓ κ} {A : Type ℓ} (P : A → Type κ) : Result Fault A → Type (ℓ ⊔ κ) where
  gives : {a : A} → P a → Sound P (ok a)
  fails : {e : Text} → Sound P (err (failed e))

pub Sound-map_ok {ℓ κ ι μ} :
    {A : Type ℓ} {B : Type κ} {P : A → Type ι} {Q : B → Type μ} {r : Result Fault A} (f : A → B)
    → Sound P r
    → ((a : A) → P a → Q (f a))
    → Sound Q (map_ok f r)
Sound-map_ok f (gives {a} h) k = gives (k a h)
Sound-map_ok f (fails {e}) k = fails

module _ {V : Type 0} where
  length-take_rows :
      (r : Result Text (List (Parameter V))) (results : List (Option (List ParameterValue)))
      (later : List (Option (List ParameterValue)) × Result Fault (List (Parameter V)))
      → length later.0 ≡ length results
      → length (take_rows r results later).0 ≡ suc (length results)
  length-take_rows (ok rows) results later h = ap suc h
  length-take_rows (err e) results later h = refl

  map-append-eq :
      (rows more : List (Parameter V)) (keys others : List (Text × Text × Text))
      → map row_key rows ≡ keys
      → map row_key more ≡ others
      → map row_key (rows ++ more) ≡ keys ++ others
  map-append-eq [] more keys others h k = k ∙ ap (λ t. t ++ others) h
  map-append-eq (row ∷ rows) more keys others h k =
      ap (λ t. row_key row ∷ t) (map-append-eq rows more (map row_key rows) others refl k)
      ∙ ap (λ t. t ++ others) h

  take_rows-Sound :
      (r : Result Text (List (Parameter V))) (results : List (Option (List ParameterValue)))
      (later : List (Option (List ParameterValue)) × Result Fault (List (Parameter V)))
      (keys others : List (Text × Text × Text))
      → Ensures (λ rows. map row_key rows ≡ keys) r
      → Sound (λ rows. map row_key rows ≡ others) later.1
      → Sound (λ rows. map row_key rows ≡ keys ++ others) (take_rows r results later).1
  take_rows-Sound (ok rows) results later keys others (holds h) k =
      Sound-map_ok _ k (λ more. map-append-eq rows more keys others h)
  take_rows-Sound (err e) results later keys others rejected k = fails

module _ {L G : Type 0} where
  abbrev pub peer_key : Peer L G → Text × Text
  peer_key c = (c.peer_name, c.peer_namespace)

  abbrev pub client_keys : Peer L G → List Text → List (Text × Text × Text)
  client_keys c = map (λ name. (c.peer_name, c.peer_namespace, name))

  -- Each client with each of the names asked from it.
  abbrev pub asked_keys : List (Peer L G) → List (List Text) → List (Text × Text × Text)
  asked_keys (c ∷ cs) (names ∷ rest) = client_keys c names ++ asked_keys cs rest
  asked_keys [] names = []
  asked_keys (c ∷ cs) [] = []

  client_keys-Distinct :
      (c : Peer L G) (names : List Text) → Distinct names → Distinct (client_keys c names)
  client_keys-Distinct c [] h = tt
  client_keys-Distinct c (name ∷ names) h = (
    All-map _ _ names
        (All-mono _ _ names (λ other apart e. apart (ap (λ (k : Text × Text × Text). k.2) e)) h.0),
    client_keys-Distinct c names h.1,
  )

  asked_keys-others :
      (c : Peer L G) (name : Text) (cs : List (Peer L G)) (lists : List (List Text))
      → All (λ key. peer_key c ≢ key) (map peer_key cs)
      → All (λ key. (c.peer_name, c.peer_namespace, name) ≢ key) (asked_keys cs lists)
  asked_keys-others c name [] lists h = tt
  asked_keys-others c name (d ∷ ds) [] h = tt
  asked_keys-others c name (d ∷ ds) (names ∷ lists) h =
      All-append _ (client_keys d names) (asked_keys ds lists)
        (All-map _ _ names
          (All-every _ names (λ other e. h.0 (ap (λ (k : Text × Text × Text). (k.0, k.1)) e))))
        (asked_keys-others c name ds lists h.1)

  -- Distinct clients asked for distinct names are asked for distinct keys.
  pub asked_keys-Distinct :
      (cs : List (Peer L G)) (lists : List (List Text))
      → Distinct (map peer_key cs)
      → All Distinct lists
      → Distinct (asked_keys cs lists)
  asked_keys-Distinct [] lists h k = tt
  asked_keys-Distinct (c ∷ cs) [] h k = tt
  asked_keys-Distinct (c ∷ cs) (names ∷ lists) h k =
      Distinct-append (client_keys c names) (asked_keys cs lists) (client_keys-Distinct c names k.0)
        (asked_keys-Distinct cs lists h.1 k.1)
        (All-map _ _ names (All-every _ names (λ name. asked_keys-others c name cs lists h.0)))

  module _ {V : Type 0} (json : JsonMacro V) where
    client_rows-Ensures :
        (c : Peer L G) (names : List Text) (values : List ParameterValue)
        → length names ≡ length values
        → Ensures (λ rows. map row_key rows ≡ client_keys c names) (client_rows json c names values)
    unfolding client_rows
    client_rows-Ensures c [] values e = holds refl
    client_rows-Ensures c (name ∷ names) [] e = absurd (ground (arith, e))
    client_rows-Ensures c (name ∷ names) (v ∷ values) e =
        let later = client_rows-Ensures c names values (omega (arith, e)) in
        elim (Result-cases (value_of json v)) [
          | inl (x, found) ↦ rw found (
              Ensures-map_ok _ later
                (λ rows k. ap (λ ks. (c.peer_name, c.peer_namespace, name) ∷ ks) k))
          | inr (x, unknown) ↦ rw unknown rejected
        ]

    checked_rows-Ensures :
        (c : Peer L G) (names : List Text) (values : List ParameterValue)
        → Ensures
            (λ rows. map row_key rows ≡ client_keys c names)
            (checked_rows json c names values)
    unfolding checked_rows
    checked_rows-Ensures c names values = elim (Bool-cases (length names == length values)) [
      | inl same ↦
          rw same
            (client_rows-Ensures c names values ((==_iff (length names) (length values)).0 same))
      | inr other ↦ rw other rejected
    ]

    pub length-snapshot_rows :
        (cs : List (Peer L G)) (lists : List (List Text))
        (results : List (Option (List ParameterValue)))
        → length (snapshot_rows json cs lists results).0 ≡ length results
    unfolding snapshot_rows
    length-snapshot_rows [] lists results = refl
    length-snapshot_rows (c ∷ cs) [] results = refl
    length-snapshot_rows (c ∷ cs) (names ∷ lists) [] = refl
    length-snapshot_rows (c ∷ cs) (names ∷ lists) (none ∷ results) = refl
    length-snapshot_rows (c ∷ cs) (names ∷ lists) (some values ∷ results) =
        length-take_rows (checked_rows json c names values) results _
          (length-snapshot_rows cs lists results)

    -- When every response is there, the rows have exactly the keys that were asked for.
    pub snapshot_rows-Sound :
        (cs : List (Peer L G)) (lists : List (List Text))
        (results : List (Option (List ParameterValue)))
        → length lists ≡ length cs
        → length results ≡ length cs
        → all_some results ≡ true
        → Sound
            (λ rows. map row_key rows ≡ asked_keys cs lists)
            (snapshot_rows json cs lists results).1
    unfolding snapshot_rows
    snapshot_rows-Sound [] lists results e f full = gives refl
    snapshot_rows-Sound (c ∷ cs) [] results e f full = absurd (ground (arith, e))
    snapshot_rows-Sound (c ∷ cs) (names ∷ lists) [] e f full = absurd (ground (arith, f))
    snapshot_rows-Sound (c ∷ cs) (names ∷ lists) (none ∷ results) e f full =
        absurd (ground (arith, full))
    snapshot_rows-Sound (c ∷ cs) (names ∷ lists) (some values ∷ results) e f full =
        take_rows-Sound (checked_rows json c names values) results _ (client_keys c names)
          (asked_keys cs lists) (checked_rows-Ensures c names values)
          (snapshot_rows-Sound cs lists results (omega (arith, e)) (omega (arith, f)) full)
