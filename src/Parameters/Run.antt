-- ===== src/Parameters/Run.antt =====
-- src/parameters.rs: the polls that `start` and any number of ticks lead to.
use pg_ros.Base.{
  ◌≡◌, ◌≢◌, not, some, List, [], ◌∷◌, ◌++◌, ascii, map, All, Text, ok, err, Ensures, holds,
  Ensures-and_then, Ensures-any, Ensures-both, Ensures-if, Ensures-map_ok, Ensures-ok,
}
use pg_ros.Base.Order.{le_pair-IsOrder, le_pair}
use pg_ros.Base.Distinct.{Distinct, dedup-sort-Distinct}
use pg_ros.Parameters.Value.{JsonMacro, Parameter}
use pg_ros.Parameters.Poll.{panicked, Peer, Poll, Answers}
use pg_ros.Parameters.Tick.{Startup, create_clients, offers, start, tick, node_prefix}
use pg_ros.Parameters.Keys.{row_key, peer_key, asked_keys}
use pg_ros.Parameters.Shapes.{IsWellFormed, stage_names}
use pg_ros.Parameters.Ticking.{tick-IsWellFormed, tick-Distinct, tick-panicked}

module _ {L G : Type 0} (startup : Startup L G) where
  create_clients-cons :
      {P : List (Peer L G) → Type 0} {Q : List (Peer L G) → Type 0} (prefix : Text → Text → Text)
      (name namespace : Text) (peers : List (Text × Text))
      → Ensures P (create_clients startup prefix peers)
      → Ensures Q (create_clients startup prefix peers)
      → ((l : L) (g : G) (clients : List (Peer L G))
          → P clients
          → Q (
              record {
                peer_name = name;
                peer_namespace = namespace;
                list_client = l;
                get_client = g;
              }
              ∷ clients))
      → Ensures Q (create_clients startup prefix ((name, namespace) ∷ peers))
  unfolding create_clients
  create_clients-cons {P} {Q} prefix name namespace peers rest skipped add =
      let list = prefix name namespace ++ ascii "/list_parameters" in
      let get = prefix name namespace ++ ascii "/get_parameters" in
      Ensures-and_then (Ensures-any (startup.services name namespace)) (λ services u.
        Ensures-if (not (offers (services list))) skipped (
          Ensures-and_then (Ensures-any (startup.create_list list)) (λ l v.
            Ensures-and_then (Ensures-any (startup.create_get get))
              (λ g w. Ensures-map_ok {P = P} {Q = Q} _ rest (add l g)))))

  -- What holds of the peers holds of the clients.
  create_clients-All :
      (P : Text × Text → Type 0) (prefix : Text → Text → Text) (peers : List (Text × Text))
      → All P peers
      → Ensures (λ clients. All P (map peer_key clients)) (create_clients startup prefix peers)
  unfolding create_clients
  create_clients-All P prefix [] h = holds tt
  create_clients-All P prefix ((name, namespace) ∷ peers) h =
      let rest = create_clients-All P prefix peers h.1 in
      create_clients-cons prefix name namespace peers rest rest (λ l g clients k. (h.0, k))

  create_clients-Distinct :
      (prefix : Text → Text → Text) (peers : List (Text × Text))
      → Distinct peers
      → Ensures (λ clients. Distinct (map peer_key clients)) (create_clients startup prefix peers)
  unfolding create_clients
  create_clients-Distinct prefix [] h = holds tt
  create_clients-Distinct prefix ((name, namespace) ∷ peers) h =
      let rest = create_clients-Distinct prefix peers h.1 in
      create_clients-cons prefix name namespace peers
        (Ensures-both (create_clients-All _ prefix peers h.0) rest) rest (λ l g clients k. k)

start-IsWellFormed :
    {L G PL PG : Type 0} (startup : Startup L G) (nodes : List (Text × Text))
    → Ensures IsWellFormed (start {PL = PL} {PG = PG} startup nodes)
unfolding start
start-IsWellFormed startup nodes =
    Ensures-map_ok _
      (create_clients-Distinct startup node_prefix _
        (dedup-sort-Distinct le_pair le_pair-IsOrder nodes))
      (λ clients h. (h, tt))

module _ {L G PL PG V : Type 0} (json : JsonMacro V) (startup : Startup L G)
    (nodes : List (Text × Text)) where
  -- `start`, and ticks with any answers: the life of `parameter_poll`.
  pub data Reached : Poll L G PL PG → Type 0 where
    started : {poll : Poll L G PL PG} → start startup nodes ≡ ok poll → Reached poll
    ticked :
        {poll : Poll L G PL PG}
        → Reached poll
        → (answers : Answers L G PL PG) → Reached (tick json answers poll).0

  Reached-IsWellFormed : {poll : Poll L G PL PG} → Reached poll → IsWellFormed poll
  Reached-IsWellFormed (started e) = Ensures-ok (start-IsWellFormed startup nodes) e
  Reached-IsWellFormed (ticked before answers) =
      tick-IsWellFormed json answers _ (Reached-IsWellFormed before)

  -- However a poll was started and ticked, the next tick panics in none of its `unwrap` calls.
  pub Reached-panicked :
      (poll : Poll L G PL PG) (answers : Answers L G PL PG)
      → Reached poll
      → (tick json answers poll).1 ≢ err panicked
  Reached-panicked poll answers run = tick-panicked json answers poll (Reached-IsWellFormed run)

  -- However a poll was started and ticked, the rows that the next tick returns differ in node, namespace
  -- or name, which is the primary key of the table that stores them; there is one row for each client
  -- and each of the names asked from it.
  pub Reached-Distinct :
      (poll : Poll L G PL PG) (answers : Answers L G PL PG) (rows : List (Parameter V))
      → Reached poll
      → (tick json answers poll).1 ≡ ok (some rows)
      → (map row_key rows ≡ asked_keys poll.clients (stage_names poll.stage))
        × Distinct (map row_key rows)
  Reached-Distinct poll answers rows run e =
      tick-Distinct json answers poll rows (Reached-IsWellFormed run) e
