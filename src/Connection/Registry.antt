-- ===== src/Connection/Registry.antt =====
-- src/connection/connectionManager.hpp: the connections that were started and not yet stopped. A
-- connection is named by a number, the identity of its shared pointer.
use ros2_connect.Prelude.{
  ℕ, zero, suc, ◌==◌, Bool, true, false, List, [], ◌∷◌, ◌++◌, length, if◌then◌else◌,
}

-- What the manager does to a connection, and the call of its callback.
pub data Action : Type 0 where
  stop_thread join_thread close : ℕ → Action
  connection_close_callback : Action

pub record ConnectionManager : Type 0 where
  pub connections : List ℕ
  pub actions : List Action

abbrev pub new : ConnectionManager
new = record { connections = []; actions = [] }

-- `startConnection`, with the result of the connection's `start`.
unfoldable pub start_connection : ℕ → Bool → ConnectionManager → ConnectionManager
start_connection c started s =
    if started then record s { connections = s.connections ++ c ∷ [] } else s

unfoldable pub is_member : ℕ → List ℕ → Bool
is_member c [] = false
is_member c (d ∷ ds) = let r = is_member c ds in if d == c then true else r

-- `connections.erase(it)` for the first iterator whose connection is the given one.
unfoldable pub erase_first : ℕ → List ℕ → List ℕ
erase_first c [] = []
erase_first c (d ∷ ds) = let r = erase_first c ds in if d == c then ds else d ∷ r

abbrev pub stop_actions : ℕ → Bool → List Action
stop_actions c true = stop_thread c ∷ join_thread c ∷ close c ∷ connection_close_callback ∷ []
stop_actions c false = stop_thread c ∷ join_thread c ∷ close c ∷ []

-- `stopConnectionInternal`.
unfoldable pub stop_connection_internal : ℕ → Bool → ConnectionManager → ConnectionManager
unfolding is_member erase_first
stop_connection_internal c call_callback s =
    if is_member c s.connections
    then record s {
      connections = erase_first c s.connections;
      actions = s.actions ++ stop_actions c call_callback;
    }
    else s

-- A round of the loop of `stopAllConnections`, and the loop with fuel for its rounds.
unfoldable pub stop_round :
    (ConnectionManager → ConnectionManager) → List ℕ → ConnectionManager → ConnectionManager
unfolding stop_connection_internal
stop_round again [] s = s
stop_round again (c ∷ cs) s = again (stop_connection_internal c false s)

unfoldable pub stop_all : ℕ → ConnectionManager → ConnectionManager
unfolding stop_round
stop_all zero s = s
stop_all (suc fuel) s = stop_round (stop_all fuel) s.connections s

unfoldable pub stop_all_connections : ConnectionManager → ConnectionManager
unfolding stop_all
stop_all_connections s = stop_all (length s.connections) s

-- What the server and the connections ask for; requests to stop are posted to one strand.
pub data Request : Type 0 where
  start : ℕ → Bool → Request
  stop : ℕ → Request

unfoldable pub serve : List Request → ConnectionManager → ConnectionManager
unfolding start_connection stop_connection_internal
serve [] s = s
serve (start c started ∷ rs) s = serve rs (start_connection c started s)
serve (stop c ∷ rs) s = serve rs (stop_connection_internal c true s)
