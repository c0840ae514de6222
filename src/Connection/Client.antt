-- ===== src/Connection/Client.antt =====
-- src/websocketConnection/client/websocketClientConnection.hpp: the client's side of a connection.
use ros2_connect.Prelude.{ℕ, Option, some, List, [], ◌∷◌, ◌++◌, if◌then◌else◌, ◌>>=◌}
use ros2_connect.Message.Codes.{authentication}
use ros2_connect.Message.Rcl.{RclMessage, from_flat_buffer, to_string}
use ros2_connect.Message.Base.{rcl, is_op_code}
use ros2_connect.Message.Vector.{for_op_code_authentication}
use ros2_connect.Message.Vector
use ros2_connect.Connection.Dispatch.{Managers, process_message}
use ros2_connect.Connection.Server.{ConnectionConfig, start_managers}

-- `sent` are the vectors that were sent, and `answers` the texts of the server's authentication
-- messages, which are logged only.
pub record Client : Type 0 where
  pub managers : Managers
  pub sent : List (List ℕ)
  pub answers : List (List ℕ)

-- The vector that `onConnected` sends.
unfoldable pub key_bytes : List ℕ → List ℕ
unfolding for_op_code_authentication Vector.get_combined_vector
key_bytes user_key = Vector.get_combined_vector (for_op_code_authentication user_key)

-- `WebsocketClientConnection::onConnected`.
unfoldable pub client_connected : List ℕ → Client → Client
unfolding key_bytes
client_connected user_key s = record s { sent = s.sent ++ key_bytes user_key ∷ [] }

-- The handler of the handshake in `WebsocketClientConnection::run`, up to `asyncRead`.
unfoldable pub on_handshake : ConnectionConfig → List ℕ → Client → Client
unfolding client_connected start_managers
on_handshake cfg user_key s =
    let r = client_connected user_key s in record r { managers = start_managers cfg r.managers }

-- `WebsocketClientConnection::processMessage`.
unfoldable pub client_process : RclMessage → Client → Option Client
unfolding is_op_code to_string process_message
client_process m s =
    if is_op_code (rcl m) authentication
    then (to_string m >>= λ text. some (record s { answers = s.answers ++ text ∷ [] }))
    else (process_message m s.managers >>= λ r. some (record s { managers = r }))

-- The handler of `asyncRead`.
unfoldable pub client_read : List ℕ → Client → Option Client
unfolding client_process
client_read bytes s = from_flat_buffer bytes >>= λ m. client_process m s

-- The messages that one after the other arrive.
unfoldable pub client_read_all : List RclMessage → Client → Option Client
unfolding client_process
client_read_all [] s = some s
client_read_all (m ∷ ms) s = client_process m s >>= λ r. client_read_all ms r
