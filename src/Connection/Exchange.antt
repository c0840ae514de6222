-- ===== src/Connection/Exchange.antt =====
-- The authentication messages between the two sides: websocketClientConnection.hpp and
-- websocketServerConnection.cpp of src/websocketConnection.
use ros2_connect.Prelude.{ℕ, ◌≡◌, refl, some, List, [], ◌∷◌, ◌++◌}
use ros2_connect.Message.Codes.{op_code_value}
use ros2_connect.Message.Base.{is_op_code}
use ros2_connect.Message.Vector.{for_op_code_authentication}
use ros2_connect.Message.Vector
use ros2_connect.Message.Control.{IsText, to_string-for_op_code_authentication}
use ros2_connect.Connection.Server.{
  Authentication, ConnectionConfig, Server, validate_user_key, server_process, server_step,
  received,
}
use ros2_connect.Connection.Client.{Client, key_bytes, client_process, client_read}

-- A user key without zero bytes that the client sends is the key that the server validates.
pub server_step-key_bytes :
    {A : Type 0} (cfg : ConnectionConfig) (plugin : Authentication A) (key : List ℕ) (s : Server A)
    → IsText key
    → server_step cfg plugin (received (key_bytes key)) s
      ≡ some (validate_user_key cfg plugin key s)
unfolding server_step key_bytes Vector.get_combined_vector
server_step-key_bytes cfg plugin key s h =
    let (m, parsed, channel, text) = to_string-for_op_code_authentication key h in
    rw parsed (unfold server_process is_op_code op_code_value in rw (channel, text) refl)

-- The text of a server's answer, without zero bytes, is the text that the client reads, and the
-- answer changes nothing else.
pub client_read-answer :
    (text : List ℕ) (s : Client)
    → IsText text
    → client_read (for_op_code_authentication text).combined_vector s
      ≡ some (record s { answers = s.answers ++ text ∷ [] })
unfolding client_read
client_read-answer text s h =
    let (m, parsed, channel, read) = to_string-for_op_code_authentication text h in
    rw parsed (unfold client_process is_op_code op_code_value in rw (channel, read) refl)
