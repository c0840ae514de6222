-- ===== src/Connection/Stream.antt =====
-- The stream of a connection, from its options to its end:
-- src/websocketConnection/base/websocketConnectionBase.hpp.
use ros2_connect.Prelude.{
  ℕ, ◌≡◌, refl, Bool, true, false, ◌&&◌, ltb, some, List, [], ◌∷◌, ◌++◌, nat_key, if◌then◌else◌,
  arith,
}
use ros2_connect.Message.Codes.{op_code_value}
use ros2_connect.Message.Base.{is_op_code}
use ros2_connect.Message.Vector.{for_op_code_notification}
use ros2_connect.Message.Vector
use ros2_connect.Message.Control.{IsText, to_string-for_op_code_notification}
use ros2_connect.Config.Global.{GlobalConfig}
use ros2_connect.Connection.Dispatch.{Managers, process_message}
use ros2_connect.Connection.Server.{
  ConnectionConfig, Authentication, Server, received, server_process, server_step,
}
use ros2_connect.Connection.Client.{Client, client_process, client_read}

-- What the constructor sets on the socket and the websocket stream.
pub record StreamOptions : Type 0 where
  pub binary : Bool
  pub no_delay : Bool
  pub auto_fragment : Bool
  pub write_buffer_bytes : ℕ
  pub client_deflate : Bool
  pub server_deflate : Bool
  pub read_message_max : ℕ
  pub read_buffer : ℕ

unfoldable pub stream_options : GlobalConfig → StreamOptions
stream_options g = record {
  binary = true;
  no_delay = true;
  auto_fragment = g.fragmentation;
  write_buffer_bytes = g.fragmentation_size;
  client_deflate = false;
  server_deflate = false;
  read_message_max = g.max_message_size;
  read_buffer = 4096;
}

-- What `close` asks the stream for.
pub data StreamCall : Type 0 where
  write : List ℕ → StreamCall
  close_frame : ℕ → List ℕ → StreamCall
  shutdown_ssl shutdown_socket close_socket : StreamCall

-- The bytes of `Peer closed connection. Reason: `.
abbrev pub peer_closed : List ℕ
peer_closed =
    80 ∷ 101 ∷ 101 ∷ 114 ∷ 32 ∷ 99 ∷ 108 ∷ 111 ∷ 115 ∷ 101 ∷ 100 ∷ 32 ∷ 99 ∷ 111 ∷ 110 ∷ 110 ∷ 101
    ∷ 99 ∷ 116 ∷ 105 ∷ 111 ∷ 110 ∷ 46 ∷ 32 ∷ 82 ∷ 101 ∷ 97 ∷ 115 ∷ 111 ∷ 110 ∷ 58 ∷ 32 ∷ []

-- The notification of the other side.
unfoldable pub closing_bytes : List ℕ → List ℕ
unfolding for_op_code_notification Vector.get_combined_vector
closing_bytes reason = Vector.get_combined_vector (for_op_code_notification (peer_closed ++ reason))

-- `close` with a code and a reason; `failed` is the error of the shutdown, the last call that sets
-- the error code.
unfoldable pub close : Bool → Bool → ℕ → List ℕ → List StreamCall
unfolding closing_bytes
close ssl failed code reason =
    write (closing_bytes reason)
    ∷ close_frame code reason
    ∷ (if ssl then shutdown_ssl else shutdown_socket)
    ∷ (if failed then close_socket ∷ [] else [])

-- `close` without arguments.
unfoldable pub close_without_reason : Bool → Bool → List StreamCall
unfolding close
close_without_reason ssl failed = close ssl failed 0 []

IsText-append : (xs ys : List ℕ) → IsText xs → IsText ys → IsText (xs ++ ys)
IsText-append [] ys h k = k
IsText-append (x ∷ xs) ys h k = (h.0, IsText-append xs ys h.1 k)

unfoldable has_no_zero : List ℕ → Bool
has_no_zero [] = true
has_no_zero (x ∷ xs) = ltb 0 x && has_no_zero xs

has_no_zero-IsText : (xs : List ℕ) → has_no_zero xs ≡ true → IsText xs
unfolding has_no_zero
has_no_zero-IsText [] h = tt
has_no_zero-IsText (x ∷ xs) h = (ground (arith, h), has_no_zero-IsText xs (ground (arith, h)))

peer_closed-IsText : IsText peer_closed
peer_closed-IsText = has_no_zero-IsText peer_closed (unfold has_no_zero in refl)

-- The managers with one more notification.
abbrev pub log_text : List ℕ → Managers → Managers
log_text text s = record s { logged = s.logged ++ text ∷ [] }

-- The bytes that a connection writes when it is closed with a reason without zero bytes make the
-- other side, a client's or a server's connection in any state, log exactly the reason behind the
-- words on the closing, and change nothing else there.
pub read-closing_bytes :
    {A : Type 0} (cfg : ConnectionConfig) (plugin : Authentication A) (reason : List ℕ) (c : Client)
    (s : Server A)
    → IsText reason
    → (client_read (closing_bytes reason) c
        ≡ some (record c { managers = log_text (peer_closed ++ reason) c.managers }))
      × (server_step cfg plugin (received (closing_bytes reason)) s
          ≡ some (record s { managers = log_text (peer_closed ++ reason) s.managers }))
unfolding client_read server_step closing_bytes Vector.get_combined_vector
read-closing_bytes cfg plugin reason c s h =
    let text = IsText-append peer_closed reason peer_closed-IsText h in
    let (m, parsed, channel, read) =
      to_string-for_op_code_notification (peer_closed ++ reason) text in
    (
      rw parsed (
          unfold client_process process_message is_op_code op_code_value in
          rw (channel, read) refl),
      rw parsed (
          unfold server_process process_message is_op_code op_code_value in
          rw (channel, read) refl),
    )
