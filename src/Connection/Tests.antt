-- ===== src/Connection/Tests.antt =====
-- A few events on a connection, three received messages, and a server whose plugin knows one key.
use ros2_connect.Prelude.{
  ℕ, ◌≡◌, refl, Bool, true, false, ◌⊎◌, Option, none, some, List, [], ◌∷◌, ◌++◌, bytes_beq, arith,
  length, ◌-◌, ◌>>=◌,
}
use ros2_connect.Message.Codes.{Compressor}
use ros2_connect.Message.Rcl.{RclMessage, from_flat_buffer, to_string}
use ros2_connect.Subscriber.Tests.{camera, two_topics}
use ros2_connect.Connection.Sending.{Sending, Event, send, complete, new, run}
use ros2_connect.Connection.Order.{IsSingle, Sublist, sent, run-IsSingle}
use ros2_connect.Connection.Lossless.{IsBusy, run-lossless}
use ros2_connect.Connection.Delivery.{Dispatched, read_all-Dispatched}
use ros2_connect.Connection.Server.{
  Authentication, ConnectionConfig, Server, new_managers, ServerEvent, connected, received,
  check_timeout, server_run, no_valid_authentication,
}
use ros2_connect.Connection.Server
use ros2_connect.Connection.Server.{server_step, server_read_all, validate_user_key}
use ros2_connect.Connection.Client.{Client, key_bytes, client_read, client_read_all}
use ros2_connect.Connection.Exchange.{server_step-key_bytes}
use ros2_connect.Connection.Registry.{stop_all_connections, serve}
use ros2_connect.Connection.Registry
use ros2_connect.Connection.Closing.{closes, starts, stop_all_connections-closes}
use ros2_connect.Connection.Handshake
use ros2_connect.Connection.Stream.{closing_bytes, peer_closed, log_text, read-closing_bytes}
use ros2_connect.Connection.Established.{Holds, run-IsSteady}
use ros2_connect.Connection.Admission.{HasAdmitting, IsUnauthorized, server_run-IsIdle}

-- Two messages, the second of which waits; the first one fails.
abbrev a_failure : List Event
a_failure = send (1 ∷ []) ∷ send (2 ∷ []) ∷ complete true ∷ send (3 ∷ []) ∷ []

run-IsSingle_example :
    (r : Sending) × (run a_failure (new true) ≡ some r)
    × IsSingle r.writes r.sending_queue
    × Sublist (r.written ++ r.sending_queue) (sent a_failure)
run-IsSingle_example = run-IsSingle a_failure true

abbrev no_failure : List Event
no_failure = send (1 ∷ []) ∷ send (2 ∷ []) ∷ complete false ∷ send (3 ∷ []) ∷ complete false ∷ []

run-lossless_example :
    (r : Sending) × (run no_failure (new true) ≡ some r)
    × IsBusy r.writes r.sending_queue
    × (r.written ++ r.sending_queue ≡ sent no_failure)
run-lossless_example = run-lossless no_failure tt

abbrev message : ℕ → List ℕ → RclMessage
message c bytes = record {
  channel = c;
  compressor = Compressor.none;
  uncompressed_size = 3;
  serialized_message = bytes;
}

abbrev four_messages : List RclMessage
four_messages =
    message 250 (3 ∷ 1 ∷ [])
    ∷ message 3 (7 ∷ [])
    ∷ message 249 (72 ∷ 105 ∷ 0 ∷ [])
    ∷ message 251 (1 ∷ 2 ∷ 3 ∷ [])
    ∷ []

hello : to_string (message 249 (72 ∷ 105 ∷ 0 ∷ [])) ≡ some (72 ∷ 105 ∷ [])
unfolding to_string
hello = refl

-- A plugin whose state is whether the key `65 66` was given last.
abbrev one_key : Authentication Bool
one_key = record {
  get_authentication_from_user_key = λ key a. bytes_beq key (65 ∷ 66 ∷ []);
  is_valid = λ a. a;
  has_end = λ a. false;
  end_text = λ a. [];
}

abbrev config : ConnectionConfig
config = record {
  authentication_omit = false;
  publisher = camera ∷ [];
  subscriber = two_topics;
  service_action = record {
    service_server = [];
    service_client = [];
    action_server = [];
    action_client = [];
  };
}

abbrev client : Client
client = record { managers = new_managers; sent = []; answers = [] }

read_all-Dispatched_example :
    ((r : Server Bool) × (server_read_all config one_key four_messages (Server.new (some false))
        ≡ some r)
      × Dispatched four_messages new_managers r.managers)
    × ((r : Client) × (client_read_all four_messages client ≡ some r)
        × Dispatched four_messages new_managers r.managers)
read_all-Dispatched_example =
    read_all-Dispatched config one_key four_messages (Server.new (some false)) client (
      (λ e. absurd (omega (arith, e))),
      (λ e. absurd (omega (arith, e))),
      (
        (λ e. absurd (omega (arith, e))),
        (λ e. absurd (omega (arith, e))),
        (
          (λ e. absurd (omega (arith, e))),
          (λ e. (72 ∷ 105 ∷ [], hello)),
          ((λ e. absurd (omega (arith, e))), (λ e. absurd (omega (arith, e))), tt),
        ),
      ),
    )

-- A message for a topic, and a wrong key.
abbrev a_stranger : List ServerEvent
a_stranger = connected ∷ received (3 ∷ 0 ∷ 7 ∷ []) ∷ received (255 ∷ 0 ∷ 65 ∷ 0 ∷ []) ∷ []

abbrev shut_out : Server Bool
shut_out = record (Server.new (some false)) {
  managers = record new_managers {
    publisher_manager = record new_managers.publisher_manager {
      to_publish = record (message 3 (7 ∷ [])) { uncompressed_size = 1 } ∷ [];
    };
  };
  check_waits = 1;
  close_reasons = no_valid_authentication ∷ [];
}

stranger : server_run config one_key a_stranger (Server.new (some false)) ≡ some shut_out
unfolding server_run from_flat_buffer
stranger = refl

server_run-IsIdle_example :
    HasAdmitting config one_key a_stranger (Server.new (some false))
    ⊎ IsUnauthorized config one_key (server_run config one_key a_stranger (Server.new (some false)))
server_run-IsIdle_example = server_run-IsIdle config one_key a_stranger (some false) refl

-- Two connections, the first of which is asked to stop twice.
abbrev requests : List Registry.Request
requests =
    Registry.start 1 true
    ∷ Registry.start 2 true
    ∷ Registry.stop 1
    ∷ Registry.stop 1
    ∷ Registry.start 3 false
    ∷ []

stop_all_connections-closes_example :
    ((stop_all_connections (serve requests Registry.new)).connections ≡ [])
    × (closes 2 (stop_all_connections (serve requests Registry.new)).actions ≡ starts 2 requests)
stop_all_connections-closes_example = stop_all_connections-closes requests 2

abbrev key : List ℕ
key = 65 ∷ 66 ∷ []

server_step-key_bytes_example :
    server_step config one_key (received (key_bytes key)) (Server.new (some false))
    ≡ some (validate_user_key config one_key key (Server.new (some false)))
server_step-key_bytes_example =
    server_step-key_bytes config one_key key (Server.new (some false))
      (omega arith, (omega arith, tt))

read-closing_bytes_example :
    (client_read (closing_bytes key) client
      ≡ some (record client { managers = log_text (peer_closed ++ key) client.managers }))
    × (server_step config one_key (received (closing_bytes key)) (Server.new (some false))
        ≡ some (record (Server.new (some false)) {
          managers = log_text (peer_closed ++ key) new_managers;
        }))
read-closing_bytes_example =
    read-closing_bytes config one_key key client (Server.new (some false))
      (omega arith, (omega arith, tt))

-- The functions of a server's connection, with the calls of `stopConnection` that they make.
abbrev connect_server : Server Bool → Handshake.Outcome (Server Bool)
connect_server s = record { state = Server.on_connected config s; stops = 0; has_thrown = false }

abbrev read_by_server : List ℕ → Server Bool → Option (Handshake.Outcome (Server Bool))
read_by_server bytes s = server_step config one_key (received bytes) s >>= λ r. some (record {
  state = r;
  stops = length r.close_reasons - length s.close_reasons;
  has_thrown = false;
})

abbrev address : List ℕ
address = 49 ∷ 50 ∷ []

-- A handshake that succeeds, a wrong key, and a read that fails behind it.
abbrev established : List (Handshake.Event (Server Bool))
established =
    Handshake.end_request false
    ∷ Handshake.end_accept (Handshake.accepted none (some address))
    ∷ Handshake.end_read (Handshake.bytes (255 ∷ 0 ∷ 65 ∷ 0 ∷ []))
    ∷ Handshake.end_read Handshake.failed
    ∷ []

abbrev stops_asked : Option (Handshake.Running (Server Bool)) → Option ℕ
stops_asked none = none
stops_asked (some r) = some r.stop_requests

-- It asked for its stop twice.
two_stops :
    stops_asked (
      Handshake.run
        (λ _. none)
        connect_server
        read_by_server
        established
        (Handshake.server_run (λ _. none) connect_server read_by_server (Server.new (some false))))
    ≡ some 2
unfolding Handshake.run Handshake.server_run from_flat_buffer server_step
two_stops = refl

run-IsSteady_example :
    Holds
      (λ _. none)
      connect_server
      read_by_server
      (Server.new (some false))
      (Handshake.run
        (λ _. none)
        connect_server
        read_by_server
        established
        (Handshake.server_run (λ _. none) connect_server read_by_server (Server.new (some false))))
    × Holds
        (λ _. none)
        connect_server
        read_by_server
        (Server.new (some false))
        (Handshake.run
          (λ _. none)
          connect_server
          read_by_server
          (Handshake.end_accept Handshake.refused ∷ [])
          (Handshake.client_run
            (λ _. none)
            connect_server
            read_by_server
            (Server.new (some false))))
run-IsSteady_example =
    run-IsSteady (λ _. none) connect_server read_by_server (Server.new (some false)) established
      (Handshake.end_accept Handshake.refused ∷ [])
