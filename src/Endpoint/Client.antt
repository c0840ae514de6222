-- ===== src/Endpoint/Client.antt =====
-- src/connection/client.cpp: the thread of the client, which makes one connection, waits until it
-- is lost, and stops everything.
use ros2_connect.Prelude.{ℕ, Bool, true, false, not, ◌||◌, List, [], ◌∷◌, ◌++◌, if◌then◌else◌}
use ros2_connect.Connection.Registry.{
  ConnectionManager, start_connection, is_member, stop_connection_internal, stop_all_connections,
}
use ros2_connect.Connection.Registry as Registry

-- What the network does when the client connects: the results of the calls in `connect`, and the
-- connection with the result of its `start`.
pub record Link : Type 0 where
  pub resolved : Bool
  pub connected : Bool
  pub server_name_set : Bool
  pub handshake_done : Bool
  pub connection : ℕ
  pub started : Bool

-- Where the thread is in `run`.
pub data Point : Type 0 where
  connecting waiting lost ended : Point

-- `handlers` are the connections that asked the strand to stop them.
pub record Client : Type 0 where
  pub stopping : Bool
  pub is_connecting : Bool
  pub ioc_stopped : Bool
  pub has_callback : Bool
  pub handlers : List ℕ
  pub connection_manager : ConnectionManager
  pub executor_canceled : Bool
  pub thread : Point

unfoldable pub is_client_connected : ConnectionManager → Bool
is_client_connected m = elim m.connections [ [] ↦ false | c ∷ cs ↦ true ]

unfoldable pub handle_error : Client → Bool × Client
handle_error s = (false, record s { is_connecting = false })

-- The end of `connect`, for either kind of stream.
unfoldable pub connect_stream : Link → Client → Bool × Client
unfolding start_connection
connect_stream l s = (
  true,
  record s {
    connection_manager = start_connection l.connection l.started s.connection_manager;
    is_connecting = false;
  },
)

unfoldable pub connect_ssl : Link → Client → Bool × Client
unfolding handle_error connect_stream
connect_ssl l s =
    if not l.server_name_set
    then handle_error s
    else (if not l.handshake_done then handle_error s else connect_stream l s)

-- `connect` behind the test whether there is a connection.
unfoldable pub open_link : Bool → Link → Client → Bool × Client
unfolding handle_error connect_ssl connect_stream
open_link ssl l s =
    if not l.resolved
    then handle_error s
    else (if not l.connected
        then handle_error s
        else (if ssl then connect_ssl l s else connect_stream l s))

unfoldable pub connect : Bool → Link → Client → Bool × Client
unfolding is_client_connected open_link
connect ssl l s =
    if s.is_connecting || is_client_connected s.connection_manager
    then (true, s)
    else open_link ssl l (record s { is_connecting = true; has_callback = true })

-- `Thread::stopThread` with `onStopThread`.
unfoldable pub stop_thread : Client → Client
unfolding stop_all_connections
stop_thread s = record s {
  stopping = true;
  ioc_stopped = true;
  connection_manager = stop_all_connections s.connection_manager;
  executor_canceled = true;
}

-- A request to stop a connection. The callback, once it is set, stops the client.
unfoldable pub handle_stop : ℕ → Client → Client
unfolding is_member stop_connection_internal stop_thread
handle_stop c s =
    let stopped = record s {
      connection_manager = stop_connection_internal c true s.connection_manager;
    } in
    let called = if s.has_callback then stop_thread stopped else stopped in
    if is_member c s.connection_manager.connections then called else stopped

-- `ioc.run`, which a work guard keeps from returning without a stop: the next handler.
unfoldable pub run_ioc : List ℕ → Client → Client
unfolding handle_stop
run_ioc [] s = s
run_ioc (c ∷ cs) s = handle_stop c (record s { handlers = cs })

-- `run` behind the call of `connect`.
unfoldable pub after_connect : Bool × Client → Client
unfolding stop_thread
after_connect (ok, s) =
    if ok then record s { thread = waiting } else record (stop_thread s) { thread = ended }

-- A step of the thread in `run`.
unfoldable pub step_thread : Bool → Link → Point → Client → Client
unfolding connect after_connect run_ioc stop_thread
step_thread ssl l connecting s = after_connect (connect ssl l s)
step_thread ssl l waiting s =
    if s.ioc_stopped then record s { thread = lost } else run_ioc s.handlers s
step_thread ssl l lost s = record (stop_thread s) { thread = ended }
step_thread ssl l ended s = s

-- What can happen next: a step of the thread, a call of `stopThread` from another thread, and a
-- connection's request to stop.
pub data Event : Type 0 where
  run_thread : Link → Event
  call_stop : Event
  post : ℕ → Event

unfoldable pub step : Bool → Event → Client → Client
unfolding step_thread stop_thread
step ssl (run_thread l) s = step_thread ssl l s.thread s
step ssl call_stop s = stop_thread s
step ssl (post c) s = record s { handlers = s.handlers ++ c ∷ [] }

unfoldable pub run : Bool → List Event → Client → Client
unfolding step
run ssl [] s = s
run ssl (e ∷ es) s = run ssl es (step ssl e s)

-- The client behind `onBeforeStartThread`, which restarts the I/O context.
abbrev pub started : Client
started = record {
  stopping = false;
  is_connecting = false;
  ioc_stopped = false;
  has_callback = false;
  handlers = [];
  connection_manager = Registry.new;
  executor_canceled = false;
  thread = connecting;
}
