-- ===== src/Endpoint/Server.antt =====
-- src/connection/server.cpp: the thread of the server, its acceptor and its I/O context, next to
-- a call of `stopThread` from another thread. Each of the two goes on in its own steps.
use ros2_connect.Prelude.{
  ℕ, zero, suc, Bool, true, false, Option, none, some, List, [], ◌∷◌, ◌++◌, if◌then◌else◌,
}
use ros2_connect.Connection.Registry.{
  ConnectionManager, start_connection, stop_connection_internal, stop_all_connections,
}
use ros2_connect.Connection.Registry as Registry

-- How an accept ends: with a new connection and the result of its `start`, with one whose start
-- throws, with an error, or with operation_canceled.
pub data Accept : Type 0 where
  accepted : ℕ → Bool → Accept
  throwing : ℕ → Accept
  failed canceled : Accept

-- A handler in the queue of the I/O context: that of an accept, or a connection's request to stop.
pub data Handler : Type 0 where
  accept : Accept → Handler
  stop_connection : ℕ → Handler

-- The call in `startListening` that reports an error.
pub data ListenError : Type 0 where
  resolving opening setting binding listening : ListenError

-- Where the thread is in `run`.
pub data Point : Type 0 where
  outer inner start sleeping checked accepting running : Point
  handling : Accept → Point
  returned lost restarting ended : Point

-- How far a call of `stopThread` is.
pub data Stop : Type 0 where
  uncalled flagged halted deaf cleared complete : Stop

pub record Server : Type 0 where
  pub stopping : Bool
  pub is_listening : Bool
  pub is_open : Bool
  pub ioc_stopped : Bool
  pub accepts : ℕ
  pub handlers : List Handler
  pub connection_manager : ConnectionManager
  pub executor_canceled : Bool
  pub thread : Point
  pub stop : Stop

-- The accepts that wait, as handlers with operation_canceled.
unfoldable pub cancel : ℕ → List Handler
cancel zero = []
cancel (suc n) = accept canceled ∷ cancel n

-- `acceptor.close`.
unfoldable pub close : Server → Server
unfolding cancel
close s = record s { is_open = false; accepts = 0; handlers = s.handlers ++ cancel s.accepts }

unfoldable pub handle_error : Server → Bool × Server
unfolding close
handle_error s = (false, if s.is_open then close s else s)

-- From `acceptor.open` on, which needs a closed acceptor.
unfoldable pub open_acceptor : Option ListenError → Server → Bool × Server
unfolding handle_error
open_acceptor (some e) s = handle_error (record s { is_open = true })
open_acceptor none s = (true, record s { is_open = true; is_listening = true })

unfoldable pub start_listening : Option ListenError → Server → Bool × Server
unfolding handle_error open_acceptor
start_listening (some resolving) s = handle_error s
start_listening (some opening) s = handle_error s
start_listening (some setting) s =
    if s.is_open then handle_error s else open_acceptor (some setting) s
start_listening (some binding) s =
    if s.is_open then handle_error s else open_acceptor (some binding) s
start_listening (some listening) s =
    if s.is_open then handle_error s else open_acceptor (some listening) s
start_listening none s = if s.is_open then handle_error s else open_acceptor none s

unfoldable pub stop_listening : Server → Server
unfolding close
stop_listening s = close (record s { is_listening = false })

-- An accept on a closed acceptor ends with an error.
unfoldable pub async_accept : Server → Server
async_accept s =
    if s.is_open
    then record s { accepts = suc s.accepts }
    else record s { handlers = s.handlers ++ accept failed ∷ [] }

unfoldable pub on_before_start_thread : Option ListenError → Server → Bool × Server
unfolding start_listening
on_before_start_thread e s = start_listening e (record s { ioc_stopped = false })

-- The handler of an accept, behind its test of the acceptor.
unfoldable pub on_accept : Accept → Server → Server
unfolding async_accept start_connection
on_accept failed s = async_accept (record s { thread = running })
on_accept canceled s = record s { thread = running }
on_accept (throwing c) s = record s { thread = lost }
on_accept (accepted c started) s = async_accept (record s {
  thread = running;
  connection_manager = start_connection c started s.connection_manager;
})

-- Without a handler the I/O context waits for an accept, or is out of work.
unfoldable pub idle : ℕ → Server → Server
idle zero s = record s { ioc_stopped = true; thread = returned }
idle (suc n) s = s

-- The I/O context runs the next handler.
unfoldable pub handle_next : List Handler → Server → Server
unfolding idle stop_connection_internal
handle_next [] s = idle s.accepts s
handle_next (accept r ∷ hs) s = record s {
  handlers = hs;
  thread = if s.is_open then handling r else running;
}
handle_next (stop_connection c ∷ hs) s = record s {
  handlers = hs;
  connection_manager = stop_connection_internal c true s.connection_manager;
}

unfoldable pub listened : Bool × Server → Server
listened (started, s) = record s { thread = if started then checked else sleeping }

-- A step of the thread in `run`, with the error of a `startListening`, if there is one.
unfoldable pub step_thread : Option ListenError → Point → Server → Server
unfolding listened handle_next on_accept async_accept start_listening stop_listening
step_thread e outer s = record s {
  thread = if s.stopping then ended else if s.is_listening then accepting else inner;
}
step_thread e inner s = record s { thread = if s.stopping then checked else start }
step_thread e start s = listened (start_listening e s)
step_thread e sleeping s = record s { thread = inner }
step_thread e checked s = record s { thread = if s.stopping then ended else accepting }
step_thread e accepting s = async_accept (record s { thread = running })
step_thread e running s =
    if s.ioc_stopped then record s { thread = returned } else handle_next s.handlers s
step_thread e (handling r) s = on_accept r s
step_thread e returned s = record s { thread = if s.stopping then ended else lost }
step_thread e lost s = stop_listening (record s { thread = restarting })
step_thread e restarting s = record s { ioc_stopped = false; thread = outer }
step_thread e ended s = s

-- The next call that `stopThread` with the server's `onStopThread` makes.
unfoldable pub step_stop : Stop → Server → Server
unfolding stop_listening stop_all_connections
step_stop uncalled s = record s { stopping = true; stop = flagged }
step_stop flagged s = record s { ioc_stopped = true; stop = halted }
step_stop halted s = stop_listening (record s { stop = deaf })
step_stop deaf s = record s {
  connection_manager = stop_all_connections s.connection_manager;
  stop = cleared;
}
step_stop cleared s = record s { executor_canceled = true; stop = complete }
step_stop complete s = s

-- A waiting accept ends.
unfoldable pub end_accept : Accept → ℕ → Server → Server
end_accept r zero s = s
end_accept r (suc n) s = record s { accepts = n; handlers = s.handlers ++ accept r ∷ [] }

-- What can happen next: a step of the thread, of the call of `stopThread`, the end of an accept,
-- and a connection's request to stop, which is posted to the strand.
pub data Event : Type 0 where
  run_thread : Option ListenError → Event
  call_stop : Event
  end : Accept → Event
  post : ℕ → Event

unfoldable pub step : Event → Server → Server
unfolding step_thread step_stop end_accept
step (run_thread e) s = step_thread e s.thread s
step call_stop s = step_stop s.stop s
step (end r) s = end_accept r s.accepts s
step (post c) s = record s { handlers = s.handlers ++ stop_connection c ∷ [] }

unfoldable pub run : List Event → Server → Server
unfolding step
run [] s = s
run (e ∷ es) s = run es (step e s)

-- The server as constructed, and with its thread in `run` after a successful start.
abbrev pub new : Server
new = record {
  stopping = false;
  is_listening = false;
  is_open = false;
  ioc_stopped = false;
  accepts = 0;
  handlers = [];
  connection_manager = Registry.new;
  executor_canceled = false;
  thread = outer;
  stop = uncalled;
}

unfoldable pub started : Server
unfolding on_before_start_thread
started = (on_before_start_thread none new).1
