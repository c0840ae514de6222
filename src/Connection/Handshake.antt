-- ===== src/Connection/Handshake.antt =====
-- The thread of a connection, from the handshake to its last read: `run` of
-- src/websocketConnection/server/websocketServerConnection.cpp and of
-- src/websocketConnection/client/websocketClientConnection.hpp.
use ros2_connect.Prelude.{
  ℕ, zero, suc, ◌+◌, ◌==◌, Bool, true, false, Option, none, some, List, [], ◌∷◌, if◌then◌else◌,
  ◌>>=◌,
}

-- How the handshake ends: with an error, with an exception before `onConnected`, or well. The server
-- then has the text of the header X-Forwarded-For and the address of the socket, if there are any.
pub data Accepted : Type 0 where
  refused threw : Accepted
  accepted : Option (List ℕ) → Option (List ℕ) → Accepted

pub data Received : Type 0 where
  failed : Received
  bytes : List ℕ → Received

-- What a function that a handler calls leaves behind: the state, how often it asked for the stop of
-- the connection, and whether it threw an exception, which can come in the middle of its changes.
pub record Outcome (S : Type 0) : Type 0 where
  pub state : S
  pub stops : ℕ
  pub has_thrown : Bool

-- `requests`, `accepts` and `reads` count the operations of the handshake and of reading that did not
-- end yet, `stop_requests` the calls of `stopConnection`, and `connections` those of `onConnected`.
-- An exception of a handler ends `ioc->run()`, and with it the thread. `state` is the rest of the
-- connection, its queue of writes and its timers included.
pub record Running (S : Type 0) : Type 0 where
  pub is_open : Bool
  pub is_running : Bool
  pub requests : ℕ
  pub accepts : ℕ
  pub reads : ℕ
  pub stop_requests : ℕ
  pub connections : ℕ
  pub remote_endpoint : List ℕ
  pub state : S

-- What can happen: an operation ends, if it is there, another handler runs, of a write or a timer,
-- or the stream is closed.
pub data Event (S : Type 0) : Type 0 where
  end_request : Bool → Event S
  end_accept : Accepted → Event S
  end_read : Received → Event S
  handler : (S → Outcome S) → Event S
  shut : Event S

-- The remote endpoint; `search` is the search for an address in a text.
unfoldable pub find_endpoint :
    (List ℕ → Option (List ℕ)) → Option (List ℕ) → Option (List ℕ) → List ℕ → List ℕ
find_endpoint search none none old = old
find_endpoint search none (some address) old = address
find_endpoint search (some text) address old = elim (search text) [
  | some ip ↦ ip
  | none ↦ elim address [ none ↦ old | some a ↦ a ]
]

module _ {S : Type 0} (search : List ℕ → Option (List ℕ)) (on_connected : S → Outcome S)
    (read : List ℕ → S → Option (Outcome S)) where
  -- Where the server's thread begins, and where the client's does.
  unfoldable pub server_run : S → Running S
  server_run s = record {
    is_open = true;
    is_running = true;
    requests = 1;
    accepts = 0;
    reads = 0;
    stop_requests = 0;
    connections = 0;
    remote_endpoint = [];
    state = s;
  }

  unfoldable pub client_run : S → Running S
  unfolding server_run
  client_run s = record (server_run s) { requests = 0; accepts = 1 }

  unfoldable pub stop_connection : Running S → Running S
  stop_connection s = record s { stop_requests = suc s.stop_requests }

  unfoldable pub async_read : Running S → Running S
  async_read s = if s.is_open then record s { reads = suc s.reads } else s

  -- The end of `run` behind an exception.
  unfoldable pub on_exception : Running S → Running S
  unfolding stop_connection
  on_exception s = stop_connection (record s { is_running = false })

  unfoldable pub settle : Outcome S → Running S → Running S
  settle o s = record s { state = o.state; stop_requests = s.stop_requests + o.stops }

  -- A handler behind the function that it called, up to its `asyncRead`.
  unfoldable pub go_on : Outcome S → Running S → Running S
  unfolding on_exception settle async_read
  go_on o s = if o.has_thrown then on_exception (settle o s) else async_read (settle o s)

  -- The handler of the request's read.
  unfoldable pub on_request : Bool → Running S → Running S
  unfolding stop_connection
  on_request true s = stop_connection s
  on_request false s = record s { accepts = suc s.accepts }

  -- The handler of the handshake.
  unfoldable pub on_accept : Accepted → Running S → Running S
  unfolding stop_connection on_exception go_on find_endpoint
  on_accept refused s = stop_connection s
  on_accept threw s = on_exception s
  on_accept (accepted forwarded address) s = go_on (on_connected s.state) (record s {
    remote_endpoint = find_endpoint search forwarded address s.remote_endpoint;
    connections = suc s.connections;
  })

  -- The handler of a read; `none` is a read behind the end of the bytes.
  unfoldable pub on_read : Received → Running S → Option (Running S)
  unfolding stop_connection go_on
  on_read failed s = some (stop_connection s)
  on_read (bytes b) s = read b s.state >>= λ o. some (go_on o s)

  -- Another handler; those of the writes and timers are started by `onConnected` or later.
  unfoldable pub on_handler : Outcome S → Running S → Running S
  unfolding on_exception settle
  on_handler o s =
      if s.connections == 0
      then s
      else (if o.has_thrown then on_exception (settle o s) else settle o s)

  unfoldable pub request_ended : Bool → ℕ → Running S → Running S
  unfolding on_request
  request_ended bad zero s = s
  request_ended bad (suc n) s = on_request bad (record s { requests = n })

  unfoldable pub accept_ended : Accepted → ℕ → Running S → Running S
  unfolding on_accept
  accept_ended a zero s = s
  accept_ended a (suc n) s = on_accept a (record s { accepts = n })

  unfoldable pub read_ended : Received → ℕ → Running S → Option (Running S)
  unfolding on_read
  read_ended r zero s = some s
  read_ended r (suc n) s = on_read r (record s { reads = n })

  -- Handlers run as long as the thread does.
  unfoldable pub react : Event S → Running S → Option (Running S)
  unfolding request_ended accept_ended read_ended on_handler
  react (end_request bad) s = some (request_ended bad s.requests s)
  react (end_accept a) s = some (accept_ended a s.accepts s)
  react (end_read r) s = read_ended r s.reads s
  react (handler f) s = some (on_handler (f s.state) s)
  react shut s = some (record s { is_open = false })

  -- Behind the end of the thread, the stream can still be closed.
  unfoldable pub outlive : Event S → Running S → Option (Running S)
  outlive (end_request bad) s = some s
  outlive (end_accept a) s = some s
  outlive (end_read r) s = some s
  outlive (handler f) s = some s
  outlive shut s = some (record s { is_open = false })

  unfoldable pub step : Event S → Running S → Option (Running S)
  unfolding react outlive
  step e s = if s.is_running then react e s else outlive e s

  unfoldable pub run : List (Event S) → Running S → Option (Running S)
  unfolding step
  run [] s = some s
  run (e ∷ es) s = step e s >>= λ r. run es r
