-- ===== src/Endpoint/Process.antt =====
-- src/connectServer.cpp and src/connectClient.cpp: the node with its connection, the handler of
-- signals, and `main`. The two differ in the connection that they make, in the status publisher and
-- in one executor thread.
use ros2_connect.Prelude.{
  ℕ, zero, suc, ◌+◌, ◌==◌, Bool, true, false, Option, none, some, List, [], ◌∷◌, ◌++◌,
  if◌then◌else◌, ◌>>=◌,
}
use ros2_connect.Config.Initialize.{Environment, Parameters, eval_threads, init}
use ros2_connect.Config.Global.{GlobalConfig}
use ros2_connect.Endpoint.Thread.{Hooks, Thread, new, start_thread, stop_thread, join_thread}

-- The process: its node's connection and status publisher, and whether rclcpp was shut down. The
-- connections that were given up stand in `closed`.
pub record Process {ℓ} (S : Type ℓ) : Type ℓ where
  pub connection : Option (Thread S)
  pub status_publisher : Bool
  pub is_shutdown : Bool
  pub closed : List (Thread S)

pub data Exit : Type 0 where
  failure success : Exit

-- The number of executor threads, from the result of `evalNrOfMultiThreadedExecutorThreads`; `none`
-- is a number below one.
unfoldable pub server_threads : Option ℕ → Option ℕ
server_threads none = none
server_threads (some n) = some (n + 1)

unfoldable pub client_threads : Option ℕ → Option ℕ
client_threads none = none
client_threads (some zero) = none
client_threads (some (suc n)) = some (suc n)

module _ {ℓ} {S : Type ℓ} (hooks : Hooks S) (make : S) where
  -- `spin` behind the start of the connection's thread.
  unfoldable pub spinning : Bool → Process S → Bool × Thread S → Process S
  spinning publish_status p (ok, t) = record p {
    connection = some t;
    status_publisher = publish_status;
    is_shutdown = if ok then p.is_shutdown else true;
  }

  -- `spin`, with the name of the node; `created` tells whether a std::thread can be created.
  unfoldable pub client_spin : Bool → List ℕ → Process S → Option (Process S)
  unfolding start_thread spinning
  client_spin created name p = elim (start_thread hooks created name (new make)) [
    | none ↦ none
    | some r ↦ some (spinning false p r)
  ]

  unfoldable pub server_spin : Bool → List ℕ → GlobalConfig → Process S → Option (Process S)
  unfolding start_thread spinning
  server_spin created name g p = elim (start_thread hooks created name (new make)) [
    | none ↦ none
    | some r ↦ some (spinning g.publish_status p r)
  ]

  -- The stop, the join and the reset of the connection; `none` is a join that waits for ever.
  unfoldable pub close_connection : Option (Thread S) → Process S → Option (Process S)
  unfolding stop_thread join_thread
  close_connection none p = some p
  close_connection (some t) p = join_thread hooks (stop_thread hooks t) >>= λ u.
      some (record p { connection = none; closed = p.closed ++ u ∷ [] })

  unfoldable pub halt : Process S → Option (Process S)
  unfolding close_connection
  halt p = close_connection p.connection (record p { status_publisher = false })

  -- The handler of SIGINT and SIGTERM, while there is a node.
  unfoldable pub signal : ℕ → Process S → Option (Process S)
  unfolding halt
  signal value p = if value == 2 then halt p else some (record p { is_shutdown = true })

  unfoldable pub signals : List ℕ → Process S → Option (Process S)
  unfolding signal
  signals [] p = some p
  signals (v ∷ vs) p = signal v p >>= λ q. signals vs q

  -- The end of `main`, with the halt in the node's destructor.
  unfoldable pub shut_down : Process S → Option (Process S)
  unfolding halt
  shut_down p = halt p >>= λ q. halt (record q { is_shutdown = true })

  -- The process with its exit, if it gets there.
  unfoldable pub end_well : Option (Process S) → Option (Exit × Process S)
  end_well none = none
  end_well (some p) = some (success, p)

  -- The process before the node is made, and when it gives up.
  abbrev pub new_process : Bool → Process S
  new_process is_shutdown = record {
    connection = none;
    status_publisher = false;
    is_shutdown = is_shutdown;
    closed = [];
  }

  -- `main` behind the node's `spin`, with the signals that come before `executor.spin` returns.
  -- `none` is a call of std::terminate, or a join that waits for ever.
  unfoldable pub after_spin : List ℕ → Option (Process S) → Option (Exit × Process S)
  unfolding signals shut_down end_well
  after_spin vs none = none
  after_spin vs (some p) = end_well (signals vs p >>= λ q. shut_down q)

  -- `main` from the construction of the node on, with its `spin`.
  unfoldable pub run_node :
      (GlobalConfig → Process S → Option (Process S))
      → Option GlobalConfig
      → List ℕ
      → Option (Exit × Process S)
  unfolding after_spin end_well
  run_node spin none vs = end_well (shut_down (new_process false))
  run_node spin (some g) vs = after_spin vs (spin g (new_process false))

  -- `main` with the number of threads.
  unfoldable pub exit :
      Option ℕ
      → (GlobalConfig → Process S → Option (Process S))
      → Option GlobalConfig
      → List ℕ
      → Option (Exit × Process S)
  unfolding run_node
  exit none spin g vs = some (failure, new_process true)
  exit (some n) spin g vs = run_node spin g vs

  unfoldable pub server_main :
      Environment → Parameters → GlobalConfig → Bool → List ℕ → List ℕ → Option (Exit × Process S)
  unfolding server_threads eval_threads init exit server_spin
  server_main e p g created name vs =
      exit (server_threads (eval_threads e p)) (server_spin created name) (init e p true g) vs

  unfoldable pub client_main :
      Environment → Parameters → GlobalConfig → Bool → List ℕ → List ℕ → Option (Exit × Process S)
  unfolding client_threads eval_threads init exit client_spin
  client_main e p g created name vs =
      exit (client_threads (eval_threads e p)) (λ _. client_spin created name) (init e p false g) vs
