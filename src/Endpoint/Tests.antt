-- ===== src/Endpoint/Tests.antt =====
-- Runs of the server and the client, and the theorems at concrete inputs.
use ros2_connect.Prelude.{ℕ, suc, ◌≤◌, ◌≡◌, refl, ltb, true, false, none, List, [], ◌∷◌, arith}
use ros2_connect.Endpoint.Server.{
  accepted, canceled, Event, run_thread, call_stop, end, run, started, accepting, ended, start,
}
use ros2_connect.Endpoint.Accepts.{outstanding}
use ros2_connect.Endpoint.Accepting.{run-outstanding}
use ros2_connect.Endpoint.Ending.{run-ended, thread_steps}
use ros2_connect.Endpoint.Client.{Link}
use ros2_connect.Endpoint.Client as Client
use ros2_connect.Endpoint.Losing.{IsDown, IsGood, run-IsDown, lost-IsDown}
use ros2_connect.Endpoint.Losing as Losing
use ros2_connect.Endpoint.Thread.{Hooks}

-- A thread that accepts one connection, and waits for the next.
abbrev one_accepted : List Event
one_accepted =
    run_thread none
    ∷ run_thread none
    ∷ end (accepted 7 true)
    ∷ run_thread none
    ∷ run_thread none
    ∷ []

serving : (run one_accepted started).connection_manager.connections ≡ 7 ∷ []
unfolding run started
serving = refl

run-outstanding_example :
    (outstanding (run one_accepted started) ≤ 1)
    × ((run one_accepted started).thread ≡ accepting → outstanding (run one_accepted started) ≡ 0)
run-outstanding_example = run-outstanding one_accepted

abbrev four_steps : List Event
four_steps =
    call_stop
    ∷ run_thread none
    ∷ run_thread none
    ∷ call_stop
    ∷ run_thread none
    ∷ run_thread none
    ∷ []

run-ended_example : (run (call_stop ∷ four_steps) (run (call_stop ∷ []) started)).thread ≡ ended
unfolding run started
run-ended_example = run-ended (call_stop ∷ []) four_steps refl (unfold thread_steps in omega arith)

abbrev stop_calls : List Event
stop_calls = call_stop ∷ call_stop ∷ call_stop ∷ call_stop ∷ call_stop ∷ []

-- A handler that has tested the acceptor starts its connection behind the stop of all.
abbrev in_handler : List Event
in_handler = run_thread none ∷ run_thread none ∷ end (accepted 7 true) ∷ run_thread none ∷ []

late_connection :
    (run
      (run_thread none ∷ [])
      (run stop_calls (run in_handler started))).connection_manager.connections
    ≡ 7 ∷ []
unfolding run started
late_connection = refl

-- A thread that has tested the flag listens again behind the stop.
abbrev before_listening : List Event
before_listening =
    run_thread none
    ∷ run_thread none
    ∷ end canceled
    ∷ run_thread none
    ∷ run_thread none
    ∷ run_thread none
    ∷ run_thread none
    ∷ run_thread none
    ∷ run_thread none
    ∷ run_thread none
    ∷ run_thread none
    ∷ []

at_start : (run before_listening started).thread ≡ start
unfolding run started
at_start = refl

late_listening :
    (run (run_thread none ∷ []) (run stop_calls (run before_listening started))).is_listening ≡ true
unfolding run started
late_listening = refl

abbrev good_link : Link
good_link = record {
  resolved = true;
  connected = true;
  server_name_set = true;
  handshake_done = true;
  connection = 4;
  started = true;
}

good_link-IsGood : IsGood true good_link
good_link-IsGood = record {
  resolved = refl;
  connected = refl;
  server_name_set = λ e. refl;
  handshake_done = λ e. refl;
  started = refl;
}

abbrev three_steps : List Client.Event
three_steps =
    Client.run_thread good_link
    ∷ Client.post 9
    ∷ Client.run_thread good_link
    ∷ Client.run_thread good_link
    ∷ []

lost-IsDown_example :
    ((Client.run true
        (Client.run_thread good_link ∷ Client.post 4 ∷ three_steps)
        Client.started).thread
      ≡ Client.ended)
    × IsDown
        (Client.run true (Client.run_thread good_link ∷ Client.post 4 ∷ three_steps) Client.started)
lost-IsDown_example =
    lost-IsDown true good_link three_steps good_link-IsGood
      (unfold Losing.thread_steps in omega arith)

run-IsDown_example :
    ((Client.run false [] Client.started).thread ≡ Client.ended
      → IsDown (Client.run false [] Client.started))
    × ((Client.run false three_steps
          (Client.stop_thread (Client.run false [] Client.started))).thread
        ≡ Client.ended)
run-IsDown_example = run-IsDown false [] three_steps (unfold Losing.thread_steps in omega arith)

-- Hooks that count the stops.
abbrev counting : Hooks ℕ
counting = record {
  on_before_start_thread = λ n. (true, n);
  on_after_start_thread = λ n. n;
  on_before_stop_thread = λ n. n;
  on_stop_thread = suc;
  on_after_join_thread = λ n. n;
  run_returns = λ n. ltb 0 n;
}
