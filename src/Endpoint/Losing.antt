-- ===== src/Endpoint/Losing.antt =====
-- A client that loses its connection, or is stopped, takes everything down
-- (src/connection/client.cpp).
use ros2_connect.Prelude.{
  ℕ, zero, suc, ◌≤◌, ◌≡◌, ◌⊎◌, refl, sym, ap, ◌∙◌, Bool, true, false, List, [], ◌∷◌, ◌++◌, inl, inr,
  if◌then◌else◌, arith, ==_self,
}
use mathlib.Core.Path.{subst}
use ros2_connect.Connection.Registry.{start_connection, is_member}
use ros2_connect.Connection.Closing.{none_left}
use ros2_connect.Endpoint.Client.{
  Link, Point, connecting, waiting, lost, ended, Client, is_client_connected, handle_error,
  connect_stream, connect_ssl, open_link, connect, stop_thread, handle_stop, run_ioc, after_connect,
  step_thread, Event, run_thread, call_stop, post, step, run, started,
}

-- Everything was stopped.
pub record IsDown (s : Client) : Type 0 where
  pub stopping : s.stopping ≡ true
  pub executor_canceled : s.executor_canceled ≡ true
  pub connections : s.connection_manager.connections ≡ []

stopped-IsDown : (p : Point) (s : Client) → IsDown (record (stop_thread s) { thread = p })
unfolding stop_thread
stopped-IsDown p s = record {
  stopping = refl;
  executor_canceled = refl;
  connections = none_left s.connection_manager;
}

not_ended : {p : Point} {X : Type 0} → (p ≡ waiting) ⊎ (p ≡ lost) → p ≡ ended → X
not_ended h e = ground (arith, h, e)

after_connect-IsDown :
    (r : Bool × Client) → (after_connect r).thread ≡ ended → IsDown (after_connect r)
unfolding after_connect
after_connect-IsDown (true, s) e = not_ended (inl refl) e
after_connect-IsDown (false, s) e = stopped-IsDown ended s

handle_stop-thread : (c : ℕ) (s : Client) → (handle_stop c s).thread ≡ s.thread
unfolding handle_stop stop_thread
handle_stop-thread c s = ground arith

run_ioc-thread : (cs : List ℕ) (s : Client) → (run_ioc cs s).thread ≡ s.thread
unfolding run_ioc
run_ioc-thread [] s = refl
run_ioc-thread (c ∷ cs) s = handle_stop-thread c (record s { handlers = cs })

wait-thread :
    (b : Bool) (s : Client)
    → s.thread ≡ waiting
    → ((if b then record s { thread = lost } else run_ioc s.handlers s).thread ≡ waiting)
      ⊎ ((if b then record s { thread = lost } else run_ioc s.handlers s).thread ≡ lost)
wait-thread true s at = inr refl
wait-thread false s at = inl (run_ioc-thread s.handlers s ∙ at)

step_thread-IsDown :
    (ssl : Bool) (l : Link) (p : Point) (s : Client)
    → s.thread ≡ p
    → (s.thread ≡ ended → IsDown s)
    → (step_thread ssl l p s).thread ≡ ended
    → IsDown (step_thread ssl l p s)
unfolding step_thread
step_thread-IsDown ssl l connecting s at v e = after_connect-IsDown (connect ssl l s) e
step_thread-IsDown ssl l waiting s at v e = not_ended (wait-thread s.ioc_stopped s at) e
step_thread-IsDown ssl l lost s at v e = stopped-IsDown ended s
step_thread-IsDown ssl l ended s at v e = v e

step-IsDown :
    (ssl : Bool) (e : Event) (s : Client)
    → (s.thread ≡ ended → IsDown s)
    → (step ssl e s).thread ≡ ended
    → IsDown (step ssl e s)
unfolding step
step-IsDown ssl (run_thread l) s v e = step_thread-IsDown ssl l s.thread s refl v e
step-IsDown ssl call_stop s v e = stopped-IsDown s.thread s
step-IsDown ssl (post c) s v e =
    let d = v e in
    record {
      stopping = d.stopping;
      executor_canceled = d.executor_canceled;
      connections = d.connections;
    }

run_from-IsDown :
    (ssl : Bool) (es : List Event) (s : Client)
    → (s.thread ≡ ended → IsDown s)
    → (run ssl es s).thread ≡ ended
    → IsDown (run ssl es s)
unfolding run
run_from-IsDown ssl [] s v = v
run_from-IsDown ssl (e ∷ es) s v = run_from-IsDown ssl es (step ssl e s) (step-IsDown ssl e s v)

-- How many steps the thread has still to go at most, once the I/O context is stopped.
unfoldable rank : Point → ℕ
rank connecting = 3
rank waiting = 2
rank lost = 1
rank ended = 0

unfoldable pub thread_steps : List Event → ℕ
thread_steps [] = 0
thread_steps (run_thread l ∷ es) = suc (thread_steps es)
thread_steps (call_stop ∷ es) = thread_steps es
thread_steps (post c ∷ es) = thread_steps es

record IsEnding (n : ℕ) (s : Client) : Type 0 where
  pub ioc_stopped : s.ioc_stopped ≡ true
  pub steps : rank s.thread ≤ n

connect-ioc_stopped :
    (ssl : Bool) (l : Link) (s : Client) → (connect ssl l s).1.ioc_stopped ≡ s.ioc_stopped
unfolding connect open_link connect_ssl connect_stream handle_error
connect-ioc_stopped ssl l s = ground arith

after_connect-IsEnding :
    (n : ℕ) (r : Bool × Client) → r.1.ioc_stopped ≡ true → 2 ≤ n → IsEnding n (after_connect r)
unfolding after_connect stop_thread rank
after_connect-IsEnding n (true, s) i h = record { ioc_stopped = i; steps = h }
after_connect-IsEnding n (false, s) i h = record { ioc_stopped = refl; steps = omega arith }

rank_at : {p q : Point} {n : ℕ} → p ≡ q → rank p ≤ n → rank q ≤ n
rank_at e h = rw⁻¹ e h

step_thread-IsEnding :
    (ssl : Bool) (n : ℕ) (l : Link) (p : Point) (s : Client)
    → s.thread ≡ p
    → IsEnding (suc n) s
    → IsEnding n (step_thread ssl l p s)
unfolding step_thread rank stop_thread
step_thread-IsEnding ssl n l connecting s at v =
    after_connect-IsEnding n (connect ssl l s) (connect-ioc_stopped ssl l s ∙ v.ioc_stopped)
      (omega (arith, rank_at at v.steps))
step_thread-IsEnding ssl n l waiting s at v =
    simp v.ioc_stopped (record { ioc_stopped = refl; steps = omega (arith, rank_at at v.steps) })
step_thread-IsEnding ssl n l lost s at v = record { ioc_stopped = refl; steps = omega arith }
step_thread-IsEnding ssl n l ended s at v = record {
  ioc_stopped = v.ioc_stopped;
  steps = rank_at (sym at) (unfold rank in omega arith);
}

rank_zero : (p : Point) → rank p ≤ 0 → p ≡ ended
unfolding rank
rank_zero p h = ground arith

run-IsEnding :
    (ssl : Bool) (n : ℕ) (es : List Event) (s : Client)
    → IsEnding n s
    → n ≤ thread_steps es
    → (run ssl es s).thread ≡ ended
unfolding run step thread_steps
run-IsEnding ssl n [] s v h = rank_zero s.thread (omega (arith, v.steps))
run-IsEnding ssl zero (run_thread l ∷ es) s v h =
    let longer : IsEnding 1 s = record {
      ioc_stopped = v.ioc_stopped;
      steps = omega (arith, v.steps);
    } in
    run-IsEnding ssl zero es (step_thread ssl l s.thread s)
      (step_thread-IsEnding ssl zero l s.thread s refl longer) (omega arith)
run-IsEnding ssl (suc n) (run_thread l ∷ es) s v h =
    run-IsEnding ssl n es (step_thread ssl l s.thread s)
      (step_thread-IsEnding ssl n l s.thread s refl v) (omega (arith, h))
run-IsEnding ssl n (call_stop ∷ es) s v h =
    run-IsEnding ssl n es (stop_thread s)
      (unfold stop_thread in record { ioc_stopped = refl; steps = v.steps }) h
run-IsEnding ssl n (post c ∷ es) s v h =
    run-IsEnding ssl n es (step ssl (post c) s)
      (record { ioc_stopped = v.ioc_stopped; steps = v.steps }) h

rank_three : (p : Point) → rank p ≤ 3
unfolding rank
rank_three p = ground arith

-- Whatever happens to a client that was started: if its thread has ended, the client is stopping,
-- the executor was canceled and no connection is left; and wherever the thread is when `stopThread`
-- is called, three more of its steps bring it to its end.
pub run-IsDown :
    (ssl : Bool) (es fs : List Event)
    → 3 ≤ thread_steps fs
    → ((run ssl es started).thread ≡ ended → IsDown (run ssl es started))
      × ((run ssl fs (stop_thread (run ssl es started))).thread ≡ ended)
run-IsDown ssl es fs h =
    let s = run ssl es started in
    (
      run_from-IsDown ssl es started (λ e. ground arith),
      run-IsEnding ssl 3 fs (stop_thread s)
          (unfold stop_thread in record { ioc_stopped = refl; steps = rank_three s.thread }) h,
    )

-- The client waits, and the next handler stops its connection.
record IsLosing (c : ℕ) (cs : List ℕ) (s : Client) : Type 0 where
  pub thread : s.thread ≡ waiting
  pub ioc_stopped : s.ioc_stopped ≡ false
  pub has_callback : s.has_callback ≡ true
  pub handlers : s.handlers ≡ c ∷ cs
  pub connection : is_member c s.connection_manager.connections ≡ true

handle_stop-ending :
    (c : ℕ) (s : Client)
    → s.has_callback ≡ true
    → is_member c s.connection_manager.connections ≡ true
    → (handle_stop c s).ioc_stopped ≡ true
unfolding handle_stop stop_thread
handle_stop-ending c s e m = ground (arith, e, m)

lose-IsEnding :
    (ssl : Bool) (c : ℕ) (cs : List ℕ) (l : Link) (s : Client)
    → IsLosing c cs s
    → IsEnding 2 (step ssl (run_thread l) s)
unfolding step
lose-IsEnding ssl c cs l s v = subst (IsEnding 2) (sym e) ending
  where
    e : step_thread ssl l s.thread s ≡ handle_stop c (record s { handlers = cs })
    e =
        unfold step_thread in
        ap (λ p. step_thread ssl l p s) v.thread
        ∙ ap (λ b. if b then record s { thread = lost } else run_ioc s.handlers s) v.ioc_stopped
        ∙ ap (λ hs. run_ioc hs s) v.handlers

    ending : IsEnding 2 (handle_stop c (record s { handlers = cs }))
    ending = record {
      ioc_stopped = handle_stop-ending c (record s { handlers = cs }) v.has_callback v.connection;
      steps =
          rank_at (sym (handle_stop-thread c (record s { handlers = cs }) ∙ v.thread))
            (unfold rank in omega arith);
    }

lose-ended :
    (ssl : Bool) (c : ℕ) (cs : List ℕ) (es : List Event) (s : Client)
    → IsLosing c cs s
    → 3 ≤ thread_steps es
    → (run ssl es s).thread ≡ ended
unfolding run step thread_steps
lose-ended ssl c cs [] s v h = elim h [ ]
lose-ended ssl c cs (run_thread l ∷ es) s v h =
    run-IsEnding ssl 2 es (step ssl (run_thread l) s) (lose-IsEnding ssl c cs l s v)
      (omega (arith, h))
lose-ended ssl c cs (call_stop ∷ es) s v h =
    run-IsEnding ssl 3 es (stop_thread s)
      (unfold stop_thread in record { ioc_stopped = refl; steps = rank_three s.thread }) h
lose-ended ssl c cs (post d ∷ es) s v h =
    lose-ended ssl c (cs ++ d ∷ []) es (step ssl (post d) s)
      (record {
        thread = v.thread;
        ioc_stopped = v.ioc_stopped;
        has_callback = v.has_callback;
        handlers = ap (λ hs. hs ++ d ∷ []) v.handlers;
        connection = v.connection;
      })
      h

-- The link that a connection needs.
pub record IsGood (ssl : Bool) (l : Link) : Type 0 where
  pub resolved : l.resolved ≡ true
  pub connected : l.connected ≡ true
  pub server_name_set : ssl ≡ true → l.server_name_set ≡ true
  pub handshake_done : ssl ≡ true → l.handshake_done ≡ true
  pub started : l.started ≡ true

-- The client with its connection.
abbrev linked : ℕ → Client
linked c = record started {
  has_callback = true;
  connection_manager = record { connections = c ∷ []; actions = [] };
}

connect-linked :
    (ssl : Bool) (l : Link) → IsGood ssl l → connect ssl l started ≡ (true, linked l.connection)
unfolding connect open_link connect_ssl connect_stream start_connection is_client_connected
connect-linked true l g =
    simp (g.resolved, g.connected, g.server_name_set refl, g.handshake_done refl, g.started) refl
connect-linked false l g = simp (g.resolved, g.connected, g.started) refl

connected-IsLosing :
    (ssl : Bool) (l : Link)
    → IsGood ssl l
    → IsLosing l.connection [] (run ssl (run_thread l ∷ post l.connection ∷ []) started)
connected-IsLosing ssl l g = subst (IsLosing l.connection []) (sym e) losing
  where
    after : Client
    after = record (linked l.connection) { handlers = l.connection ∷ []; thread = waiting }

    e : run ssl (run_thread l ∷ post l.connection ∷ []) started ≡ after
    e =
        unfold run step step_thread after_connect in
        ap (λ r. step ssl (post l.connection) (after_connect r)) (connect-linked ssl l g)

    losing : IsLosing l.connection [] after
    losing =
        unfold is_member in
        record {
          thread = refl;
          ioc_stopped = refl;
          has_callback = refl;
          handlers = refl;
          connection = rw (==_self l.connection) refl;
        }

-- If every call of `connect` succeeds and the connection asks for its stop, then whatever else
-- happens, after three more steps of its thread the client has ended: it is stopping, the executor
-- was canceled and no connection is left.
pub lost-IsDown :
    (ssl : Bool) (l : Link) (es : List Event)
    → IsGood ssl l
    → 3 ≤ thread_steps es
    → ((run ssl (run_thread l ∷ post l.connection ∷ es) started).thread ≡ ended)
      × IsDown (run ssl (run_thread l ∷ post l.connection ∷ es) started)
lost-IsDown ssl l es g h =
    let e : (run ssl (run_thread l ∷ post l.connection ∷ es) started).thread ≡ ended =
      unfold run in
      lose-ended ssl l.connection [] es (run ssl (run_thread l ∷ post l.connection ∷ []) started)
        (connected-IsLosing ssl l g) h in
    (e, run_from-IsDown ssl (run_thread l ∷ post l.connection ∷ es) started (λ x. ground arith) e)
