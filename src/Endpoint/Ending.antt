-- ===== src/Endpoint/Ending.antt =====
-- The thread of a server that is stopped comes to its end (src/connection/server.cpp).
use ros2_connect.Prelude.{
  ℕ, zero, suc, ◌≤◌, ◌≡◌, refl, ap, ◌∙◌, Bool, true, false, Option, List, [], ◌∷◌, arith,
}
use ros2_connect.Connection.Registry.{start_connection}
use ros2_connect.Endpoint.Server.{
  Accept, accepted, throwing, failed, canceled, ListenError, Point, outer, inner, start, sleeping,
  checked, accepting, running, handling, returned, lost, restarting, ended, Stop, uncalled, flagged,
  halted, deaf, cleared, complete, Server, close, start_listening, stop_listening, async_accept,
  on_accept, listened, step_thread, step_stop, end_accept, Event, run_thread, call_stop, end, post,
  step, run, started,
}
use ros2_connect.Endpoint.Accepts.{start_listening-IsBelow, async_accept-IsNext, is_called}
use ros2_connect.Endpoint.Accepting.{run-IsSound, started-IsSound}

-- How many steps the thread has still to go at most.
unfoldable rank : Point → ℕ
rank outer = 1
rank inner = 2
rank start = 4
rank sleeping = 3
rank checked = 1
rank accepting = 3
rank running = 2
rank (handling r) = 4
rank returned = 1
rank lost = 3
rank restarting = 2
rank ended = 0

-- The places where the thread relies on the stopped I/O context.
unfoldable relies : Point → Bool
relies accepting = true
relies running = true
relies (handling r) = true
relies outer = false
relies inner = false
relies start = false
relies sleeping = false
relies checked = false
relies returned = false
relies lost = false
relies restarting = false
relies ended = false

record IsEnding (n : ℕ) (s : Server) : Type 0 where
  pub stopping : s.stopping ≡ true
  pub halt : relies s.thread ≡ true → s.ioc_stopped ≡ true
  pub steps : rank s.thread ≤ n

-- The thread's own steps among the events.
unfoldable pub thread_steps : List Event → ℕ
thread_steps [] = 0
thread_steps (run_thread e ∷ es) = suc (thread_steps es)
thread_steps (call_stop ∷ es) = thread_steps es
thread_steps (end r ∷ es) = thread_steps es
thread_steps (post c ∷ es) = thread_steps es

rank_at : {p q : Point} {n : ℕ} → p ≡ q → rank p ≤ n → rank q ≤ n
rank_at e h = rw⁻¹ e h

async-IsEnding :
    (n : ℕ) (s : Server)
    → s.thread ≡ running
    → s.stopping ≡ true
    → s.ioc_stopped ≡ true
    → 2 ≤ n
    → IsEnding n (async_accept s)
async-IsEnding n s at e i h =
    let b = async_accept-IsNext s in
    record {
      stopping = b.stopping ∙ e;
      halt = λ l. b.ioc_stopped ∙ i;
      steps = rw (b.thread ∙ at) (unfold rank in h);
    }

on_accept-IsEnding :
    (n : ℕ) (r : Accept) (s : Server)
    → s.stopping ≡ true
    → s.ioc_stopped ≡ true
    → 3 ≤ n
    → IsEnding n (on_accept r s)
unfolding on_accept
on_accept-IsEnding n failed s e i h =
    async-IsEnding n (record s { thread = running }) refl e i (omega (arith, h))
on_accept-IsEnding n canceled s e i h = record {
  stopping = e;
  halt = λ l. i;
  steps = unfold rank in omega (arith, h);
}
on_accept-IsEnding n (throwing c) s e i h = record {
  stopping = e;
  halt = λ l. i;
  steps = unfold rank in h;
}
on_accept-IsEnding n (accepted c ok) s e i h =
    async-IsEnding n
      (record s {
        thread = running;
        connection_manager = start_connection c ok s.connection_manager;
      })
      refl e i (omega (arith, h))

listened-IsEnding :
    (n : ℕ) (r : Bool × Server) → r.1.stopping ≡ true → 3 ≤ n → IsEnding n (listened r)
unfolding listened rank relies
listened-IsEnding n (true, s) e h = record {
  stopping = e;
  halt = λ l. ground arith;
  steps = omega (arith, h);
}
listened-IsEnding n (false, s) e h = record {
  stopping = e;
  halt = λ l. ground arith;
  steps = omega (arith, h);
}

step_thread-IsEnding :
    (n : ℕ) (e : Option ListenError) (p : Point) (s : Server)
    → s.thread ≡ p
    → IsEnding (suc n) s
    → IsEnding n (step_thread e p s)
unfolding step_thread rank relies
step_thread-IsEnding n e outer s at v = record {
  stopping = v.stopping;
  halt = λ l. ground (arith, v.stopping);
  steps = ground (arith, v.stopping);
}
step_thread-IsEnding n e inner s at v = record {
  stopping = v.stopping;
  halt = λ l. ground (arith, v.stopping);
  steps = ground (arith, v.stopping, rank_at at v.steps);
}
step_thread-IsEnding n e start s at v =
    listened-IsEnding n (start_listening e s) ((start_listening-IsBelow e s).stopping ∙ v.stopping)
      (omega (arith, rank_at at v.steps))
step_thread-IsEnding n e sleeping s at v = record {
  stopping = v.stopping;
  halt = λ l. ground arith;
  steps = omega (arith, rank_at at v.steps);
}
step_thread-IsEnding n e checked s at v = record {
  stopping = v.stopping;
  halt = λ l. ground (arith, v.stopping);
  steps = ground (arith, v.stopping);
}
step_thread-IsEnding n e accepting s at v =
    async-IsEnding n (record s { thread = running }) refl v.stopping (v.halt (ap relies at))
      (omega (arith, rank_at at v.steps))
step_thread-IsEnding n e running s at v = simp (v.halt (ap relies at)) (record {
  stopping = v.stopping;
  halt = λ l. ground arith;
  steps = omega (arith, rank_at at v.steps);
})
step_thread-IsEnding n e (handling r) s at v =
    on_accept-IsEnding n r s v.stopping (v.halt (ap relies at)) (omega (arith, rank_at at v.steps))
step_thread-IsEnding n e returned s at v = record {
  stopping = v.stopping;
  halt = λ l. ground (arith, v.stopping);
  steps = ground (arith, v.stopping);
}
step_thread-IsEnding n e lost s at v =
    unfold stop_listening close in
    record {
      stopping = v.stopping;
      halt = λ l. ground arith;
      steps = omega (arith, rank_at at v.steps);
    }
step_thread-IsEnding n e restarting s at v = record {
  stopping = v.stopping;
  halt = λ l. ground arith;
  steps = omega (arith, rank_at at v.steps);
}
step_thread-IsEnding n e ended s at v = record {
  stopping = v.stopping;
  halt = v.halt;
  steps = fewer;
}
  where
    fewer : rank s.thread ≤ n
    fewer = rw at (unfold rank in omega arith)

step_stop-IsEnding : (n : ℕ) (q : Stop) (s : Server) → IsEnding n s → IsEnding n (step_stop q s)
unfolding step_stop stop_listening close
step_stop-IsEnding n uncalled s v = record { stopping = refl; halt = v.halt; steps = v.steps }
step_stop-IsEnding n flagged s v = record {
  stopping = v.stopping;
  halt = λ l. refl;
  steps = v.steps;
}
step_stop-IsEnding n halted s v = record { stopping = v.stopping; halt = v.halt; steps = v.steps }
step_stop-IsEnding n deaf s v = record { stopping = v.stopping; halt = v.halt; steps = v.steps }
step_stop-IsEnding n cleared s v = record { stopping = v.stopping; halt = v.halt; steps = v.steps }
step_stop-IsEnding n complete s v = v

end_accept-IsEnding :
    (n : ℕ) (r : Accept) (m : ℕ) (s : Server) → IsEnding n s → IsEnding n (end_accept r m s)
unfolding end_accept
end_accept-IsEnding n r zero s v = v
end_accept-IsEnding n r (suc m) s v = record {
  stopping = v.stopping;
  halt = v.halt;
  steps = v.steps;
}

rank_zero : (p : Point) → rank p ≤ 0 → p ≡ ended
unfolding rank
rank_zero p h = ground arith

run-IsEnding :
    (n : ℕ) (es : List Event) (s : Server)
    → IsEnding n s
    → n ≤ thread_steps es
    → IsEnding 0 (run es s)
unfolding run step thread_steps
run-IsEnding zero [] s v h = v
run-IsEnding (suc n) [] s v h = elim h [ ]
run-IsEnding zero (run_thread e ∷ es) s v h =
    run-IsEnding zero es (step_thread e s.thread s)
      (step_thread-IsEnding zero e s.thread s refl
        (record { stopping = v.stopping; halt = v.halt; steps = omega (arith, v.steps) }))
      (omega arith)
run-IsEnding (suc n) (run_thread e ∷ es) s v h =
    run-IsEnding n es (step_thread e s.thread s) (step_thread-IsEnding n e s.thread s refl v)
      (omega (arith, h))
run-IsEnding n (call_stop ∷ es) s v h =
    run-IsEnding n es (step_stop s.stop s) (step_stop-IsEnding n s.stop s v) h
run-IsEnding n (end r ∷ es) s v h =
    run-IsEnding n es (end_accept r s.accepts s) (end_accept-IsEnding n r s.accepts s v) h
run-IsEnding n (post c ∷ es) s v h =
    run-IsEnding n es (step (post c) s)
      (record { stopping = v.stopping; halt = v.halt; steps = v.steps }) h

rank_four : (p : Point) → rank p ≤ 4
unfolding rank
rank_four p = ground arith

-- Wherever the thread of a started server is when `stopThread` is about to stop the I/O context,
-- and whatever happens behind this stop, the thread has come to its end after four of its own steps.
pub run-ended :
    (es fs : List Event)
    → (run es started).stop ≡ flagged
    → 4 ≤ thread_steps fs
    → (run (call_stop ∷ fs) (run es started)).thread ≡ ended
run-ended es fs e h =
    let s = run es started in
    let v = run-IsSound es started started-IsSound in
    let called : s.stopping ≡ true = v.flag ∙ unfold is_called in ap is_called e in
    let begun : IsEnding 4 (step_stop flagged s) =
      unfold step_stop in
      record { stopping = called; halt = λ l. refl; steps = rank_four s.thread } in
    let r = run-IsEnding 4 fs (step_stop flagged s) begun h in
    unfold run step in
    ap (λ q. (run fs (step_stop q s)).thread) e
    ∙ rank_zero (run fs (step_stop flagged s)).thread r.steps
