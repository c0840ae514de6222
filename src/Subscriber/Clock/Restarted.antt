-- ===== src/Subscriber/Clock/Restarted.antt =====
-- What happens when the clock is started while it runs (src/subscriber/clockSubscriber.cpp, called
-- from src/subscriber/subscriberManager.cpp).
use ros2_connect.Prelude.{
  ℕ, zero, suc, ◌+◌, ◌≤◌, ◌≡◌, refl, Bool, true, false, some, List, [], ◌∷◌, length, length-append,
  arith,
}
use ros2_connect.Subscriber.Clock.{
  ClockSubscriber, end_waits, restart_timer, start, send_clock, on_wait, handle_next, run_ioc,
  Event, started, stopped, expired, thread_stopped, handled, threw, step, run,
}
use ros2_connect.Subscriber.Clock.Chains.{chains, IsUndisturbed, IsReturning, state}

-- How often the thread comes back to the I/O context.
unfoldable pub turns : List Event → ℕ
turns [] = 0
turns (handled bytes ∷ es) = suc (turns es)
turns (started ∷ es) = turns es
turns (stopped ∷ es) = turns es
turns (thread_stopped ∷ es) = turns es
turns (expired ∷ es) = turns es
turns (threw ∷ es) = turns es

-- More than one chain, so that a handler is there at once.
record IsBusy (n : ℕ) (s : ClockSubscriber) : Type 0 where
  pub timer_running : s.timer_running ≡ true
  pub ioc_stopped : s.ioc_stopped ≡ false
  pub chains : 2 ≤ chains s
  pub handlers : 1 ≤ s.handlers
  pub sent : length s.sent ≡ n

run_ioc-IsBusy :
    (bytes : List ℕ) (n : ℕ) (r b i : Bool) (w h : ℕ) (d : List (List ℕ))
    → IsBusy n (state r b i w h d)
    → IsBusy (suc n) (run_ioc (some bytes) (state r b i w h d))
unfolding run_ioc handle_next on_wait restart_timer end_waits send_clock
run_ioc-IsBusy bytes n r b true w h d v = ground (arith, v.ioc_stopped)
run_ioc-IsBusy bytes n r b false w zero d v = elim v.handlers [ ]
run_ioc-IsBusy bytes n true b false w (suc h) d v = record {
  timer_running = refl;
  ioc_stopped = refl;
  chains = omega (arith, v.chains);
  handlers = omega (arith, v.chains);
  sent = omega (arith, v.sent, length-append d (_ ∷ []));
}
run_ioc-IsBusy bytes n false b false w (suc h) d v = ground (arith, v.timer_running)

run-IsBusy :
    (es : List Event) (n : ℕ) (s : ClockSubscriber)
    → IsUndisturbed es
    → IsReturning es
    → IsBusy n s
    → IsBusy (n + turns es) (run es s)
unfolding run step turns
run-IsBusy [] n s u t v = record {
  timer_running = v.timer_running;
  ioc_stopped = v.ioc_stopped;
  chains = v.chains;
  handlers = v.handlers;
  sent = omega (arith, v.sent);
}
run-IsBusy (threw ∷ es) n s u t v = absurd t
run-IsBusy (started ∷ es) n s u t v = absurd u
run-IsBusy (stopped ∷ es) n s u t v = absurd u
run-IsBusy (thread_stopped ∷ es) n s u t v = absurd u
run-IsBusy (expired ∷ es) n s u t v = run-IsBusy es n (end_waits s) u t (
    unfold end_waits in
    record {
      timer_running = v.timer_running;
      ioc_stopped = v.ioc_stopped;
      chains = omega (arith, v.chains);
      handlers = omega (arith, v.handlers);
      sent = v.sent;
    })
run-IsBusy (handled bytes ∷ es) n s u t v =
    let q =
      run_ioc-IsBusy bytes n s.timer_running s.stopping s.ioc_stopped s.waits s.handlers s.sent v in
    let r = run-IsBusy es (suc n) (run_ioc (some bytes) s) u t q in
    record {
      timer_running = r.timer_running;
      ioc_stopped = r.ioc_stopped;
      chains = r.chains;
      handlers = r.handlers;
      sent = omega (arith, r.sent);
    }

-- If a clock whose timer runs and has a wait or a handler to come is started again, then from then
-- on, until somebody starts or stops it, and while every call of `sendClock` returns, its thread sends a message every time that it comes to the
-- I/O context, whether or not the timer has expired, and finds another handler to run at once.
pub start-busy :
    (s : ClockSubscriber) (es : List Event)
    → s.ioc_stopped ≡ false
    → 1 ≤ chains s
    → IsUndisturbed es
    → IsReturning es
    → (length (run es (start s)).sent ≡ length s.sent + turns es)
      × (1 ≤ (run es (start s)).handlers)
start-busy s es i h u t =
    let again : IsBusy (length s.sent) (start s) =
      unfold start restart_timer end_waits in
      record {
        timer_running = refl;
        ioc_stopped = i;
        chains = omega (arith, h);
        handlers = omega (arith, h);
        sent = refl;
      } in
    let r = run-IsBusy es (length s.sent) (start s) u t again in (r.sent, r.handlers)
