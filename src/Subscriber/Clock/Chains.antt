-- ===== src/Subscriber/Clock/Chains.antt =====
-- The chains of waits that the clock's timer keeps going (src/subscriber/clockSubscriber.cpp).
use ros2_connect.Prelude.{
  ℕ, zero, suc, ◌+◌, ◌≤◌, ◌≡◌, refl, sym, ◌∙◌, Bool, true, false, none, some, if◌then◌else◌, List,
  [], ◌∷◌, length, length-append, arith,
}
use ros2_connect.Subscriber.Clock.{
  ClockSubscriber, new, end_waits, restart_timer, start, stop, send_clock, on_wait, stop_thread,
  handle_next, run_ioc, Event, started, stopped, expired, thread_stopped, handled, threw, step, run,
}

-- The waits, and the handlers to run.
abbrev pub chains : ClockSubscriber → ℕ
chains s = s.waits + s.handlers

unfoldable pub starts : List Event → ℕ
starts [] = 0
starts (started ∷ es) = suc (starts es)
starts (stopped ∷ es) = starts es
starts (expired ∷ es) = starts es
starts (thread_stopped ∷ es) = starts es
starts (handled bytes ∷ es) = starts es
starts (threw ∷ es) = starts es

unfoldable pub expirations : List Event → ℕ
expirations [] = 0
expirations (expired ∷ es) = suc (expirations es)
expirations (started ∷ es) = expirations es
expirations (stopped ∷ es) = expirations es
expirations (thread_stopped ∷ es) = expirations es
expirations (handled bytes ∷ es) = expirations es
expirations (threw ∷ es) = expirations es

-- Every call of `sendClock` returns.
abbrev pub IsReturning : List Event → Type 0
IsReturning [] = Unit
IsReturning (threw ∷ es) = ⊥
IsReturning (started ∷ es) = IsReturning es
IsReturning (stopped ∷ es) = IsReturning es
IsReturning (expired ∷ es) = IsReturning es
IsReturning (thread_stopped ∷ es) = IsReturning es
IsReturning (handled bytes ∷ es) = IsReturning es

-- Nobody starts or stops the clock.
abbrev pub IsUndisturbed : List Event → Type 0
IsUndisturbed [] = Unit
IsUndisturbed (started ∷ es) = ⊥
IsUndisturbed (stopped ∷ es) = ⊥
IsUndisturbed (thread_stopped ∷ es) = ⊥
IsUndisturbed (expired ∷ es) = IsUndisturbed es
IsUndisturbed (handled bytes ∷ es) = IsUndisturbed es
IsUndisturbed (threw ∷ es) = IsUndisturbed es

abbrev pub state : Bool → Bool → Bool → ℕ → ℕ → List (List ℕ) → ClockSubscriber
state r b i w h d = record {
  timer_running = r;
  stopping = b;
  ioc_stopped = i;
  waits = w;
  handlers = h;
  sent = d;
}

-- The next handler, against the chains: it goes on with its own exactly if the timer runs.
run_ioc-chains :
    (bytes : List ℕ) (r b i : Bool) (w h : ℕ) (d : List (List ℕ))
    → let t = run_ioc (some bytes) (state r b i w h d) in
      (t.timer_running ≡ r) × (chains t ≤ w + h) × (r ≡ true → chains t ≡ w + h)
unfolding run_ioc handle_next on_wait restart_timer end_waits send_clock
run_ioc-chains bytes r b true w h d = (refl, omega arith, λ e. refl)
run_ioc-chains bytes r b false w zero d = (refl, omega arith, λ e. refl)
run_ioc-chains bytes true b false w (suc n) d = (refl, omega arith, λ e. omega arith)
run_ioc-chains bytes false b false w (suc n) d = (refl, omega arith, λ e. ground arith)

-- A handler that throws ends its chain.
throws-chains : (s : ClockSubscriber) → chains (run_ioc none s) ≤ chains s
unfolding run_ioc handle_next
throws-chains s = chosen s.ioc_stopped s.handlers refl
  where
    chosen :
        (b : Bool) (n : ℕ)
        → s.handlers ≡ n
        → chains (if b then s else handle_next none n s) ≤ chains s
    chosen true n e = omega arith
    chosen false zero e = omega arith
    chosen false (suc n) e = omega (arith, e)

step-chains : (e : Event) (s : ClockSubscriber) → chains (step e s) ≤ chains s + starts (e ∷ [])
unfolding step starts start stop end_waits restart_timer stop_thread
step-chains started s = omega arith
step-chains stopped s = omega arith
step-chains expired s = omega arith
step-chains thread_stopped s = omega arith
step-chains (handled bytes) s =
    let c =
      run_ioc-chains bytes s.timer_running s.stopping s.ioc_stopped s.waits s.handlers s.sent in
    omega (arith, c.1)
step-chains threw s = omega (arith, throws-chains s)

step-alive :
    (e : Event) (s : ClockSubscriber)
    → IsReturning (e ∷ [])
    → (s.timer_running ≡ true → 1 ≤ chains s)
    → (step e s).timer_running ≡ true
    → 1 ≤ chains (step e s)
unfolding step start stop end_waits restart_timer stop_thread
step-alive started s u h r = omega arith
step-alive stopped s u h r = ground arith
step-alive expired s u h r = omega (arith, h r)
step-alive thread_stopped s u h r = ground arith
step-alive threw s u h r = absurd u
step-alive (handled bytes) s u h r =
    let c =
      run_ioc-chains bytes s.timer_running s.stopping s.ioc_stopped s.waits s.handlers s.sent in
    let running : s.timer_running ≡ true = sym c.0 ∙ r in omega (arith, c.2 running, h running)

starts-cons : (e : Event) (es : List Event) → starts (e ∷ es) ≡ starts (e ∷ []) + starts es
unfolding starts
starts-cons started es = omega arith
starts-cons stopped es = omega arith
starts-cons expired es = omega arith
starts-cons thread_stopped es = omega arith
starts-cons (handled bytes) es = omega arith
starts-cons threw es = omega arith

run-bound : (es : List Event) (s : ClockSubscriber) → chains (run es s) ≤ chains s + starts es
unfolding run
run-bound [] s = omega arith
run-bound (e ∷ es) s = omega (arith, run-bound es (step e s), step-chains e s, starts-cons e es)

IsReturning-cons :
    (e : Event) (es : List Event) → IsReturning (e ∷ es) → IsReturning (e ∷ []) × IsReturning es
IsReturning-cons started es u = (tt, u)
IsReturning-cons stopped es u = (tt, u)
IsReturning-cons expired es u = (tt, u)
IsReturning-cons thread_stopped es u = (tt, u)
IsReturning-cons (handled bytes) es u = (tt, u)
IsReturning-cons threw es u = absurd u

run-alive :
    (es : List Event) (s : ClockSubscriber)
    → IsReturning es
    → (s.timer_running ≡ true → 1 ≤ chains s)
    → (run es s).timer_running ≡ true
    → 1 ≤ chains (run es s)
unfolding run
run-alive [] s u h r = h r
run-alive (e ∷ es) s u h r =
    let v = IsReturning-cons e es u in run-alive es (step e s) v.1 (step-alive e s v.0 h) r

-- Whatever happens to a new clock, there are never more waits and handlers together than the clock
-- was started, and as long as every call of `sendClock` returned, a timer that runs has one of them.
pub run-chains :
    (es : List Event)
    → (chains (run es new) ≤ starts es)
      × (IsReturning es → (run es new).timer_running ≡ true → 1 ≤ chains (run es new))
run-chains es = (omega (arith, run-bound es new), λ u r. run-alive es new u (λ e. ground arith) r)

-- One chain at most, and what it has sent or will send without a further expiration.
record IsPaced (n : ℕ) (s : ClockSubscriber) : Type 0 where
  pub timer_running : s.timer_running ≡ true
  pub one : chains s ≤ 1
  pub pace : length s.sent + s.handlers ≤ n

run_ioc-IsPaced :
    (bytes : List ℕ) (n : ℕ) (r b i : Bool) (w h : ℕ) (d : List (List ℕ))
    → IsPaced n (state r b i w h d)
    → IsPaced n (run_ioc (some bytes) (state r b i w h d))
unfolding run_ioc handle_next on_wait restart_timer end_waits send_clock
run_ioc-IsPaced bytes n r b true w h d v = v
run_ioc-IsPaced bytes n r b false w zero d v = v
run_ioc-IsPaced bytes n true b false w (suc h) d v = record {
  timer_running = refl;
  one = omega (arith, v.one);
  pace = omega (arith, v.one, v.pace, length-append d (_ ∷ []));
}
run_ioc-IsPaced bytes n false b false w (suc h) d v = ground (arith, v.timer_running)

throws-IsPaced :
    (n : ℕ) (r b i : Bool) (w h : ℕ) (d : List (List ℕ))
    → IsPaced n (state r b i w h d)
    → IsPaced n (run_ioc none (state r b i w h d))
unfolding run_ioc handle_next
throws-IsPaced n r b true w h d v = v
throws-IsPaced n r b false w zero d v = v
throws-IsPaced n r b false w (suc h) d v = record {
  timer_running = v.timer_running;
  one = omega (arith, v.one);
  pace = omega (arith, v.pace);
}

expired-IsPaced : (n : ℕ) (s : ClockSubscriber) → IsPaced n s → IsPaced (suc n) (end_waits s)
unfolding end_waits
expired-IsPaced n s v = record {
  timer_running = v.timer_running;
  one = omega (arith, v.one);
  pace = omega (arith, v.one, v.pace);
}

run-IsPaced :
    (es : List Event) (n : ℕ) (s : ClockSubscriber)
    → IsUndisturbed es
    → IsPaced n s
    → IsPaced (n + expirations es) (run es s)
unfolding run step expirations
run-IsPaced [] n s u v = record {
  timer_running = v.timer_running;
  one = v.one;
  pace = omega (arith, v.pace);
}
run-IsPaced (started ∷ es) n s u v = absurd u
run-IsPaced (stopped ∷ es) n s u v = absurd u
run-IsPaced (thread_stopped ∷ es) n s u v = absurd u
run-IsPaced (expired ∷ es) n s u v =
    let r = run-IsPaced es (suc n) (end_waits s) u (expired-IsPaced n s v) in
    record { timer_running = r.timer_running; one = r.one; pace = omega (arith, r.pace) }
run-IsPaced (handled bytes ∷ es) n s u v =
    run-IsPaced es n (run_ioc (some bytes) s) u
      (run_ioc-IsPaced bytes n s.timer_running s.stopping s.ioc_stopped s.waits s.handlers s.sent v)
run-IsPaced (threw ∷ es) n s u v =
    run-IsPaced es n (run_ioc none s) u
      (throws-IsPaced n s.timer_running s.stopping s.ioc_stopped s.waits s.handlers s.sent v)

-- A new clock that is started once, and then neither started nor stopped, sends at most one message
-- for each expiration of its timer, however often its thread looks for a handler to run.
pub run-paced :
    (es : List Event) → IsUndisturbed es → length (run es (start new)).sent ≤ expirations es
run-paced es u =
    let once : IsPaced 0 (start new) =
      unfold start restart_timer end_waits in
      record { timer_running = refl; one = omega arith; pace = omega arith } in
    omega (arith, (run-IsPaced es 0 (start new) u once).pace)
