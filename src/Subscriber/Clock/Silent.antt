-- ===== src/Subscriber/Clock/Silent.antt =====
-- What an exception of `sendClock` does to the clock (src/subscriber/clockSubscriber.cpp).
use mathlib.Core.Path.{subst}
use ros2_connect.Prelude.{
  ℕ, zero, suc, ◌+◌, ◌≡◌, refl, sym, Bool, true, false, none, some, List, [], ◌∷◌, Option,
  if◌then◌else◌, arith,
}
use ros2_connect.Subscriber.Clock.{
  ClockSubscriber, end_waits, handle_next, run_ioc, Event, started, stopped, expired,
  thread_stopped, handled, threw, step, run,
}
use ros2_connect.Subscriber.Clock.Chains.{chains, IsUndisturbed}

-- Without a handler to run, the I/O context does nothing.
run_ioc-idle : (o : Option (List ℕ)) (s : ClockSubscriber) → s.handlers ≡ 0 → run_ioc o s ≡ s
unfolding run_ioc
run_ioc-idle o s h = chosen s.ioc_stopped s.handlers h
  where
    chosen : (b : Bool) (n : ℕ) → n ≡ 0 → (if b then s else handle_next o n s) ≡ s
    chosen true n e = refl
    chosen false zero e = unfold handle_next in refl
    chosen false (suc n) e = ground (arith, e)

abbrev IsSilent : ClockSubscriber → ClockSubscriber → Type 0
IsSilent s r = (r.sent ≡ s.sent) × (r.timer_running ≡ s.timer_running) × (r.waits + r.handlers ≡ 0)

behind :
    (o : Option (List ℕ)) (s r t : ClockSubscriber) (es : List Event)
    → run_ioc o r ≡ t
    → IsSilent s (run es t)
    → IsSilent s (run es (run_ioc o r))
behind o s r t es e v = subst (λ x. IsSilent s (run es x)) (sym e) v

run-IsSilent :
    (es : List Event) (s : ClockSubscriber)
    → IsUndisturbed es
    → s.waits + s.handlers ≡ 0
    → IsSilent s (run es s)
unfolding run step
run-IsSilent [] s u c = (refl, refl, c)
run-IsSilent (started ∷ es) s u c = absurd u
run-IsSilent (stopped ∷ es) s u c = absurd u
run-IsSilent (thread_stopped ∷ es) s u c = absurd u
run-IsSilent (expired ∷ es) s u c =
    unfold end_waits in
    run-IsSilent es (record s { waits = 0; handlers = s.handlers + s.waits }) u (omega (arith, c))
run-IsSilent (handled bytes ∷ es) s u c =
    behind (some bytes) s s s es (run_ioc-idle (some bytes) s (omega (arith, c)))
      (run-IsSilent es s u c)
run-IsSilent (threw ∷ es) s u c =
    behind none s s s es (run_ioc-idle none s (omega (arith, c))) (run-IsSilent es s u c)

-- If `sendClock` throws in the handler of a clock's only wait, then until somebody starts or stops
-- the clock it sends nothing more, however often its timer would expire and its thread comes to the
-- I/O context, although its timer counts as running if it did before.
pub throw-silent :
    (s : ClockSubscriber) (es : List Event)
    → s.ioc_stopped ≡ false
    → s.handlers ≡ 1
    → s.waits ≡ 0
    → IsUndisturbed es
    → ((run (threw ∷ es) s).sent ≡ s.sent)
      × ((run (threw ∷ es) s).timer_running ≡ s.timer_running)
      × (chains (run (threw ∷ es) s) ≡ 0)
unfolding run step
throw-silent s es i h w u =
    let ended : run_ioc none s ≡ record s { handlers = 0 } =
      unfold run_ioc handle_next in simp (i, h) refl in
    behind none s s (record s { handlers = 0 }) es ended
      (run-IsSilent es (record s { handlers = 0 }) u (omega (arith, w)))
