-- ===== src/Subscriber/Clock/Tests.antt =====
-- A clock that is started once, and one that is started twice.
use ros2_connect.Prelude.{◌+◌, ◌≤◌, ◌≡◌, refl, true, List, [], ◌∷◌, length, arith}
use ros2_connect.Subscriber.Clock.{
  new, start, Event, started, stopped, expired, thread_stopped, handled, threw, run,
}
use ros2_connect.Subscriber.Clock.Chains.{
  chains, IsReturning, starts, expirations, run-chains, run-paced,
}
use ros2_connect.Subscriber.Clock.Silent.{throw-silent}
use ros2_connect.Subscriber.Clock.Restarted.{turns, start-busy}

-- Stopped and started again before the handler of the canceled wait ran.
abbrev restarted : List Event
restarted = started ∷ stopped ∷ started ∷ handled (1 ∷ []) ∷ []

two_chains : chains (run restarted new) ≡ 2
unfolding run
two_chains = refl

run-chains_example :
    (chains (run restarted new) ≤ starts restarted)
    × (IsReturning restarted
        → (run restarted new).timer_running ≡ true
        → 1 ≤ chains (run restarted new))
run-chains_example = run-chains restarted

abbrev ticks : List Event
ticks = handled (9 ∷ []) ∷ expired ∷ handled (1 ∷ []) ∷ handled (9 ∷ []) ∷ []

one_message : length (run ticks (start new)).sent ≡ 1
unfolding run start
one_message = refl

run-paced_example : length (run ticks (start new)).sent ≤ expirations ticks
run-paced_example = run-paced ticks tt

start-busy_example :
    (length (run ticks (start (start new))).sent ≡ length (start new).sent + turns ticks)
    × (1 ≤ (run ticks (start (start new))).handlers)
start-busy_example =
    start-busy (start new) ticks (unfold start in refl) (unfold start in omega arith) tt tt

-- The timer of a clock that was started expires, and `sendClock` throws.
throw-silent_example :
    ((run (threw ∷ ticks) (run (expired ∷ []) (start new))).sent ≡ [])
    × ((run (threw ∷ ticks) (run (expired ∷ []) (start new))).timer_running ≡ true)
    × (chains (run (threw ∷ ticks) (run (expired ∷ []) (start new))) ≡ 0)
unfolding run start
throw-silent_example = throw-silent (run (expired ∷ []) (start new)) ticks refl refl refl tt

stopped_clock : (run (handled (1 ∷ []) ∷ thread_stopped ∷ []) (start new)).waits ≡ 0
unfolding run start
stopped_clock = refl
