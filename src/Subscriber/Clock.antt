-- ===== src/Subscriber/Clock.antt =====
-- src/subscriber/clockSubscriber.cpp: the timer of the clock and its handlers, which the clock's
-- thread runs one after the other.
pub mod Chains
pub mod Restarted
pub mod Silent
pub mod Tests
use ros2_connect.Prelude.{
  ℕ, zero, suc, ◌+◌, Bool, true, false, not, Option, none, some, List, [], ◌∷◌, ◌++◌, if◌then◌else◌,
}
use ros2_connect.Message.Codes.{op_code_value, clock}
use ros2_connect.Message.Vector.{from_serialized_message}
use ros2_connect.Message.Base.{vector, get_combined_vector}

-- `waits` counts the waits of the timer, `handlers` those that ended and whose handlers are to run.
pub record ClockSubscriber : Type 0 where
  pub timer_running : Bool
  pub stopping : Bool
  pub ioc_stopped : Bool
  pub waits : ℕ
  pub handlers : ℕ
  pub sent : List (List ℕ)

abbrev pub new : ClockSubscriber
new = record {
  timer_running = false;
  stopping = false;
  ioc_stopped = false;
  waits = 0;
  handlers = 0;
  sent = [];
}

-- The waits end: the timer expires, is canceled, or gets another time.
unfoldable pub end_waits : ClockSubscriber → ClockSubscriber
end_waits s = record s { waits = 0; handlers = s.handlers + s.waits }

unfoldable pub restart_timer : ClockSubscriber → ClockSubscriber
unfolding end_waits
restart_timer s = record (end_waits s) { waits = 1 }

unfoldable pub start : ClockSubscriber → ClockSubscriber
unfolding restart_timer
start s = restart_timer (record s { timer_running = true })

unfoldable pub stop : ClockSubscriber → ClockSubscriber
unfolding end_waits
stop s = end_waits (record s { timer_running = false })

-- `sendClock`, with the bytes of the serialized time.
unfoldable pub send_clock : List ℕ → ClockSubscriber → ClockSubscriber
unfolding from_serialized_message get_combined_vector op_code_value
send_clock bytes s = record s {
  sent =
      s.sent
      ++ get_combined_vector (vector (from_serialized_message (op_code_value clock) bytes)) ∷ [];
}

-- The handler of a wait.
unfoldable pub on_wait : List ℕ → ClockSubscriber → ClockSubscriber
unfolding send_clock restart_timer
on_wait bytes s = if s.timer_running then restart_timer (send_clock bytes s) else send_clock bytes s

-- `Thread::stopThread` with `onStopThread`.
unfoldable pub stop_thread : ClockSubscriber → ClockSubscriber
unfolding stop
stop_thread s = record (stop (record s { stopping = true })) { ioc_stopped = true }

-- The I/O context in `run`: the next handler, if there is one. `sendClock` gets the bytes of the
-- serialized time, or throws if there are `none`.
unfoldable pub handle_next : Option (List ℕ) → ℕ → ClockSubscriber → ClockSubscriber
unfolding on_wait
handle_next o zero s = s
handle_next none (suc n) s = record s { handlers = n }
handle_next (some bytes) (suc n) s = on_wait bytes (record s { handlers = n })

-- One turn of the loop in `run`. An exception of a handler is caught, and behind it, as between any
-- two handlers, the loop enters the I/O context again.
unfoldable pub run_ioc : Option (List ℕ) → ClockSubscriber → ClockSubscriber
unfolding handle_next
run_ioc o s = if s.ioc_stopped then s else handle_next o s.handlers s

-- What can happen next.
pub data Event : Type 0 where
  started stopped expired thread_stopped : Event
  handled : List ℕ → Event
  threw : Event

unfoldable pub step : Event → ClockSubscriber → ClockSubscriber
unfolding start stop end_waits run_ioc stop_thread
step started s = start s
step stopped s = stop s
step expired s = end_waits s
step (handled bytes) s = run_ioc (some bytes) s
step threw s = run_ioc none s
step thread_stopped s = stop_thread s

unfoldable pub run : List Event → ClockSubscriber → ClockSubscriber
unfolding step
run [] s = s
run (e ∷ es) s = run es (step e s)
