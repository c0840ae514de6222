-- ===== src/Connection/Sending.antt =====
-- The outgoing queue of a connection: src/connection/base/connectionBase.cpp (`queueMessage`) and
-- src/websocketConnection/base/websocketConnectionBase.hpp (`asyncWrite`). Everything here runs on
-- the connection's strand, one handler after the other.
use ros2_connect.Prelude.{
  ℕ, suc, ◌==◌, Bool, true, false, not, Option, none, some, List, [], ◌∷◌, ◌++◌, length,
  if◌then◌else◌, ◌>>=◌,
}

-- `writes` are the buffers of the `async_write`s that did not complete yet, `written` those that
-- completed without an error, and `stop_requests` counts the calls of `stopConnection`.
pub record Sending : Type 0 where
  pub sending_queue : List (List ℕ)
  pub is_open : Bool
  pub writes : List (List ℕ)
  pub written : List (List ℕ)
  pub stop_requests : ℕ

unfoldable pub new : Bool → Sending
new is_open = record {
  sending_queue = [];
  is_open = is_open;
  writes = [];
  written = [];
  stop_requests = 0;
}

-- `WebsocketConnectionBase::asyncWrite`. The front of an empty queue is a fault, `none`.
unfoldable pub async_write : Sending → Option Sending
async_write s =
    if not s.is_open then some (record s { sending_queue = [] }) else elim s.sending_queue [
      | [] ↦ none
      | bytes ∷ more ↦ some (record s { writes = s.writes ++ bytes ∷ [] })
    ]

-- `ConnectionBase::queueMessage`.
unfoldable pub queue_message : List ℕ → Sending → Option Sending
unfolding async_write
queue_message bytes s =
    let pushed : Sending = record s { sending_queue = s.sending_queue ++ bytes ∷ [] } in
    if length pushed.sending_queue == 1 then async_write pushed else some pushed

-- `std::queue::pop`, which needs an element.
unfoldable pub pop : Sending → Option Sending
pop s = elim s.sending_queue [ [] ↦ none | bytes ∷ more ↦ some (record s { sending_queue = more }) ]

-- The rest of the handler, behind the pop.
unfoldable pub next_write : Bool → Sending → Option Sending
unfolding async_write
next_write failed s =
    if failed
    then some (record s { stop_requests = suc s.stop_requests })
    else (if length s.sending_queue == 0 then some s else async_write s)

-- The handler that `asyncWrite` passes on, for the completion of the oldest write.
unfoldable pub on_write : Bool → Sending → Option Sending
unfolding pop next_write
on_write failed s = pop s >>= next_write failed

-- What happens on the strand. The library completes only a write that is outstanding.
pub data Event : Type 0 where
  send : List ℕ → Event
  complete : Bool → Event
  opened closed : Event

abbrev completed : Bool → List ℕ → List (List ℕ) → List (List ℕ)
completed true bytes written = written
completed false bytes written = written ++ bytes ∷ []

unfoldable pub step : Event → Sending → Option Sending
unfolding queue_message on_write
step (send bytes) s = queue_message bytes s
step (complete failed) s = elim s.writes [
  | [] ↦ some s
  | bytes ∷ more ↦
      on_write failed (record s { writes = more; written = completed failed bytes s.written })
]
step opened s = some (record s { is_open = true })
step closed s = some (record s { is_open = false })

unfoldable pub run : List Event → Sending → Option Sending
unfolding step
run [] s = some s
run (e ∷ es) s = step e s >>= λ r. run es r
