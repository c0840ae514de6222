-- ===== src/Subscriber/Manager.antt =====
-- src/subscriber/subscriberManager.cpp. The `stopping` flag, which another thread sets, is a field
-- of the state; a message is handled as one step.
use ros2_connect.Prelude.{
  ℕ, zero, suc, Bool, true, false, not, ◌&&◌, Option, none, some, List, [], ◌∷◌, ◌++◌, length, ◌==◌,
  if◌then◌else◌, ◌>>=◌, lookup, insert, erase, nat_key,
}
use ros2_connect.Message.Codes.{op_code_value, subscription, clock}
use ros2_connect.Message.Rcl.{RclMessage, to_subscription}
use ros2_connect.Config.Types.{Topic, find_topic}

-- ThreadedSubscriber (with its thread) or SharedSubscriber.
pub data Subscriber : Type 0 where
  threaded : Topic → Bool → Subscriber
  shared : Topic → Subscriber

-- The part of ClockSubscriber that the manager drives.
pub record ClockSubscriber : Type 0 where
  pub thread_running : Bool
  pub timer_running : Bool

-- What GlobalConfig holds for the manager.
pub record SubscriberConfig : Type 0 where
  pub subscriber : List Topic
  pub subscribe_clock : Bool

pub record SubscriberManager : Type 0 where
  pub subscribers : List (ℕ × Subscriber)
  pub clock_subscriber : ClockSubscriber
  pub to_subscribe : List RclMessage
  pub stopping : Bool

-- The constructor.
abbrev pub new : SubscriberManager
new = record {
  subscribers = [];
  clock_subscriber = record { thread_running = false; timer_running = false };
  to_subscribe = [];
  stopping = false;
}

-- `SubscriberManager::subscribe(Topic_t &, bool)`.
unfoldable pub subscribe : Topic → Bool → List (ℕ × Subscriber) → List (ℕ × Subscriber)
subscribe t start_thread subscribers =
    if t.use_own_thread
    then insert t.channel (threaded t start_thread) subscribers
    else insert t.channel (shared t) subscribers

-- `SubscriberManager::unsubscribe`: a thread is stopped and joined, and the entry erased.
unfoldable pub unsubscribe : ℕ → List (ℕ × Subscriber) → List (ℕ × Subscriber)
unsubscribe channel subscribers = erase channel subscribers

-- The loop of `SubscriberManager::init` over the configured topics.
unfoldable pub init_topics : List Topic → List (ℕ × Subscriber) → List (ℕ × Subscriber)
init_topics [] subscribers = subscribers
init_topics (t ∷ ts) subscribers =
    init_topics ts (if t.permanent then subscribe t false subscribers else subscribers)

unfoldable pub init : SubscriberConfig → SubscriberManager → SubscriberManager
unfolding init_topics
init cfg s = record s { subscribers = init_topics cfg.subscriber s.subscribers }

-- `SubscriberManager::onBeforeStartThread`.
unfoldable pub start_threads : List (ℕ × Subscriber) → List (ℕ × Subscriber)
start_threads [] = []
start_threads ((k, threaded t r) ∷ m) = (k, threaded t true) ∷ start_threads m
start_threads ((k, shared t) ∷ m) = (k, shared t) ∷ start_threads m

unfoldable pub on_before_start_thread : SubscriberConfig → SubscriberManager → SubscriberManager
unfolding start_threads
on_before_start_thread cfg s = record s {
  subscribers = start_threads s.subscribers;
  clock_subscriber = record s.clock_subscriber {
    thread_running = if cfg.subscribe_clock then true else s.clock_subscriber.thread_running;
  };
}

-- `SubscriberManager::subscribe(std::unique_ptr<MessageBase>)`.
unfoldable pub enqueue : RclMessage → SubscriberManager → SubscriberManager
enqueue m s = record s { to_subscribe = s.to_subscribe ++ m ∷ [] }

-- The rest of an iteration for a topic that is configured.
unfoldable pub change : Topic → Bool → ℕ → Option Subscriber → SubscriberManager → SubscriberManager
unfolding subscribe unsubscribe
change t true channel (some it) s = s
change t true channel none s =
    if s.stopping then s else record s { subscribers = subscribe t true s.subscribers }
change t false channel none s = s
change t false channel (some it) s =
    if not s.stopping && t.permanent
    then s
    else (if s.stopping then s else record s { subscribers = unsubscribe channel s.subscribers })

-- The message for the clock.
unfoldable pub change_clock : SubscriberConfig → Bool → SubscriberManager → SubscriberManager
change_clock cfg value s =
    if cfg.subscribe_clock
    then record s { clock_subscriber = record s.clock_subscriber { timer_running = value } }
    else s

unfoldable pub notice : SubscriberConfig → ℕ × Bool → SubscriberManager → SubscriberManager
unfolding change change_clock find_topic
notice cfg (channel, value) s =
    if channel == op_code_value clock
    then change_clock cfg value s
    else elim (find_topic channel cfg.subscriber) [
      | none ↦ s
      | some t ↦ change t value channel (lookup channel s.subscribers) s
    ]

-- What `SubscriberManager::run` does with the message that it took from the queue. `none` is a
-- read behind the end of the message.
unfoldable pub process :
    SubscriberConfig → RclMessage → SubscriberManager → Option SubscriberManager
unfolding notice
process cfg m s =
    if m.channel == op_code_value subscription
    then (to_subscription m >>= λ sub. some (notice cfg sub s))
    else some s

-- One iteration of `SubscriberManager::run`.
unfoldable pub run_once : SubscriberConfig → SubscriberManager → Option SubscriberManager
unfolding process
run_once cfg s = if s.stopping then some s else elim s.to_subscribe [
  | [] ↦ some s
  | m ∷ rest ↦ process cfg m (record s { to_subscribe = rest })
]

-- The loop of `SubscriberManager::onStopThread`, with fuel for its rounds.
unfoldable pub unsubscribe_all : ℕ → List (ℕ × Subscriber) → List (ℕ × Subscriber)
unfolding unsubscribe
unsubscribe_all zero m = m
unsubscribe_all (suc fuel) [] = []
unsubscribe_all (suc fuel) ((k, v) ∷ m) = unsubscribe_all fuel (unsubscribe k ((k, v) ∷ m))

-- `Thread::stopThread` with `onStopThread`.
unfoldable pub stop_thread : SubscriberManager → SubscriberManager
unfolding unsubscribe_all
stop_thread s = record s {
  subscribers = unsubscribe_all (length s.subscribers) s.subscribers;
  clock_subscriber = record { thread_running = false; timer_running = false };
  stopping = true;
}
