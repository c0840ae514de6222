-- ===== src/Publisher/Manager.antt =====
-- src/publisher/publisherManager.cpp: the map of publishers and the routing of messages to them.
use ros2_connect.Prelude.{
  ℕ, zero, suc, Bool, true, Option, List, [], ◌∷◌, ◌++◌, length, if◌then◌else◌, insert, update,
  erase, nat_key,
}
use ros2_connect.Message.Rcl.{RclMessage}
use ros2_connect.Config.Types.{Topic}
use ros2_connect.Publisher.Publishing.{Publisher, new, enqueue, publish_shared, test_for_subscriber}

pub record PublisherManager : Type 0 where
  pub publishers : List (ℕ × Publisher)
  pub has_shared_publisher : Bool
  pub to_publish : List RclMessage
  pub stopping : Bool

-- The loop of `PublisherManager::init` over `GlobalConfig::publisher`.
unfoldable pub init : List Topic → PublisherManager → PublisherManager
unfolding new
init [] s = s
init (t ∷ ts) s = init ts (record s {
  publishers = insert t.channel (new t) s.publishers;
  has_shared_publisher = if t.use_own_thread then s.has_shared_publisher else true;
})

-- `PublisherManager::publish`.
unfoldable pub publish : RclMessage → PublisherManager → PublisherManager
publish m s = record s { to_publish = s.to_publish ++ m ∷ [] }

-- The virtual `PublisherBase::publish`.
unfoldable pub publish_to : Bool → RclMessage → Publisher → Publisher
unfolding enqueue publish_shared
publish_to ok m p = if p.topic.use_own_thread then enqueue m p else publish_shared ok m p

-- The message of one iteration of `PublisherManager::run`: it goes to the publisher of its
-- channel, and is dropped if there is none.
unfoldable pub route : Bool → RclMessage → PublisherManager → PublisherManager
unfolding publish_to
route ok m s =
    if s.stopping
    then s
    else record s { publishers = update m.channel (publish_to ok m) s.publishers }

-- One iteration of `PublisherManager::run`.
unfoldable pub run_once : Bool → PublisherManager → PublisherManager
unfolding route
run_once ok s =
    if s.stopping
    then s
    else elim s.to_publish [ [] ↦ s | m ∷ ms ↦ route ok m (record s { to_publish = ms }) ]

-- The loop of `PublisherManager::onStopThread`, with fuel for its rounds. The thread of a
-- ThreadedPublisher is stopped and joined before its entry is erased.
unfoldable pub stop_publishers : ℕ → List (ℕ × Publisher) → List (ℕ × Publisher)
unfolding erase
stop_publishers zero m = m
stop_publishers (suc fuel) [] = []
stop_publishers (suc fuel) ((k, p) ∷ m) = stop_publishers fuel (erase k ((k, p) ∷ m))

-- `Thread::stopThread` with `onStopThread`, behind the end of the subscription monitor.
unfoldable pub stop_thread : PublisherManager → PublisherManager
unfolding stop_publishers
stop_thread s = record s {
  publishers = stop_publishers (length s.publishers) s.publishers;
  stopping = true;
}

-- A round of `subscriptionMonitorRun`: every SharedPublisher is tested, with the number of
-- subscriptions on its channel. The notices are those that are sent.
unfoldable pub test_shared :
    (ℕ → ℕ) → ℕ → List (ℕ × Publisher) → List (ℕ × Publisher) × List (ℕ × Option Bool)
unfolding test_for_subscriber
test_shared count now [] = ([], [])
test_shared count now ((k, p) ∷ m) =
    let r = test_shared count now m in
    if p.topic.use_own_thread then ((k, p) ∷ r.0, r.1) else (
      (k, (test_for_subscriber (count k) now p).0) ∷ r.0,
      (k, (test_for_subscriber (count k) now p).1) ∷ r.1,
    )

unfoldable pub monitor_subscriptions :
    (ℕ → ℕ) → ℕ → PublisherManager → PublisherManager × List (ℕ × Option Bool)
unfolding test_shared
monitor_subscriptions count now s = if s.stopping then (s, []) else (
  record s { publishers = (test_shared count now s.publishers).0 },
  (test_shared count now s.publishers).1,
)
