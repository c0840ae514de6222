-- ===== src/Publisher/Publishing.antt =====
-- src/publisher/publisherBase.hpp, threadedPublisher.cpp and sharedPublisher.cpp. The number of
-- subscriptions, the time and `rclcpp::ok()` are arguments of the steps that ask for them.
use ros2_connect.Prelude.{
  ℕ, ◌-◌, Bool, true, false, not, ◌&&◌, Option, none, some, List, [], ◌∷◌, ◌++◌, ◌==◌, ltb, leb,
  if◌then◌else◌,
}
use ros2_connect.Message.Codec.{Codec}
use ros2_connect.Message.Rcl.{RclMessage}
use ros2_connect.Message.Base.{rcl, get_src, is_compressed, try_decompress}
use ros2_connect.Config.Types.{Topic}

-- A publisher; `published` is what it handed to `rclcpp::GenericPublisher::publish` so far, and
-- `to_publish` the queue of a ThreadedPublisher.
pub record Publisher : Type 0 where
  pub topic : Topic
  pub has_subscriber : Bool
  pub subscriber_gone_away_time_point : ℕ
  pub to_publish : List RclMessage
  pub published : List (List ℕ)

-- The constructor.
unfoldable pub new : Topic → Publisher
new t = record {
  topic = t;
  has_subscriber = false;
  subscriber_gone_away_time_point = 0;
  to_publish = [];
  published = [];
}

abbrev pub ten_seconds : ℕ
ten_seconds = 10_000_000_000

-- `PublisherBase::testForSubscriber`, with the value of the notice that it sends, if it does.
unfoldable pub test_for_subscriber : ℕ → ℕ → Publisher → Publisher × Option Bool
test_for_subscriber subscription_count now p =
    if p.has_subscriber && subscription_count == 0
    then (if p.subscriber_gone_away_time_point == 0
        then (record p { subscriber_gone_away_time_point = now }, none)
        else (if leb ten_seconds (now - p.subscriber_gone_away_time_point)
            then (record p { has_subscriber = false }, some false)
            else (p, none)))
    else (if p.has_subscriber
          && (ltb 0 p.subscriber_gone_away_time_point && ltb 0 subscription_count)
        then (record p { subscriber_gone_away_time_point = 0 }, none)
        else (if not p.has_subscriber && ltb 0 subscription_count
            then (
              record p { subscriber_gone_away_time_point = 0; has_subscriber = true },
              some true,
            )
            else (p, none)))

-- `PublisherBase::rosPublish`.
unfoldable pub ros_publish : Bool → List ℕ → Publisher → Publisher
ros_publish ok bytes p = if ok then record p { published = p.published ++ bytes ∷ [] } else p

-- `ThreadedPublisher::publish`.
unfoldable pub enqueue : RclMessage → Publisher → Publisher
enqueue m p = record p { to_publish = p.to_publish ++ m ∷ [] }

-- `SharedPublisher::publish`.
unfoldable pub publish_shared : Bool → RclMessage → Publisher → Publisher
unfolding ros_publish is_compressed
publish_shared ok m p = if is_compressed (rcl m) then p else ros_publish ok m.serialized_message p

-- The message of an iteration of `ThreadedPublisher::run`, decompressed and published.
unfoldable pub publish_message : Codec → Bool → Option RclMessage → Publisher → Publisher
unfolding ros_publish try_decompress
publish_message codec ok none p = p
publish_message codec ok (some m) p = elim (try_decompress codec (rcl m)) [
  | none ↦ p
  | some r ↦ ros_publish ok (get_src r) p
]

-- The front of a `std::queue`, if there is one, and the rest.
abbrev pub front {ℓ} : {A : Type ℓ} → List A → Option A
front [] = none
front (m ∷ rest) = some m

abbrev pub rest {ℓ} : {A : Type ℓ} → List A → List A
rest [] = []
rest (m ∷ ms) = ms

-- One iteration of `ThreadedPublisher::run` of a thread that is not stopping.
unfoldable pub run_threaded : Codec → Bool → ℕ → ℕ → Publisher → Publisher × Option Bool
unfolding test_for_subscriber publish_message
run_threaded codec ok subscription_count now p =
    let popped : Publisher = record p { to_publish = rest p.to_publish } in
    let tested = test_for_subscriber subscription_count now popped in
    (publish_message codec ok (front p.to_publish) tested.0, tested.1)
