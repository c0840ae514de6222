-- ===== src/Subscriber/Tests.antt =====
-- A subscriber manager with one permanent and one other topic.
use ros2_connect.Prelude.{
  ℕ, ◌≡◌, refl, Bool, true, false, ◌||◌, ◌&&◌, List, [], ◌∷◌, lookup, insert,
}
use ros2_connect.Message.Codes.{op_code_value}
use ros2_connect.Config.Types.{Topic, find_topic, clock_and_tf_qos, default_compression_profile}
use ros2_connect.Subscriber.Manager.{SubscriberConfig, notice}
use ros2_connect.Subscriber.Registry.{is_subscribed, is_permanent, is_configured}
use ros2_connect.Subscriber.Notices.{IsValid, started, notices, last_notice, notices-is_subscribed}
use ros2_connect.Prelude.{length}
use ros2_connect.Message.Tests.{copying}
use ros2_connect.Subscriber.Sampling.{
  Event, arrived, iterated, run, frames, output, iterations, run-frames,
}
use ros2_connect.Subscriber.Sampling

abbrev pub camera : Topic
camera = record {
  channel = 3;
  topic = "camera";
  type = "sensor_msgs/msg/Image";
  use_own_thread = true;
  permanent = false;
  qos = clock_and_tf_qos;
  compression = default_compression_profile;
}

abbrev pub chatter : Topic
chatter = record camera {
  channel = 4;
  topic = "chatter";
  type = "std_msgs/msg/String";
  use_own_thread = false;
  permanent = true;
}

abbrev pub two_topics : SubscriberConfig
two_topics = record { subscriber = camera ∷ chatter ∷ []; subscribe_clock = true }

pub two_topics-IsValid : IsValid two_topics
unfolding find_topic
two_topics-IsValid = record { unique = (refl, (refl, tt)); no_clock = refl }

abbrev some_notices : List (ℕ × Bool)
some_notices = (3, true) ∷ (4, false) ∷ (254, true) ∷ (99, true) ∷ []

run_of_notices : is_subscribed (notices two_topics some_notices (started two_topics)) 3 ≡ true
unfolding is_subscribed notices started lookup notice op_code_value insert
run_of_notices = refl

notices-is_subscribed_example :
    is_subscribed (notices two_topics some_notices (started two_topics)) 4 ≡ (
      is_permanent two_topics 4 || (is_configured two_topics 4 && last_notice 4 some_notices false))
notices-is_subscribed_example = notices-is_subscribed two_topics some_notices 4 two_topics-IsValid

-- Two messages, the second one after the thread's first iteration.
abbrev two_messages : List Event
two_messages = arrived (1 ∷ 2 ∷ []) ∷ iterated ∷ arrived (3 ∷ []) ∷ []

run-frames_example :
    (output copying camera (run copying camera two_messages Sampling.new)
      ≡ frames copying camera two_messages)
    × ((run copying camera
          (iterations (length (run copying camera two_messages Sampling.new).to_send))
          (run copying camera two_messages Sampling.new)).sent
        ≡ frames copying camera two_messages)
run-frames_example = run-frames copying camera two_messages
