-- ===== src/Publisher/Tests.antt =====
-- A publisher that is watched for half a minute, and a manager that routes three messages.
use ros2_connect.Prelude.{
  ℕ, ◌≡◌, ◌≤◌, ◌+◌, refl, true, false, ◌||◌, ◌&&◌, some, List, [], ◌∷◌, map, lookup, nat_key,
  insert, ◌++◌,
}
use ros2_connect.Message.Codes.{Compressor}
use ros2_connect.Message.Rcl.{RclMessage}
use ros2_connect.Subscriber.Manager.{SubscriberManager}
use ros2_connect.Subscriber.Registry.{is_subscribed, is_permanent, is_configured}
use ros2_connect.Subscriber.Notices.{started}
use ros2_connect.Subscriber.Tests.{camera, chatter, two_topics, two_topics-IsValid}
use ros2_connect.Publisher.Publishing.{ten_seconds, test_for_subscriber}
use ros2_connect.Publisher.Publishing
use ros2_connect.Publisher.Manager.{PublisherManager, init}
use ros2_connect.Publisher.Watch.{
  History, watched, notice_at, notices_of, QuietSince, Alternates, last_of, notice_at-false,
  notices_of-Alternates,
}
use ros2_connect.Publisher.Link.{notify_about_subscriber, hear, hear-is_subscribed}
use ros2_connect.Publisher.Routing.{route_all, of_channel, route_all-threaded}

-- A subscription at one second, none from two seconds on.
abbrev half_minute : History
half_minute = (0, 9_000_000_000) ∷ (0, 2_000_000_000) ∷ (1, 1_000_000_000) ∷ []

gone : notice_at camera 0 12_000_000_000 half_minute ≡ some false
unfolding notice_at test_for_subscriber watched Publishing.new
gone = refl

notice_at-false_example :
    (g : ℕ) × QuietSince g ((0, 12_000_000_000) ∷ half_minute) × (g + ten_seconds ≤ 12_000_000_000)
notice_at-false_example = notice_at-false camera 0 12_000_000_000 half_minute gone

notices_of-Alternates_example :
    Alternates false (notices_of camera half_minute)
    × (last_of false (notices_of camera half_minute) ≡ (watched camera half_minute).has_subscriber)
notices_of-Alternates_example = notices_of-Alternates camera half_minute

hear-is_subscribed_example :
    (s : SubscriberManager) × (hear two_topics
        (map (notify_about_subscriber camera) (notices_of camera half_minute))
        (started two_topics)
      ≡ some s)
    × (is_subscribed s 3 ≡ (
        is_permanent two_topics 3
        || (is_configured two_topics 3 && (watched camera half_minute).has_subscriber)))
hear-is_subscribed_example = hear-is_subscribed two_topics camera half_minute two_topics-IsValid

abbrev message_on : ℕ → RclMessage
message_on c = record {
  channel = c;
  compressor = Compressor.none;
  uncompressed_size = 1;
  serialized_message = c ∷ [];
}

abbrev three_messages : List RclMessage
three_messages = message_on 3 ∷ message_on 4 ∷ message_on 9 ∷ []

abbrev no_publishers : PublisherManager
no_publishers = record {
  publishers = [];
  has_shared_publisher = false;
  to_publish = [];
  stopping = false;
}

abbrev two_publishers : PublisherManager
two_publishers = init (camera ∷ chatter ∷ []) no_publishers

route_all-threaded_example :
    lookup 3 (route_all true three_messages two_publishers).publishers
    ≡ some (record (Publishing.new camera) { to_publish = [] ++ of_channel 3 three_messages })
route_all-threaded_example =
    unfold Publishing.new in
    route_all-threaded true three_messages two_publishers 3 (Publishing.new camera)
      (unfold init in refl) (unfold init lookup insert Publishing.new in refl)
      (unfold Publishing.new in refl)
