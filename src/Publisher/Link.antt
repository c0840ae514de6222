-- ===== src/Publisher/Link.antt =====
-- A publisher on one side keeps the subscriber manager of the other side up to date:
-- PublisherBase::notifyAboutSubscriber, the parsing of the message, and SubscriberManager::run.
use ros2_connect.Prelude.{
  ℕ, ◌≡◌, refl, ◌∙◌, Bool, false, ◌&&◌, ◌||◌, Option, some, List, [], ◌∷◌, map, ==_self, ◌>>=◌,
}
use ros2_connect.Message.Codes.{op_code_value}
use ros2_connect.Message.Rcl.{from_flat_buffer}
use ros2_connect.Message.Vector.{for_op_code_subscription}
use ros2_connect.Message.Vector
use ros2_connect.Message.Control.{to_subscription-for_op_code_subscription}
use ros2_connect.Config.Types.{Topic}
use ros2_connect.Subscriber.Manager.{SubscriberConfig, SubscriberManager, notice, process}
use ros2_connect.Subscriber.Registry.{is_subscribed, is_permanent, is_configured}
use ros2_connect.Subscriber.Notices.{IsValid, started, notices, last_notice, notices-is_subscribed}
use ros2_connect.Publisher.Watch.{History, watched, notices_of, notices_of-Alternates, last_of}

-- `PublisherBase::notifyAboutSubscriber`: the bytes that it sends.
unfoldable pub notify_about_subscriber : Topic → Bool → List ℕ
unfolding Vector.get_combined_vector for_op_code_subscription
notify_about_subscriber t value =
    Vector.get_combined_vector (for_op_code_subscription t.channel value)

-- The other side's manager after the bytes of some notices.
unfoldable pub hear :
    SubscriberConfig → List (List ℕ) → SubscriberManager → Option SubscriberManager
unfolding process
hear cfg [] s = some s
hear cfg (bytes ∷ more) s =
    (from_flat_buffer bytes >>= λ m. process cfg m s) >>= λ r. hear cfg more r

hear-one :
    (cfg : SubscriberConfig) (t : Topic) (value : Bool) (s : SubscriberManager)
    → (from_flat_buffer (notify_about_subscriber t value) >>= λ m. process cfg m s)
      ≡ some (notice cfg (t.channel, value) s)
unfolding notify_about_subscriber Vector.get_combined_vector
hear-one cfg t value s =
    let (m, parsed, channel, _, sub) = to_subscription-for_op_code_subscription t.channel value in
    rw (parsed) (unfold process op_code_value in rw (channel, sub) refl)

hear-notices :
    (cfg : SubscriberConfig) (t : Topic) (bs : List Bool) (s : SubscriberManager)
    → hear cfg (map (notify_about_subscriber t) bs) s
      ≡ some (notices cfg (map (λ b. (t.channel, b)) bs) s)
unfolding hear notices
hear-notices cfg t [] s = refl
hear-notices cfg t (b ∷ bs) s =
    rw (hear-one cfg t b s) (hear-notices cfg t bs (notice cfg (t.channel, b) s))

last_notice-map :
    (c : ℕ) (bs : List Bool) (b : Bool) → last_notice c (map (λ v. (c, v)) bs) b ≡ last_of b bs
unfolding last_notice
last_notice-map c [] b = refl
last_notice-map c (v ∷ bs) b = rw (==_self c, last_notice) (last_notice-map c bs v)

-- Whatever a publisher observes, the other side's manager, started with a valid configuration,
-- reads all its notices, and then has a subscriber for the channel exactly if the topic is
-- permanent there, or is configured there and the publisher last believed to have a subscriber.
pub hear-is_subscribed :
    (cfg : SubscriberConfig) (t : Topic) (h : History)
    → IsValid cfg
    → (s : SubscriberManager) × (hear cfg
          (map (notify_about_subscriber t) (notices_of t h))
          (started cfg)
        ≡ some s)
      × (is_subscribed s t.channel ≡ (
          is_permanent cfg t.channel
          || (is_configured cfg t.channel && (watched t h).has_subscriber)))
hear-is_subscribed cfg t h v = (
  notices cfg (map (λ b. (t.channel, b)) (notices_of t h)) (started cfg),
  hear-notices cfg t (notices_of t h) (started cfg),
  notices-is_subscribed cfg (map (λ b. (t.channel, b)) (notices_of t h)) t.channel v
      ∙ rw (last_notice-map t.channel (notices_of t h) false, (notices_of-Alternates t h).1),
)
