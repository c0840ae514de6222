-- ===== src/Subscriber/Subscription.antt =====
-- The subscription that a subscriber creates: src/subscriber/subscriberBase.hpp, with the callback
-- group that src/subscriber/subscriberManager.cpp gives it.
use Prim.Native.String.{String}
use ros2_connect.Prelude.{ℕ, Bool, true, Option, none, some, List, if◌then◌else◌}
use ros2_connect.Message.Codes.{is_compressor}
use ros2_connect.Config.Types.{Topic, Qos}
use ros2_connect.Subscriber.Sampling.{Sampler, callback}

pub data CallbackGroup : Type 0 where
  reentrant mutually_exclusive : CallbackGroup

-- What `create_generic_subscription` is given.
pub record Subscription : Type 0 where
  pub topic : String
  pub type : String
  pub qos : Qos
  pub callback_group : CallbackGroup
  pub ignore_local_publications : Bool

-- `SubscriberBase::init`.
unfoldable pub init : Topic → CallbackGroup → Subscription
init t group = record {
  topic = t.topic;
  type = t.type;
  qos = t.qos;
  callback_group = group;
  ignore_local_publications = true;
}

-- The subscription of `SubscriberManager::subscribe`.
unfoldable pub subscription_of : Topic → Subscription
unfolding init
subscription_of t = init t (if t.use_own_thread then reentrant else mutually_exclusive)

-- The flag that the constructor keeps.
unfoldable pub has_compression : Topic → Bool
has_compression t = is_compressor t.compression.compressor

-- The subscription's callback: the executor can call it when the subscriber, to which it has a weak
-- pointer, is gone.
unfoldable pub on_message : Topic → List ℕ → Option Sampler → Option Sampler
unfolding callback
on_message t bytes none = none
on_message t bytes (some s) = some (callback t bytes s)
