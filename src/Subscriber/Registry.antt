-- ===== src/Subscriber/Registry.antt =====
-- Which topics are subscribed: the manager's map against the notices that it received
-- (src/subscriber/subscriberManager.cpp).
use ros2_connect.Prelude.{
  ℕ, ◌≡◌, ◌≢◌, refl, inl, inr, Bool, true, false, ◌&&◌, ◌||◌, Option, none, some, List, [], ◌∷◌,
  ◌==◌, ==_iff, if◌then◌else◌, Option-cases, lookup, insert, lookup-insert, lookup-erase, nat_key,
  arith,
}
use ros2_connect.Message.Codes.{op_code_value}
use ros2_connect.Config.Types.{Topic, find_topic}
use ros2_connect.Subscriber.Manager.{
  Subscriber, threaded, shared, SubscriberConfig, SubscriberManager, subscribe, unsubscribe, change,
  notice,
}

abbrev pub is_some {ℓ} : {A : Type ℓ} → Option A → Bool
is_some none = false
is_some (some a) = true

-- A subscriber for the channel exists.
unfoldable pub is_subscribed : SubscriberManager → ℕ → Bool
is_subscribed s channel = is_some (lookup channel s.subscribers)

-- What a topic's configuration says of its channel.
abbrev pub permanent_of : Option Topic → Bool
permanent_of none = false
permanent_of (some t) = t.permanent

abbrev pub is_permanent : SubscriberConfig → ℕ → Bool
is_permanent cfg channel = permanent_of (find_topic channel cfg.subscriber)

abbrev pub is_configured : SubscriberConfig → ℕ → Bool
is_configured cfg channel = is_some (find_topic channel cfg.subscriber)

is_some-insert :
    (k j : ℕ) (v : Subscriber) (m : List (ℕ × Subscriber))
    → is_some (lookup j (insert k v m)) ≡ (k == j || is_some (lookup j m))
is_some-insert k j v m = ground (arith, lookup-insert k j v m)

pub is_some-subscribe :
    (t : Topic) (b : Bool) (j : ℕ) (m : List (ℕ × Subscriber))
    → is_some (lookup j (subscribe t b m)) ≡ (t.channel == j || is_some (lookup j m))
unfolding subscribe
is_some-subscribe t b j m =
    ground
      (arith, is_some-insert t.channel j (threaded t b) m, is_some-insert t.channel j (shared t) m)

find_topic-channel :
    (c : ℕ) (ts : List Topic) (t : Topic) → find_topic c ts ≡ some t → t.channel ≡ c
unfolding find_topic
find_topic-channel c [] t h = cc
find_topic-channel c (u ∷ ts) t h = ground (arith, find_topic-channel c ts t)

-- What `change` does to the entry of `j`, where `o` is the entry of the topic.
change-is_some :
    (t : Topic) (value : Bool) (c : ℕ) (o : Option Subscriber) (s : SubscriberManager) (j : ℕ)
    → lookup c s.subscribers ≡ o
    → t.channel ≡ c
    → s.stopping ≡ false
    → is_some (lookup j (change t value c o s).subscribers) ≡ (
        if c == j
        then (if value then true else t.permanent && is_some o)
        else is_some (lookup j s.subscribers))
unfolding change unsubscribe
change-is_some t true c (some it) s j h e k = ground (arith, ==_iff c j)
change-is_some t true c none s j h e k =
    ground (arith, is_some-subscribe t true j s.subscribers, ==_iff c j)
change-is_some t false c none s j h e k = ground (arith, ==_iff c j)
change-is_some t false c (some it) s j h e k =
    ground (arith, lookup-erase c j s.subscribers, ==_iff c j)

-- What a notice does to one topic, in a manager that is not stopping: a configured topic becomes
-- subscribed, or stays so only if it is permanent; nothing else changes.
pub notice-is_subscribed :
    (cfg : SubscriberConfig) (c : ℕ) (value : Bool) (s : SubscriberManager) (j : ℕ)
    → s.stopping ≡ false
    → c ≢ 254
    → is_subscribed (notice cfg (c, value) s) j ≡ (
        if c == j && is_configured cfg c
        then (if value then true else is_permanent cfg c && is_subscribed s c)
        else is_subscribed s j)
unfolding is_subscribed
notice-is_subscribed cfg c value s j h n = elim (Option-cases (find_topic c cfg.subscriber)) [
  | inl e ↦ unfold notice op_code_value in rw e (ground arith)
  | inr (t, e) ↦
      unfold notice op_code_value in
      rw e (
        ground (
          arith,
          e,
          change-is_some t value c (lookup c s.subscribers) s j refl
              (find_topic-channel c cfg.subscriber t e) h,
        ))
]
