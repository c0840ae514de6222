-- ===== src/Subscriber/Notices.antt =====
-- The life of a subscriber manager: started, driven by any sequence of notices, and stopped
-- (src/subscriber/subscriberManager.cpp).
use ros2_connect.Prelude.{
  length-erase, ℕ, zero, suc, ◌≤◌, ◌≡◌, ◌≢◌, refl, ◌∙◌, inl, inr, Bool, false, ◌&&◌, ◌||◌, Option,
  none, List, [], ◌∷◌, length, ◌==◌, ==_self, ==_iff, if◌then◌else◌, Bool-cases, Option-cases,
  lookup, erase, nat_key, arith,
}
use ros2_connect.Message.Codes.{op_code_value}
use ros2_connect.Config.Types.{Topic, find_topic}
use ros2_connect.Subscriber.Manager.{
  Subscriber, threaded, shared, SubscriberConfig, SubscriberManager, subscribe, unsubscribe,
  init_topics, init, start_threads, on_before_start_thread, change, change_clock, notice,
  unsubscribe_all, stop_thread, new,
}
use ros2_connect.Subscriber.Registry.{
  is_some, is_subscribed, permanent_of, is_permanent, is_configured, is_some-subscribe,
  notice-is_subscribed,
}

-- No two configured topics share a channel.
abbrev pub IsUnique : List Topic → Type 0
IsUnique [] = Unit
IsUnique (t ∷ ts) = (find_topic t.channel ts ≡ none) × IsUnique ts

-- The channels are unique, and none is that of the clock.
pub record IsValid (cfg : SubscriberConfig) : Type 0 where
  pub unique : IsUnique cfg.subscriber
  pub no_clock : find_topic 254 cfg.subscriber ≡ none

-- The manager after `init`, in `startThread`.
unfoldable pub started : SubscriberConfig → SubscriberManager
unfolding init on_before_start_thread
started cfg = on_before_start_thread cfg (init cfg new)

unfoldable pub notices : SubscriberConfig → List (ℕ × Bool) → SubscriberManager → SubscriberManager
notices cfg [] s = s
notices cfg (n ∷ ns) s = notices cfg ns (notice cfg n s)

-- The last notice for a channel, if there is one.
unfoldable pub last_notice : ℕ → List (ℕ × Bool) → Bool → Bool
last_notice j [] b = b
last_notice j ((c, value) ∷ ns) b = last_notice j ns (if c == j then value else b)

init_topics-is_some :
    (j : ℕ) (ts : List Topic) (m : List (ℕ × Subscriber))
    → IsUnique ts
    → is_some (lookup j (init_topics ts m))
      ≡ (permanent_of (find_topic j ts) || is_some (lookup j m))
unfolding init_topics find_topic
init_topics-is_some j [] m u = refl
init_topics-is_some j (t ∷ ts) m u = ground (
  arith,
  init_topics-is_some j ts (if t.permanent then subscribe t false m else m) u.1,
  is_some-subscribe t false j m,
  u.0,
  ==_iff t.channel j,
)

start_threads-is_some :
    (j : ℕ) (m : List (ℕ × Subscriber))
    → is_some (lookup j (start_threads m)) ≡ is_some (lookup j m)
unfolding start_threads lookup
start_threads-is_some j [] = refl
start_threads-is_some j ((k, threaded t r) ∷ m) = ground (arith, start_threads-is_some j m)
start_threads-is_some j ((k, shared t) ∷ m) = ground (arith, start_threads-is_some j m)

or_false : (b : Bool) → (b || false) ≡ b
or_false b = ground arith

started-is_subscribed :
    (cfg : SubscriberConfig) (j : ℕ)
    → IsValid cfg
    → is_subscribed (started cfg) j ≡ is_permanent cfg j
started-is_subscribed cfg j v =
    unfold started init on_before_start_thread is_subscribed in
    start_threads-is_some j (init_topics cfg.subscriber [])
    ∙ init_topics-is_some j cfg.subscriber [] v.unique
    ∙ (unfold lookup in or_false (is_permanent cfg j))

change-stopping :
    (t : Topic) (value : Bool) (c : ℕ) (o : Option Subscriber) (s : SubscriberManager)
    → (change t value c o s).stopping ≡ s.stopping
unfolding change
change-stopping t value c o s = ground arith

notice-stopping :
    (cfg : SubscriberConfig) (n : ℕ × Bool) (s : SubscriberManager)
    → (notice cfg n s).stopping ≡ s.stopping
notice-stopping cfg (c, value) s = elim (Option-cases (find_topic c cfg.subscriber)) [
  | inl e ↦ unfold notice change_clock in rw e (ground arith)
  | inr (t, e) ↦
      unfold notice change_clock in
      rw e (ground (arith, change-stopping t value c (lookup c s.subscribers) s))
]

clock-is_subscribed :
    (cfg : SubscriberConfig) (c : ℕ) (value : Bool) (s : SubscriberManager) (j : ℕ)
    → c ≡ 254
    → is_subscribed (notice cfg (c, value) s) j ≡ is_subscribed s j
unfolding is_subscribed notice change_clock op_code_value
clock-is_subscribed cfg c value s j h = rw h (ground arith)

-- One notice, against the flag that it leaves.
notice-wanted :
    (cfg : SubscriberConfig) (c : ℕ) (value b : Bool) (s : SubscriberManager) (j : ℕ)
    → IsValid cfg
    → s.stopping ≡ false
    → is_subscribed s j ≡ (is_permanent cfg j || (is_configured cfg j && b))
    → is_subscribed (notice cfg (c, value) s) j
      ≡ (is_permanent cfg j || (is_configured cfg j && (if c == j then value else b)))
notice-wanted cfg c value b s j v h e = elim (Bool-cases (c == 254)) [
  | inl clock ↦
      let at_clock : c ≡ 254 = (==_iff c 254).0 clock in
      ground
        (arith, e, v.no_clock, ==_iff c j, at_clock, clock-is_subscribed cfg c value s j at_clock)
  | inr other ↦
      let topic : c ≢ 254 = ground arith in
      ground (arith, e, ==_iff c j, notice-is_subscribed cfg c value s j h topic)
]

notices-wanted :
    (cfg : SubscriberConfig) (ns : List (ℕ × Bool)) (b : Bool) (s : SubscriberManager) (j : ℕ)
    → IsValid cfg
    → s.stopping ≡ false
    → is_subscribed s j ≡ (is_permanent cfg j || (is_configured cfg j && b))
    → is_subscribed (notices cfg ns s) j
      ≡ (is_permanent cfg j || (is_configured cfg j && last_notice j ns b))
unfolding notices last_notice
notices-wanted cfg [] b s j v h e = e
notices-wanted cfg ((c, value) ∷ ns) b s j v h e =
    notices-wanted cfg ns (if c == j then value else b) (notice cfg (c, value) s) j v
      (notice-stopping cfg (c, value) s ∙ h) (notice-wanted cfg c value b s j v h e)

-- In a valid configuration, after any sequence of notices, a topic has a subscriber exactly if it
-- is permanent, or is configured and the last notice for its channel asked for one.
pub notices-is_subscribed :
    (cfg : SubscriberConfig) (ns : List (ℕ × Bool)) (j : ℕ)
    → IsValid cfg
    → is_subscribed (notices cfg ns (started cfg)) j
      ≡ (is_permanent cfg j || (is_configured cfg j && last_notice j ns false))
notices-is_subscribed cfg ns j v =
    notices-wanted cfg ns false (started cfg) j v
      (unfold started init on_before_start_thread in refl)
      (started-is_subscribed cfg j v ∙ ground arith)

unsubscribe_all-nil :
    (fuel : ℕ) (m : List (ℕ × Subscriber)) → length m ≤ fuel → unsubscribe_all fuel m ≡ []
unfolding unsubscribe_all unsubscribe
unsubscribe_all-nil zero [] h = refl
unsubscribe_all-nil zero (e ∷ m) h = elim h [ ]
unsubscribe_all-nil (suc fuel) [] h = refl
unsubscribe_all-nil (suc fuel) ((k, v) ∷ m) h =
    unsubscribe_all-nil fuel (erase k ((k, v) ∷ m)) (omega (arith, fewer))
  where
    fewer : length (erase k ((k, v) ∷ m)) ≤ length m
    fewer = unfold erase in rw (==_self k) (length-erase k m)

-- Stopping ends with no subscriber left and the clock stopped: the loop needs no more rounds than
-- there are entries.
pub stop_thread-empty :
    (s : SubscriberManager)
    → ((stop_thread s).subscribers ≡ [])
      × ((stop_thread s).clock_subscriber.timer_running ≡ false)
      × ((stop_thread s).clock_subscriber.thread_running ≡ false)
stop_thread-empty s = (
  unfold stop_thread in unsubscribe_all-nil (length s.subscribers) s.subscribers (omega arith),
  unfold stop_thread in refl,
  unfold stop_thread in refl,
)
