-- ===== src/Config/WellFormed.antt =====
-- The configuration that ConnectBase::init (src/connectBase.hpp) accepts.
use ros2_connect.Prelude.{
  ℕ, ◌+◌, ◌≤◌, ◌<◌, ◌^◌, ◌≡◌, refl, ap, ◌∙◌, Bool, true, false, not, ◌||◌, ◌&&◌, some, List, [],
  ◌∷◌, ◌++◌, ltb, arith, Bool-cases, inl, inr, if◌then◌else◌,
}
use ros2_connect.Message.Codes.{is_compressor}
use ros2_connect.Config.Types.{Topic}
use ros2_connect.Config.Global.{GlobalConfig, initial}
use ros2_connect.Config.Initialize.{
  Environment, Parameters, read_parameters, read_definitions, clock_topic, tf_topics,
  add_predefined, check_authentication, initialize_parameters, init,
}
use ros2_connect.Config.Checked.{Each, just, Each-bind, Each-guard, Each-at, All}
use ros2_connect.Config.Valid.{IsQos, IsCompression, IsTopic, refuted}
use ros2_connect.Config.Unique.{
  occurrences, occurrences-append, occurrences-below, occurrences-find_topic, occurrences-IsUnique,
  All-map, All-weaken, All-append, map-append,
}
use ros2_connect.Config.Sections.{
  topic_channels, AreDefinitions, AreSections, named, read_definitions-AreSections,
}
use ros2_connect.Subscriber.Notices.{IsValid}

-- A topic that a publisher or subscriber can be created for, the pre-defined ones among them.
pub record IsUsable (t : Topic) : Type 0 where
  pub small : t.channel < 256
  pub deep : IsQos t.qos
  pub rated : IsCompression t.compression
  pub own_thread : is_compressor t.compression.compressor ≡ true → t.use_own_thread ≡ true

pub record IsWellFormed (g : GlobalConfig) : Type 0 where
  pub once : (c : ℕ) → occurrences c (topic_channels (g.subscriber ++ g.publisher)) ≤ 1
  pub manageable :
      IsValid (record { subscriber = g.subscriber; subscribe_clock = g.subscribe_clock })
  pub topics : All IsUsable (g.subscriber ++ g.publisher)
  pub services : AreDefinitions g.service_server g.service_client
  pub actions : AreDefinitions g.action_server g.action_client
  pub one_way : (g.publish_clock && g.subscribe_clock) ≡ false
  pub fragments : (8 ≤ g.fragmentation_size) × (g.fragmentation_size < 2 ^ 64)

usable : (t : Topic) → IsTopic t → IsUsable t
usable t h = record {
  small = (let free = h.free_channel in omega (arith, free));
  deep = h.deep;
  rated = h.rated;
  own_thread = h.own_thread;
}

abbrev tf_if : Bool → List Topic
tf_if b = if b then tf_topics else []

abbrev clock_if : Bool → List Topic
clock_if b = if b then clock_topic ∷ [] else []

clock_if-IsUsable : (b : Bool) → All IsUsable (clock_if b)
clock_if-IsUsable false = tt
clock_if-IsUsable true = (
  record {
    small = omega arith;
    deep = (omega arith, omega arith);
    rated = omega arith;
    own_thread = λ e. refl;
  },
  tt,
)

tf_if-IsUsable : (b : Bool) → All IsUsable (tf_if b)
tf_if-IsUsable false = tt
tf_if-IsUsable true = (
  record {
    small = omega arith;
    deep = (omega arith, omega arith);
    rated = omega arith;
    own_thread = λ e. refl;
  },
  (
    record {
      small = omega arith;
      deep = (omega arith, omega arith);
      rated = omega arith;
      own_thread = λ e. refl;
    },
    tt,
  ),
)

-- The pre-defined channels.
predefined : (s k p : Bool) → ℕ → ℕ
predefined s k p c =
    occurrences c (topic_channels (tf_if s))
    + (occurrences c (topic_channels (clock_if k)) + occurrences c (topic_channels (tf_if p)))

predefined-once : (s k p : Bool) (c : ℕ) → (p && s) ≡ false → predefined s k p c ≤ 1
unfolding predefined occurrences
predefined-once s k p c h = ground (arith, h)

predefined-high : (s k p : Bool) (c : ℕ) → c < 249 → predefined s k p c ≡ 0
unfolding predefined occurrences
predefined-high s k p c h = ground (arith, h)

-- How often a channel occurs among some topics.
count : ℕ → List Topic → ℕ
count c ts = occurrences c (topic_channels ts)

count-append : (c : ℕ) (xs ys : List Topic) → count c (xs ++ ys) ≡ count c xs + count c ys
unfolding count
count-append c xs ys =
    ap (occurrences c) (map-append (λ t. t.channel) xs ys)
    ∙ occurrences-append c (topic_channels xs) (topic_channels ys)

count-high : (c : ℕ) (ts : List Topic) → All IsTopic ts → 249 ≤ c → count c ts ≡ 0
unfolding count
count-high c ts h high =
    occurrences-below 249 c (topic_channels ts)
      (All-map (λ t. t.channel) (λ n. n < 249) ts (λ t k. k.free_channel) h) high

tf_if-no_clock : (b : Bool) → count 254 (tf_if b) ≡ 0
unfolding count occurrences
tf_if-no_clock false = refl
tf_if-no_clock true = refl

module _ (g : GlobalConfig) (h : AreSections g)
    (apart : (g.publish_tf && g.subscribe_tf) ≡ false) where
  subscribers-once :
      (c : ℕ)
      → count c g.subscriber
          + (count c g.publisher + predefined g.subscribe_tf g.publish_clock g.publish_tf c)
        ≤ 1
  subscribers-once c =
      let parsed = h.once c in
      let added = predefined-once g.subscribe_tf g.publish_clock g.publish_tf c apart in
      elim (Bool-cases (ltb c 249)) [
        | inl e ↦
            (let none_added =
                predefined-high g.subscribe_tf g.publish_clock g.publish_tf c (ground (arith, e)) in
              unfold count in omega (arith, parsed, none_added))
        | inr e ↦ omega (
          arith,
          added,
          count-high c g.subscriber h.subscribers (ground (arith, e)),
          count-high c g.publisher h.publishers (ground (arith, e)),
        )
      ]

  subscriber-once :
      (c : ℕ) → count c (add_predefined g).subscriber + count c (add_predefined g).publisher ≤ 1
  unfolding add_predefined predefined
  subscriber-once c =
      let total = subscribers-once c in
      rw
        (
          count-append c g.subscriber (tf_if g.subscribe_tf),
          count-append c (g.publisher ++ clock_if g.publish_clock) (tf_if g.publish_tf),
          count-append c g.publisher (clock_if g.publish_clock),
        )
        (unfold count in omega (arith, total))

  subscriber-IsValid : IsValid (record {
    subscriber = (add_predefined g).subscriber;
    subscribe_clock = (add_predefined g).subscribe_clock;
  })
  unfolding add_predefined
  subscriber-IsValid = record {
    unique =
        occurrences-IsUnique (g.subscriber ++ tf_if g.subscribe_tf)
          (λ c. let few = subscriber-once c in unfold count in omega (arith, few));
    no_clock = occurrences-find_topic 254 (g.subscriber ++ tf_if g.subscribe_tf) (
        unfold count in
        count-append 254 g.subscriber (tf_if g.subscribe_tf)
        ∙ rw
            (count-high 254 g.subscriber h.subscribers (omega arith), tf_if-no_clock g.subscribe_tf)
            refl);
  }

  topics-IsUsable : All IsUsable ((add_predefined g).subscriber ++ (add_predefined g).publisher)
  unfolding add_predefined
  topics-IsUsable =
      All-append IsUsable (g.subscriber ++ tf_if g.subscribe_tf) _
        (All-append IsUsable g.subscriber _ (All-weaken g.subscriber usable h.subscribers)
          (tf_if-IsUsable g.subscribe_tf))
        (All-append IsUsable (g.publisher ++ clock_if g.publish_clock) _
          (All-append IsUsable g.publisher _ (All-weaken g.publisher usable h.publishers)
            (clock_if-IsUsable g.publish_clock))
          (tf_if-IsUsable g.publish_tf))

  all-once : (c : ℕ) → count c ((add_predefined g).subscriber ++ (add_predefined g).publisher) ≤ 1
  all-once c =
      rw (count-append c (add_predefined g).subscriber (add_predefined g).publisher)
        (subscriber-once c)

  add_predefined-IsWellFormed :
      (g.publish_clock && g.subscribe_clock) ≡ false
      → 8 ≤ g.fragmentation_size
      → IsWellFormed (add_predefined g)
  unfolding add_predefined
  add_predefined-IsWellFormed clock_apart fragments = record {
    once = λ c. (let few = all-once c in unfold count in few);
    manageable = subscriber-IsValid;
    topics = topics-IsUsable;
    services = h.services;
    actions = h.actions;
    one_way = clock_apart;
    fragments = (fragments, h.size);
  }

not_less : (n : ℕ) → not (ltb n 8) ≡ true → 8 ≤ n
not_less n h = ground (arith, h)

initialize_parameters-IsWellFormed :
    (e : Environment) (p : Parameters) (domain : ℕ) (authentication : Bool)
    → Each IsWellFormed (initialize_parameters e p authentication (named e domain))
unfolding initialize_parameters
initialize_parameters-IsWellFormed e p domain authentication =
    Each-bind (read_definitions e p (read_parameters p (named e domain))) (λ r sections.
      Each-guard (not (r.publish_tf && r.subscribe_tf)) (λ tf_apart.
        Each-guard (not (r.publish_clock && r.subscribe_clock)) (λ clock_apart.
          Each-guard (not (ltb (add_predefined r).fragmentation_size 8)) (λ large.
            Each-guard (not authentication || check_authentication e (add_predefined r)) (λ _.
              just (
                add_predefined-IsWellFormed r
                  (Each-at (read_definitions-AreSections e p domain) sections) (refuted _ tf_apart)
                  (refuted _ clock_apart)
                  (not_less r.fragmentation_size (unfold add_predefined in large))))))))

-- Every configuration that `init` accepts is well-formed: no channel occurs twice among its
-- subscribers and publishers, the subscriber manager can manage its subscribers, every topic, service
-- and action has a quality of service, a compression and a thread that fit together, no server
-- shares a channel with a client, the clock goes one way, and a fragment has at least eight bytes.
pub init-IsWellFormed :
    (e : Environment) (p : Parameters) (authentication : Bool) (g : GlobalConfig)
    → init e p authentication initial ≡ some g
    → IsWellFormed g
unfolding init
init-IsWellFormed e p authentication g accepted =
    Each-at
      (Each-bind e.domain_id
        (λ domain _. initialize_parameters-IsWellFormed e p domain authentication))
      accepted
