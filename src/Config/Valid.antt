-- ===== src/Config/Valid.antt =====
-- What every definition that src/connectBase.hpp accepts satisfies.
use ros2_connect.Prelude.{
  ℕ, ◌≤◌, ◌<◌, ◌^◌, ◌≡◌, Bool, true, false, not, ◌||◌, ◌&&◌, List, leb, ltb, ℤ, pos, negsuc,
  Bool-cases, inl, inr, arith,
}
use ros2_connect.Message.Codes.{Compressor, Compression, lz4_default, lz4_hc, zlib, is_compressor}
use ros2_connect.Config.Types.{Qos, Topic, time_default, liveliness_system_default}
use ros2_connect.Config.EnumParser.{
  compressor, history_policy, reliability_policy, durability_policy, liveliness_policy,
}
use ros2_connect.Config.Time.{deadline_policy, lifespan_policy, liveliness_lease_duration_policy}
use ros2_connect.Config.Json.{
  Document, as_object, int_field, string_field, bool_field, optional_field, to_unsigned, between,
  as_uint8, as_uint32,
}
use ros2_connect.Config.Profiles.{is_known, parse_qos, parse_compression, as_rate}
use ros2_connect.Config.Topics.{
  is_reserved_topic, find_profile, topic_channel, allows, parse_subscriber, has_channel,
  parse_publisher,
}
use ros2_connect.Config.Checked.{
  Each, nothing, just, Each-bind, Each-guard, Each-at, Each-weaken, All, lookup-All,
}

-- The rates that the library of a compressor understands.
abbrev pub IsRate : Compressor → ℕ → Type 0
IsRate Compressor.none rate = rate < 2 ^ 32
IsRate lz4_default rate = (1 ≤ rate) × (rate ≤ 65537)
IsRate lz4_hc rate = (1 ≤ rate) × (rate ≤ 12)
IsRate zlib rate = (1 ≤ rate) × (rate ≤ 9)

abbrev pub IsCompression : Compression → Type 0
IsCompression c = IsRate c.compressor c.rate

abbrev pub IsQos : Qos → Type 0
IsQos q = (1 ≤ q.depth) × (q.depth < 2 ^ 64)

between-Each : (low high : ℕ) (z : ℤ) → Each (λ n. (low ≤ n) × (n ≤ high)) (between low high z)
between-Each low high (negsuc n) = nothing
between-Each low high (pos n) = elim (Bool-cases (ltb n low || ltb high n)) [
  | inl e ↦ rw e nothing
  | inr e ↦ rw e (just (ground (arith, e)))
]

as_rate-IsRate : (c : Compressor) (z : ℤ) → Each (IsRate c) (as_rate c z)
as_rate-IsRate Compressor.none z =
    Each-weaken (λ n h. omega (arith, h)) (between-Each 0 4294967295 z)
as_rate-IsRate lz4_default z = between-Each 1 65537 z
as_rate-IsRate lz4_hc z = between-Each 1 12 z
as_rate-IsRate zlib z = between-Each 1 9 z

pub uint8-Each : (z : ℤ) → Each (λ n. n < 256) (as_uint8 z)
uint8-Each z = Each-weaken (λ n h. omega (arith, h)) (between-Each 0 255 z)

pub uint32-Each : (z : ℤ) → Each (λ n. n < 2 ^ 32) (as_uint32 z)
uint32-Each z = Each-weaken (λ n h. omega (arith, h)) (between-Each 0 4294967295 z)

pub parse_compression-IsCompression :
    (known : List ℕ) (d : Document) → Each (λ r. IsCompression r.1) (parse_compression known d)
unfolding parse_compression
parse_compression-IsCompression known d = Each-bind (as_object d) (λ json _.
    Each-bind (int_field "id" json) (λ id_value _.
      Each-bind (string_field "compressor" json) (λ text _.
        Each-bind (int_field "rate" json) (λ z _. Each-bind (compressor text) (λ c _.
          Each-bind (as_rate c z) (λ rate in_range. Each-bind (as_uint8 id_value) (λ id _.
            Each-guard (not (is_known id known))
              (λ _. just (Each-at (as_rate-IsRate c z) in_range)))))))))

depth-IsQos :
    (z : ℤ)
    → not (ltb (to_unsigned 64 z) 1) ≡ true
    → (1 ≤ to_unsigned 64 z) × (to_unsigned 64 z < 2 ^ 64)
depth-IsQos (pos n) h = ground (arith, h)
depth-IsQos (negsuc n) h = ground (arith, h)

pub parse_qos-IsQos : (known : List ℕ) (d : Document) → Each (λ r. IsQos r.1) (parse_qos known d)
unfolding parse_qos
parse_qos-IsQos known d = Each-bind (as_object d) (λ json _.
    Each-bind (int_field "id" json) (λ id_value _.
      Each-bind (string_field "history" json) (λ history _.
        Each-bind (int_field "depth" json) (λ depth _.
          Each-bind (string_field "reliability" json) (λ reliability _.
            Each-bind (string_field "durability" json) (λ durability _.
              Each-bind (history_policy history) (λ h _.
                Each-bind (reliability_policy reliability) (λ r _.
                  Each-bind (durability_policy durability) (λ u _.
                    Each-guard (not (ltb (to_unsigned 64 depth) 1)) (λ deep.
                      Each-bind (optional_field "deadline" time_default deadline_policy json)
                        (λ deadline _.
                          Each-bind (optional_field "lifespan" time_default lifespan_policy json)
                            (λ lifespan _.
                              Each-bind
                                (optional_field "liveliness" liveliness_system_default
                                  liveliness_policy json)
                                (λ liveliness _.
                                  Each-bind
                                    (optional_field "liveliness_lease_duration" time_default
                                      liveliness_lease_duration_policy json)
                                    (λ lease _. Each-bind (as_uint8 id_value) (λ id _.
                                      Each-guard (not (is_known id known))
                                        (λ _. just (depth-IsQos depth deep)))))))))))))))))

pub refuted : (b : Bool) → not b ≡ true → b ≡ false
refuted b h = ground (arith, h)

free_channel : (c : ℕ) → not (leb 249 c && leb c 255) ≡ true → c < 256 → c < 249
free_channel c free small = ground (arith, free, small)

topic_channel-Each : (z : ℤ) → Each (λ c. c < 249) (topic_channel z)
unfolding topic_channel
topic_channel-Each z = Each-bind (as_uint8 z) (λ c small.
    Each-guard (not (leb 249 c && leb c 255))
      (λ free. just (free_channel c free (Each-at (uint8-Each z) small))))

-- A topic that the configuration can hold: its channel is no op-code's, its compression has a rate
-- that the library knows, and needs a thread of the topic's own.
pub record IsTopic (t : Topic) : Type 0 where
  pub free_channel : t.channel < 249
  pub deep : IsQos t.qos
  pub rated : IsCompression t.compression
  pub own_thread : is_compressor t.compression.compressor ≡ true → t.use_own_thread ≡ true

pub allowed :
    (c : Compression) (own : Bool)
    → allows c own ≡ true
    → is_compressor c.compressor ≡ true
    → own ≡ true
allowed c own h k = ground (arith, h, k)

pub find_profile-Each :
    {V : Type 0} (P : V → Type 0) (m : List (ℕ × V)) (z : ℤ)
    → All (λ r. P r.1) m
    → Each P (find_profile m z)
unfolding find_profile
find_profile-Each P m z a = lookup-All P (to_unsigned 8 z) m a

module _ (qos : List (ℕ × Qos)) (compression : List (ℕ × Compression))
    (qos_ok : All (λ r. IsQos r.1) qos)
    (compression_ok : All (λ r. IsCompression r.1) compression) where
  pub parse_subscriber-IsTopic :
      (known : List ℕ) (d : Document)
      → Each
          (λ t. (is_known t.channel known ≡ false) × IsTopic t)
          (parse_subscriber qos compression known d)
  unfolding parse_subscriber
  parse_subscriber-IsTopic known d = Each-bind (as_object d) (λ json _.
      Each-bind (int_field "channel" json) (λ z _. Each-bind (string_field "topic" json) (λ topic _.
        Each-bind (string_field "type" json) (λ type _.
          Each-bind (bool_field "useOwnThread" json) (λ own _.
            Each-bind (bool_field "permanent" json) (λ permanent _.
              Each-bind (int_field "qos" json) (λ qos_id _.
                Each-bind (int_field "compression" json) (λ compression_id _.
                  Each-guard (not (is_reserved_topic topic)) (λ _.
                    Each-bind (find_profile qos qos_id) (λ q found.
                      Each-bind (find_profile compression compression_id) (λ c listed.
                        Each-guard (allows c own) (λ fits.
                          Each-bind (topic_channel z) (λ channel free.
                            Each-guard (not (is_known channel known)) (λ fresh. just (
                              refuted (is_known channel known) fresh,
                              record {
                                free_channel = Each-at (topic_channel-Each z) free;
                                deep = Each-at (find_profile-Each IsQos qos qos_id qos_ok) found;
                                rated =
                                    Each-at
                                      (find_profile-Each IsCompression compression compression_id
                                        compression_ok)
                                      listed;
                                own_thread = allowed c own fits;
                              },
                            )))))))))))))))

  pub parse_publisher-IsTopic :
      (subscriber : List Topic) (known : List ℕ) (d : Document)
      → Each
          (λ t.
            (is_known t.channel known ≡ false)
            × (IsTopic t × (has_channel t.channel subscriber ≡ false)))
          (parse_publisher qos subscriber known d)
  unfolding parse_publisher
  parse_publisher-IsTopic subscriber known d = Each-bind (as_object d) (λ json _.
      Each-bind (int_field "channel" json) (λ z _. Each-bind (string_field "topic" json) (λ topic _.
        Each-bind (string_field "type" json) (λ type _.
          Each-bind (bool_field "useOwnThread" json) (λ own _.
            Each-bind (int_field "qos" json) (λ qos_id _.
              Each-guard (not (is_reserved_topic topic)) (λ _.
                Each-bind (find_profile qos qos_id) (λ q found.
                  Each-bind (topic_channel z) (λ channel free.
                    Each-guard (not (is_known channel known)) (λ fresh.
                      Each-guard (not (has_channel channel subscriber)) (λ other. just (
                        refuted (is_known channel known) fresh,
                        (
                          (record {
                            free_channel = Each-at (topic_channel-Each z) free;
                            deep = Each-at (find_profile-Each IsQos qos qos_id qos_ok) found;
                            rated = omega arith;
                            own_thread = λ e. cc;
                          }),
                          refuted (has_channel channel subscriber) other,
                        ),
                      ))))))))))))
