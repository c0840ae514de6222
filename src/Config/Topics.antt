-- ===== src/Config/Topics.antt =====
-- The subscribers and publishers of ConnectBase::initializeParameters (src/connectBase.hpp).
use Prim.Native.String.{String}
use text.Mathlib.Text
use ros2_connect.Prelude.{
  ℕ, Bool, true, false, not, ◌&&◌, ◌||◌, Option, some, List, [], ◌∷◌, ◌==◌, leb, if◌then◌else◌,
  ◌>>=◌, ◌>>◌, guard, lookup, nat_key, ℤ,
}
use ros2_connect.Message.Codes.{Compression, is_compressor, op_code_min, op_code_max}
use ros2_connect.Config.Types.{Qos, Topic, default_compression_profile}
use ros2_connect.Config.Json.{
  Document, as_object, int_field, string_field, bool_field, to_unsigned, as_uint8,
}
use ros2_connect.Config.Profiles.{is_known}

-- The topics that have parameters of their own.
abbrev pub is_reserved_topic : String → Bool
is_reserved_topic t = Text.◌==◌ t "/tf" || (Text.◌==◌ t "/tf_static" || Text.◌==◌ t "/clock")

-- `GlobalConfig::qos.find(*val)`: the `int64_t` becomes a `uint8_t`.
unfoldable pub find_profile : {P : Type 0} → List (ℕ × P) → ℤ → Option P
find_profile profiles id = lookup (to_unsigned 8 id) profiles

-- A channel that no op-code has.
unfoldable pub topic_channel : ℤ → Option ℕ
topic_channel z = do
  channel ← as_uint8 z
  guard (not (leb op_code_min channel && leb channel op_code_max))
  some channel

-- `compression->compressor != Compressor::NONE && !useOwnThread` is an error.
abbrev pub allows : Compression → Bool → Bool
allows compression use_own_thread = not (is_compressor compression.compressor && not use_own_thread)

-- One subscriber.
unfoldable pub parse_subscriber :
    List (ℕ × Qos) → List (ℕ × Compression) → List ℕ → Document → Option Topic
unfolding int_field string_field bool_field find_profile topic_channel is_known
parse_subscriber qos_map compression_map known document = do
  json ← as_object document
  channel_value ← int_field "channel" json
  topic ← string_field "topic" json
  type ← string_field "type" json
  use_own_thread ← bool_field "useOwnThread" json
  permanent ← bool_field "permanent" json
  qos_id ← int_field "qos" json
  compression_id ← int_field "compression" json
  guard (not (is_reserved_topic topic))
  qos ← find_profile qos_map qos_id
  compression ← find_profile compression_map compression_id
  guard (allows compression use_own_thread)
  channel ← topic_channel channel_value
  guard (not (is_known channel known))
  some (record {
    channel = channel;
    topic = topic;
    type = type;
    use_own_thread = use_own_thread;
    permanent = permanent;
    qos = qos;
    compression = compression;
  })

-- `subscriber.channel == channel` for one of the subscribers.
unfoldable pub has_channel : ℕ → List Topic → Bool
has_channel c [] = false
has_channel c (t ∷ ts) = let rest = has_channel c ts in if t.channel == c then true else rest

-- One publisher.
unfoldable pub parse_publisher : List (ℕ × Qos) → List Topic → List ℕ → Document → Option Topic
unfolding int_field string_field bool_field find_profile topic_channel is_known has_channel
parse_publisher qos_map subscriber known document = do
  json ← as_object document
  channel_value ← int_field "channel" json
  topic ← string_field "topic" json
  type ← string_field "type" json
  use_own_thread ← bool_field "useOwnThread" json
  qos_id ← int_field "qos" json
  guard (not (is_reserved_topic topic))
  qos ← find_profile qos_map qos_id
  channel ← topic_channel channel_value
  guard (not (is_known channel known))
  guard (not (has_channel channel subscriber))
  some (record {
    channel = channel;
    topic = topic;
    type = type;
    use_own_thread = use_own_thread;
    permanent = true;
    qos = qos;
    compression = default_compression_profile;
  })
