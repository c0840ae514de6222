-- ===== src/Config/Profiles.antt =====
-- The QoS definitions and compression profiles of ConnectBase::initializeParameters
-- (src/connectBase.hpp). `none` stands for the `return false` behind an exception.
use ros2_connect.Prelude.{
  ℕ, Bool, true, false, not, Option, some, List, [], ◌∷◌, ◌++◌, ◌==◌, ltb, if◌then◌else◌, ◌>>=◌,
  ◌>>◌, guard, insert, nat_key, ℤ,
}
use ros2_connect.Message.Codes.{Compressor, Compression, lz4_default, lz4_hc, zlib}
use ros2_connect.Config.Types.{Qos, time_default, liveliness_system_default}
use ros2_connect.Config.EnumParser.{
  compressor, history_policy, reliability_policy, durability_policy, liveliness_policy,
}
use ros2_connect.Config.Time.{deadline_policy, lifespan_policy, liveliness_lease_duration_policy}
use ros2_connect.Config.Json.{
  Document, as_object, int_field, string_field, optional_field, to_unsigned, between, as_uint8,
  as_uint32,
}

-- `val == id` for one of the ids that are known.
unfoldable pub is_known : ℕ → List ℕ → Bool
is_known id [] = false
is_known id (k ∷ ks) = let rest = is_known id ks in if k == id then true else rest

-- One QoS definition: its id and its profile.
unfoldable pub parse_qos : List ℕ → Document → Option (ℕ × Qos)
unfolding int_field string_field optional_field history_policy reliability_policy durability_policy
    deadline_policy lifespan_policy liveliness_policy liveliness_lease_duration_policy is_known
parse_qos known document = do
  json ← as_object document
  id_value ← int_field "id" json
  history_text ← string_field "history" json
  depth_value ← int_field "depth" json
  reliability_text ← string_field "reliability" json
  durability_text ← string_field "durability" json
  history ← history_policy history_text
  let depth = to_unsigned 64 depth_value
  reliability ← reliability_policy reliability_text
  durability ← durability_policy durability_text
  guard (not (ltb depth 1))
  deadline ← optional_field "deadline" time_default deadline_policy json
  lifespan ← optional_field "lifespan" time_default lifespan_policy json
  liveliness ← optional_field "liveliness" liveliness_system_default liveliness_policy json
  lease ←
      optional_field "liveliness_lease_duration" time_default liveliness_lease_duration_policy json
  id ← as_uint8 id_value
  guard (not (is_known id known))
  some (
    id,
    record {
      history = history;
      depth = depth;
      reliability = reliability;
      durability = durability;
      deadline = deadline;
      lifespan = lifespan;
      liveliness = liveliness;
      liveliness_lease_duration = lease;
    },
  )

-- The macros of include/connect/types.hpp, with the limits that LZ4 and zlib define.
abbrev pub lz4_hc_max_rate : ℕ
lz4_hc_max_rate = 12

abbrev pub zlib_max_rate : ℕ
zlib_max_rate = 9

-- The tests of the rate of a compressor.
abbrev pub as_rate : Compressor → ℤ → Option ℕ
as_rate Compressor.none rate = as_uint32 rate
as_rate lz4_default rate = between 1 65537 rate
as_rate lz4_hc rate = between 1 lz4_hc_max_rate rate
as_rate zlib rate = between 1 zlib_max_rate rate

-- One compression profile: its id and its content.
unfoldable pub parse_compression : List ℕ → Document → Option (ℕ × Compression)
unfolding int_field string_field compressor is_known
parse_compression known document = do
  json ← as_object document
  id_value ← int_field "id" json
  compressor_text ← string_field "compressor" json
  rate_value ← int_field "rate" json
  c ← compressor compressor_text
  rate ← as_rate c rate_value
  id ← as_uint8 id_value
  guard (not (is_known id known))
  some (id, record { compressor = c; rate = rate })

-- The loop over the documents of one kind of profile: what is known, and the map that is filled.
unfoldable pub parse_profiles :
    {P : Type 0}
    → (List ℕ → Document → Option (ℕ × P))
    → List Document
    → List ℕ
    → List (ℕ × P)
    → Option (List (ℕ × P))
parse_profiles parse [] known profiles = some profiles
parse_profiles parse (d ∷ ds) known profiles =
    parse known d >>= λ p. parse_profiles parse ds (known ++ p.0 ∷ []) (insert p.0 p.1 profiles)

-- The loop over the documents of one kind of topic, service or action: the channels that are known,
-- and the list that is filled. `can_create` says whether rclcpp or the plugin can create it.
unfoldable pub parse_items :
    {T : Type 0}
    → (T → ℕ)
    → (List ℕ → Document → Option T)
    → (T → Bool)
    → List Document
    → List ℕ
    → List T
    → Option (List T)
parse_items channel parse can_create [] known items = some items
parse_items channel parse can_create (d ∷ ds) known items = parse known d >>= λ t.
    guard (can_create t)
    >> parse_items channel parse can_create ds (known ++ channel t ∷ []) (items ++ t ∷ [])
