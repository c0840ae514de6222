-- ===== src/Config/Services.antt =====
-- The service and action definitions of ConnectBase::initializeParameters (src/connectBase.hpp).
use Prim.Native.String.{String}
use ros2_connect.Prelude.{
  ℕ, Bool, true, false, not, ◌&&◌, Option, some, List, [], ◌∷◌, ◌==◌, if◌then◌else◌, ◌>>=◌, ◌>>◌,
  guard, ℤ, pos,
}
use ros2_connect.Message.Codes.{Compression}
use ros2_connect.Config.Types.{Qos, ServiceActionDefinition}
use ros2_connect.Config.Json.{
  Document, Fields, as_object, int_field, string_field, bool_field, as_uint8, as_uint32, as_int32,
}
use ros2_connect.Config.Profiles.{is_known}
use ros2_connect.Config.Topics.{find_profile, allows}

-- The profile whose id a field holds.
unfoldable pub profile_field : {P : Type 0} → String → List (ℕ × P) → Fields → Option P
unfolding int_field find_profile
profile_field key profiles json = int_field key json >>= find_profile profiles

-- `allowSimultaneous && !useOwnThread` is an error.
abbrev pub is_simultaneous_shared : Bool → Bool → Bool
is_simultaneous_shared allow_simultaneous use_own_thread = allow_simultaneous && not use_own_thread

-- A channel that is new in its section.
unfoldable pub new_channel : List ℕ → ℤ → Option ℕ
unfolding is_known
new_channel known z = do channel ← as_uint8 z; guard (not (is_known channel known)); some channel

-- One service server.
unfoldable pub parse_service_server :
    List (ℕ × Qos) → List (ℕ × Compression) → List ℕ → Document → Option ServiceActionDefinition
unfolding int_field string_field bool_field profile_field new_channel
parse_service_server qos_map compression_map known document = do
  json ← as_object document
  channel_value ← int_field "channel" json
  type ← string_field "type" json
  exec_value ← int_field "maxExecTime" json
  use_own_thread ← bool_field "useOwnThread" json
  allow_simultaneous ← bool_field "allowSimultaneous" json
  guard (not (is_simultaneous_shared allow_simultaneous use_own_thread))
  qos ← profile_field "service-qos" qos_map json
  compression ← profile_field "compression" compression_map json
  guard (allows compression use_own_thread)
  max_exec_time ← as_uint32 exec_value
  channel ← new_channel known channel_value
  some (record {
    channel = channel;
    type = type;
    use_own_thread = use_own_thread;
    allow_simultaneous = allow_simultaneous;
    service_qos = qos;
    feedback_qos = qos;
    status_qos = qos;
    result_timeout = pos 0;
    max_exec_time = max_exec_time;
    compression = compression;
  })

-- `server.channel == channel` for one of the definitions.
unfoldable pub has_definition : ℕ → List ServiceActionDefinition → Bool
has_definition c [] = false
has_definition c (d ∷ ds) = let rest = has_definition c ds in if d.channel == c then true else rest

-- One service client.
unfoldable pub parse_service_client :
    List (ℕ × Qos)
    → List (ℕ × Compression)
    → List ServiceActionDefinition
    → List ℕ
    → Document
    → Option ServiceActionDefinition
unfolding int_field string_field bool_field profile_field new_channel has_definition
parse_service_client qos_map compression_map servers known document = do
  json ← as_object document
  channel_value ← int_field "channel" json
  type ← string_field "type" json
  use_own_thread ← bool_field "useOwnThread" json
  allow_simultaneous ← bool_field "allowSimultaneous" json
  guard (not (is_simultaneous_shared allow_simultaneous use_own_thread))
  qos ← profile_field "service-qos" qos_map json
  compression ← profile_field "compression" compression_map json
  guard (allows compression use_own_thread)
  channel ← new_channel known channel_value
  guard (not (has_definition channel servers))
  some (record {
    channel = channel;
    type = type;
    use_own_thread = use_own_thread;
    allow_simultaneous = allow_simultaneous;
    service_qos = qos;
    feedback_qos = qos;
    status_qos = qos;
    result_timeout = pos 0;
    max_exec_time = 0;
    compression = compression;
  })

-- One action server.
unfoldable pub parse_action_server :
    List (ℕ × Qos) → List (ℕ × Compression) → List ℕ → Document → Option ServiceActionDefinition
unfolding int_field string_field bool_field profile_field new_channel
parse_action_server qos_map compression_map known document = do
  json ← as_object document
  channel_value ← int_field "channel" json
  type ← string_field "type" json
  timeout_value ← int_field "resultTimeout" json
  use_own_thread ← bool_field "useOwnThread" json
  allow_simultaneous ← bool_field "allowSimultaneous" json
  guard (not (is_simultaneous_shared allow_simultaneous use_own_thread))
  service_qos ← profile_field "service-qos" qos_map json
  feedback_qos ← profile_field "feedback-qos" qos_map json
  status_qos ← profile_field "status-qos" qos_map json
  compression ← profile_field "compression" compression_map json
  guard (allows compression use_own_thread)
  result_timeout ← as_int32 timeout_value
  channel ← new_channel known channel_value
  some (record {
    channel = channel;
    type = type;
    use_own_thread = use_own_thread;
    allow_simultaneous = allow_simultaneous;
    service_qos = service_qos;
    feedback_qos = feedback_qos;
    status_qos = status_qos;
    result_timeout = result_timeout;
    max_exec_time = 0;
    compression = compression;
  })

-- One action client.
unfoldable pub parse_action_client :
    List (ℕ × Qos)
    → List (ℕ × Compression)
    → List ServiceActionDefinition
    → List ℕ
    → Document
    → Option ServiceActionDefinition
unfolding int_field string_field bool_field profile_field new_channel has_definition
parse_action_client qos_map compression_map servers known document = do
  json ← as_object document
  channel_value ← int_field "channel" json
  type ← string_field "type" json
  use_own_thread ← bool_field "useOwnThread" json
  allow_simultaneous ← bool_field "allowSimultaneous" json
  guard (not (is_simultaneous_shared allow_simultaneous use_own_thread))
  service_qos ← profile_field "service-qos" qos_map json
  feedback_qos ← profile_field "feedback-qos" qos_map json
  status_qos ← profile_field "status-qos" qos_map json
  compression ← profile_field "compression" compression_map json
  guard (allows compression use_own_thread)
  channel ← new_channel known channel_value
  guard (not (has_definition channel servers))
  some (record {
    channel = channel;
    type = type;
    use_own_thread = use_own_thread;
    allow_simultaneous = allow_simultaneous;
    service_qos = service_qos;
    feedback_qos = feedback_qos;
    status_qos = status_qos;
    result_timeout = pos 0;
    max_exec_time = 0;
    compression = compression;
  })
