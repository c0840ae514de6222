-- ===== src/Config/Tests.antt =====
-- The name of a compressor, read back, and a configuration that is accepted.
use Prim.Native.String.{String}
use text.Mathlib.Text
use ros2_connect.Prelude.{
  pos, ◌≡◌, ◌||◌, refl, true, false, Option, none, some, List, [], ◌∷◌, if◌then◌else◌, lookup,
  insert,
}
use ros2_connect.Config.Types.{Topic}
use ros2_connect.Config.Json.{int64, string, boolean, Document, malformed, object}
use ros2_connect.Config.Global.{GlobalConfig, initial}
use ros2_connect.Config.Initialize.{Environment, Parameters, init, clock_topic}
use ros2_connect.Config.WellFormed.{IsWellFormed, init-IsWellFormed}
use ros2_connect.Config.Accepted.{IsAuthenticating, init-IsAuthenticating}
use ros2_connect.Publisher.Watch.{History}

-- One profile of each kind, a subscriber with a compression and a service server.
abbrev pub parse_text : String → Document
parse_text t =
    if Text.◌==◌ t "qos"
    then object (
        ("id", int64 (pos 1))
        ∷ ("history", string "RMW_QOS_POLICY_HISTORY_KEEP_LAST")
        ∷ ("depth", int64 (pos 5))
        ∷ ("reliability", string "RMW_QOS_POLICY_RELIABILITY_RELIABLE")
        ∷ ("durability", string "RMW_QOS_POLICY_DURABILITY_VOLATILE")
        ∷ [])
    else if Text.◌==◌ t "compression"
    then object
        (("id", int64 (pos 2)) ∷ ("compressor", string "LZ4_HC") ∷ ("rate", int64 (pos 9)) ∷ [])
    else if Text.◌==◌ t "camera"
    then object (
        ("channel", int64 (pos 3))
        ∷ ("topic", string "/camera")
        ∷ ("type", string "sensor_msgs/msg/Image")
        ∷ ("useOwnThread", boolean true)
        ∷ ("permanent", boolean false)
        ∷ ("qos", int64 (pos 1))
        ∷ ("compression", int64 (pos 2))
        ∷ [])
    else if Text.◌==◌ t "add"
    then object (
        ("channel", int64 (pos 3))
        ∷ ("type", string "demo/srv/Add")
        ∷ ("maxExecTime", int64 (pos 10))
        ∷ ("useOwnThread", boolean true)
        ∷ ("allowSimultaneous", boolean true)
        ∷ ("service-qos", int64 (pos 1))
        ∷ ("compression", int64 (pos 2))
        ∷ [])
    else malformed

abbrev pub environment : Environment
environment = record {
  parse = parse_text;
  name = "connect";
  namespace = "/";
  domain_id = some 7;
  can_subscribe = λ _. true;
  can_publish = λ _. true;
  can_serve = λ _. true;
  can_call = λ _. true;
  can_act = λ _. true;
  can_request = λ _. true;
  can_authenticate = λ _. true;
}

abbrev pub array_parameter : String → List String
array_parameter name =
    if Text.◌==◌ name "qos"
    then "qos" ∷ []
    else if Text.◌==◌ name "compression"
    then "compression" ∷ []
    else if Text.◌==◌ name "subscriber"
    then "camera" ∷ []
    else if Text.◌==◌ name "service/server"
    then "add" ∷ []
    else []

-- The parameters of a server that omits the authentication and subscribes to tf.
abbrev pub parameters : Parameters
parameters = record {
  string_parameter = λ _ d. d;
  bool_parameter =
      λ name d. Text.◌==◌ name "authentication/omit" || (Text.◌==◌ name "tf/subscribe" || d);
  int_parameter = λ _ d. d;
  string_array_parameter = array_parameter;
}

-- What `init` makes of them.
abbrev result : Option GlobalConfig
result = init environment parameters true initial

abbrev or_initial : Option GlobalConfig → GlobalConfig
or_initial none = initial
or_initial (some g) = g

accepted : result ≡ some (or_initial result)
unfolding init lookup insert
accepted = refl

init-IsWellFormed_example : IsWellFormed (or_initial result)
init-IsWellFormed_example =
    init-IsWellFormed environment parameters true (or_initial result) accepted

init-IsAuthenticating_example : IsAuthenticating environment (or_initial result)
init-IsAuthenticating_example =
    init-IsAuthenticating environment parameters initial (or_initial result) accepted

-- A subscription at one second, none from two seconds on.
abbrev watched_camera : History
watched_camera = (0, 2_000_000_000) ∷ (1, 1_000_000_000) ∷ []

abbrev camera : Topic
camera = record clock_topic { channel = 3 }
