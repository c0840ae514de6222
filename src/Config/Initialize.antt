-- ===== src/Config/Initialize.antt =====
-- ConnectBase::initializeParameters, init and evalNrOfMultiThreadedExecutorThreads
-- (src/connectBase.hpp). The node, its parameters, the JSON library and the plugin loader are
-- parameters.
use Prim.Native.String.{String}
use text.Mathlib.Text
use ros2_connect.Prelude.{
  ℕ, ◌+◌, ◌*◌, Bool, true, false, not, ◌&&◌, ◌||◌, Option, some, List, [], ◌∷◌, ◌++◌, ltb,
  if◌then◌else◌, ◌>>=◌, ◌>>◌, guard, map, ℤ, pos,
}
use ros2_connect.Config.Types.{
  Topic, ServiceActionDefinition, clock_and_tf_qos, tf_static_qos, default_compression_profile,
}
use ros2_connect.Config.Json.{Document, as_object, bool_field, to_unsigned}
use ros2_connect.Config.Global.{GlobalConfig}
use ros2_connect.Config.Profiles.{parse_qos, parse_compression, parse_profiles, parse_items}
use ros2_connect.Config.Topics.{parse_subscriber, parse_publisher}
use ros2_connect.Config.Services.{
  parse_service_server, parse_service_client, parse_action_server, parse_action_client,
}

-- `get_parameter` of the declared parameters: the value that the user gave, or else the default.
pub record Parameters : Type 0 where
  pub string_parameter : String → String → String
  pub bool_parameter : String → Bool → Bool
  pub int_parameter : String → ℤ → ℤ
  pub string_array_parameter : String → List String

-- What else the initialization asks for: the JSON parser, the domain id, and whether rclcpp and the
-- plugins can create what a definition names.
pub record Environment : Type 0 where
  pub parse : String → Document
  pub name : String
  pub namespace : String
  pub domain_id : Option ℕ
  pub can_subscribe : Topic → Bool
  pub can_publish : Topic → Bool
  pub can_serve : ServiceActionDefinition → Bool
  pub can_call : ServiceActionDefinition → Bool
  pub can_act : ServiceActionDefinition → Bool
  pub can_request : ServiceActionDefinition → Bool
  pub can_authenticate : String → Bool

-- The scalar parameters.
unfoldable pub read_parameters : Parameters → GlobalConfig → GlobalConfig
read_parameters p g = record g {
  host = p.string_parameter "host" "127.0.0.1";
  port = p.string_parameter "port" "9090";
  path = p.string_parameter "path" "/";
  ssl = p.bool_parameter "ssl" false;
  authentication_host = p.string_parameter "authentication/host" "127.0.0.1";
  authentication_port = p.string_parameter "authentication/port" "8080";
  authentication_ssl = p.bool_parameter "authentication/ssl" false;
  authentication_plugin = p.string_parameter "authentication/plugin" "";
  authentication_endpoint = p.string_parameter "authentication/endpoint" "/";
  authentication_omit = p.bool_parameter "authentication/omit" false;
  authentication_timeout = to_unsigned 16 (p.int_parameter "authentication/timeout" (pos 10));
  fragmentation = p.bool_parameter "fragmentation/enable" true;
  fragmentation_size = to_unsigned 64 (p.int_parameter "fragmentation/size" (pos 4096));
  max_message_size = to_unsigned 64 (p.int_parameter "max_message_size" (pos (16 * 1024 * 1024)));
  publish_status = p.bool_parameter "publish_status" false;
  user_key = p.string_parameter "user_key" "";
  subscribe_clock = p.bool_parameter "clock/subscribe" false;
  publish_clock = p.bool_parameter "clock/publish" false;
  subscribe_tf = p.bool_parameter "tf/subscribe" false;
  publish_tf = p.bool_parameter "tf/publish" false;
}

-- The definitions of one array parameter, parsed by the library.
abbrev pub documents : Environment → Parameters → String → List Document
documents e p name = map e.parse (p.string_array_parameter name)

-- The loops over the array parameters, in their order.
unfoldable pub read_definitions : Environment → Parameters → GlobalConfig → Option GlobalConfig
unfolding parse_profiles parse_qos parse_compression parse_items parse_subscriber parse_publisher
    parse_service_server parse_service_client parse_action_server parse_action_client
read_definitions e p g = do
  qos ← parse_profiles parse_qos (documents e p "qos") [] g.qos
  compression ← parse_profiles parse_compression (documents e p "compression") [] g.compression
  subscriber ←
      parse_items (λ t. t.channel) (parse_subscriber qos compression) e.can_subscribe
        (documents e p "subscriber") [] g.subscriber
  publisher ←
      parse_items (λ t. t.channel) (parse_publisher qos subscriber) e.can_publish
        (documents e p "publisher") [] g.publisher
  service_server ←
      parse_items (λ t. t.channel) (parse_service_server qos compression) e.can_serve
        (documents e p "service/server") [] g.service_server
  service_client ←
      parse_items (λ t. t.channel) (parse_service_client qos compression service_server) e.can_call
        (documents e p "service/client") [] g.service_client
  action_server ←
      parse_items (λ t. t.channel) (parse_action_server qos compression) e.can_act
        (documents e p "action/server") [] g.action_server
  action_client ←
      parse_items (λ t. t.channel) (parse_action_client qos compression action_server) e.can_request
        (documents e p "action/client") [] g.action_client
  some (record g {
    qos = qos;
    compression = compression;
    subscriber = subscriber;
    publisher = publisher;
    service_server = service_server;
    service_client = service_client;
    action_server = action_server;
    action_client = action_client;
  })

-- The pre-defined publisher of the clock, and the pre-defined topics of tf.
abbrev pub clock_topic : Topic
clock_topic = record {
  channel = 254;
  topic = "/clock";
  type = "rosgraph_msgs/msg/Clock";
  use_own_thread = true;
  permanent = true;
  qos = clock_and_tf_qos;
  compression = default_compression_profile;
}

abbrev pub tf_topics : List Topic
tf_topics =
    record clock_topic { channel = 252; topic = "/tf"; type = "tf2_msgs/msg/TFMessage" }
    ∷ record clock_topic {
      channel = 253;
      topic = "/tf_static";
      type = "tf2_msgs/msg/TFMessage";
      qos = tf_static_qos;
    }
    ∷ []

unfoldable pub add_predefined : GlobalConfig → GlobalConfig
add_predefined g = record g {
  publisher =
      (g.publisher ++ (if g.publish_clock then clock_topic ∷ [] else []))
      ++ (if g.publish_tf then tf_topics else []);
  subscriber = g.subscriber ++ (if g.subscribe_tf then tf_topics else []);
}

abbrev pub is_empty : String → Bool
is_empty s = Text.◌==◌ s ""

-- The tests for the server's authentication.
unfoldable pub check_authentication : Environment → GlobalConfig → Bool
check_authentication e g =
    ltb 0 g.authentication_timeout
    && ((is_empty g.authentication_plugin || e.can_authenticate g.authentication_plugin)
        && not (not g.authentication_omit && is_empty g.authentication_plugin))

-- `ConnectBase::initializeParameters`.
unfoldable pub initialize_parameters :
    Environment → Parameters → Bool → GlobalConfig → Option GlobalConfig
unfolding read_parameters read_definitions add_predefined check_authentication
initialize_parameters e p authentication g = do
  r ← read_definitions e p (read_parameters p g)
  guard (not (r.publish_tf && r.subscribe_tf))
  guard (not (r.publish_clock && r.subscribe_clock))
  let s = add_predefined r
  guard (not (ltb s.fragmentation_size 8))
  guard (not authentication || check_authentication e s)
  some s

-- `ConnectBase::init`, with `resolveDomain`.
unfoldable pub init : Environment → Parameters → Bool → GlobalConfig → Option GlobalConfig
unfolding initialize_parameters
init e p authentication g = e.domain_id >>= λ domain.
    initialize_parameters e p authentication
      (record g { node_name = e.name; node_namespace = e.namespace; node_domain_id = domain })

-- The loop of `evalNrOfMultiThreadedExecutorThreads` over the definitions of one parameter.
unfoldable pub count_threads : List Document → ℕ → Option ℕ
unfolding bool_field
count_threads [] n = some n
count_threads (d ∷ ds) n = do
  json ← as_object d
  use_own_thread ← bool_field "useOwnThread" json
  count_threads ds (if use_own_thread then n + 1 else n)

abbrev pub flag : Bool → ℕ
flag b = if b then 1 else 0

-- `ConnectBase::evalNrOfMultiThreadedExecutorThreads`; `none` is the result -1.
unfoldable pub eval_threads : Environment → Parameters → Option ℕ
unfolding count_threads
eval_threads e p = do
  a ← count_threads (documents e p "subscriber") 4
  b ← count_threads (documents e p "service/server") a
  c ← count_threads (documents e p "service/client") b
  d ← count_threads (documents e p "action/server") c
  n ← count_threads (documents e p "action/client") d
  some (
      n
      + flag (p.bool_parameter "clock/publish" false)
      + flag (p.bool_parameter "tf/publish" false)
      + flag (p.bool_parameter "tf/subscribe" false))
