-- ===== src/Config/Global.antt =====
-- src/global/globalConfig.hpp and globalConfig.cpp: the properties of the process, written once
-- during initialization.
use Prim.Native.String.{String}
use ros2_connect.Prelude.{ℕ, ◌*◌, Bool, true, false, List, []}
use ros2_connect.Message.Codes.{Compression}
use ros2_connect.Config.Types.{Qos, Topic, ServiceActionDefinition}

pub record GlobalConfig : Type 0 where
  pub node_name : String
  pub node_namespace : String
  pub node_domain_id : ℕ
  pub host : String
  pub path : String
  pub port : String
  pub ssl : Bool
  pub authentication_host : String
  pub authentication_port : String
  pub authentication_ssl : Bool
  pub authentication_plugin : String
  pub authentication_endpoint : String
  pub authentication_omit : Bool
  pub authentication_timeout : ℕ
  pub fragmentation : Bool
  pub fragmentation_size : ℕ
  pub max_message_size : ℕ
  pub publish_status : Bool
  pub user_key : String
  pub subscribe_clock : Bool
  pub publish_clock : Bool
  pub subscribe_tf : Bool
  pub publish_tf : Bool
  pub qos : List (ℕ × Qos)
  pub compression : List (ℕ × Compression)
  pub subscriber : List Topic
  pub publisher : List Topic
  pub service_server : List ServiceActionDefinition
  pub service_client : List ServiceActionDefinition
  pub action_server : List ServiceActionDefinition
  pub action_client : List ServiceActionDefinition

-- The initial values of globalConfig.cpp.
abbrev pub initial : GlobalConfig
initial = record {
  node_name = "";
  node_namespace = "";
  node_domain_id = 0;
  host = "";
  path = "";
  port = "";
  ssl = false;
  authentication_host = "";
  authentication_port = "";
  authentication_ssl = false;
  authentication_plugin = "";
  authentication_endpoint = "";
  authentication_omit = false;
  authentication_timeout = 10;
  fragmentation = true;
  fragmentation_size = 4096;
  max_message_size = 16 * 1024 * 1024;
  publish_status = false;
  user_key = "";
  subscribe_clock = false;
  publish_clock = false;
  subscribe_tf = false;
  publish_tf = false;
  qos = [];
  compression = [];
  subscriber = [];
  publisher = [];
  service_server = [];
  service_client = [];
  action_server = [];
  action_client = [];
}
