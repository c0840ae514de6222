-- ===== src/ServiceActions/Manager.antt =====
-- src/serviceAction/serviceActionManager.cpp. A plugin keeps what its `handle` was given; what it
-- does with it, on threads of its own, is not part of the manager.
use ros2_connect.Prelude.{
  ℕ, zero, suc, Bool, true, false, Option, none, some, List, [], ◌∷◌, ◌++◌, length, if◌then◌else◌,
  insert, erase, update, nat_key,
}
use ros2_connect.Message.Codes.{
  ServiceActionOpCode, service_to_client, service_to_client_cancel, service_to_server,
  action_to_client_goal, action_to_client_cancel,
}
use ros2_connect.Message.Rcl.{RclMessage}
use ros2_connect.Message.Rcl
use ros2_connect.Message.ServiceAction.{ServiceActionMessage, from_message}
use ros2_connect.Config.Types.{ServiceActionDefinition}

-- The group of the manager, or a new one.
pub data CallbackGroup : Type 0 where
  shared_reentrant mutually_exclusive reentrant : CallbackGroup

-- The choice in each loop of `ServiceActionManager::init`.
unfoldable pub callback_group : ServiceActionDefinition → CallbackGroup
callback_group d =
    if d.use_own_thread
    then (if d.allow_simultaneous then mutually_exclusive else reentrant)
    else shared_reentrant

-- A plugin after `init`.
pub record Plugin : Type 0 where
  pub definition : ServiceActionDefinition
  pub group : CallbackGroup
  pub handled : List ServiceActionMessage

-- What GlobalConfig holds for the manager.
pub record ServiceActionConfig : Type 0 where
  pub service_server : List ServiceActionDefinition
  pub service_client : List ServiceActionDefinition
  pub action_server : List ServiceActionDefinition
  pub action_client : List ServiceActionDefinition

pub record ServiceActionManager : Type 0 where
  pub service_servers : List (ℕ × Plugin)
  pub service_clients : List (ℕ × Plugin)
  pub action_servers : List (ℕ × Plugin)
  pub action_clients : List (ℕ × Plugin)
  pub to_handle : List RclMessage
  pub stopping : Bool

abbrev pub new : ServiceActionManager
new = record {
  service_servers = [];
  service_clients = [];
  action_servers = [];
  action_clients = [];
  to_handle = [];
  stopping = false;
}

-- One loop of `ServiceActionManager::init`.
unfoldable pub init_plugins : List ServiceActionDefinition → List (ℕ × Plugin) → List (ℕ × Plugin)
unfolding callback_group
init_plugins [] plugins = plugins
init_plugins (d ∷ ds) plugins =
    init_plugins ds
      (insert d.channel (record { definition = d; group = callback_group d; handled = [] }) plugins)

unfoldable pub init : ServiceActionConfig → ServiceActionManager → ServiceActionManager
unfolding init_plugins
init cfg s = record s {
  service_servers = init_plugins cfg.service_server s.service_servers;
  service_clients = init_plugins cfg.service_client s.service_clients;
  action_servers = init_plugins cfg.action_server s.action_servers;
  action_clients = init_plugins cfg.action_client s.action_clients;
}

-- `ServiceActionManager::handle`.
unfoldable pub handle : RclMessage → ServiceActionManager → ServiceActionManager
handle m s = record s { to_handle = s.to_handle ++ m ∷ [] }

-- The kind of plugin that the chain of tests in `ServiceActionManager::run` selects.
pub data Target : Type 0 where
  service_server service_client action_client action_server : Target

unfoldable pub target : ServiceActionOpCode → Target
target service_to_server = service_server
target service_to_client = service_client
target service_to_client_cancel = service_client
target action_to_client_goal = action_client
target action_to_client_cancel = action_client
target _ = action_server

-- `plugin->handle(message)`.
unfoldable pub take_message : ServiceActionMessage → Plugin → Plugin
take_message m p = record p { handled = p.handled ++ m ∷ [] }

abbrev pub dispatch : Target → ServiceActionMessage → ServiceActionManager → ServiceActionManager
dispatch service_server m s = record s {
  service_servers = update m.service_action_channel (take_message m) s.service_servers;
}
dispatch service_client m s = record s {
  service_clients = update m.service_action_channel (take_message m) s.service_clients;
}
dispatch action_client m s = record s {
  action_clients = update m.service_action_channel (take_message m) s.action_clients;
}
dispatch action_server m s = record s {
  action_servers = update m.service_action_channel (take_message m) s.action_servers;
}

-- The rest of an iteration, behind `ServiceActionMessage::fromMessage`.
unfoldable pub route : Option ServiceActionMessage → ServiceActionManager → ServiceActionManager
unfolding target take_message
route none s = s
route (some a) s = if s.stopping then s else dispatch (target a.service_action_op_code) a s

-- What `ServiceActionManager::run` does with a message that it took from its queue.
unfoldable pub process : RclMessage → ServiceActionManager → ServiceActionManager
unfolding route from_message Rcl.get_combined_vector
process m s =
    route (from_message m.channel m.compressor m.uncompressed_size (Rcl.get_combined_vector m)) s

-- One iteration of `ServiceActionManager::run`.
unfoldable pub run_once : ServiceActionManager → ServiceActionManager
unfolding process
run_once s =
    if s.stopping
    then s
    else elim s.to_handle [ [] ↦ s | m ∷ ms ↦ process m (record s { to_handle = ms }) ]

-- A loop of `ServiceActionManager::onStopThread`, with fuel for its rounds: the first plugin is
-- stopped and erased.
unfoldable pub stop_plugins : ℕ → List (ℕ × Plugin) → List (ℕ × Plugin)
stop_plugins zero plugins = plugins
stop_plugins (suc fuel) [] = []
stop_plugins (suc fuel) ((k, p) ∷ plugins) = stop_plugins fuel (erase k ((k, p) ∷ plugins))

-- `Thread::stopThread` with `onStopThread`.
unfoldable pub stop_thread : ServiceActionManager → ServiceActionManager
unfolding stop_plugins
stop_thread s = record s {
  service_clients = stop_plugins (length s.service_clients) s.service_clients;
  action_clients = stop_plugins (length s.action_clients) s.action_clients;
  service_servers = stop_plugins (length s.service_servers) s.service_servers;
  action_servers = stop_plugins (length s.action_servers) s.action_servers;
  stopping = true;
}
