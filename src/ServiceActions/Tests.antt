-- ===== src/ServiceActions/Tests.antt =====
-- A manager with a service server and an action client on the same channel.
use ros2_connect.Prelude.{◌≡◌, refl, true, false, [], ◌∷◌, pos, lookup, nat_key}
use ros2_connect.Message.Codes.{Compressor}
use ros2_connect.Message.Rcl.{RclMessage}
use ros2_connect.Config.Types.{
  ServiceActionDefinition, clock_and_tf_qos, default_compression_profile,
}
use ros2_connect.ServiceActions.Manager.{
  ServiceActionManager, ServiceActionConfig, action_client, init, new, process,
}
use ros2_connect.ServiceActions.Routing.{plugins_of, parsed, after, process-lookup}

abbrev adder : ServiceActionDefinition
adder = record {
  channel = 9;
  type = "adder";
  use_own_thread = true;
  allow_simultaneous = false;
  service_qos = clock_and_tf_qos;
  feedback_qos = clock_and_tf_qos;
  status_qos = clock_and_tf_qos;
  result_timeout = pos 10;
  max_exec_time = 1000;
  compression = default_compression_profile;
}

abbrev config : ServiceActionConfig
config = record {
  service_server = adder ∷ [];
  service_client = [];
  action_server = [];
  action_client = adder ∷ [];
}

abbrev manager : ServiceActionManager
manager = init config new

-- A goal with the id `65 66`.
abbrev goal : RclMessage
goal = record {
  channel = 251;
  compressor = Compressor.none;
  uncompressed_size = 7;
  serialized_message = 9 ∷ 3 ∷ 2 ∷ 65 ∷ 66 ∷ 10 ∷ 20 ∷ [];
}

process-lookup_example :
    lookup 9 (plugins_of action_client (process goal manager))
    ≡ after (parsed goal) action_client 9 (lookup 9 (plugins_of action_client manager))
process-lookup_example = process-lookup goal manager action_client 9 (unfold init in refl)
