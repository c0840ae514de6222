-- ===== src/Plugins/Tests.antt =====
-- Requests and goals in a service server, a service client, an action client and an action server.
use ros2_connect.Prelude.{
  inr, ℕ, pos, ◌≡◌, ◌++◌, refl, true, false, none, some, List, [], ◌∷◌, lookup, insert, bytes_key,
  if◌then◌else◌,
}
use ros2_connect.Message.Codes.{service_to_server, action_to_client_goal, zlib, Compression}
use ros2_connect.Plugins.Calls.{IsAnswered, call-IsAnswered}
use native.Mathlib.Omega.{arith}
use ros2_connect.Message.ServiceAction.{ServiceActionMessage, for_service_action}
use ros2_connect.Message.Tests.{copying, copying-CodecLaws}
use ros2_connect.Config.Types.{
  ServiceActionDefinition, clock_and_tf_qos, default_compression_profile,
}
use ros2_connect.Plugins.Handles.{goal_client, Plugin, Handle, new, new_handle, store_handle}
use ros2_connect.Plugins.ServiceServer.{send_request, wake_request, waiting, returned}
use ros2_connect.Plugins.ServiceClient
use ros2_connect.Plugins.ActionClient
use ros2_connect.Plugins.Consistent.{new-IsConsistent, store_handle-IsConsistent}
use ros2_connect.Plugins.Answers.{handle_all, answer, last_response, send_request-answer}
use ros2_connect.Plugins.Shadowed.{send_request-unanswered}
use ros2_connect.Plugins.Verdicts.{admitted, IsExecuted, execute_goal-IsExecuted}

abbrev add : ServiceActionDefinition
add = record {
  channel = 3;
  type = "demo/srv/Add";
  use_own_thread = true;
  allow_simultaneous = false;
  service_qos = clock_and_tf_qos;
  feedback_qos = clock_and_tf_qos;
  status_qos = clock_and_tf_qos;
  result_timeout = pos 0;
  max_exec_time = 10;
  compression = default_compression_profile;
}

abbrev client_guid : List ℕ
client_guid = 7 ∷ 8 ∷ []

-- A response for the client, and one for somebody else.
abbrev responses : List ServiceActionMessage
responses =
    for_service_action 3 service_to_server (9 ∷ []) client_guid
    ∷ for_service_action 3 service_to_server (1 ∷ 2 ∷ []) (5 ∷ [])
    ∷ []

free : lookup (client_guid ++ 0 ∷ []) (new add).handles ≡ none
unfolding lookup
free = refl

send_request-answer_example :
    ((send_request (4 ∷ []) client_guid (pos 1) (new add)).1 ≡ some 0)
    × ((wake_request copying false 1 true false 0
          (handle_all responses (send_request (4 ∷ []) client_guid (pos 1) (new add)).0)).1
        ≡ answer copying false 1 false 0 (last_response (client_guid ++ 0 ∷ []) responses none))
send_request-answer_example =
    send_request-answer copying false false 1 (4 ∷ []) client_guid (pos 1) responses (new add)
      (new-IsConsistent add) refl free

returns :
    answer copying false 1 false 0 (last_response (client_guid ++ 0 ∷ []) responses none)
    ≡ returned (some 0)
unfolding answer last_response for_service_action
returns = refl

-- A plugin with one handle.
abbrev with_handle : Handle → Plugin
with_handle o = store_handle o (new add)

there : lookup (client_guid ++ 0 ∷ []) (with_handle (new_handle client_guid)).handles ≡ some 0
unfolding lookup insert
there = refl

send_request-unanswered_example :
    (wake_request copying false 1 true true 1 (
      handle_all responses
        (send_request (4 ∷ []) client_guid (pos 2) (with_handle (new_handle client_guid))).0)).1
    ≡ (if true then returned none else waiting)
send_request-unanswered_example =
    send_request-unanswered copying false true 1 0 (4 ∷ []) client_guid (pos 2) responses
      (with_handle (new_handle client_guid))
      (store_handle-IsConsistent (new_handle client_guid) (new add) (new-IsConsistent add)) refl
      there

abbrev service_client : ServiceClient.Client
service_client = record {
  error = 0 ∷ [];
  expected_size = 1;
  dynamic_size = false;
  wait_for_service = true;
  async_send_request = λ m. some (pos 5);
}

abbrev action_client : ActionClient.Client
action_client = record { expected_size = 1; dynamic_size = false; wait_for_action = true }

abbrev goal_handle : Handle
goal_handle = record (new_handle client_guid) { thread = goal_client }

-- A goal of the wrong size.
abbrev goal : ServiceActionMessage
goal = for_service_action 3 action_to_client_goal (1 ∷ 2 ∷ []) client_guid

execute_goal-IsExecuted_example :
    IsExecuted client_guid 0
      (admitted copying false 1 true goal)
      (with_handle goal_handle)
      (ActionClient.execute_goal copying action_client goal 0 (with_handle goal_handle))
execute_goal-IsExecuted_example =
    execute_goal-IsExecuted copying action_client goal 0 (with_handle goal_handle) refl

dropped : admitted copying false 1 true goal ≡ none
unfolding admitted for_service_action
dropped = refl

abbrev zlib_profile : Compression
zlib_profile = record { compressor = zlib; rate = 3 }

-- A request of one byte that goes compressed and is answered with two.
call-IsAnswered_example :
    (s : Plugin) × (t : Plugin) × IsAnswered copying 3 zlib_profile default_compression_profile
      client_guid
      (4 ∷ [])
      (9 ∷ 8 ∷ [])
      service_client
      (pos 1)
      true
      false
      0
      (new add)
      (new add)
      s
      t
call-IsAnswered_example =
    call-IsAnswered copying copying-CodecLaws 3 zlib_profile default_compression_profile client_guid
      (omega arith) (omega arith) (4 ∷ []) (9 ∷ 8 ∷ []) service_client (pos 5) (pos 1) true false 0
      (new add) (new add) refl free refl free refl refl (λ d e. refl) refl (inr (omega arith))
      (inr (omega arith))
