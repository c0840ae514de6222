-- ===== src/Plugins/Handles.antt =====
-- include/connect/serviceActionHandle.hpp, and what service::Service and action::Action share
-- (include/connect/service/service.hpp, include/connect/action/action.hpp): the map of handles, their
-- removal and the stop. Handles are shared between the map, the queue of handles to remove, threads
-- and callbacks, so they live in a store, and those hold pointers into it.
use ros2_connect.Prelude.{
  ℕ, ◌+◌, Bool, true, false, Option, none, some, List, [], ◌∷◌, ◌++◌, ◌==◌, if◌then◌else◌, ◌>>=◌,
  insert, erase, bytes_key, ℤ, pos,
}
use ros2_connect.Message.Codes.{ServiceActionOpCode, service_action_value}
use ros2_connect.Message.Codec.{Codec}
use ros2_connect.Message.ServiceAction.{ServiceActionMessage}
use ros2_connect.Message.Base.{MessageBase, rcl, vector, service_action, try_decompress}
use ros2_connect.Config.Types.{ServiceActionDefinition}

-- What the thread of a handle does next.
pub data Thread : Type 0 where
  -- No thread was started.
  not_joinable : Thread
  -- ServiceClient::executeHandle, at its start.
  request : ServiceActionMessage → Thread
  -- ServiceClient::executeHandle, waiting for the end of a request.
  requested : ℤ → Thread
  -- ActionClient::executeHandle, at the test of its loop and at its wait.
  goal_client_loop goal_client : Thread
  -- ActionServer::executeAccepted, at the same places, with the accepted goal.
  goal_server_loop goal_server : ℕ → Thread
  ended : Thread

-- `ServiceActionHandle`. A goal handle of rclcpp_action is a number.
pub record Handle : Type 0 where
  pub gid : List ℕ
  pub sequence_number : ℤ
  pub client_goal_handle : Option ℕ
  pub goal_response : Option ServiceActionMessage
  pub handling_goal : Bool
  pub cancel_response : Option ServiceActionMessage
  pub handling_cancel : Bool
  pub wait_queue : List ServiceActionMessage
  pub handling_wait : Bool
  pub thread : Thread
  pub done : Bool

-- A new handle for a goal id.
abbrev pub new_handle : List ℕ → Handle
new_handle gid = record {
  gid = gid;
  sequence_number = pos 0;
  client_goal_handle = none;
  goal_response = none;
  handling_goal = false;
  cancel_response = none;
  handling_cancel = false;
  wait_queue = [];
  handling_wait = false;
  thread = not_joinable;
  done = false;
}

-- `gIDString`: the goal id and a closing zero byte.
abbrev pub gid_string : Handle → List ℕ
gid_string h = h.gid ++ 0 ∷ []

-- What a plugin does to its surroundings, in order.
pub data Effect : Type 0 where
  -- `send`, with the op-code, the data and the goal id.
  sent : ServiceActionOpCode → List ℕ → List ℕ → Effect
  -- The abstract methods that a plugin implements with rclcpp.
  request_sent : ServiceActionMessage → ℕ → Effect
  request_cancelled : ℤ → Effect
  goal_sent : ServiceActionMessage → ℕ → Effect
  goal_cancelled : ℕ → Effect
  goal_aborted goal_canceled goal_succeeded goal_feedback : ℕ → List ℕ → Effect

-- The fields of `Service` and `Action`, the store of the handles, and the effects so far.
pub record Plugin : Type 0 where
  pub definition : ServiceActionDefinition
  pub objects : ℕ → Handle
  pub next : ℕ
  pub handles : List (List ℕ × ℕ)
  pub to_remove : List ℕ
  pub stopping : Bool
  pub effects : List Effect

-- After `init`.
abbrev pub new : ServiceActionDefinition → Plugin
new d = record {
  definition = d;
  objects = λ _. new_handle [];
  next = 0;
  handles = [];
  to_remove = [];
  stopping = false;
  effects = [];
}

-- A write through a pointer.
abbrev pub modify : ℕ → (Handle → Handle) → Plugin → Plugin
modify h f p = record p { objects = λ q. if q == h then f (p.objects q) else p.objects q }

abbrev pub perform : Effect → Plugin → Plugin
perform e p = record p { effects = p.effects ++ e ∷ [] }

-- `std::make_shared<ServiceActionHandle>` and the insertion into the map.
abbrev pub store_handle : Handle → Plugin → Plugin
store_handle o p = record p {
  objects = λ q. if q == p.next then o else p.objects q;
  next = p.next + 1;
  handles = insert (gid_string o) p.next p.handles;
}

-- `message->isServiceActionOpCode`.
abbrev pub is_service_action_op_code : ServiceActionOpCode → ServiceActionMessage → Bool
is_service_action_op_code op m =
    service_action_value m.service_action_op_code == service_action_value op

abbrev as_service_action : MessageBase → Option ServiceActionMessage
as_service_action (rcl m) = none
as_service_action (vector m) = none
as_service_action (service_action m) = some m

-- `if (message->isCompressed() && !message->decompress())`: the message to go on with.
unfoldable pub decompressed : Codec → ServiceActionMessage → Option ServiceActionMessage
unfolding try_decompress
decompressed codec m = try_decompress codec (service_action m) >>= as_service_action

-- `removeHandle`.
abbrev pub remove_handle : ℕ → Plugin → Plugin
remove_handle h p = record p { to_remove = p.to_remove ++ h ∷ [] }

-- Whether `thread.join()` has to wait.
abbrev pub is_running : Thread → Bool
is_running not_joinable = false
is_running ended = false
is_running _ = true

-- An iteration of `executeRemove`, taken when the thread of the handle can be joined.
unfoldable pub execute_remove : Plugin → Plugin
unfolding erase
execute_remove p = if p.stopping then p else elim p.to_remove [
  | [] ↦ p
  | h ∷ rest ↦
      if is_running (p.objects h).thread
      then p
      else record p { to_remove = rest; handles = erase (gid_string (p.objects h)) p.handles }
]
