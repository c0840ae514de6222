-- ===== src/Plugins/ActionServer.antt =====
-- include/connect/action/actionServer.hpp. A goal handle of rclcpp_action is a number.
pub mod Execution
use ros2_connect.Prelude.{
  ℕ, Bool, true, false, not, ◌&&◌, ◌||◌, Option, none, some, List, [], ◌∷◌, ◌++◌, if◌then◌else◌,
  lookup, bytes_key,
}
use ros2_connect.Message.Codes.{
  ServiceActionOpCode, action_to_client_goal, action_to_server_goal_reject,
  action_to_server_goal_accept, action_to_client_cancel, action_to_server_cancel_reject,
  action_to_server_cancel_accept, action_to_server_feedback, action_to_server_result_succeeded,
  action_to_server_result_aborted, action_to_server_result_canceled,
  action_to_server_result_unknown,
}
use ros2_connect.Message.Codec.{Codec}
use ros2_connect.Message.ServiceAction.{ServiceActionMessage, get_gid_string, get_data}
use ros2_connect.Plugins.Handles.{
  Thread, not_joinable, request, requested, goal_server_loop, ended, Handle, Plugin, new_handle,
  sent, goal_aborted, goal_canceled, goal_succeeded, goal_feedback, modify, perform, store_handle,
  is_service_action_op_code, decompressed, remove_handle, is_running,
}

abbrev pub respond_goal : ServiceActionMessage → Handle → Handle
respond_goal m o = if o.handling_goal then record o { goal_response = some m } else o

abbrev pub respond_cancel : ServiceActionMessage → Handle → Handle
respond_cancel m o = if o.handling_cancel then record o { cancel_response = some m } else o

abbrev pub push_wait : ServiceActionMessage → Handle → Handle
push_wait m o = record o { wait_queue = o.wait_queue ++ m ∷ [] }

-- The part of the handle that a message is for.
unfoldable pub take_message : ServiceActionMessage → Handle → Handle
take_message m o =
    if is_service_action_op_code action_to_server_goal_reject m
      || is_service_action_op_code action_to_server_goal_accept m
    then respond_goal m o
    else if is_service_action_op_code action_to_server_cancel_accept m
        || is_service_action_op_code action_to_server_cancel_reject m
    then respond_cancel m o
    else push_wait m o

-- `ActionServer::handle`.
unfoldable pub handle : ServiceActionMessage → Plugin → Plugin
unfolding lookup get_gid_string take_message
handle m p = elim (lookup (get_gid_string m) p.handles) [
  | none ↦ p
  | some h ↦ modify h (take_message m) p
]

-- The answers to rclcpp_action, and a call that still waits.
pub data Answer : Type 0 where
  waiting rejected accepted : Answer

-- `sendGoalAndWait` up to the message: the new handle, unless the plugin stops.
unfoldable pub send_goal : List ℕ → List ℕ → Plugin → Plugin × Option ℕ
send_goal gid bytes p = if p.stopping then (p, none) else (
  perform (sent action_to_client_goal bytes gid)
      (store_handle (record (new_handle gid) { handling_goal = true }) p),
  some p.next,
)

-- `handlingGoal = false` and `removeHandle`.
unfoldable pub drop_goal : ℕ → Plugin → Plugin
drop_goal h p = remove_handle h (modify h (λ o. record o { handling_goal = false }) p)

-- The test of `stopping` behind the message.
unfoldable pub check_goal : ℕ → Plugin → Plugin × Answer
unfolding drop_goal
check_goal h p = if p.stopping then (drop_goal h p, rejected) else (p, waiting)

abbrev pub is_present : Option ServiceActionMessage → Bool
is_present none = false
is_present (some m) = true

unfoldable pub finish_goal : ℕ → Option ServiceActionMessage → Plugin → Plugin × Answer
unfolding drop_goal
finish_goal h none p =
    (drop_goal h (perform (sent action_to_client_cancel [] (p.objects h).gid) p), rejected)
finish_goal h (some m) p =
    if is_service_action_op_code action_to_server_goal_accept m
    then (modify h (λ o. record o { handling_goal = false }) p, accepted)
    else (drop_goal h p, rejected)

-- The rest of `sendGoalAndWait`, when its wait is notified or has timed out.
unfoldable pub wake_goal : Bool → Bool → ℕ → Plugin → Plugin × Answer
unfolding finish_goal
wake_goal ok timed_out h p =
    if not (is_present (p.objects h).goal_response || (p.stopping || timed_out))
    then (p, waiting)
    else if not ok || p.stopping
    then (p, rejected)
    else finish_goal h (p.objects h).goal_response p

-- `handlingCancel = false`, and `removeHandle` if no thread waits for the goal.
unfoldable pub drop_cancel : ℕ → Plugin → Plugin
drop_cancel h p =
    let q = modify h (λ o. record o { handling_cancel = false }) p in
    if (p.objects h).handling_wait then q else remove_handle h q

-- `sendCancelAndWait` up to the message: the handle that then waits.
unfoldable pub send_cancel : List ℕ → Plugin → Plugin × Option ℕ
unfolding lookup drop_cancel
send_cancel gid p = elim (lookup (gid ++ 0 ∷ []) p.handles) [
  | none ↦ (p, none)
  | some h ↦ if p.stopping then (drop_cancel h p, none) else (
    perform (sent action_to_client_cancel [] (p.objects h).gid)
        (modify h (λ o. record o { cancel_response = none; handling_cancel = true }) p),
    some h,
  )
]

-- The test of `stopping` behind the message.
unfoldable pub check_cancel : ℕ → Plugin → Plugin × Answer
unfolding drop_cancel
check_cancel h p = if p.stopping then (drop_cancel h p, rejected) else (p, waiting)

unfoldable pub finish_cancel : ℕ → Option ServiceActionMessage → Plugin → Plugin × Answer
unfolding drop_cancel
finish_cancel h none p = (modify h (λ o. record o { handling_cancel = false }) p, rejected)
finish_cancel h (some m) p =
    if is_service_action_op_code action_to_server_cancel_accept m
    then (drop_cancel h p, accepted)
    else (modify h (λ o. record o { handling_cancel = false }) p, rejected)

-- The rest of `sendCancelAndWait`, when its wait is notified or has timed out.
unfoldable pub wake_cancel : Bool → Bool → ℕ → Plugin → Plugin × Answer
unfolding finish_cancel
wake_cancel ok timed_out h p =
    if not (is_present (p.objects h).cancel_response || (p.stopping || timed_out))
    then (p, waiting)
    else if not ok || p.stopping
    then (p, rejected)
    else finish_cancel h (p.objects h).cancel_response p

-- `std::thread::joinable` of a thread that nothing has joined.
abbrev pub is_joinable : Thread → Bool
is_joinable not_joinable = false
is_joinable _ = true

-- `handleAccepted`.
unfoldable pub handle_accepted : ℕ → List ℕ → Plugin → Plugin × Bool
unfolding lookup
handle_accepted goal gid p = elim (lookup (gid ++ 0 ∷ []) p.handles) [
  | none ↦ (perform (sent action_to_client_cancel [] gid) p, false)
  | some h ↦
      if is_joinable (p.objects h).thread && not p.stopping
      then (remove_handle h (perform (sent action_to_client_cancel [] (p.objects h).gid) p), false)
      else if p.stopping
      then (remove_handle h p, false)
      else (
        modify h (λ o. record o { handling_wait = true; thread = goal_server_loop goal }) p,
        true,
      )
]
