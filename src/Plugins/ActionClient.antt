-- ===== src/Plugins/ActionClient.antt =====
-- include/connect/action/actionClient.hpp. The methods that a plugin implements are parameters or
-- effects.
use ros2_connect.Prelude.{
  ℕ, Bool, true, false, not, ◌&&◌, ◌||◌, Option, none, some, List, [], ◌∷◌, ◌++◌, length, ◌==◌,
  if◌then◌else◌, lookup, insert, bytes_key,
}
use ros2_connect.Message.Codes.{
  ServiceActionOpCode, action_to_client_goal, action_to_server_goal_reject,
  action_to_server_goal_accept, action_to_client_cancel, action_to_server_cancel_reject,
  action_to_server_cancel_accept, action_to_server_feedback, action_to_server_result_succeeded,
  action_to_server_result_aborted, action_to_server_result_canceled,
}
use ros2_connect.Message.Codec.{Codec}
use ros2_connect.Message.ServiceAction.{ServiceActionMessage, get_gid, get_gid_string, get_data}
use ros2_connect.Plugins.Handles.{
  Thread, not_joinable, request, requested, goal_client_loop, goal_client, goal_server_loop,
  goal_server, ended, Handle, Plugin, new_handle, sent, goal_sent, goal_cancelled, modify, perform,
  store_handle, is_service_action_op_code, decompressed, remove_handle,
}

-- The fields that a plugin sets, and whether the local action server comes alive.
pub record Client : Type 0 where
  pub expected_size : ℕ
  pub dynamic_size : Bool
  pub wait_for_action : Bool

-- The new handle, whose thread is started with the goal in its queue.
abbrev pub goal_handle : ServiceActionMessage → Handle
goal_handle m = record (new_handle (get_gid m)) { wait_queue = m ∷ []; thread = goal_client_loop }

abbrev pub push_wait : ServiceActionMessage → Handle → Handle
push_wait m o = record o { wait_queue = o.wait_queue ++ m ∷ [] }

-- `ActionClient::handle` for a goal and for a cancel, with what the map holds for the goal id.
abbrev pub handle_goal : ServiceActionMessage → Option ℕ → Plugin → Plugin
handle_goal m (some h) p = perform (sent action_to_server_goal_reject [] (get_gid m)) p
handle_goal m none p = if p.stopping then p else store_handle (goal_handle m) p

abbrev pub handle_cancel : ServiceActionMessage → Option ℕ → Plugin → Plugin
handle_cancel m none p = perform (sent action_to_server_goal_reject [] (get_gid m)) p
handle_cancel m (some h) p = modify h (push_wait m) p

-- `ActionClient::handle`.
unfoldable pub handle : ServiceActionMessage → Plugin → Plugin
unfolding lookup insert get_gid_string get_gid
handle m p =
    let found = lookup (get_gid_string m) p.handles in
    if is_service_action_op_code action_to_client_goal m
    then handle_goal m found p
    else if is_service_action_op_code action_to_client_cancel m
    then handle_cancel m found p
    else p

-- The callbacks of rclcpp_action.
unfoldable pub cancel_accepted : ℕ → Plugin → Plugin
cancel_accepted h p =
    modify h (λ o. record o { done = true; handling_cancel = false })
      (perform (sent action_to_server_cancel_accept [] (p.objects h).gid) p)

unfoldable pub cancel_rejected : ℕ → Plugin → Plugin
cancel_rejected h p =
    modify h (λ o. record o { handling_cancel = false })
      (perform (sent action_to_server_cancel_reject [] (p.objects h).gid) p)

unfoldable pub goal_accepted : ℕ → ℕ → Plugin → Plugin
goal_accepted goal h p =
    modify h (λ o. record o { client_goal_handle = some goal; handling_goal = false })
      (perform (sent action_to_server_goal_accept [] (p.objects h).gid) p)

-- The op-code is the source's.
unfoldable pub goal_rejected : ℕ → Plugin → Plugin
goal_rejected h p =
    modify h (λ o. record o { done = true; handling_goal = false })
      (perform (sent action_to_server_goal_accept [] (p.objects h).gid) p)

-- `resultSucceeded`, `resultCanceled` and `resultAborted`, by their op-code.
unfoldable pub result : ServiceActionOpCode → List ℕ → ℕ → Plugin → Plugin
result op bytes h p =
    modify h (λ o. record o { done = true }) (perform (sent op bytes (p.objects h).gid) p)

unfoldable pub result_succeeded : List ℕ → ℕ → Plugin → Plugin
unfolding result
result_succeeded bytes h p = result action_to_server_result_succeeded bytes h p

unfoldable pub result_canceled : List ℕ → ℕ → Plugin → Plugin
unfolding result
result_canceled bytes h p = result action_to_server_result_canceled bytes h p

unfoldable pub result_aborted : List ℕ → ℕ → Plugin → Plugin
unfolding result
result_aborted bytes h p = result action_to_server_result_aborted bytes h p

unfoldable pub feedback : List ℕ → ℕ → Plugin → Plugin
feedback bytes h p = perform (sent action_to_server_feedback bytes (p.objects h).gid) p

-- The goal is rejected, and its handle is done.
unfoldable pub reject : ℕ → Plugin → Plugin
reject h p =
    modify h (λ o. record o { handling_goal = false; done = true })
      (perform (sent action_to_server_goal_reject [] (p.objects h).gid) p)

-- `executeGoal` behind the decompression.
unfoldable pub execute_message : Client → ServiceActionMessage → ℕ → Plugin → Plugin
unfolding reject get_data
execute_message c m h p =
    if not c.dynamic_size && not (length (get_data m) == c.expected_size)
    then reject h p
    else if not c.wait_for_action
    then reject h p
    else if p.stopping
    then modify h (λ o. record o { handling_goal = false; done = true }) p
    else perform (goal_sent m h) p

-- `executeGoal`.
unfoldable pub execute_goal : Codec → Client → ServiceActionMessage → ℕ → Plugin → Plugin
unfolding decompressed execute_message reject
execute_goal codec c m h p =
    let q = modify h (λ o. record o { handling_goal = true }) p in
    elim (decompressed codec m) [ none ↦ reject h q | some d ↦ execute_message c d h q ]

-- `executeCancel`.
unfoldable pub execute_cancel : ℕ → Plugin → Plugin
execute_cancel h p =
    perform (goal_cancelled h) (modify h (λ o. record o { handling_cancel = true }) p)

-- The switch of `executeHandle`, for a message that was taken from the queue of a handle with these
-- flags `handlingGoal` and `handlingCancel`.
unfoldable pub process : Codec → Client → Bool → Bool → ServiceActionMessage → ℕ → Plugin → Plugin
unfolding execute_goal execute_cancel
process codec c handling_goal handling_cancel m h p =
    if is_service_action_op_code action_to_client_goal m
    then (if handling_goal || handling_cancel then p else execute_goal codec c m h p)
    else if is_service_action_op_code action_to_client_cancel m
    then (if handling_goal
        then modify h (push_wait m) p
        else if handling_cancel
        then p
        else execute_cancel h p)
    else p

-- The handle's thread ends after `removeHandle`.
unfoldable pub leave : ℕ → Plugin → Plugin
leave h p = remove_handle h (modify h (λ o. record o { thread = ended }) p)

-- `executeHandle` from its wait on, once it is notified.
unfoldable pub wake : Codec → Client → ℕ → Plugin → Plugin
unfolding execute_cancel leave process
wake codec c h p =
    let o = p.objects h in
    if p.stopping
    then leave h (execute_cancel h p)
    else if o.done
    then leave h p
    else elim o.wait_queue [
      | [] ↦ p
      | m ∷ ms ↦
          process codec c o.handling_goal o.handling_cancel m h
            (modify h (λ o. record o { wait_queue = ms; thread = goal_client_loop }) p)
    ]

-- What the thread of a handle does up to its next wait, its loop's test or its end.
unfoldable pub resume : Codec → Client → ℕ → Plugin → Thread → Plugin
unfolding wake
resume codec c h p not_joinable = p
resume codec c h p (request m) = p
resume codec c h p (requested id) = p
resume codec c h p goal_client_loop =
    modify h (λ o. record o { thread = if p.stopping then ended else goal_client }) p
resume codec c h p goal_client = wake codec c h p
resume codec c h p (goal_server_loop goal) = p
resume codec c h p (goal_server goal) = p
resume codec c h p ended = p

unfoldable pub step_thread : Codec → Client → ℕ → Plugin → Plugin
unfolding resume
step_thread codec c h p = resume codec c h p (p.objects h).thread
