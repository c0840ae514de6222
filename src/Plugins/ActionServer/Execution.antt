-- ===== src/Plugins/ActionServer/Execution.antt =====
-- ActionServer::executeAccepted (include/connect/action/actionServer.hpp): the thread of an accepted
-- goal.
use ros2_connect.Prelude.{ℕ, Bool, true, false, none, some, List, [], ◌∷◌, if◌then◌else◌}
use ros2_connect.Message.Codes.{
  ServiceActionOpCode, action_to_server_feedback, action_to_server_result_succeeded,
  action_to_server_result_aborted, action_to_server_result_canceled,
  action_to_server_result_unknown,
}
use ros2_connect.Message.Codec.{Codec}
use ros2_connect.Message.ServiceAction.{ServiceActionMessage, get_data}
use ros2_connect.Plugins.Handles.{
  Thread, not_joinable, request, requested, goal_client_loop, goal_client, goal_server_loop,
  goal_server, ended, Plugin, goal_aborted, goal_canceled, goal_succeeded, goal_feedback, modify,
  perform, decompressed, remove_handle,
}

-- What the last switch makes of an op-code.
pub data Kind : Type 0 where
  feedback succeeded canceled aborted unknown : Kind

unfoldable pub kind : ServiceActionOpCode → Kind
kind action_to_server_feedback = feedback
kind action_to_server_result_succeeded = succeeded
kind action_to_server_result_canceled = canceled
kind action_to_server_result_aborted = aborted
kind action_to_server_result_unknown = aborted
kind _ = unknown

-- The thread ends after `handlingWait = false` and `removeHandle`.
unfoldable pub leave : ℕ → Plugin → Plugin
leave h p = remove_handle h (modify h (λ o. record o { handling_wait = false; thread = ended }) p)

-- A result: rclcpp_action is told, and the thread ends.
unfoldable pub finish : ℕ → Plugin → Plugin
unfolding leave
finish h p = leave h (modify h (λ o. record o { done = true }) p)

-- The last switch.
unfoldable pub process : Kind → ℕ → List ℕ → ℕ → Plugin → Plugin
unfolding finish
process feedback goal bytes h p = perform (goal_feedback goal bytes) p
process succeeded goal bytes h p = finish h (perform (goal_succeeded goal bytes) p)
process canceled goal bytes h p = finish h (perform (goal_canceled goal bytes) p)
process aborted goal bytes h p = finish h (perform (goal_aborted goal bytes) p)
process unknown goal bytes h p = p

-- The first switch, for a message that cannot be decompressed. One with another op-code goes on to
-- the last switch, which drops it.
unfoldable pub undecompressed : Kind → ℕ → ℕ → Plugin → Plugin
unfolding finish
undecompressed feedback goal h p = p
undecompressed succeeded goal h p = finish h (perform (goal_aborted goal []) p)
undecompressed canceled goal h p = finish h (perform (goal_aborted goal []) p)
undecompressed aborted goal h p = finish h (perform (goal_aborted goal []) p)
undecompressed unknown goal h p = p

-- A message from the queue. Before it is processed, the thread is set to its loop's test.
unfoldable pub take_message : Codec → ℕ → ServiceActionMessage → ℕ → Plugin → Plugin
unfolding decompressed process undecompressed kind get_data
take_message codec goal m h p = elim (decompressed codec m) [
  | none ↦ undecompressed (kind m.service_action_op_code) goal h p
  | some d ↦ process (kind d.service_action_op_code) goal (get_data d) h p
]

-- The thread from its wait on, once it is notified; `ok` is `rclcpp::ok()`.
unfoldable pub wake : Codec → Bool → ℕ → ℕ → Plugin → Plugin
unfolding leave take_message
wake codec ok goal h p =
    let o = p.objects h in
    if p.stopping
    then (if ok then perform (goal_aborted goal []) (leave h p) else leave h p)
    else if o.done
    then leave h p
    else elim o.wait_queue [
      | [] ↦ p
      | m ∷ ms ↦
          take_message codec goal m h
            (modify h (λ o. record o { wait_queue = ms; thread = goal_server_loop goal }) p)
    ]

-- What the thread of a handle does up to its next wait, its loop's test or its end.
unfoldable pub resume : Codec → Bool → ℕ → Plugin → Thread → Plugin
unfolding wake
resume codec ok h p not_joinable = p
resume codec ok h p (request m) = p
resume codec ok h p (requested id) = p
resume codec ok h p goal_client_loop = p
resume codec ok h p goal_client = p
resume codec ok h p (goal_server_loop goal) =
    modify h (λ o. record o { thread = if p.stopping then ended else goal_server goal }) p
resume codec ok h p (goal_server goal) = wake codec ok goal h p
resume codec ok h p ended = p

unfoldable pub step_thread : Codec → Bool → ℕ → Plugin → Plugin
unfolding resume
step_thread codec ok h p = resume codec ok h p (p.objects h).thread
