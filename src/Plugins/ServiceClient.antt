-- ===== src/Plugins/ServiceClient.antt =====
-- include/connect/service/serviceClient.hpp. The methods that a plugin implements are parameters or
-- effects.
use ros2_connect.Prelude.{
  ℕ, Bool, true, not, ◌&&◌, ◌||◌, Option, none, some, List, [], ◌∷◌, ◌++◌, length, ◌==◌,
  if◌then◌else◌, lookup, insert, bytes_key, ℤ,
}
use ros2_connect.Message.Codes.{service_to_client, service_to_client_cancel, service_to_server}
use ros2_connect.Message.Codec.{Codec}
use ros2_connect.Message.ServiceAction.{ServiceActionMessage, get_gid, get_gid_string, get_data}
use ros2_connect.Plugins.Handles.{
  Thread, not_joinable, request, requested, goal_client_loop, goal_client, goal_server_loop,
  goal_server, ended, Handle, Plugin, new_handle, sent, request_sent, request_cancelled, modify,
  perform, store_handle, is_service_action_op_code, decompressed, remove_handle,
}

-- The fields that a plugin sets, and what its methods and rclcpp answer.
pub record Client : Type 0 where
  pub error : List ℕ
  pub expected_size : ℕ
  pub dynamic_size : Bool
  pub wait_for_service : Bool
  -- `asyncSendRequest`: the request's id, or its exception.
  pub async_send_request : ServiceActionMessage → Option ℤ

-- The new handle, whose thread executes the message.
abbrev pub request_handle : ServiceActionMessage → Handle
request_handle m = record (new_handle (get_gid m)) { thread = request m }

-- A message is put into the handle's queue.
abbrev pub push_wait : ServiceActionMessage → Handle → Handle
push_wait m o = record o { wait_queue = o.wait_queue ++ m ∷ [] }

-- `ServiceClient::handle` for a request, with what the map holds for its goal id.
abbrev pub handle_request : Client → ServiceActionMessage → Option ℕ → Plugin → Plugin
handle_request c m (some h) p = perform (sent service_to_server c.error (get_gid m)) p
handle_request c m none p = if p.stopping then p else store_handle (request_handle m) p

abbrev pub handle_cancel : ServiceActionMessage → Option ℕ → Plugin → Plugin
handle_cancel m none p = p
handle_cancel m (some h) p = modify h (push_wait m) p

-- `ServiceClient::handle`.
unfoldable pub handle : Client → ServiceActionMessage → Plugin → Plugin
unfolding lookup insert get_gid_string get_gid
handle c m p =
    let found = lookup (get_gid_string m) p.handles in
    if is_service_action_op_code service_to_client m
    then handle_request c m found p
    else if is_service_action_op_code service_to_client_cancel m
    then handle_cancel m found p
    else p

-- The handle's thread ends after `removeHandle`.
unfoldable pub leave : ℕ → Plugin → Plugin
leave h p = remove_handle h (modify h (λ o. record o { thread = ended }) p)

-- The response is the error, and the thread ends.
unfoldable pub fail : Client → List ℕ → ℕ → Plugin → Plugin
unfolding leave
fail c gid h p = leave h (perform (sent service_to_server c.error gid) p)

-- `executeHandle` behind the decompression, up to its wait.
unfoldable pub execute_message : Client → ServiceActionMessage → ℕ → Plugin → Plugin
unfolding fail leave get_data get_gid
execute_message c m h p =
    if not c.dynamic_size && not (length (get_data m) == c.expected_size)
    then fail c (get_gid m) h p
    else if not c.wait_for_service
    then fail c (get_gid m) h p
    else if p.stopping
    then leave h p
    else elim (c.async_send_request m) [
      | none ↦ fail c (get_gid m) h p
      | some id ↦ modify h (λ o. record o { thread = requested id }) (perform (request_sent m h) p)
    ]

-- `executeHandle` from its start up to its wait.
unfoldable pub execute_request : Codec → Client → ServiceActionMessage → ℕ → Plugin → Plugin
unfolding decompressed execute_message fail
execute_request codec c m h p = elim (decompressed codec m) [
  | none ↦ fail c (get_gid m) h p
  | some d ↦ execute_message c d h p
]

-- `executeHandle` from its wait on, once it is notified.
unfoldable pub wake_request : ℤ → ℕ → Plugin → Plugin
unfolding leave
wake_request id h p =
    let o = p.objects h in
    if o.done || p.stopping then leave h p else elim o.wait_queue [
      | [] ↦ p
      | m ∷ ms ↦
          leave h (modify h (λ o. record o { done = true }) (perform (request_cancelled id) p))
    ]

-- What the thread of a handle does up to its next wait or its end.
unfoldable pub resume : Codec → Client → ℕ → Plugin → Thread → Plugin
unfolding execute_request wake_request
resume codec c h p not_joinable = p
resume codec c h p (request m) = execute_request codec c m h p
resume codec c h p (requested id) = wake_request id h p
resume codec c h p goal_client_loop = p
resume codec c h p goal_client = p
resume codec c h p (goal_server_loop goal) = p
resume codec c h p (goal_server goal) = p
resume codec c h p ended = p

unfoldable pub step_thread : Codec → Client → ℕ → Plugin → Plugin
unfolding resume
step_thread codec c h p = resume codec c h p (p.objects h).thread

-- `sendAndDone`, which the callback of the local response ends with.
unfoldable pub send_and_done : List ℕ → ℕ → Plugin → Plugin
send_and_done bytes h p =
    modify h (λ o. record o { done = true })
      (perform (sent service_to_server bytes (p.objects h).gid) p)
