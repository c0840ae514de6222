-- ===== src/Plugins/ServiceServer.antt =====
-- include/connect/service/serviceServer.hpp.
use ros2_connect.Prelude.{
  ℕ, Bool, true, false, not, ◌&&◌, ◌||◌, Option, none, some, List, [], length, ◌==◌, if◌then◌else◌,
  lookup, bytes_key, ℤ,
}
use ros2_connect.Message.Codes.{service_to_client, service_to_client_cancel, service_to_server}
use ros2_connect.Message.Codec.{Codec}
use ros2_connect.Message.ServiceAction.{ServiceActionMessage, get_gid_string, get_data}
use ros2_connect.Plugins.Handles.{
  Handle, Plugin, new_handle, sent, modify, perform, store_handle, is_service_action_op_code,
  decompressed, remove_handle,
}

-- `goalResponse = std::move(message)`, if `handlingGoal`.
abbrev pub respond : ServiceActionMessage → Handle → Handle
respond m o = if o.handling_goal then record o { goal_response = some m } else o

-- `ServiceServer::handle`.
unfoldable pub handle : ServiceActionMessage → Plugin → Plugin
unfolding lookup get_gid_string
handle m p =
    if not (is_service_action_op_code service_to_server m)
    then p
    else elim (lookup (get_gid_string m) p.handles) [ none ↦ p | some h ↦ modify h (respond m) p ]

-- The handle of a request: the id of the client that made it, and the request's number.
abbrev pub request_handle : List ℕ → ℤ → Handle
request_handle writer_guid sequence_number = record (new_handle writer_guid) {
  sequence_number = sequence_number;
  handling_goal = true;
}

-- `sendAndWait` up to the message: the new handle, unless the plugin stops.
unfoldable pub send_request : List ℕ → List ℕ → ℤ → Plugin → Plugin × Option ℕ
send_request bytes writer_guid sequence_number p = if p.stopping then (p, none) else (
  perform (sent service_to_client bytes writer_guid)
      (store_handle (request_handle writer_guid sequence_number) p),
  some p.next,
)

-- `handlingGoal = false` and `removeHandle`, which `done` and every failure end with.
unfoldable pub done : ℕ → Plugin → Plugin
done h p = remove_handle h (modify h (λ o. record o { handling_goal = false }) p)

-- A call that waits, or that has returned a handle or the null pointer.
pub data Progress : Type 0 where
  waiting : Progress
  returned : Option ℕ → Progress

-- The test of `stopping` behind the message.
unfoldable pub check_request : ℕ → Plugin → Plugin × Progress
unfolding done
check_request h p = if p.stopping then (done h p, returned none) else (p, waiting)

-- A response, of the expected size or of any.
unfoldable pub accept_response :
    Bool → ℕ → ℕ → Option ServiceActionMessage → Plugin → Plugin × Progress
unfolding done get_data
accept_response dynamic_size expected_size h none p = (done h p, returned none)
accept_response dynamic_size expected_size h (some m) p =
    if not dynamic_size && not (length (get_data m) == expected_size)
    then (done h p, returned none)
    else (
      modify h (λ o. record o { goal_response = some m; handling_goal = false }) p,
      returned (some h),
    )

unfoldable pub finish_request :
    Codec → Bool → ℕ → ℕ → Option ServiceActionMessage → Plugin → Plugin × Progress
unfolding done accept_response decompressed
finish_request codec dynamic_size expected_size h none p =
    (done h (perform (sent service_to_client_cancel [] (p.objects h).gid) p), returned none)
finish_request codec dynamic_size expected_size h (some m) p =
    accept_response dynamic_size expected_size h (decompressed codec m) p

abbrev pub is_present : Option ServiceActionMessage → Bool
is_present none = false
is_present (some m) = true

-- The rest of `sendAndWait`, when its wait is notified or has timed out; `ok` is `rclcpp::ok()`.
unfoldable pub wake_request : Codec → Bool → ℕ → Bool → Bool → ℕ → Plugin → Plugin × Progress
unfolding finish_request
wake_request codec dynamic_size expected_size ok timed_out h p =
    if not (is_present (p.objects h).goal_response || (p.stopping || timed_out))
    then (p, waiting)
    else if not ok || p.stopping
    then (p, returned none)
    else finish_request codec dynamic_size expected_size h (p.objects h).goal_response p
