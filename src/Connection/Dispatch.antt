-- ===== src/Connection/Dispatch.antt =====
-- WebsocketConnectionBase of src/websocketConnection/base/websocketConnectionBase.hpp: the state of
-- a connection, and what it does with a message that it read.
use ros2_connect.Prelude.{ℕ, Option, some, List, [], ◌∷◌, ◌++◌, if◌then◌else◌, ◌>>=◌}
use ros2_connect.Message.Codes.{notification, subscription, service_action}
use ros2_connect.Message.Rcl.{RclMessage, to_string}
use ros2_connect.Message.Base.{rcl, is_op_code}
use ros2_connect.Subscriber.Manager.{SubscriberManager}
use ros2_connect.Subscriber
use ros2_connect.Publisher.Manager.{PublisherManager}
use ros2_connect.Publisher
use ros2_connect.ServiceActions.Manager.{ServiceActionManager}
use ros2_connect.ServiceActions

-- The managers of a connection; `logged` holds the notifications of the other side.
pub record Managers : Type 0 where
  pub publisher_manager : PublisherManager
  pub subscriber_manager : SubscriberManager
  pub service_action_manager : ServiceActionManager
  pub logged : List (List ℕ)

-- `WebsocketConnectionBase::processMessage`. `none` is a notification without a zero byte, which
-- is read behind its end.
unfoldable pub process_message : RclMessage → Managers → Option Managers
unfolding is_op_code to_string ServiceActions.Manager.handle Subscriber.Manager.enqueue
    Publisher.Manager.publish
process_message m s =
    if is_op_code (rcl m) notification
    then (to_string m >>= λ text. some (record s { logged = s.logged ++ text ∷ [] }))
    else if is_op_code (rcl m) subscription
    then some (record s { subscriber_manager = Subscriber.Manager.enqueue m s.subscriber_manager })
    else if is_op_code (rcl m) service_action
    then some (record s {
      service_action_manager = ServiceActions.Manager.handle m s.service_action_manager;
    })
    else some (record s { publisher_manager = Publisher.Manager.publish m s.publisher_manager })
