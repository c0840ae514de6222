-- ===== src/Connection/Server.antt =====
-- src/websocketConnection/server/websocketServerConnection.cpp: the server's side of a connection
-- after the websocket handshake, with WebsocketConnectionBase::onAuthorized.
use ros2_connect.Prelude.{
  ℕ, suc, ◌-◌, ◌==◌, Bool, false, Option, none, some, List, [], ◌∷◌, ◌++◌, if◌then◌else◌, ◌>>=◌,
}
use ros2_connect.Message.Codes.{authentication}
use ros2_connect.Message.Rcl.{RclMessage, from_flat_buffer, to_string}
use ros2_connect.Message.Base.{rcl, is_op_code}
use ros2_connect.Message.Vector.{for_op_code_authentication}
use ros2_connect.Config.Types.{Topic}
use ros2_connect.Subscriber.Manager.{SubscriberConfig, SubscriberManager}
use ros2_connect.Subscriber
use ros2_connect.Publisher.Manager.{PublisherManager}
use ros2_connect.Publisher
use ros2_connect.ServiceActions.Manager.{ServiceActionConfig, ServiceActionManager}
use ros2_connect.ServiceActions
use ros2_connect.Connection.Dispatch.{Managers, process_message}

-- The interface of an authentication plugin (include/connect/authentication.hpp); `end_text` is the
-- ISO text of the end time.
pub record Authentication (A : Type 0) : Type 0 where
  pub get_authentication_from_user_key : List ℕ → A → A
  pub is_valid : A → Bool
  pub has_end : A → Bool
  pub end_text : A → List ℕ

-- What GlobalConfig holds for a connection.
pub record ConnectionConfig : Type 0 where
  pub authentication_omit : Bool
  pub publisher : List Topic
  pub subscriber : SubscriberConfig
  pub service_action : ServiceActionConfig

-- Why the server stops a connection by itself.
pub data CloseReason : Type 0 where
  cannot_be_validated no_valid_authentication authentication_ended : CloseReason

-- `authorizations` counts the calls of `onAuthorized`, and the timers count the waits whose handler
-- did not run yet; `replies` are the vectors that were sent.
pub record Server (A : Type 0) : Type 0 where
  pub authentication : Option A
  pub managers : Managers
  pub authorizations : ℕ
  pub check_waits : ℕ
  pub end_waits : ℕ
  pub replies : List (List ℕ)
  pub close_reasons : List CloseReason

-- The managers of a new connection.
abbrev pub new_managers : Managers
new_managers = record {
  publisher_manager = record {
    publishers = [];
    has_shared_publisher = false;
    to_publish = [];
    stopping = false;
  };
  subscriber_manager = Subscriber.Manager.new;
  service_action_manager = ServiceActions.Manager.new;
  logged = [];
}

abbrev pub new : {A : Type 0} → Option A → Server A
new plugin = record {
  authentication = plugin;
  managers = new_managers;
  authorizations = 0;
  check_waits = 0;
  end_waits = 0;
  replies = [];
  close_reasons = [];
}

-- `WebsocketConnectionBase::onAuthorized`: every manager is filled and its thread started.
unfoldable pub start_managers : ConnectionConfig → Managers → Managers
unfolding Publisher.Manager.init Subscriber.Manager.init Subscriber.Manager.on_before_start_thread
    ServiceActions.Manager.init
start_managers cfg s =
    let p = Publisher.Manager.init cfg.publisher s.publisher_manager in
    let u = Subscriber.Manager.init cfg.subscriber s.subscriber_manager in
    let a = ServiceActions.Manager.init cfg.service_action s.service_action_manager in
    record s {
      publisher_manager = record p { stopping = false };
      subscriber_manager =
          Subscriber.Manager.on_before_start_thread cfg.subscriber (record u { stopping = false });
      service_action_manager = record a { stopping = false };
    }

module _ {A : Type 0} where
  unfoldable pub on_authorized : ConnectionConfig → Server A → Server A
  unfolding start_managers
  on_authorized cfg s = record s {
    managers = start_managers cfg s.managers;
    authorizations = suc s.authorizations;
  }

  -- `WebsocketServerConnection::onConnected`.
  unfoldable pub on_connected : ConnectionConfig → Server A → Server A
  unfolding on_authorized
  on_connected cfg s =
      if cfg.authentication_omit
      then on_authorized cfg s
      else record s { check_waits = suc s.check_waits }

  unfoldable pub stop : CloseReason → Server A → Server A
  stop why s = record s { close_reasons = s.close_reasons ++ why ∷ [] }

  unfoldable pub reply : List ℕ → Server A → Server A
  unfolding for_op_code_authentication
  reply text s = record s {
    replies = s.replies ++ (for_op_code_authentication text).combined_vector ∷ [];
  }

  -- The end of `validateUserKeyForAuthentication`, for an authentication that is valid.
  unfoldable pub admit : ConnectionConfig → Authentication A → A → Server A → Server A
  unfolding on_authorized reply
  admit cfg plugin a s =
      let r = on_authorized cfg s in
      if plugin.has_end a
      then reply (plugin.end_text a) (record r { end_waits = suc r.end_waits })
      else reply [] r

  -- `validateUserKeyForAuthentication`, behind the test of the configuration.
  unfoldable pub validate :
      ConnectionConfig → Authentication A → List ℕ → Option A → Server A → Server A
  unfolding stop admit
  validate cfg plugin key none s = stop cannot_be_validated s
  validate cfg plugin key (some a) s =
      let b = plugin.get_authentication_from_user_key key a in
      let r : Server A = record s { authentication = some b } in
      if plugin.is_valid b then admit cfg plugin b r else stop no_valid_authentication r

  -- `WebsocketServerConnection::validateUserKeyForAuthentication`.
  unfoldable pub validate_user_key :
      ConnectionConfig → Authentication A → List ℕ → Server A → Server A
  unfolding reply validate
  validate_user_key cfg plugin key s =
      if cfg.authentication_omit then reply [] s else validate cfg plugin key s.authentication s

  -- `WebsocketServerConnection::processMessage`.
  unfoldable pub server_process :
      ConnectionConfig → Authentication A → RclMessage → Server A → Option (Server A)
  unfolding is_op_code to_string validate_user_key process_message
  server_process cfg plugin m s =
      if is_op_code (rcl m) authentication
      then (to_string m >>= λ key. some (validate_user_key cfg plugin key s))
      else (process_message m s.managers >>= λ r. some (record s { managers = r }))

  -- `validAuthenticationCheckCallback`, which reads the plugin through its pointer.
  unfoldable pub check_callback : Authentication A → Server A → Option (Server A)
  unfolding stop
  check_callback plugin s = elim s.authentication [
    | none ↦ none
    | some a ↦ some (if plugin.is_valid a then s else stop no_valid_authentication s)
  ]

-- What happens on the strand of a connection, from the end of the handshake on.
pub data ServerEvent : Type 0 where
  connected : ServerEvent
  received : List ℕ → ServerEvent
  check_timeout end_timeout : ServerEvent

module _ {A : Type 0} where
  -- A handler of a timer runs only for a wait that was started.
  unfoldable pub server_step :
      ConnectionConfig → Authentication A → ServerEvent → Server A → Option (Server A)
  unfolding on_connected server_process check_callback stop
  server_step cfg plugin connected s = some (on_connected cfg s)
  server_step cfg plugin (received bytes) s =
      from_flat_buffer bytes >>= λ m. server_process cfg plugin m s
  server_step cfg plugin check_timeout s =
      if s.check_waits == 0
      then some s
      else check_callback plugin (record s { check_waits = s.check_waits - 1 })
  server_step cfg plugin end_timeout s =
      if s.end_waits == 0
      then some s
      else some (stop authentication_ended (record s { end_waits = s.end_waits - 1 }))

  unfoldable pub server_run :
      ConnectionConfig → Authentication A → List ServerEvent → Server A → Option (Server A)
  unfolding server_step
  server_run cfg plugin [] s = some s
  server_run cfg plugin (e ∷ es) s = server_step cfg plugin e s >>= λ r. server_run cfg plugin es r

  -- The messages that one after the other arrive.
  unfoldable pub server_read_all :
      ConnectionConfig → Authentication A → List RclMessage → Server A → Option (Server A)
  unfolding server_process
  server_read_all cfg plugin [] s = some s
  server_read_all cfg plugin (m ∷ ms) s =
      server_process cfg plugin m s >>= λ r. server_read_all cfg plugin ms r
