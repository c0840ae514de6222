-- ===== src/Endpoint/Status.antt =====
-- The messages on the state of the server: src/status/statusPublisher.cpp, with the callback that
-- src/connectServer.cpp gives to its timer.
use Prim.Native.String.{String}
use ros2_connect.Prelude.{ℕ, Bool, false, Option, none, some, if◌then◌else◌}
use ros2_connect.Config.Global.{GlobalConfig}
use ros2_connect.Endpoint.Thread.{Thread}
use ros2_connect.Endpoint.Process.{Process}

-- ConnectStatus of msg/ConnectStatus.msg, with the time of its header.
pub record ConnectStatus : Type 0 where
  pub stamp : ℕ
  pub client_connected : Bool
  pub authentication_omit : Bool
  pub name_space : String
  pub domain_id : ℕ

-- `publishStatus`: the message that is published.
unfoldable pub publish_status : GlobalConfig → ℕ → Bool → ConnectStatus
publish_status g now connected = record {
  stamp = now;
  client_connected = connected;
  authentication_omit = g.authentication_omit;
  name_space = g.node_namespace;
  domain_id = g.node_domain_id;
}

module _ {ℓ} {S : Type ℓ} (is_client_connected : S → Bool) where
  unfoldable pub has_client : Option (Thread S) → Bool
  has_client none = false
  has_client (some t) = is_client_connected t.object

  -- What the timer publishes, if there is a status publisher.
  unfoldable pub timer_callback : GlobalConfig → ℕ → Process S → Option ConnectStatus
  unfolding publish_status has_client
  timer_callback g now p =
      if p.status_publisher then some (publish_status g now (has_client p.connection)) else none
