-- ===== src/Config/Types.antt =====
-- The definitions of include/connect/types.hpp and the lists of src/global/globalConfig.hpp.
use Prim.Native.String.{String}
use ros2_connect.Prelude.{ℕ, Bool, List, [], ◌∷◌, Option, none, some, ◌==◌, if◌then◌else◌, ℤ}
use ros2_connect.Message.Codes.{Compressor, Compression}

-- The policies of rmw that the parameters can name.
pub data HistoryPolicy : Type 0 where
  history_system_default keep_last keep_all : HistoryPolicy

pub data ReliabilityPolicy : Type 0 where
  reliability_system_default reliable reliability_best_effort : ReliabilityPolicy

pub data DurabilityPolicy : Type 0 where
  durability_system_default transient_local volatile : DurabilityPolicy

pub data LivelinessPolicy : Type 0 where
  liveliness_system_default automatic manual_by_topic : LivelinessPolicy
  liveliness_best_available : LivelinessPolicy

-- An `rmw_time_t`: one of the constants of rmw, or seconds and nanoseconds.
pub data RmwTime : Type 0 where
  time_default best_available : RmwTime
  time : ℕ → ℕ → RmwTime

-- `rmw_qos_profile_t`, without the flag that is always false.
pub record Qos : Type 0 where
  pub history : HistoryPolicy
  pub depth : ℕ
  pub reliability : ReliabilityPolicy
  pub durability : DurabilityPolicy
  pub deadline : RmwTime
  pub lifespan : RmwTime
  pub liveliness : LivelinessPolicy
  pub liveliness_lease_duration : RmwTime

-- `Topic_t`.
pub record Topic : Type 0 where
  pub channel : ℕ
  pub topic : String
  pub type : String
  pub use_own_thread : Bool
  pub permanent : Bool
  pub qos : Qos
  pub compression : Compression

-- `Service_Action_t`.
pub record ServiceActionDefinition : Type 0 where
  pub channel : ℕ
  pub type : String
  pub use_own_thread : Bool
  pub allow_simultaneous : Bool
  pub service_qos : Qos
  pub feedback_qos : Qos
  pub status_qos : Qos
  pub result_timeout : ℤ
  pub max_exec_time : ℕ
  pub compression : Compression

-- `CLOCK_AND_TF_QOS`, `TF_STATIC_QOS` and `DEFAULT_COMPRESSION_PROFILE`.
abbrev pub clock_and_tf_qos : Qos
clock_and_tf_qos = record {
  history = keep_last;
  depth = 100;
  reliability = reliable;
  durability = volatile;
  deadline = time_default;
  lifespan = time_default;
  liveliness = liveliness_system_default;
  liveliness_lease_duration = time_default;
}

abbrev pub tf_static_qos : Qos
tf_static_qos = record clock_and_tf_qos { durability = transient_local }

abbrev pub default_compression_profile : Compression
default_compression_profile = record { compressor = Compressor.none; rate = 0 }

-- The first topic of a list with a channel: the loop of SubscriberManager::run.
unfoldable pub find_topic : ℕ → List Topic → Option Topic
find_topic channel [] = none
find_topic channel (t ∷ ts) = if t.channel == channel then some t else find_topic channel ts
