-- ===== src/Config/EnumParser.antt =====
-- src/common/enumParser.hpp: the names of compressors and policies. `none` is the exception
-- `std::invalid_argument`.
use Prim.Native.String.{String}
use text.Mathlib.Text.{◌==◌}
use ros2_connect.Prelude.{Option, none, some, if◌then◌else◌}
use ros2_connect.Message.Codes.{Compressor, lz4_default, lz4_hc, zlib}
use ros2_connect.Config.Types.{
  HistoryPolicy, history_system_default, keep_last, keep_all, ReliabilityPolicy,
  reliability_system_default, reliable, reliability_best_effort, DurabilityPolicy,
  durability_system_default, transient_local, volatile, LivelinessPolicy, liveliness_system_default,
  automatic, manual_by_topic, liveliness_best_available,
}

-- `EnumParser::compressor`.
unfoldable pub compressor : String → Option Compressor
compressor s =
    if s == "NONE"
    then some Compressor.none
    else if s == "LZ4_DEFAULT"
    then some lz4_default
    else if s == "LZ4_HC"
    then some lz4_hc
    else if s == "ZLIB"
    then some zlib
    else none

-- `EnumParser::historyPolicy`.
unfoldable pub history_policy : String → Option HistoryPolicy
history_policy s =
    if s == "RMW_QOS_POLICY_HISTORY_SYSTEM_DEFAULT"
    then some history_system_default
    else if s == "RMW_QOS_POLICY_HISTORY_KEEP_LAST"
    then some keep_last
    else if s == "RMW_QOS_POLICY_HISTORY_KEEP_ALL"
    then some keep_all
    else none

-- `EnumParser::reliabilityPolicy`.
unfoldable pub reliability_policy : String → Option ReliabilityPolicy
reliability_policy s =
    if s == "RMW_QOS_POLICY_RELIABILITY_SYSTEM_DEFAULT"
    then some reliability_system_default
    else if s == "RMW_QOS_POLICY_RELIABILITY_RELIABLE"
    then some reliable
    else if s == "RMW_QOS_POLICY_RELIABILITY_BEST_EFFORT"
    then some reliability_best_effort
    else none

-- `EnumParser::durabilityPolicy`.
unfoldable pub durability_policy : String → Option DurabilityPolicy
durability_policy s =
    if s == "RMW_QOS_POLICY_DURABILITY_SYSTEM_DEFAULT"
    then some durability_system_default
    else if s == "RMW_QOS_POLICY_DURABILITY_TRANSIENT_LOCAL"
    then some transient_local
    else if s == "RMW_QOS_POLICY_DURABILITY_VOLATILE"
    then some volatile
    else none

-- `EnumParser::livelinessPolicy`.
unfoldable pub liveliness_policy : String → Option LivelinessPolicy
liveliness_policy s =
    if s == "RMW_QOS_POLICY_LIVELINESS_SYSTEM_DEFAULT"
    then some liveliness_system_default
    else if s == "RMW_QOS_POLICY_LIVELINESS_AUTOMATIC"
    then some automatic
    else if s == "RMW_QOS_POLICY_LIVELINESS_MANUAL_BY_TOPIC"
    then some manual_by_topic
    else if s == "RMW_QOS_POLICY_LIVELINESS_BEST_AVAILABLE"
    then some liveliness_best_available
    else none
