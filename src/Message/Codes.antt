-- ===== src/Message/Codes.antt =====
-- The enumerations and bounds of include/connect/types.hpp.
use ros2_connect.Prelude.{ℕ, ◌≤◌, ◌≡◌, refl, Bool, ◌==◌, if◌then◌else◌, arith}

pub data Compressor : Type 0 where
  none lz4_default lz4_hc zlib : Compressor

unfoldable pub compressor_value : Compressor → ℕ
compressor_value Compressor.none = 0
compressor_value lz4_default = 1
compressor_value lz4_hc = 2
compressor_value zlib = 3

abbrev pub compressor_min : ℕ
compressor_min = 0

abbrev pub compressor_max : ℕ
compressor_max = 3

-- `static_cast<Compressor>(n)` for an `n` in range.
unfoldable pub compressor_of_value : ℕ → Compressor
compressor_of_value n =
    if n == 1
    then lz4_default
    else if n == 2
    then lz4_hc
    else if n == 3
    then zlib
    else Compressor.none

-- `compressor != Compressor::NONE`.
abbrev pub is_compressor : Compressor → Bool
is_compressor Compressor.none = Bool.false
is_compressor _ = Bool.true

pub record Compression : Type 0 where
  pub compressor : Compressor
  pub rate : ℕ

pub data OpCode : Type 0 where
  notification subscription service_action tf tf_static clock authentication : OpCode

unfoldable pub op_code_value : OpCode → ℕ
op_code_value notification = 249
op_code_value subscription = 250
op_code_value service_action = 251
op_code_value tf = 252
op_code_value tf_static = 253
op_code_value clock = 254
op_code_value authentication = 255

abbrev pub op_code_min : ℕ
op_code_min = 249

abbrev pub op_code_max : ℕ
op_code_max = 255

pub data ServiceActionOpCode : Type 0 where
  service_to_client service_to_client_cancel service_to_server : ServiceActionOpCode
  action_to_client_goal action_to_server_goal_reject : ServiceActionOpCode
  action_to_server_goal_accept action_to_client_cancel : ServiceActionOpCode
  action_to_server_cancel_reject action_to_server_cancel_accept : ServiceActionOpCode
  action_to_server_feedback action_to_server_result_succeeded : ServiceActionOpCode
  action_to_server_result_aborted action_to_server_result_canceled : ServiceActionOpCode
  action_to_server_result_unknown : ServiceActionOpCode

unfoldable pub service_action_value : ServiceActionOpCode → ℕ
service_action_value service_to_client = 0
service_action_value service_to_client_cancel = 1
service_action_value service_to_server = 2
service_action_value action_to_client_goal = 3
service_action_value action_to_server_goal_reject = 4
service_action_value action_to_server_goal_accept = 5
service_action_value action_to_client_cancel = 6
service_action_value action_to_server_cancel_reject = 7
service_action_value action_to_server_cancel_accept = 8
service_action_value action_to_server_feedback = 9
service_action_value action_to_server_result_succeeded = 10
service_action_value action_to_server_result_aborted = 11
service_action_value action_to_server_result_canceled = 12
service_action_value action_to_server_result_unknown = 13

abbrev pub service_action_op_code_max : ℕ
service_action_op_code_max = 13

-- `static_cast<ServiceActionOpCode>(n)` for an `n` in range.
unfoldable pub service_action_of_value : ℕ → ServiceActionOpCode
service_action_of_value n =
    if n == 0
    then service_to_client
    else if n == 1
    then service_to_client_cancel
    else if n == 2
    then service_to_server
    else if n == 3
    then action_to_client_goal
    else if n == 4
    then action_to_server_goal_reject
    else if n == 5
    then action_to_server_goal_accept
    else if n == 6
    then action_to_client_cancel
    else if n == 7
    then action_to_server_cancel_reject
    else if n == 8
    then action_to_server_cancel_accept
    else if n == 9
    then action_to_server_feedback
    else if n == 10
    then action_to_server_result_succeeded
    else if n == 11
    then action_to_server_result_aborted
    else if n == 12
    then action_to_server_result_canceled
    else action_to_server_result_unknown

pub compressor_of_value-value : (c : Compressor) → compressor_of_value (compressor_value c) ≡ c
unfolding compressor_of_value compressor_value
compressor_of_value-value Compressor.none = refl
compressor_of_value-value lz4_default = refl
compressor_of_value-value lz4_hc = refl
compressor_of_value-value zlib = refl

pub compressor_value-le : (c : Compressor) → compressor_value c ≤ compressor_max
unfolding compressor_value
compressor_value-le c = ground arith

pub service_action_of_value-value :
    (o : ServiceActionOpCode) → service_action_of_value (service_action_value o) ≡ o
unfolding service_action_of_value service_action_value
service_action_of_value-value service_to_client = refl
service_action_of_value-value _ = refl

pub service_action_value-le :
    (o : ServiceActionOpCode) → service_action_value o ≤ service_action_op_code_max
unfolding service_action_value
service_action_value-le o = ground arith
