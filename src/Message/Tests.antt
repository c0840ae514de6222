-- ===== src/Message/Tests.antt =====
-- A codec that stores its input, and the messages of the transport theorems on concrete bytes.
use ros2_connect.Prelude.{
  ℕ, suc, ◌+◌, ◌^◌, ◌<◌, ◌≡◌, refl, sym, some, none, List, [], ◌∷◌, length, ltb, if◌then◌else◌, ℤ,
  pos, int32, resize, resize_self, ◌↔◌, arith, overwrite, slice, inr,
}
use ros2_connect.Message.Codes.{Compressor, Compression, zlib, lz4_hc, ServiceActionOpCode}
use ros2_connect.Message.Codec.{Codec, CodecLaws}
use ros2_connect.Message.Rcl.{RclMessage, from_flat_buffer}
use ros2_connect.Message.Vector.{from_serialized_message, for_op_code_authentication}
use ros2_connect.Message.ServiceAction.{ServiceActionMessage, from_message, construct}
use ros2_connect.Message.Base.{vector, get_compressed_combined_vector}
use ros2_connect.Message.Wire.{IsTruncated, from_flat_buffer-fault}
use ros2_connect.Message.Control.{for_op_code_authentication-size}
use ros2_connect.Message.Parsing.{IsWithin, from_message-IsWithin}
use ros2_connect.Message.Transport
use ros2_connect.Message.ServiceTransport
use ros2_connect.Message.ServiceFrames.{send_bytes}
use ros2_connect.Message.ServiceFrames

-- LZ4 writes its input as it is, if it has the size of an `int`, and zlib does always.
abbrev lz4_copy : List ℕ → ℤ × List ℕ
lz4_copy src = if ltb (length src) (2 ^ 31) then (pos (length src), src) else (pos 0, [])

abbrev pub copying : Codec
copying = record {
  lz4_max_input_size = 2113929216;
  lz4_compress_bound = λ n. n;
  lz4_compress_fast = λ src cap rate. lz4_copy src;
  lz4_compress_hc = λ src cap rate. lz4_copy src;
  lz4_decompress_safe = λ bytes n. (pos (length bytes), bytes);
  compress_bound = λ n. n;
  compress2 = λ src cap rate. some src;
  uncompress = λ bytes n. some bytes;
  memcpy_within = λ dst src n v. overwrite dst (slice src n v) v;
}

lz4_copy-eq :
    (src : List ℕ) (n : ℕ) (dst : List ℕ)
    → lz4_copy src ≡ (pos (suc n), dst)
    → (length src ≡ suc n) × (src ≡ dst)
lz4_copy-eq src n dst h = ground arith

lz4_copy-int : (src : List ℕ) (n : ℕ) (dst : List ℕ) → lz4_copy src ≡ (pos n, dst) → n < 2 ^ 31
lz4_copy-int src n dst h = ground arith

copies-back :
    (src : List ℕ) (n : ℕ) (dst : List ℕ)
    → lz4_copy src ≡ (pos (suc n), dst)
    → copying.lz4_decompress_safe (resize (suc n) dst) (int32 (length src))
      ≡ (pos (length src), src)
copies-back src n dst h =
    let (size, same) = lz4_copy-eq src n dst h in rw (sym size, sym same, resize_self src) refl

pub copying-CodecLaws : CodecLaws copying
copying-CodecLaws = record {
  lz4_fast = λ src cap rate n dst h. copies-back src n dst h;
  lz4_fast_int = λ src cap rate n dst h. lz4_copy-int src n dst h;
  lz4_hc_int = λ src cap rate n dst h. lz4_copy-int src n dst h;
  lz4_hc = λ src cap rate n dst h. copies-back src n dst h;
  zlib = λ src cap rate out h. sym h;
  memcpy = λ dst src n v h. refl;
}

abbrev payload : List ℕ
payload = 10 ∷ 20 ∷ 30 ∷ []

abbrev profile : Compression
profile = record { compressor = zlib; rate = 3 }

-- The copying codec really takes the compressed path.
zlib_bytes :
    get_compressed_combined_vector copying (vector (from_serialized_message 7 payload)) profile
    ≡ 7 ∷ 3 ∷ 3 ∷ 0 ∷ 0 ∷ 0 ∷ 10 ∷ 20 ∷ 30 ∷ []
unfolding get_compressed_combined_vector from_serialized_message
zlib_bytes = refl

deliver-get_compressed_combined_vector_example : Transport.Delivered 7 payload (
    Transport.deliver copying
      (get_compressed_combined_vector copying (vector (from_serialized_message 7 payload)) profile))
deliver-get_compressed_combined_vector_example =
    Transport.deliver-get_compressed_combined_vector copying copying-CodecLaws 7 payload profile

deliver-send_bytes_example :
    ServiceFrames.Delivered 9 ServiceActionOpCode.action_to_server_feedback (65 ∷ 66 ∷ []) payload (
      ServiceFrames.deliver copying (
        send_bytes copying 9 profile ServiceActionOpCode.action_to_server_feedback payload
          (65 ∷ 66 ∷ [])))
deliver-send_bytes_example =
    ServiceTransport.deliver-send_bytes copying copying-CodecLaws 9
      ServiceActionOpCode.action_to_server_feedback (65 ∷ 66 ∷ []) (omega arith) (omega arith)
      payload profile (inr (omega arith))

abbrev frame : RclMessage
frame = record {
  channel = 7;
  compressor = lz4_hc;
  uncompressed_size = 70000;
  serialized_message = payload;
}

from_flat_buffer-fault_example :
    (from_flat_buffer (7 ∷ 2 ∷ 0 ∷ 0 ∷ []) ≡ none) ↔ IsTruncated (7 ∷ 2 ∷ 0 ∷ 0 ∷ [])
from_flat_buffer-fault_example = from_flat_buffer-fault (7 ∷ 2 ∷ 0 ∷ 0 ∷ [])

abbrev key : List ℕ
key = 75 ∷ 69 ∷ 89 ∷ []

for_op_code_authentication-size_example :
    length (for_op_code_authentication key).combined_vector
    ≡ 2 + (for_op_code_authentication key).uncompressed_size + 1
for_op_code_authentication-size_example = for_op_code_authentication-size key (omega arith)

-- A vector with the goal id `AB` and the data `10 20`.
abbrev received : List ℕ
received = 251 ∷ 0 ∷ 9 ∷ 3 ∷ 2 ∷ 65 ∷ 66 ∷ 10 ∷ 20 ∷ []

accepted :
    from_message 251 Compressor.none 7 received
    ≡ some (construct 251 Compressor.none 2 9 ServiceActionOpCode.action_to_client_goal received)
unfolding from_message
accepted = refl

abbrev goal : ServiceActionMessage
goal = construct 251 Compressor.none 2 9 ServiceActionOpCode.action_to_client_goal received

from_message-IsWithin_example :
    IsWithin goal
    × (goal.combined_vector ≡ received)
    × (goal.channel ≡ 251)
    × (goal.compressor ≡ Compressor.none)
from_message-IsWithin_example = from_message-IsWithin 251 Compressor.none 7 received accepted
