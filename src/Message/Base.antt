-- ===== src/Message/Base.antt =====
-- include/connect/messageBase.hpp and src/message/messageBase.cpp: the base class, its virtual
-- functions, and the compression and decompression of a message.
use ros2_connect.Prelude.{
  ℕ, zero, suc, ◌==◌, Bool, true, false, Option, none, some, List, ◌∷◌, ◌++◌, length, take, ltb,
  if◌then◌else◌, ℤ, pos, negsuc, int32, ◌==ℤ◌, u32, resize, le32,
}
use ros2_connect.Message.Codes.{
  Compressor, Compression, compressor_value, lz4_default, lz4_hc, zlib, is_compressor, OpCode,
  op_code_value,
}
use ros2_connect.Message.Codec.{Codec, lz4_max_src_size, zlib_max_src_size}
use ros2_connect.Message.Rcl.{RclMessage}
use ros2_connect.Message.Rcl
use ros2_connect.Message.Vector.{VectorMessage}
use ros2_connect.Message.Vector
use ros2_connect.Message.ServiceAction.{ServiceActionMessage}
use ros2_connect.Message.ServiceAction

-- One constructor for each class that derives from `MessageBase`.
pub data MessageBase : Type 0 where
  rcl : RclMessage → MessageBase
  vector : VectorMessage → MessageBase
  service_action : ServiceActionMessage → MessageBase

-- `getChannel` and `isOpCode`.
abbrev pub get_channel : MessageBase → ℕ
get_channel (rcl m) = m.channel
get_channel (vector m) = m.channel
get_channel (service_action m) = m.channel

unfoldable pub is_op_code : MessageBase → OpCode → Bool
unfolding op_code_value
is_op_code m o = get_channel m == op_code_value o

abbrev pub get_compressor : MessageBase → Compressor
get_compressor (rcl m) = m.compressor
get_compressor (vector m) = m.compressor
get_compressor (service_action m) = m.compressor

abbrev pub get_uncompressed_size : MessageBase → ℕ
get_uncompressed_size (rcl m) = m.uncompressed_size
get_uncompressed_size (vector m) = m.uncompressed_size
get_uncompressed_size (service_action m) = m.uncompressed_size

-- `isCompressed`.
unfoldable pub is_compressed : MessageBase → Bool
is_compressed m = is_compressor (get_compressor m)

-- The virtual functions `getCombinedVector`, `getSrc` (with `getSrcSize`) and `store`.
unfoldable pub get_combined_vector : MessageBase → List ℕ
unfolding Rcl.get_combined_vector Vector.get_combined_vector
get_combined_vector (rcl m) = Rcl.get_combined_vector m
get_combined_vector (vector m) = Vector.get_combined_vector m
get_combined_vector (service_action m) = m.combined_vector

unfoldable pub get_src : MessageBase → List ℕ
unfolding Vector.get_src ServiceAction.get_data
get_src (rcl m) = m.serialized_message
get_src (vector m) = Vector.get_src m
get_src (service_action m) = ServiceAction.get_data m

unfoldable pub store : Codec → MessageBase → List ℕ → MessageBase
unfolding Rcl.store Vector.store ServiceAction.store
store codec (rcl m) bytes = rcl (Rcl.store m bytes)
store codec (vector m) bytes = vector (Vector.store m bytes)
store codec (service_action m) bytes = service_action (ServiceAction.store codec m bytes)

-- `this->compressor = Compressor::NONE`.
abbrev pub clear_compressor : MessageBase → MessageBase
clear_compressor (rcl m) = rcl (record m { compressor = Compressor.none })
clear_compressor (vector m) = vector (record m { compressor = Compressor.none })
clear_compressor (service_action m) = service_action (record m { compressor = Compressor.none })

-- What stands before the compressed bytes: six bytes, or the override of `ServiceActionMessage`.
abbrev pub frame_header : MessageBase → Compressor → ℕ → List ℕ
frame_header (rcl m) c n = m.channel ∷ compressor_value c ∷ le32 n
frame_header (vector m) c n = m.channel ∷ compressor_value c ∷ le32 n
frame_header (service_action m) c n = ServiceAction.compressed_header m c n

-- What the LZ4 call leaves in the vector; no positive size is an error or an empty input.
abbrev pub lz4_frame : List ℕ → List ℕ → ℤ × List ℕ → List ℕ
lz4_frame fallback header (pos zero, dst) = fallback
lz4_frame fallback header (pos (suc n), dst) = header ++ resize (suc n) dst
lz4_frame fallback header (negsuc n, dst) = fallback

-- `lz4DefaultCompression`.
unfoldable pub lz4_default_compression : Codec → MessageBase → ℕ → List ℕ
unfolding get_combined_vector get_src
lz4_default_compression codec m rate =
    let src_size = u32 (length (get_src m)) in
    let bound = codec.lz4_compress_bound src_size in
    if ltb (lz4_max_src_size codec) (length (get_src m))
    then get_combined_vector m
    else lz4_frame (get_combined_vector m) (frame_header m lz4_default src_size)
        (codec.lz4_compress_fast (take src_size (get_src m)) bound rate)

-- `lz4HCCompression`.
unfoldable pub lz4_hc_compression : Codec → MessageBase → ℕ → List ℕ
unfolding get_combined_vector get_src
lz4_hc_compression codec m rate =
    let src_size = u32 (length (get_src m)) in
    let bound = codec.lz4_compress_bound src_size in
    if ltb (lz4_max_src_size codec) (length (get_src m))
    then get_combined_vector m
    else lz4_frame (get_combined_vector m) (frame_header m lz4_hc src_size)
        (codec.lz4_compress_hc (take src_size (get_src m)) bound rate)

abbrev pub zlib_frame : List ℕ → List ℕ → Option (List ℕ) → List ℕ
zlib_frame fallback header none = fallback
zlib_frame fallback header (some out) = header ++ out

-- `zlibCompression`. The source size has the width of `unsigned long`.
unfoldable pub zlib_compression : Codec → MessageBase → ℕ → List ℕ
unfolding get_combined_vector get_src
zlib_compression codec m rate =
    let src_size = length (get_src m) in
    if ltb zlib_max_src_size src_size
    then get_combined_vector m
    else zlib_frame (get_combined_vector m) (frame_header m zlib src_size)
        (codec.compress2 (get_src m) (codec.compress_bound src_size) rate)

unfoldable pub compress_by : Codec → MessageBase → Compressor → ℕ → List ℕ
unfolding get_combined_vector
compress_by codec m Compressor.none rate = get_combined_vector m
compress_by codec m lz4_default rate = lz4_default_compression codec m rate
compress_by codec m lz4_hc rate = lz4_hc_compression codec m rate
compress_by codec m zlib rate = zlib_compression codec m rate

-- `getCompressedCombinedVector`.
unfoldable pub get_compressed_combined_vector : Codec → MessageBase → Compression → List ℕ
unfolding compress_by lz4_default_compression lz4_hc_compression zlib_compression
get_compressed_combined_vector codec m compression =
    compress_by codec m compression.compressor compression.rate

-- The result of `LZ4_decompress_safe` against the expected size.
unfoldable pub lz4_store : Codec → MessageBase → ℕ → ℤ × List ℕ → MessageBase × Bool
unfolding store
lz4_store codec m size (result, dst) =
    if result ==ℤ int32 size
    then (store codec (clear_compressor m) (resize size dst), true)
    else (m, false)

-- `lz4Decompression`.
unfoldable pub lz4_decompression : Codec → MessageBase → MessageBase × Bool
unfolding get_src lz4_store
lz4_decompression codec m =
    let size = get_uncompressed_size m in
    let src = take (u32 (length (get_src m))) (get_src m) in
    if ltb zlib_max_src_size size
    then (m, false)
    else lz4_store codec m size (codec.lz4_decompress_safe src (int32 size))

-- The result of zlib's `uncompress` against the expected size.
unfoldable pub zlib_store : Codec → MessageBase → ℕ → Option (List ℕ) → MessageBase × Bool
unfolding store
zlib_store codec m size none = (m, false)
zlib_store codec m size (some out) =
    if length out == size
    then (store codec (clear_compressor m) (resize size out), true)
    else (m, false)

-- `zlibDecompression`.
unfoldable pub zlib_decompression : Codec → MessageBase → MessageBase × Bool
unfolding get_src zlib_store
zlib_decompression codec m =
    let size = get_uncompressed_size m in
    if ltb zlib_max_src_size size
    then (m, false)
    else zlib_store codec m size (codec.uncompress (get_src m) size)

unfoldable pub decompress_by : Codec → MessageBase → Compressor → MessageBase × Bool
decompress_by codec m Compressor.none = (m, false)
decompress_by codec m lz4_default = lz4_decompression codec m
decompress_by codec m lz4_hc = lz4_decompression codec m
decompress_by codec m zlib = zlib_decompression codec m

-- `decompress`.
unfoldable pub decompress : Codec → MessageBase → MessageBase × Bool
unfolding decompress_by lz4_decompression zlib_decompression
decompress codec m = decompress_by codec m (get_compressor m)

-- `if (message->isCompressed() && !message->decompress())`, the test of every consumer: the
-- message that is processed further, or `none` where it is dropped.
unfoldable pub try_decompress : Codec → MessageBase → Option MessageBase
unfolding is_compressed decompress
try_decompress codec m =
    let result = decompress codec m in
    if is_compressed m then (if result.1 then some result.0 else none) else some m
