-- ===== src/Message/ServiceTransport.antt =====
-- From a service or action plugin on one side to the plugin on the other: the `send` function of
-- include/connect/service/service.hpp and action/action.hpp, WebsocketConnectionBase::asyncRead,
-- ServiceActionManager::run, and the decompression that the plugins begin with.
use ros2_connect.Prelude.{
  ℕ, ◌^◌, ◌<◌, ◌≤◌, ◌⊎◌, ◌≡◌, refl, inl, inr, false, List, Bool-cases, ltb, ltb→le, length, take,
  take_all, u32, arith,
}
use ros2_connect.Message.Codes.{
  Compressor, Compression, is_compressor, lz4_default, lz4_hc, zlib, ServiceActionOpCode,
  service_action_value,
}
use ros2_connect.Message.Codec.{
  Codec, CodecLaws, Moves, short-Moves, zlib_max_src_size, lz4_max_src_size,
}
use ros2_connect.Message.ServiceAction.{for_service_action, plain_vector}
use ros2_connect.Message.Restore.{decompress-lz4_default, decompress-lz4_hc}
use ros2_connect.Message.Base.{
  MessageBase, service_action, compress_by, get_compressed_combined_vector, lz4_default_compression,
  lz4_hc_compression, zlib_compression,
}
use ros2_connect.Message.ServiceFrames.{send_bytes, deliver, Delivered, Carried, Carried-Delivered}
use ros2_connect.Message.ServiceDelivery.{
  deliver-plain, deliver-lz4_frame, deliver-zlib_frame, sent-src, sent-combined, sent-header,
}

-- The other side need not move the goal id, or its old and new place do not overlap.
abbrev pub IsCopied : Compression → List ℕ → Type 0
IsCopied compression gid = (is_compressor compression.compressor ≡ false) ⊎ (length gid ≤ 4)

module _ (codec : Codec) (laws : CodecLaws codec) (channel : ℕ) (op : ServiceActionOpCode)
    (gid : List ℕ) (some_gid : 0 < length gid) (short_gid : length gid < 256)
    (payload : List ℕ) where
  abbrev message : MessageBase
  message = service_action (for_service_action channel op payload gid)

  Through : List ℕ → Type 0
  Through bytes = Carried codec channel op gid payload bytes

  fits : ltb (lz4_max_src_size codec) (length payload) ≡ false → length payload < 2 ^ 31
  fits h = omega (arith, ltb→le (lz4_max_src_size codec) (length payload) h)

  window : length payload < 2 ^ 31 → take (u32 (length payload)) payload ≡ payload
  window h = take_all (u32 (length payload)) payload (omega arith)

  same : length payload < 2 ^ 31 → u32 (length payload) ≡ length payload
  same h = omega arith

  plain-Through : Through (plain_vector 251 channel (service_action_value op) gid payload)
  plain-Through = unfold Through in deliver-plain channel op gid some_gid short_gid codec payload

  lz4_default-Through :
      (rate : ℕ) → Moves codec (length gid) → Through (lz4_default_compression codec message rate)
  unfolding lz4_default_compression
  lz4_default-Through rate moves =
      rw (sent-src channel op gid some_gid short_gid codec payload)
        (elim (Bool-cases (ltb (lz4_max_src_size codec) (length payload))) [
          | inl big ↦
              rw (big, sent-combined channel op gid some_gid short_gid codec payload) plain-Through
          | inr small ↦
              rw
                (
                  small,
                  window (fits small),
                  same (fits small),
                  sent-header channel op gid some_gid short_gid codec payload lz4_default,
                  sent-combined channel op gid some_gid short_gid codec payload,
                )
                (unfold Through in
                  deliver-lz4_frame channel op gid some_gid short_gid codec payload lz4_default _
                    refl refl (decompress-lz4_default codec) (fits small) moves
                    (λ n dst e. laws.lz4_fast_int _ _ _ n dst e)
                    (λ n dst e. laws.lz4_fast _ _ _ n dst e))
        ])

  lz4_hc-Through :
      (rate : ℕ) → Moves codec (length gid) → Through (lz4_hc_compression codec message rate)
  unfolding lz4_hc_compression
  lz4_hc-Through rate moves =
      rw (sent-src channel op gid some_gid short_gid codec payload)
        (elim (Bool-cases (ltb (lz4_max_src_size codec) (length payload))) [
          | inl big ↦
              rw (big, sent-combined channel op gid some_gid short_gid codec payload) plain-Through
          | inr small ↦
              rw
                (
                  small,
                  window (fits small),
                  same (fits small),
                  sent-header channel op gid some_gid short_gid codec payload lz4_hc,
                  sent-combined channel op gid some_gid short_gid codec payload,
                )
                (unfold Through in
                  deliver-lz4_frame channel op gid some_gid short_gid codec payload lz4_hc _ refl
                    refl (decompress-lz4_hc codec) (fits small) moves
                    (λ n dst e. laws.lz4_hc_int _ _ _ n dst e)
                    (λ n dst e. laws.lz4_hc _ _ _ n dst e))
        ])

  zlib-Through :
      (rate : ℕ) → Moves codec (length gid) → Through (zlib_compression codec message rate)
  unfolding zlib_compression
  zlib-Through rate moves =
      rw (sent-src channel op gid some_gid short_gid codec payload)
        (elim (Bool-cases (ltb zlib_max_src_size (length payload))) [
          | inl big ↦
              rw (big, sent-combined channel op gid some_gid short_gid codec payload) plain-Through
          | inr small ↦
              rw
                (
                  small,
                  sent-header channel op gid some_gid short_gid codec payload zlib,
                  sent-combined channel op gid some_gid short_gid codec payload,
                )
                (unfold Through in
                  deliver-zlib_frame channel op gid some_gid short_gid codec payload _
                    (ltb→le zlib_max_src_size (length payload) small) moves
                    (λ out e. laws.zlib _ _ _ out e))
        ])

  compress_by-Through :
      (c : Compressor) (rate : ℕ)
      → Moves codec (length gid)
      → Through (compress_by codec message c rate)
  unfolding compress_by
  compress_by-Through Compressor.none rate moves =
      rw (sent-combined channel op gid some_gid short_gid codec payload) plain-Through
  compress_by-Through lz4_default rate moves = lz4_default-Through rate moves
  compress_by-Through lz4_hc rate moves = lz4_hc-Through rate moves
  compress_by-Through zlib rate moves = zlib-Through rate moves

  -- The same of the message that the manager reads, before a plugin decompresses it.
  pub Carried-send_bytes :
      (compression : Compression)
      → IsCopied compression gid
      → Carried codec channel op gid payload (send_bytes codec channel compression op payload gid)
  Carried-send_bytes compression copied =
      unfold send_bytes get_compressed_combined_vector Through in
      elim (Bool-cases (is_compressor compression.compressor)) [
        | inl on ↦ rw on (
            compress_by-Through compression.compressor compression.rate (elim copied [
              | inl off ↦ cc
              | inr short ↦ short-Moves codec laws (length gid) short
            ]))
        | inr off ↦
            rw (off, sent-combined channel op gid some_gid short_gid codec payload) plain-Through
      ]

  -- A service or action message of any op-code with a goal id of 1 to 255 bytes comes through
  -- without compression, and with a goal id of 1 to 4 bytes whatever the compression profile and
  -- whether or not the compressor succeeds: the other side reads the channel, the op-code, the goal
  -- id and exactly the payload. LZ4, zlib and memcpy are as they document.
  pub deliver-send_bytes :
      (compression : Compression)
      → IsCopied compression gid
      → Delivered channel op gid payload
          (deliver codec (send_bytes codec channel compression op payload gid))
  deliver-send_bytes compression copied =
      Carried-Delivered codec channel op gid payload
        (send_bytes codec channel compression op payload gid)
        (Carried-send_bytes compression copied)
