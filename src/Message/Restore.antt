-- ===== src/Message/Restore.antt =====
-- Decompression undoes compression (messageBase.cpp), given what LZ4 and zlib document.
use ros2_connect.Prelude.{
  ℕ, suc, ◌^◌, ◌<◌, ◌≤◌, ◌≡◌, true, false, some, List, length, take, take_all, le→ltb, resize,
  length-resize, resize_self, pos, int32, int32_small, ◌==ℤ◌, ==_self, u32, arith,
}
use ros2_connect.Message.Codes.{lz4_default, lz4_hc, zlib}
use ros2_connect.Message.Codec.{Codec, zlib_max_src_size}
use ros2_connect.Message.Base.{
  MessageBase, get_src, store, clear_compressor, get_compressor, get_uncompressed_size,
  lz4_decompression, zlib_decompression, lz4_store, zlib_store, decompress, decompress_by,
  try_decompress, is_compressed,
}

module _ (codec : Codec) (m : MessageBase) (payload : List ℕ) where
  -- LZ4: the stored bytes are the first `suc k` of the buffer that the compressor filled.
  pub lz4_decompression_lem :
      (k : ℕ) (dst : List ℕ)
      → get_src m ≡ resize (suc k) dst
      → suc k < 2 ^ 31
      → get_uncompressed_size m ≡ length payload
      → length payload < 2 ^ 31
      → codec.lz4_decompress_safe (resize (suc k) dst) (int32 (length payload))
        ≡ (pos (length payload), payload)
      → lz4_decompression codec m ≡ (store codec (clear_compressor m) payload, true)
  lz4_decompression_lem k dst src fits size small law =
      unfold lz4_decompression in
      rw (size, le→ltb zlib_max_src_size (length payload) (omega arith), window, law) stored
    where
      whole : take (u32 (suc k)) (resize (suc k) dst) ≡ resize (suc k) dst
      whole = take_all _ _ (omega (arith, length-resize (suc k) dst))

      window : take (u32 (length (get_src m))) (get_src m) ≡ resize (suc k) dst
      window = rw (src, length-resize (suc k) dst) whole

      agree : (pos (length payload) ==ℤ int32 (length payload)) ≡ true
      agree = rw (int32_small (length payload) small) (==_self (length payload))

      stored :
          lz4_store codec m (length payload) (pos (length payload), payload)
          ≡ (store codec (clear_compressor m) payload, true)
      stored = unfold lz4_store in rw (agree, resize_self payload)

  pub zlib_decompression_lem :
      (out : List ℕ)
      → get_src m ≡ out
      → get_uncompressed_size m ≡ length payload
      → length payload ≤ zlib_max_src_size
      → codec.uncompress out (length payload) ≡ some payload
      → zlib_decompression codec m ≡ (store codec (clear_compressor m) payload, true)
  zlib_decompression_lem out src size small law =
      unfold zlib_decompression in
      rw (size, le→ltb zlib_max_src_size (length payload) small, src, law)
        (unfold zlib_store in rw (==_self (length payload), resize_self payload))

pub try_decompress-compressed :
    (codec : Codec) (m r : MessageBase)
    → is_compressed m ≡ true
    → decompress codec m ≡ (r, true)
    → try_decompress codec m ≡ some r
try_decompress-compressed codec m r h e = unfold try_decompress in rw (h, e)

pub try_decompress-plain :
    (codec : Codec) (m : MessageBase) → is_compressed m ≡ false → try_decompress codec m ≡ some m
try_decompress-plain codec m h = unfold try_decompress in rw h

pub decompress-lz4_default :
    (codec : Codec) (m : MessageBase)
    → get_compressor m ≡ lz4_default
    → decompress codec m ≡ lz4_decompression codec m
decompress-lz4_default codec m e = unfold decompress decompress_by in rw e

pub decompress-lz4_hc :
    (codec : Codec) (m : MessageBase)
    → get_compressor m ≡ lz4_hc
    → decompress codec m ≡ lz4_decompression codec m
decompress-lz4_hc codec m e = unfold decompress decompress_by in rw e

pub decompress-zlib :
    (codec : Codec) (m : MessageBase)
    → get_compressor m ≡ zlib
    → decompress codec m ≡ zlib_decompression codec m
decompress-zlib codec m e = unfold decompress decompress_by in rw e
