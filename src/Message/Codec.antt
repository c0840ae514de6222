-- ===== src/Message/Codec.antt =====
-- The compression libraries that src/message/messageBase.cpp calls (LZ4 and zlib) as parameters,
-- and the `memcpy` of the C library where both of its blocks lie in one buffer.
use ros2_connect.Prelude.{
  ℕ, suc, ◌^◌, ◌-◌, ◌<◌, ◌≡◌, Option, some, List, ℤ, pos, length, resize, min, int32, ◌+◌, ◌≤◌, ◌⊎◌,
  inl, slice, overwrite, arith,
}

-- A C call that fills a buffer returns its result and the content of the buffer.
pub record Codec : Type 0 where
  pub lz4_max_input_size : ℕ
  pub lz4_compress_bound : ℕ → ℕ
  -- Arguments: source, capacity of the buffer, acceleration or level.
  pub lz4_compress_fast : List ℕ → ℕ → ℕ → ℤ × List ℕ
  pub lz4_compress_hc : List ℕ → ℕ → ℕ → ℤ × List ℕ
  -- Arguments: source, capacity of the buffer.
  pub lz4_decompress_safe : List ℕ → ℤ → ℤ × List ℕ
  pub compress_bound : ℕ → ℕ
  -- `none` is a result other than `Z_OK`; `some out` has `dstSize` = the length of `out`.
  pub compress2 : List ℕ → ℕ → ℕ → Option (List ℕ)
  pub uncompress : List ℕ → ℕ → Option (List ℕ)
  -- `memcpy` within a buffer. Arguments: where the bytes go, where they come from, their number.
  pub memcpy_within : ℕ → ℕ → ℕ → List ℕ → List ℕ

-- What the libraries document: blocks that do not overlap are copied, and nothing is said of others;
-- what a compressor wrote, the decompressor reads back, given
-- the exact size of the original; and the sizes that LZ4 returns are `int`s.
pub record CodecLaws (c : Codec) : Type 0 where
  pub lz4_fast :
      (src : List ℕ) (cap rate n : ℕ) (dst : List ℕ)
      → c.lz4_compress_fast src cap rate ≡ (pos (suc n), dst)
      → c.lz4_decompress_safe (resize (suc n) dst) (int32 (length src)) ≡ (pos (length src), src)
  pub lz4_fast_int :
      (src : List ℕ) (cap rate n : ℕ) (dst : List ℕ)
      → c.lz4_compress_fast src cap rate ≡ (pos n, dst)
      → n < 2 ^ 31
  pub lz4_hc_int :
      (src : List ℕ) (cap rate n : ℕ) (dst : List ℕ)
      → c.lz4_compress_hc src cap rate ≡ (pos n, dst)
      → n < 2 ^ 31
  pub lz4_hc :
      (src : List ℕ) (cap rate n : ℕ) (dst : List ℕ)
      → c.lz4_compress_hc src cap rate ≡ (pos (suc n), dst)
      → c.lz4_decompress_safe (resize (suc n) dst) (int32 (length src)) ≡ (pos (length src), src)
  pub zlib :
      (src : List ℕ) (cap rate : ℕ) (out : List ℕ)
      → c.compress2 src cap rate ≡ some out
      → c.uncompress out (length src) ≡ some src
  pub memcpy :
      (dst src n : ℕ) (v : List ℕ)
      → (dst + n ≤ src) ⊎ (src + n ≤ dst)
      → c.memcpy_within dst src n v ≡ overwrite dst (slice src n v) v

-- The goal id of `n` bytes that `ServiceActionMessage::store` moves down by four bytes is copied.
abbrev pub Moves : Codec → ℕ → Type 0
Moves c n = (v : List ℕ) → c.memcpy_within 5 9 n v ≡ overwrite 5 (slice 9 n v) v

pub short-Moves : (c : Codec) → CodecLaws c → (n : ℕ) → n ≤ 4 → Moves c n
short-Moves c laws n h v = laws.memcpy 5 9 n v (inl (omega (arith, h)))

-- The macros LZ4_MAX_SRC_SIZE and ZLIB_MAX_SRC_SIZE of include/connect/messageBase.hpp, on a
-- platform whose `int` has 32 bits and whose `unsigned long` has at least 32.
abbrev pub lz4_max_src_size : Codec → ℕ
lz4_max_src_size c = min c.lz4_max_input_size (min (2 ^ 31 - 1 - 1) (2 ^ 32 - 1 - 1))

abbrev pub zlib_max_src_size : ℕ
zlib_max_src_size = 2 ^ 32 - 1 - 1
