-- ===== src/Message/Transport.antt =====
-- From a topic's subscriber on one side to its publisher on the other: what
-- ThreadedSubscriber::run sends, WebsocketConnectionBase::asyncRead parses and
-- ThreadedPublisher::run decompresses.
use ros2_connect.Prelude.{
  ℕ, zero, suc, ◌^◌, ◌<◌, ◌≤◌, ◌≡◌, ◌≢◌, refl, ap, ◌∙◌, inl, inr, true, false, Option, some, none,
  List, ◌∷◌, ◌++◌, Bool-cases, ltb, ltb→le, length, drop, take, take_all, le32, resize, ℤ, pos,
  negsuc, int32, u32, ◌>>=◌, arith,
}
use ros2_connect.Message.Codes.{
  Compressor, Compression, compressor_value, is_compressor, lz4_default, lz4_hc, zlib,
}
use ros2_connect.Message.Codec.{Codec, CodecLaws, zlib_max_src_size, lz4_max_src_size}
use ros2_connect.Message.Rcl.{RclMessage, from_flat_buffer}
use ros2_connect.Message.Rcl
use ros2_connect.Message.Vector.{from_serialized_message, from_serialized_message-combined}
use ros2_connect.Message.Vector
use ros2_connect.Message.Wire.{from_flat_buffer-plain, from_flat_buffer-frame}
use ros2_connect.Message.Restore.{
  lz4_decompression_lem, zlib_decompression_lem, try_decompress-compressed, decompress-lz4_default,
  decompress-lz4_hc, decompress-zlib,
}
use ros2_connect.Message.Base.{
  MessageBase, rcl, vector, get_channel, get_src, get_combined_vector, store, decompress,
  try_decompress, compress_by, is_compressed, get_compressed_combined_vector,
  lz4_default_compression, lz4_hc_compression, zlib_compression, lz4_decompression, lz4_frame,
  zlib_frame,
}

-- What a receiver of the bytes hands on.
abbrev pub deliver : Codec → List ℕ → Option MessageBase
deliver codec bytes = from_flat_buffer bytes >>= λ m. try_decompress codec (rcl m)

-- The message came through: its channel, its payload, and no compression left.
abbrev pub Delivered : ℕ → List ℕ → Option MessageBase → Type 0
Delivered channel payload none = ⊥
Delivered channel payload (some m) =
    (get_channel m ≡ channel) × (get_src m ≡ payload) × (is_compressed m ≡ false)

module _ (codec : Codec) (channel : ℕ) (payload : List ℕ) where
  deliver-plain : Delivered channel payload (deliver codec (channel ∷ 0 ∷ payload))
  unfolding try_decompress is_compressed get_src
  deliver-plain = rw (from_flat_buffer-plain channel payload) (refl, refl, refl)

  abbrev framed : Compressor → List ℕ → RclMessage
  framed c body = record {
    channel = channel;
    compressor = c;
    uncompressed_size = length payload;
    serialized_message = body;
  }

  deliver-frame :
      (c : Compressor) (body : List ℕ)
      → c ≢ Compressor.none
      → is_compressor c ≡ true
      → length payload < 2 ^ 32
      → decompress codec (rcl (framed c body)) ≡ (
        rcl (record (framed c body) { compressor = Compressor.none; serialized_message = payload }),
        true,
      )
      → Delivered channel payload
          (deliver codec (channel ∷ compressor_value c ∷ (le32 (length payload) ++ body)))
  unfolding is_compressed get_src
  deliver-frame c body h k small e =
      rw
        (
          from_flat_buffer-frame channel c (length payload) body h small,
          try_decompress-compressed codec (rcl (framed c body)) _ k e,
        )
        (refl, refl, refl)

  -- LZ4, by either compressor: what was written comes back, and what was not is sent plain.
  deliver-lz4_frame :
      (c : Compressor) (r : ℤ × List ℕ)
      → c ≢ Compressor.none
      → is_compressor c ≡ true
      → ((body : List ℕ)
          → decompress codec (rcl (framed c body)) ≡ lz4_decompression codec (rcl (framed c body)))
      → length payload < 2 ^ 31
      → ((n : ℕ) (dst : List ℕ) → r ≡ (pos n, dst) → n < 2 ^ 31)
      → ((n : ℕ) (dst : List ℕ)
          → r ≡ (pos (suc n), dst)
          → codec.lz4_decompress_safe (resize (suc n) dst) (int32 (length payload))
            ≡ (pos (length payload), payload))
      → Delivered channel payload (
          deliver codec (
            lz4_frame
              (channel ∷ 0 ∷ payload)
              (channel ∷ compressor_value c ∷ le32 (length payload))
              r))
  deliver-lz4_frame c (pos zero, dst) h k d small bound law = deliver-plain
  deliver-lz4_frame c (negsuc n, dst) h k d small bound law = deliver-plain
  deliver-lz4_frame c (pos (suc n), dst) h k d small bound law =
      deliver-frame c (resize (suc n) dst) h k (omega arith) (
        d (resize (suc n) dst)
        ∙ lz4_decompression_lem codec (rcl (framed c (resize (suc n) dst))) payload n dst
            (unfold get_src in refl) (bound (suc n) dst refl) refl small (law n dst refl)
        ∙ (unfold store Rcl.store in refl))

  deliver-zlib_frame :
      (r : Option (List ℕ))
      → length payload ≤ zlib_max_src_size
      → ((out : List ℕ) → r ≡ some out → codec.uncompress out (length payload) ≡ some payload)
      → Delivered channel payload (
          deliver codec (
            zlib_frame
              (channel ∷ 0 ∷ payload)
              (channel ∷ compressor_value zlib ∷ le32 (length payload))
              r))
  deliver-zlib_frame none small law = deliver-plain
  deliver-zlib_frame (some out) small law =
      deliver-frame zlib out (λ e. cc) refl (omega arith)
        (decompress-zlib codec (rcl (framed zlib out)) refl
          ∙ zlib_decompression_lem codec (rcl (framed zlib out)) payload out
              (unfold get_src in refl) refl small (law out refl)
          ∙ (unfold store Rcl.store in refl))

  abbrev sent : MessageBase
  sent = vector (from_serialized_message channel payload)

  sent-src : get_src sent ≡ payload
  unfolding get_src Vector.get_src from_serialized_message
  sent-src = ap (drop 2) (from_serialized_message-combined channel payload)

  sent-combined : get_combined_vector sent ≡ channel ∷ 0 ∷ payload
  unfolding get_combined_vector
  sent-combined = from_serialized_message-combined channel payload

  sent-channel : (from_serialized_message channel payload).channel ≡ channel
  unfolding from_serialized_message
  sent-channel = refl

module _ (codec : Codec) (laws : CodecLaws codec) (channel : ℕ) (payload : List ℕ) where
  abbrev message : MessageBase
  message = vector (from_serialized_message channel payload)

  -- The guard on the size leaves sizes whose `uint32_t` and `int` casts change nothing.
  fits : ltb (lz4_max_src_size codec) (length payload) ≡ false → length payload < 2 ^ 31
  fits h = omega (arith, ltb→le (lz4_max_src_size codec) (length payload) h)

  window : length payload < 2 ^ 31 → take (u32 (length payload)) payload ≡ payload
  window h = take_all (u32 (length payload)) payload (omega arith)

  same : length payload < 2 ^ 31 → u32 (length payload) ≡ length payload
  same h = omega arith

  lz4_default-Delivered :
      (rate : ℕ)
      → Delivered channel payload (deliver codec (lz4_default_compression codec message rate))
  unfolding lz4_default_compression
  lz4_default-Delivered rate =
      rw (sent-src codec channel payload, sent-combined codec channel payload)
        (elim (Bool-cases (ltb (lz4_max_src_size codec) (length payload))) [
          | inl big ↦ rw big (deliver-plain codec channel payload)
          | inr small ↦
              rw
                (
                  small,
                  window (fits small),
                  same (fits small),
                  sent-channel codec channel payload,
                  compressor_value,
                )
                (deliver-lz4_frame codec channel payload lz4_default _ (λ e. cc) refl
                  (λ body. decompress-lz4_default codec _ refl) (fits small)
                  (λ n dst e. laws.lz4_fast_int _ _ _ n dst e)
                  (λ n dst e. laws.lz4_fast _ _ _ n dst e))
        ])

  lz4_hc-Delivered :
      (rate : ℕ) → Delivered channel payload (deliver codec (lz4_hc_compression codec message rate))
  unfolding lz4_hc_compression
  lz4_hc-Delivered rate =
      rw (sent-src codec channel payload, sent-combined codec channel payload)
        (elim (Bool-cases (ltb (lz4_max_src_size codec) (length payload))) [
          | inl big ↦ rw big (deliver-plain codec channel payload)
          | inr small ↦
              rw
                (
                  small,
                  window (fits small),
                  same (fits small),
                  sent-channel codec channel payload,
                  compressor_value,
                )
                (deliver-lz4_frame codec channel payload lz4_hc _ (λ e. cc) refl
                  (λ body. decompress-lz4_hc codec _ refl) (fits small)
                  (λ n dst e. laws.lz4_hc_int _ _ _ n dst e) (λ n dst e. laws.lz4_hc _ _ _ n dst e))
        ])

  zlib-Delivered :
      (rate : ℕ) → Delivered channel payload (deliver codec (zlib_compression codec message rate))
  unfolding zlib_compression
  zlib-Delivered rate =
      rw (sent-src codec channel payload, sent-combined codec channel payload)
        (elim (Bool-cases (ltb zlib_max_src_size (length payload))) [
          | inl big ↦ rw big (deliver-plain codec channel payload)
          | inr small ↦
              rw (small, sent-channel codec channel payload, compressor_value)
                (deliver-zlib_frame codec channel payload _
                  (ltb→le zlib_max_src_size (length payload) small)
                  (λ out e. laws.zlib _ _ _ out e))
        ])

  compress_by-Delivered :
      (c : Compressor) (rate : ℕ)
      → Delivered channel payload (deliver codec (compress_by codec message c rate))
  unfolding compress_by
  compress_by-Delivered Compressor.none rate =
      rw (sent-combined codec channel payload) (deliver-plain codec channel payload)
  compress_by-Delivered lz4_default rate = lz4_default-Delivered rate
  compress_by-Delivered lz4_hc rate = lz4_hc-Delivered rate
  compress_by-Delivered zlib rate = zlib-Delivered rate

  -- Whatever the compression profile, and whether or not the compressor succeeds, the bytes that
  -- a subscriber sends for a serialized message are parsed and decompressed, without an error, to
  -- a message with its channel and exactly its payload. LZ4 and zlib are as they document.
  pub deliver-get_compressed_combined_vector :
      (compression : Compression)
      → Delivered channel payload
          (deliver codec (get_compressed_combined_vector codec message compression))
  deliver-get_compressed_combined_vector compression =
      unfold get_compressed_combined_vector in
      compress_by-Delivered compression.compressor compression.rate
