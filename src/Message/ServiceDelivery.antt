-- ===== src/Message/ServiceDelivery.antt =====
-- The bytes of a plain or compressed service or action message come through: what
-- ServiceActionManager::run and a plugin's decompression make of them.
use ros2_connect.Prelude.{
  ℕ, zero, suc, ◌^◌, ◌-◌, ◌<◌, ◌≤◌, ◌≡◌, refl, ◌∙◌, true, false, Option, some, none, List, ◌∷◌,
  ◌++◌, length, take-length-append, le32, u8, resize, ℤ, pos, negsuc, int32, arith,
}
use ros2_connect.Message.Codes.{
  Compressor, compressor_value, is_compressor, zlib, ServiceActionOpCode, service_action_value,
}
use ros2_connect.Message.Codec.{Codec, Moves, zlib_max_src_size}
use ros2_connect.Message.ServiceAction.{
  ServiceActionMessage, for_service_action, for_service_action_lem, for_service_action-combined,
  from_message, parse_header, construct, plain_vector, framed_vector, get_gid, get_data,
  compressed_header, gid_size_offset, plain-get_gid, plain-get_data, framed-get_gid,
  framed-get_data, get_gid-store-framed, get_data-store-framed,
}
use ros2_connect.Message.ServiceAction
use ros2_connect.Message.Restore.{
  lz4_decompression_lem, zlib_decompression_lem, try_decompress-compressed, try_decompress-plain,
  decompress-zlib,
}
use ros2_connect.Message.Base.{
  MessageBase, service_action, get_src, get_combined_vector, store, get_compressor,
  get_uncompressed_size, decompress, is_compressed, lz4_decompression, lz4_frame, zlib_frame,
}
use ros2_connect.Message.ServiceFrames.{Carried, framed_bytes, framed, parse-framed, parse-plain}

module _ (sac : ℕ) (op : ServiceActionOpCode) (gid : List ℕ) (some_gid : 0 < length gid)
    (short_gid : length gid < 256) (codec : Codec) (payload : List ℕ) where
  pub deliver-plain :
      Carried codec sac op gid payload (plain_vector 251 sac (service_action_value op) gid payload)
  deliver-plain = (
    m,
    parse-plain sac op gid some_gid short_gid payload,
    parts.0,
    parts.1,
    plain-get_gid 251 _ sac op gid payload,
    rw (try_decompress-plain codec (service_action m) plain) (
      parts.0,
      parts.1,
      plain-get_gid 251 _ sac op gid payload,
      plain-get_data 251 _ sac op gid payload,
      parts.2,
    ),
  )
    where
      m : ServiceActionMessage
      m =
          construct 251 Compressor.none
            (length (plain_vector 251 sac (service_action_value op) gid payload) - 5 - length gid)
            sac op (plain_vector 251 sac (service_action_value op) gid payload)

      parts :
          (m.service_action_channel ≡ sac)
          × (m.service_action_op_code ≡ op)
          × (m.compressor ≡ Compressor.none)
      parts = unfold construct in (refl, refl, refl)

      plain : is_compressed (service_action m) ≡ false
      plain = unfold construct is_compressed in refl

  abbrev pub restored : Compressor → List ℕ → MessageBase
  restored z body =
      store codec
        (service_action (record (framed sac op gid some_gid short_gid z (length payload) body) {
          compressor = Compressor.none;
        }))
        payload

  pub deliver-frame :
      (z : Compressor) (body : List ℕ)
      → is_compressor z ≡ true
      → gid_size_offset z ≡ 8
      → length payload < 2 ^ 32
      → Moves codec (length gid)
      → decompress codec
          (service_action (framed sac op gid some_gid short_gid z (length payload) body))
        ≡ (restored z body, true)
      → Carried codec sac op gid payload
          (framed_bytes sac op gid some_gid short_gid (compressor_value z) (length payload) body)
  deliver-frame z body h k small moves e = (
    m,
    parse-framed sac op gid some_gid short_gid z (length payload) body h small,
    unfold construct in refl,
    unfold construct in refl,
    framed-get_gid 251 (length payload) sac op gid body _ z k codec,
    rw (try_decompress-compressed codec (service_action m) _ compressed e) (
        unfold store in
        (
          parts.0,
          parts.1,
          parts.2
              ∙ get_gid-store-framed 251 (length payload) sac op gid body _ z k codec payload
                  short_gid moves,
          parts.3
              ∙ get_data-store-framed 251 (length payload) sac op gid body _ z k codec payload
                  short_gid moves,
          parts.4,
        )),
  )
    where
      m : ServiceActionMessage
      m = framed sac op gid some_gid short_gid z (length payload) body

      compressed : is_compressed (service_action m) ≡ true
      compressed = unfold construct is_compressed in h

      r : ServiceActionMessage
      r = ServiceAction.store codec (record m { compressor = Compressor.none }) payload

      parts :
          (r.service_action_channel ≡ sac)
          × (r.service_action_op_code ≡ op)
          × (get_gid r ≡ get_gid (ServiceAction.store codec m payload))
          × (get_data r ≡ get_data (ServiceAction.store codec m payload))
          × (r.compressor ≡ Compressor.none)
      parts =
          unfold construct ServiceAction.store get_gid get_data in (refl, refl, refl, refl, refl)

  abbrev pub frame_start : ℕ → List ℕ
  frame_start c =
      251 ∷ c ∷ (le32 (length payload) ++ (sac ∷ service_action_value op ∷ length gid ∷ gid))

  -- The received message as the decompression lemmas see it.
  pub framed_parts :
      (z : Compressor) (body : List ℕ)
      → gid_size_offset z ≡ 8
      → length payload < 2 ^ 32
      → let m = service_action (framed sac op gid some_gid short_gid z (length payload) body) in
        (get_src m ≡ body) × (get_uncompressed_size m ≡ length payload) × (get_compressor m ≡ z)
  framed_parts z body k small = (
    unfold get_src in framed-get_data 251 (length payload) sac op gid body _ z k codec,
    unfold construct in omega arith,
    unfold construct in refl,
  )

  pub deliver-lz4_frame :
      (z : Compressor) (r : ℤ × List ℕ)
      → is_compressor z ≡ true
      → gid_size_offset z ≡ 8
      → ((m : MessageBase) → get_compressor m ≡ z → decompress codec m ≡ lz4_decompression codec m)
      → length payload < 2 ^ 31
      → Moves codec (length gid)
      → ((n : ℕ) (dst : List ℕ) → r ≡ (pos n, dst) → n < 2 ^ 31)
      → ((n : ℕ) (dst : List ℕ)
          → r ≡ (pos (suc n), dst)
          → codec.lz4_decompress_safe (resize (suc n) dst) (int32 (length payload))
            ≡ (pos (length payload), payload))
      → Carried codec sac op gid payload (
          lz4_frame
            (plain_vector 251 sac (service_action_value op) gid payload)
            (frame_start (compressor_value z))
            r)
  deliver-lz4_frame z (pos zero, dst) h k d small moves bound law = deliver-plain
  deliver-lz4_frame z (negsuc n, dst) h k d small moves bound law = deliver-plain
  deliver-lz4_frame z (pos (suc n), dst) h k d small moves bound law =
      let m =
        service_action
          (framed sac op gid some_gid short_gid z (length payload) (resize (suc n) dst)) in
      let parts = framed_parts z (resize (suc n) dst) k (omega arith) in
      deliver-frame z (resize (suc n) dst) h k (omega arith) moves (
        d m parts.2
        ∙ lz4_decompression_lem codec m payload n dst parts.0 (bound (suc n) dst refl) parts.1 small
            (law n dst refl))

  pub deliver-zlib_frame :
      (r : Option (List ℕ))
      → length payload ≤ zlib_max_src_size
      → Moves codec (length gid)
      → ((out : List ℕ) → r ≡ some out → codec.uncompress out (length payload) ≡ some payload)
      → Carried codec sac op gid payload (
          zlib_frame
            (plain_vector 251 sac (service_action_value op) gid payload)
            (frame_start (compressor_value zlib))
            r)
  deliver-zlib_frame none small moves law = deliver-plain
  deliver-zlib_frame (some out) small moves law =
      let m = service_action (framed sac op gid some_gid short_gid zlib (length payload) out) in
      let parts = framed_parts zlib out refl (omega arith) in
      deliver-frame zlib out refl refl (omega arith) moves (
        decompress-zlib codec m parts.2
        ∙ zlib_decompression_lem codec m payload out parts.0 parts.1 small (law out refl))

  abbrev pub sent : MessageBase
  sent = service_action (for_service_action sac op payload gid)

  pub sent-src : get_src sent ≡ payload
  sent-src =
      unfold get_src in
      rw (for_service_action_lem sac op payload gid short_gid)
        (plain-get_data 251 (length payload) sac op gid payload)

  pub sent-combined :
      get_combined_vector sent ≡ plain_vector 251 sac (service_action_value op) gid payload
  sent-combined =
      unfold get_combined_vector in for_service_action-combined sac op payload gid short_gid

  pub sent-header :
      (z : Compressor)
      → compressed_header (for_service_action sac op payload gid) z (length payload)
        ≡ frame_start (compressor_value z)
  sent-header z = rw (for_service_action_lem sac op payload gid short_gid) built
    where
      small : u8 (length gid) ≡ length gid
      small = omega arith

      built :
          compressed_header
            (construct 251 Compressor.none
              (length payload)
              sac
              op
              (plain_vector 251 sac (service_action_value op) gid payload))
            z
            (length payload)
          ≡ frame_start (compressor_value z)
      built = unfold compressed_header construct in rw (take-length-append gid payload, small)
