-- ===== src/Message/ServiceAction.antt =====
-- include/connect/serviceActionMessage.hpp and src/message/serviceActionMessage.cpp: a message with
-- the service and action header. Its goal id and its data are windows of one vector.
use ros2_connect.Prelude.{
  ℕ, suc, ◌+◌, ◌-◌, Option, some, List, [], ◌∷◌, ◌++◌, length, set, replicate, get_or, ltb, ◌>>◌,
  guard, not, ◌||◌, u8, u32, slice, overwrite, resize, le32, drop, ◌<◌, ◌≡◌, refl, sym, ap, ◌∙◌,
  arith, take-length-append, drop-length-append, drop-drop, take_all, overwrite-parts,
  overwrite-tail, ◌/◌, ◌^◌, length-append,
}
use ros2_connect.Message.Codes.{
  Compressor, compressor_value, op_code_value, service_action, ServiceActionOpCode,
  service_action_value, service_action_of_value, service_action_op_code_max,
}
use ros2_connect.Message.Codec.{Codec, Moves}

-- `std::span<uint8_t>` into the combined vector.
pub record Span : Type 0 where
  pub offset : ℕ
  pub size : ℕ

pub record ServiceActionMessage : Type 0 where
  pub channel : ℕ
  pub compressor : Compressor
  pub uncompressed_size : ℕ
  pub combined_vector : List ℕ
  pub service_action_channel : ℕ
  pub service_action_op_code : ServiceActionOpCode
  pub gid : Span
  pub span : Span

-- Where the size of the goal id stands: behind the plain or the extended header.
abbrev pub gid_size_offset : Compressor → ℕ
gid_size_offset Compressor.none = 4
gid_size_offset _ = 8

-- The constructor `ServiceActionMessage::ServiceActionMessage`.
unfoldable pub construct :
    ℕ → Compressor → ℕ → ℕ → ServiceActionOpCode → List ℕ → ServiceActionMessage
construct channel compressor uncompressed_size service_action_channel op_code v =
    let header = suc (gid_size_offset compressor) in
    let gid_size = get_or v (gid_size_offset compressor) 0 in
    record {
      channel = channel;
      compressor = compressor;
      uncompressed_size = u32 uncompressed_size;
      combined_vector = v;
      service_action_channel = service_action_channel;
      service_action_op_code = op_code;
      gid = record { offset = header; size = gid_size };
      span = record { offset = header + gid_size; size = length v - header - gid_size };
    }

-- `ServiceActionMessage::getData` and `getGID`.
unfoldable pub get_data : ServiceActionMessage → List ℕ
get_data m = slice m.span.offset m.span.size m.combined_vector

unfoldable pub get_gid : ServiceActionMessage → List ℕ
get_gid m = slice m.gid.offset m.gid.size m.combined_vector

-- `ServiceActionMessage::getGIDString`: the goal id and a closing zero byte.
unfoldable pub get_gid_string : ServiceActionMessage → List ℕ
unfolding get_gid
get_gid_string m = get_gid m ++ 0 ∷ []

-- The header `h` bytes long, as `fromMessage` checks and reads it.
unfoldable pub parse_header : ℕ → ℕ → Compressor → (ℕ → ℕ) → List ℕ → Option ServiceActionMessage
unfolding construct service_action_of_value
parse_header h channel compressor size v = do
  guard (not (ltb (length v) (suc h)))
  let service_action_channel = get_or v (h - 3) 0
  let op_code = get_or v (h - 2) 0
  let gid_size = get_or v (h - 1) 0
  guard (not (ltb op_code 0 || ltb service_action_op_code_max op_code))
  guard (not (ltb (length v) (h + gid_size)))
  some (
      construct channel compressor (size gid_size) service_action_channel
        (service_action_of_value op_code) v)

-- `ServiceActionMessage::fromMessage` on the parts of a message: its channel, compressor,
-- uncompressed size and combined vector. `none` is the null pointer.
unfoldable pub from_message : ℕ → Compressor → ℕ → List ℕ → Option ServiceActionMessage
unfolding parse_header
from_message channel Compressor.none uncompressed_size v =
    parse_header 5 channel Compressor.none (λ gid_size. length v - 5 - gid_size) v
from_message channel Compressor.lz4_default uncompressed_size v =
    parse_header 9 channel Compressor.lz4_default (λ _. uncompressed_size) v
from_message channel Compressor.lz4_hc uncompressed_size v =
    parse_header 9 channel Compressor.lz4_hc (λ _. uncompressed_size) v
from_message channel Compressor.zlib uncompressed_size v =
    parse_header 9 channel Compressor.zlib (λ _. uncompressed_size) v

-- `ServiceActionMessage::forServiceAction`.
unfoldable pub for_service_action : ℕ → ServiceActionOpCode → List ℕ → List ℕ → ServiceActionMessage
unfolding construct op_code_value compressor_value service_action_value
for_service_action service_action_channel op_code bytes gid =
    let zeros = replicate (5 + length gid + length bytes) 0 in
    let header =
      op_code_value service_action
      ∷ compressor_value Compressor.none
      ∷ service_action_channel
      ∷ service_action_value op_code
      ∷ u8 (length gid)
      ∷ [] in
    let v = overwrite 5 gid (overwrite 0 header zeros) in
    construct (op_code_value service_action) Compressor.none (length bytes) service_action_channel
      op_code (overwrite (5 + length gid) bytes v)

-- `ServiceActionMessage::store`. The `memcpy` of the goal id reads and writes one vector.
unfoldable pub store : Codec → ServiceActionMessage → List ℕ → ServiceActionMessage
unfolding compressor_value service_action_value
store codec m bytes =
    let gid_size = u8 m.gid.size in
    let a = set m.combined_vector 1 (compressor_value Compressor.none) in
    let b = set a 2 m.service_action_channel in
    let c = set b 3 (service_action_value m.service_action_op_code) in
    let d = set c 4 gid_size in
    let e = codec.memcpy_within 5 m.gid.offset gid_size d in
    let f = resize (5 + length bytes + gid_size) e in
    record m {
      combined_vector = overwrite (5 + gid_size) bytes f;
      gid = record { offset = 5; size = gid_size };
      span = record { offset = 5 + gid_size; size = length bytes };
    }

store-gid :
    (codec : Codec) (m : ServiceActionMessage) (bytes : List ℕ)
    → (store codec m bytes).gid ≡ record { offset = 5; size = u8 m.gid.size }
unfolding store
store-gid codec m bytes = refl

store-span :
    (codec : Codec) (m : ServiceActionMessage) (bytes : List ℕ)
    → (store codec m bytes).span ≡ record { offset = 5 + u8 m.gid.size; size = length bytes }
unfolding store
store-span codec m bytes = refl

-- The header of the overriding compressions: up to the goal id, not compressed.
unfoldable pub compressed_header : ServiceActionMessage → Compressor → ℕ → List ℕ
unfolding service_action_value compressor_value get_gid
compressed_header m compressor src_size =
    m.channel
    ∷ compressor_value compressor
    ∷ (le32 src_size
        ++ (m.service_action_channel
            ∷ service_action_value m.service_action_op_code
            ∷ u8 (length (get_gid m))
            ∷ get_gid m))

-- The vector of an uncompressed message and that of a compressed one, by their parts.
abbrev pub plain_vector : ℕ → ℕ → ℕ → List ℕ → List ℕ → List ℕ
plain_vector channel sac op gid bytes = channel ∷ 0 ∷ sac ∷ op ∷ length gid ∷ (gid ++ bytes)

abbrev pub framed_vector : ℕ → ℕ → ℕ → ℕ → ℕ → List ℕ → List ℕ → List ℕ
framed_vector channel c n sac op gid bytes =
    channel ∷ c ∷ (le32 n ++ (sac ∷ op ∷ length gid ∷ (gid ++ bytes)))

-- The data behind a header and a goal id.
drop-header : (h gid bytes : List ℕ) → drop (length h + length gid) (h ++ (gid ++ bytes)) ≡ bytes
drop-header h gid bytes =
    sym (drop-drop (length h) (length gid) _)
    ∙ ap (drop (length gid)) (drop-length-append h (gid ++ bytes))
    ∙ drop-length-append gid bytes

pub for_service_action-combined :
    (sac : ℕ) (op : ServiceActionOpCode) (bytes gid : List ℕ)
    → length gid < 256
    → (for_service_action sac op bytes gid).combined_vector
      ≡ plain_vector 251 sac (service_action_value op) gid bytes
unfolding for_service_action construct op_code_value compressor_value
for_service_action-combined sac op bytes gid h =
    let small : u8 (length gid) ≡ length gid = omega arith in
    overwrite-parts 5 (251 ∷ 0 ∷ sac ∷ service_action_value op ∷ u8 (length gid) ∷ []) gid bytes
      refl
    ∙ rw small refl

-- The message in one piece.
pub for_service_action_lem :
    (sac : ℕ) (op : ServiceActionOpCode) (bytes gid : List ℕ)
    → length gid < 256
    → for_service_action sac op bytes gid
      ≡ construct 251 Compressor.none
          (length bytes)
          sac
          op
          (plain_vector 251 sac (service_action_value op) gid bytes)
for_service_action_lem sac op bytes gid h =
    unfold for_service_action construct op_code_value compressor_value in
    ap (construct 251 Compressor.none (length bytes) sac op)
      (for_service_action-combined sac op bytes gid h)

module _ (channel : ℕ) (n sac : ℕ) (op : ServiceActionOpCode) (gid bytes : List ℕ) where
  abbrev plain_message : ServiceActionMessage
  plain_message =
      construct channel Compressor.none n sac op
        (plain_vector channel sac (service_action_value op) gid bytes)

  pub plain-get_gid : get_gid plain_message ≡ gid
  unfolding get_gid construct
  plain-get_gid = take-length-append gid bytes

  pub plain-get_data : get_data plain_message ≡ bytes
  unfolding get_data construct
  plain-get_data =
      rw (drop-header (channel ∷ 0 ∷ sac ∷ service_action_value op ∷ length gid ∷ []) gid bytes)
        (take_all _ bytes (omega (arith, length-append gid bytes)))

  -- The same message behind the header of a compressed one.
  module _ (c : ℕ) (z : Compressor) (e : gid_size_offset z ≡ 8) (codec : Codec) where
    abbrev framed_message : ServiceActionMessage
    framed_message =
        construct channel z n sac op
          (framed_vector channel c n sac (service_action_value op) gid bytes)

    pub framed-get_gid : get_gid framed_message ≡ gid
    unfolding get_gid construct
    framed-get_gid = rw e (take-length-append gid bytes)

    pub framed-get_data : get_data framed_message ≡ bytes
    unfolding get_data construct
    framed-get_data =
        rw
          (
            e,
            drop-header
                (channel ∷ c ∷ (le32 n ++ (sac ∷ service_action_value op ∷ length gid ∷ []))) gid
                bytes,
          )
          (take_all _ bytes (omega (arith, length-append gid bytes)))

    -- Storing decompressed data keeps the header and the goal id.
    pub store-framed :
        (payload : List ℕ)
        → length gid < 256
        → Moves codec (length gid)
        → (store codec framed_message payload).combined_vector
          ≡ plain_vector channel sac (service_action_value op) gid payload
    unfolding store construct compressor_value
    store-framed payload small moves =
        rw (e, fits, moves, take-length-append gid bytes)
          (overwrite-tail 5 (5 + length payload + length gid)
            (channel ∷ 0 ∷ sac ∷ service_action_value op ∷ length gid ∷ []) gid payload
            (drop (5 + length gid) (
              channel
              ∷ 0
              ∷ sac
              ∷ service_action_value op
              ∷ length gid
              ∷ u8 (n / 2 ^ 24)
              ∷ sac
              ∷ service_action_value op
              ∷ length gid
              ∷ (gid ++ bytes)))
            refl refl)
      where
        fits : u8 (length gid) ≡ length gid
        fits = omega arith

    size : length gid < 256 → u8 framed_message.gid.size ≡ length gid
    unfolding construct
    size small = rw e (omega arith)

    pub get_gid-store-framed :
        (payload : List ℕ)
        → length gid < 256
        → Moves codec (length gid)
        → get_gid (store codec framed_message payload) ≡ gid
    unfolding get_gid
    get_gid-store-framed payload small moves =
        rw (store-gid codec framed_message payload, store-framed payload small moves, size small)
          (take-length-append gid payload)

    pub get_data-store-framed :
        (payload : List ℕ)
        → length gid < 256
        → Moves codec (length gid)
        → get_data (store codec framed_message payload) ≡ payload
    unfolding get_data
    get_data-store-framed payload small moves =
        rw
          (
            store-span codec framed_message payload,
            store-framed payload small moves,
            size small,
            drop-header (channel ∷ 0 ∷ sac ∷ service_action_value op ∷ length gid ∷ []) gid payload,
          )
          (take_all (length payload) payload (omega arith))
