-- ===== src/Message/ServiceFrames.antt =====
-- The bytes of a service or action message: what the `send` function of
-- include/connect/service/service.hpp and action/action.hpp passes on, and what
-- ServiceActionManager::run and the plugins' decompression make of a plain or compressed vector.
use ros2_connect.Prelude.{
  ℕ, ◌^◌, ◌-◌, ◌<◌, ◌≡◌, true, Option, some, none, List, ◌∷◌, ◌++◌, length, length-append, u32,
  ◌>>=◌, arith, if◌then◌else◌,
}
use ros2_connect.Message.Codes.{
  Compressor, Compression, compressor_value, is_compressor, lz4_default, lz4_hc, zlib,
  ServiceActionOpCode, service_action_value, service_action_of_value-value, service_action_value-le,
}
use ros2_connect.Message.Codec.{Codec}
use ros2_connect.Message.Rcl.{RclMessage, from_flat_buffer}
use ros2_connect.Message.Rcl
use ros2_connect.Message.ServiceAction.{
  ServiceActionMessage, for_service_action, from_message, parse_header, construct, plain_vector,
  framed_vector, get_gid, get_data,
}
use ros2_connect.Message.Wire.{from_flat_buffer-plain, from_flat_buffer-frame}
use ros2_connect.Message.Base.{
  MessageBase, rcl, vector, service_action, get_combined_vector, try_decompress,
  get_compressed_combined_vector,
}

-- The bytes that the `send` of `Service::init` and `Action::init` passes to the connection.
unfoldable pub send_bytes : Codec → ℕ → Compression → ServiceActionOpCode → List ℕ → List ℕ → List ℕ
unfolding get_combined_vector get_compressed_combined_vector for_service_action
send_bytes codec channel compression op_code bytes gid =
    let m = service_action (for_service_action channel op_code bytes gid) in
    if is_compressor compression.compressor
    then get_compressed_combined_vector codec m compression
    else get_combined_vector m

-- `ServiceActionMessage::fromMessage` on a received message.
abbrev pub of_message : RclMessage → Option ServiceActionMessage
of_message m = from_message m.channel m.compressor m.uncompressed_size (Rcl.get_combined_vector m)

-- What the other side's manager makes of received bytes.
abbrev pub received : List ℕ → Option ServiceActionMessage
received bytes = from_flat_buffer bytes >>= of_message

-- What the other side's plugin works on.
abbrev pub deliver : Codec → List ℕ → Option MessageBase
deliver codec bytes = received bytes >>= λ s. try_decompress codec (service_action s)

abbrev pub Delivered : ℕ → ServiceActionOpCode → List ℕ → List ℕ → Option MessageBase → Type 0
Delivered channel op_code gid payload none = ⊥
Delivered channel op_code gid payload (some (rcl m)) = ⊥
Delivered channel op_code gid payload (some (vector m)) = ⊥
Delivered channel op_code gid payload (some (service_action m)) =
    (m.service_action_channel ≡ channel)
    × (m.service_action_op_code ≡ op_code)
    × (get_gid m ≡ gid)
    × (get_data m ≡ payload)
    × (m.compressor ≡ Compressor.none)

-- The bytes are read as a message with this channel, op-code and goal id, which is decompressed to
-- one with the payload.
abbrev pub Carried : Codec → ℕ → ServiceActionOpCode → List ℕ → List ℕ → List ℕ → Type 0
Carried codec channel op_code gid payload bytes =
    (m : ServiceActionMessage) × (received bytes ≡ some m)
    × (m.service_action_channel ≡ channel)
    × (m.service_action_op_code ≡ op_code)
    × (get_gid m ≡ gid)
    × Delivered channel op_code gid payload (try_decompress codec (service_action m))

pub Carried-Delivered :
    (codec : Codec) (channel : ℕ) (op : ServiceActionOpCode) (gid payload bytes : List ℕ)
    → Carried codec channel op gid payload bytes
    → Delivered channel op gid payload (deliver codec bytes)
Carried-Delivered codec channel op gid payload bytes c = rw c.1 c.5

module _ (sac : ℕ) (op : ServiceActionOpCode) (gid : List ℕ) (some_gid : 0 < length gid)
    (short_gid : length gid < 256) where
  -- A header of the right shape is accepted, whatever follows it.
  pub of_message-plain :
      (bytes : List ℕ)
      → from_message 251 Compressor.none
          (u32 (length (sac ∷ service_action_value op ∷ length gid ∷ (gid ++ bytes))))
          (plain_vector 251 sac (service_action_value op) gid bytes)
        ≡ some (
            construct 251 Compressor.none
              (length (plain_vector 251 sac (service_action_value op) gid bytes) - 5 - length gid)
              sac
              op
              (plain_vector 251 sac (service_action_value op) gid bytes))
  unfolding from_message parse_header
  of_message-plain bytes =
      ground (
        arith,
        length-append gid bytes,
        service_action_value-le op,
        service_action_of_value-value op,
      )

  abbrev pub framed_bytes : ℕ → ℕ → List ℕ → List ℕ
  framed_bytes c n bytes = framed_vector 251 c n sac (service_action_value op) gid bytes

  abbrev pub framed : Compressor → ℕ → List ℕ → ServiceActionMessage
  framed z n bytes = construct 251 z n sac op (framed_bytes (compressor_value z) n bytes)

  pub of_message-framed :
      (z : Compressor) (n : ℕ) (bytes : List ℕ)
      → is_compressor z ≡ true
      → from_message 251 z n (framed_bytes (compressor_value z) n bytes) ≡ some (framed z n bytes)
  unfolding from_message parse_header
  of_message-framed Compressor.none n bytes h = cc
  of_message-framed lz4_default n bytes h =
      ground (
        arith,
        length-append gid bytes,
        service_action_value-le op,
        service_action_of_value-value op,
      )
  of_message-framed lz4_hc n bytes h =
      ground (
        arith,
        length-append gid bytes,
        service_action_value-le op,
        service_action_of_value-value op,
      )
  of_message-framed zlib n bytes h =
      ground (
        arith,
        length-append gid bytes,
        service_action_value-le op,
        service_action_of_value-value op,
      )

  -- The received bytes of a frame are its combined vector again.
  pub parse-framed :
      (z : Compressor) (n : ℕ) (bytes : List ℕ)
      → is_compressor z ≡ true
      → n < 2 ^ 32
      → (from_flat_buffer (framed_bytes (compressor_value z) n bytes) >>= of_message)
        ≡ some (framed z n bytes)
  parse-framed Compressor.none n bytes h l = cc
  parse-framed lz4_default n bytes h l =
      rw (from_flat_buffer-frame 251 lz4_default n _ (λ e. cc) l)
        (unfold Rcl.get_combined_vector in of_message-framed lz4_default n bytes h)
  parse-framed lz4_hc n bytes h l =
      rw (from_flat_buffer-frame 251 lz4_hc n _ (λ e. cc) l)
        (unfold Rcl.get_combined_vector in of_message-framed lz4_hc n bytes h)
  parse-framed zlib n bytes h l =
      rw (from_flat_buffer-frame 251 zlib n _ (λ e. cc) l)
        (unfold Rcl.get_combined_vector in of_message-framed zlib n bytes h)

  pub parse-plain :
      (bytes : List ℕ)
      → (from_flat_buffer (plain_vector 251 sac (service_action_value op) gid bytes) >>= of_message)
        ≡ some (
            construct 251 Compressor.none
              (length (plain_vector 251 sac (service_action_value op) gid bytes) - 5 - length gid)
              sac
              op
              (plain_vector 251 sac (service_action_value op) gid bytes))
  parse-plain bytes =
      rw (from_flat_buffer-plain 251 _)
        (unfold Rcl.get_combined_vector compressor_value in of_message-plain bytes)
