-- ===== src/Message/Rcl.antt =====
-- src/message/rclMessage.hpp and rclMessage.cpp: a received message, kept as the buffer of a
-- serialized message. A read behind the end of a buffer is a fault, `none`.
use ros2_connect.Prelude.{
  ℕ, ◌-◌, Bool, ◌&&◌, Option, none, some, List, [], ◌∷◌, ◌++◌, length, get_elem?, drop, ◌==◌, leb,
  if◌then◌else◌, ◌>>=◌, le32, of_le32, u32,
}
use ros2_connect.Message.Codes.{
  Compressor, compressor_value, compressor_of_value, compressor_min, compressor_max,
}

pub record RclMessage : Type 0 where
  pub channel : ℕ
  pub compressor : Compressor
  pub uncompressed_size : ℕ
  pub serialized_message : List ℕ

-- `RclMessage::fromFlatBuffer` on the readable bytes of the flat buffer.
unfoldable pub from_flat_buffer : List ℕ → Option RclMessage
from_flat_buffer bytes = do
  channel ← get_elem? bytes 0
  compressor ← get_elem? bytes 1
  if compressor == compressor_value Compressor.none
      then some (record {
        channel = channel;
        compressor = Compressor.none;
        uncompressed_size = u32 (length bytes - 2);
        serialized_message = drop 2 bytes;
      })
      else (if leb compressor_min compressor && leb compressor compressor_max
          then (do
            a ← get_elem? bytes 2
            b ← get_elem? bytes 3
            c ← get_elem? bytes 4
            d ← get_elem? bytes 5
            some (record {
              channel = channel;
              compressor = compressor_of_value compressor;
              uncompressed_size = of_le32 a b c d;
              serialized_message = drop 6 bytes;
            }))
          else some (record {
            channel = channel;
            compressor = Compressor.none;
            uncompressed_size = 0;
            serialized_message = [];
          }))

abbrev combined : ℕ → Compressor → ℕ → List ℕ → List ℕ
combined channel Compressor.none size buffer = channel ∷ compressor_value Compressor.none ∷ buffer
combined channel Compressor.lz4_default size buffer =
    channel ∷ compressor_value Compressor.lz4_default ∷ (le32 size ++ buffer)
combined channel Compressor.lz4_hc size buffer =
    channel ∷ compressor_value Compressor.lz4_hc ∷ (le32 size ++ buffer)
combined channel Compressor.zlib size buffer =
    channel ∷ compressor_value Compressor.zlib ∷ (le32 size ++ buffer)

-- `RclMessage::getCombinedVector`.
unfoldable pub get_combined_vector : RclMessage → List ℕ
unfolding compressor_value
get_combined_vector m = combined m.channel m.compressor m.uncompressed_size m.serialized_message

-- `RclMessage::store`.
unfoldable pub store : RclMessage → List ℕ → RclMessage
store m bytes = record m { serialized_message = bytes }

-- A `std::string` made from a `char *`: the bytes up to the first zero byte.
unfoldable pub c_string : List ℕ → Option (List ℕ)
c_string [] = none
c_string (b ∷ bytes) = if b == 0 then some [] else (c_string bytes >>= λ rest. some (b ∷ rest))

-- `RclMessage::toString`.
unfoldable pub to_string : RclMessage → Option (List ℕ)
unfolding c_string
to_string m = c_string m.serialized_message

-- `RclMessage::toSubscription`.
unfoldable pub to_subscription : RclMessage → Option (ℕ × Bool)
to_subscription m = do
  channel ← get_elem? m.serialized_message 0
  value ← get_elem? m.serialized_message 1
  some (channel, value == 1)
