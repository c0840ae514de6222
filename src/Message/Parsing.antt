-- ===== src/Message/Parsing.antt =====
-- ServiceActionMessage::fromMessage: what it rejects, and that the windows of what it accepts lie
-- in the vector.
use ros2_connect.Prelude.{ℕ, suc, ◌+◌, ◌≡◌, some, List, length, arith}
use ros2_connect.Message.Codes.{Compressor, lz4_default, lz4_hc, zlib}
use ros2_connect.Message.ServiceAction.{
  ServiceActionMessage, from_message, parse_header, construct, gid_size_offset,
}

-- The goal id follows the header, the data follow the goal id, and end where the vector ends.
abbrev pub IsWithin : ServiceActionMessage → Type 0
IsWithin m =
    (m.gid.offset ≡ suc (gid_size_offset m.compressor))
    × (m.span.offset ≡ m.gid.offset + m.gid.size)
    × (m.span.offset + m.span.size ≡ length m.combined_vector)

-- An accepted message keeps the received vector, channel and compressor, and its windows for the
-- goal id and the data lie in that vector and cover all of it behind the header.
pub from_message-IsWithin :
    (channel : ℕ) (z : Compressor) (n : ℕ) (v : List ℕ) {m : ServiceActionMessage}
    → from_message channel z n v ≡ some m
    → IsWithin m × (m.combined_vector ≡ v) × (m.channel ≡ channel) × (m.compressor ≡ z)
unfolding from_message parse_header construct
from_message-IsWithin channel Compressor.none n v h = ground arith
from_message-IsWithin channel lz4_default n v h = ground arith
from_message-IsWithin channel lz4_hc n v h = ground arith
from_message-IsWithin channel zlib n v h = ground arith
