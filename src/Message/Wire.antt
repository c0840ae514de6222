-- ===== src/Message/Wire.antt =====
-- What the bytes of a combined vector say to the receiver (rclMessage.cpp).
use ros2_connect.Prelude.{
  ℕ, ◌^◌, ◌<◌, ◌≤◌, ◌≡◌, refl, ap, ◌∙◌, none, some, List, [], ◌∷◌, ◌++◌, length, u32, le32,
  of_le32-le32, arith, ◌≢◌, ◌↔◌,
}
use ros2_connect.Message.Codes.{Compressor, compressor_value, compressor_of_value}
use ros2_connect.Message.Rcl.{RclMessage, from_flat_buffer, get_combined_vector}

pub from_flat_buffer-plain :
    (channel : ℕ) (body : List ℕ)
    → from_flat_buffer (channel ∷ 0 ∷ body)
      ≡ some (record {
        channel = channel;
        compressor = Compressor.none;
        uncompressed_size = u32 (length body);
        serialized_message = body;
      })
unfolding from_flat_buffer compressor_value
from_flat_buffer-plain channel body = ground arith

pub from_flat_buffer-frame :
    (channel : ℕ) (c : Compressor) (n : ℕ) (body : List ℕ)
    → c ≢ Compressor.none
    → n < 2 ^ 32
    → from_flat_buffer (channel ∷ compressor_value c ∷ (le32 n ++ body))
      ≡ some (record {
        channel = channel;
        compressor = c;
        uncompressed_size = n;
        serialized_message = body;
      })
unfolding from_flat_buffer compressor_value compressor_of_value
from_flat_buffer-frame channel Compressor.none n body h l = absurd (h refl)
from_flat_buffer-frame channel Compressor.lz4_default n body h l = rw (of_le32-le32 n l)
from_flat_buffer-frame channel Compressor.lz4_hc n body h l = rw (of_le32-le32 n l)
from_flat_buffer-frame channel Compressor.zlib n body h l = rw (of_le32-le32 n l)

-- The size fields of a message that came from a sender.
pub record IsSized (m : RclMessage) : Type 0 where
  pub fits : m.uncompressed_size < 2 ^ 32
  pub exact : m.compressor ≡ Compressor.none → m.uncompressed_size ≡ length m.serialized_message

from_flat_buffer-combined :
    (channel : ℕ) (c : Compressor) (n : ℕ) (body : List ℕ)
    → n < 2 ^ 32
    → (c ≡ Compressor.none → n ≡ length body)
    → let m : RclMessage = record {
      channel = channel;
      compressor = c;
      uncompressed_size = n;
      serialized_message = body;
    } in
      from_flat_buffer (get_combined_vector m) ≡ some m
unfolding get_combined_vector
from_flat_buffer-combined channel Compressor.none n body l e =
    let same : u32 (length body) ≡ n = omega (arith, e refl) in
    from_flat_buffer-plain channel body
    ∙ ap
        (λ (k : ℕ). some (record {
          channel = channel;
          compressor = Compressor.none;
          uncompressed_size = k;
          serialized_message = body;
        }))
        same
from_flat_buffer-combined channel Compressor.lz4_default n body l e =
    from_flat_buffer-frame channel Compressor.lz4_default n body (λ e. cc) l
from_flat_buffer-combined channel Compressor.lz4_hc n body l e =
    from_flat_buffer-frame channel Compressor.lz4_hc n body (λ e. cc) l
from_flat_buffer-combined channel Compressor.zlib n body l e =
    from_flat_buffer-frame channel Compressor.zlib n body (λ e. cc) l

-- Parsing the combined vector of a message whose size fields are right gives the message back:
-- every compressor, every channel and every content.
pub from_flat_buffer-get_combined_vector :
    (m : RclMessage) → IsSized m → from_flat_buffer (get_combined_vector m) ≡ some m
from_flat_buffer-get_combined_vector m s =
    from_flat_buffer-combined m.channel m.compressor m.uncompressed_size m.serialized_message s.fits
      s.exact

-- Fewer bytes than the header that the compressor byte announces.
abbrev pub IsTruncated : List ℕ → Type 0
IsTruncated [] = Unit
IsTruncated (a ∷ []) = Unit
IsTruncated (a ∷ c ∷ rest) = (0 < c) × (c ≤ 3) × (length rest < 4)

-- Parsing reads behind the end of the received bytes exactly when there are fewer than two
-- bytes, or fewer than six where the second byte is a compressor other than NONE.
pub from_flat_buffer-fault : (bytes : List ℕ) → (from_flat_buffer bytes ≡ none) ↔ IsTruncated bytes
unfolding from_flat_buffer compressor_value
from_flat_buffer-fault [] = ((λ h. tt), (λ h. refl))
from_flat_buffer-fault (a ∷ []) = ((λ h. tt), (λ h. refl))
from_flat_buffer-fault (a ∷ c ∷ []) = ground arith
from_flat_buffer-fault (a ∷ c ∷ d ∷ []) = ground arith
from_flat_buffer-fault (a ∷ c ∷ d ∷ e ∷ []) = ground arith
from_flat_buffer-fault (a ∷ c ∷ d ∷ e ∷ f ∷ []) = ground arith
from_flat_buffer-fault (a ∷ c ∷ d ∷ e ∷ f ∷ g ∷ rest) = ground arith
