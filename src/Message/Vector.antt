-- ===== src/Message/Vector.antt =====
-- src/message/vectorMessage.hpp and vectorMessage.cpp: a message to send, kept as its combined
-- vector (channel, compressor, for a compressed message the uncompressed size, then the data).
use ros2_connect.Prelude.{
  ℕ, suc, ◌+◌, ◌-◌, ◌≡◌, ap, ◌∙◌, arith, Bool, Option, List, [], ◌∷◌, ◌++◌, length, set, drop,
  replicate, get_elem?, ◌==◌, if◌then◌else◌, ◌>>=◌, some, u32, overwrite, resize, drop-replicate,
}
use mathlib.Core.List.{append-nil, append_assoc}
use native.Mathlib.Nat.{zero-add, suc-add}
use ros2_connect.Message.Codes.{
  Compressor, compressor_value, op_code_value, subscription, authentication, notification,
}

pub record VectorMessage : Type 0 where
  pub channel : ℕ
  pub compressor : Compressor
  pub uncompressed_size : ℕ
  pub combined_vector : List ℕ

-- A vector of `size` zero bytes with the channel, the compressor NONE and a text written to it.
abbrev plain : ℕ → ℕ → List ℕ → List ℕ
plain size channel bytes =
    overwrite 2 bytes (set (set (replicate size 0) 0 channel) 1 (compressor_value Compressor.none))

-- `VectorMessage::fromSerializedMessage`.
unfoldable pub from_serialized_message : ℕ → List ℕ → VectorMessage
unfolding compressor_value
from_serialized_message channel buffer =
    let v = plain (2 + length buffer) channel buffer in
    record {
      channel = channel;
      compressor = Compressor.none;
      uncompressed_size = u32 (length v - 2);
      combined_vector = v;
    }

-- `VectorMessage::forOpCodeSubscription`.
unfoldable pub for_op_code_subscription : ℕ → Bool → VectorMessage
unfolding compressor_value op_code_value
for_op_code_subscription channel value = record {
  channel = op_code_value subscription;
  compressor = Compressor.none;
  uncompressed_size = 2;
  combined_vector = plain 4 (op_code_value subscription) (channel ∷ (if value then 1 else 0) ∷ []);
}

-- `VectorMessage::forOpCodeAuthentication`.
unfoldable pub for_op_code_authentication : List ℕ → VectorMessage
unfolding compressor_value op_code_value
for_op_code_authentication value = record {
  channel = op_code_value authentication;
  compressor = Compressor.none;
  uncompressed_size = u32 (length value + 1);
  combined_vector = plain (3 + length value) (op_code_value authentication) value ++ 0 ∷ [];
}

-- `VectorMessage::forOpCodeNotification`.
unfoldable pub for_op_code_notification : List ℕ → VectorMessage
unfolding compressor_value op_code_value
for_op_code_notification message = record {
  channel = op_code_value notification;
  compressor = Compressor.none;
  uncompressed_size = u32 (length message + 1);
  combined_vector = plain (3 + length message) (op_code_value notification) message ++ 0 ∷ [];
}

-- `VectorMessage::getCombinedVector`.
unfoldable pub get_combined_vector : VectorMessage → List ℕ
get_combined_vector m = m.combined_vector

-- Where the data start: `getSrc`, `getSrcSize` and `getSerializedMessage`.
abbrev pub src_offset : Compressor → ℕ
src_offset Compressor.none = 2
src_offset _ = 6

-- `VectorMessage::getSrc` with `getSrcSize`.
unfoldable pub get_src : VectorMessage → List ℕ
get_src m = drop (src_offset m.compressor) m.combined_vector

-- `VectorMessage::store`.
unfoldable pub store : VectorMessage → List ℕ → VectorMessage
unfolding compressor_value
store m bytes =
    let v =
      set (resize (2 + length bytes) m.combined_vector) 1 (compressor_value Compressor.none) in
    record m { combined_vector = overwrite 2 bytes v }

-- `VectorMessage::toSubscription`.
unfoldable pub to_subscription : VectorMessage → Option (ℕ × Bool)
to_subscription m = do
  channel ← get_elem? m.combined_vector 2
  value ← get_elem? m.combined_vector 3
  some (channel, value == 1)

plain_lem :
    (size k channel : ℕ) (bytes : List ℕ)
    → size ≡ suc (suc (length bytes + k))
    → plain size channel bytes ≡ channel ∷ 0 ∷ (bytes ++ replicate k 0)
unfolding compressor_value
plain_lem size k channel bytes h = rw h (ap (λ t. channel ∷ 0 ∷ (bytes ++ t)) rest)
  where
    rest : drop (2 + length bytes) (channel ∷ 0 ∷ replicate (length bytes + k) 0) ≡ replicate k 0
    rest = rw (suc-add, suc-add, zero-add) (drop-replicate (length bytes) k 0)

pub from_serialized_message-combined :
    (channel : ℕ) (buffer : List ℕ)
    → (from_serialized_message channel buffer).combined_vector ≡ channel ∷ 0 ∷ buffer
unfolding from_serialized_message
from_serialized_message-combined channel buffer =
    plain_lem (2 + length buffer) 0 channel buffer (omega arith)
    ∙ ap (λ t. channel ∷ 0 ∷ t) (append-nil buffer)

pub for_op_code_authentication-combined :
    (value : List ℕ)
    → (for_op_code_authentication value).combined_vector ≡ 255 ∷ 0 ∷ (value ++ 0 ∷ 0 ∷ [])
unfolding for_op_code_authentication
for_op_code_authentication-combined value =
    rw (plain_lem (3 + length value) 1 255 value (omega arith))
      (ap (λ t. 255 ∷ 0 ∷ t) (append_assoc value (0 ∷ []) (0 ∷ [])))

pub for_op_code_notification-combined :
    (message : List ℕ)
    → (for_op_code_notification message).combined_vector ≡ 249 ∷ 0 ∷ (message ++ 0 ∷ 0 ∷ [])
unfolding for_op_code_notification
for_op_code_notification-combined message =
    rw (plain_lem (3 + length message) 1 249 message (omega arith))
      (ap (λ t. 249 ∷ 0 ∷ t) (append_assoc message (0 ∷ []) (0 ∷ [])))
