-- ===== src/Message/Control.antt =====
-- The op-code messages SUBSCRIPTION, AUTHENTICATION and NOTIFICATION of vectorMessage.cpp, read
-- by the accessors of rclMessage.cpp.
use ros2_connect.Prelude.{
  ℕ, ◌+◌, ◌<◌, ◌≡◌, refl, ap, ◌∙◌, Bool, true, false, some, List, [], ◌∷◌, ◌++◌, length,
  length-append, u32, arith,
}
use ros2_connect.Message.Codes.{Compressor}
use ros2_connect.Message.Rcl.{RclMessage, from_flat_buffer, to_subscription, to_string, c_string}
use ros2_connect.Message.Vector.{
  for_op_code_subscription, for_op_code_authentication, for_op_code_notification,
  for_op_code_authentication-combined, for_op_code_notification-combined,
}
use ros2_connect.Message.Wire.{from_flat_buffer-plain}

-- A subscription notice is received as an uncompressed message on channel 250 with the topic's
-- channel and the value that the publisher's side wrote.
pub to_subscription-for_op_code_subscription :
    (channel : ℕ) (value : Bool)
    → (m : RclMessage) × (from_flat_buffer (for_op_code_subscription channel value).combined_vector
        ≡ some m)
      × (m.channel ≡ 250)
      × (m.compressor ≡ Compressor.none)
      × (to_subscription m ≡ some (channel, value))
unfolding for_op_code_subscription to_subscription
to_subscription-for_op_code_subscription channel true =
    (_, from_flat_buffer-plain 250 (channel ∷ 1 ∷ []), refl, refl, refl)
to_subscription-for_op_code_subscription channel false =
    (_, from_flat_buffer-plain 250 (channel ∷ 0 ∷ []), refl, refl, refl)

-- No byte of a text is zero.
abbrev pub IsText : List ℕ → Type 0
IsText [] = Unit
IsText (b ∷ bytes) = (0 < b) × IsText bytes

c_string-append : (text rest : List ℕ) → IsText text → c_string (text ++ 0 ∷ rest) ≡ some text
unfolding c_string
c_string-append [] rest h = refl
c_string-append (b ∷ text) rest h = ground (arith, c_string-append text rest h.1)

-- A user key, or an end time, without zero bytes is read back by `toString` exactly.
pub to_string-for_op_code_authentication :
    (value : List ℕ)
    → IsText value
    → (m : RclMessage) × (from_flat_buffer (for_op_code_authentication value).combined_vector
        ≡ some m)
      × (m.channel ≡ 255)
      × (to_string m ≡ some value)
to_string-for_op_code_authentication value h = (
  _,
  ap from_flat_buffer (for_op_code_authentication-combined value)
      ∙ from_flat_buffer-plain 255 (value ++ 0 ∷ 0 ∷ []),
  refl,
  unfold to_string in c_string-append value (0 ∷ []) h,
)

-- The text of a notification without zero bytes is read back by `toString` exactly.
pub to_string-for_op_code_notification :
    (text : List ℕ)
    → IsText text
    → (m : RclMessage) × (from_flat_buffer (for_op_code_notification text).combined_vector ≡ some m)
      × (m.channel ≡ 249)
      × (to_string m ≡ some text)
to_string-for_op_code_notification text h = (
  _,
  ap from_flat_buffer (for_op_code_notification-combined text)
      ∙ from_flat_buffer-plain 249 (text ++ 0 ∷ 0 ∷ []),
  refl,
  unfold to_string in c_string-append text (0 ∷ []) h,
)

-- An authentication message with a text that fits announces one byte less than it carries: the
-- vector is allocated with the closing zero byte, and another one is appended.
pub for_op_code_authentication-size :
    (value : List ℕ)
    → length value + 1 < 4294967296
    → length (for_op_code_authentication value).combined_vector
      ≡ 2 + (for_op_code_authentication value).uncompressed_size + 1
for_op_code_authentication-size value h =
    let announced : (for_op_code_authentication value).uncompressed_size ≡ u32 (length value + 1) =
      unfold for_op_code_authentication in refl in
    rw (for_op_code_authentication-combined value, announced)
      (omega (arith, length-append value (0 ∷ 0 ∷ [])))
