-- ===== src/Prelude/Bytes.antt =====
-- Byte vectors: windows, in-place copies, and the little-endian 32-bit number of the headers.
use Prim.Native.Nat.{ℕ, ◌+◌, ◌-◌, ◌*◌, ◌/◌, ◌%◌, ◌^◌, ◌≤◌, ◌<◌}
use mathlib.Core.Path.{◌≡◌, ap, ◌∙◌}
use mathlib.Core.List.{List, [], ◌∷◌, ◌++◌}
use mathlib.Core.List.{append-nil, append_assoc}
use native.Mathlib.Nat.{sub_self, zero-add}
use native.Mathlib.Omega.{arith}
use ros2_connect.Prelude.Lists.{
  length, take, drop, replicate, take-length-append, drop-length-append, take_all, length-append,
  length-take, length-replicate, drop-drop, drop-replicate, drop_all, take-take-append,
}

-- `static_cast<uint8_t>(n)`.
abbrev pub u8 : ℕ → ℕ
u8 n = n % 256

-- `static_cast<uint32_t>(n)`.
abbrev pub u32 : ℕ → ℕ
u32 n = n % 2 ^ 32

-- The bytes of a window that starts at `off` and is `n` long.
abbrev pub slice : ℕ → ℕ → List ℕ → List ℕ
slice off n xs = take n (drop off xs)

-- `std::memcpy(v.data() + off, xs.data(), xs.size())`.
abbrev pub overwrite : ℕ → List ℕ → List ℕ → List ℕ
overwrite off xs v = take off v ++ (xs ++ drop (off + length xs) v)

-- `v.resize(n)`: the new bytes are zero.
abbrev pub resize : ℕ → List ℕ → List ℕ
resize n v = take n v ++ replicate (n - length v) 0

-- The four bytes of a `uint32_t`, the lowest first.
abbrev pub le32 : ℕ → List ℕ
le32 n = u8 n ∷ u8 (n / 2 ^ 8) ∷ u8 (n / 2 ^ 16) ∷ u8 (n / 2 ^ 24) ∷ []

-- Four bytes combined by shifts and `|`, which for bytes is a sum.
abbrev pub of_le32 : ℕ → ℕ → ℕ → ℕ → ℕ
of_le32 a b c d = u32 (a + b * 2 ^ 8 + c * 2 ^ 16 + d * 2 ^ 24)

pub of_le32-le32 :
    (n : ℕ) → n < 2 ^ 32 → of_le32 (u8 n) (u8 (n / 2 ^ 8)) (u8 (n / 2 ^ 16)) (u8 (n / 2 ^ 24)) ≡ n
of_le32-le32 n h = omega arith

-- The window behind a prefix of known length.
pub drop-prefix : (n : ℕ) (xs ys : List ℕ) → length xs ≡ n → drop n (xs ++ ys) ≡ ys
drop-prefix n xs ys h = rw (← h) (drop-length-append xs ys)

pub slice-prefix : (n : ℕ) (xs ys : List ℕ) → length xs ≡ n → take n (xs ++ ys) ≡ xs
slice-prefix n xs ys h = rw (← h) (take-length-append xs ys)

pub length-resize : (n : ℕ) (v : List ℕ) → length (resize n v) ≡ n
length-resize n v = omega (
  arith,
  length-append (take n v) (replicate (n - length v) 0),
  length-take n v,
  length-replicate {A = ℕ} (n - length v) 0,
)

pub resize_self : (v : List ℕ) → resize (length v) v ≡ v
resize_self v = rw (take_all (length v) v (omega arith), sub_self (length v)) (append-nil v)

-- A copy to the end of what is written, into zero bytes.
pub overwrite-fill :
    (n : ℕ) (h xs : List ℕ) (k : ℕ)
    → length h ≡ n
    → overwrite n xs (h ++ replicate (length xs + k) 0) ≡ h ++ (xs ++ replicate k 0)
overwrite-fill n h xs k e = rw (
  ← e,
  take-length-append h _,
  ← drop-drop (length h) (length xs) _,
  drop-length-append h _,
  drop-replicate {A = ℕ} (length xs) k 0,
)

-- A header and two parts written one after the other into a fresh vector of their size.
pub overwrite-parts :
    (n : ℕ) (h xs ys : List ℕ)
    → length h ≡ n
    → overwrite
        (n + length xs)
        ys
        (overwrite n xs (overwrite 0 h (replicate (n + length xs + length ys) 0)))
      ≡ h ++ (xs ++ ys)
overwrite-parts n h xs ys e = rw (header, overwrite-fill n h xs _ e) last
  where
    size : n + length xs + length ys ≡ length h + (length xs + (length ys + 0))
    size = omega (arith, e)

    header :
        overwrite 0 h (replicate (n + length xs + length ys) 0)
        ≡ h ++ replicate (length xs + (length ys + 0)) 0
    header = rw (size, zero-add, drop-replicate {A = ℕ} (length h) (length xs + (length ys + 0)) 0)

    last : overwrite (n + length xs) ys (h ++ (xs ++ replicate (length ys + 0) 0)) ≡ h ++ (xs ++ ys)
    last =
        rw
          (
            ← append_assoc h xs (replicate (length ys + 0) 0),
            overwrite-fill (n + length xs) (h ++ xs) ys 0 (omega (arith, e, length-append h xs)),
          )
          (append_assoc h xs _ ∙ ap (λ t. h ++ (xs ++ t)) (append-nil ys))

-- A copy to the end of a resized vector keeps what stands before it.
pub overwrite-resize :
    (n k : ℕ) (xs v : List ℕ)
    → k ≡ n + length xs
    → n ≤ length v
    → overwrite n xs (resize k v) ≡ take n v ++ xs
overwrite-resize n k xs v e h = rw (front, back) (ap (◌++◌ (take n v)) (append-nil xs))
  where
    front : take n (resize k v) ≡ take n v
    front = take-take-append n k v _ (omega (arith, e)) h

    back : drop (n + length xs) (resize k v) ≡ []
    back = drop_all (n + length xs) (resize k v) (omega (arith, length-resize k v))

-- The same where the vector starts with a header and a part that stay.
pub overwrite-tail :
    (n k : ℕ) (h gid payload z : List ℕ)
    → length h ≡ n
    → k ≡ n + length payload + length gid
    → overwrite (n + length gid) payload (resize k (h ++ (gid ++ z))) ≡ h ++ (gid ++ payload)
overwrite-tail n k h gid payload z e f =
    overwrite-resize (n + length gid) k payload _ (omega (arith, f)) room
    ∙ rw
        (
          ← append_assoc h gid z,
          slice-prefix (n + length gid) (h ++ gid) z (omega (arith, e, length-append h gid)),
        )
        (append_assoc h gid payload)
  where
    room : n + length gid ≤ length (h ++ (gid ++ z))
    room = omega (arith, e, length-append h (gid ++ z), length-append gid z)
