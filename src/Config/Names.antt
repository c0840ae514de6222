-- ===== src/Config/Names.antt =====
-- Which names src/common/enumParser.hpp reads, and as what.
use Prim.Native.String.{String}
use text.Mathlib.TextEquality.{eq_iff}
use ros2_connect.Prelude.{◌≡◌, refl, ap, ◌∙◌, Bool, true, if◌then◌else◌, ◌↔◌, none, some, arith}
use ros2_connect.Message.Codes.{Compressor, lz4_default, lz4_hc, zlib}
use ros2_connect.Config.EnumParser.{compressor}

-- The name of a compressor in a configuration.
abbrev pub compressor_name : Compressor → String
compressor_name Compressor.none = "NONE"
compressor_name lz4_default = "LZ4_DEFAULT"
compressor_name lz4_hc = "LZ4_HC"
compressor_name zlib = "ZLIB"

-- What the chain of tests says of the test that succeeds.
abbrev chosen : Compressor → Bool → Bool → Bool → Bool → Bool
chosen Compressor.none a b d e = a
chosen lz4_default a b d e = b
chosen lz4_hc a b d e = d
chosen zlib a b d e = e

chain :
    (c : Compressor) (a b d e : Bool)
    → (if a
        then some Compressor.none
        else if b
        then some lz4_default
        else if d
        then some lz4_hc
        else if e
        then some zlib
        else none)
      ≡ some c
    → chosen c a b d e ≡ true
chain c a b d e h = ground arith

compressor-known : (c : Compressor) → compressor (compressor_name c) ≡ some c
unfolding compressor
compressor-known Compressor.none = refl
compressor-known lz4_default = refl
compressor-known lz4_hc = refl
compressor-known zlib = refl

compressor-read : (s : String) (c : Compressor) → compressor s ≡ some c → s ≡ compressor_name c
unfolding compressor
compressor-read s Compressor.none h = (eq_iff s "NONE").0 (chain Compressor.none _ _ _ _ h)
compressor-read s lz4_default h = (eq_iff s "LZ4_DEFAULT").0 (chain lz4_default _ _ _ _ h)
compressor-read s lz4_hc h = (eq_iff s "LZ4_HC").0 (chain lz4_hc _ _ _ _ h)
compressor-read s zlib h = (eq_iff s "ZLIB").0 (chain zlib _ _ _ _ h)

-- A text is read as a compressor exactly if it is that compressor's name.
pub compressor-compressor_name :
    (s : String) (c : Compressor) → (compressor s ≡ some c) ↔ (s ≡ compressor_name c)
compressor-compressor_name s c = (compressor-read s c, (λ e. ap compressor e ∙ compressor-known c))
