-- ===== src/Prelude/Maps.antt =====
-- `std::map` as an association list, and the interface of its keys.
use Prim.Native.Nat.{ℕ, ◌≤◌}
use mathlib.Core.Path.{◌≡◌, refl}
use mathlib.Core.Logic.{◌↔◌}
use mathlib.Core.Bool.{Bool, true, false, ◌&&◌}
use mathlib.Core.Option.{Option, none, some}
use mathlib.Core.List.{List, [], ◌∷◌}
use native.Mathlib.Omega.{arith}
use ros2_connect.Prelude.Lists.{length}
use ros2_connect.Prelude.Tests.{◌==◌, ==_iff, if◌then◌else◌}

pub record Key (K : Type 0) : Type 0 where
  pub beq : K → K → Bool
  pub beq_iff : (a b : K) → (beq a b ≡ true) ↔ (a ≡ b)

instance abbrev pub nat_key : Key ℕ
nat_key = record { beq = ◌==◌; beq_iff = ==_iff }

abbrev pub bytes_beq : List ℕ → List ℕ → Bool
bytes_beq [] [] = true
bytes_beq [] (y ∷ ys) = false
bytes_beq (x ∷ xs) [] = false
bytes_beq (x ∷ xs) (y ∷ ys) = x == y && bytes_beq xs ys

pub bytes_beq_iff : (a b : List ℕ) → (bytes_beq a b ≡ true) ↔ (a ≡ b)
bytes_beq_iff [] [] = ((λ h. refl), (λ h. refl))
bytes_beq_iff [] (y ∷ ys) = ((λ h. cc), (λ h. cc))
bytes_beq_iff (x ∷ xs) [] = ((λ h. cc), (λ h. cc))
bytes_beq_iff (x ∷ xs) (y ∷ ys) =
    ((λ h. ground (arith, bytes_beq_iff xs ys)), (λ h. ground (arith, bytes_beq_iff xs ys)))

instance abbrev pub bytes_key : Key (List ℕ)
bytes_key = record { beq = bytes_beq; beq_iff = bytes_beq_iff }

module _ {ℓ} {V : Type ℓ} where
  abbrev pub or_else : Option V → V → Option V
  or_else none v = some v
  or_else (some w) v = some w

  abbrev pub map_option : (V → V) → Option V → Option V
  map_option f none = none
  map_option f (some v) = some (f v)

module _ {K : Type 0} ⦃e : Key K⦄ where
  module _ {ℓ} {V : Type ℓ} where
    -- `find`.
    unfoldable pub lookup : K → List (K × V) → Option V
    lookup k [] = none
    lookup k ((j, v) ∷ m) = if e.beq j k then some v else lookup k m

    -- `insert` keeps the entry of a key that is already there.
    unfoldable pub insert : K → V → List (K × V) → List (K × V)
    insert k v [] = (k, v) ∷ []
    insert k v ((j, w) ∷ m) = if e.beq j k then (j, w) ∷ m else (j, w) ∷ insert k v m

    unfoldable pub erase : K → List (K × V) → List (K × V)
    erase k [] = []
    erase k ((j, w) ∷ m) = if e.beq j k then erase k m else (j, w) ∷ erase k m

    -- A write through the pointer that the entry of `k` holds.
    unfoldable pub update : K → (V → V) → List (K × V) → List (K × V)
    update k f [] = []
    update k f ((j, w) ∷ m) = if e.beq j k then (j, f w) ∷ m else (j, w) ∷ update k f m

    pub lookup-insert :
        (k j : K) (v : V) (m : List (K × V))
        → lookup j (insert k v m) ≡ (if e.beq k j then or_else (lookup j m) v else lookup j m)
    unfolding lookup insert
    lookup-insert k j v [] = ground arith
    lookup-insert k j v ((i, w) ∷ m) =
        ground (arith, e.beq_iff k j, e.beq_iff i k, e.beq_iff i j, lookup-insert k j v m)

    pub lookup-erase :
        (k j : K) (m : List (K × V))
        → lookup j (erase k m) ≡ (if e.beq k j then none else lookup j m)
    unfolding lookup erase
    lookup-erase k j [] = ground arith
    lookup-erase k j ((i, w) ∷ m) =
        ground (arith, e.beq_iff k j, e.beq_iff i k, e.beq_iff i j, lookup-erase k j m)

    pub lookup-update :
        (k j : K) (f : V → V) (m : List (K × V))
        → lookup j (update k f m) ≡ (if e.beq k j then map_option f (lookup j m) else lookup j m)
    unfolding lookup update
    lookup-update k j f [] = ground arith
    lookup-update k j f ((i, w) ∷ m) =
        ground (arith, e.beq_iff k j, e.beq_iff i k, e.beq_iff i j, lookup-update k j f m)

    pub length-erase : (k : K) (m : List (K × V)) → length (erase k m) ≤ length m
    unfolding erase
    length-erase k [] = omega arith
    length-erase k ((j, v) ∷ m) = ground (arith, length-erase k m)
