-- ===== src/Config/Unique.antt =====
-- How often a channel occurs in the lists of src/global/globalConfig.hpp.
use mathlib.Core.Path.{subst}
use ros2_connect.Prelude.{
  ℕ, ◌+◌, ◌≤◌, ◌<◌, ◌≡◌, refl, ap, true, false, none, List, [], ◌∷◌, ◌++◌, map, ◌==◌, ==_iff,
  if◌then◌else◌, Bool-cases, inl, inr, arith,
}
use ros2_connect.Config.Types.{Topic, ServiceActionDefinition, find_topic}
use ros2_connect.Config.Profiles.{is_known}
use ros2_connect.Config.Topics.{has_channel}
use ros2_connect.Config.Services.{has_definition}
use ros2_connect.Config.Checked.{All, Distinct}
use ros2_connect.Subscriber.Notices.{IsUnique}

unfoldable pub occurrences : ℕ → List ℕ → ℕ
occurrences c [] = 0
occurrences c (x ∷ xs) = let rest = occurrences c xs in if x == c then rest + 1 else rest

pub occurrences-append :
    (c : ℕ) (xs ys : List ℕ) → occurrences c (xs ++ ys) ≡ occurrences c xs + occurrences c ys
unfolding occurrences
occurrences-append c [] ys = omega arith
occurrences-append c (x ∷ xs) ys = ground (arith, occurrences-append c xs ys)

occurrences-is_known : (c : ℕ) (xs : List ℕ) → is_known c xs ≡ false → occurrences c xs ≡ 0
unfolding occurrences is_known
occurrences-is_known c [] h = refl
occurrences-is_known c (x ∷ xs) h = ground (arith, occurrences-is_known c xs, h)

pub Distinct-occurrences : (c : ℕ) (xs : List ℕ) → Distinct xs → occurrences c xs ≤ 1
unfolding occurrences
Distinct-occurrences c [] h = omega arith
Distinct-occurrences c (x ∷ xs) h =
    let rest = Distinct-occurrences c xs h.1 in
    let none_left = occurrences-is_known x xs h.0 in
    elim (Bool-cases (x == c)) [
      | inl e ↦
          rw (e) (omega (arith, subst (λ k. occurrences k xs ≡ 0) ((==_iff x c).0 e) none_left))
      | inr e ↦ rw (e) rest
    ]

-- A list without the numbers of another one.
abbrev pub Avoids : List ℕ → List ℕ → Type 0
Avoids xs ys = All (λ y. is_known y xs ≡ false) ys

Avoids-occurrences :
    (c : ℕ) (xs ys : List ℕ) → Avoids xs ys → is_known c xs ≡ true → occurrences c ys ≡ 0
unfolding occurrences
Avoids-occurrences c xs [] h k = refl
Avoids-occurrences c xs (y ∷ ys) h k =
    let rest = Avoids-occurrences c xs ys h.1 k in
    elim (Bool-cases (y == c)) [
      | inl e ↦
          (let same = ap (λ j. is_known j xs) ((==_iff y c).0 e) in ground (arith, h.0, k, same))
      | inr e ↦ rw (e) rest
    ]

-- Two such lists have no number twice together.
pub occurrences-apart :
    (c : ℕ) (xs ys : List ℕ)
    → Distinct xs
    → Distinct ys
    → Avoids xs ys
    → occurrences c xs + occurrences c ys ≤ 1
occurrences-apart c xs ys dx dy h =
    let few = Distinct-occurrences c xs dx in
    let few_others = Distinct-occurrences c ys dy in
    elim (Bool-cases (is_known c xs)) [
      | inl e ↦ omega (arith, few, Avoids-occurrences c xs ys h e)
      | inr e ↦ omega (arith, few_others, occurrences-is_known c xs e)
    ]

-- Numbers below a bound, and a number from it on.
pub occurrences-below : (n c : ℕ) (xs : List ℕ) → All (λ x. x < n) xs → n ≤ c → occurrences c xs ≡ 0
unfolding occurrences
occurrences-below n c [] h b = refl
occurrences-below n c (x ∷ xs) h b =
    ground (arith, occurrences-below n c xs h.1 b, h.0, b, ==_iff x c)

pub All-map :
    {T : Type 0} (channel : T → ℕ) {P : T → Type 0} (Q : ℕ → Type 0) (ts : List T)
    → ((t : T) → P t → Q (channel t))
    → All P ts
    → All Q (map channel ts)
All-map channel Q [] f h = tt
All-map channel Q (t ∷ ts) f h = (f t h.0, All-map channel Q ts f h.1)

pub All-weaken :
    {T : Type 0} {P Q : T → Type 0} (ts : List T) → ((t : T) → P t → Q t) → All P ts → All Q ts
All-weaken [] f h = tt
All-weaken (t ∷ ts) f h = (f t h.0, All-weaken ts f h.1)

pub All-append :
    {T : Type 0} (P : T → Type 0) (xs ys : List T) → All P xs → All P ys → All P (xs ++ ys)
All-append P [] ys h k = k
All-append P (x ∷ xs) ys h k = (h.0, All-append P xs ys h.1 k)

pub map-append : {T : Type 0} (f : T → ℕ) (xs ys : List T) → map f (xs ++ ys) ≡ map f xs ++ map f ys
map-append f [] ys = refl
map-append f (x ∷ xs) ys = ap (◌∷◌ (f x)) (map-append f xs ys)

-- The tests of the parser, on the list of the channels.
pub has_channel-is_known :
    (c : ℕ) (ts : List Topic) → has_channel c ts ≡ is_known c (map (λ t. t.channel) ts)
unfolding has_channel is_known
has_channel-is_known c [] = refl
has_channel-is_known c (t ∷ ts) = rw (has_channel-is_known c ts) refl

pub has_definition-is_known :
    (c : ℕ) (ds : List ServiceActionDefinition)
    → has_definition c ds ≡ is_known c (map (λ d. d.channel) ds)
unfolding has_definition is_known
has_definition-is_known c [] = refl
has_definition-is_known c (d ∷ ds) = rw (has_definition-is_known c ds) refl

-- A channel that does not occur has no topic.
pub occurrences-find_topic :
    (c : ℕ) (ts : List Topic) → occurrences c (map (λ t. t.channel) ts) ≡ 0 → find_topic c ts ≡ none
unfolding occurrences find_topic
occurrences-find_topic c [] h = refl
occurrences-find_topic c (t ∷ ts) h = elim (Bool-cases (t.channel == c)) [
  | inl e ↦ (let more = h in ground (arith, more, e))
  | inr e ↦ rw (e) (occurrences-find_topic c ts (ground (arith, h, e)))
]

pub occurrences-IsUnique :
    (ts : List Topic) → ((c : ℕ) → occurrences c (map (λ t. t.channel) ts) ≤ 1) → IsUnique ts
unfolding occurrences
occurrences-IsUnique [] h = tt
occurrences-IsUnique (t ∷ ts) h = (
  occurrences-find_topic t.channel ts
      (let once = h t.channel in ground (arith, once, ==_iff t.channel t.channel)),
  occurrences-IsUnique ts (λ c. let few = h c in ground (arith, few)),
)
