-- ===== src/Config/Checked.antt =====
-- What holds of every value that a chain of checks lets through.
use mathlib.Core.Path.{subst}
use ros2_connect.Prelude.{
  ℕ, ◌≡◌, refl, ap, ◌∙◌, Bool, true, false, ◌||◌, Option, none, some, List, [], ◌∷◌, ◌++◌, map,
  ◌==◌, ==_iff, ◌>>=◌, ◌>>◌, guard, lookup, insert, nat_key, Bool-cases, inl, inr, arith,
}
use ros2_connect.Config.Profiles.{is_known, parse_profiles, parse_items}
use ros2_connect.Config.Json.{Document}

-- The result, if there is one, has a property.
pub data Each {A : Type 0} (P : A → Type 0) : Option A → Type 0 where
  nothing : Each P none
  just : {a : A} → P a → Each P (some a)

abbrev pub All {ℓ κ} : {A : Type ℓ} → (A → Type κ) → List A → Type κ
All P [] = Unit
All P (a ∷ as_) = P a × All P as_

-- The steps of such a chain.
pub Each-bind :
    {A B : Type 0} {P : B → Type 0} (o : Option A) {f : A → Option B}
    → ((a : A) → o ≡ some a → Each P (f a))
    → Each P (o >>= f)
Each-bind none h = nothing
Each-bind (some a) h = h a refl

pub Each-guard :
    {B : Type 0} {P : B → Type 0} (b : Bool) {o : Option B}
    → (b ≡ true → Each P o)
    → Each P (guard b >> o)
Each-guard true h = h refl
Each-guard false h = nothing

Each-just : {A : Type 0} {P : A → Type 0} {a : A} → Each P (some a) → P a
Each-just (just p) = p

-- A result that is there.
pub Each-at : {A : Type 0} {P : A → Type 0} {o : Option A} {a : A} → Each P o → o ≡ some a → P a
Each-at {P = P} h e = Each-just (subst (Each P) e h)

pub Each-weaken :
    {A : Type 0} {P Q : A → Type 0} {o : Option A} → ((a : A) → P a → Q a) → Each P o → Each Q o
Each-weaken w nothing = nothing
Each-weaken w (just p) = just (w _ p)

pub All-snoc :
    {A : Type 0} (P : A → Type 0) (xs : List A) (x : A) → All P xs → P x → All P (xs ++ x ∷ [])
All-snoc P [] x h p = (p, tt)
All-snoc P (y ∷ xs) x h p = (h.0, All-snoc P xs x h.1 p)

pub map-snoc :
    {A : Type 0} (f : A → ℕ) (xs : List A) (x : A) → map f (xs ++ x ∷ []) ≡ map f xs ++ f x ∷ []
map-snoc f [] x = refl
map-snoc f (y ∷ xs) x = ap (◌∷◌ (f y)) (map-snoc f xs x)

-- No number occurs twice.
abbrev pub Distinct : List ℕ → Type 0
Distinct [] = Unit
Distinct (c ∷ cs) = (is_known c cs ≡ false) × Distinct cs

pub is_known-append :
    (c : ℕ) (xs ys : List ℕ) → is_known c (xs ++ ys) ≡ (is_known c xs || is_known c ys)
unfolding is_known
is_known-append c [] ys = refl
is_known-append c (x ∷ xs) ys = ground (arith, is_known-append c xs ys)

not_known :
    (c x : ℕ) (xs : List ℕ)
    → is_known c (x ∷ xs) ≡ false
    → ((x == c) ≡ false) × (is_known c xs ≡ false)
unfolding is_known
not_known c x xs e = ground (arith, e)

pub Distinct-snoc :
    (xs : List ℕ) (c : ℕ) → Distinct xs → is_known c xs ≡ false → Distinct (xs ++ c ∷ [])
Distinct-snoc [] c h e = (unfold is_known in refl, tt)
Distinct-snoc (x ∷ xs) c h e =
    let (other, rest) = not_known c x xs e in
    (
      is_known-append x xs (c ∷ [])
          ∙ unfold is_known in ground (arith, h.0, ==_iff c x, ==_iff x c, other),
      Distinct-snoc xs c h.1 rest,
    )

module _ {T : Type 0} (channel : T → ℕ) (P : T → Type 0) (parse : List ℕ → Document → Option T)
    (can_create : T → Bool)
    (checked : (known : List ℕ) (d : Document)
      → Each (λ t. (is_known (channel t) known ≡ false) × P t) (parse known d)) where
  -- The items that a section of the configuration adds have distinct channels, and what every item
  -- was checked for.
  pub parse_items-Distinct :
      (ds : List Document) (known : List ℕ) (items : List T)
      → map channel items ≡ known
      → Distinct known
      → All P items
      → Each
          (λ r. Distinct (map channel r) × All P r)
          (parse_items channel parse can_create ds known items)
  unfolding parse_items
  parse_items-Distinct [] known items e h p = just (rw e h, p)
  parse_items-Distinct (d ∷ ds) known items e h p = Each-bind (parse known d) (λ t parsed.
      Each-guard (can_create t) (λ _.
        let (fresh, good) = Each-at (checked known d) parsed in
        parse_items-Distinct ds (known ++ channel t ∷ []) (items ++ t ∷ [])
          (map-snoc channel items t ∙ ap (λ ks. ks ++ channel t ∷ []) e)
          (Distinct-snoc known (channel t) h fresh) (All-snoc P items t p good)))

All-insert :
    {V : Type 0} (P : V → Type 0) (k : ℕ) (v : V) (m : List (ℕ × V))
    → All (λ r. P r.1) m
    → P v
    → All (λ r. P r.1) (insert k v m)
unfolding insert
All-insert P k v [] a p = (p, tt)
All-insert P k v ((j, w) ∷ m) a p = elim (Bool-cases (j == k)) [
  | inl e ↦ rw e a
  | inr e ↦ rw e (a.0, All-insert P k v m a.1 p)
]

pub lookup-All :
    {V : Type 0} (P : V → Type 0) (k : ℕ) (m : List (ℕ × V))
    → All (λ r. P r.1) m
    → Each P (lookup k m)
unfolding lookup
lookup-All P k [] a = nothing
lookup-All P k ((j, w) ∷ m) a = elim (Bool-cases (j == k)) [
  | inl e ↦ rw e (just a.0)
  | inr e ↦ rw e (lookup-All P k m a.1)
]

-- The values of a map that were checked.
pub parse_profiles-All :
    {V : Type 0} (P : V → Type 0) (parse : List ℕ → Document → Option (ℕ × V))
    → ((known : List ℕ) (d : Document) → Each (λ r. P r.1) (parse known d))
    → (ds : List Document) (known : List ℕ) (profiles : List (ℕ × V)) → All (λ r. P r.1) profiles
    → Each (All (λ r. P r.1)) (parse_profiles parse ds known profiles)
unfolding parse_profiles
parse_profiles-All P parse checked [] known profiles a = just a
parse_profiles-All P parse checked (d ∷ ds) known profiles a =
    Each-bind (parse known d) (λ r parsed.
      parse_profiles-All P parse checked ds (known ++ r.0 ∷ []) (insert r.0 r.1 profiles)
        (All-insert P r.0 r.1 profiles a (Each-at (checked known d) parsed)))
