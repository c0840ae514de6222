-- ===== src/Publisher/Watch.antt =====
-- When the other side is told that a topic has, or no longer has, a subscriber
-- (src/publisher/publisherBase.hpp).
use ros2_connect.Prelude.{
  ℕ, ◌+◌, ◌≤◌, ◌<◌, ◌≡◌, refl, ◌⊎◌, inl, inr, Bool, true, false, not, Option, none, some, List, [],
  ◌∷◌, ◌++◌, arith,
}
use ros2_connect.Config.Types.{Topic}
use ros2_connect.Publisher.Publishing.{Publisher, new, test_for_subscriber, ten_seconds}

-- An observation is a number of subscriptions and a time; the latest stands first.
abbrev pub History : Type 0
History = List (ℕ × ℕ)

-- The publisher after a history of calls of `testForSubscriber`.
unfoldable pub watched : Topic → History → Publisher
watched t [] = new t
watched t ((n, now) ∷ older) = (test_for_subscriber n now (watched t older)).0

-- The notice of the last call.
unfoldable pub notice_at : Topic → ℕ → ℕ → History → Option Bool
notice_at t n now older = (test_for_subscriber n now (watched t older)).1

-- Since the time `g` no subscription was seen.
abbrev pub QuietSince : ℕ → History → Type 0
QuietSince g [] = ⊥
QuietSince g ((n, now) ∷ older) = (n ≡ 0) × ((now ≡ g) ⊎ QuietSince g older)

-- One call, where `Q` stands for what is known of the time at which the subscribers went away.
test-quiet :
    (n now : ℕ) (p : Publisher) (Q : ℕ → Type 0)
    → (p.has_subscriber ≡ true
        → 0 < p.subscriber_gone_away_time_point
        → Q p.subscriber_gone_away_time_point)
    → let q = (test_for_subscriber n now p).0 in
      q.has_subscriber ≡ true
      → 0 < q.subscriber_gone_away_time_point
      → (n ≡ 0) × ((now ≡ q.subscriber_gone_away_time_point) ⊎ Q q.subscriber_gone_away_time_point)
unfolding test_for_subscriber
test-quiet n now p Q known h l = ground arith

gone-QuietSince :
    (t : Topic) (h : History)
    → (watched t h).has_subscriber ≡ true
    → 0 < (watched t h).subscriber_gone_away_time_point
    → QuietSince (watched t h).subscriber_gone_away_time_point h
unfolding watched new
gone-QuietSince t [] e l = cc
gone-QuietSince t ((n, now) ∷ older) e l =
    test-quiet n now (watched t older) (λ g. QuietSince g older) (gone-QuietSince t older) e l

test-false :
    (n now : ℕ) (p : Publisher)
    → (test_for_subscriber n now p).1 ≡ some false
    → (n ≡ 0)
      × (p.has_subscriber ≡ true)
      × (0 < p.subscriber_gone_away_time_point)
      × (p.subscriber_gone_away_time_point + ten_seconds ≤ now)
unfolding test_for_subscriber
test-false n now p h = ground arith

-- The other side is told that the subscribers are gone only if no subscription was seen from some
-- time on that lies at least ten seconds back, up to now.
pub notice_at-false :
    (t : Topic) (n now : ℕ) (older : History)
    → notice_at t n now older ≡ some false
    → (g : ℕ) × QuietSince g ((n, now) ∷ older) × (g + ten_seconds ≤ now)
unfolding notice_at
notice_at-false t n now older h =
    let f = test-false n now (watched t older) h in
    (
      (watched t older).subscriber_gone_away_time_point,
      (f.0, inr (gone-QuietSince t older f.1 f.2)),
      f.3,
    )

abbrev add : List Bool → Option Bool → List Bool
add bs none = bs
add bs (some b) = bs ++ b ∷ []

-- The notices of a history, the first one first.
unfoldable pub notices_of : Topic → History → List Bool
unfolding notice_at
notices_of t [] = []
notices_of t ((n, now) ∷ older) = add (notices_of t older) (notice_at t n now older)

-- Every notice changes what the other side was told: `true` and `false` alternate.
abbrev pub Alternates : Bool → List Bool → Type 0
Alternates b [] = Unit
Alternates b (c ∷ cs) = (c ≡ not b) × Alternates c cs

-- The last of the notices, and what holds before the first.
abbrev pub last_of : Bool → List Bool → Bool
last_of b [] = b
last_of b (c ∷ cs) = last_of c cs

last_of-snoc : (b c : Bool) (cs : List Bool) → last_of b (cs ++ c ∷ []) ≡ c
last_of-snoc b c [] = refl
last_of-snoc b c (d ∷ cs) = last_of-snoc d c cs

Alternates-snoc :
    (b c : Bool) (cs : List Bool)
    → Alternates b cs
    → c ≡ not (last_of b cs)
    → Alternates b (cs ++ c ∷ [])
Alternates-snoc b c [] h e = (e, tt)
Alternates-snoc b c (d ∷ cs) h e = (h.0, Alternates-snoc d c cs h.1 e)

test-notice :
    (n now : ℕ) (p : Publisher)
    → let r = test_for_subscriber n now p in
      ((r.1 ≡ none) × (r.0.has_subscriber ≡ p.has_subscriber))
      ⊎ ((r.1 ≡ some (not p.has_subscriber)) × (r.0.has_subscriber ≡ not p.has_subscriber))
unfolding test_for_subscriber
test-notice n now p = ground arith

-- Over any history of observations the notices alternate, the first one saying that there is a
-- subscriber, and the last one says what the publisher believes.
pub notices_of-Alternates :
    (t : Topic) (h : History)
    → Alternates false (notices_of t h)
      × (last_of false (notices_of t h) ≡ (watched t h).has_subscriber)
unfolding notices_of watched notice_at
notices_of-Alternates t [] = (tt, unfold new in refl)
notices_of-Alternates t ((n, now) ∷ older) =
    let ih = notices_of-Alternates t older in
    elim (test-notice n now (watched t older)) [
      | inl (quiet, same) ↦ rw (quiet, same) ih
      | inr (told, changed) ↦
          rw (told, changed)
            (
              Alternates-snoc false _ (notices_of t older) ih.0 (rw ih.1),
              last_of-snoc false _ (notices_of t older),
            )
    ]
