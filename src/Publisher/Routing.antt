-- ===== src/Publisher/Routing.antt =====
-- PublisherManager::run gives every publisher its messages in the order of arrival
-- (src/publisher/publisherManager.cpp).
use ros2_connect.Prelude.{
  ℕ, ◌≡◌, refl, ap, ◌∙◌, Bool, true, false, Option, none, some, List, [], ◌∷◌, ◌++◌, ◌==◌,
  if◌then◌else◌, lookup, lookup-update, map_option, nat_key, inl, inr, ap, Option-cases,
}
use mathlib.Core.List.{append_assoc, append-nil}
use ros2_connect.Message.Rcl.{RclMessage}
use ros2_connect.Publisher.Publishing.{Publisher, enqueue}
use ros2_connect.Publisher.Manager.{PublisherManager, publish_to, route}

-- The manager's loop over messages that were taken from its queue.
unfoldable pub route_all : Bool → List RclMessage → PublisherManager → PublisherManager
unfolding route
route_all ok [] s = s
route_all ok (m ∷ ms) s = route_all ok ms (route ok m s)

-- The messages of one channel.
unfoldable pub of_channel : ℕ → List RclMessage → List RclMessage
of_channel c [] = []
of_channel c (m ∷ ms) = let r = of_channel c ms in if m.channel == c then m ∷ r else r

-- What one publisher does with messages, one after the other.
unfoldable pub publish_all : Bool → List RclMessage → Publisher → Publisher
unfolding publish_to
publish_all ok [] p = p
publish_all ok (m ∷ ms) p = publish_all ok ms (publish_to ok m p)

route-stopping :
    (ok : Bool) (m : RclMessage) (s : PublisherManager)
    → s.stopping ≡ false
    → (route ok m s).stopping ≡ false
unfolding route
route-stopping ok m s h = rw (h) refl

route-lookup :
    (ok : Bool) (m : RclMessage) (s : PublisherManager) (c : ℕ)
    → s.stopping ≡ false
    → lookup c (route ok m s).publishers ≡ (
        if m.channel == c
        then map_option (publish_to ok m) (lookup c s.publishers)
        else lookup c s.publishers)
unfolding route
route-lookup ok m s c h = rw (h) (lookup-update m.channel c (publish_to ok m) s.publishers)

publish_all-if :
    (ok : Bool) (m : RclMessage) (ms : List RclMessage) (b : Bool) (o : Option Publisher)
    → map_option (publish_all ok ms) (if b then map_option (publish_to ok m) o else o)
      ≡ map_option (publish_all ok (if b then m ∷ ms else ms)) o
unfolding publish_all
publish_all-if ok m ms true none = refl
publish_all-if ok m ms true (some p) = refl
publish_all-if ok m ms false none = refl
publish_all-if ok m ms false (some p) = refl

-- A running manager gives the publisher of a channel exactly the messages with that channel, in
-- their order; messages of other channels, known or not, do not touch it.
pub route_all-lookup :
    (ok : Bool) (ms : List RclMessage) (s : PublisherManager) (c : ℕ)
    → s.stopping ≡ false
    → lookup c (route_all ok ms s).publishers
      ≡ map_option (publish_all ok (of_channel c ms)) (lookup c s.publishers)
unfolding route_all of_channel publish_all
route_all-lookup ok [] s c h = elim (Option-cases (lookup c s.publishers)) [
  | inl e ↦ rw (e) refl
  | inr (v, e) ↦ rw (e) refl
]
route_all-lookup ok (m ∷ ms) s c h =
    route_all-lookup ok ms (route ok m s) c (route-stopping ok m s h)
    ∙ rw (route-lookup ok m s c h)
        (publish_all-if ok m (of_channel c ms) (m.channel == c) (lookup c s.publishers))

publish_to-threaded :
    (ok : Bool) (m : RclMessage) (p : Publisher)
    → p.topic.use_own_thread ≡ true
    → publish_to ok m p ≡ enqueue m p
unfolding publish_to
publish_to-threaded ok m p h = rw (h) refl

-- A ThreadedPublisher only queues them, so its queue grows by them.
publish_all-threaded :
    (ok : Bool) (ms : List RclMessage) (p : Publisher)
    → p.topic.use_own_thread ≡ true
    → publish_all ok ms p ≡ record p { to_publish = p.to_publish ++ ms }
unfolding publish_all publish_to enqueue
publish_all-threaded ok [] p h = rw (append-nil p.to_publish)
publish_all-threaded ok (m ∷ ms) p h = rw (publish_to-threaded ok m p h) (
    publish_all-threaded ok ms (enqueue m p) (unfold enqueue in h)
    ∙ unfold enqueue in rw (append_assoc p.to_publish (m ∷ []) ms) refl)

-- A running manager puts all messages of the channel of a ThreadedPublisher, and no others, behind
-- those that wait in its queue, in the order in which they were received.
pub route_all-threaded :
    (ok : Bool) (ms : List RclMessage) (s : PublisherManager) (c : ℕ) (p : Publisher)
    → s.stopping ≡ false
    → lookup c s.publishers ≡ some p
    → p.topic.use_own_thread ≡ true
    → lookup c (route_all ok ms s).publishers
      ≡ some (record p { to_publish = p.to_publish ++ of_channel c ms })
route_all-threaded ok ms s c p h e k =
    route_all-lookup ok ms s c h ∙ rw (e) (ap some (publish_all-threaded ok (of_channel c ms) p k))
