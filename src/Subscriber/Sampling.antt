-- ===== src/Subscriber/Sampling.antt =====
-- src/subscriber/threadedSubscriber.cpp and sharedSubscriber.cpp: what a subscriber does with the
-- messages that rclcpp gives it.
use mathlib.Core.List.{append-nil, append_assoc}
use ros2_connect.Prelude.{
  ℕ, zero, suc, length, ◌≡◌, refl, sym, ap, ◌∙◌, Bool, true, false, List, [], ◌∷◌, ◌++◌, map,
  if◌then◌else◌,
}
use ros2_connect.Message.Codes.{is_compressor}
use ros2_connect.Message.Codec.{Codec}
use ros2_connect.Message.Vector.{VectorMessage, from_serialized_message}
use ros2_connect.Message.Base.{vector, get_combined_vector, get_compressed_combined_vector}
use ros2_connect.Config.Types.{Topic}

-- The fields of a ThreadedSubscriber, and the vectors that it gave to `connection.send`.
pub record Sampler : Type 0 where
  pub to_send : List VectorMessage
  pub stopping : Bool
  pub sent : List (List ℕ)

abbrev pub new : Sampler
new = record { to_send = []; stopping = false; sent = [] }

-- `ThreadedSubscriber::callback`, with the bytes of the serialized message.
unfoldable pub callback : Topic → List ℕ → Sampler → Sampler
unfolding from_serialized_message
callback t bytes s = record s {
  to_send = s.to_send ++ from_serialized_message t.channel bytes ∷ [];
}

-- The vector that is sent for a message.
unfoldable pub combined_vector : Codec → Topic → VectorMessage → List ℕ
unfolding get_combined_vector get_compressed_combined_vector
combined_vector codec t m =
    if is_compressor t.compression.compressor
    then get_compressed_combined_vector codec (vector m) t.compression
    else get_combined_vector (vector m)

-- An iteration of `ThreadedSubscriber::run`; `stopped` tells whether `stopping` was set meanwhile.
unfoldable pub run_once : Codec → Topic → Bool → Sampler → Sampler
unfolding combined_vector
run_once codec t stopped s = if s.stopping then s else elim s.to_send [
  | [] ↦ s
  | m ∷ ms ↦ record s {
    to_send = ms;
    stopping = stopped;
    sent = if stopped then s.sent else s.sent ++ combined_vector codec t m ∷ [];
  }
]

-- `SharedSubscriber::callback`: the vector that is sent at once, without compression.
unfoldable pub shared_callback : Topic → List ℕ → List ℕ
unfolding from_serialized_message get_combined_vector
shared_callback t bytes = get_combined_vector (vector (from_serialized_message t.channel bytes))

-- A message of rclcpp, or an iteration of the thread.
pub data Event : Type 0 where
  arrived : List ℕ → Event
  iterated : Event

unfoldable pub run : Codec → Topic → List Event → Sampler → Sampler
unfolding callback run_once
run codec t [] s = s
run codec t (arrived bytes ∷ es) s = run codec t es (callback t bytes s)
run codec t (iterated ∷ es) s = run codec t es (run_once codec t false s)

-- The frames of the messages that arrive.
unfoldable pub frames : Codec → Topic → List Event → List (List ℕ)
unfolding combined_vector from_serialized_message
frames codec t [] = []
frames codec t (arrived bytes ∷ es) =
    combined_vector codec t (from_serialized_message t.channel bytes) ∷ frames codec t es
frames codec t (iterated ∷ es) = frames codec t es

-- What was sent, and what waits to be.
abbrev pub output : Codec → Topic → Sampler → List (List ℕ)
output codec t s = s.sent ++ map (combined_vector codec t) s.to_send

map-append_one :
    (codec : Codec) (t : Topic) (ms : List VectorMessage) (m : VectorMessage)
    → map (combined_vector codec t) (ms ++ m ∷ [])
      ≡ map (combined_vector codec t) ms ++ combined_vector codec t m ∷ []
map-append_one codec t [] m = refl
map-append_one codec t (n ∷ ms) m =
    ap (◌∷◌ (combined_vector codec t n)) (map-append_one codec t ms m)

callback-output :
    (codec : Codec) (t : Topic) (bytes : List ℕ) (s : Sampler)
    → output codec t (callback t bytes s)
      ≡ output codec t s ++ combined_vector codec t (from_serialized_message t.channel bytes) ∷ []
unfolding callback
callback-output codec t bytes s =
    ap (λ l. s.sent ++ l)
      (map-append_one codec t s.to_send (from_serialized_message t.channel bytes))
    ∙ sym (append_assoc s.sent _ _)

iterated-output :
    (codec : Codec) (t : Topic) (sent : List (List ℕ)) (queue : List VectorMessage) (b : Bool)
    → output codec t
        (run_once codec t false (record { to_send = queue; stopping = b; sent = sent }))
      ≡ sent ++ map (combined_vector codec t) queue
unfolding run_once
iterated-output codec t sent queue true = refl
iterated-output codec t sent [] false = refl
iterated-output codec t sent (m ∷ ms) false = append_assoc sent (combined_vector codec t m ∷ []) _

run-output :
    (codec : Codec) (t : Topic) (es : List Event) (s : Sampler)
    → output codec t (run codec t es s) ≡ output codec t s ++ frames codec t es
unfolding run frames
run-output codec t [] s = sym (append-nil (output codec t s))
run-output codec t (arrived bytes ∷ es) s =
    run-output codec t es (callback t bytes s)
    ∙ ap (λ l. l ++ frames codec t es) (callback-output codec t bytes s)
    ∙ append_assoc (output codec t s) _ _
run-output codec t (iterated ∷ es) s =
    run-output codec t es (run_once codec t false s)
    ∙ ap (λ l. l ++ frames codec t es) (iterated-output codec t s.sent s.to_send s.stopping)

-- So many iterations in a row.
abbrev pub iterations : ℕ → List Event
iterations zero = []
iterations (suc n) = iterated ∷ iterations n

drained :
    (codec : Codec) (t : Topic) (queue : List VectorMessage) (sent : List (List ℕ))
    → (run codec t
        (iterations (length queue))
        (record { to_send = queue; stopping = false; sent = sent })).sent
      ≡ sent ++ map (combined_vector codec t) queue
unfolding run run_once
drained codec t [] sent = sym (append-nil sent)
drained codec t (m ∷ ms) sent =
    drained codec t ms (sent ++ combined_vector codec t m ∷ []) ∙ append_assoc sent _ _

abbrev with_stopping : Sampler → Bool → Sampler
with_stopping s b = record s { stopping = b }

rebuilt : (s : Sampler) → s.stopping ≡ false → with_stopping s false ≡ s
rebuilt s e = ap (with_stopping s) (sym e)

iterated-running :
    (codec : Codec) (t : Topic) (queue : List VectorMessage) (sent : List (List ℕ))
    → (run_once codec t false (record { to_send = queue; stopping = false; sent = sent })).stopping
      ≡ false
unfolding run_once
iterated-running codec t [] sent = refl
iterated-running codec t (m ∷ ms) sent = refl

iterated-stopping :
    (codec : Codec) (t : Topic) (s : Sampler)
    → s.stopping ≡ false
    → (run_once codec t false s).stopping ≡ false
iterated-stopping codec t s e =
    ap (λ q. (run_once codec t false q).stopping) (sym (rebuilt s e))
    ∙ iterated-running codec t s.to_send s.sent

run-stopping :
    (codec : Codec) (t : Topic) (es : List Event) (s : Sampler)
    → s.stopping ≡ false
    → (run codec t es s).stopping ≡ false
unfolding run callback
run-stopping codec t [] s e = e
run-stopping codec t (arrived bytes ∷ es) s e = run-stopping codec t es (callback t bytes s) e
run-stopping codec t (iterated ∷ es) s e =
    run-stopping codec t es (run_once codec t false s) (iterated-stopping codec t s e)

-- However the messages of rclcpp and the iterations of its thread interleave, what a threaded
-- subscriber has sent and what waits in its queue are together the frames of all messages, in the
-- order in which they came, and after one more iteration for each message that waits, all of them
-- are sent.
pub run-frames :
    (codec : Codec) (t : Topic) (es : List Event)
    → (output codec t (run codec t es new) ≡ frames codec t es)
      × ((run codec t (iterations (length (run codec t es new).to_send)) (run codec t es new)).sent
          ≡ frames codec t es)
run-frames codec t es =
    let s = run codec t es new in
    let same = rebuilt s (run-stopping codec t es new refl) in
    (
      run-output codec t es new,
      sym (ap (λ q. (run codec t (iterations (length s.to_send)) q).sent) same)
          ∙ drained codec t s.to_send s.sent
          ∙ run-output codec t es new,
    )
