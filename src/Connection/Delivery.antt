-- ===== src/Connection/Delivery.antt =====
-- Where received messages go: `processMessage` of
-- src/websocketConnection/base/websocketConnectionBase.hpp and of the connections of the server and
-- the client.
use ros2_connect.Prelude.{
  ℕ, ◌≡◌, ◌≢◌, refl, sym, ◌⊎◌, inl, inr, ◌==◌, ==_iff, Bool, true, false, ◌||◌, some, List, [], ◌∷◌,
  ◌++◌, if◌then◌else◌, arith,
}
use mathlib.Core.List.{append-nil, append_assoc}
use ros2_connect.Message.Codes.{op_code_value}
use ros2_connect.Message.Rcl.{RclMessage, to_string}
use ros2_connect.Message.Base.{is_op_code}
use ros2_connect.Subscriber
use ros2_connect.Publisher
use ros2_connect.ServiceActions
use ros2_connect.Publisher.Routing.{of_channel}
use ros2_connect.Connection.Dispatch.{Managers, process_message}
use ros2_connect.Connection.Server.{
  ConnectionConfig, Authentication, Server, server_process, server_read_all,
}
use ros2_connect.Connection.Client.{Client, client_process, client_read_all}

-- No message is of the op-code AUTHENTICATION, and every notification has a zero byte.
abbrev pub IsReadable : List RclMessage → Type 0
IsReadable [] = Unit
IsReadable (m ∷ ms) =
    (m.channel ≢ 255)
    × (m.channel ≡ 249 → (text : List ℕ) × (to_string m ≡ some text))
    × IsReadable ms

-- The messages that are not of the op-codes NOTIFICATION, SUBSCRIPTION and SERVICE_ACTION.
unfoldable pub of_topics : List RclMessage → List RclMessage
of_topics [] = []
of_topics (m ∷ ms) =
    let r = of_topics ms in
    if m.channel == 249 || (m.channel == 250 || m.channel == 251) then r else m ∷ r

-- The queues of `r` are those of `s` with the messages' own kinds behind them.
abbrev pub Dispatched : List RclMessage → Managers → Managers → Type 0
Dispatched ms s r =
    (r.publisher_manager.to_publish ≡ s.publisher_manager.to_publish ++ of_topics ms)
    × (r.subscriber_manager.to_subscribe ≡ s.subscriber_manager.to_subscribe ++ of_channel 250 ms)
    × (r.service_action_manager.to_handle ≡ s.service_action_manager.to_handle ++ of_channel 251 ms)

-- What the tests of `processMessage` find.
abbrev Tests : ℕ → Bool → Bool → Bool → Type 0
Tests c a b d = ((c == 249) ≡ a) × ((c == 250) ≡ b) × ((c == 251) ≡ d)

kinds :
    (c : ℕ)
    → Tests c true false false
      ⊎ Tests c false true false
      ⊎ Tests c false false true
      ⊎ Tests c false false false
kinds c = ground arith

one-Dispatched :
    (m : RclMessage) (s : Managers)
    → (m.channel ≡ 249 → (text : List ℕ) × (to_string m ≡ some text))
    → (r : Managers) × (process_message m s ≡ some r) × Dispatched (m ∷ []) s r
unfolding process_message is_op_code op_code_value of_topics of_channel
one-Dispatched m s h = elim (kinds m.channel) [
  | inl (a, b, d) ↦
      let (text, e) = h ((==_iff m.channel 249).0 a) in
      (
        record s { logged = s.logged ++ text ∷ [] },
        rw (a, e) refl,
        rw (a, b, d) (sym (append-nil _), sym (append-nil _), sym (append-nil _)),
      )
  | inr (inl (a, b, d)) ↦ (
    record s { subscriber_manager = Subscriber.Manager.enqueue m s.subscriber_manager },
    rw (a, b) refl,
    rw (a, b, d) (sym (append-nil _), refl, sym (append-nil _)),
  )
  | inr (inr (inl (a, b, d))) ↦ (
    record s { service_action_manager = ServiceActions.Manager.handle m s.service_action_manager },
    rw (a, b, d) refl,
    rw (a, b, d) (sym (append-nil _), sym (append-nil _), refl),
  )
  | inr (inr (inr (a, b, d))) ↦ (
    record s { publisher_manager = Publisher.Manager.publish m s.publisher_manager },
    rw (a, b, d) refl,
    rw (a, b, d) (refl, sym (append-nil _), sym (append-nil _)),
  )
]

of_topics-cons :
    (m : RclMessage) (ms : List RclMessage)
    → of_topics (m ∷ ms) ≡ of_topics (m ∷ []) ++ of_topics ms
unfolding of_topics
of_topics-cons m ms = ground arith

of_channel-cons :
    (c : ℕ) (m : RclMessage) (ms : List RclMessage)
    → of_channel c (m ∷ ms) ≡ of_channel c (m ∷ []) ++ of_channel c ms
unfolding of_channel
of_channel-cons c m ms = ground arith

then-append :
    (xs us vs cs : List RclMessage) {ys zs : List RclMessage}
    → ys ≡ xs ++ us
    → zs ≡ ys ++ vs
    → cs ≡ us ++ vs
    → zs ≡ xs ++ cs
then-append xs us vs cs h k e = rw (k, h, e) (append_assoc xs us vs)

both :
    (m : RclMessage) (ms : List RclMessage) (s q r : Managers)
    → Dispatched (m ∷ []) s q
    → Dispatched ms q r
    → Dispatched (m ∷ ms) s r
both m ms s q r a b = (
  then-append _ _ _ _ a.0 b.0 (of_topics-cons m ms),
  then-append _ _ _ _ a.1 b.1 (of_channel-cons 250 m ms),
  then-append _ _ _ _ a.2 b.2 (of_channel-cons 251 m ms),
)

not_key : (c : ℕ) → c ≢ 255 → (c == 255) ≡ false
not_key c h = ground arith

client-Dispatched :
    (ms : List RclMessage) (s : Client)
    → IsReadable ms
    → (r : Client) × (client_read_all ms s ≡ some r) × Dispatched ms s.managers r.managers
unfolding client_read_all
client-Dispatched [] s h = (
  s,
  refl,
  unfold of_topics of_channel in (sym (append-nil _), sym (append-nil _), sym (append-nil _)),
)
client-Dispatched (m ∷ ms) s h =
    let (q, first, a) = one-Dispatched m s.managers h.1 in
    let step : client_process m s ≡ some (record s { managers = q }) =
      unfold client_process is_op_code op_code_value in rw (not_key m.channel h.0, first) refl in
    let (r, others, b) = client-Dispatched ms (record s { managers = q }) h.2 in
    (r, rw step others, both m ms s.managers q r.managers a b)

module _ {A : Type 0} (cfg : ConnectionConfig) (plugin : Authentication A) where
  server-Dispatched :
      (ms : List RclMessage) (s : Server A)
      → IsReadable ms
      → (r : Server A) × (server_read_all cfg plugin ms s ≡ some r)
        × Dispatched ms s.managers r.managers
  unfolding server_read_all
  server-Dispatched [] s h = (
    s,
    refl,
    unfold of_topics of_channel in (sym (append-nil _), sym (append-nil _), sym (append-nil _)),
  )
  server-Dispatched (m ∷ ms) s h =
      let (q, first, a) = one-Dispatched m s.managers h.1 in
      let step : server_process cfg plugin m s ≡ some (record s { managers = q }) =
        unfold server_process is_op_code op_code_value in rw (not_key m.channel h.0, first) refl in
      let (r, others, b) = server-Dispatched ms (record s { managers = q }) h.2 in
      (r, rw step others, both m ms s.managers q r.managers a b)

  -- A server's and a client's connection read all messages but those on the authentication, if every
  -- notification has a zero byte, and put the notices into the subscriber manager's queue, the
  -- service and action messages into the service and action manager's, every other message but the
  -- notifications into the publisher manager's, each kind in the order of arrival: in any state, so a
  -- server also before the client was authenticated.
  pub read_all-Dispatched :
      (ms : List RclMessage) (s : Server A) (c : Client)
      → IsReadable ms
      → ((r : Server A) × (server_read_all cfg plugin ms s ≡ some r)
          × Dispatched ms s.managers r.managers)
        × ((r : Client) × (client_read_all ms c ≡ some r) × Dispatched ms c.managers r.managers)
  read_all-Dispatched ms s c h = (server-Dispatched ms s h, client-Dispatched ms c h)
