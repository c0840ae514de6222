-- ===== src/Connection/Admission.antt =====
-- Nothing runs for a client whose user key was not accepted:
-- src/websocketConnection/server/websocketServerConnection.cpp.
use ros2_connect.Prelude.{
  ℕ, ◌≡◌, refl, ◌⊎◌, inl, inr, ◌==◌, ==_iff, true, false, Option, none, some, List, [], ◌∷◌, ◌>>=◌,
  Bool-cases, arith,
}
use ros2_connect.Message.Codes.{op_code_value}
use ros2_connect.Message.Rcl.{RclMessage, from_flat_buffer, to_string}
use ros2_connect.Message.Base.{is_op_code}
use ros2_connect.Subscriber
use ros2_connect.Publisher
use ros2_connect.ServiceActions
use ros2_connect.Connection.Dispatch.{Managers, process_message}
use ros2_connect.Connection.Server.{
  Authentication, ConnectionConfig, Server, new, on_connected, stop, validate, validate_user_key,
  server_process, check_callback, ServerEvent, connected, received, check_timeout, end_timeout,
  server_step, server_run,
}

-- There is nothing that could publish, subscribe or call.
abbrev pub IsIdle : Managers → Type 0
IsIdle s =
    (s.publisher_manager.publishers ≡ [])
    × (s.subscriber_manager.subscribers ≡ [])
    × (s.service_action_manager.service_servers ≡ [])
    × (s.service_action_manager.service_clients ≡ [])
    × (s.service_action_manager.action_servers ≡ [])
    × (s.service_action_manager.action_clients ≡ [])

process_message-IsIdle :
    (m : RclMessage) (s r : Managers) → process_message m s ≡ some r → IsIdle s → IsIdle r
unfolding process_message Subscriber.Manager.enqueue Publisher.Manager.publish
    ServiceActions.Manager.handle
process_message-IsIdle m s r h i = ground (arith)

module _ {A : Type 0} (cfg : ConnectionConfig) (plugin : Authentication A) where
  -- An authentication message with a key that the connection's plugin then accepts.
  abbrev pub IsAdmitting : ServerEvent → Server A → Type 0
  IsAdmitting connected s = ⊥
  IsAdmitting (received bytes) s =
      (m : RclMessage) × (key : List ℕ) × (a : A) × (from_flat_buffer bytes ≡ some m)
      × (m.channel ≡ 255)
      × (to_string m ≡ some key)
      × (s.authentication ≡ some a)
      × (plugin.is_valid (plugin.get_authentication_from_user_key key a) ≡ true)
  IsAdmitting check_timeout s = ⊥
  IsAdmitting end_timeout s = ⊥

  -- One of the events is such a message, in the state that the events before it lead to.
  abbrev pub HasAdmitting : List ServerEvent → Server A → Type 0
  HasAdmitting [] s = ⊥
  HasAdmitting (e ∷ es) s =
      IsAdmitting e s ⊎ ((r : Server A) × (server_step cfg plugin e s ≡ some r) × HasAdmitting es r)

  abbrev pub IsShut : Server A → Type 0
  IsShut s = (s.authorizations ≡ 0) × IsIdle s.managers

  -- The connection was never authorized and is idle, if it still has a state: it has none behind a
  -- message that it reads behind its end.
  abbrev pub IsUnauthorized : Option (Server A) → Type 0
  IsUnauthorized none = Unit
  IsUnauthorized (some r) = IsShut r

  abbrev Accepts : List ℕ → Option A → Type 0
  Accepts key p =
      (a : A) × (p ≡ some a)
      × (plugin.is_valid (plugin.get_authentication_from_user_key key a) ≡ true)

  validate-IsShut :
      (key : List ℕ) (p : Option A) (s : Server A)
      → IsShut s
      → Accepts key p ⊎ IsShut (validate cfg plugin key p s)
  unfolding validate stop
  validate-IsShut key none s i = inr i
  validate-IsShut key (some a) s i =
      elim (Bool-cases (plugin.is_valid (plugin.get_authentication_from_user_key key a))) [
        | inl e ↦ inl (a, refl, e)
        | inr e ↦ inr (rw e i)
      ]

  validate_user_key-IsShut :
      (key : List ℕ) (s : Server A)
      → cfg.authentication_omit ≡ false
      → IsShut s
      → Accepts key s.authentication ⊎ IsShut (validate_user_key cfg plugin key s)
  unfolding validate_user_key
  validate_user_key-IsShut key s o i = rw o (validate-IsShut key s.authentication s i)

  key-IsShut :
      (bytes : List ℕ) (m : RclMessage) (k : Option (List ℕ)) (s : Server A)
      → cfg.authentication_omit ≡ false
      → IsShut s
      → from_flat_buffer bytes ≡ some m
      → m.channel ≡ 255
      → to_string m ≡ k
      → IsAdmitting (received bytes) s
        ⊎ IsUnauthorized (k >>= λ key. some (validate_user_key cfg plugin key s))
  key-IsShut bytes m none s o i h c t = inr tt
  key-IsShut bytes m (some key) s o i h c t = elim (validate_user_key-IsShut key s o i) [
    | inl (a, p, e) ↦ inl (m, key, a, h, c, t, p, e)
    | inr shut ↦ inr shut
  ]

  managers-IsShut :
      (m : RclMessage) (r : Option Managers) (s : Server A)
      → IsShut s
      → process_message m s.managers ≡ r
      → IsUnauthorized (r >>= λ q. some (record s { managers = q }))
  managers-IsShut m none s i h = tt
  managers-IsShut m (some q) s i h = (i.0, process_message-IsIdle m s.managers q h i.1)

  message-IsShut :
      (bytes : List ℕ) (o : Option RclMessage) (s : Server A)
      → cfg.authentication_omit ≡ false
      → IsShut s
      → from_flat_buffer bytes ≡ o
      → IsAdmitting (received bytes) s ⊎ IsUnauthorized (o >>= λ m. server_process cfg plugin m s)
  unfolding server_process is_op_code op_code_value
  message-IsShut bytes none s o i h = inr tt
  message-IsShut bytes (some m) s o i h = elim (Bool-cases (m.channel == 255)) [
    | inl e ↦ rw e (key-IsShut bytes m (to_string m) s o i h ((==_iff m.channel 255).0 e) refl)
    | inr e ↦ rw e (inr (managers-IsShut m (process_message m s.managers) s i refl))
  ]

  check-IsShut :
      (p : Option A) (s : Server A)
      → IsShut s
      → s.authentication ≡ p
      → IsUnauthorized (check_callback plugin s)
  unfolding check_callback stop
  check-IsShut none s i h = rw h tt
  check-IsShut (some a) s i h = elim (Bool-cases (plugin.is_valid a)) [
    | inl e ↦ rw (h, e) i
    | inr e ↦ rw (h, e) i
  ]

  server_step-IsShut :
      (e : ServerEvent) (s : Server A)
      → cfg.authentication_omit ≡ false
      → IsShut s
      → IsAdmitting e s ⊎ IsUnauthorized (server_step cfg plugin e s)
  unfolding server_step
  server_step-IsShut connected s o i = inr (unfold on_connected in rw o i)
  server_step-IsShut (received bytes) s o i =
      message-IsShut bytes (from_flat_buffer bytes) s o i refl
  server_step-IsShut check_timeout s o i = inr (elim (Bool-cases (s.check_waits == 0)) [
    | inl e ↦ rw e i
    | inr e ↦ rw e (check-IsShut s.authentication _ i refl)
  ])
  server_step-IsShut end_timeout s o i =
      inr
        (elim (Bool-cases (s.end_waits == 0)) [ inl e ↦ rw e i | inr e ↦ rw e (unfold stop in i) ])

  bind-IsShut :
      (e : ServerEvent) (es : List ServerEvent) (s : Server A)
      → ((r : Server A)
          → IsShut r
          → HasAdmitting es r ⊎ IsUnauthorized (server_run cfg plugin es r))
      → (o : Option (Server A)) → IsUnauthorized o
      → server_step cfg plugin e s ≡ o
      → HasAdmitting (e ∷ es) s ⊎ IsUnauthorized (o >>= λ r. server_run cfg plugin es r)
  bind-IsShut e es s ih none i h = inr tt
  bind-IsShut e es s ih (some r) i h = elim (ih r i) [
    | inl admitting ↦ inl (inr (r, h, admitting))
    | inr shut ↦ inr shut
  ]

  server_run-IsShut :
      (es : List ServerEvent) (s : Server A)
      → cfg.authentication_omit ≡ false
      → IsShut s
      → HasAdmitting es s ⊎ IsUnauthorized (server_run cfg plugin es s)
  unfolding server_run
  server_run-IsShut [] s o i = inr i
  server_run-IsShut (e ∷ es) s o i = elim (server_step-IsShut e s o i) [
    | inl admitting ↦ inl (inl admitting)
    | inr shut ↦
        bind-IsShut e es s (λ r. server_run-IsShut es r o) (server_step cfg plugin e s) shut refl
  ]

  -- If authentication is not omitted, then after any events on a new connection, either one of them
  -- was an authentication message with a key that the connection's plugin, in the state that it had
  -- then, accepted, or the connection was never authorized and its managers hold no publisher, no
  -- subscriber and no service or action plugin. A message that is read behind its end leaves no state
  -- to speak of; up to it, the same holds of the events before.
  pub server_run-IsIdle :
      (es : List ServerEvent) (p : Option A)
      → cfg.authentication_omit ≡ false
      → HasAdmitting es (new p) ⊎ IsUnauthorized (server_run cfg plugin es (new p))
  server_run-IsIdle es p o =
      server_run-IsShut es (new p) o (refl, (refl, refl, refl, refl, refl, refl))
