-- ===== src/ServiceActions/Routing.antt =====
-- Which plugin gets a message: ServiceActionManager::run of
-- src/serviceAction/serviceActionManager.cpp.
use ros2_connect.Prelude.{
  ℕ, zero, suc, ◌≤◌, ◌≡◌, refl, ap, ◌∙◌, inl, inr, ◌==◌, ==_self, ◌&&◌, ◌||◌, Bool, true, false,
  Option, none, some, List, [], ◌∷◌, length, if◌then◌else◌, lookup, erase, lookup-update,
  map_option, length-erase, nat_key, arith, Option-cases,
}
use ros2_connect.Message.Rcl.{RclMessage, from_flat_buffer}
use ros2_connect.Message.Rcl
use ros2_connect.Message.ServiceAction.{ServiceActionMessage, from_message}
use ros2_connect.Message.Codes.{ServiceActionOpCode, service_action_value}
use ros2_connect.ServiceActions.Manager.{
  Plugin, ServiceActionManager, Target, service_server, service_client, action_client,
  action_server, target, take_message, dispatch, route, process, stop_plugins, stop_thread,
}

abbrev pub plugins_of : Target → ServiceActionManager → List (ℕ × Plugin)
plugins_of service_server s = s.service_servers
plugins_of service_client s = s.service_clients
plugins_of action_client s = s.action_clients
plugins_of action_server s = s.action_servers

abbrev pub target_eq : Target → Target → Bool
target_eq service_server service_server = true
target_eq service_client service_client = true
target_eq action_client action_client = true
target_eq action_server action_server = true
target_eq _ _ = false

dispatch-lookup :
    (k t : Target) (a : ServiceActionMessage) (s : ServiceActionManager) (c : ℕ)
    → lookup c (plugins_of t (dispatch k a s)) ≡ (
        if target_eq k t && a.service_action_channel == c
        then map_option (take_message a) (lookup c (plugins_of t s))
        else lookup c (plugins_of t s))
dispatch-lookup service_server service_server a s c = lookup-update _ c _ s.service_servers
dispatch-lookup service_server service_client a s c = refl
dispatch-lookup service_server action_client a s c = refl
dispatch-lookup service_server action_server a s c = refl
dispatch-lookup service_client service_server a s c = refl
dispatch-lookup service_client service_client a s c = lookup-update _ c _ s.service_clients
dispatch-lookup service_client action_client a s c = refl
dispatch-lookup service_client action_server a s c = refl
dispatch-lookup action_client service_server a s c = refl
dispatch-lookup action_client service_client a s c = refl
dispatch-lookup action_client action_client a s c = lookup-update _ c _ s.action_clients
dispatch-lookup action_client action_server a s c = refl
dispatch-lookup action_server service_server a s c = refl
dispatch-lookup action_server service_client a s c = refl
dispatch-lookup action_server action_client a s c = refl
dispatch-lookup action_server action_server a s c = lookup-update _ c _ s.action_servers

-- The op-codes of include/connect/types.hpp that each kind of plugin is for: a service server gets
-- what goes to the server, a service client a request and its cancellation, an action client a goal
-- and its cancellation, and an action server everything that goes to the action's server.
abbrev pub op_codes : Target → List ℕ
op_codes service_server = 2 ∷ []
op_codes service_client = 0 ∷ 1 ∷ []
op_codes action_client = 3 ∷ 6 ∷ []
op_codes action_server = 4 ∷ 5 ∷ 7 ∷ 8 ∷ 9 ∷ 10 ∷ 11 ∷ 12 ∷ 13 ∷ []

abbrev pub has_code : ℕ → List ℕ → Bool
has_code n [] = false
has_code n (c ∷ cs) = n == c || has_code n cs

abbrev pub is_for : Target → ServiceActionOpCode → Bool
is_for t op = has_code (service_action_value op) (op_codes t)

is_for-target : (op : ServiceActionOpCode) (t : Target) → is_for t op ≡ target_eq (target op) t
unfolding target service_action_value
is_for-target op t = ground arith

-- The parsed form of a received message.
abbrev pub parsed : RclMessage → Option ServiceActionMessage
parsed m = from_message m.channel m.compressor m.uncompressed_size (Rcl.get_combined_vector m)

-- What a plugin has after a message that was parsed, or not.
abbrev pub after : Option ServiceActionMessage → Target → ℕ → Option Plugin → Option Plugin
after none t c p = p
after (some a) t c p =
    if is_for t a.service_action_op_code && a.service_action_channel == c
    then map_option (take_message a) p
    else p

process-none : (m : RclMessage) (s : ServiceActionManager) → parsed m ≡ none → process m s ≡ s
unfolding process
process-none m s e = ap (λ o. route o s) e ∙ unfold route in refl

process-some :
    (m : RclMessage) (s : ServiceActionManager) (a : ServiceActionMessage)
    → s.stopping ≡ false
    → parsed m ≡ some a
    → process m s ≡ dispatch (target a.service_action_op_code) a s
unfolding process
process-some m s a h e = ap (λ o. route o s) e ∙ unfold route in rw h refl

-- A message goes to the plugin that has its channel among the plugins of the kind that its op-code
-- is for, and to no other; an invalid one goes to none.
pub process-lookup :
    (m : RclMessage) (s : ServiceActionManager) (t : Target) (c : ℕ)
    → s.stopping ≡ false
    → lookup c (plugins_of t (process m s)) ≡ after (parsed m) t c (lookup c (plugins_of t s))
process-lookup m s t c h = elim (Option-cases (parsed m)) [
  | inl e ↦ ap (λ r. lookup c (plugins_of t r)) (process-none m s e) ∙ rw e refl
  | inr (a, e) ↦
      ap (λ r. lookup c (plugins_of t r)) (process-some m s a h e)
      ∙ dispatch-lookup (target a.service_action_op_code) t a s c
      ∙ rw (e, is_for-target a.service_action_op_code t) refl
]

stop_plugins-nil : (fuel : ℕ) (m : List (ℕ × Plugin)) → length m ≤ fuel → stop_plugins fuel m ≡ []
unfolding stop_plugins
stop_plugins-nil zero [] h = refl
stop_plugins-nil zero (e ∷ m) h = elim h [ ]
stop_plugins-nil (suc fuel) [] h = refl
stop_plugins-nil (suc fuel) ((k, v) ∷ m) h =
    stop_plugins-nil fuel (erase k ((k, v) ∷ m)) (omega (arith, fewer))
  where
    fewer : length (erase k ((k, v) ∷ m)) ≤ length m
    fewer = unfold erase in rw (==_self k) (length-erase k m)

-- Stopping the manager ends, after one round for each entry, with no plugin left.
pub stop_thread-no_plugins :
    (s : ServiceActionManager) (t : Target) → plugins_of t (stop_thread s) ≡ []
unfolding stop_thread
stop_thread-no_plugins s service_server = stop_plugins-nil _ s.service_servers (omega arith)
stop_thread-no_plugins s service_client = stop_plugins-nil _ s.service_clients (omega arith)
stop_thread-no_plugins s action_client = stop_plugins-nil _ s.action_clients (omega arith)
stop_thread-no_plugins s action_server = stop_plugins-nil _ s.action_servers (omega arith)
