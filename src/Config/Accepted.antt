-- ===== src/Config/Accepted.antt =====
-- What the configurations that ConnectBase::init (src/connectBase.hpp) accepts give the rest of the
-- program.
use ros2_connect.Prelude.{
  ◌≤◌, ◌≡◌, refl, Bool, true, false, not, ◌||◌, ◌&&◌, some, ltb, arith, ◌⊎◌, inl, inr,
}
use ros2_connect.Config.Global.{GlobalConfig}
use ros2_connect.Config.Initialize.{
  Environment, Parameters, read_parameters, read_definitions, add_predefined, check_authentication,
  initialize_parameters, init, is_empty,
}
use ros2_connect.Config.Checked.{just, Each-bind, Each-guard, Each-at}

-- A server whose clients can authenticate: it waits for them, and has a plugin that could be loaded,
-- unless it omits the authentication.
abbrev pub IsAuthenticating : Environment → GlobalConfig → Type 0
IsAuthenticating e g =
    (1 ≤ g.authentication_timeout)
    × (((is_empty g.authentication_plugin ≡ true) × (g.authentication_omit ≡ true))
        ⊎ ((is_empty g.authentication_plugin ≡ false)
            × (e.can_authenticate g.authentication_plugin ≡ true)))

plugin_cases :
    (empty loads omits : Bool)
    → ((empty || loads) && not (not omits && empty)) ≡ true
    → ((empty ≡ true) × (omits ≡ true)) ⊎ ((empty ≡ false) × (loads ≡ true))
plugin_cases true loads true h = inl (refl, refl)
plugin_cases false true omits h = inr (refl, refl)
plugin_cases true loads false h = ground (arith, h)
plugin_cases false false omits h = ground (arith, h)

check_authentication-IsAuthenticating :
    (e : Environment) (g : GlobalConfig) → check_authentication e g ≡ true → IsAuthenticating e g
unfolding check_authentication
check_authentication-IsAuthenticating e g h = (
  ground (arith, h),
  plugin_cases (is_empty g.authentication_plugin) (e.can_authenticate g.authentication_plugin)
      g.authentication_omit (ground (arith, h)),
)

-- A server, which initializes with the check of the authentication, only accepts a configuration
-- with a positive timeout, and with an authentication plugin that could be loaded or with the
-- authentication omitted and no plugin.
pub init-IsAuthenticating :
    (e : Environment) (p : Parameters) (given g : GlobalConfig)
    → init e p true given ≡ some g
    → IsAuthenticating e g
unfolding init initialize_parameters
init-IsAuthenticating e p given g accepted =
    Each-at {P = IsAuthenticating e}
      (Each-bind e.domain_id (λ domain _.
        let named = record given {
          node_name = e.name;
          node_namespace = e.namespace;
          node_domain_id = domain;
        } in
        Each-bind (read_definitions e p (read_parameters p named)) (λ r _.
          Each-guard (not (r.publish_tf && r.subscribe_tf)) (λ _.
            Each-guard (not (r.publish_clock && r.subscribe_clock)) (λ _.
              Each-guard (not (ltb (add_predefined r).fragmentation_size 8)) (λ _.
                Each-guard (check_authentication e (add_predefined r)) (λ checked.
                  just (check_authentication-IsAuthenticating e (add_predefined r) checked))))))))
      accepted
