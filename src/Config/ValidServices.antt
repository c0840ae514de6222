-- ===== src/Config/ValidServices.antt =====
-- What every service and action definition that src/connectBase.hpp accepts satisfies.
use Prim.Native.String.{String}
use ros2_connect.Prelude.{ℕ, ◌<◌, ◌^◌, ◌≡◌, Bool, true, false, not, List, ℤ, arith}
use ros2_connect.Message.Codes.{Compression, is_compressor}
use ros2_connect.Config.Types.{Qos, ServiceActionDefinition}
use ros2_connect.Config.Json.{
  Document, Fields, as_object, int_field, string_field, bool_field, as_uint8, as_uint32, as_int32,
}
use ros2_connect.Config.Profiles.{is_known}
use ros2_connect.Config.Topics.{allows}
use ros2_connect.Config.Services.{
  profile_field, is_simultaneous_shared, new_channel, has_definition, parse_service_server,
  parse_service_client, parse_action_server, parse_action_client,
}
use ros2_connect.Config.Checked.{Each, just, Each-bind, Each-guard, Each-at, All}
use ros2_connect.Config.Valid.{
  IsQos, IsCompression, uint8-Each, uint32-Each, allowed, refuted, find_profile-Each,
}

-- A definition that the configuration can hold: its channel is a byte, its compression has a rate
-- that the library knows and needs a thread of its own, and so do calls at the same time.
pub record IsDefinition (d : ServiceActionDefinition) : Type 0 where
  pub small : d.channel < 256
  pub service_deep : IsQos d.service_qos
  pub feedback_deep : IsQos d.feedback_qos
  pub status_deep : IsQos d.status_qos
  pub rated : IsCompression d.compression
  pub own_thread : is_compressor d.compression.compressor ≡ true → d.use_own_thread ≡ true
  pub simultaneous : d.allow_simultaneous ≡ true → d.use_own_thread ≡ true
  pub executed : d.max_exec_time < 2 ^ 32

not_shared : (a b : Bool) → not (is_simultaneous_shared a b) ≡ true → a ≡ true → b ≡ true
not_shared a b h e = ground (arith, h, e)

new_channel-Each :
    (known : List ℕ) (z : ℤ)
    → Each (λ c. (c < 256) × (is_known c known ≡ false)) (new_channel known z)
unfolding new_channel
new_channel-Each known z = Each-bind (as_uint8 z) (λ c small.
    Each-guard (not (is_known c known))
      (λ fresh. just (Each-at (uint8-Each z) small, refuted (is_known c known) fresh)))

profile_field-Each :
    {V : Type 0} (P : V → Type 0) (key : String) (m : List (ℕ × V)) (json : Fields)
    → All (λ r. P r.1) m
    → Each P (profile_field key m json)
unfolding profile_field
profile_field-Each P key m json a =
    Each-bind (int_field key json) (λ z _. find_profile-Each P m z a)

module _ (qos : List (ℕ × Qos)) (compression : List (ℕ × Compression))
    (qos_ok : All (λ r. IsQos r.1) qos)
    (compression_ok : All (λ r. IsCompression r.1) compression) where
  pub parse_service_server-IsDefinition :
      (known : List ℕ) (d : Document)
      → Each
          (λ t. (is_known t.channel known ≡ false) × IsDefinition t)
          (parse_service_server qos compression known d)
  unfolding parse_service_server
  parse_service_server-IsDefinition known d = Each-bind (as_object d) (λ json _.
      Each-bind (int_field "channel" json) (λ z _. Each-bind (string_field "type" json) (λ type _.
        Each-bind (int_field "maxExecTime" json) (λ x _.
          Each-bind (bool_field "useOwnThread" json) (λ own _.
            Each-bind (bool_field "allowSimultaneous" json) (λ simultaneous _.
              Each-guard (not (is_simultaneous_shared simultaneous own)) (λ shared.
                Each-bind (profile_field "service-qos" qos json) (λ q found.
                  Each-bind (profile_field "compression" compression json) (λ c listed.
                    Each-guard (allows c own) (λ fits. Each-bind (as_uint32 x) (λ e executes.
                      Each-bind (new_channel known z) (λ channel new. just (
                        (Each-at (new_channel-Each known z) new).1,
                        record {
                          small = (Each-at (new_channel-Each known z) new).0;
                          service_deep = Each-at (profile_field-Each IsQos _ qos json qos_ok) found;
                          feedback_deep =
                              Each-at (profile_field-Each IsQos _ qos json qos_ok) found;
                          status_deep = Each-at (profile_field-Each IsQos _ qos json qos_ok) found;
                          rated =
                              Each-at
                                (profile_field-Each IsCompression _ compression json compression_ok)
                                listed;
                          own_thread = allowed c own fits;
                          simultaneous = not_shared simultaneous own shared;
                          executed = Each-at (uint32-Each x) executes;
                        },
                      )))))))))))))

  pub parse_service_client-IsDefinition :
      (servers : List ServiceActionDefinition) (known : List ℕ) (d : Document)
      → Each
          (λ t.
            (is_known t.channel known ≡ false)
            × (IsDefinition t × (has_definition t.channel servers ≡ false)))
          (parse_service_client qos compression servers known d)
  unfolding parse_service_client
  parse_service_client-IsDefinition servers known d = Each-bind (as_object d) (λ json _.
      Each-bind (int_field "channel" json) (λ z _. Each-bind (string_field "type" json) (λ type _.
        Each-bind (bool_field "useOwnThread" json) (λ own _.
          Each-bind (bool_field "allowSimultaneous" json) (λ simultaneous _.
            Each-guard (not (is_simultaneous_shared simultaneous own)) (λ shared.
              Each-bind (profile_field "service-qos" qos json) (λ q found.
                Each-bind (profile_field "compression" compression json) (λ c listed.
                  Each-guard (allows c own) (λ fits. Each-bind (new_channel known z) (λ channel new.
                    Each-guard (not (has_definition channel servers)) (λ other. just (
                      (Each-at (new_channel-Each known z) new).1,
                      (
                        (record {
                          small = (Each-at (new_channel-Each known z) new).0;
                          service_deep = Each-at (profile_field-Each IsQos _ qos json qos_ok) found;
                          feedback_deep =
                              Each-at (profile_field-Each IsQos _ qos json qos_ok) found;
                          status_deep = Each-at (profile_field-Each IsQos _ qos json qos_ok) found;
                          rated =
                              Each-at
                                (profile_field-Each IsCompression _ compression json compression_ok)
                                listed;
                          own_thread = allowed c own fits;
                          simultaneous = not_shared simultaneous own shared;
                          executed = omega arith;
                        }),
                        refuted (has_definition channel servers) other,
                      ),
                    ))))))))))))

  pub parse_action_server-IsDefinition :
      (known : List ℕ) (d : Document)
      → Each
          (λ t. (is_known t.channel known ≡ false) × IsDefinition t)
          (parse_action_server qos compression known d)
  unfolding parse_action_server
  parse_action_server-IsDefinition known d = Each-bind (as_object d) (λ json _.
      Each-bind (int_field "channel" json) (λ z _. Each-bind (string_field "type" json) (λ type _.
        Each-bind (int_field "resultTimeout" json) (λ x _.
          Each-bind (bool_field "useOwnThread" json) (λ own _.
            Each-bind (bool_field "allowSimultaneous" json) (λ simultaneous _.
              Each-guard (not (is_simultaneous_shared simultaneous own)) (λ shared.
                Each-bind (profile_field "service-qos" qos json) (λ q found.
                  Each-bind (profile_field "feedback-qos" qos json) (λ r found_feedback.
                    Each-bind (profile_field "status-qos" qos json) (λ s found_status.
                      Each-bind (profile_field "compression" compression json) (λ c listed.
                        Each-guard (allows c own) (λ fits. Each-bind (as_int32 x) (λ e _.
                          Each-bind (new_channel known z) (λ channel new. just (
                            (Each-at (new_channel-Each known z) new).1,
                            record {
                              small = (Each-at (new_channel-Each known z) new).0;
                              service_deep =
                                  Each-at (profile_field-Each IsQos _ qos json qos_ok) found;
                              feedback_deep =
                                  Each-at (profile_field-Each IsQos _ qos json qos_ok)
                                    found_feedback;
                              status_deep =
                                  Each-at (profile_field-Each IsQos _ qos json qos_ok) found_status;
                              rated =
                                  Each-at
                                    (profile_field-Each IsCompression _ compression json
                                      compression_ok)
                                    listed;
                              own_thread = allowed c own fits;
                              simultaneous = not_shared simultaneous own shared;
                              executed = omega arith;
                            },
                          )))))))))))))))

  pub parse_action_client-IsDefinition :
      (servers : List ServiceActionDefinition) (known : List ℕ) (d : Document)
      → Each
          (λ t.
            (is_known t.channel known ≡ false)
            × (IsDefinition t × (has_definition t.channel servers ≡ false)))
          (parse_action_client qos compression servers known d)
  unfolding parse_action_client
  parse_action_client-IsDefinition servers known d = Each-bind (as_object d) (λ json _.
      Each-bind (int_field "channel" json) (λ z _. Each-bind (string_field "type" json) (λ type _.
        Each-bind (bool_field "useOwnThread" json) (λ own _.
          Each-bind (bool_field "allowSimultaneous" json) (λ simultaneous _.
            Each-guard (not (is_simultaneous_shared simultaneous own)) (λ shared.
              Each-bind (profile_field "service-qos" qos json) (λ q found.
                Each-bind (profile_field "feedback-qos" qos json) (λ r found_feedback.
                  Each-bind (profile_field "status-qos" qos json) (λ s found_status.
                    Each-bind (profile_field "compression" compression json) (λ c listed.
                      Each-guard (allows c own) (λ fits.
                        Each-bind (new_channel known z) (λ channel new.
                          Each-guard (not (has_definition channel servers)) (λ other. just (
                            (Each-at (new_channel-Each known z) new).1,
                            (
                              (record {
                                small = (Each-at (new_channel-Each known z) new).0;
                                service_deep =
                                    Each-at (profile_field-Each IsQos _ qos json qos_ok) found;
                                feedback_deep =
                                    Each-at (profile_field-Each IsQos _ qos json qos_ok)
                                      found_feedback;
                                status_deep =
                                    Each-at (profile_field-Each IsQos _ qos json qos_ok)
                                      found_status;
                                rated =
                                    Each-at
                                      (profile_field-Each IsCompression _ compression json
                                        compression_ok)
                                      listed;
                                own_thread = allowed c own fits;
                                simultaneous = not_shared simultaneous own shared;
                                executed = omega arith;
                              }),
                              refuted (has_definition channel servers) other,
                            ),
                          ))))))))))))))
