-- ===== src/Config/Sections.antt =====
-- What the loops over the array parameters leave in the configuration (src/connectBase.hpp).
use ros2_connect.Prelude.{
  ℕ, ◌+◌, ◌≤◌, ◌<◌, ◌^◌, ◌≡◌, refl, sym, ◌∙◌, false, List, [], map, arith, ℤ, pos, negsuc,
}
use ros2_connect.Config.Json.{to_unsigned}
use ros2_connect.Config.Types.{Topic, ServiceActionDefinition}
use ros2_connect.Config.Global.{GlobalConfig, initial}
use ros2_connect.Config.Profiles.{
  is_known, parse_profiles, parse_qos, parse_compression, parse_items,
}
use ros2_connect.Config.Topics.{parse_subscriber, parse_publisher, has_channel}
use ros2_connect.Config.Services.{
  has_definition, parse_service_server, parse_service_client, parse_action_server,
  parse_action_client,
}
use ros2_connect.Config.Initialize.{
  Environment, Parameters, documents, read_parameters, read_definitions,
}
use ros2_connect.Config.Checked.{
  Each, just, Each-bind, Each-at, All, Distinct, parse_items-Distinct, parse_profiles-All,
}
use ros2_connect.Config.Valid.{
  IsQos, IsCompression, IsTopic, parse_qos-IsQos, parse_compression-IsCompression,
  parse_subscriber-IsTopic, parse_publisher-IsTopic,
}
use ros2_connect.Config.ValidServices.{
  IsDefinition, parse_service_server-IsDefinition, parse_service_client-IsDefinition,
  parse_action_server-IsDefinition, parse_action_client-IsDefinition,
}
use ros2_connect.Config.Unique.{
  occurrences, occurrences-apart, Avoids, All-map, All-weaken, has_channel-is_known,
  has_definition-is_known,
}

abbrev pub topic_channels : List Topic → List ℕ
topic_channels ts = map (λ t. t.channel) ts

abbrev pub definition_channels : List ServiceActionDefinition → List ℕ
definition_channels ds = map (λ d. d.channel) ds

-- Servers and clients that share no channel.
pub record AreDefinitions (servers clients : List ServiceActionDefinition) : Type 0 where
  pub once :
      (c : ℕ)
      → occurrences c (definition_channels servers) + occurrences c (definition_channels clients)
        ≤ 1
  pub servers_valid : All IsDefinition servers
  pub clients_valid : All IsDefinition clients

-- The lists after the loops.
pub record AreSections (g : GlobalConfig) : Type 0 where
  pub once :
      (c : ℕ)
      → occurrences c (topic_channels g.subscriber) + occurrences c (topic_channels g.publisher) ≤ 1
  pub subscribers : All IsTopic g.subscriber
  pub publishers : All IsTopic g.publisher
  pub services : AreDefinitions g.service_server g.service_client
  pub actions : AreDefinitions g.action_server g.action_client
  pub size : g.fragmentation_size < 2 ^ 64

Avoids-topic_channels :
    (subscriber publisher : List Topic)
    → All (λ t. IsTopic t × (has_channel t.channel subscriber ≡ false)) publisher
    → Avoids (topic_channels subscriber) (topic_channels publisher)
Avoids-topic_channels subscriber publisher h =
    All-map (λ t. t.channel) (λ c. is_known c (topic_channels subscriber) ≡ false) publisher
      (λ t k. sym (has_channel-is_known t.channel subscriber) ∙ k.1) h

definitions :
    (servers clients : List ServiceActionDefinition)
    → Distinct (definition_channels servers) × All IsDefinition servers
    → Distinct (definition_channels clients)
      × All (λ d. IsDefinition d × (has_definition d.channel servers ≡ false)) clients
    → AreDefinitions servers clients
definitions servers clients s c = record {
  once = λ j.
      occurrences-apart j (definition_channels servers) (definition_channels clients) s.0 c.0 (
        All-map (λ d. d.channel) (λ j. is_known j (definition_channels servers) ≡ false) clients
          (λ d k. sym (has_definition-is_known d.channel servers) ∙ k.1) c.1);
  servers_valid = s.1;
  clients_valid = All-weaken clients (λ d k. k.0) c.1;
}

to_unsigned-small : (z : ℤ) → to_unsigned 64 z < 2 ^ 64
to_unsigned-small (pos n) = omega arith
to_unsigned-small (negsuc n) = omega arith

-- The initial configuration, with what `init` writes into it first.
abbrev pub named : Environment → ℕ → GlobalConfig
named e domain = record initial {
  node_name = e.name;
  node_namespace = e.namespace;
  node_domain_id = domain;
}

pub read_definitions-AreSections :
    (e : Environment) (p : Parameters) (domain : ℕ)
    → Each AreSections (read_definitions e p (read_parameters p (named e domain)))
unfolding read_definitions read_parameters
read_definitions-AreSections e p domain =
    Each-bind (parse_profiles parse_qos (documents e p "qos") [] []) (λ qos q.
      Each-bind (parse_profiles parse_compression (documents e p "compression") [] [])
        (λ compression c.
          let qos_ok =
            Each-at
              (parse_profiles-All IsQos parse_qos parse_qos-IsQos (documents e p "qos") [] [] tt)
              q in
          let compression_ok =
            Each-at
              (parse_profiles-All IsCompression parse_compression parse_compression-IsCompression
                (documents e p "compression") [] [] tt)
              c in
          Each-bind
            (parse_items (λ t. t.channel) (parse_subscriber qos compression) e.can_subscribe
              (documents e p "subscriber") [] [])
            (λ subscriber s.
              Each-bind
                (parse_items (λ t. t.channel) (parse_publisher qos subscriber) e.can_publish
                  (documents e p "publisher") [] [])
                (λ publisher u.
                  Each-bind
                    (parse_items (λ t. t.channel) (parse_service_server qos compression) e.can_serve
                      (documents e p "service/server") [] [])
                    (λ servers v.
                      Each-bind
                        (parse_items (λ t. t.channel) (parse_service_client qos compression servers)
                          e.can_call (documents e p "service/client") [] [])
                        (λ clients w.
                          Each-bind
                            (parse_items (λ t. t.channel) (parse_action_server qos compression)
                              e.can_act (documents e p "action/server") [] [])
                            (λ action_servers x.
                              Each-bind
                                (parse_items (λ t. t.channel)
                                  (parse_action_client qos compression action_servers) e.can_request
                                  (documents e p "action/client") [] [])
                                (λ action_clients y.
                                  let subs =
                                    Each-at
                                      (parse_items-Distinct (λ t. t.channel) IsTopic
                                        (parse_subscriber qos compression) e.can_subscribe
                                        (parse_subscriber-IsTopic qos compression qos_ok
                                          compression_ok)
                                        (documents e p "subscriber") [] [] refl tt tt)
                                      s in
                                  let pubs =
                                    Each-at
                                      (parse_items-Distinct (λ t. t.channel)
                                        (λ t.
                                          IsTopic t × (has_channel t.channel subscriber ≡ false))
                                        (parse_publisher qos subscriber) e.can_publish
                                        (parse_publisher-IsTopic qos compression qos_ok
                                          compression_ok subscriber)
                                        (documents e p "publisher") [] [] refl tt tt)
                                      u in
                                  let s_servers =
                                    Each-at
                                      (parse_items-Distinct (λ t. t.channel) IsDefinition
                                        (parse_service_server qos compression) e.can_serve
                                        (parse_service_server-IsDefinition qos compression qos_ok
                                          compression_ok)
                                        (documents e p "service/server") [] [] refl tt tt)
                                      v in
                                  let s_clients =
                                    Each-at
                                      (parse_items-Distinct (λ t. t.channel)
                                        (λ t.
                                          IsDefinition t
                                          × (has_definition t.channel servers ≡ false))
                                        (parse_service_client qos compression servers) e.can_call
                                        (parse_service_client-IsDefinition qos compression qos_ok
                                          compression_ok servers)
                                        (documents e p "service/client") [] [] refl tt tt)
                                      w in
                                  let a_servers =
                                    Each-at
                                      (parse_items-Distinct (λ t. t.channel) IsDefinition
                                        (parse_action_server qos compression) e.can_act
                                        (parse_action_server-IsDefinition qos compression qos_ok
                                          compression_ok)
                                        (documents e p "action/server") [] [] refl tt tt)
                                      x in
                                  let a_clients =
                                    Each-at
                                      (parse_items-Distinct (λ t. t.channel)
                                        (λ t.
                                          IsDefinition t
                                          × (has_definition t.channel action_servers ≡ false))
                                        (parse_action_client qos compression action_servers)
                                        e.can_request
                                        (parse_action_client-IsDefinition qos compression qos_ok
                                          compression_ok action_servers)
                                        (documents e p "action/client") [] [] refl tt tt)
                                      y in
                                  just (record {
                                    once = λ j.
                                        occurrences-apart j (topic_channels subscriber)
                                          (topic_channels publisher) subs.0 pubs.0
                                          (Avoids-topic_channels subscriber publisher pubs.1);
                                    subscribers = subs.1;
                                    publishers = All-weaken publisher (λ t k. k.0) pubs.1;
                                    services = definitions servers clients s_servers s_clients;
                                    actions =
                                        definitions action_servers action_clients a_servers
                                          a_clients;
                                    size =
                                        to_unsigned-small
                                          (p.int_parameter "fragmentation/size" (pos 4096));
                                  })))))))))
