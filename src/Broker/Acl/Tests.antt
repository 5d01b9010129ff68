-- ===== src/Broker/Acl/Tests.antt =====
-- Runs of src/mqtt-broker/src/security/acl/auth.rs on concrete rules and lists.
use robustmq.Prelude.{
  ℕ, ◌<◌, ◌≡◌, ◌≢◌, inl, refl, ◌⊎◌, ◌↔◌, Bool, true, false, none, some, [], ◌∷◌, ◌++◌, arith,
}
use robustmq.Mqtt.Bytes.{bytes_eq}
use robustmq.Broker.Acl
use robustmq.Broker.Acl.{
  MqttAclResourceType, MqttAclAction, MqttAclPermission, MqttAcl, MqttAclBlackListType,
  MqttAclBlackList, MqttUser, AclMetadata, CacheManager, MqttConnection, Crates, anchored,
  is_acl_deny, is_super_user, is_blacklist, is_allow_acl,
}
use robustmq.Broker.Acl.Metadata.{
  empty, rules, parse_mqtt_acl, remove_mqtt_acl, parse_mqtt_blacklist, rules-parse_mqtt_acl,
  rules-remove_mqtt_acl,
}
use robustmq.Broker.Acl.Rules.{Denied, is_acl_deny_iff}
use robustmq.Broker.Acl.Decision.{is_allow_acl_iff}
use robustmq.Broker.Acl.Banned.{
  SomeEntry, EndsAfter, EndedBefore, MatchesName, CoversIp, is_blacklist_iff,
}
use robustmq.Broker.Acl.Blacklist.{is_blacklist-user, is_blacklist-ip}

-- Patterns that match their own text alone, and no networks.
abbrev literal : Crates
literal = record {
  Address = ℕ;
  Network = ℕ;
  regex = λ pattern. some (λ name. bytes_eq pattern (anchored name));
  parse_ip = λ s. none;
  parse_net = λ s. none;
  contains = λ n a. false;
}

abbrev connection : MqttConnection
connection = record { client_id = 0x63 ∷ []; source_ip_addr = 0x31 ∷ []; login_user = 0x75 ∷ [] }

abbrev rule : MqttAcl
rule = record {
  resource_type = MqttAclResourceType.user;
  resource_name = 0x75 ∷ [];
  topic = 0x74 ∷ [];
  ip = 0x2a ∷ [];
  action = MqttAclAction.publish;
  permission = MqttAclPermission.deny;
}

abbrev metadata : AclMetadata
metadata = record {
  blacklist_user = [];
  blacklist_client_id = [];
  blacklist_ip = [];
  blacklist_user_match = [];
  blacklist_client_id_match = [];
  blacklist_ip_match = [];
  acl_user = (0x75 ∷ [], rule ∷ []) ∷ [];
  acl_client_id = [];
}

abbrev cache : CacheManager
cache = record { user_info = []; acl_metadata = metadata }

abbrev user_entry : MqttAclBlackList
user_entry = record {
  blacklist_type = MqttAclBlackListType.user;
  resource_name = 0x75 ∷ [];
  end_time = 20;
  desc = [];
}

abbrev ip_entry : MqttAclBlackList
ip_entry = record {
  blacklist_type = MqttAclBlackListType.ip;
  resource_name = 0x31 ∷ [];
  end_time = 20;
  desc = [];
}

publish_denied :
    is_allow_acl literal 10 cache connection (0x74 ∷ []) MqttAclAction.publish false ≡ some false
unfolding is_allow_acl is_super_user robustmq.Maps.get is_blacklist Acl.get_blacklist_user_match
    Acl.get_blacklist_client_id_match Acl.get_blacklist_ip_match is_acl_deny bytes_eq
    Acl.is_forbidden
publish_denied = refl

subscribe_allowed :
    is_allow_acl literal 10 cache connection (0x74 ∷ []) MqttAclAction.subscribe false ≡ some true
unfolding is_allow_acl is_super_user robustmq.Maps.get is_blacklist Acl.get_blacklist_user_match
    Acl.get_blacklist_client_id_match Acl.get_blacklist_ip_match is_acl_deny bytes_eq
    Acl.is_forbidden
subscribe_allowed = refl

is_acl_deny_iff_example :
    (is_acl_deny literal cache connection (0x74 ∷ []) MqttAclAction.publish ≡ true)
    ↔ Denied literal connection (0x74 ∷ []) MqttAclAction.publish metadata
is_acl_deny_iff_example = is_acl_deny_iff literal connection (0x74 ∷ []) cache MqttAclAction.publish

is_allow_acl_iff_example :
    (is_allow_acl literal 10 cache connection (0x74 ∷ []) MqttAclAction.subscribe true ≡ some true)
    ↔ ((is_super_user cache (0x75 ∷ []) ≡ true)
        ⊎ ((is_blacklist literal 10 cache connection ≡ some false)
            × (Denied literal connection (0x74 ∷ []) MqttAclAction.subscribe metadata → ⊥)
            × (true ≡ true
                → Denied literal connection (0x74 ∷ []) MqttAclAction.retain metadata
                → ⊥)))
is_allow_acl_iff_example =
    is_allow_acl_iff literal 10 cache connection (0x74 ∷ []) MqttAclAction.subscribe true

-- The user stands among the patterns.
abbrev patterned : CacheManager
patterned = record cache {
  acl_metadata = record metadata {
    blacklist_user_match = (Acl.user_match_key, user_entry ∷ []) ∷ [];
  };
}

is_blacklist_iff_example :
    (b : Bool) × (is_blacklist literal 10 patterned connection ≡ some b)
    × ((b ≡ true) ↔ (
        EndsAfter 10 none
        ⊎ SomeEntry (MatchesName 10 literal (0x75 ∷ [])) (some (user_entry ∷ []))
        ⊎ EndsAfter 10 none
        ⊎ SomeEntry (MatchesName 10 literal (0x63 ∷ [])) none
        ⊎ EndedBefore 10 none
        ⊎ SomeEntry (CoversIp 10 literal (0x31 ∷ [])) none))
unfolding Acl.get_blacklist_user_match robustmq.Maps.get Acl.get_blacklist_client_id_match
    Acl.get_blacklist_ip_match Acl.user_match_key bytes_eq
is_blacklist_iff_example = is_blacklist_iff 10 literal patterned connection ((_, refl), tt) tt

is_blacklist-user_example :
    is_blacklist literal 10
      (record cache { acl_metadata = parse_mqtt_blacklist user_entry metadata })
      connection
    ≡ some true
is_blacklist-user_example =
    is_blacklist-user literal 10 user_entry cache connection refl refl (omega arith)

not_listed : is_blacklist literal 10 cache connection ≡ some false
unfolding is_blacklist Acl.get_blacklist_user_match robustmq.Maps.get
    Acl.get_blacklist_client_id_match Acl.get_blacklist_ip_match
not_listed = refl

is_blacklist-ip_example :
    (is_blacklist literal 10
        (record cache { acl_metadata = parse_mqtt_blacklist ip_entry metadata })
        connection
      ≡ some true)
    ↔ (20 < 10)
is_blacklist-ip_example = is_blacklist-ip literal 10 ip_entry cache connection refl refl not_listed

other_type : MqttAclResourceType.client_id ≢ MqttAclResourceType.user
other_type e = cc

rules-parse_mqtt_acl_example :
    (rules MqttAclResourceType.user (0x75 ∷ []) (parse_mqtt_acl rule metadata)
      ≡ rules MqttAclResourceType.user (0x75 ∷ []) metadata ++ rule ∷ [])
    × (rules MqttAclResourceType.client_id (0x75 ∷ []) (parse_mqtt_acl rule metadata)
        ≡ rules MqttAclResourceType.client_id (0x75 ∷ []) metadata)
rules-parse_mqtt_acl_example =
    rules-parse_mqtt_acl rule MqttAclResourceType.client_id (0x75 ∷ []) metadata (inl other_type)

rules-remove_mqtt_acl_example :
    rules MqttAclResourceType.user
      (0x75 ∷ [])
      (remove_mqtt_acl rule (parse_mqtt_acl (record rule { topic = 0x78 ∷ [] }) empty))
    ≡ []
rules-remove_mqtt_acl_example = rules-remove_mqtt_acl rule (record rule { topic = 0x78 ∷ [] }) empty
