-- ===== src/Broker/Acl/Metadata.antt =====
-- Keeping the rules: `AclMetadata` of src/mqtt-broker/src/security/acl/metadata.rs.
use robustmq.Prelude.{◌≡◌, ◌≢◌, ◌⊎◌, inl, inr, refl, false, Option, none, some, List, [], ◌∷◌, ◌++◌}
use robustmq.Mqtt.Bytes.{Text, bytes_eq}
use robustmq.Maps.{DashMap, get, insert, remove, get-insert, get-insert_other, get-remove}
use robustmq.Broker.Acl.{
  MqttAclResourceType, MqttAclBlackListType, MqttAcl, MqttAclBlackList, AclMetadata,
  client_id_match_key, user_match_key, ip_cidr_key, or_empty, listed,
}

-- `new`.
unfoldable pub empty : AclMetadata
empty = record {
  blacklist_user = [];
  blacklist_client_id = [];
  blacklist_ip = [];
  blacklist_user_match = [];
  blacklist_client_id_match = [];
  blacklist_ip_match = [];
  acl_user = [];
  acl_client_id = [];
}

-- `if let Some(mut raw) = map.get_mut(key) { raw.push(x) } else { map.insert(key, vec![x]) }`.
abbrev pushed : {V : Type 0} → Option (List V) → V → List V
pushed none x = x ∷ []
pushed (some xs) x = xs ++ x ∷ []

unfoldable pub push : {V : Type 0} → Text → V → DashMap (List V) → DashMap (List V)
push key x m = insert key (pushed (get key m) x) m

-- The matches on the type of the rule.
unfoldable pub add_acl : MqttAclResourceType → MqttAcl → AclMetadata → AclMetadata
unfolding push
add_acl MqttAclResourceType.client_id acl m = record m {
  acl_client_id = push acl.resource_name acl m.acl_client_id;
}
add_acl MqttAclResourceType.user acl m = record m {
  acl_user = push acl.resource_name acl m.acl_user;
}

unfoldable pub parse_mqtt_acl : MqttAcl → AclMetadata → AclMetadata
unfolding add_acl
parse_mqtt_acl acl m = add_acl acl.resource_type acl m

unfoldable pub delete_acl : MqttAclResourceType → Text → AclMetadata → AclMetadata
delete_acl MqttAclResourceType.client_id resource_name m = record m {
  acl_client_id = remove resource_name m.acl_client_id;
}
delete_acl MqttAclResourceType.user resource_name m = record m {
  acl_user = remove resource_name m.acl_user;
}

unfoldable pub remove_mqtt_acl : MqttAcl → AclMetadata → AclMetadata
unfolding delete_acl
remove_mqtt_acl acl m = delete_acl acl.resource_type acl.resource_name m

unfoldable pub add_blacklist : MqttAclBlackListType → MqttAclBlackList → AclMetadata → AclMetadata
unfolding push
add_blacklist MqttAclBlackListType.client_id b m = record m {
  blacklist_client_id = insert b.resource_name b m.blacklist_client_id;
}
add_blacklist MqttAclBlackListType.user b m = record m {
  blacklist_user = insert b.resource_name b m.blacklist_user;
}
add_blacklist MqttAclBlackListType.ip b m = record m {
  blacklist_ip = insert b.resource_name b m.blacklist_ip;
}
add_blacklist MqttAclBlackListType.client_id_match b m = record m {
  blacklist_client_id_match = push client_id_match_key b m.blacklist_client_id_match;
}
add_blacklist MqttAclBlackListType.user_match b m = record m {
  blacklist_user_match = push user_match_key b m.blacklist_user_match;
}
add_blacklist MqttAclBlackListType.ip_cidr b m = record m {
  blacklist_ip_match = push ip_cidr_key b m.blacklist_ip_match;
}

unfoldable pub parse_mqtt_blacklist : MqttAclBlackList → AclMetadata → AclMetadata
unfolding add_blacklist
parse_mqtt_blacklist b m = add_blacklist b.blacklist_type b m

unfoldable pub delete_blacklist : MqttAclBlackListType → Text → AclMetadata → AclMetadata
delete_blacklist MqttAclBlackListType.client_id resource_name m = record m {
  blacklist_client_id = remove resource_name m.blacklist_client_id;
}
delete_blacklist MqttAclBlackListType.user resource_name m = record m {
  blacklist_user = remove resource_name m.blacklist_user;
}
delete_blacklist MqttAclBlackListType.ip resource_name m = record m {
  blacklist_ip = remove resource_name m.blacklist_ip;
}
delete_blacklist MqttAclBlackListType.client_id_match resource_name m = record m {
  blacklist_client_id_match = remove client_id_match_key m.blacklist_client_id_match;
}
delete_blacklist MqttAclBlackListType.user_match resource_name m = record m {
  blacklist_user_match = remove user_match_key m.blacklist_user_match;
}
delete_blacklist MqttAclBlackListType.ip_cidr resource_name m = record m {
  blacklist_ip_match = remove ip_cidr_key m.blacklist_ip_match;
}

unfoldable pub remove_mqtt_blacklist : MqttAclBlackList → AclMetadata → AclMetadata
unfolding delete_blacklist
remove_mqtt_blacklist b m = delete_blacklist b.blacklist_type b.resource_name m

-- The rules of a resource.
unfoldable pub rules : MqttAclResourceType → Text → AclMetadata → List MqttAcl
rules MqttAclResourceType.client_id name m = listed m.acl_client_id name
rules MqttAclResourceType.user name m = listed m.acl_user name

or_empty-pushed : (o : Option (List MqttAcl)) (x : MqttAcl) → pushed o x ≡ or_empty o ++ x ∷ []
unfolding or_empty
or_empty-pushed none x = refl
or_empty-pushed (some xs) x = refl

listed-push :
    (key : Text) (x : MqttAcl) (m : DashMap (List MqttAcl))
    → listed (push key x m) key ≡ listed m key ++ x ∷ []
unfolding listed push or_empty
listed-push key x m = rw (get-insert key (pushed (get key m) x) m) (or_empty-pushed (get key m) x)

listed-push_other :
    (key other : Text) (x : MqttAcl) (m : DashMap (List MqttAcl))
    → bytes_eq key other ≡ false
    → listed (push other x m) key ≡ listed m key
unfolding listed push
listed-push_other key other x m h =
    rw (get-insert_other key other (pushed (get other m) x) m h) refl

rules-add_acl :
    (t : MqttAclResourceType) (acl : MqttAcl) (m : AclMetadata)
    → rules t acl.resource_name (add_acl t acl m) ≡ rules t acl.resource_name m ++ acl ∷ []
unfolding rules add_acl
rules-add_acl MqttAclResourceType.client_id acl m =
    listed-push acl.resource_name acl m.acl_client_id
rules-add_acl MqttAclResourceType.user acl m = listed-push acl.resource_name acl m.acl_user

rules-add_acl_other :
    (t s : MqttAclResourceType) (name : Text) (acl : MqttAcl) (m : AclMetadata)
    → bytes_eq name acl.resource_name ≡ false
    → rules t name (add_acl s acl m) ≡ rules t name m
unfolding rules add_acl
rules-add_acl_other MqttAclResourceType.client_id MqttAclResourceType.client_id name acl m h =
    listed-push_other name acl.resource_name acl m.acl_client_id h
rules-add_acl_other MqttAclResourceType.client_id MqttAclResourceType.user name acl m h = refl
rules-add_acl_other MqttAclResourceType.user MqttAclResourceType.client_id name acl m h = refl
rules-add_acl_other MqttAclResourceType.user MqttAclResourceType.user name acl m h =
    listed-push_other name acl.resource_name acl m.acl_user h

rules-add_acl_type :
    (t s : MqttAclResourceType) (name : Text) (acl : MqttAcl) (m : AclMetadata)
    → t ≢ s
    → rules t name (add_acl s acl m) ≡ rules t name m
unfolding rules add_acl
rules-add_acl_type MqttAclResourceType.client_id MqttAclResourceType.client_id name acl m h =
    absurd (h refl)
rules-add_acl_type MqttAclResourceType.client_id MqttAclResourceType.user name acl m h = refl
rules-add_acl_type MqttAclResourceType.user MqttAclResourceType.client_id name acl m h = refl
rules-add_acl_type MqttAclResourceType.user MqttAclResourceType.user name acl m h = absurd (h refl)

-- `parse_mqtt_acl` puts a rule behind the others of its resource, and leaves as they are the rules
-- of every resource of another type or of another name.
pub rules-parse_mqtt_acl :
    (acl : MqttAcl) (t : MqttAclResourceType) (name : Text) (m : AclMetadata)
    → (t ≢ acl.resource_type) ⊎ (bytes_eq name acl.resource_name ≡ false)
    → (rules acl.resource_type acl.resource_name (parse_mqtt_acl acl m)
        ≡ rules acl.resource_type acl.resource_name m ++ acl ∷ [])
      × (rules t name (parse_mqtt_acl acl m) ≡ rules t name m)
unfolding parse_mqtt_acl
rules-parse_mqtt_acl acl t name m d = (
  rules-add_acl acl.resource_type acl m,
  elim d [
    | inl h ↦ rules-add_acl_type t acl.resource_type name acl m h
    | inr h ↦ rules-add_acl_other t acl.resource_type name acl m h
  ],
)

rules-delete_acl :
    (t : MqttAclResourceType) (name : Text) (m : AclMetadata)
    → rules t name (delete_acl t name m) ≡ []
unfolding rules delete_acl listed or_empty
rules-delete_acl MqttAclResourceType.client_id name m = rw (get-remove name m.acl_client_id) refl
rules-delete_acl MqttAclResourceType.user name m = rw (get-remove name m.acl_user) refl

-- `remove_mqtt_acl` takes away every rule of the resource, also after rules were added, whichever
-- rule it is given.
pub rules-remove_mqtt_acl :
    (acl other : MqttAcl) (m : AclMetadata)
    → rules acl.resource_type acl.resource_name (remove_mqtt_acl acl (parse_mqtt_acl other m)) ≡ []
unfolding remove_mqtt_acl
rules-remove_mqtt_acl acl other m =
    rules-delete_acl acl.resource_type acl.resource_name (parse_mqtt_acl other m)
