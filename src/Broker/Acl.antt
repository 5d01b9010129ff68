-- ===== src/Broker/Acl.antt =====
-- Access control: src/mqtt-broker/src/security/acl/auth.rs, and the rules it reads, of
-- src/common/metadata-struct/src/acl.
pub mod Metadata
pub mod Rules
pub mod Decision
pub mod Banned
pub mod Blacklist
pub mod Tests
use robustmq.Prelude.{
  ℕ, Bool, true, false, not, ◌&&◌, ◌||◌, Option, none, some, List, [], ◌∷◌, ◌++◌,
}
use robustmq.Prelude.{ltb, if◌then◌else◌}
use robustmq.Mqtt.Bytes.{Text, bytes_eq}
use robustmq.Maps.{DashMap, get}

pub data MqttAclResourceType : Type 0 where
  client_id : MqttAclResourceType
  user : MqttAclResourceType

pub data MqttAclAction : Type 0 where
  all : MqttAclAction
  subscribe : MqttAclAction
  publish : MqttAclAction
  pub_sub : MqttAclAction
  retain : MqttAclAction
  qos : MqttAclAction

pub data MqttAclPermission : Type 0 where
  allow : MqttAclPermission
  deny : MqttAclPermission

pub record MqttAcl : Type 0 where
  pub resource_type : MqttAclResourceType
  pub resource_name : Text
  pub topic : Text
  pub ip : Text
  pub action : MqttAclAction
  pub permission : MqttAclPermission

pub data MqttAclBlackListType : Type 0 where
  client_id : MqttAclBlackListType
  user : MqttAclBlackListType
  ip : MqttAclBlackListType
  client_id_match : MqttAclBlackListType
  user_match : MqttAclBlackListType
  ip_cidr : MqttAclBlackListType

pub record MqttAclBlackList : Type 0 where
  pub blacklist_type : MqttAclBlackListType
  pub resource_name : Text
  pub end_time : ℕ
  pub desc : Text

pub record MqttUser : Type 0 where
  pub username : Text
  pub password : Text
  pub is_superuser : Bool

-- Of `AclMetadata`, all but the map of the flapping detection.
pub record AclMetadata : Type 0 where
  pub blacklist_user : DashMap MqttAclBlackList
  pub blacklist_client_id : DashMap MqttAclBlackList
  pub blacklist_ip : DashMap MqttAclBlackList
  pub blacklist_user_match : DashMap (List MqttAclBlackList)
  pub blacklist_client_id_match : DashMap (List MqttAclBlackList)
  pub blacklist_ip_match : DashMap (List MqttAclBlackList)
  pub acl_user : DashMap (List MqttAcl)
  pub acl_client_id : DashMap (List MqttAcl)

-- What access control reads of the cache and of a connection.
pub record CacheManager : Type 0 where
  pub user_info : DashMap MqttUser
  pub acl_metadata : AclMetadata

pub record MqttConnection : Type 0 where
  pub client_id : Text
  pub source_ip_addr : Text
  pub login_user : Text

-- The keys under which the lists of patterns stand.
unfoldable pub client_id_match_key : Text
client_id_match_key =
    0x43 ∷ 0x6c ∷ 0x69 ∷ 0x65 ∷ 0x6e ∷ 0x74 ∷ 0x49 ∷ 0x64 ∷ 0x4d ∷ 0x61 ∷ 0x74 ∷ 0x63 ∷ 0x68 ∷ []

unfoldable pub user_match_key : Text
user_match_key = 0x55 ∷ 0x73 ∷ 0x65 ∷ 0x72 ∷ 0x4d ∷ 0x61 ∷ 0x74 ∷ 0x63 ∷ 0x68 ∷ []

unfoldable pub ip_cidr_key : Text
ip_cidr_key = 0x49 ∷ 0x50 ∷ 0x43 ∷ 0x49 ∷ 0x44 ∷ 0x52 ∷ []

unfoldable pub get_blacklist_user_match : AclMetadata → Option (List MqttAclBlackList)
get_blacklist_user_match m = get user_match_key m.blacklist_user_match

unfoldable pub get_blacklist_client_id_match : AclMetadata → Option (List MqttAclBlackList)
get_blacklist_client_id_match m = get client_id_match_key m.blacklist_client_id_match

unfoldable pub get_blacklist_ip_match : AclMetadata → Option (List MqttAclBlackList)
get_blacklist_ip_match m = get ip_cidr_key m.blacklist_ip_match

unfoldable pub wildcard_resource : Text
wildcard_resource = 0x2a ∷ []

unfoldable pub action_eq : MqttAclAction → MqttAclAction → Bool
action_eq MqttAclAction.all MqttAclAction.all = true
action_eq MqttAclAction.subscribe MqttAclAction.subscribe = true
action_eq MqttAclAction.publish MqttAclAction.publish = true
action_eq MqttAclAction.pub_sub MqttAclAction.pub_sub = true
action_eq MqttAclAction.retain MqttAclAction.retain = true
action_eq MqttAclAction.qos MqttAclAction.qos = true
action_eq _ _ = false

unfoldable pub is_deny : MqttAclPermission → Bool
is_deny MqttAclPermission.allow = false
is_deny MqttAclPermission.deny = true

unfoldable pub topic_match : Text → Text → Bool
unfolding wildcard_resource
topic_match topic_name match_topic_name =
    if bytes_eq match_topic_name wildcard_resource
    then true
    else bytes_eq topic_name match_topic_name

is_empty : Text → Bool
is_empty [] = true
is_empty (c ∷ cs) = false

unfoldable pub is_super_user : CacheManager → Text → Bool
unfolding is_empty
is_super_user cache username =
    if is_empty username
    then false
    else elim (get username cache.user_info) [ none ↦ false | some u ↦ u.is_superuser ]

-- The loop of the source ends at the first hit; `none` is the panic of an `unwrap`.
abbrev pub or_else : Option Bool → Option Bool → Option Bool
or_else none next = none
or_else (some true) next = some true
or_else (some false) next = next

-- `if let Some(list) = map.get(key)` around a loop.
unfoldable pub or_empty : Option (List MqttAcl) → List MqttAcl
or_empty none = []
or_empty (some rules) = rules

unfoldable pub listed : DashMap (List MqttAcl) → Text → List MqttAcl
unfolding or_empty
listed map key = or_empty (get key map)

-- `format!("^{}$", name)`.
abbrev pub anchored : Text → Text
anchored name = (0x5e ∷ name) ++ 0x24 ∷ []

-- `data.end_time > now_second()`.
unfoldable pub banned : ℕ → Option MqttAclBlackList → Bool
banned now none = false
banned now (some entry) = ltb now entry.end_time

-- `data.end_time < now_second()`, as the source has it for addresses.
unfoldable pub ip_banned : ℕ → Option MqttAclBlackList → Bool
ip_banned now none = false
ip_banned now (some entry) = ltb entry.end_time now

-- What the crates do. `regex` compiles a pattern, none for one that it refuses; `parse_ip` and
-- `parse_net` read an address and a network, none for what they refuse.
pub record Crates : Type 1 where
  pub Address : Type 0
  pub Network : Type 0
  pub regex : Text → Option (Text → Bool)
  pub parse_ip : Text → Option Address
  pub parse_net : Text → Option Network
  pub contains : Network → Address → Bool

module _ (crates : Crates) where
  -- The two `if let Ok` of `ip_match`.
  cidr_match : Option crates.Address → Option crates.Network → Bool
  cidr_match none n = false
  cidr_match (some a) none = false
  cidr_match (some a) (some n) = crates.contains n a

  unfoldable pub ip_match : Text → Text → Bool
  unfolding wildcard_resource cidr_match
  ip_match source_ip_addr ip_role =
      if bytes_eq ip_role wildcard_resource
      then true
      else if bytes_eq source_ip_addr ip_role
      then true
      else cidr_match (crates.parse_ip source_ip_addr) (crates.parse_net ip_role)

  -- The test of a rule in `is_acl_deny`.
  unfoldable pub is_forbidden : MqttConnection → Text → MqttAclAction → MqttAcl → Bool
  unfolding topic_match ip_match action_eq is_deny
  is_forbidden connection topic_name action raw =
      topic_match topic_name raw.topic
      && ip_match connection.source_ip_addr raw.ip
      && (action_eq raw.action action || action_eq raw.action MqttAclAction.all)
      && is_deny raw.permission

  unfoldable pub any_forbidden : MqttConnection → Text → MqttAclAction → List MqttAcl → Bool
  any_forbidden connection topic_name action [] = false
  any_forbidden connection topic_name action (raw ∷ rest) =
      is_forbidden connection topic_name action raw
      || any_forbidden connection topic_name action rest

  unfoldable pub is_acl_deny : CacheManager → MqttConnection → Text → MqttAclAction → Bool
  unfolding any_forbidden listed
  is_acl_deny cache connection topic_name action =
      any_forbidden connection topic_name action
        (listed cache.acl_metadata.acl_user connection.login_user)
      || any_forbidden connection topic_name action
          (listed cache.acl_metadata.acl_client_id connection.client_id)

  -- `Regex::new(...).unwrap()` in a loop over the patterns.
  unfoldable pub match_banned : ℕ → Text → List MqttAclBlackList → Option Bool
  match_banned now name [] = some false
  match_banned now name (raw ∷ rest) =
      let next = match_banned now name rest in
      elim (crates.regex (anchored raw.resource_name)) [
        | none ↦ none
        | some is_match ↦ or_else (some (is_match name && ltb now raw.end_time)) next
      ]

  unfoldable pub listed_match_banned : ℕ → Text → Option (List MqttAclBlackList) → Option Bool
  unfolding match_banned
  listed_match_banned now name none = some false
  listed_match_banned now name (some entry) = match_banned now name entry

  unfoldable pub ip_match_banned : ℕ → Text → List MqttAclBlackList → Bool
  ip_match_banned now source_ip_addr [] = false
  ip_match_banned now source_ip_addr (raw ∷ rest) =
      (ip_match source_ip_addr raw.resource_name && ltb raw.end_time now)
      || ip_match_banned now source_ip_addr rest

  unfoldable pub listed_ip_match_banned : ℕ → Text → Option (List MqttAclBlackList) → Bool
  unfolding ip_match_banned
  listed_ip_match_banned now source_ip_addr none = false
  listed_ip_match_banned now source_ip_addr (some entry) = ip_match_banned now source_ip_addr entry

  -- Every call of `now_second()` within one check gives `now`.
  unfoldable pub is_blacklist : ℕ → CacheManager → MqttConnection → Option Bool
  unfolding banned listed_match_banned ip_banned listed_ip_match_banned
  is_blacklist now cache connection =
      let m = cache.acl_metadata in
      or_else (some (banned now (get connection.login_user m.blacklist_user))) (
        or_else (listed_match_banned now connection.login_user (get_blacklist_user_match m)) (
          or_else (some (banned now (get connection.client_id m.blacklist_client_id))) (
            or_else (listed_match_banned now connection.client_id (get_blacklist_client_id_match m))
              (or_else (some (ip_banned now (get connection.source_ip_addr m.blacklist_ip))) (
                some (
                  listed_ip_match_banned now connection.source_ip_addr
                    (get_blacklist_ip_match m)))))))

  unfoldable pub is_allow_acl :
      ℕ → CacheManager → MqttConnection → Text → MqttAclAction → Bool → Option Bool
  is_allow_acl now cache connection topic_name action is_retain =
      if is_super_user cache connection.login_user
      then some true
      else elim (is_blacklist now cache connection) [
        | none ↦ none
        | some true ↦ some false
        | some false ↦ some (
            not (is_acl_deny cache connection topic_name action)
            && not (is_retain && is_acl_deny cache connection topic_name MqttAclAction.retain))
      ]
