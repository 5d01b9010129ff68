-- ===== src/Broker/Acl/Rules.antt =====
-- The test of the rules in `is_acl_deny` of src/mqtt-broker/src/security/acl/auth.rs against what
-- a rule says.
use robustmq.Prelude.{◌≡◌, refl, ◌⊎◌, inl, inr, ◌↔◌, true, List, [], ◌∷◌, arith}
use robustmq.Prelude.{Bool-cases, Any}
use robustmq.Mqtt.Bytes.{Text, bytes_eq}
use robustmq.Maps.{bytes_eq_refl, bytes_eq_sound}
use robustmq.Broker.Acl.{
  MqttAclResourceType, MqttAclAction, MqttAclPermission, MqttAcl, MqttConnection, AclMetadata,
  CacheManager, Crates, wildcard_resource, action_eq, is_deny, topic_match, ip_match, is_forbidden,
  listed, any_forbidden, is_acl_deny,
}
use robustmq.Broker.Acl.Metadata.{rules}

action_eq_sound : (a b : MqttAclAction) → action_eq a b ≡ true → a ≡ b
unfolding action_eq
action_eq_sound a b h = ground (arith, h)

action_eq_refl : (a : MqttAclAction) → action_eq a a ≡ true
unfolding action_eq
action_eq_refl a = ground arith

is_deny_sound : (p : MqttAclPermission) → is_deny p ≡ true → p ≡ MqttAclPermission.deny
unfolding is_deny
is_deny_sound MqttAclPermission.allow h = cc
is_deny_sound MqttAclPermission.deny h = refl

bytes_eq_iff : (s t : Text) → (bytes_eq s t ≡ true) ↔ (s ≡ t)
bytes_eq_iff s t = (bytes_eq_sound s t, λ e. rw e (bytes_eq_refl t))

topic_match_iff : (t s : Text) → (topic_match t s ≡ true) ↔ ((s ≡ wildcard_resource) ⊎ (t ≡ s))
unfolding topic_match
topic_match_iff t s = ground (arith, bytes_eq_iff s wildcard_resource, bytes_eq_iff t s)

module _ (crates : Crates) (connection : MqttConnection) (topic_name : Text) where
  -- The rule forbids the action: it covers the topic, the address and the action, and denies.
  pub record Forbids (action : MqttAclAction) (raw : MqttAcl) : Type 0 where
    pub topic_covered : (raw.topic ≡ wildcard_resource) ⊎ (topic_name ≡ raw.topic)
    pub ip_covered : ip_match crates connection.source_ip_addr raw.ip ≡ true
    pub action_covered : (raw.action ≡ action) ⊎ (raw.action ≡ MqttAclAction.all)
    pub denies : raw.permission ≡ MqttAclPermission.deny

  is_forbidden→Forbids :
      (action : MqttAclAction) (raw : MqttAcl)
      → is_forbidden crates connection topic_name action raw ≡ true
      → Forbids action raw
  unfolding is_forbidden
  is_forbidden→Forbids action raw h = record {
    topic_covered = ground (arith, h, topic_match_iff topic_name raw.topic);
    ip_covered = ground (arith, h);
    action_covered =
        ground (
          arith,
          h,
          action_eq_sound raw.action action,
          action_eq_sound raw.action MqttAclAction.all,
        );
    denies = ground (arith, h, is_deny_sound raw.permission);
  }

  Forbids→is_forbidden :
      (action : MqttAclAction) (raw : MqttAcl)
      → Forbids action raw
      → is_forbidden crates connection topic_name action raw ≡ true
  unfolding is_forbidden is_deny
  Forbids→is_forbidden action raw f = ground (
    arith,
    f.topic_covered,
    f.ip_covered,
    f.action_covered,
    f.denies,
    topic_match_iff topic_name raw.topic,
    action_eq_refl action,
    action_eq_refl MqttAclAction.all,
  )

  forbidden→Any :
      (action : MqttAclAction) (raws : List MqttAcl)
      → any_forbidden crates connection topic_name action raws ≡ true
      → Any (Forbids action) raws
  unfolding any_forbidden
  forbidden→Any action [] h = cc
  forbidden→Any action (raw ∷ rest) h =
      elim (Bool-cases (is_forbidden crates connection topic_name action raw)) [
        | inl e ↦ inl (is_forbidden→Forbids action raw e)
        | inr e ↦ inr (forbidden→Any action rest (ground (arith, h, e)))
      ]

  Any→forbidden :
      (action : MqttAclAction) (raws : List MqttAcl)
      → Any (Forbids action) raws
      → any_forbidden crates connection topic_name action raws ≡ true
  unfolding any_forbidden
  Any→forbidden action [] h = absurd h
  Any→forbidden action (raw ∷ rest) (inl f) = ground (arith, Forbids→is_forbidden action raw f)
  Any→forbidden action (raw ∷ rest) (inr h) = ground (arith, Any→forbidden action rest h)

  -- A rule of the login or of the client forbids the action.
  abbrev pub Denied : MqttAclAction → AclMetadata → Type 0
  Denied action m =
      Any (Forbids action) (rules MqttAclResourceType.user connection.login_user m)
      ⊎ Any (Forbids action) (rules MqttAclResourceType.client_id connection.client_id m)

  -- `is_acl_deny` answers true exactly if a rule of the login or of the client id covers the
  -- topic, the address and the action, and denies.
  pub is_acl_deny_iff :
      (cache : CacheManager) (action : MqttAclAction)
      → (is_acl_deny crates cache connection topic_name action ≡ true)
        ↔ Denied action cache.acl_metadata
  unfolding is_acl_deny rules
  is_acl_deny_iff cache action =
      let users = listed cache.acl_metadata.acl_user connection.login_user in
      let clients = listed cache.acl_metadata.acl_client_id connection.client_id in
      (
        λ h. elim (Bool-cases (any_forbidden crates connection topic_name action users)) [
          | inl e ↦ inl (forbidden→Any action users e)
          | inr e ↦ inr (forbidden→Any action clients (ground (arith, h, e)))
        ],
        λ d. elim d [
          | inl u ↦ ground (arith, Any→forbidden action users u)
          | inr c ↦ ground (arith, Any→forbidden action clients c)
        ],
      )
