-- ===== src/Broker/Acl/Decision.antt =====
-- The decision: `is_allow_acl` of src/mqtt-broker/src/security/acl/auth.rs.
use robustmq.Prelude.{ℕ, ◌≡◌, ◌⊎◌, inl, inr, ◌↔◌, Bool, true, false, some, arith}
use robustmq.Prelude.{Bool-cases}
use robustmq.Mqtt.Bytes.{Text}
use robustmq.Broker.Acl.{
  MqttAclAction, MqttConnection, CacheManager, Crates, is_acl_deny, is_super_user, is_blacklist,
  is_allow_acl,
}
use robustmq.Broker.Acl.Rules.{Denied, is_acl_deny_iff}

module _ (crates : Crates) (now : ℕ) (cache : CacheManager) (connection : MqttConnection) where
  not-Denied :
      (topic_name : Text) (action : MqttAclAction)
      → is_acl_deny crates cache connection topic_name action ≡ false
      → Denied crates connection topic_name action cache.acl_metadata
      → ⊥
  not-Denied topic_name action e d =
      let t = (is_acl_deny_iff crates connection topic_name cache action).1 d in
      ground (arith, e, t)

  Denied-false :
      (topic_name : Text) (action : MqttAclAction)
      → (Denied crates connection topic_name action cache.acl_metadata → ⊥)
      → is_acl_deny crates cache connection topic_name action ≡ false
  Denied-false topic_name action n =
      elim (Bool-cases (is_acl_deny crates cache connection topic_name action)) [
        | inl e ↦ absurd (n ((is_acl_deny_iff crates connection topic_name cache action).0 e))
        | inr e ↦ e
      ]

  -- An action is allowed exactly to a superuser, and to a connection that is not on the blacklist
  -- and that no rule denies the action nor, for a retained message, the action retain.
  pub is_allow_acl_iff :
      (topic_name : Text) (action : MqttAclAction) (is_retain : Bool)
      → (is_allow_acl crates now cache connection topic_name action is_retain ≡ some true) ↔ (
          (is_super_user cache connection.login_user ≡ true)
          ⊎ ((is_blacklist crates now cache connection ≡ some false)
              × (Denied crates connection topic_name action cache.acl_metadata → ⊥)
              × (is_retain ≡ true
                  → Denied crates connection topic_name MqttAclAction.retain cache.acl_metadata
                  → ⊥)))
  unfolding is_allow_acl
  is_allow_acl_iff topic_name action is_retain = (
    λ h. elim (Bool-cases (is_super_user cache connection.login_user)) [
      | inl e ↦ inl e
      | inr e ↦ inr (
        ground (arith, h, e),
        not-Denied topic_name action (ground (arith, h, e)),
        λ r. not-Denied topic_name MqttAclAction.retain (ground (arith, h, e, r)),
      )
    ],
    λ d. elim d [
      | inl e ↦ ground (arith, e)
      | inr (b, n, k) ↦
          let a = Denied-false topic_name action n in
          elim (Bool-cases is_retain) [
            | inl r ↦ ground (arith, b, a, r, Denied-false topic_name MqttAclAction.retain (k r))
            | inr r ↦ ground (arith, b, a, r)
          ]
    ],
  )
