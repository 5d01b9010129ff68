-- ===== src/Broker/Acl/Blacklist.antt =====
-- The blacklist: `is_blacklist` of src/mqtt-broker/src/security/acl/auth.rs on what
-- `parse_mqtt_blacklist` of src/mqtt-broker/src/security/acl/metadata.rs keeps.
use robustmq.Prelude.{
  ℕ, ◌≡◌, ◌<◌, refl, sym, ap, ◌∙◌, ◌↔◌, Bool, true, false, Option, none, some, arith,
}
use robustmq.Prelude.{ltb, lt→ltb}
use robustmq.Mqtt.Bytes.{Text}
use robustmq.Maps.{DashMap, get, insert, get-insert}
use robustmq.Broker.Acl.{
  MqttAclBlackListType, MqttAclBlackList, AclMetadata, MqttConnection, CacheManager, Crates,
  get_blacklist_user_match, get_blacklist_client_id_match, get_blacklist_ip_match, or_else, banned,
  ip_banned, listed_match_banned, listed_ip_match_banned, is_blacklist,
}
use robustmq.Broker.Acl.Metadata.{parse_mqtt_blacklist, add_blacklist}

parse-user :
    (b : MqttAclBlackList) (m : AclMetadata)
    → b.blacklist_type ≡ MqttAclBlackListType.user
    → parse_mqtt_blacklist b m
      ≡ record m { blacklist_user = insert b.resource_name b m.blacklist_user }
unfolding parse_mqtt_blacklist add_blacklist
parse-user b m t = ap (λ x. add_blacklist x b m) t

parse-ip :
    (b : MqttAclBlackList) (m : AclMetadata)
    → b.blacklist_type ≡ MqttAclBlackListType.ip
    → parse_mqtt_blacklist b m ≡ record m { blacklist_ip = insert b.resource_name b m.blacklist_ip }
unfolding parse_mqtt_blacklist add_blacklist
parse-ip b m t = ap (λ x. add_blacklist x b m) t

get-insert_eq :
    (k : Text) (b : MqttAclBlackList) (m : DashMap MqttAclBlackList)
    → b.resource_name ≡ k
    → get k (insert b.resource_name b m) ≡ some b
get-insert_eq k b m e =
    ap (λ x. get x (insert b.resource_name b m)) (sym e) ∙ get-insert b.resource_name b m

or_else-false : (x y : Option Bool) → or_else x y ≡ some false → (x ≡ some false) × (y ≡ some false)
or_else-false none y h = cc
or_else-false (some true) y h = cc
or_else-false (some false) y h = (refl, h)

-- In a chain of tests that all fail, a fifth test put in the place of the old one decides.
fifth_alone :
    (a b c d e f : Option Bool) (t : Bool)
    → or_else a (or_else b (or_else c (or_else d (or_else e f)))) ≡ some false
    → or_else a (or_else b (or_else c (or_else d (or_else (some t) f)))) ≡ some t
fifth_alone a b c d e f t h =
    let (a', h') = or_else-false a (or_else b (or_else c (or_else d (or_else e f)))) h in
    let (b', h2) = or_else-false b (or_else c (or_else d (or_else e f))) h' in
    let (c', h3) = or_else-false c (or_else d (or_else e f)) h2 in
    let (d', h4) = or_else-false d (or_else e f) h3 in
    let (e', f') = or_else-false e f h4 in rw (a', b', c', d', f') (ground arith)

module _ (crates : Crates) (now : ℕ) where
  -- A user put on the blacklist until after now is on it.
  pub is_blacklist-user :
      (b : MqttAclBlackList) (cache : CacheManager) (connection : MqttConnection)
      → b.blacklist_type ≡ MqttAclBlackListType.user
      → b.resource_name ≡ connection.login_user
      → now < b.end_time
      → is_blacklist crates now
          (record cache { acl_metadata = parse_mqtt_blacklist b cache.acl_metadata })
          connection
        ≡ some true
  unfolding is_blacklist parse_mqtt_blacklist add_blacklist banned
  is_blacklist-user b cache connection t n h =
      ap (λ m. is_blacklist crates now (record cache { acl_metadata = m }) connection)
        (parse-user b cache.acl_metadata t)
      ∙ rw
          (
            get-insert_eq connection.login_user b cache.acl_metadata.blacklist_user n,
            lt→ltb now b.end_time h,
          )
          refl

  -- The address of a connection that is not on the blacklist is put on it: the connection is then
  -- refused exactly when the end of the entry has passed, and not before.
  pub is_blacklist-ip :
      (b : MqttAclBlackList) (cache : CacheManager) (connection : MqttConnection)
      → b.blacklist_type ≡ MqttAclBlackListType.ip
      → b.resource_name ≡ connection.source_ip_addr
      → is_blacklist crates now cache connection ≡ some false
      → (is_blacklist crates now
            (record cache { acl_metadata = parse_mqtt_blacklist b cache.acl_metadata })
            connection
          ≡ some true)
        ↔ (b.end_time < now)
  unfolding is_blacklist parse_mqtt_blacklist add_blacklist ip_banned get_blacklist_user_match
      get_blacklist_client_id_match get_blacklist_ip_match
  is_blacklist-ip b cache connection t n h =
      let m = cache.acl_metadata in
      let fifth =
        fifth_alone (some (banned now (get connection.login_user m.blacklist_user)))
          (listed_match_banned crates now connection.login_user (get_blacklist_user_match m))
          (some (banned now (get connection.client_id m.blacklist_client_id)))
          (listed_match_banned crates now connection.client_id (get_blacklist_client_id_match m))
          (some (ip_banned now (get connection.source_ip_addr m.blacklist_ip)))
          (some (
            listed_ip_match_banned crates now connection.source_ip_addr (get_blacklist_ip_match m)))
          (ltb b.end_time now) h in
      rw (parse-ip b m t, get-insert_eq connection.source_ip_addr b m.blacklist_ip n, fifth)
        (λ e. ground (arith, e), λ l. ground (arith, l))
