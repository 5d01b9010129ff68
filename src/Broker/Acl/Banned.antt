-- ===== src/Broker/Acl/Banned.antt =====
-- The answer of `is_blacklist` of src/mqtt-broker/src/security/acl/auth.rs against what the lists
-- say.
use robustmq.Prelude.{
  ℕ, ◌≡◌, ◌<◌, refl, sym, ap, ◌∙◌, subst, ◌⊎◌, inl, inr, ◌↔◌, Bool, true, false, ◌&&◌, Option, none,
  some, List, [], ◌∷◌, arith,
}
use robustmq.Prelude.{ltb, Bool-cases, All, Any}
use robustmq.Mqtt.Bytes.{Text}
use robustmq.Maps.{get}
use robustmq.Broker.Acl.{
  MqttAclBlackList, MqttConnection, CacheManager, Crates, anchored, get_blacklist_user_match,
  get_blacklist_client_id_match, get_blacklist_ip_match, or_else, banned, ip_banned, ip_match,
  match_banned, listed_match_banned, ip_match_banned, listed_ip_match_banned, is_blacklist,
}

-- The computation answers, and the answer is true exactly when the statement holds.
abbrev pub Decides : Option Bool → Type 0 → Type 0
Decides o P = (b : Bool) × (o ≡ some b) × ((b ≡ true) ↔ P)

or_else-Decides :
    {P Q : Type 0} (x y : Option Bool) → Decides x P → Decides y Q → Decides (or_else x y) (P ⊎ Q)
or_else-Decides x y (true, e, i) q = (true, rw e refl, (λ h. inl (i.0 refl), λ d. refl))
or_else-Decides x y (false, e, i) (b, f, j) =
    (b, rw e f, (λ h. inr (j.0 h), λ d. elim d [ inl p ↦ cc (i.1 p) | inr q ↦ j.1 q ]))

-- A list of patterns, where there is one, has an entry with the property.
abbrev pub SomeEntry : (MqttAclBlackList → Type 0) → Option (List MqttAclBlackList) → Type 0
SomeEntry P none = ⊥
SomeEntry P (some raws) = Any P raws

module _ (now : ℕ) where
  -- The entry, where there is one, ends after now, or ended before.
  abbrev pub EndsAfter : Option MqttAclBlackList → Type 0
  EndsAfter none = ⊥
  EndsAfter (some entry) = now < entry.end_time

  abbrev pub EndedBefore : Option MqttAclBlackList → Type 0
  EndedBefore none = ⊥
  EndedBefore (some entry) = entry.end_time < now

  banned-Decides : (o : Option MqttAclBlackList) → Decides (some (banned now o)) (EndsAfter o)
  unfolding banned
  banned-Decides none = (false, refl, (λ h. cc, λ d. absurd d))
  banned-Decides (some entry) =
      (ltb now entry.end_time, refl, (λ h. ground (arith, h), λ d. ground (arith, d)))

  ip_banned-Decides :
      (o : Option MqttAclBlackList) → Decides (some (ip_banned now o)) (EndedBefore o)
  unfolding ip_banned
  ip_banned-Decides none = (false, refl, (λ h. cc, λ d. absurd d))
  ip_banned-Decides (some entry) =
      (ltb entry.end_time now, refl, (λ h. ground (arith, h), λ d. ground (arith, d)))

module _ (now : ℕ) (crates : Crates) where
  -- The patterns of a list are patterns that the crate compiles.
  abbrev pub Compiles : Option (List MqttAclBlackList) → Type 0
  Compiles none = Unit
  Compiles (some raws) =
      All (λ raw. (f : Text → Bool) × (crates.regex (anchored raw.resource_name) ≡ some f)) raws

  -- The pattern of the entry matches the name, and the entry ends after now.
  abbrev pub MatchesName : Text → MqttAclBlackList → Type 0
  MatchesName name raw =
      (f : Text → Bool) × (crates.regex (anchored raw.resource_name) ≡ some f)
      × (f name ≡ true)
      × (now < raw.end_time)

  -- The entry covers the address, and ended before now.
  abbrev pub CoversIp : Text → MqttAclBlackList → Type 0
  CoversIp source_ip_addr raw =
      (ip_match crates source_ip_addr raw.resource_name ≡ true) × (raw.end_time < now)

  match_banned_step :
      (name : Text) (raw : MqttAclBlackList) (rest : List MqttAclBlackList) (f : Text → Bool)
      → crates.regex (anchored raw.resource_name) ≡ some f
      → match_banned crates now name (raw ∷ rest)
        ≡ or_else (some (f name && ltb now raw.end_time)) (match_banned crates now name rest)
  unfolding match_banned
  match_banned_step name raw rest f e = rw (e, match_banned) refl

  pattern-Decides :
      (name : Text) (raw : MqttAclBlackList) (f : Text → Bool)
      → crates.regex (anchored raw.resource_name) ≡ some f
      → Decides (some (f name && ltb now raw.end_time)) (MatchesName name raw)
  pattern-Decides name raw f e = (
    f name && ltb now raw.end_time,
    refl,
    (
      λ h. (f, e, ground (arith, h), ground (arith, h)),
      λ (g, e', m, t).
          let same : f ≡ g = cc (e, e') in
          let matched : f name ≡ true = ap (λ k. k name) same ∙ m in ground (arith, matched, t),
    ),
  )

  match_banned-Decides :
      (name : Text) (raws : List MqttAclBlackList)
      → Compiles (some raws)
      → Decides (match_banned crates now name raws) (Any (MatchesName name) raws)
  unfolding match_banned
  match_banned-Decides name [] c = (false, refl, (λ h. cc, λ d. absurd d))
  match_banned-Decides name (raw ∷ rest) ((f, e), c) =
      subst (λ o. Decides o (Any (MatchesName name) (raw ∷ rest)))
        (sym (match_banned_step name raw rest f e))
        (or_else-Decides _ _ (pattern-Decides name raw f e) (match_banned-Decides name rest c))

  listed_match_banned-Decides :
      (name : Text) (o : Option (List MqttAclBlackList))
      → Compiles o
      → Decides (listed_match_banned crates now name o) (SomeEntry (MatchesName name) o)
  unfolding listed_match_banned
  listed_match_banned-Decides name none c = (false, refl, (λ h. cc, λ d. absurd d))
  listed_match_banned-Decides name (some raws) c = match_banned-Decides name raws c

  ip_match_banned_iff :
      (ip : Text) (raws : List MqttAclBlackList)
      → (ip_match_banned crates now ip raws ≡ true) ↔ Any (CoversIp ip) raws
  unfolding ip_match_banned
  ip_match_banned_iff ip [] = (λ h. cc, λ d. absurd d)
  ip_match_banned_iff ip (raw ∷ rest) =
      let i = ip_match_banned_iff ip rest in
      (
        λ h. elim (Bool-cases (ip_match crates ip raw.resource_name && ltb raw.end_time now)) [
          | inl t ↦ inl (ground (arith, t), ground (arith, t))
          | inr t ↦ inr (i.0 (ground (arith, h, t)))
        ],
        λ d. elim d [ inl (m, t) ↦ ground (arith, m, t) | inr a ↦ ground (arith, i.1 a) ],
      )

  listed_ip_match_banned-Decides :
      (ip : Text) (o : Option (List MqttAclBlackList))
      → Decides (some (listed_ip_match_banned crates now ip o)) (SomeEntry (CoversIp ip) o)
  unfolding listed_ip_match_banned
  listed_ip_match_banned-Decides ip none = (false, refl, (λ h. cc, λ d. absurd d))
  listed_ip_match_banned-Decides ip (some raws) =
      (ip_match_banned crates now ip raws, refl, ip_match_banned_iff ip raws)

  -- If every pattern of the lists compiles, `is_blacklist` answers, and the answer is true
  -- exactly when the user or the client has an entry that ends after now, a pattern of an entry
  -- that ends after now matches it, the address has an entry that ended before now, or an entry
  -- that ended before now covers the address.
  pub is_blacklist_iff :
      (cache : CacheManager) (connection : MqttConnection)
      → Compiles (get_blacklist_user_match cache.acl_metadata)
      → Compiles (get_blacklist_client_id_match cache.acl_metadata)
      → (b : Bool) × (is_blacklist crates now cache connection ≡ some b)
        × ((b ≡ true) ↔ (
            EndsAfter now (get connection.login_user cache.acl_metadata.blacklist_user)
            ⊎ SomeEntry
                (MatchesName connection.login_user)
                (get_blacklist_user_match cache.acl_metadata)
            ⊎ EndsAfter now (get connection.client_id cache.acl_metadata.blacklist_client_id)
            ⊎ SomeEntry
                (MatchesName connection.client_id)
                (get_blacklist_client_id_match cache.acl_metadata)
            ⊎ EndedBefore now (get connection.source_ip_addr cache.acl_metadata.blacklist_ip)
            ⊎ SomeEntry
                (CoversIp connection.source_ip_addr)
                (get_blacklist_ip_match cache.acl_metadata)))
  unfolding is_blacklist
  is_blacklist_iff cache connection u c = or_else-Decides _ _ (banned-Decides now _) (
      or_else-Decides _ _ (listed_match_banned-Decides connection.login_user _ u) (
        or_else-Decides _ _ (banned-Decides now _) (
          or_else-Decides _ _ (listed_match_banned-Decides connection.client_id _ c) (
            or_else-Decides _ _ (ip_banned-Decides now _)
              (listed_ip_match_banned-Decides connection.source_ip_addr _)))))
