-- ===== src/Broker/TopicFilter/Matched.antt =====
-- `path_regex_match` and `get_sub_topic_id_list` of src/mqtt-broker/src/subscribe/sub_common.rs.
use robustmq.Prelude.{
  ◌≡◌, refl, ◌↔◌, inl, inr, Bool, true, false, ◌||◌, Option, some, List, [], ◌∷◌, arith,
}
use robustmq.Prelude.{Bool-cases, All, Any}
use robustmq.Mqtt.Bytes.{Text, bytes_eq}
use robustmq.Maps.{DashMap}
use robustmq.Broker.TopicFilter.{
  plus, hash, contains_char, is_share_sub, is_queue_sub, plain_path, matches, path_regex_match,
  get_sub_topic_id_list,
}

plain_path-plain :
    (name : Text) → (is_share_sub name || is_queue_sub name) ≡ false → plain_path name ≡ some name
unfolding plain_path
plain_path-plain name h = ground (arith, h)

module _ (regex : Text → Option (Text → Bool)) (sub_path : Text) where
  -- The matching of a topic with the path ends in an answer.
  unfoldable pub Answers : Text × Text → Type 0
  Answers topic = (b : Bool) × (path_regex_match regex topic.1 sub_path ≡ some b)

  -- The topic has the identifier and matches the path.
  pub IsHit : Text → Text × Text → Type 0
  IsHit topic_id topic =
      (topic.0 ≡ topic_id) × (path_regex_match regex topic.1 sub_path ≡ some true)

  -- The list of identifiers is returned when the matching of every topic is answered, and an
  -- identifier is in it exactly when a topic with this identifier matches the path.
  pub get_sub_topic_id_list_iff :
      (topics : DashMap Text)
      → All Answers topics
      → (ids : List Text) × (get_sub_topic_id_list regex topics sub_path ≡ some ids)
        × ((topic_id : Text) → Any (λ i. i ≡ topic_id) ids ↔ Any (IsHit topic_id) topics)
  unfolding get_sub_topic_id_list Answers IsHit
  get_sub_topic_id_list_iff [] a = ([], refl, λ k. (λ h. h, λ h. h))
  get_sub_topic_id_list_iff ((i, name) ∷ topics) ((true, e), a) =
      let (ids, r, h) = get_sub_topic_id_list_iff topics a in
      (
        i ∷ ids,
        rw (e, r) refl,
        λ k. (
          λ m. elim m [ inl p ↦ inl (p, e) | inr m' ↦ inr ((h k).0 m') ],
          λ m. elim m [ inl p ↦ inl p.0 | inr m' ↦ inr ((h k).1 m') ],
        ),
      )
  get_sub_topic_id_list_iff ((i, name) ∷ topics) ((false, e), a) =
      let (ids, r, h) = get_sub_topic_id_list_iff topics a in
      (
        ids,
        rw (e, r) refl,
        λ k. (λ m. inr ((h k).0 m), λ m. elim m [ inl (p, hit) ↦ cc | inr m' ↦ (h k).1 m' ]),
      )

  -- A path without the wildcards + and #, where neither it nor the topic is a shared or a queue
  -- subscription, matches exactly the topic with the same name, whatever the pattern crate does.
  pub path_regex_match_plain :
      (topic_name : Text)
      → (is_share_sub topic_name || is_queue_sub topic_name) ≡ false
      → (is_share_sub sub_path || is_queue_sub sub_path) ≡ false
      → (contains_char plus sub_path || contains_char hash sub_path) ≡ false
      → path_regex_match regex topic_name sub_path ≡ some (bytes_eq topic_name sub_path)
  unfolding path_regex_match matches
  path_regex_match_plain topic_name h k w =
      rw (plain_path-plain topic_name h, plain_path-plain sub_path k)
        (elim (Bool-cases (bytes_eq topic_name sub_path)) [
          | inl e ↦ rw e refl
          | inr e ↦ ground (arith, e, w)
        ])
