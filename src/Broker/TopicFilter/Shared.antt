-- ===== src/Broker/TopicFilter/Shared.antt =====
-- Shared subscriptions: `path_regex_match` of src/mqtt-broker/src/subscribe/sub_common.rs.
use robustmq.Prelude.{◌≡◌, refl, ap, ◌∙◌, Bool, false, Option, some, ◌∷◌, ◌++◌}
use robustmq.Mqtt.Bytes.{Text}
use robustmq.Broker.TopicFilter.{
  slash, contains_char, share_sub_prefix, queue_sub_prefix, split, decode_share_info,
  decode_queue_info, plain_path, path_regex_match,
}
use robustmq.Broker.TopicFilter.Paths.{join-split, split-segment}

-- "$share/group/rest" and "$queue/rest".
unfoldable pub shared_sub : Text → Text → Text
shared_sub group rest = share_sub_prefix ++ slash ∷ group ++ slash ∷ rest

unfoldable pub queue_sub : Text → Text
queue_sub rest = queue_sub_prefix ++ slash ∷ rest

split-shared_sub :
    (group rest : Text)
    → contains_char slash group ≡ false
    → split (shared_sub group rest) ≡ share_sub_prefix ∷ group ∷ split rest
unfolding shared_sub share_sub_prefix contains_char
split-shared_sub group rest h =
    split-segment share_sub_prefix (group ++ slash ∷ rest) refl
    ∙ ap (◌∷◌ share_sub_prefix) (split-segment group rest h)

pub decode_share_info-shared_sub :
    (group rest : Text)
    → contains_char slash group ≡ false
    → decode_share_info (shared_sub group rest) ≡ some (group, slash ∷ rest)
unfolding decode_share_info
decode_share_info-shared_sub group rest h =
    rw (split-shared_sub group rest h) (ap (λ s. some (group, slash ∷ s)) (join-split rest))

split-queue_sub : (rest : Text) → split (queue_sub rest) ≡ queue_sub_prefix ∷ split rest
unfolding queue_sub queue_sub_prefix contains_char
split-queue_sub rest = split-segment queue_sub_prefix rest refl

pub decode_queue_info-queue_sub :
    (rest : Text) → decode_queue_info (queue_sub rest) ≡ some (slash ∷ rest)
unfolding decode_queue_info
decode_queue_info-queue_sub rest =
    rw (split-queue_sub rest) (ap (λ s. some (slash ∷ s)) (join-split rest))

plain_path-shared_sub :
    (group rest : Text)
    → contains_char slash group ≡ false
    → plain_path (shared_sub group rest) ≡ plain_path (slash ∷ rest)
unfolding plain_path shared_sub share_sub_prefix
plain_path-shared_sub group rest h = rw (decode_share_info-shared_sub group rest h) refl

plain_path-queue_sub : (rest : Text) → plain_path (queue_sub rest) ≡ plain_path (slash ∷ rest)
unfolding plain_path queue_sub queue_sub_prefix
plain_path-queue_sub rest = decode_queue_info-queue_sub rest

module _ (regex : Text → Option (Text → Bool)) where
  -- A shared subscription "$share/group/rest", with no slash in its group, and a queue
  -- subscription "$queue/rest" match the topics that the path "/rest" matches, or panic where it
  -- does.
  pub path_regex_match-shared :
      (topic_name group rest : Text)
      → contains_char slash group ≡ false
      → (path_regex_match regex topic_name (shared_sub group rest)
          ≡ path_regex_match regex topic_name (slash ∷ rest))
        × (path_regex_match regex topic_name (queue_sub rest)
            ≡ path_regex_match regex topic_name (slash ∷ rest))
  unfolding path_regex_match
  path_regex_match-shared topic_name group rest h =
      (rw (plain_path-shared_sub group rest h) refl, rw (plain_path-queue_sub rest) refl)
