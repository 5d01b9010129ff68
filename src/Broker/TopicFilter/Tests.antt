-- ===== src/Broker/TopicFilter/Tests.antt =====
-- Runs of src/mqtt-broker/src/subscribe/sub_common.rs on concrete topics and paths.
use robustmq.Prelude.{
  ◌≡◌, refl, ◌↔◌, Bool, true, false, Option, none, some, List, [], ◌∷◌, All, Any,
}
use robustmq.Mqtt.Bytes.{Text, bytes_eq}
use robustmq.Maps.{DashMap}
use robustmq.Broker.TopicFilter.{
  starts_with, split, remove_first, decode_share_info, is_share_sub, is_queue_sub, plain_path,
  contains_char, replace, valid_segments, sub_path_pattern, sub_path_validator, any_segment,
  matches, path_regex_match, get_sub_topic_id_list, share_sub_prefix, queue_sub_prefix,
}
use robustmq.Broker.TopicFilter.Shared.{shared_sub, queue_sub, path_regex_match-shared}
use robustmq.Broker.TopicFilter.Validator.{IsWildcardAlone, sub_path_validator_iff}
use robustmq.Broker.TopicFilter.Matched.{
  Answers, IsHit, get_sub_topic_id_list_iff, path_regex_match_plain,
}

-- Patterns that match their own text alone.
abbrev literal : Text → Option (Text → Bool)
literal pattern = some (bytes_eq pattern)

-- "/a", "/a/+", "a/b" and "g".
abbrev topic : Text
topic = 0x2f ∷ 0x61 ∷ []

abbrev wildcard : Text
wildcard = 0x2f ∷ 0x61 ∷ 0x2f ∷ 0x2b ∷ []

abbrev rest : Text
rest = 0x61 ∷ 0x2f ∷ 0x62 ∷ []

abbrev group : Text
group = 0x67 ∷ []

abbrev topics : DashMap Text
topics = (0x31 ∷ [], topic) ∷ (0x32 ∷ [], 0x2f ∷ 0x63 ∷ []) ∷ []

-- A path with the prefix alone is a shared subscription without a path.
share_alone : decode_share_info share_sub_prefix ≡ none
unfolding decode_share_info share_sub_prefix split remove_first
share_alone = refl

-- The path "/a/+" is valid, and "a+" is not.
one_level : valid_segments (split wildcard) ≡ true
unfolding valid_segments split contains_char bytes_eq
one_level = refl

inside_segment : valid_segments (split (0x61 ∷ 0x2b ∷ [])) ≡ false
unfolding valid_segments split contains_char bytes_eq
inside_segment = refl

-- The pattern of "/a/+".
wildcard_pattern : replace 0x2b any_segment wildcard ≡ 0x2f ∷ 0x61 ∷ 0x2f ∷ any_segment
unfolding replace any_segment
wildcard_pattern = refl

ids_found : get_sub_topic_id_list literal topics topic ≡ some ((0x31 ∷ []) ∷ [])
unfolding get_sub_topic_id_list path_regex_match plain_path is_share_sub is_queue_sub starts_with
    share_sub_prefix queue_sub_prefix matches bytes_eq contains_char
ids_found = refl

path_regex_match-shared_example :
    (path_regex_match literal topic (shared_sub group rest)
      ≡ path_regex_match literal topic (0x2f ∷ rest))
    × (path_regex_match literal topic (queue_sub rest)
        ≡ path_regex_match literal topic (0x2f ∷ rest))
unfolding contains_char
path_regex_match-shared_example = path_regex_match-shared literal topic group rest refl

sub_path_validator_iff_example :
    (sub_path_validator literal wildcard ≡ some true)
    ↔ ((bytes_eq sub_path_pattern wildcard ≡ true) × All IsWildcardAlone (split wildcard))
sub_path_validator_iff_example =
    sub_path_validator_iff literal (bytes_eq sub_path_pattern) wildcard refl

topics-Answers : All (Answers literal topic) topics
unfolding Answers path_regex_match plain_path is_share_sub is_queue_sub starts_with share_sub_prefix
    queue_sub_prefix matches bytes_eq contains_char
topics-Answers = ((true, refl), ((false, refl), tt))

get_sub_topic_id_list_iff_example :
    (ids : List Text) × (get_sub_topic_id_list literal topics topic ≡ some ids)
    × ((topic_id : Text) → Any (λ i. i ≡ topic_id) ids ↔ Any (IsHit literal topic topic_id) topics)
get_sub_topic_id_list_iff_example = get_sub_topic_id_list_iff literal topic topics topics-Answers

path_regex_match_plain_example : path_regex_match literal topic rest ≡ some (bytes_eq topic rest)
unfolding is_share_sub is_queue_sub starts_with share_sub_prefix queue_sub_prefix contains_char
path_regex_match_plain_example = path_regex_match_plain literal rest topic refl refl refl
