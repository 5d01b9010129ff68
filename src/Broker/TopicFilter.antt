-- ===== src/Broker/TopicFilter.antt =====
-- Topics and the paths of subscriptions: src/mqtt-broker/src/subscribe/sub_common.rs.
pub mod Paths
pub mod Validator
pub mod Shared
pub mod Matched
pub mod Tests
use robustmq.Prelude.{
  ℕ, Bool, true, false, not, ◌&&◌, ◌||◌, Option, none, some, List, [], ◌∷◌, ◌++◌,
}
use mathlib.Core.Option.{map}
use robustmq.Prelude.{leb, ◌==◌, if◌then◌else◌}
use robustmq.Mqtt.Bytes.{Text, bytes_eq}
use robustmq.Mqtt.Types.Codes.{Qos}
use robustmq.Mqtt.Qos.{to_u8}
use robustmq.Maps.{DashMap}

infixl 5 ◌>>=◌
abbrev ◌>>=◌ : {A B : Type 0} → Option A → (A → Option B) → Option B
none >>= f = none
some a >>= f = f a

abbrev pub slash : ℕ
slash = 0x2f

abbrev pub plus : ℕ
plus = 0x2b

abbrev pub hash : ℕ
hash = 0x23

unfoldable pub path_contain_sub : Text → Bool
path_contain_sub _ = true

-- "$share" and "$queue".
unfoldable pub share_sub_prefix : Text
share_sub_prefix = 0x24 ∷ 0x73 ∷ 0x68 ∷ 0x61 ∷ 0x72 ∷ 0x65 ∷ []

unfoldable pub queue_sub_prefix : Text
queue_sub_prefix = 0x24 ∷ 0x71 ∷ 0x75 ∷ 0x65 ∷ 0x75 ∷ 0x65 ∷ []

-- What the source uses of `str`, on the UTF-8 bytes: `starts_with`, `contains_char` and `replace` of a
-- byte, `split("/")` and `join("/")`.
unfoldable pub starts_with : Text → Text → Bool
starts_with [] s = true
starts_with (p ∷ ps) [] = false
starts_with (p ∷ ps) (c ∷ cs) = p == c && starts_with ps cs

unfoldable pub contains_char : ℕ → Text → Bool
contains_char c [] = false
contains_char c (d ∷ ds) = c == d || contains_char c ds

unfoldable pub replace : ℕ → Text → Text → Text
replace c by [] = []
replace c by (d ∷ ds) = let rest = replace c by ds in if c == d then by ++ rest else d ∷ rest

abbrev pub in_first : ℕ → List Text → List Text
in_first c [] = (c ∷ []) ∷ []
in_first c (segment ∷ segments) = (c ∷ segment) ∷ segments

unfoldable pub split : Text → List Text
split [] = [] ∷ []
split (c ∷ cs) = let rest = split cs in if c == slash then [] ∷ rest else in_first c rest

unfoldable pub join : List Text → Text
join [] = []
join (segment ∷ []) = segment
join (segment ∷ next ∷ segments) = segment ++ slash ∷ join (next ∷ segments)

-- `Vec::remove(0)`; `none` is the panic of an empty vector.
unfoldable pub remove_first : List Text → Option (Text × List Text)
remove_first [] = none
remove_first (segment ∷ segments) = some (segment, segments)

unfoldable pub last : Text → List Text → Text
last segment [] = segment
last segment (next ∷ segments) = last next segments

unfoldable pub is_share_sub : Text → Bool
unfolding share_sub_prefix starts_with
is_share_sub sub_name = starts_with share_sub_prefix sub_name

unfoldable pub is_queue_sub : Text → Bool
unfolding queue_sub_prefix starts_with
is_queue_sub sub_name = starts_with queue_sub_prefix sub_name

-- `format!("/{}", str_slice.join("/"))`.
abbrev pub rooted : List Text → Text
rooted segments = slash ∷ join segments

-- The group and the path; `none` is a panic.
unfoldable pub decode_share_info : Text → Option (Text × Text)
unfolding split remove_first join
decode_share_info sub_name = do
  first ← remove_first (split sub_name)
  group ← remove_first first.1
  some (group.0, rooted group.1)

unfoldable pub decode_queue_info : Text → Option Text
unfolding split remove_first join
decode_queue_info sub_name = do first ← remove_first (split sub_name); some (rooted first.1)

-- The first `if` of `path_regex_match`, for the topic and for the path.
unfoldable pub plain_path : Text → Option Text
unfolding is_share_sub is_queue_sub decode_share_info decode_queue_info
plain_path name =
    let shared = decode_share_info name in
    let queued = decode_queue_info name in
    if is_share_sub name
    then map (λ info. info.1) shared
    else if is_queue_sub name
    then queued
    else some name

-- The loop of `sub_path_validator` over the segments.
unfoldable pub valid_segments : List Text → Bool
valid_segments [] = true
valid_segments (path ∷ paths) =
    let rest = valid_segments paths in
    if contains_char plus path && not (bytes_eq path (plus ∷ []))
    then false
    else if contains_char hash path && not (bytes_eq path (hash ∷ []))
    then false
    else rest

-- "[^+*/]+" and "[^+#]+".
unfoldable pub any_segment : Text
any_segment = 0x5b ∷ 0x5e ∷ 0x2b ∷ 0x2a ∷ 0x2f ∷ 0x5d ∷ 0x2b ∷ []

unfoldable pub any_rest : Text
any_rest = 0x5b ∷ 0x5e ∷ 0x2b ∷ 0x23 ∷ 0x5d ∷ 0x2b ∷ []

-- "^[\$a-zA-Z0-9_#+/]+$".
unfoldable pub sub_path_pattern : Text
sub_path_pattern =
    0x5e ∷ 0x5b ∷ 0x5c ∷ 0x24 ∷ 0x61 ∷ 0x2d ∷ 0x7a ∷ 0x41 ∷ 0x2d ∷ 0x5a ∷ 0x30 ∷ 0x2d ∷ 0x39 ∷ 0x5f
    ∷ 0x23 ∷ 0x2b ∷ 0x2f ∷ 0x5d ∷ 0x2b ∷ 0x24 ∷ []

unfoldable pub min_qos : Qos → Qos → Qos
min_qos qos sub_qos = if leb (to_u8 qos) (to_u8 sub_qos) then qos else sub_qos

-- `regex` is `Regex::new`, none for a pattern that it refuses, with the `is_match` of what it
-- compiles.
module _ (regex : Text → Option (Text → Bool)) where
  unfoldable pub sub_path_validator : Text → Option Bool
  unfolding sub_path_pattern split valid_segments
  sub_path_validator sub_path = do
    is_match ← regex sub_path_pattern
    some (if not (is_match sub_path) then false else valid_segments (split sub_path))

  is_match : Text → Text → Option Bool
  is_match pattern topic = map (λ matches. matches topic) (regex pattern)

  -- The part of `path_regex_match` after the two paths are decoded.
  unfoldable pub matches : Text → Text → Option Bool
  unfolding is_match contains_char replace any_segment any_rest last split
  matches topic path =
      if bytes_eq topic path
      then some true
      else if contains_char plus path
      then is_match (replace plus any_segment path) topic
      else if contains_char hash path
      then if not (bytes_eq (last [] (split path)) (hash ∷ []))
        then some false
        else is_match (replace hash any_rest path) topic
      else some false

  unfoldable pub path_regex_match : Text → Text → Option Bool
  unfolding plain_path matches
  path_regex_match topic_name sub_path = do
    path ← plain_path sub_path
    topic ← plain_path topic_name
    matches topic path

  -- The loop of `get_sub_topic_id_list` over the map from identifiers to names.
  unfoldable pub get_sub_topic_id_list : DashMap Text → Text → Option (List Text)
  unfolding path_regex_match
  get_sub_topic_id_list [] sub_path = some []
  get_sub_topic_id_list ((topic_id, topic_name) ∷ topics) sub_path = do
    hit ← path_regex_match topic_name sub_path
    result ← get_sub_topic_id_list topics sub_path
    some (if hit then topic_id ∷ result else result)
