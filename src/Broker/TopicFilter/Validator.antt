-- ===== src/Broker/TopicFilter/Validator.antt =====
-- `sub_path_validator` of src/mqtt-broker/src/subscribe/sub_common.rs.
use robustmq.Prelude.{
  ℕ, ◌≡◌, refl, ap, ◌↔◌, ◌⊎◌, inl, inr, Bool, true, false, not, ◌&&◌, Option, some, List, [], ◌∷◌,
  arith,
}
use robustmq.Prelude.{Bool-cases, All}
use robustmq.Mqtt.Bytes.{Text, bytes_eq}
use robustmq.Maps.{bytes_eq_refl, bytes_eq_sound}
use robustmq.Broker.TopicFilter.{
  plus, hash, contains_char, split, valid_segments, sub_path_pattern, sub_path_validator,
}

-- A wildcard in a segment is the whole segment.
pub IsWildcardAlone : Text → Type 0
IsWildcardAlone segment =
    ((contains_char plus segment ≡ false) ⊎ (segment ≡ plus ∷ []))
    × ((contains_char hash segment ≡ false) ⊎ (segment ≡ hash ∷ []))

alone_iff :
    (c : ℕ) (segment : Text)
    → ((contains_char c segment && not (bytes_eq segment (c ∷ []))) ≡ false)
      ↔ ((contains_char c segment ≡ false) ⊎ (segment ≡ c ∷ []))
alone_iff c segment = (
  λ h. elim (Bool-cases (contains_char c segment)) [
    | inl e ↦ inr (bytes_eq_sound segment (c ∷ []) (ground (arith, h, e)))
    | inr e ↦ inl e
  ],
  λ d. elim d [
    | inl e ↦ rw e refl
    | inr e ↦ ground (arith, ap (λ s. bytes_eq s (c ∷ [])) e, bytes_eq_refl (c ∷ []))
  ],
)

valid_segments_iff :
    (segments : List Text) → (valid_segments segments ≡ true) ↔ All IsWildcardAlone segments
unfolding valid_segments IsWildcardAlone
valid_segments_iff [] = (λ h. tt, λ h. refl)
valid_segments_iff (s ∷ ss) =
    let p = alone_iff plus s in
    let q = alone_iff hash s in
    let i = valid_segments_iff ss in
    (
      λ h. ((p.0 (ground (arith, h)), q.0 (ground (arith, h))), i.0 (ground (arith, h))),
      λ h. ground (arith, p.1 h.0.0, q.1 h.0.1, i.1 h.1),
    )

-- Where the pattern of the characters compiles, a path is valid exactly when the pattern matches it
-- and a wildcard in one of its segments is the whole segment.
pub sub_path_validator_iff :
    (regex : Text → Option (Text → Bool)) (matcher : Text → Bool) (sub_path : Text)
    → regex sub_path_pattern ≡ some matcher
    → (sub_path_validator regex sub_path ≡ some true)
      ↔ ((matcher sub_path ≡ true) × All IsWildcardAlone (split sub_path))
unfolding sub_path_validator
sub_path_validator_iff regex matcher sub_path h =
    let i = valid_segments_iff (split sub_path) in
    rw h (λ k. (ground (arith, k), i.0 (ground (arith, k))), λ k. ground (arith, k.0, i.1 k.1))
