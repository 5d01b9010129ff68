-- ===== src/Mqtt/V5/Fields/Total.antt =====
-- No arm of a property match in src/protocol/src/mqtt/mqttv5 panics.
use robustmq.Prelude.{ℕ, ◌≡◌, [], ◌∷◌, arith}
use robustmq.Mqtt.Bytes.{Bytes, Text}
use robustmq.Mqtt.Outcome.{Outcome, ok, err, panic, Returns, is_ok, is_err, is_panic, Outcome-cases}
use robustmq.Mqtt.Buffer.{Buffered, ◌>>=◌, ◌>>◌, Total, Returns->>=}
use robustmq.Mqtt.Reader.{advance, read_u32}
use robustmq.Mqtt.Reader.{read_u8, read_u16, read_mqtt_bytes, read_mqtt_string}
use robustmq.Mqtt.Reader.Total.{
  advance-Returns, read_u8-Total, read_u16-Total, read_mqtt_bytes-Total, read_mqtt_string-Total,
}
use robustmq.Mqtt.Header.{parse_length}
use robustmq.Mqtt.Header.Check.{parse_length-Returns, parse_length_bounds}
use robustmq.Mqtt.V5.Fields.{
  peek_length, u8_arm, u16_arm, u32_arm, string_arm, bytes_arm, user_arm, identifier_arm,
}

pub read_u32-Total : Total read_u32
unfolding read_u32
read_u32-Total [] = tt
read_u32-Total (a ∷ []) = tt
read_u32-Total (a ∷ b ∷ []) = tt
read_u32-Total (a ∷ b ∷ c ∷ []) = tt
read_u32-Total (a ∷ b ∷ c ∷ d ∷ bs) = tt

panics : {A : Type 0} {r : Outcome A} → r ≡ panic → Returns r → ⊥
panics {r = panic} e h = h
panics {r = ok a} e h = absurd (cc e)
panics {r = err x} e h = absurd (cc e)

-- Reading a length and taking its bytes never panics.
pub peek_length-advance-Returns :
    {B : Type 0} (k : ℕ → ℕ → Buffered B) (bs : Bytes)
    → ((l n : ℕ) → Total (k l n))
    → Returns ((peek_length >>= λ (l, n). advance l >> k l n) bs).0
unfolding peek_length
peek_length-advance-Returns k bs h = elim (Outcome-cases (parse_length bs)) [
  | is_ok (l, n) e ↦ rw e (
      Returns->>= (advance l) (λ _. k l n) bs
        (advance-Returns l bs (omega (arith, parse_length_bounds bs l n e))) λ _. h l n)
  | is_err x e ↦ rw e tt
  | is_panic e ↦ absurd (panics e (parse_length-Returns bs))
]

pub u8_arm-Total : {P : Type 0} (f : ℕ → P) → Total (u8_arm f)
unfolding u8_arm
u8_arm-Total f bs = Returns->>= read_u8 _ bs (read_u8-Total bs) λ _ _. tt

pub u16_arm-Total : {P : Type 0} (f : ℕ → P) → Total (u16_arm f)
unfolding u16_arm
u16_arm-Total f bs = Returns->>= read_u16 _ bs (read_u16-Total bs) λ _ _. tt

pub u32_arm-Total : {P : Type 0} (f : ℕ → P) → Total (u32_arm f)
unfolding u32_arm
u32_arm-Total f bs = Returns->>= read_u32 _ bs (read_u32-Total bs) λ _ _. tt

pub string_arm-Total : {P : Type 0} (f : Text → P) → Total (string_arm f)
unfolding string_arm
string_arm-Total f bs = Returns->>= read_mqtt_string _ bs (read_mqtt_string-Total bs) λ _ _. tt

pub bytes_arm-Total : {P : Type 0} (f : Bytes → P) → Total (bytes_arm f)
unfolding bytes_arm
bytes_arm-Total f bs = Returns->>= read_mqtt_bytes _ bs (read_mqtt_bytes-Total bs) λ _ _. tt

pub user_arm-Total : {P : Type 0} (f : Text × Text → P) → Total (user_arm f)
unfolding user_arm
user_arm-Total f bs =
    Returns->>= read_mqtt_string _ bs (read_mqtt_string-Total bs)
      λ _ bs'. Returns->>= read_mqtt_string _ bs' (read_mqtt_string-Total bs') λ _ _. tt

pub identifier_arm-Total : {P : Type 0} (f : ℕ → P) → Total (identifier_arm f)
unfolding identifier_arm
identifier_arm-Total f bs = peek_length-advance-Returns _ bs λ _ _ _. tt
