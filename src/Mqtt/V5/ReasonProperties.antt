-- ===== src/Mqtt/V5/ReasonProperties.antt =====
-- The `properties` module that puback.rs, pubrec.rs, pubrel.rs, pubcomp.rs, suback.rs and unsuback.rs of
-- src/protocol/src/mqtt/mqttv5 each have: a reason string and user properties.
pub mod Laws
use robustmq.Prelude.{ℕ, ◌+◌, ◌≡◌, Option, none, some, List, [], ◌∷◌, ◌++◌}
use robustmq.Mqtt.Bytes.{Text}
use robustmq.Mqtt.Outcome.{Error}
use robustmq.Mqtt.Buffer.{Buffered, ◌>>=◌, ◌>>◌, fail}
use robustmq.Mqtt.Writer.{write_mqtt_string, write_remaining_length}
use robustmq.Mqtt.V5.PropertyType.{PropertyType}
use robustmq.Mqtt.V5.Fields.{
  len_of_bytes, len_of_users, write_option, write_users, string_arm, user_arm,
}
use robustmq.Mqtt.V5.Properties.{Arms}

-- The struct of the packet, and its error for a property of another type.
pub record Shape (P : Type 0) : Type 0 where
  pub make : Option Text → List (Text × Text) → P
  pub reason_string : P → Option Text
  pub user_properties : P → List (Text × Text)
  pub unknown : ℕ → Error

-- `properties::len`.
unfoldable pub len : {P : Type 0} → Shape P → P → ℕ
len k p = len_of_bytes (k.reason_string p) + len_of_users (k.user_properties p)

-- `properties::write`.
unfoldable pub write : {P : Type 0} → Shape P → P → Buffered (Unit {0})
unfolding len
write k p = write_remaining_length (len k p) >>= λ _.
    write_option PropertyType.reason_string write_mqtt_string (k.reason_string p)
    >> write_users (k.user_properties p)

-- The match of `properties::read`.
unfoldable pub arms : {P : Type 0} → Shape P → Arms P
arms k PropertyType.reason_string prop p =
    string_arm λ reason. k.make (some reason) (k.user_properties p)
arms k PropertyType.user_property prop p =
    user_arm λ user. k.make (k.reason_string p) (k.user_properties p ++ user ∷ [])
arms k _ prop p = fail (k.unknown prop)

unfoldable pub empty : {P : Type 0} → Shape P → P
empty k = k.make none []
