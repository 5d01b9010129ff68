-- ===== src/Mqtt/V5/Auth/Properties.antt =====
-- The properties of src/protocol/src/mqtt/mqttv5/auth.rs.
use robustmq.Prelude.{ℕ, ◌+◌, none, some, [], ◌∷◌, ◌++◌}
use robustmq.Mqtt.Buffer.{Buffered, ◌>>=◌, ◌>>◌, fail}
use robustmq.Mqtt.Outcome.{invalid_property_type}
use robustmq.Mqtt.Writer.{write_mqtt_string, write_mqtt_bytes, write_remaining_length}
use robustmq.Mqtt.Types.Properties.{AuthProperties}
use robustmq.Mqtt.V5.PropertyType.{PropertyType}
use robustmq.Mqtt.V5.Fields.{
  len_of_bytes, len_of_users, write_option, write_users, string_arm, bytes_arm, user_arm,
}
use robustmq.Mqtt.V5.Fields.Total.{string_arm-Total, bytes_arm-Total, user_arm-Total}
use robustmq.Mqtt.V5.Properties.{Arms}
use robustmq.Mqtt.V5.Properties.Total.{AreTotal}

unfoldable pub len : AuthProperties → ℕ
len p =
    len_of_bytes p.authentication_method
    + len_of_bytes p.authentication_data
    + len_of_bytes p.reason_string
    + len_of_users p.user_properties

unfoldable pub write : AuthProperties → Buffered (Unit {0})
unfolding len
write p = write_remaining_length (len p) >>= λ _. do
  write_option PropertyType.authentication_method write_mqtt_string p.authentication_method
  write_option PropertyType.authentication_data write_mqtt_bytes p.authentication_data
  write_option PropertyType.reason_string write_mqtt_string p.reason_string
  write_users p.user_properties

-- The match of `read`.
unfoldable pub arms : Arms AuthProperties
arms PropertyType.authentication_method prop p =
    string_arm λ x. record p { authentication_method = some x }
arms PropertyType.authentication_data prop p =
    bytes_arm λ x. record p { authentication_data = some x }
arms PropertyType.reason_string prop p = string_arm λ x. record p { reason_string = some x }
arms PropertyType.user_property prop p =
    user_arm λ user. record p { user_properties = p.user_properties ++ user ∷ [] }
arms _ prop p = fail (invalid_property_type prop)

unfoldable pub empty : AuthProperties
empty = record {
  authentication_method = none;
  authentication_data = none;
  reason_string = none;
  user_properties = [];
}

pub arms-AreTotal : AreTotal arms
unfolding arms
arms-AreTotal PropertyType.authentication_method prop p = string_arm-Total _
arms-AreTotal PropertyType.authentication_data prop p = bytes_arm-Total _
arms-AreTotal PropertyType.reason_string prop p = string_arm-Total _
arms-AreTotal PropertyType.user_property prop p = user_arm-Total _
arms-AreTotal _ prop p = λ _. tt
