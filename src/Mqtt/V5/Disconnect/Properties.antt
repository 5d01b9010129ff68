-- ===== src/Mqtt/V5/Disconnect/Properties.antt =====
-- The properties of src/protocol/src/mqtt/mqttv5/disconnect.rs.
use robustmq.Prelude.{ℕ, ◌+◌, none, some, [], ◌∷◌, ◌++◌}
use robustmq.Mqtt.Buffer.{Buffered, ◌>>=◌, ◌>>◌, fail}
use robustmq.Mqtt.Outcome.{invalid_packet_type}
use robustmq.Mqtt.Writer.{write_mqtt_string, write_remaining_length}
use robustmq.Mqtt.Types.Properties.{DisconnectProperties}
use robustmq.Mqtt.V5.PropertyType.{PropertyType}
use robustmq.Mqtt.V5.Fields.{
  len_of_size, len_of_bytes, len_of_users, put_u32, write_option, write_users, u32_arm, string_arm,
  user_arm,
}
use robustmq.Mqtt.V5.Fields.Total.{u32_arm-Total, string_arm-Total, user_arm-Total}
use robustmq.Mqtt.V5.Properties.{Arms}
use robustmq.Mqtt.V5.Properties.Total.{AreTotal}

unfoldable pub len : DisconnectProperties → ℕ
len p =
    len_of_size 4 p.session_expiry_interval
    + len_of_bytes p.reason_string
    + len_of_users p.user_properties
    + len_of_bytes p.server_reference

unfoldable pub write : DisconnectProperties → Buffered (Unit {0})
unfolding len
write p = write_remaining_length (len p) >>= λ _. do
  write_option PropertyType.session_expiry_interval put_u32 p.session_expiry_interval
  write_option PropertyType.reason_string write_mqtt_string p.reason_string
  write_users p.user_properties
  write_option PropertyType.server_reference write_mqtt_string p.server_reference

-- The match of `read`.
unfoldable pub arms : Arms DisconnectProperties
arms PropertyType.session_expiry_interval prop p =
    u32_arm λ x. record p { session_expiry_interval = some x }
arms PropertyType.reason_string prop p = string_arm λ x. record p { reason_string = some x }
arms PropertyType.user_property prop p =
    user_arm λ user. record p { user_properties = p.user_properties ++ user ∷ [] }
arms PropertyType.server_reference prop p = string_arm λ x. record p { server_reference = some x }
arms _ prop p = fail (invalid_packet_type prop)

unfoldable pub empty : DisconnectProperties
empty = record {
  session_expiry_interval = none;
  reason_string = none;
  user_properties = [];
  server_reference = none;
}

pub arms-AreTotal : AreTotal arms
unfolding arms
arms-AreTotal PropertyType.session_expiry_interval prop p = u32_arm-Total _
arms-AreTotal PropertyType.reason_string prop p = string_arm-Total _
arms-AreTotal PropertyType.user_property prop p = user_arm-Total _
arms-AreTotal PropertyType.server_reference prop p = string_arm-Total _
arms-AreTotal _ prop p = λ _. tt
