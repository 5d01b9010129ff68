-- ===== src/Mqtt/V5/Connect/WillProperties.antt =====
-- The properties of src/protocol/src/mqtt/mqttv5/connect.rs, those of the will.
use robustmq.Prelude.{ℕ, ◌+◌, none, some, [], ◌∷◌, ◌++◌}
use robustmq.Mqtt.Buffer.{Buffered, ◌>>=◌, ◌>>◌, fail}
use robustmq.Mqtt.Outcome.{invalid_property_type}
use robustmq.Mqtt.Writer.{put_u8, write_mqtt_string, write_mqtt_bytes, write_remaining_length}
use robustmq.Mqtt.Types.Properties.{LastWillProperties}
use robustmq.Mqtt.V5.PropertyType.{PropertyType}
use robustmq.Mqtt.V5.Fields.{
  len_of_size, len_of_bytes, len_of_users, put_u32, write_option, write_users, u8_arm, u32_arm,
  string_arm, bytes_arm, user_arm,
}
use robustmq.Mqtt.V5.Fields.Total.{
  u8_arm-Total, u32_arm-Total, string_arm-Total, bytes_arm-Total, user_arm-Total,
}
use robustmq.Mqtt.V5.Properties.{Arms}
use robustmq.Mqtt.V5.Properties.Total.{AreTotal}

unfoldable pub len : LastWillProperties → ℕ
len p =
    len_of_size 4 p.delay_interval
    + len_of_size 1 p.payload_format_indicator
    + len_of_size 4 p.message_expiry_interval
    + len_of_bytes p.content_type
    + len_of_bytes p.response_topic
    + len_of_bytes p.correlation_data
    + len_of_users p.user_properties

unfoldable pub write : LastWillProperties → Buffered (Unit {0})
unfolding len
write p = write_remaining_length (len p) >>= λ _. do
  write_option PropertyType.will_delay_interval put_u32 p.delay_interval
  write_option PropertyType.payload_format_indicator put_u8 p.payload_format_indicator
  write_option PropertyType.message_expiry_interval put_u32 p.message_expiry_interval
  write_option PropertyType.content_type write_mqtt_string p.content_type
  write_option PropertyType.response_topic write_mqtt_string p.response_topic
  write_option PropertyType.correlation_data write_mqtt_bytes p.correlation_data
  write_users p.user_properties

-- The match of `read`.
unfoldable pub arms : Arms LastWillProperties
arms PropertyType.will_delay_interval prop p = u32_arm λ x. record p { delay_interval = some x }
arms PropertyType.payload_format_indicator prop p =
    u8_arm λ x. record p { payload_format_indicator = some x }
arms PropertyType.message_expiry_interval prop p =
    u32_arm λ x. record p { message_expiry_interval = some x }
arms PropertyType.content_type prop p = string_arm λ x. record p { content_type = some x }
arms PropertyType.response_topic prop p = string_arm λ x. record p { response_topic = some x }
arms PropertyType.correlation_data prop p = bytes_arm λ x. record p { correlation_data = some x }
arms PropertyType.user_property prop p =
    user_arm λ user. record p { user_properties = p.user_properties ++ user ∷ [] }
arms _ prop p = fail (invalid_property_type prop)

unfoldable pub empty : LastWillProperties
empty = record {
  delay_interval = none;
  payload_format_indicator = none;
  message_expiry_interval = none;
  content_type = none;
  response_topic = none;
  correlation_data = none;
  user_properties = [];
}

pub arms-AreTotal : AreTotal arms
unfolding arms
arms-AreTotal PropertyType.will_delay_interval prop p = u32_arm-Total _
arms-AreTotal PropertyType.payload_format_indicator prop p = u8_arm-Total _
arms-AreTotal PropertyType.message_expiry_interval prop p = u32_arm-Total _
arms-AreTotal PropertyType.content_type prop p = string_arm-Total _
arms-AreTotal PropertyType.response_topic prop p = string_arm-Total _
arms-AreTotal PropertyType.correlation_data prop p = bytes_arm-Total _
arms-AreTotal PropertyType.user_property prop p = user_arm-Total _
arms-AreTotal _ prop p = λ _. tt
