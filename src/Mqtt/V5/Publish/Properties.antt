-- ===== src/Mqtt/V5/Publish/Properties.antt =====
-- The properties of src/protocol/src/mqtt/mqttv5/publish.rs.
use robustmq.Prelude.{ℕ, ◌+◌, none, some, [], ◌∷◌, ◌++◌}
use robustmq.Mqtt.Buffer.{Buffered, ◌>>=◌, ◌>>◌, fail}
use robustmq.Mqtt.Outcome.{invalid_property_type}
use robustmq.Mqtt.Writer.{
  put_u8, put_u16, write_mqtt_string, write_mqtt_bytes, write_remaining_length,
}
use robustmq.Mqtt.Types.Properties.{PublishProperties}
use robustmq.Mqtt.V5.PropertyType.{PropertyType}
use robustmq.Mqtt.V5.Fields.{
  len_of_size, len_of_bytes, len_of_users, len_of_identifiers, put_u32, write_option, write_users,
  write_identifiers, u8_arm, u16_arm, u32_arm, string_arm, bytes_arm, user_arm, identifier_arm,
}
use robustmq.Mqtt.V5.Fields.Total.{
  u8_arm-Total, u16_arm-Total, u32_arm-Total, string_arm-Total, bytes_arm-Total, user_arm-Total,
  identifier_arm-Total,
}
use robustmq.Mqtt.V5.Properties.{Arms}
use robustmq.Mqtt.V5.Properties.Total.{AreTotal}

unfoldable pub len : PublishProperties → ℕ
len p =
    len_of_size 1 p.payload_format_indicator
    + len_of_size 4 p.message_expiry_interval
    + len_of_size 1 p.topic_alias
    + len_of_bytes p.response_topic
    + len_of_bytes p.correlation_data
    + len_of_users p.user_properties
    + len_of_identifiers p.subscription_identifiers
    + len_of_bytes p.content_type

unfoldable pub write : PublishProperties → Buffered (Unit {0})
unfolding len
write p = write_remaining_length (len p) >>= λ _. do
  write_option PropertyType.payload_format_indicator put_u8 p.payload_format_indicator
  write_option PropertyType.message_expiry_interval put_u32 p.message_expiry_interval
  write_option PropertyType.topic_alias put_u16 p.topic_alias
  write_option PropertyType.response_topic write_mqtt_string p.response_topic
  write_option PropertyType.correlation_data write_mqtt_bytes p.correlation_data
  write_users p.user_properties
  write_identifiers p.subscription_identifiers
  write_option PropertyType.content_type write_mqtt_string p.content_type

-- The match of `read`.
unfoldable pub arms : Arms PublishProperties
arms PropertyType.payload_format_indicator prop p =
    u8_arm λ x. record p { payload_format_indicator = some x }
arms PropertyType.message_expiry_interval prop p =
    u32_arm λ x. record p { message_expiry_interval = some x }
arms PropertyType.topic_alias prop p = u16_arm λ x. record p { topic_alias = some x }
arms PropertyType.response_topic prop p = string_arm λ x. record p { response_topic = some x }
arms PropertyType.correlation_data prop p = bytes_arm λ x. record p { correlation_data = some x }
arms PropertyType.user_property prop p =
    user_arm λ user. record p { user_properties = p.user_properties ++ user ∷ [] }
arms PropertyType.subscription_identifier prop p =
    identifier_arm
      λ id. record p { subscription_identifiers = p.subscription_identifiers ++ id ∷ [] }
arms PropertyType.content_type prop p = string_arm λ x. record p { content_type = some x }
arms _ prop p = fail (invalid_property_type prop)

unfoldable pub empty : PublishProperties
empty = record {
  payload_format_indicator = none;
  message_expiry_interval = none;
  topic_alias = none;
  response_topic = none;
  correlation_data = none;
  user_properties = [];
  subscription_identifiers = [];
  content_type = none;
}

pub arms-AreTotal : AreTotal arms
unfolding arms
arms-AreTotal PropertyType.payload_format_indicator prop p = u8_arm-Total _
arms-AreTotal PropertyType.message_expiry_interval prop p = u32_arm-Total _
arms-AreTotal PropertyType.topic_alias prop p = u16_arm-Total _
arms-AreTotal PropertyType.response_topic prop p = string_arm-Total _
arms-AreTotal PropertyType.correlation_data prop p = bytes_arm-Total _
arms-AreTotal PropertyType.user_property prop p = user_arm-Total _
arms-AreTotal PropertyType.subscription_identifier prop p = identifier_arm-Total _
arms-AreTotal PropertyType.content_type prop p = string_arm-Total _
arms-AreTotal _ prop p = λ _. tt
