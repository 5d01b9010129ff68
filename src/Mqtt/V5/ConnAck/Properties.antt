-- ===== src/Mqtt/V5/ConnAck/Properties.antt =====
-- The properties of src/protocol/src/mqtt/mqttv5/connack.rs.
use robustmq.Prelude.{ℕ, ◌+◌, none, some, [], ◌∷◌, ◌++◌}
use robustmq.Mqtt.Buffer.{Buffered, ◌>>=◌, ◌>>◌, fail}
use robustmq.Mqtt.Outcome.{invalid_property_type}
use robustmq.Mqtt.Writer.{
  put_u8, put_u16, write_mqtt_string, write_mqtt_bytes, write_remaining_length,
}
use robustmq.Mqtt.Types.Properties.{ConnAckProperties}
use robustmq.Mqtt.V5.PropertyType.{PropertyType}
use robustmq.Mqtt.V5.Fields.{
  len_of_size, len_of_bytes, len_of_users, put_u32, write_option, write_users, u8_arm, u16_arm,
  u32_arm, string_arm, bytes_arm, user_arm,
}
use robustmq.Mqtt.V5.Fields.Total.{
  u8_arm-Total, u16_arm-Total, u32_arm-Total, string_arm-Total, bytes_arm-Total, user_arm-Total,
}
use robustmq.Mqtt.V5.Properties.{Arms}
use robustmq.Mqtt.V5.Properties.Total.{AreTotal}

unfoldable pub len : ConnAckProperties → ℕ
len p =
    len_of_size 4 p.session_expiry_interval
    + len_of_size 2 p.receive_max
    + len_of_size 1 p.max_qos
    + len_of_size 1 p.retain_available
    + len_of_size 4 p.max_packet_size
    + len_of_bytes p.assigned_client_identifier
    + len_of_size 2 p.topic_alias_max
    + len_of_bytes p.reason_string
    + len_of_users p.user_properties
    + len_of_size 1 p.wildcard_subscription_available
    + len_of_size 1 p.subscription_identifiers_available
    + len_of_size 1 p.shared_subscription_available
    + len_of_size 2 p.server_keep_alive
    + len_of_bytes p.response_information
    + len_of_bytes p.server_reference
    + len_of_bytes p.authentication_method
    + len_of_bytes p.authentication_data

unfoldable pub write : ConnAckProperties → Buffered (Unit {0})
unfolding len
write p = write_remaining_length (len p) >>= λ _. do
  write_option PropertyType.session_expiry_interval put_u32 p.session_expiry_interval
  write_option PropertyType.receive_maximum put_u16 p.receive_max
  write_option PropertyType.maximum_qos put_u8 p.max_qos
  write_option PropertyType.retain_available put_u8 p.retain_available
  write_option PropertyType.maximum_packet_size put_u32 p.max_packet_size
  write_option PropertyType.assigned_client_identifier write_mqtt_string
      p.assigned_client_identifier
  write_option PropertyType.topic_alias_maximum put_u16 p.topic_alias_max
  write_option PropertyType.reason_string write_mqtt_string p.reason_string
  write_users p.user_properties
  write_option PropertyType.wildcard_subscription_available put_u8 p.wildcard_subscription_available
  write_option PropertyType.subscription_identifier_available put_u8
      p.subscription_identifiers_available
  write_option PropertyType.shared_subscription_available put_u8 p.shared_subscription_available
  write_option PropertyType.server_keep_alive put_u16 p.server_keep_alive
  write_option PropertyType.response_information write_mqtt_string p.response_information
  write_option PropertyType.server_reference write_mqtt_string p.server_reference
  write_option PropertyType.authentication_method write_mqtt_string p.authentication_method
  write_option PropertyType.authentication_data write_mqtt_bytes p.authentication_data

-- The match of `read`.
unfoldable pub arms : Arms ConnAckProperties
arms PropertyType.session_expiry_interval prop p =
    u32_arm λ x. record p { session_expiry_interval = some x }
arms PropertyType.receive_maximum prop p = u16_arm λ x. record p { receive_max = some x }
arms PropertyType.maximum_qos prop p = u8_arm λ x. record p { max_qos = some x }
arms PropertyType.retain_available prop p = u8_arm λ x. record p { retain_available = some x }
arms PropertyType.maximum_packet_size prop p = u32_arm λ x. record p { max_packet_size = some x }
arms PropertyType.assigned_client_identifier prop p =
    string_arm λ x. record p { assigned_client_identifier = some x }
arms PropertyType.topic_alias_maximum prop p = u16_arm λ x. record p { topic_alias_max = some x }
arms PropertyType.reason_string prop p = string_arm λ x. record p { reason_string = some x }
arms PropertyType.user_property prop p =
    user_arm λ user. record p { user_properties = p.user_properties ++ user ∷ [] }
arms PropertyType.wildcard_subscription_available prop p =
    u8_arm λ x. record p { wildcard_subscription_available = some x }
arms PropertyType.subscription_identifier_available prop p =
    u8_arm λ x. record p { subscription_identifiers_available = some x }
arms PropertyType.shared_subscription_available prop p =
    u8_arm λ x. record p { shared_subscription_available = some x }
arms PropertyType.server_keep_alive prop p = u16_arm λ x. record p { server_keep_alive = some x }
arms PropertyType.response_information prop p =
    string_arm λ x. record p { response_information = some x }
arms PropertyType.server_reference prop p = string_arm λ x. record p { server_reference = some x }
arms PropertyType.authentication_method prop p =
    string_arm λ x. record p { authentication_method = some x }
arms PropertyType.authentication_data prop p =
    bytes_arm λ x. record p { authentication_data = some x }
arms _ prop p = fail (invalid_property_type prop)

unfoldable pub empty : ConnAckProperties
empty = record {
  session_expiry_interval = none;
  receive_max = none;
  max_qos = none;
  retain_available = none;
  max_packet_size = none;
  assigned_client_identifier = none;
  topic_alias_max = none;
  reason_string = none;
  user_properties = [];
  wildcard_subscription_available = none;
  subscription_identifiers_available = none;
  shared_subscription_available = none;
  server_keep_alive = none;
  response_information = none;
  server_reference = none;
  authentication_method = none;
  authentication_data = none;
}

pub arms-AreTotal : AreTotal arms
unfolding arms
arms-AreTotal PropertyType.session_expiry_interval prop p = u32_arm-Total _
arms-AreTotal PropertyType.receive_maximum prop p = u16_arm-Total _
arms-AreTotal PropertyType.maximum_qos prop p = u8_arm-Total _
arms-AreTotal PropertyType.retain_available prop p = u8_arm-Total _
arms-AreTotal PropertyType.maximum_packet_size prop p = u32_arm-Total _
arms-AreTotal PropertyType.assigned_client_identifier prop p = string_arm-Total _
arms-AreTotal PropertyType.topic_alias_maximum prop p = u16_arm-Total _
arms-AreTotal PropertyType.reason_string prop p = string_arm-Total _
arms-AreTotal PropertyType.user_property prop p = user_arm-Total _
arms-AreTotal PropertyType.wildcard_subscription_available prop p = u8_arm-Total _
arms-AreTotal PropertyType.subscription_identifier_available prop p = u8_arm-Total _
arms-AreTotal PropertyType.shared_subscription_available prop p = u8_arm-Total _
arms-AreTotal PropertyType.server_keep_alive prop p = u16_arm-Total _
arms-AreTotal PropertyType.response_information prop p = string_arm-Total _
arms-AreTotal PropertyType.server_reference prop p = string_arm-Total _
arms-AreTotal PropertyType.authentication_method prop p = string_arm-Total _
arms-AreTotal PropertyType.authentication_data prop p = bytes_arm-Total _
arms-AreTotal _ prop p = λ _. tt
