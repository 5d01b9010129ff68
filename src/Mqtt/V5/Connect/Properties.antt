-- ===== src/Mqtt/V5/Connect/Properties.antt =====
-- The properties of src/protocol/src/mqtt/mqttv5/connect.rs.
use robustmq.Prelude.{ℕ, ◌+◌, none, some, [], ◌∷◌, ◌++◌}
use robustmq.Mqtt.Buffer.{Buffered, ◌>>=◌, ◌>>◌, fail}
use robustmq.Mqtt.Outcome.{invalid_property_type}
use robustmq.Mqtt.Writer.{
  put_u8, put_u16, write_mqtt_string, write_mqtt_bytes, write_remaining_length,
}
use robustmq.Mqtt.Types.Properties.{ConnectProperties}
use robustmq.Mqtt.V5.PropertyType.{PropertyType}
use robustmq.Mqtt.V5.Fields.{
  len_of_size, len_of_bytes, len_of_users, put_u32, write_option, write_users, u8_arm, u16_arm,
  u32_arm, string_arm, bytes_arm, user_arm,
}
use robustmq.Mqtt.V5.Fields.Total.{
  u8_arm-Total, u16_arm-Total, u32_arm-Total, string_arm-Total, bytes_arm-Total, user_arm-Total,
}
use robustmq.Mqtt.V5.Properties.{Arms}
use robustmq.Mqtt.V5.Properties.Total.{AreTotal}

unfoldable pub len : ConnectProperties → ℕ
len p =
    len_of_size 4 p.session_expiry_interval
    + len_of_size 2 p.receive_maximum
    + len_of_size 4 p.max_packet_size
    + len_of_size 2 p.topic_alias_max
    + len_of_size 1 p.request_response_info
    + len_of_size 1 p.request_problem_info
    + len_of_users p.user_properties
    + len_of_bytes p.authentication_method
    + len_of_bytes p.authentication_data

unfoldable pub write : ConnectProperties → Buffered (Unit {0})
unfolding len
write p = write_remaining_length (len p) >>= λ _. do
  write_option PropertyType.session_expiry_interval put_u32 p.session_expiry_interval
  write_option PropertyType.receive_maximum put_u16 p.receive_maximum
  write_option PropertyType.maximum_packet_size put_u32 p.max_packet_size
  write_option PropertyType.topic_alias_maximum put_u16 p.topic_alias_max
  write_option PropertyType.request_response_information put_u8 p.request_response_info
  write_option PropertyType.request_problem_information put_u8 p.request_problem_info
  write_users p.user_properties
  write_option PropertyType.authentication_method write_mqtt_string p.authentication_method
  write_option PropertyType.authentication_data write_mqtt_bytes p.authentication_data

-- The match of `read`.
unfoldable pub arms : Arms ConnectProperties
arms PropertyType.session_expiry_interval prop p =
    u32_arm λ x. record p { session_expiry_interval = some x }
arms PropertyType.receive_maximum prop p = u16_arm λ x. record p { receive_maximum = some x }
arms PropertyType.maximum_packet_size prop p = u32_arm λ x. record p { max_packet_size = some x }
arms PropertyType.topic_alias_maximum prop p = u16_arm λ x. record p { topic_alias_max = some x }
arms PropertyType.request_response_information prop p =
    u8_arm λ x. record p { request_response_info = some x }
arms PropertyType.request_problem_information prop p =
    u8_arm λ x. record p { request_problem_info = some x }
arms PropertyType.user_property prop p =
    user_arm λ user. record p { user_properties = p.user_properties ++ user ∷ [] }
arms PropertyType.authentication_method prop p =
    string_arm λ x. record p { authentication_method = some x }
arms PropertyType.authentication_data prop p =
    bytes_arm λ x. record p { authentication_data = some x }
arms _ prop p = fail (invalid_property_type prop)

unfoldable pub empty : ConnectProperties
empty = record {
  session_expiry_interval = none;
  receive_maximum = none;
  max_packet_size = none;
  topic_alias_max = none;
  request_response_info = none;
  request_problem_info = none;
  user_properties = [];
  authentication_method = none;
  authentication_data = none;
}

pub arms-AreTotal : AreTotal arms
unfolding arms
arms-AreTotal PropertyType.session_expiry_interval prop p = u32_arm-Total _
arms-AreTotal PropertyType.receive_maximum prop p = u16_arm-Total _
arms-AreTotal PropertyType.maximum_packet_size prop p = u32_arm-Total _
arms-AreTotal PropertyType.topic_alias_maximum prop p = u16_arm-Total _
arms-AreTotal PropertyType.request_response_information prop p = u8_arm-Total _
arms-AreTotal PropertyType.request_problem_information prop p = u8_arm-Total _
arms-AreTotal PropertyType.user_property prop p = user_arm-Total _
arms-AreTotal PropertyType.authentication_method prop p = string_arm-Total _
arms-AreTotal PropertyType.authentication_data prop p = bytes_arm-Total _
arms-AreTotal _ prop p = λ _. tt
