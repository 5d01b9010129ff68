-- ===== src/Mqtt/V5/PropertyType.antt =====
-- `PropertyType` and `property` of src/protocol/src/mqtt/mqttv5/mod.rs.
use robustmq.Prelude.{ℕ, ◌≡◌, refl, arith}
use robustmq.Prelude.{◌==◌, if◌then◌else◌}
use robustmq.Mqtt.Outcome.{Outcome, ok, err, Returns, invalid_property_type}

pub data PropertyType : Type 0 where
  payload_format_indicator message_expiry_interval content_type response_topic correlation_data
        subscription_identifier session_expiry_interval assigned_client_identifier server_keep_alive
        authentication_method authentication_data request_problem_information will_delay_interval
        request_response_information response_information server_reference reason_string
        receive_maximum topic_alias_maximum topic_alias maximum_qos retain_available user_property
        maximum_packet_size wildcard_subscription_available subscription_identifier_available
        shared_subscription_available :
      PropertyType

-- `property as u8`.
unfoldable pub property_u8 : PropertyType → ℕ
property_u8 PropertyType.payload_format_indicator = 1
property_u8 PropertyType.message_expiry_interval = 2
property_u8 PropertyType.content_type = 3
property_u8 PropertyType.response_topic = 8
property_u8 PropertyType.correlation_data = 9
property_u8 PropertyType.subscription_identifier = 11
property_u8 PropertyType.session_expiry_interval = 17
property_u8 PropertyType.assigned_client_identifier = 18
property_u8 PropertyType.server_keep_alive = 19
property_u8 PropertyType.authentication_method = 21
property_u8 PropertyType.authentication_data = 22
property_u8 PropertyType.request_problem_information = 23
property_u8 PropertyType.will_delay_interval = 24
property_u8 PropertyType.request_response_information = 25
property_u8 PropertyType.response_information = 26
property_u8 PropertyType.server_reference = 28
property_u8 PropertyType.reason_string = 31
property_u8 PropertyType.receive_maximum = 33
property_u8 PropertyType.topic_alias_maximum = 34
property_u8 PropertyType.topic_alias = 35
property_u8 PropertyType.maximum_qos = 36
property_u8 PropertyType.retain_available = 37
property_u8 PropertyType.user_property = 38
property_u8 PropertyType.maximum_packet_size = 39
property_u8 PropertyType.wildcard_subscription_available = 40
property_u8 PropertyType.subscription_identifier_available = 41
property_u8 PropertyType.shared_subscription_available = 42

unfoldable pub property : ℕ → Outcome PropertyType
property num =
    if num == 1
    then ok PropertyType.payload_format_indicator
    else if num == 2
    then ok PropertyType.message_expiry_interval
    else if num == 3
    then ok PropertyType.content_type
    else if num == 8
    then ok PropertyType.response_topic
    else if num == 9
    then ok PropertyType.correlation_data
    else if num == 11
    then ok PropertyType.subscription_identifier
    else if num == 17
    then ok PropertyType.session_expiry_interval
    else if num == 18
    then ok PropertyType.assigned_client_identifier
    else if num == 19
    then ok PropertyType.server_keep_alive
    else if num == 21
    then ok PropertyType.authentication_method
    else if num == 22
    then ok PropertyType.authentication_data
    else if num == 23
    then ok PropertyType.request_problem_information
    else if num == 24
    then ok PropertyType.will_delay_interval
    else if num == 25
    then ok PropertyType.request_response_information
    else if num == 26
    then ok PropertyType.response_information
    else if num == 28
    then ok PropertyType.server_reference
    else if num == 31
    then ok PropertyType.reason_string
    else if num == 33
    then ok PropertyType.receive_maximum
    else if num == 34
    then ok PropertyType.topic_alias_maximum
    else if num == 35
    then ok PropertyType.topic_alias
    else if num == 36
    then ok PropertyType.maximum_qos
    else if num == 37
    then ok PropertyType.retain_available
    else if num == 38
    then ok PropertyType.user_property
    else if num == 39
    then ok PropertyType.maximum_packet_size
    else if num == 40
    then ok PropertyType.wildcard_subscription_available
    else if num == 41
    then ok PropertyType.subscription_identifier_available
    else if num == 42
    then ok PropertyType.shared_subscription_available
    else err (invalid_property_type num)

pub property-property_u8 : (t : PropertyType) → property (property_u8 t) ≡ ok t
unfolding property property_u8
property-property_u8 PropertyType.payload_format_indicator = refl
property-property_u8 PropertyType.message_expiry_interval = refl
property-property_u8 PropertyType.content_type = refl
property-property_u8 PropertyType.response_topic = refl
property-property_u8 PropertyType.correlation_data = refl
property-property_u8 PropertyType.subscription_identifier = refl
property-property_u8 PropertyType.session_expiry_interval = refl
property-property_u8 PropertyType.assigned_client_identifier = refl
property-property_u8 PropertyType.server_keep_alive = refl
property-property_u8 PropertyType.authentication_method = refl
property-property_u8 PropertyType.authentication_data = refl
property-property_u8 PropertyType.request_problem_information = refl
property-property_u8 PropertyType.will_delay_interval = refl
property-property_u8 PropertyType.request_response_information = refl
property-property_u8 PropertyType.response_information = refl
property-property_u8 PropertyType.server_reference = refl
property-property_u8 PropertyType.reason_string = refl
property-property_u8 PropertyType.receive_maximum = refl
property-property_u8 PropertyType.topic_alias_maximum = refl
property-property_u8 PropertyType.topic_alias = refl
property-property_u8 PropertyType.maximum_qos = refl
property-property_u8 PropertyType.retain_available = refl
property-property_u8 PropertyType.user_property = refl
property-property_u8 PropertyType.maximum_packet_size = refl
property-property_u8 PropertyType.wildcard_subscription_available = refl
property-property_u8 PropertyType.subscription_identifier_available = refl
property-property_u8 PropertyType.shared_subscription_available = refl

pub property-Returns : (num : ℕ) → Returns (property num)
unfolding property
property-Returns num = ground arith
