-- ===== src/Mqtt/Types/Properties.antt =====
-- The property records of MQTT 5 packets, src/protocol/src/mqtt/common.rs. MQTT 3.1.1 packets have none.
use robustmq.Prelude.{ℕ, List, Option}
use robustmq.Mqtt.Bytes.{Bytes, Text}

pub record ConnectProperties : Type 0 where
  pub session_expiry_interval : Option ℕ
  pub receive_maximum : Option ℕ
  pub max_packet_size : Option ℕ
  pub topic_alias_max : Option ℕ
  pub request_response_info : Option ℕ
  pub request_problem_info : Option ℕ
  pub user_properties : List (Text × Text)
  pub authentication_method : Option Text
  pub authentication_data : Option Bytes

pub record LastWillProperties : Type 0 where
  pub delay_interval : Option ℕ
  pub payload_format_indicator : Option ℕ
  pub message_expiry_interval : Option ℕ
  pub content_type : Option Text
  pub response_topic : Option Text
  pub correlation_data : Option Bytes
  pub user_properties : List (Text × Text)

pub record ConnAckProperties : Type 0 where
  pub session_expiry_interval : Option ℕ
  pub receive_max : Option ℕ
  pub max_qos : Option ℕ
  pub retain_available : Option ℕ
  pub max_packet_size : Option ℕ
  pub assigned_client_identifier : Option Text
  pub topic_alias_max : Option ℕ
  pub reason_string : Option Text
  pub user_properties : List (Text × Text)
  pub wildcard_subscription_available : Option ℕ
  pub subscription_identifiers_available : Option ℕ
  pub shared_subscription_available : Option ℕ
  pub server_keep_alive : Option ℕ
  pub response_information : Option Text
  pub server_reference : Option Text
  pub authentication_method : Option Text
  pub authentication_data : Option Bytes

pub record PublishProperties : Type 0 where
  pub payload_format_indicator : Option ℕ
  pub message_expiry_interval : Option ℕ
  pub topic_alias : Option ℕ
  pub response_topic : Option Text
  pub correlation_data : Option Bytes
  pub user_properties : List (Text × Text)
  pub subscription_identifiers : List ℕ
  pub content_type : Option Text

pub record PubAckProperties : Type 0 where
  pub reason_string : Option Text
  pub user_properties : List (Text × Text)

pub record PubRecProperties : Type 0 where
  pub reason_string : Option Text
  pub user_properties : List (Text × Text)

pub record PubRelProperties : Type 0 where
  pub reason_string : Option Text
  pub user_properties : List (Text × Text)

pub record PubCompProperties : Type 0 where
  pub reason_string : Option Text
  pub user_properties : List (Text × Text)

pub record SubscribeProperties : Type 0 where
  pub subscription_identifier : Option ℕ
  pub user_properties : List (Text × Text)

pub record SubAckProperties : Type 0 where
  pub reason_string : Option Text
  pub user_properties : List (Text × Text)

pub record UnsubscribeProperties : Type 0 where
  pub user_properties : List (Text × Text)

pub record UnsubAckProperties : Type 0 where
  pub reason_string : Option Text
  pub user_properties : List (Text × Text)

pub record DisconnectProperties : Type 0 where
  pub session_expiry_interval : Option ℕ
  pub reason_string : Option Text
  pub user_properties : List (Text × Text)
  pub server_reference : Option Text

pub record AuthProperties : Type 0 where
  pub authentication_method : Option Text
  pub authentication_data : Option Bytes
  pub reason_string : Option Text
  pub user_properties : List (Text × Text)
