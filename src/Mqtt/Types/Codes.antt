-- ===== src/Mqtt/Types/Codes.antt =====
-- The enumerations of src/protocol/src/mqtt/common.rs.

pub data Qos : Type 0 where
  at_most_once at_least_once exactly_once : Qos

pub data RetainForwardRule : Type 0 where
  on_every_subscribe on_new_subscribe never : RetainForwardRule

pub data PacketType : Type 0 where
  connect conn_ack publish pub_ack pub_rec pub_rel pub_comp subscribe sub_ack unsubscribe unsub_ack
        ping_req ping_resp disconnect auth :
      PacketType

pub data ConnectReturnCode : Type 0 where
  success not_authorized unspecified_error malformed_packet protocol_error
        implementation_specific_error unsupported_protocol_version client_identifier_not_valid
        bad_user_name_password server_unavailable server_busy banned bad_authentication_method
        topic_name_invalid packet_too_large quota_exceeded payload_format_invalid
        retain_not_supported qos_not_supported use_another_server server_moved
        connection_rate_exceeded refused_protocol_version bad_client_id service_unavailable :
      ConnectReturnCode

pub data PubAckReason : Type 0 where
  success no_matching_subscribers unspecified_error implementation_specific_error not_authorized
        topic_name_invalid packet_identifier_in_use quota_exceeded payload_format_invalid :
      PubAckReason

pub data PubRecReason : Type 0 where
  success no_matching_subscribers unspecified_error implementation_specific_error not_authorized
        topic_name_invalid packet_identifier_in_use quota_exceeded payload_format_invalid :
      PubRecReason

pub data PubRelReason : Type 0 where
  success packet_identifier_not_found : PubRelReason

pub data PubCompReason : Type 0 where
  success packet_identifier_not_found : PubCompReason

pub data SubscribeReasonCode : Type 0 where
  qos_0 qos_1 qos_2 : SubscribeReasonCode
  success : Qos → SubscribeReasonCode
  failure unspecified implementation_specific not_authorized topic_filter_invalid pkid_in_use
        quota_exceeded shared_subscriptions_not_supported subscription_id_not_supported
        wildcard_subscriptions_not_supported exclusive_subscription_disabled topic_subscribed :
      SubscribeReasonCode

pub data UnsubAckReason : Type 0 where
  success no_subscription_existed unspecified_error implementation_specific_error not_authorized
        topic_filter_invalid packet_identifier_in_use :
      UnsubAckReason

pub data DisconnectReasonCode : Type 0 where
  normal_disconnection disconnect_with_will_message unspecified_error malformed_packet
        protocol_error implementation_specific_error not_authorized server_busy server_shutting_down
        keep_alive_timeout session_taken_over topic_filter_invalid topic_name_invalid
        receive_maximum_exceeded topic_alias_invalid packet_too_large message_rate_too_high
        quota_exceeded administrative_action payload_format_invalid retain_not_supported
        qos_not_supported use_another_server server_moved shared_subscription_not_supported
        connection_rate_exceeded maximum_connect_time subscription_identifiers_not_supported
        wildcard_subscriptions_not_supported :
      DisconnectReasonCode

pub data AuthReason : Type 0 where
  success continue_authentication re_authenticate : AuthReason
