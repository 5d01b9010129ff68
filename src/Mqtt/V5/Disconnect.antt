-- ===== src/Mqtt/V5/Disconnect.antt =====
-- src/protocol/src/mqtt/mqttv5/disconnect.rs.
pub mod Properties
pub mod Image
pub mod Laws
use robustmq.Prelude.{
  ℕ, ◌+◌, ◌/◌, ◌≤◌, ◌≡◌, bit_and, Bool, true, false, ◌&&◌, Option, none, some, arith,
}
use robustmq.Prelude.{◌==◌, if◌then◌else◌, length}
use robustmq.Mqtt.Bytes.{Bytes}
use robustmq.Mqtt.Outcome.{
  Outcome, ok, err, Returns, invalid_connect_return_code, invalid_packet_type, malformed_packet,
}
use robustmq.Mqtt.Buffer.{
  Buffered, ◌>>=◌, ◌>>◌, run, pure, lift, guard, Total, Returns->>=, guard-Total, if-Total,
}
use robustmq.Mqtt.Reader.{advance, read_u8}
use robustmq.Mqtt.Reader.Total.{advance-Returns, read_u8-Total}
use robustmq.Mqtt.Writer.{put_u8, write_remaining_length}
use robustmq.Mqtt.Types.Codes.{DisconnectReasonCode}
use robustmq.Mqtt.Types.Packets.{FixedHeader, Disconnect}
use robustmq.Mqtt.Types.Properties.{DisconnectProperties}
use robustmq.Mqtt.V5.Ack.{is_none, unwrap}
use robustmq.Mqtt.V5.Properties.{len_of, write_or_zero, read_properties}
use robustmq.Mqtt.V5.Properties.Total.{read_properties-Total}
use Properties as Fields

unfoldable pub is_normal : DisconnectReasonCode → Bool
is_normal DisconnectReasonCode.normal_disconnection = true
is_normal _ = false

-- The length of a packet with a reason: without properties it is 2 for a normal disconnection,
-- and otherwise 1, the reason alone.
unfoldable pub len_with : DisconnectReasonCode → Option DisconnectProperties → ℕ
unfolding is_normal
len_with reason none = if is_normal reason then 2 else 1
len_with reason (some p) = 1 + len_of Fields.len (some p)

unfoldable pub len : Disconnect → Option DisconnectProperties → ℕ
unfolding len_with
len p properties = elim p.reason_code [ none ↦ 0 | some reason ↦ len_with reason properties ]

unfoldable pub code : DisconnectReasonCode → ℕ
code DisconnectReasonCode.normal_disconnection = 0x00
code DisconnectReasonCode.disconnect_with_will_message = 0x04
code DisconnectReasonCode.unspecified_error = 0x80
code DisconnectReasonCode.malformed_packet = 0x81
code DisconnectReasonCode.protocol_error = 0x82
code DisconnectReasonCode.implementation_specific_error = 0x83
code DisconnectReasonCode.not_authorized = 0x87
code DisconnectReasonCode.server_busy = 0x89
code DisconnectReasonCode.server_shutting_down = 0x8b
code DisconnectReasonCode.keep_alive_timeout = 0x8d
code DisconnectReasonCode.session_taken_over = 0x8e
code DisconnectReasonCode.topic_filter_invalid = 0x8f
code DisconnectReasonCode.topic_name_invalid = 0x90
code DisconnectReasonCode.receive_maximum_exceeded = 0x93
code DisconnectReasonCode.topic_alias_invalid = 0x94
code DisconnectReasonCode.packet_too_large = 0x95
code DisconnectReasonCode.message_rate_too_high = 0x96
code DisconnectReasonCode.quota_exceeded = 0x97
code DisconnectReasonCode.administrative_action = 0x98
code DisconnectReasonCode.payload_format_invalid = 0x99
code DisconnectReasonCode.retain_not_supported = 0x9a
code DisconnectReasonCode.qos_not_supported = 0x9b
code DisconnectReasonCode.use_another_server = 0x9c
code DisconnectReasonCode.server_moved = 0x9d
code DisconnectReasonCode.shared_subscription_not_supported = 0x9e
code DisconnectReasonCode.connection_rate_exceeded = 0x9f
code DisconnectReasonCode.maximum_connect_time = 0xa0
code DisconnectReasonCode.subscription_identifiers_not_supported = 0xa1
code DisconnectReasonCode.wildcard_subscriptions_not_supported = 0xa2

unfoldable pub reason : ℕ → Outcome DisconnectReasonCode
reason num =
    if num == 0x00
    then ok DisconnectReasonCode.normal_disconnection
    else if num == 0x04
    then ok DisconnectReasonCode.disconnect_with_will_message
    else if num == 0x80
    then ok DisconnectReasonCode.unspecified_error
    else if num == 0x81
    then ok DisconnectReasonCode.malformed_packet
    else if num == 0x82
    then ok DisconnectReasonCode.protocol_error
    else if num == 0x83
    then ok DisconnectReasonCode.implementation_specific_error
    else if num == 0x87
    then ok DisconnectReasonCode.not_authorized
    else if num == 0x89
    then ok DisconnectReasonCode.server_busy
    else if num == 0x8b
    then ok DisconnectReasonCode.server_shutting_down
    else if num == 0x8d
    then ok DisconnectReasonCode.keep_alive_timeout
    else if num == 0x8e
    then ok DisconnectReasonCode.session_taken_over
    else if num == 0x8f
    then ok DisconnectReasonCode.topic_filter_invalid
    else if num == 0x90
    then ok DisconnectReasonCode.topic_name_invalid
    else if num == 0x93
    then ok DisconnectReasonCode.receive_maximum_exceeded
    else if num == 0x94
    then ok DisconnectReasonCode.topic_alias_invalid
    else if num == 0x95
    then ok DisconnectReasonCode.packet_too_large
    else if num == 0x96
    then ok DisconnectReasonCode.message_rate_too_high
    else if num == 0x97
    then ok DisconnectReasonCode.quota_exceeded
    else if num == 0x98
    then ok DisconnectReasonCode.administrative_action
    else if num == 0x99
    then ok DisconnectReasonCode.payload_format_invalid
    else if num == 0x9a
    then ok DisconnectReasonCode.retain_not_supported
    else if num == 0x9b
    then ok DisconnectReasonCode.qos_not_supported
    else if num == 0x9c
    then ok DisconnectReasonCode.use_another_server
    else if num == 0x9d
    then ok DisconnectReasonCode.server_moved
    else if num == 0x9e
    then ok DisconnectReasonCode.shared_subscription_not_supported
    else if num == 0x9f
    then ok DisconnectReasonCode.connection_rate_exceeded
    else if num == 0xa0
    then ok DisconnectReasonCode.maximum_connect_time
    else if num == 0xa1
    then ok DisconnectReasonCode.subscription_identifiers_not_supported
    else if num == 0xa2
    then ok DisconnectReasonCode.wildcard_subscriptions_not_supported
    else err (invalid_connect_return_code num)

unfoldable pub write : Disconnect → Option DisconnectProperties → Buffered ℕ
unfolding len code unwrap
write p properties = do
  put_u8 0xe0
  if len p properties == 0
      then pure 0
      else if len p properties == 2
      then (do put_u8 0x00; pure (len p properties))
      else (do
        len_len ← write_remaining_length (len p properties)
        reason ← lift (unwrap p.reason_code)
        put_u8 (code reason)
        write_or_zero Fields.write properties
        pure (1 + len_len + len p properties))

-- What follows the fixed header.
unfoldable pub read_rest : ℕ → Buffered (Disconnect × Option DisconnectProperties)
unfolding reason
read_rest remaining_len =
    if remaining_len == 0
    then pure (record { reason_code = some DisconnectReasonCode.normal_disconnection }, none)
    else (do
      reason_code ← read_u8
      reason ← lift (reason reason_code)
      properties ← read_properties Fields.arms Fields.empty
      pure (record { reason_code = some reason }, properties))

unfoldable pub read : FixedHeader → Bytes → Outcome (Disconnect × Option DisconnectProperties)
unfolding read_rest
read h = run do
  advance h.fixed_header_len
  guard (h.byte1 / 16 == 14) (invalid_packet_type (h.byte1 / 16))
  guard (bit_and h.byte1 0b0000_1111 == 0x00) malformed_packet
  read_rest h.remaining_len

reason-Returns : (num : ℕ) → Returns (reason num)
unfolding reason
reason-Returns num = ground arith

pub reason-code : (r : DisconnectReasonCode) → reason (code r) ≡ ok r
unfolding reason code
reason-code r = ground arith

read_rest-Total : (n : ℕ) → Total (read_rest n)
unfolding read_rest
read_rest-Total n =
    if-Total _ (pure _) _ (λ _. tt)
      λ bs. Returns->>= read_u8 _ bs (read_u8-Total bs) λ reason_code bs'.
        Returns->>= (lift (reason reason_code)) _ bs' (reason-Returns reason_code) λ _ bs2.
          Returns->>= (read_properties Fields.arms Fields.empty) _ bs2
            (read_properties-Total Fields.arms Fields.empty Fields.arms-AreTotal bs2) λ _ _. tt

pub read-Returns :
    (h : FixedHeader) (bytes : Bytes) → h.fixed_header_len ≤ length bytes → Returns (read h bytes)
unfolding read
read-Returns h bytes g =
    let of_type = h.byte1 / 16 == 14 in
    let no_flags = bit_and h.byte1 0b0000_1111 == 0x00 in
    Returns->>= (advance _) _ bytes (advance-Returns _ bytes g) λ _ bs.
      Returns->>= (guard of_type (invalid_packet_type (h.byte1 / 16))) _ bs
        (guard-Total of_type _ bs)
        λ _ bs'.
          Returns->>= (guard no_flags malformed_packet) _ bs' (guard-Total no_flags _ bs')
            λ _. read_rest-Total h.remaining_len
