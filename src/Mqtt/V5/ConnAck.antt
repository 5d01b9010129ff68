-- ===== src/Mqtt/V5/ConnAck.antt =====
-- src/protocol/src/mqtt/mqttv5/connack.rs.
pub mod Properties
pub mod Image
pub mod Laws
use robustmq.Prelude.{ℕ, ◌+◌, ◌≤◌, bit_and, Option, arith}
use robustmq.Prelude.{◌==◌, if◌then◌else◌, length}
use robustmq.Mqtt.Bytes.{Bytes}
use robustmq.Mqtt.Outcome.{Outcome, ok, err, panic, Returns, invalid_connect_return_code}
use robustmq.Mqtt.Buffer.{Buffered, ◌>>=◌, ◌>>◌, run, pure, lift, Returns->>=}
use robustmq.Mqtt.Reader.{advance, read_u8}
use robustmq.Mqtt.Reader.Total.{advance-Returns, read_u8-Total}
use robustmq.Mqtt.Writer.{bool_u8, put_u8, write_remaining_length}
use robustmq.Mqtt.Types.Codes.{ConnectReturnCode}
use robustmq.Mqtt.Types.Packets.{FixedHeader, ConnAck}
use robustmq.Mqtt.Types.Properties.{ConnAckProperties}
use robustmq.Mqtt.V5.Properties.{len_of, write_or_zero, read_properties}
use robustmq.Mqtt.V5.Properties.Total.{read_properties-Total}
use Properties as Fields

unfoldable pub len : Option ConnAckProperties → ℕ
len properties = 1 + 1 + len_of Fields.len properties

unfoldable pub connect_return : ℕ → Outcome ConnectReturnCode
connect_return num =
    if num == 0
    then ok ConnectReturnCode.success
    else if num == 128
    then ok ConnectReturnCode.unspecified_error
    else if num == 129
    then ok ConnectReturnCode.malformed_packet
    else if num == 130
    then ok ConnectReturnCode.protocol_error
    else if num == 131
    then ok ConnectReturnCode.implementation_specific_error
    else if num == 132
    then ok ConnectReturnCode.unsupported_protocol_version
    else if num == 133
    then ok ConnectReturnCode.client_identifier_not_valid
    else if num == 134
    then ok ConnectReturnCode.bad_user_name_password
    else if num == 135
    then ok ConnectReturnCode.not_authorized
    else if num == 136
    then ok ConnectReturnCode.server_unavailable
    else if num == 137
    then ok ConnectReturnCode.server_busy
    else if num == 138
    then ok ConnectReturnCode.banned
    else if num == 140
    then ok ConnectReturnCode.bad_authentication_method
    else if num == 144
    then ok ConnectReturnCode.topic_name_invalid
    else if num == 149
    then ok ConnectReturnCode.packet_too_large
    else if num == 151
    then ok ConnectReturnCode.quota_exceeded
    else if num == 153
    then ok ConnectReturnCode.payload_format_invalid
    else if num == 154
    then ok ConnectReturnCode.retain_not_supported
    else if num == 155
    then ok ConnectReturnCode.qos_not_supported
    else if num == 156
    then ok ConnectReturnCode.use_another_server
    else if num == 157
    then ok ConnectReturnCode.server_moved
    else if num == 159
    then ok ConnectReturnCode.connection_rate_exceeded
    else err (invalid_connect_return_code num)

-- The codes of MQTT 3.1.1 are `unreachable!()` here.
unfoldable pub connect_code : ConnectReturnCode → Outcome ℕ
connect_code ConnectReturnCode.success = ok 0
connect_code ConnectReturnCode.unspecified_error = ok 128
connect_code ConnectReturnCode.malformed_packet = ok 129
connect_code ConnectReturnCode.protocol_error = ok 130
connect_code ConnectReturnCode.implementation_specific_error = ok 131
connect_code ConnectReturnCode.unsupported_protocol_version = ok 132
connect_code ConnectReturnCode.client_identifier_not_valid = ok 133
connect_code ConnectReturnCode.bad_user_name_password = ok 134
connect_code ConnectReturnCode.not_authorized = ok 135
connect_code ConnectReturnCode.server_unavailable = ok 136
connect_code ConnectReturnCode.server_busy = ok 137
connect_code ConnectReturnCode.banned = ok 138
connect_code ConnectReturnCode.bad_authentication_method = ok 140
connect_code ConnectReturnCode.topic_name_invalid = ok 144
connect_code ConnectReturnCode.packet_too_large = ok 149
connect_code ConnectReturnCode.quota_exceeded = ok 151
connect_code ConnectReturnCode.payload_format_invalid = ok 153
connect_code ConnectReturnCode.retain_not_supported = ok 154
connect_code ConnectReturnCode.qos_not_supported = ok 155
connect_code ConnectReturnCode.use_another_server = ok 156
connect_code ConnectReturnCode.server_moved = ok 157
connect_code ConnectReturnCode.connection_rate_exceeded = ok 159
connect_code _ = panic

unfoldable pub write : ConnAck → Option ConnAckProperties → Buffered ℕ
unfolding len connect_code bool_u8
write p properties = do
  put_u8 0x20
  count ← write_remaining_length (len properties)
  put_u8 (bool_u8 p.session_present)
  code ← lift (connect_code p.code)
  put_u8 code
  write_or_zero Fields.write properties
  pure (1 + count + len properties)

unfoldable pub read : FixedHeader → Bytes → Outcome (ConnAck × Option ConnAckProperties)
unfolding connect_return
read h = run do
  advance h.fixed_header_len
  flags ← read_u8
  return_code ← read_u8
  properties ← read_properties Fields.arms Fields.empty
  let session_present = bit_and flags 0x01 == 1
  code ← lift (connect_return return_code)
  pure (record { session_present = session_present; code = code }, properties)

connect_return-Returns : (num : ℕ) → Returns (connect_return num)
unfolding connect_return
connect_return-Returns num = ground arith

pub read-Returns :
    (h : FixedHeader) (bytes : Bytes) → h.fixed_header_len ≤ length bytes → Returns (read h bytes)
unfolding read
read-Returns h bytes g = Returns->>= (advance _) _ bytes (advance-Returns _ bytes g) λ _ bs.
    Returns->>= read_u8 _ bs (read_u8-Total bs) λ flags bs'.
      Returns->>= read_u8 _ bs' (read_u8-Total bs') λ return_code bs2.
        Returns->>= (read_properties Fields.arms Fields.empty) _ bs2
          (read_properties-Total Fields.arms Fields.empty Fields.arms-AreTotal bs2)
          λ o bs3.
            Returns->>= (lift (connect_return return_code)) _ bs3
              (connect_return-Returns return_code) λ _ _. tt
