-- ===== src/Mqtt/V5/Tests.antt =====
-- Runs of src/protocol/src/mqtt/mqttv5 on concrete packets.
use robustmq.Prelude.{◌+◌, ◌≡◌, refl, false, none, some, [], ◌∷◌, ◌++◌, arith}
use robustmq.Prelude.{length}
use robustmq.Mqtt.Bytes.{Bytes, is_utf8}
use robustmq.Mqtt.Outcome.{ok, err, Returns, invalid_packet_type, insufficient_bytes}
use robustmq.Mqtt.Types.{MqttPacket}
use robustmq.Mqtt.Types.Codes.{
  at_most_once, at_least_once, PubAckReason, DisconnectReasonCode, AuthReason,
}
use robustmq.Mqtt.Types.Packets.{Publish, PubAck}
use robustmq.Mqtt.Types.Properties.{
  PublishProperties, PubAckProperties, DisconnectProperties, AuthProperties,
}
use robustmq.Mqtt.Writer.{len_len}
use robustmq.Mqtt.Header.Image.{var_int}
use robustmq.Mqtt.V5.Properties.{read_loop, len_of}
use robustmq.Mqtt.V5.PubAck as PubAck5
use robustmq.Mqtt.V5.ReasonProperties
use robustmq.Mqtt.V5.Publish as Publish5
use robustmq.Mqtt.V5.Publish.Written.{write-announced}
use robustmq.Mqtt.V5.Disconnect.Laws.{disconnect}
use robustmq.Mqtt.V5.Auth.Laws.{auth, announced, write-uncounted}
use robustmq.Mqtt.V5.Auth as Auth5
use robustmq.Mqtt.V5.Codec.{encode, decode}
use robustmq.Mqtt.V5.Ack
use robustmq.Mqtt.V5.Properties.Codec.{length-options_image}
use robustmq.Mqtt.V5.Codec.Sent.{pub_ack_body, IsWritable, arrived}
use robustmq.Mqtt.V5.Codec.Safety.{decode-Returns_v5}
use robustmq.Mqtt.V5.Codec.RoundTrip.{decode-encode_v5}

abbrev pub_ack : PubAck
pub_ack = record { pkid = 20; reason = some PubAckReason.not_authorized }

abbrev pub_ack_properties : PubAckProperties
pub_ack_properties = record {
  reason_string = some (0x6e ∷ 0x6f ∷ []);
  user_properties = (0x6b ∷ [], 0x76 ∷ []) ∷ [];
}

abbrev pub_ack_packet : MqttPacket
pub_ack_packet = MqttPacket.pub_ack pub_ack (some pub_ack_properties)

-- The bytes that `encode` writes for it.
pub_ack_bytes : encode pub_ack_packet [] ≡ (
  ok tt,
  0x40 ∷ 16 ∷ 0 ∷ 20 ∷ 135 ∷ 12 ∷ 31 ∷ 0 ∷ 2 ∷ 0x6e ∷ 0x6f ∷ 38 ∷ 0 ∷ 1 ∷ 0x6b ∷ 0 ∷ 1 ∷ 0x76 ∷ [],
)
unfolding encode PubAck5.write robustmq.Mqtt.V5.Ack.write robustmq.Mqtt.Writer.put_u8
    robustmq.Mqtt.Writer.write_remaining_length robustmq.Mqtt.V5.Properties.len_of len_len
    ReasonProperties.len robustmq.Mqtt.V5.Fields.len_of_bytes robustmq.Mqtt.V5.Fields.len_of_users
    robustmq.Mqtt.Writer.put_u16 robustmq.Mqtt.V5.Properties.write_or_zero ReasonProperties.write
    robustmq.Mqtt.V5.Fields.write_option robustmq.Mqtt.Writer.write_mqtt_string
    robustmq.Mqtt.Writer.write_mqtt_bytes robustmq.Mqtt.Writer.put_slice
    robustmq.Mqtt.V5.Fields.write_users robustmq.Mqtt.V5.PropertyType.property_u8
pub_ack_bytes = refl

pub_ack_len : ReasonProperties.len PubAck5.properties pub_ack_properties ≡ 12
unfolding ReasonProperties.len robustmq.Mqtt.V5.Fields.len_of_bytes
    robustmq.Mqtt.V5.Fields.len_of_users
pub_ack_len = refl

options_len : len_of (ReasonProperties.len PubAck5.properties) (some pub_ack_properties) ≡ 13
unfolding len_of len_len ReasonProperties.len robustmq.Mqtt.V5.Fields.len_of_bytes
    robustmq.Mqtt.V5.Fields.len_of_users
options_len = refl

length-pub_ack_body :
    length (pub_ack_body pub_ack PubAckReason.not_authorized (some pub_ack_properties)) ≡ 16
unfolding Ack.Laws.body Ack.is_short PubAck5.shape
length-pub_ack_body =
    omega (arith, length-options_image PubAck5.codec (some pub_ack_properties), options_len)

pub_ack_packet-IsWritable : IsWritable pub_ack_packet
unfolding is_utf8
pub_ack_packet-IsWritable = (
  PubAckReason.not_authorized,
  refl,
  (
    ((omega arith, refl), (((omega arith, refl), (omega arith, refl)), tt)),
    omega (arith, pub_ack_len),
  ),
  omega (arith, length-pub_ack_body),
)

decode-encode_v5_example :
    (bytes : Bytes) × (encode pub_ack_packet (1 ∷ []) ≡ (ok tt, (1 ∷ []) ++ bytes))
    × (encode pub_ack_packet [] ≡ (ok tt, bytes))
    × (decode (bytes ++ 2 ∷ []) ≡ (ok (some (arrived pub_ack_packet)), 2 ∷ []))
decode-encode_v5_example =
    decode-encode_v5 pub_ack_packet (1 ∷ []) (2 ∷ []) pub_ack_packet-IsWritable

decode-Returns_v5_example : Returns (decode (0x30 ∷ 3 ∷ 0 ∷ 9 ∷ 1 ∷ [])).0
decode-Returns_v5_example = decode-Returns_v5 (0x30 ∷ 3 ∷ 0 ∷ 9 ∷ 1 ∷ [])

abbrev aliased : PublishProperties
aliased = record {
  payload_format_indicator = none;
  message_expiry_interval = none;
  topic_alias = some 5;
  response_topic = none;
  correlation_data = none;
  user_properties = [];
  subscription_identifiers = [];
  content_type = none;
}

abbrev publish : Publish
publish = record {
  dup = false;
  qos = at_least_once;
  pkid = 7;
  retain = false;
  topic = 0x61 ∷ [];
  payload = 9 ∷ [];
}

publish-IsWritable : Publish5.Written.IsWritable publish
unfolding robustmq.Mqtt.Qos.is_at_most_once
publish-IsWritable = record { topic_fits = omega arith; pkid_set = refl }

aliased_len : Publish5.Properties.len aliased ≡ 2
unfolding robustmq.Mqtt.V5.Publish.Properties.len robustmq.Mqtt.V5.Fields.len_of_size
    robustmq.Mqtt.V5.Fields.len_of_bytes robustmq.Mqtt.V5.Fields.len_of_users
    robustmq.Mqtt.V5.Fields.len_of_identifiers
aliased_len = refl

publish_len : Publish5.len publish (some aliased) ≡ 9
unfolding Publish5.len robustmq.Mqtt.V5.Properties.len_of len_len
    robustmq.Mqtt.V5.Publish.Properties.len robustmq.Mqtt.V5.Fields.len_of_size
    robustmq.Mqtt.V5.Fields.len_of_bytes robustmq.Mqtt.V5.Fields.len_of_users
    robustmq.Mqtt.V5.Fields.len_of_identifiers
publish_len = refl

write-announced_example :
    (body : Bytes) × (Publish5.write publish (some aliased) [] ≡ (
      ok (1 + len_len (Publish5.len publish (some aliased)) + Publish5.len publish (some aliased)),
      [] ++ (Publish5.first_byte publish ∷ var_int (Publish5.len publish (some aliased)) ++ body),
    ))
    × (length body
        ≡ Publish5.len publish (some aliased) + Publish5.Written.uncounted (some aliased))
write-announced_example =
    write-announced publish (some aliased) [] publish-IsWritable
      ((tt, tt, tt, tt, tt), omega (arith, aliased_len)) (omega (arith, publish_len))

-- What is sent is not read back: the alias is, and the payload loses its last byte, which stays
-- in the stream.
aliased_back :
    decode (encode (MqttPacket.publish publish (some aliased)) []).1
    ≡ (ok (some (MqttPacket.publish (record publish { payload = [] }) (some aliased))), 9 ∷ [])
unfolding decode robustmq.Mqtt.Frames.decode robustmq.Mqtt.Header.check
    robustmq.Mqtt.Header.parse_fixed_header encode Publish5.write robustmq.Mqtt.Writer.put_u8
    robustmq.Mqtt.Writer.write_remaining_length robustmq.Mqtt.V5.Properties.len_of len_len
    robustmq.Mqtt.V5.Publish.Properties.len robustmq.Mqtt.V5.Fields.len_of_size
    robustmq.Mqtt.V5.Fields.len_of_bytes robustmq.Mqtt.V5.Fields.len_of_users
    robustmq.Mqtt.V5.Fields.len_of_identifiers robustmq.Mqtt.Writer.write_mqtt_bytes
    robustmq.Mqtt.Writer.put_u16 robustmq.Mqtt.Writer.put_slice
    robustmq.Mqtt.V5.Properties.write_or_zero robustmq.Mqtt.V5.Publish.Properties.write
    robustmq.Mqtt.V5.Fields.write_option robustmq.Mqtt.V5.Fields.write_users
    robustmq.Mqtt.V5.Fields.write_identifiers robustmq.Mqtt.Header.parse_length
    robustmq.Mqtt.Header.new robustmq.Mqtt.Header.frame_length robustmq.Mqtt.Header.packet_type
    robustmq.Mqtt.Header.packet_type_of Publish5.read robustmq.Mqtt.Reader.advance
    robustmq.Mqtt.Reader.read_mqtt_bytes robustmq.Mqtt.Reader.read_u16
    robustmq.Mqtt.V5.Properties.read_properties robustmq.Mqtt.V5.Fields.peek_length
    robustmq.Mqtt.Reader.read_u8 robustmq.Mqtt.V5.PropertyType.property
    robustmq.Mqtt.V5.PropertyType.property_u8 robustmq.Mqtt.V5.Publish.Properties.arms
    robustmq.Mqtt.V5.Fields.u16_arm robustmq.Mqtt.Reader.take_rest
    robustmq.Mqtt.V5.Publish.Properties.empty
aliased_back = refl

-- Three identifiers of one byte: the cursor is at the end after two of them, and the third is
-- read as part of the payload.
three_identifiers : decode (0x30 ∷ 11 ∷ 0 ∷ 1 ∷ 0x61 ∷ 6 ∷ 11 ∷ 1 ∷ 11 ∷ 2 ∷ 11 ∷ 3 ∷ 9 ∷ []) ≡ (
  ok (
      some (
        MqttPacket.publish
          (record publish { qos = at_most_once; pkid = 0; payload = 11 ∷ 3 ∷ 9 ∷ [] })
          (some (record aliased { topic_alias = none; subscription_identifiers = 1 ∷ 2 ∷ [] })))),
  [],
)
unfolding decode robustmq.Mqtt.Frames.decode robustmq.Mqtt.Header.check
    robustmq.Mqtt.Header.parse_fixed_header robustmq.Mqtt.Header.parse_length
    robustmq.Mqtt.Header.new robustmq.Mqtt.Header.frame_length robustmq.Mqtt.Header.packet_type
    robustmq.Mqtt.Header.packet_type_of Publish5.read robustmq.Mqtt.Reader.advance
    robustmq.Mqtt.Reader.read_mqtt_bytes robustmq.Mqtt.Reader.read_u16
    robustmq.Mqtt.V5.Properties.read_properties robustmq.Mqtt.V5.Fields.peek_length
    robustmq.Mqtt.Reader.read_u8 robustmq.Mqtt.V5.PropertyType.property
    robustmq.Mqtt.V5.Publish.Properties.arms robustmq.Mqtt.V5.Fields.identifier_arm
    robustmq.Mqtt.Reader.take_rest robustmq.Mqtt.V5.Publish.Properties.empty
three_identifiers = refl

abbrev no_properties : DisconnectProperties
no_properties = record {
  session_expiry_interval = none;
  reason_string = none;
  user_properties = [];
  server_reference = none;
}

-- The reason is lost where the properties are there and empty.
reason_lost :
    decode
      (encode
        (MqttPacket.disconnect (disconnect DisconnectReasonCode.server_busy) (some no_properties))
        []).1
    ≡ (
      ok (some (MqttPacket.disconnect (disconnect DisconnectReasonCode.normal_disconnection) none)),
      [],
    )
unfolding decode robustmq.Mqtt.Frames.decode robustmq.Mqtt.Header.check
    robustmq.Mqtt.Header.parse_fixed_header encode robustmq.Mqtt.V5.Disconnect.write
    robustmq.Mqtt.Writer.put_u8 robustmq.Mqtt.V5.Properties.len_of len_len
    robustmq.Mqtt.V5.Disconnect.Properties.len robustmq.Mqtt.V5.Fields.len_of_size
    robustmq.Mqtt.V5.Fields.len_of_bytes robustmq.Mqtt.V5.Fields.len_of_users
    robustmq.Mqtt.Header.parse_length robustmq.Mqtt.Header.new robustmq.Mqtt.Header.frame_length
    robustmq.Mqtt.Header.packet_type robustmq.Mqtt.Header.packet_type_of
    robustmq.Mqtt.V5.Disconnect.read robustmq.Mqtt.Reader.advance
reason_lost = refl

-- Without properties the length counts the reason alone, and the byte for no properties is left.
byte_left :
    decode (encode (MqttPacket.disconnect (disconnect DisconnectReasonCode.server_busy) none) []).1
    ≡ (err (insufficient_bytes 1), 0 ∷ [])
unfolding decode robustmq.Mqtt.Frames.decode robustmq.Mqtt.Header.check
    robustmq.Mqtt.Header.parse_fixed_header encode robustmq.Mqtt.V5.Disconnect.write
    robustmq.Mqtt.Writer.put_u8 robustmq.Mqtt.Writer.write_remaining_length
    robustmq.Mqtt.V5.Properties.write_or_zero robustmq.Mqtt.Header.parse_length
    robustmq.Mqtt.Header.new robustmq.Mqtt.Header.frame_length robustmq.Mqtt.Header.packet_type
    robustmq.Mqtt.Header.packet_type_of robustmq.Mqtt.V5.Disconnect.read
    robustmq.Mqtt.Reader.advance robustmq.Mqtt.Reader.read_u8
    robustmq.Mqtt.V5.Properties.read_properties robustmq.Mqtt.V5.Fields.peek_length
byte_left = refl

abbrev auth_properties : AuthProperties
auth_properties = record {
  authentication_method = some (0x6d ∷ []);
  authentication_data = none;
  reason_string = none;
  user_properties = [];
}

auth_announced : announced auth_properties ≡ 5
unfolding robustmq.Mqtt.V5.Properties.len_of len_len robustmq.Mqtt.V5.Auth.Properties.len
    robustmq.Mqtt.V5.Fields.len_of_bytes robustmq.Mqtt.V5.Fields.len_of_users
auth_announced = refl

write-uncounted_example :
    (body : Bytes) × (Auth5.write (auth AuthReason.success) (some auth_properties) [] ≡ (
      ok (1 + len_len (announced auth_properties) + announced auth_properties),
      [] ++ (0b1111_0000 ∷ var_int (announced auth_properties) ++ body),
    ))
    × (length body ≡ 1 + announced auth_properties)
unfolding robustmq.Mqtt.V5.Auth.Properties.len robustmq.Mqtt.V5.Fields.len_of_bytes is_utf8
    robustmq.Mqtt.V5.Fields.len_of_users
write-uncounted_example =
    write-uncounted AuthReason.success auth_properties [] (omega arith)
      (((omega arith, refl), tt, tt, tt), omega arith) (omega (arith, auth_announced))

auth_refused : decode (0xf0 ∷ 0 ∷ []) ≡ (err (invalid_packet_type 15), [])
unfolding decode robustmq.Mqtt.Frames.decode robustmq.Mqtt.Header.check
    robustmq.Mqtt.Header.parse_fixed_header robustmq.Mqtt.Header.parse_length
    robustmq.Mqtt.Header.new robustmq.Mqtt.Header.frame_length robustmq.Mqtt.Header.packet_type
    robustmq.Mqtt.Header.packet_type_of
auth_refused = refl
