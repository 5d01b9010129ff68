-- ===== src/Mqtt/V5/PubAck.antt =====
-- src/protocol/src/mqtt/mqttv5/puback.rs.
use robustmq.Prelude.{ℕ, ◌≤◌, ◌≡◌, refl, Bool, true, false, Option, arith}
use robustmq.Prelude.{◌==◌, if◌then◌else◌, length}
use robustmq.Mqtt.Bytes.{Bytes}
use robustmq.Mqtt.Outcome.{
  Outcome, ok, err, Returns, invalid_connect_return_code, invalid_property_type,
}
use robustmq.Mqtt.Buffer.{Buffered}
use robustmq.Mqtt.Types.Codes.{PubAckReason}
use robustmq.Mqtt.Types.Packets.{FixedHeader, PubAck}
use robustmq.Mqtt.Types.Properties.{PubAckProperties}
use robustmq.Mqtt.V5.Properties.{read_properties}
use robustmq.Mqtt.V5.Properties.Codec.{Codec}
use robustmq.Mqtt.V5.ReasonProperties
use robustmq.Mqtt.V5.Ack

unfoldable pub reason : ℕ → Outcome PubAckReason
reason num =
    if num == 0
    then ok PubAckReason.success
    else if num == 16
    then ok PubAckReason.no_matching_subscribers
    else if num == 128
    then ok PubAckReason.unspecified_error
    else if num == 131
    then ok PubAckReason.implementation_specific_error
    else if num == 135
    then ok PubAckReason.not_authorized
    else if num == 144
    then ok PubAckReason.topic_name_invalid
    else if num == 145
    then ok PubAckReason.packet_identifier_in_use
    else if num == 151
    then ok PubAckReason.quota_exceeded
    else if num == 153
    then ok PubAckReason.payload_format_invalid
    else err (invalid_connect_return_code num)

unfoldable pub code : PubAckReason → ℕ
code PubAckReason.success = 0
code PubAckReason.no_matching_subscribers = 16
code PubAckReason.unspecified_error = 128
code PubAckReason.implementation_specific_error = 131
code PubAckReason.not_authorized = 135
code PubAckReason.topic_name_invalid = 144
code PubAckReason.packet_identifier_in_use = 145
code PubAckReason.quota_exceeded = 151
code PubAckReason.payload_format_invalid = 153

unfoldable pub is_success : PubAckReason → Bool
is_success PubAckReason.success = true
is_success _ = false

abbrev pub properties : ReasonProperties.Shape PubAckProperties
properties = record {
  make = λ reason_string user_properties. record {
    reason_string = reason_string;
    user_properties = user_properties;
  };
  reason_string = λ p. p.reason_string;
  user_properties = λ p. p.user_properties;
  unknown = invalid_property_type;
}

unfoldable pub properties_len : PubAckProperties → ℕ
properties_len = ReasonProperties.len properties

unfoldable pub properties_write : PubAckProperties → Buffered (Unit {0})
properties_write = ReasonProperties.write properties

unfoldable pub properties_read : Buffered (Option PubAckProperties)
properties_read =
    read_properties (ReasonProperties.arms properties) (ReasonProperties.empty properties)

unfoldable pub shape : Ack.Shape PubAck PubAckReason PubAckProperties
unfolding reason code is_success properties_len properties_write properties_read
shape = record {
  byte1 = 0x40;
  make = λ pkid reason. record { pkid = pkid; reason = reason };
  pkid = λ p. p.pkid;
  reason = λ p. p.reason;
  success = PubAckReason.success;
  is_success = is_success;
  code = code;
  reason_of = reason;
  properties_len = properties_len;
  properties_write = properties_write;
  properties_read = properties_read;
}

unfoldable pub len : PubAck → Option PubAckProperties → Outcome ℕ
unfolding shape
len = Ack.len shape

unfoldable pub write : PubAck → Option PubAckProperties → Buffered ℕ
unfolding shape
write = Ack.write shape

unfoldable pub read : FixedHeader → Bytes → Outcome (PubAck × Option PubAckProperties)
unfolding shape
read = Ack.read shape

abbrev pub codec : Codec PubAckProperties
codec = ReasonProperties.Laws.codec properties record {
  reason_string-make = λ _ _. refl;
  user_properties-make = λ _ _. refl;
  make-fields = λ _. refl;
}

reason-code : (r : PubAckReason) → reason (code r) ≡ ok r
unfolding reason code
reason-code r = ground arith

is_success_sound : (r : PubAckReason) → is_success r ≡ true → r ≡ PubAckReason.success
unfolding is_success
is_success_sound r e = ground (arith, e)

reason-Returns : (n : ℕ) → Returns (reason n)
unfolding reason
reason-Returns n = ground arith

pub shape-IsAck : Ack.Laws.IsAck shape codec
unfolding shape properties_len properties_write properties_read ReasonProperties.len
shape-IsAck = record {
  make-fields = λ _. refl;
  reason_of-code = reason-code;
  is_success_sound = is_success_sound;
  reason_of-Returns = reason-Returns;
  same_len = refl;
  same_write = refl;
  same_read = refl;
}

pub read-Returns :
    (h : FixedHeader) (bytes : Bytes) → h.fixed_header_len ≤ length bytes → Returns (read h bytes)
unfolding read
read-Returns = Ack.Laws.read-Returns shape codec shape-IsAck
